-- ===== src/Store/Matching.antt =====
-- src/store.rs: which entry answers a request.
use mathlib.Core.List.{reverse-cons}
use mockinx.Common.{
  ◌≡◌, refl, sym, ap, subst, ◌∙◌, ◌↔◌, ◌⊎◌, inl, inr, true, false, Option, none, some, List, [],
  ◌∷◌, ◌++◌, reverse, arith, All, Bool-cases,
}
use mockinx.Text.{Text}
use mockinx.MatchRule.{matches}
use mockinx.Store.{RuleEntry, RuleStore, find_match, match_request}

abbrev pub Matches : Text → Text → RuleEntry → Type 0
Matches method path e = matches e.rule.match_rule method path ≡ true

abbrev pub Misses : Text → Text → RuleEntry → Type 0
Misses method path e = matches e.rule.match_rule method path ≡ false

-- The list ends in an entry that matches and entries that do not.
abbrev pub IsLastMatch : Text → Text → RuleEntry → List RuleEntry → Type 0
IsLastMatch method path e entries =
    (before : List RuleEntry) × (after : List RuleEntry) × (entries ≡ before ++ e ∷ after)
    × Matches method path e
    × All (Misses method path) after

abbrev or_else : Option RuleEntry → Option RuleEntry → Option RuleEntry
or_else none o = o
or_else (some e) o = some e

find_match-append :
    (method path : Text) (xs ys : List RuleEntry)
    → find_match method path (xs ++ ys)
      ≡ or_else (find_match method path xs) (find_match method path ys)
unfolding find_match
find_match-append method path [] ys = refl
find_match-append method path (x ∷ xs) ys = ground (arith, find_match-append method path xs ys)

find_match-reverse-cons :
    (method path : Text) (x : RuleEntry) (xs : List RuleEntry)
    → find_match method path (reverse (x ∷ xs))
      ≡ or_else (find_match method path (reverse xs)) (find_match method path (x ∷ []))
find_match-reverse-cons method path x xs =
    ap (find_match method path) (reverse-cons x xs)
    ∙ find_match-append method path (reverse xs) (x ∷ [])

-- Either the search from the back finds the last match, or nothing matches.
find_match-cases :
    (method path : Text) (xs : List RuleEntry)
    → ((e : RuleEntry) × (find_match method path (reverse xs) ≡ some e)
        × IsLastMatch method path e xs)
      ⊎ ((find_match method path (reverse xs) ≡ none) × All (Misses method path) xs)
unfolding find_match
find_match-cases method path [] = inr (refl, tt)
find_match-cases method path (x ∷ xs) = elim (find_match-cases method path xs) [
  | inl (e, found, (before, after, split, m, misses)) ↦ inl (
    e,
    find_match-reverse-cons method path x xs ∙ rw found refl,
    (x ∷ before, after, ap (◌∷◌ x) split, m, misses),
  )
  | inr (missing, misses) ↦ elim (Bool-cases (matches x.rule.match_rule method path)) [
    | inl m ↦ inl (
      x,
      find_match-reverse-cons method path x xs ∙ rw (missing, m) refl,
      ([], xs, refl, m, misses),
    )
    | inr n ↦ inr (find_match-reverse-cons method path x xs ∙ rw (missing, n) refl, (n, misses))
  ]
]

find_match-reverse-none :
    (method path : Text) (xs : List RuleEntry)
    → All (Misses method path) xs
    → find_match method path (reverse xs) ≡ none
unfolding find_match
find_match-reverse-none method path [] h = refl
find_match-reverse-none method path (x ∷ xs) h =
    find_match-reverse-cons method path x xs
    ∙ rw (find_match-reverse-none method path xs h.1, h.0) refl

find_match-reverse-some :
    (method path : Text) (e : RuleEntry) (before after : List RuleEntry)
    → Matches method path e
    → All (Misses method path) after
    → find_match method path (reverse (before ++ e ∷ after)) ≡ some e
unfolding find_match
find_match-reverse-some method path e [] after m h =
    find_match-reverse-cons method path e after
    ∙ rw (find_match-reverse-none method path after h, m) refl
find_match-reverse-some method path e (x ∷ before) after m h =
    find_match-reverse-cons method path x (before ++ e ∷ after)
    ∙ rw (find_match-reverse-some method path e before after m h) refl

-- A request is answered by an entry exactly when this entry matches it and no entry that was
-- registered later does; no entry answers exactly when none matches.
pub match_request_iff :
    (store : RuleStore) (method path : Text)
    → ((e : RuleEntry)
        → (match_request store method path ≡ some e) ↔ IsLastMatch method path e store.entries)
      × ((match_request store method path ≡ none) ↔ All (Misses method path) store.entries)
unfolding match_request
match_request_iff store method path = elim (find_match-cases method path store.entries) [
  | inl (e, found, last) ↦ (
    λ d. (
      λ h.
          subst (λ x. IsLastMatch method path x store.entries) (some_injective (sym found ∙ h))
            last,
      there d,
    ),
    (λ h. cc (found, h), find_match-reverse-none method path store.entries),
  )
  | inr (missing, misses) ↦ (λ d. (λ h. cc (missing, h), there d), (λ h. misses, λ h. missing))
]
  where
    some_injective : {d e : RuleEntry} → some d ≡ some e → d ≡ e
    some_injective h = cc

    there :
        (d : RuleEntry)
        → IsLastMatch method path d store.entries
        → find_match method path (reverse store.entries) ≡ some d
    there d (before, after, split, m, misses) =
        ap (λ l. find_match method path (reverse l)) split
        ∙ find_match-reverse-some method path d before after m misses
