-- ===== src/MatchRule/Coverage.antt =====
-- src/match_rule.rs: the paths that a rule covers, as a relation.
use mockinx.Common.{
  ℕ, ◌≡◌, refl, ap, ◌↔◌, ◌⊎◌, inl, inr, true, Option, none, some, [], ◌∷◌, ◌++◌, map, arith, ==_iff,
  length, get_elem?, Bool-cases,
}
use mockinx.Text.{Text, text_eq, text_eq_iff, starts_with, eq_ignore_ascii_case_iff, lower_ascii}
use mockinx.MatchRule.{
  MatchRule, catch_all, method_path, normalize_path, path_agrees, matches, is_slash, method_agrees,
}

-- The path itself, or one below it in the hierarchy of segments.
abbrev pub IsAtOrBelow : Text → Text → Type 0
IsAtOrBelow base path = (path ≡ base) ⊎ ((rest : Text) × (path ≡ base ++ b'/' ∷ rest))

abbrev pub AcceptsMethod : Option Text → Text → Type 0
AcceptsMethod none method = Unit
AcceptsMethod (some m) method = map lower_ascii m ≡ map lower_ascii method

abbrev pub Covers : MatchRule → Text → Text → Type 0
Covers catch_all method path = Unit
Covers (method_path rule_method rule_path) method path =
    AcceptsMethod rule_method method × IsAtOrBelow (normalize_path rule_path) (normalize_path path)

method_agrees_iff :
    (rule : Option Text) (method : Text)
    → (method_agrees rule method ≡ true) ↔ AcceptsMethod rule method
method_agrees_iff none method = (λ _. tt, λ _. refl)
method_agrees_iff (some m) method = eq_ignore_ascii_case_iff m method

-- The two tests on a longer path find the slash behind the prefix.
below_sound :
    (base path : Text)
    → starts_with path base ≡ true
    → is_slash (get_elem? path (length base)) ≡ true
    → (rest : Text) × (path ≡ base ++ b'/' ∷ rest)
unfolding starts_with
below_sound [] [] h k = cc
below_sound [] (c ∷ path) h k = (path, ap (λ x. x ∷ path) ((==_iff c b'/').0 k))
below_sound (d ∷ base) [] h k = cc
below_sound (d ∷ base) (c ∷ path) h k =
    let (rest, e) = below_sound base path (ground arith) k in (rest, ground arith)

starts_with-append : (base rest : Text) → starts_with (base ++ rest) base ≡ true
unfolding starts_with
starts_with-append [] rest = refl
starts_with-append (d ∷ base) rest = ground (arith, starts_with-append base rest)

get_elem?-append : (base rest : Text) (c : ℕ) → get_elem? (base ++ c ∷ rest) (length base) ≡ some c
get_elem?-append [] rest c = refl
get_elem?-append (d ∷ base) rest c = get_elem?-append base rest c

pub path_agrees_iff : (base path : Text) → (path_agrees base path ≡ true) ↔ IsAtOrBelow base path
unfolding path_agrees
path_agrees_iff base path = (sound, complete)
  where
    sound : path_agrees base path ≡ true → IsAtOrBelow base path
    sound h = elim (Bool-cases (text_eq path base)) [
      | inl same ↦ inl ((text_eq_iff path base).0 same)
      | inr other ↦ inr (below_sound base path (ground arith) (ground arith))
    ]

    complete : IsAtOrBelow base path → path_agrees base path ≡ true
    complete (inl e) = rw ((text_eq_iff path base).1 e)
    complete (inr (rest, e)) =
        rw e
          (ground (arith, starts_with-append base (b'/' ∷ rest), get_elem?-append base rest b'/'))

-- A rule matches a request exactly when it covers it: it is the catch-all, or its method is absent or
-- equal to the request's in any case of letters, and the request's path less one closing slash is
-- the rule's path less one closing slash, or continues it with a slash.
pub matches_iff :
    (rule : MatchRule) (method path : Text)
    → (matches rule method path ≡ true) ↔ Covers rule method path
unfolding matches
matches_iff catch_all method path = (λ _. tt, λ _. refl)
matches_iff (method_path rule_method rule_path) method path = ground (
  arith,
  method_agrees_iff rule_method method,
  path_agrees_iff (normalize_path rule_path) (normalize_path path),
)
