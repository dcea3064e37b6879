-- ===== src/Server/Resource/Routing.antt =====
-- src/server.rs: which paths name a collection and which an item.
use mathlib.Core.List.{reverse-cons, reverse-append, reverse-reverse, append-nil, append_assoc}
use mockinx.Common.{
  ℕ, ◌==◌, ◌≡◌, ◌≢◌, refl, sym, ap, ◌∙◌, ◌↔◌, inl, inr, true, false, ◌||◌, none, some, List, [],
  ◌∷◌, ◌++◌, reverse, arith, Bool-cases,
}
use mockinx.Text.{Text, split, contains_char, trim_matches, trim_start_matches, trim_end_matches}
use mockinx.Server.Resource.{path_id, is_slash, potential_id}

split-cons : (s : Text) → (t : Text) × (rest : List Text) × (split b'/' s ≡ t ∷ rest)
unfolding split
split-cons [] = ([], [], refl)
split-cons (c ∷ s) =
    let (t, rest, e) = split-cons s in
    elim (Bool-cases (c == b'/')) [
      | inl slash ↦ rw (slash, e) ([], t ∷ rest, refl)
      | inr other ↦ rw (other, e) (c ∷ t, rest, refl)
    ]

split-one : (s : Text) → contains_char b'/' s ≡ false → split b'/' s ≡ s ∷ []
unfolding split contains_char
split-one [] h = refl
split-one (c ∷ s) h = ground (arith, split-one s)

split-two :
    (s : Text)
    → contains_char b'/' s ≡ true
    → (t u : Text) × (rest : List Text) × (split b'/' s ≡ t ∷ u ∷ rest)
unfolding split contains_char
split-two [] h = cc
split-two (c ∷ s) h = elim (Bool-cases (c == b'/')) [
  | inl slash ↦ let (t, rest, e) = split-cons s in rw (slash, e) ([], t, rest, refl)
  | inr other ↦
      let (t, u, rest, e) = split-two s (ground arith) in rw (other, e) (c ∷ t, u, rest, refl)
]

-- A part that holds no slash is the first part.
split-append :
    (s t : Text) → contains_char b'/' s ≡ false → split b'/' (s ++ b'/' ∷ t) ≡ s ∷ split b'/' t
unfolding split contains_char
split-append [] t h = refl
split-append (c ∷ s) t h = ground (arith, split-append s t)

contains_char-append :
    (c : ℕ) (s t : Text) → contains_char c (s ++ t) ≡ (contains_char c s || contains_char c t)
unfolding contains_char
contains_char-append c [] t = refl
contains_char-append c (d ∷ s) t = ground (arith, contains_char-append c s t)

contains_char-reverse : (c : ℕ) (s : Text) → contains_char c (reverse s) ≡ contains_char c s
unfolding contains_char
contains_char-reverse c [] = refl
contains_char-reverse c (d ∷ s) =
    ap (contains_char c) (reverse-cons d s)
    ∙ contains_char-append c (reverse s) (d ∷ [])
    ∙ ground (arith, contains_char-reverse c s)

-- A segment: no slash, and not empty.
abbrev pub IsSegment : Text → Type 0
IsSegment s = (s ≢ []) × (contains_char b'/' s ≡ false)

reverse-IsSegment : (s : Text) → IsSegment s → IsSegment (reverse s)
reverse-IsSegment s (nonempty, h) =
    (λ e. nonempty (sym (reverse-reverse s) ∙ ap reverse e), contains_char-reverse b'/' s ∙ h)

trim_start_matches-append :
    (s t : Text) → IsSegment s → trim_start_matches is_slash (s ++ t) ≡ s ++ t
unfolding trim_start_matches contains_char
trim_start_matches-append [] t (nonempty, h) = absurd (nonempty refl)
trim_start_matches-append (c ∷ s) t (nonempty, h) = ground arith

trim_end_matches-append : (s t : Text) → IsSegment t → trim_end_matches is_slash (s ++ t) ≡ s ++ t
unfolding trim_end_matches
trim_end_matches-append s t h =
    ap (λ r. reverse (trim_start_matches is_slash r)) (reverse-append s t)
    ∙ ap reverse (trim_start_matches-append (reverse t) (reverse s) (reverse-IsSegment t h))
    ∙ ap reverse (sym (reverse-append s t))
    ∙ reverse-reverse (s ++ t)

-- One leading slash goes, and nothing of a path that starts and ends with a segment.
trim_matches-slash :
    (s t u v : Text)
    → IsSegment s
    → IsSegment t
    → s ++ u ≡ v ++ t
    → trim_matches is_slash (b'/' ∷ s ++ u) ≡ s ++ u
unfolding trim_matches
trim_matches-slash s t u v hs ht e =
    ap (trim_end_matches is_slash)
      ((unfold trim_start_matches in refl) ∙ trim_start_matches-append s u hs)
    ∙ ap (trim_end_matches is_slash) e
    ∙ trim_end_matches-append v t ht
    ∙ sym e

-- A request is for the collection exactly when its path holds no slash apart from those at its ends,
-- whatever the path that the rule matches is.
pub path_id_iff :
    (path : Text)
    → (path_id path ≡ none) ↔ (contains_char b'/' (trim_matches is_slash path) ≡ false)
unfolding path_id
path_id_iff path = elim (Bool-cases (contains_char b'/' (trim_matches is_slash path))) [
  | inl nested ↦
      let (t, u, rest, e) = split-two (trim_matches is_slash path) nested in
      (λ h. cc (ap potential_id e, h), λ h. cc (nested, h))
  | inr flat ↦ (λ h. flat, λ h. ap potential_id (split-one (trim_matches is_slash path) flat))
]

path_id-base : (base : Text) → IsSegment base → path_id (b'/' ∷ base) ≡ none
unfolding path_id
path_id-base base b =
    ap (λ s. potential_id (split b'/' (trim_matches is_slash (b'/' ∷ s)))) (sym (append-nil base))
    ∙ ap (λ s. potential_id (split b'/' s))
        (trim_matches-slash base base [] [] b b (append-nil base) ∙ append-nil base)
    ∙ ap potential_id (split-one base b.1)

path_id-item :
    (base id : Text) → IsSegment base → IsSegment id → path_id (b'/' ∷ base ++ b'/' ∷ id) ≡ some id
unfolding path_id
path_id-item base id b i =
    ap (λ s. potential_id (split b'/' s))
      (trim_matches-slash base id (b'/' ∷ id) (base ++ b'/' ∷ []) b i
        (sym (append_assoc base (b'/' ∷ []) id)))
    ∙ ap potential_id (split-append base id b.1)
    ∙ ap (λ parts. potential_id (base ∷ parts)) (split-one id i.1)

pub path_id-segments :
    (base id : Text)
    → IsSegment base
    → IsSegment id
    → (path_id (b'/' ∷ base) ≡ none) × (path_id (b'/' ∷ base ++ b'/' ∷ id) ≡ some id)
path_id-segments base id b i = (path_id-base base b, path_id-item base id b i)
