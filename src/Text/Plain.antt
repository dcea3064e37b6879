-- ===== src/Text/Plain.antt =====
-- Operations of `str` on text that is the same in lower case and has no white space.
use mathlib.Core.List.{reverse-cons, reverse-reverse}
use mockinx.Common.{
  ℕ, ◌≡◌, refl, sym, ap, subst, ◌∙◌, false, none, some, [], ◌∷◌, ◌++◌, reverse, arith, All,
  All-append, ◌==◌,
}
use mockinx.Text.{
  Text, text_eq, text_eq_refl, strip_prefix, strip_suffix, split_once, trim, trim_start_matches,
  trim_end_matches, is_whitespace, to_lowercase, lower_char,
}

-- A character that neither `to_lowercase` nor `trim` changes.
abbrev pub IsPlain : ℕ → Type 0
IsPlain c = (lower_char c ≡ c ∷ []) × (is_whitespace c ≡ false)

pub to_lowercase-IsPlain : (s : Text) → All IsPlain s → to_lowercase s ≡ s
unfolding to_lowercase
to_lowercase-IsPlain [] h = refl
to_lowercase-IsPlain (c ∷ s) (h, hs) = rw (h.0, to_lowercase-IsPlain s hs) refl

trim_start_matches-IsPlain : (s : Text) → All IsPlain s → trim_start_matches is_whitespace s ≡ s
unfolding trim_start_matches
trim_start_matches-IsPlain [] h = refl
trim_start_matches-IsPlain (c ∷ s) (h, hs) = rw h.1 refl

All-reverse : (s : Text) → All IsPlain s → All IsPlain (reverse s)
All-reverse [] h = tt
All-reverse (c ∷ s) (h, hs) =
    subst (All IsPlain) (sym (reverse-cons c s))
      (All-append IsPlain (reverse s) (c ∷ []) (All-reverse s hs) (h, tt))

pub trim-IsPlain : (s : Text) → All IsPlain s → trim s ≡ s
unfolding trim trim_end_matches
trim-IsPlain s h =
    ap (trim_end_matches is_whitespace) (trim_start_matches-IsPlain s h)
    ∙ ap reverse (trim_start_matches-IsPlain (reverse s) (All-reverse s h))
    ∙ reverse-reverse s

-- A text none of whose characters is the first of the suffix.
abbrev pub Avoids : ℕ → Text → Type 0
Avoids d s = All (λ c. (c == d) ≡ false) s

pub strip_suffix-eq-none :
    (s u t : Text) (d : ℕ)
    → Avoids d s
    → strip_suffix u (d ∷ t) ≡ none
    → strip_suffix (s ++ u) (d ∷ t) ≡ none
unfolding strip_suffix text_eq
strip_suffix-eq-none [] u t d a h = h
strip_suffix-eq-none (c ∷ s) u t d (a, as') h = rw (a, strip_suffix-eq-none s u t d as' h) refl

pub strip_suffix-append :
    (s t : Text) (d : ℕ) → Avoids d s → strip_suffix (s ++ d ∷ t) (d ∷ t) ≡ some s
unfolding strip_suffix text_eq
strip_suffix-append [] t d a = rw (text_eq_refl (d ∷ t)) refl
strip_suffix-append (c ∷ s) t d (a, as') = rw (a, strip_suffix-append s t d as') refl

strip_prefix-append : (pat t : Text) → strip_prefix (pat ++ t) pat ≡ some t
unfolding strip_prefix
strip_prefix-append [] t = refl
strip_prefix-append (d ∷ pat) t = ground (arith, strip_prefix-append pat t)

pub split_once-append :
    (s t pat : Text) (d : ℕ) → Avoids d s → split_once (s ++ (d ∷ pat ++ t)) (d ∷ pat) ≡ some (s, t)
unfolding split_once strip_prefix
split_once-append [] t pat d a = ground (arith, strip_prefix-append pat t)
split_once-append (c ∷ s) t pat d (a, as') = ground (arith, split_once-append s t pat d as')
