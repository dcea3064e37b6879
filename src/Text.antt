-- ===== src/Text.antt =====
-- Rust's `str` as a list of Unicode scalar values, with the operations of `str` that the program
-- calls. Where the source counts bytes it only looks for ASCII, so positions agree.
pub mod Plain
use Prim.Native.Char.{code}
use Prim.Native.String.{String}
use mathlib.Core.Option
use mockinx.Common.{
  ℕ, ◌+◌, ◌-◌, ◌≡◌, refl, ◌↔◌, Bool, true, false, ◌&&◌, ◌||◌, Option, none, some, List, [], ◌∷◌,
  ◌++◌, map, reverse, arith, leb, ◌==◌, if◌then◌else◌,
}

abbrev pub Text : Type 0
Text = List ℕ

-- A literal.
unfoldable pub str : String → Text
str String.[] = []
str (String.◌∷◌ c s) = code c ∷ str s

unfoldable pub text_eq : Text → Text → Bool
text_eq [] [] = true
text_eq [] (d ∷ t) = false
text_eq (c ∷ s) [] = false
text_eq (c ∷ s) (d ∷ t) = (c == d) && text_eq s t

unfoldable pub strip_prefix : Text → Text → Option Text
strip_prefix s [] = some s
strip_prefix [] (d ∷ t) = none
strip_prefix (c ∷ s) (d ∷ t) = if c == d then strip_prefix s t else none

unfoldable pub starts_with : Text → Text → Bool
starts_with s [] = true
starts_with [] (d ∷ t) = false
starts_with (c ∷ s) (d ∷ t) = (c == d) && starts_with s t

unfoldable pub strip_suffix : Text → Text → Option Text
unfolding text_eq
strip_suffix [] suffix = if text_eq [] suffix then some [] else none
strip_suffix (c ∷ s) suffix =
    if text_eq (c ∷ s) suffix then some [] else Option.map (◌∷◌ c) (strip_suffix s suffix)

-- The parts before and after the first occurrence: `find` and the two slices around it.
unfoldable pub split_once : Text → Text → Option (Text × Text)
unfolding strip_prefix
split_once [] pat = elim (strip_prefix [] pat) [ some rest ↦ some ([], rest) | none ↦ none ]
split_once (c ∷ s) pat = elim (strip_prefix (c ∷ s) pat) [
  | some rest ↦ some ([], rest)
  | none ↦ elim (split_once s pat) [ some (a, b) ↦ some (c ∷ a, b) | none ↦ none ]
]

unfoldable pub contains_char : ℕ → Text → Bool
contains_char d [] = false
contains_char d (c ∷ s) = (c == d) || contains_char d s

unfoldable pub trim_start_matches : (ℕ → Bool) → Text → Text
trim_start_matches p [] = []
trim_start_matches p (c ∷ s) = if p c then trim_start_matches p s else c ∷ s

unfoldable pub trim_end_matches : (ℕ → Bool) → Text → Text
unfolding trim_start_matches
trim_end_matches p s = reverse (trim_start_matches p (reverse s))

unfoldable pub trim_matches : (ℕ → Bool) → Text → Text
unfolding trim_start_matches trim_end_matches
trim_matches p s = trim_end_matches p (trim_start_matches p s)

-- The Unicode property White_Space.
abbrev pub is_whitespace : ℕ → Bool
is_whitespace c =
    (leb 9 c && leb c 13)
    || (c == 0x20)
    || (c == 0x85)
    || (c == 0xA0)
    || (c == 0x1680)
    || (leb 0x2000 c && leb c 0x200A)
    || (c == 0x2028)
    || (c == 0x2029)
    || (c == 0x202F)
    || (c == 0x205F)
    || (c == 0x3000)

unfoldable pub trim : Text → Text
unfolding trim_start_matches trim_end_matches
trim s = trim_end_matches is_whitespace (trim_start_matches is_whitespace s)

abbrev is_upper : ℕ → Bool
is_upper c = leb b'A' c && leb c b'Z'

abbrev pub lower_ascii : ℕ → ℕ
lower_ascii c = if is_upper c then c + 32 else c

abbrev pub upper_ascii : ℕ → ℕ
upper_ascii c = if leb b'a' c && leb c b'z' then c - 32 else c

-- The characters whose lower case holds ASCII: A to Z, U+0130 and U+212A. Every other one has a
-- lower case of characters outside ASCII and is left as it is: the program compares the result with
-- ASCII only, and prints it in the text of a rejection, which shows such a character as it was written.
abbrev pub lower_char : ℕ → Text
lower_char c =
    if c == 0x130 then b'i' ∷ 0x307 ∷ [] else if c == 0x212A then b'k' ∷ [] else lower_ascii c ∷ []

unfoldable pub to_lowercase : Text → Text
to_lowercase [] = []
to_lowercase (c ∷ s) = lower_char c ++ to_lowercase s

-- HTTP methods are ASCII.
unfoldable pub to_uppercase : Text → Text
to_uppercase [] = []
to_uppercase (c ∷ s) = upper_ascii c ∷ to_uppercase s

unfoldable pub eq_ignore_ascii_case : Text → Text → Bool
eq_ignore_ascii_case [] [] = true
eq_ignore_ascii_case [] (d ∷ t) = false
eq_ignore_ascii_case (c ∷ s) [] = false
eq_ignore_ascii_case (c ∷ s) (d ∷ t) = (lower_ascii c == lower_ascii d) && eq_ignore_ascii_case s t

-- The parts between separators: always at least one.
abbrev prepend_head : ℕ → List Text → List Text
prepend_head c [] = (c ∷ []) ∷ []
prepend_head c (part ∷ parts) = (c ∷ part) ∷ parts

unfoldable pub split : ℕ → Text → List Text
split d [] = [] ∷ []
split d (c ∷ s) = let rest = split d s in if c == d then [] ∷ rest else prepend_head c rest

pub text_eq_iff : (s t : Text) → (text_eq s t ≡ true) ↔ (s ≡ t)
unfolding text_eq
text_eq_iff [] [] = ground arith
text_eq_iff [] (d ∷ t) = ground arith
text_eq_iff (c ∷ s) [] = ground arith
text_eq_iff (c ∷ s) (d ∷ t) = ground (arith, text_eq_iff s t)

pub text_eq_refl : (s : Text) → text_eq s s ≡ true
text_eq_refl s = (text_eq_iff s s).1 refl

pub eq_ignore_ascii_case_iff :
    (s t : Text) → (eq_ignore_ascii_case s t ≡ true) ↔ (map lower_ascii s ≡ map lower_ascii t)
unfolding eq_ignore_ascii_case
eq_ignore_ascii_case_iff [] [] = ground arith
eq_ignore_ascii_case_iff [] (d ∷ t) = ground arith
eq_ignore_ascii_case_iff (c ∷ s) [] = ground arith
eq_ignore_ascii_case_iff (c ∷ s) (d ∷ t) = ground (arith, eq_ignore_ascii_case_iff s t)
