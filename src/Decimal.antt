-- ===== src/Decimal.antt =====
-- Rust's decimal `Display` and `FromStr` for `u64`, and `FromStr` for `i64` below zero.
use mockinx.Common.{
  ℕ, zero, suc, ◌+◌, ◌-◌, ◌*◌, ◌/◌, ◌%◌, ◌^◌, ◌<◌, ◌≡◌, ◌≢◌, refl, sym, ap, subst, ◌∙◌, inl, inr,
  Bool, true, false, lt→ltb, ◌&&◌, Option, none, some, [], ◌∷◌, arith, leb, ltb, ◌==◌,
  if◌then◌else◌, Bool-cases, All,
}
use mockinx.Text.{Text}

unfoldable pub decimal_from : ℕ → ℕ → Text → Text
decimal_from zero n rest = rest
decimal_from (suc fuel) n rest =
    let longer = decimal_from fuel (n / 10) ((b'0' + n % 10) ∷ rest) in
    if ltb n 10 then (b'0' + n) ∷ rest else longer

-- A number has no more digits than itself and one.
unfoldable pub decimal : ℕ → Text
unfolding decimal_from
decimal n = decimal_from (n + 1) n []

abbrev pub is_digit : ℕ → Bool
is_digit c = leb b'0' c && leb c b'9'

unfoldable pub digits_value : ℕ → Text → Option ℕ
digits_value acc [] = some acc
digits_value acc (c ∷ s) =
    let rest = digits_value (acc * 10 + (c - b'0')) s in if is_digit c then rest else none

abbrev below : ℕ → Option ℕ → Option ℕ
below limit none = none
below limit (some n) = if ltb n limit then some n else none

-- At least one digit.
unfoldable pub parse_digits : ℕ → Text → Option ℕ
unfolding digits_value
parse_digits limit [] = none
parse_digits limit (c ∷ s) = below limit (digits_value 0 (c ∷ s))

abbrev pub u64_limit : ℕ
u64_limit = 2 ^ 64

-- `parse::<u64>`, which takes a leading plus.
unfoldable pub parse_u64 : Text → Option ℕ
unfolding parse_digits
parse_u64 [] = none
parse_u64 (c ∷ s) = if c == b'+' then parse_digits u64_limit s else parse_digits u64_limit (c ∷ s)

-- The magnitude of a text that `parse::<i64>` reads with a minus.
unfoldable pub parse_negative : Text → Option ℕ
unfolding parse_digits
parse_negative [] = none
parse_negative (c ∷ s) = if c == b'-' then parse_digits (2 ^ 63 + 1) s else none

digits_value-decimal_from :
    (fuel n : ℕ) (rest : Text)
    → n < fuel
    → digits_value 0 (decimal_from fuel n rest) ≡ digits_value n rest
unfolding digits_value decimal_from
digits_value-decimal_from zero n rest h = absurd (omega arith)
digits_value-decimal_from (suc fuel) n rest h = elim (Bool-cases (ltb n 10)) [
  | inl small ↦
      let e : 0 * 10 + (b'0' + n - b'0') ≡ n = omega arith in
      rw small (ground (arith, ap (λ k. digits_value k rest) e))
  | inr large ↦
      let e : n / 10 * 10 + (b'0' + n % 10 - b'0') ≡ n = omega arith in
      let ih = digits_value-decimal_from fuel (n / 10) ((b'0' + n % 10) ∷ rest) (ground arith) in
      rw large (ih ∙ ground (arith, ap (λ k. digits_value k rest) e))
]

-- The first character is a digit.
abbrev StartsWithDigit : Text → Type 0
StartsWithDigit [] = ⊥
StartsWithDigit (c ∷ s) = is_digit c ≡ true

decimal_from-StartsWithDigit :
    (fuel n : ℕ) (rest : Text) → n < fuel → StartsWithDigit (decimal_from fuel n rest)
unfolding decimal_from
decimal_from-StartsWithDigit zero n rest h = absurd (omega arith)
decimal_from-StartsWithDigit (suc fuel) n rest h = elim (Bool-cases (ltb n 10)) [
  | inl small ↦ rw small (ground arith)
  | inr large ↦
      rw large (decimal_from-StartsWithDigit fuel (n / 10) ((b'0' + n % 10) ∷ rest) (ground arith))
]

digits_value-decimal : (n : ℕ) → digits_value 0 (decimal n) ≡ some n
unfolding decimal
digits_value-decimal n =
    digits_value-decimal_from (n + 1) n [] (omega arith) ∙ (unfold digits_value in refl)

parse_u64_of_digits :
    (s : Text) (n : ℕ)
    → StartsWithDigit s
    → digits_value 0 s ≡ some n
    → n < u64_limit
    → parse_u64 s ≡ some n
unfolding parse_u64
parse_u64_of_digits [] n d e h = absurd d
parse_u64_of_digits (c ∷ s) n d e h =
    let no_plus : (c == b'+') ≡ false = ground arith in
    rw no_plus
      (ap (below u64_limit) e ∙ ap (λ b. if b then some n else none) (lt→ltb n u64_limit h))

-- Printing and parsing a `u64`.
pub parse_u64-decimal : (n : ℕ) → n < u64_limit → parse_u64 (decimal n) ≡ some n
parse_u64-decimal n h =
    parse_u64_of_digits (decimal n) n
      (unfold decimal in decimal_from-StartsWithDigit (n + 1) n [] (omega arith))
      (digits_value-decimal n) h

some_injective : {m n : ℕ} → some m ≡ some n → m ≡ n
some_injective e = cc

pub decimal_injective : (m n : ℕ) → decimal m ≡ decimal n → m ≡ n
decimal_injective m n e =
    some_injective (sym (digits_value-decimal m) ∙ ap (digits_value 0) e ∙ digits_value-decimal n)

abbrev pub AreDigits : Text → Type 0
AreDigits s = All (λ c. is_digit c ≡ true) s

decimal_from-AreDigits :
    (fuel n : ℕ) (rest : Text) → AreDigits rest → AreDigits (decimal_from fuel n rest)
unfolding decimal_from
decimal_from-AreDigits zero n rest h = h
decimal_from-AreDigits (suc fuel) n rest h = elim (Bool-cases (ltb n 10)) [
  | inl small ↦ rw small (ground arith, h)
  | inr large ↦
      rw large (decimal_from-AreDigits fuel (n / 10) ((b'0' + n % 10) ∷ rest) (ground arith, h))
]

pub decimal-AreDigits : (n : ℕ) → AreDigits (decimal n)
unfolding decimal
decimal-AreDigits n = decimal_from-AreDigits (n + 1) n [] tt

pub decimal≢[] : (n : ℕ) → decimal n ≢ []
unfolding decimal
decimal≢[] n e = subst StartsWithDigit e (decimal_from-StartsWithDigit (n + 1) n [] (omega arith))
