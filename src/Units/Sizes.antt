-- ===== src/Units/Sizes.antt =====
-- src/units.rs: sizes and ranges of sizes that are written as a whole number and a unit.
use mockinx.Common.{
  ℕ, ◌*◌, ◌^◌, ◌<◌, ◌≤◌, ◌≡◌, refl, ap, ◌∙◌, false, none, some, [], ◌∷◌, ◌++◌, arith, All,
  All-append, ◌==◌, ltb, if◌then◌else◌,
}
use mockinx.Text.{Text, str, split_once, strip_suffix, trim, text_eq}
use mockinx.Text.Plain.{
  IsPlain, Avoids, to_lowercase-IsPlain, trim-IsPlain, strip_suffix-eq-none, strip_suffix-append,
  split_once-append,
}
use mockinx.Decimal.{decimal, is_digit, AreDigits, decimal-AreDigits}
use mockinx.Error.{Result, ok, fail, reject, ◌>>◌}
use mockinx.Float.{FloatOps}
use mockinx.Units.{fixed, min_max, Scalable, byte_size_scalable}
use mockinx.Units.Parse.{
  is_empty, size_unit, parse_byte_size, parse_range_str, explicit_range, parse_byte_size_range,
}

pub data SizeUnit : Type 0 where
  b kb mb gb : SizeUnit

abbrev pub suffix : SizeUnit → Text
suffix b = str "b"
suffix kb = str "kb"
suffix mb = str "mb"
suffix gb = str "gb"

abbrev pub multiplier : SizeUnit → ℕ
multiplier b = 1
multiplier kb = 1024
multiplier mb = 1024 * 1024
multiplier gb = 1024 * 1024 * 1024

-- A whole number and a unit, and the bytes that it means.
abbrev pub size_text : ℕ → SizeUnit → Text
size_text n u = decimal n ++ suffix u

abbrev pub size_bytes : ℕ → SizeUnit → ℕ
size_bytes n u = n * multiplier u

-- `f64` is exact on integers below 2^53, and reads them.
pub record IntegerLaws (ops : FloatOps) : Type 0 where
  pub reads : (n : ℕ) → n < 2 ^ 53 → ops.parse (decimal n) ≡ some (ops.of_u64 n)
  pub not_negative : (n : ℕ) → ops.lt (ops.of_u64 n) (ops.of_u64 0) ≡ false
  pub product :
      (m n : ℕ) → m * n < 2 ^ 53 → ops.mul (ops.of_u64 m) (ops.of_u64 n) ≡ ops.of_u64 (m * n)
  pub truncates : (n : ℕ) → n < 2 ^ 53 → ops.to_u64 (ops.of_u64 n) ≡ n

AreDigits-IsPlain : (s : Text) → AreDigits s → All IsPlain s
AreDigits-IsPlain [] h = tt
AreDigits-IsPlain (c ∷ s) (h, hs) = ((ground arith, ground arith), AreDigits-IsPlain s hs)

AreDigits-Avoids : (d : ℕ) (s : Text) → is_digit d ≡ false → AreDigits s → Avoids d s
AreDigits-Avoids d [] e h = tt
AreDigits-Avoids d (c ∷ s) e (h, hs) = (ground arith, AreDigits-Avoids d s e hs)

suffix-IsPlain : (u : SizeUnit) → All IsPlain (suffix u)
unfolding str
suffix-IsPlain b = ((refl, refl), tt)
suffix-IsPlain kb = ((refl, refl), ((refl, refl), tt))
suffix-IsPlain mb = ((refl, refl), ((refl, refl), tt))
suffix-IsPlain gb = ((refl, refl), ((refl, refl), tt))

size_text-IsPlain : (n : ℕ) (u : SizeUnit) → All IsPlain (size_text n u)
size_text-IsPlain n u =
    All-append IsPlain (decimal n) (suffix u) (AreDigits-IsPlain (decimal n) (decimal-AreDigits n))
      (suffix-IsPlain u)

-- A suffix that starts with a letter is found behind digits, or not in what stands behind them.
found :
    (s t : Text) (d : ℕ)
    → AreDigits s
    → is_digit d ≡ false
    → strip_suffix (s ++ d ∷ t) (d ∷ t) ≡ some s
found s t d h e = strip_suffix-append s t d (AreDigits-Avoids d s e h)

missing :
    (s u t : Text) (d : ℕ)
    → AreDigits s
    → is_digit d ≡ false
    → strip_suffix u (d ∷ t) ≡ none
    → strip_suffix (s ++ u) (d ∷ t) ≡ none
missing s u t d h e = strip_suffix-eq-none s u t d (AreDigits-Avoids d s e h)

-- The ladder of suffixes finds the unit behind the digits.
size_unit-suffix :
    (s : Text) (u : SizeUnit) → AreDigits s → size_unit (s ++ suffix u) ≡ some (s, multiplier u)
unfolding size_unit str
size_unit-suffix s gb h = rw (found s (b'b' ∷ []) b'g' h refl, size_unit) refl
size_unit-suffix s mb h =
    let no_gb =
      missing s (str "mb") (b'b' ∷ []) b'g' h refl (unfold strip_suffix text_eq in refl) in
    rw (no_gb, found s (b'b' ∷ []) b'm' h refl, size_unit) refl
size_unit-suffix s kb h =
    let no_gb =
      missing s (str "kb") (b'b' ∷ []) b'g' h refl (unfold strip_suffix text_eq in refl) in
    let no_mb =
      missing s (str "kb") (b'b' ∷ []) b'm' h refl (unfold strip_suffix text_eq in refl) in
    rw (no_gb, no_mb, found s (b'b' ∷ []) b'k' h refl, size_unit) refl
size_unit-suffix s b h =
    let no_gb = missing s (str "b") (b'b' ∷ []) b'g' h refl (unfold strip_suffix text_eq in refl) in
    let no_mb = missing s (str "b") (b'b' ∷ []) b'm' h refl (unfold strip_suffix text_eq in refl) in
    let no_kb = missing s (str "b") (b'b' ∷ []) b'k' h refl (unfold strip_suffix text_eq in refl) in
    rw (no_gb, no_mb, no_kb, found s [] b'b' h refl, size_unit) refl

n-le-size_bytes : (n : ℕ) (u : SizeUnit) → n ≤ size_bytes n u
n-le-size_bytes n b = omega arith
n-le-size_bytes n kb = omega arith
n-le-size_bytes n mb = omega arith
n-le-size_bytes n gb = omega arith

is_empty-append : (s : Text) (u : SizeUnit) → is_empty (s ++ suffix u) ≡ false
unfolding str
is_empty-append [] b = refl
is_empty-append [] kb = refl
is_empty-append [] mb = refl
is_empty-append [] gb = refl
is_empty-append (c ∷ s) u = refl

-- Two sizes with two dots between them.
abbrev pub range_text : ℕ → SizeUnit → ℕ → SizeUnit → Text
range_text lo u hi v = size_text lo u ++ (str ".." ++ size_text hi v)

range_text-IsPlain :
    (lo : ℕ) (u : SizeUnit) (hi : ℕ) (v : SizeUnit) → All IsPlain (range_text lo u hi v)
unfolding str
range_text-IsPlain lo u hi v =
    All-append IsPlain (size_text lo u) (str ".." ++ size_text hi v) (size_text-IsPlain lo u)
      ((refl, refl), ((refl, refl), size_text-IsPlain hi v))

suffix-Avoids : (u : SizeUnit) → Avoids b'.' (suffix u)
unfolding str
suffix-Avoids b = (refl, tt)
suffix-Avoids kb = (refl, (refl, tt))
suffix-Avoids mb = (refl, (refl, tt))
suffix-Avoids gb = (refl, (refl, tt))

split_once-range_text :
    (lo : ℕ) (u : SizeUnit) (hi : ℕ) (v : SizeUnit)
    → split_once (range_text lo u hi v) (str "..") ≡ some (size_text lo u, size_text hi v)
unfolding str
split_once-range_text lo u hi v =
    split_once-append (size_text lo u) (size_text hi v) (b'.' ∷ []) b'.' (
      All-append (λ c. (c == b'.') ≡ false) (decimal lo) (suffix u)
        (AreDigits-Avoids b'.' (decimal lo) refl (decimal-AreDigits lo)) (suffix-Avoids u))

suffix-percent : (u : SizeUnit) → strip_suffix (suffix u) (str "%") ≡ none
unfolding str strip_suffix text_eq
suffix-percent b = refl
suffix-percent kb = refl
suffix-percent mb = refl
suffix-percent gb = refl

size_text-percent : (n : ℕ) (u : SizeUnit) → strip_suffix (size_text n u) (str "%") ≡ none
unfolding str
size_text-percent n u =
    missing (decimal n) (suffix u) [] b'%' (decimal-AreDigits n) refl (suffix-percent u)

module _ (ops : FloatOps) (laws : IntegerLaws ops) where
  -- A size written as a whole number and a unit is read as exactly that many bytes.
  parse_byte_size-size_text :
      (n : ℕ) (u : SizeUnit)
      → size_bytes n u < 2 ^ 53
      → parse_byte_size ops (size_text n u) ≡ ok (record { bytes = size_bytes n u })
  unfolding parse_byte_size
  parse_byte_size-size_text n u h =
      let plain = size_text-IsPlain n u in
      let trimmed = trim-IsPlain (size_text n u) plain in
      let lower = to_lowercase-IsPlain (size_text n u) plain in
      let unit = size_unit-suffix (decimal n) u (decimal-AreDigits n) in
      let small : n < 2 ^ 53 = omega (arith, n-le-size_bytes n u) in
      let filled = is_empty-append (decimal n) u in
      rw
        (
          trimmed,
          lower,
          filled,
          unit,
          laws.reads n small,
          laws.not_negative n,
          laws.product n (multiplier u) h,
          laws.truncates (size_bytes n u) h,
        )
        refl

  parse_range_str-explicit :
      {T : Type 0} (scalable : Scalable T) (parse_fn : Text → Result T) (s base rest : Text)
      → trim s ≡ s
      → split_once s (str "..") ≡ some (base, rest)
      → strip_suffix rest (str "%") ≡ none
      → parse_range_str ops scalable parse_fn s ≡ explicit_range ops scalable parse_fn s base rest
  unfolding parse_range_str
  parse_range_str-explicit scalable parse_fn s base rest trimmed parts plain =
      rw (trimmed, parts, plain, parse_range_str)
        (ap (λ t. explicit_range ops scalable parse_fn t base rest) trimmed)

  -- A range of two such sizes is rejected exactly if the second is less than the first, with an error
  -- that quotes it; two equal sizes are a fixed size, and any others the range between them.
  pub parse_byte_size_range-range_text :
      (lo : ℕ) (u : SizeUnit) (hi : ℕ) (v : SizeUnit)
      → size_bytes lo u < 2 ^ 53
      → size_bytes hi v < 2 ^ 53
      → let parsed = parse_byte_size_range ops (range_text lo u hi v) in
        (size_bytes hi v < size_bytes lo u
          → parsed ≡ fail (str "range min > max in '" ++ range_text lo u hi v ++ str "'"))
        × (size_bytes lo u ≡ size_bytes hi v
            → parsed ≡ ok (fixed (record { bytes = size_bytes lo u })))
        × (size_bytes lo u < size_bytes hi v
            → parsed
              ≡ ok (
                  min_max
                    (record { bytes = size_bytes lo u })
                    (record { bytes = size_bytes hi v })))
  unfolding parse_byte_size_range parse_range_str explicit_range byte_size_scalable
  parse_byte_size_range-range_text lo u hi v hlo hhi =
      let first = parse_byte_size-size_text lo u hlo in
      let second = parse_byte_size-size_text hi v hhi in
      let explicit =
        parse_range_str-explicit (byte_size_scalable ops) (parse_byte_size ops)
          (range_text lo u hi v) (size_text lo u) (size_text hi v)
          (trim-IsPlain (range_text lo u hi v) (range_text-IsPlain lo u hi v))
          (split_once-range_text lo u hi v) (size_text-percent hi v) in
      let read : parse_byte_size_range ops (range_text lo u hi v) ≡ (
          reject (ltb (size_bytes hi v) (size_bytes lo u))
            (str "range min > max in '" ++ range_text lo u hi v ++ str "'")
          >> ok (
              if size_bytes lo u == size_bytes hi v
              then fixed (record { bytes = size_bytes lo u })
              else min_max (record { bytes = size_bytes lo u })
                  (record { bytes = size_bytes hi v }))) =
        explicit ∙ rw (first, second, explicit_range) refl in
      (λ h. ground arith, λ h. ground arith, λ h. ground arith)
