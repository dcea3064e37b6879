-- ===== src/Units/Parse.antt =====
-- src/units.rs: the parsers of sizes, durations, speeds and ranges.

use mockinx.Common.{ℕ, ◌*◌, Bool, true, false, Option, none, some, [], ◌∷◌, ◌++◌, if◌then◌else◌}
use mockinx.Text.{Text, str, strip_suffix, trim, to_lowercase, split_once}
use mockinx.Error.{Result, ok, reject, or_fail, ◌>>=◌, ◌>>◌}
use mockinx.Float.{F64, FloatOps}
use mockinx.Json.{Value, as_str}
use mockinx.Units.{
  ByteSize, Duration, Speed, Range, fixed, min_max, Scalable, duration_of_secs, byte_size_scalable,
  duration_scalable, speed_scalable,
}

abbrev pub is_empty : Text → Bool
is_empty [] = true
is_empty (c ∷ s) = false

-- The ladder of `strip_suffix` in `parse_byte_size`.
unfoldable pub size_unit : Text → Option (Text × ℕ)
size_unit s = elim (strip_suffix s (str "gb")) [
  | some n ↦ some (n, 1024 * 1024 * 1024)
  | none ↦ elim (strip_suffix s (str "mb")) [
    | some n ↦ some (n, 1024 * 1024)
    | none ↦ elim (strip_suffix s (str "kb")) [
      | some n ↦ some (n, 1024)
      | none ↦ elim (strip_suffix s (str "b")) [ some n ↦ some (n, 1) | none ↦ none ]
    ]
  ]
]

module _ (ops : FloatOps) where
  open ops use {add, sub, mul, div, lt, eq, of_u64, to_u64}

  unfoldable pub parse_byte_size : Text → Result ByteSize
  unfolding size_unit
  parse_byte_size text = do
    let s = to_lowercase (trim text)
    reject (is_empty s) (str "empty byte size string")
    (num_str, multiplier) ←
        or_fail (size_unit s)
          (str "invalid byte size unit in '" ++ s ++ str "', expected b/kb/mb/gb")
    num ← or_fail (ops.parse num_str) (str "invalid number in byte size '" ++ s ++ str "'")
    reject (lt num (of_u64 0)) (str "byte size cannot be negative: '" ++ s ++ str "'")
    ok (record { bytes = to_u64 (mul num (of_u64 multiplier)) })

  -- The literals 0.001, 1.0 and 60.0.
  unfoldable pub time_unit : Text → Option (Text × F64)
  time_unit s = elim (strip_suffix s (str "ms")) [
    | some n ↦ some (n, div (of_u64 1) (of_u64 1000))
    | none ↦ elim (strip_suffix s (str "s")) [
      | some n ↦ some (n, of_u64 1)
      | none ↦ elim (strip_suffix s (str "m")) [ some n ↦ some (n, of_u64 60) | none ↦ none ]
    ]
  ]

  unfoldable pub parse_duration : Text → Result Duration
  unfolding time_unit
  parse_duration text = do
    let s = to_lowercase (trim text)
    reject (is_empty s) (str "empty duration string")
    (num_str, factor_secs) ←
        or_fail (time_unit s) (str "invalid duration unit in '" ++ s ++ str "', expected ms/s/m")
    num ← or_fail (ops.parse num_str) (str "invalid number in duration '" ++ s ++ str "'")
    reject (lt num (of_u64 0)) (str "duration cannot be negative: '" ++ s ++ str "'")
    duration_of_secs ops (mul num factor_secs)

  unfoldable pub parse_speed : Text → Result Speed
  unfolding parse_byte_size
  parse_speed text = do
    let s = to_lowercase (trim text)
    reject (is_empty s) (str "empty speed string")
    size_str ←
        or_fail (strip_suffix s (str "/s"))
          (str "invalid speed format '" ++ s ++ str "', expected .../s")
    size ← parse_byte_size size_str
    ok (record { bytes_per_sec = size.bytes })

  module _ {T : Type 0} (scalable : Scalable T) (parse_fn : Text → Result T) where
    -- `base..pct%`
    unfoldable pub percent_range : Text → Text → Text → Result (Range T)
    percent_range s base_str pct_str = do
      base ← parse_fn base_str
      pct ← or_fail (ops.parse pct_str) (str "invalid percentage in '" ++ s ++ str "'")
      reject (lt pct (of_u64 0)) (str "percentage cannot be negative: '" ++ s ++ str "'")
      let fraction = div pct (of_u64 100)
      let around = do
        lo ← scalable.scale base (sub (of_u64 1) fraction)
        hi ← scalable.scale base (add (of_u64 1) fraction)
        ok (min_max lo hi)
      if eq fraction (of_u64 0) then ok (fixed base) else around

    -- `min..max`
    unfoldable pub explicit_range : Text → Text → Text → Result (Range T)
    explicit_range s base_str rest = do
      lo ← parse_fn base_str
      hi ← parse_fn rest
      reject (scalable.lt hi lo) (str "range min > max in '" ++ s ++ str "'")
      ok (if scalable.eq lo hi then fixed lo else min_max lo hi)

    unfoldable pub parse_range_str : Text → Result (Range T)
    unfolding percent_range explicit_range
    parse_range_str text =
        let s = trim text in
        elim (split_once s (str "..")) [
          | some (base_str, rest) ↦ elim (strip_suffix rest (str "%")) [
            | some pct_str ↦ percent_range s base_str pct_str
            | none ↦ explicit_range s base_str rest
          ]
          | none ↦ parse_fn s >>= λ val. ok (fixed val)
        ]

  unfoldable pub parse_byte_size_range : Text → Result (Range ByteSize)
  unfolding parse_range_str parse_byte_size byte_size_scalable
  parse_byte_size_range = parse_range_str (byte_size_scalable ops) parse_byte_size

  unfoldable pub parse_duration_range : Text → Result (Range Duration)
  unfolding parse_range_str parse_duration duration_scalable
  parse_duration_range = parse_range_str (duration_scalable ops) parse_duration

  unfoldable pub parse_speed_range : Text → Result (Range Speed)
  unfolding parse_range_str parse_speed speed_scalable
  parse_speed_range = parse_range_str (speed_scalable ops) parse_speed

  -- The same for a JSON value.
  unfoldable pub parse_byte_size_range_value : Value → Result (Range ByteSize)
  unfolding parse_byte_size_range
  parse_byte_size_range_value v = do
    s ← or_fail (as_str v) (str "byte size range must be a string")
    parse_byte_size_range s

  unfoldable pub parse_duration_range_value : Value → Result (Range Duration)
  unfolding parse_duration_range
  parse_duration_range_value v = do
    s ← or_fail (as_str v) (str "duration range must be a string")
    parse_duration_range s

  unfoldable pub parse_speed_range_value : Value → Result (Range Speed)
  unfolding parse_speed_range
  parse_speed_range_value v = do
    s ← or_fail (as_str v) (str "speed range must be a string")
    parse_speed_range s
