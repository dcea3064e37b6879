-- ===== src/Serve/Pace.antt =====
-- src/serve/pace.rs: the shaping of a delivery, and its parsers.
use mockinx.Common.{Bool, true, false, Option, none, some, ◌++◌}
use mockinx.Text.{Text, str, trim, split_once}
use mockinx.Error.{Result, ok, err, panicked, fail, or_fail, ◌>>=◌}
use mockinx.Float.{FloatOps}
use mockinx.Units.{ByteSize, Duration, Speed, Range}
use mockinx.Units.Parse.{parse_byte_size_range, parse_duration_range, parse_speed_range}
use mockinx.Json.{string, object, Map, as_str, fields, get}
use mockinx.Reply.{get_str}

pub data DropSpec : Type 0 where
  after_bytes : Range ByteSize → DropSpec
  after_time : Range Duration → DropSpec

pub data HangSpec : Type 0 where
  after_bytes : Range ByteSize → HangSpec
  after_time : Range Duration → HangSpec

pub data PaceSpec : Type 0 where
  over_duration : Range Duration → PaceSpec
  at_speed : Range Speed → PaceSpec
  in_chunks : (size : Range ByteSize) → (interval : Range Duration) → PaceSpec

pub record DeliverySpec : Type 0 where
  pub pace : Option PaceSpec
  pub drop : Option DropSpec
  pub hang : Option HangSpec
  pub first_byte : Option (Range Duration)

unfoldable pub default_delivery : DeliverySpec
default_delivery = record { pace = none; drop = none; hang = none; first_byte = none }

abbrev all_none :
    Option PaceSpec → Option DropSpec → Option HangSpec → Option (Range Duration) → Bool
all_none none none none none = true
all_none _ _ _ _ = false

-- `*delivery == DeliverySpec::default()`
abbrev pub is_default : DeliverySpec → Bool
is_default d = all_none d.pace d.drop d.hang d.first_byte

module _ (ops : FloatOps) where
  unfoldable pub parse_pace_str : Text → Result PaceSpec
  parse_pace_str text =
      let s = trim text in
      elim (split_once s (str "@")) [
        | some (size_str, interval_str) ↦ do
          size ← parse_byte_size_range ops size_str
          interval ← parse_duration_range ops interval_str
          ok (in_chunks size interval)
        | none ↦ elim (split_once s (str "/s")) [
          | some found ↦ parse_speed_range ops s >>= λ r. ok (at_speed r)
          | none ↦ parse_duration_range ops s >>= λ r. ok (over_duration r)
        ]
      ]

  unfoldable pub parse_pace : Map → Result (Option PaceSpec)
  unfolding parse_pace_str
  parse_pace obj = elim (get (str "pace") obj) [
    | none ↦ ok none
    | some pace_val ↦ do
      s ← or_fail (as_str pace_val) (str "pace must be a string")
      pace ← parse_pace_str s
      ok (some pace)
  ]

  -- `if let Ok(range) = parse_byte_size_range(s) … else if let Ok(range) = parse_duration_range(s)`
  unfoldable pub bytes_or_time :
      {A : Type 0} → (Range ByteSize → A) → (Range Duration → A) → Text → Text → Result A
  bytes_or_time by_bytes by_time msg s = elim (parse_byte_size_range ops s) [
    | ok range ↦ ok (by_bytes range)
    | err e ↦ elim (parse_duration_range ops s) [
      | ok range ↦ ok (by_time range)
      | err e' ↦ fail msg
      | panicked ↦ panicked
    ]
    | panicked ↦ panicked
  ]

  unfoldable pub parse_drop_value : Text → Result (Option DropSpec)
  unfolding bytes_or_time
  parse_drop_value s = do
    drop ←
        bytes_or_time DropSpec.after_bytes DropSpec.after_time
          (str "drop '" ++ s ++ str "' is neither a valid byte size nor duration") s
    ok (some drop)

  unfoldable pub parse_drop : Map → Result (Option DropSpec)
  unfolding parse_drop_value
  parse_drop obj = elim (get (str "drop") obj) [
    | none ↦ ok none
    | some (string s) ↦ parse_drop_value s
    | some (object drop_obj) ↦ do
      after ←
          or_fail (get_str (str "after") (fields drop_obj))
            (str "drop object requires 'after' string field")
      parse_drop_value after
    | some v ↦ fail (str "drop must be a string or object")
  ]

  unfoldable pub parse_hang : Map → Result (Option HangSpec)
  unfolding bytes_or_time
  parse_hang obj = elim (get (str "hang") obj) [
    | none ↦ ok none
    | some hang_val ↦ do
      s ← or_fail (as_str hang_val) (str "hang must be a string (e.g. '1s', '10kb')")
      hang ←
          bytes_or_time HangSpec.after_bytes HangSpec.after_time
            (str "hang '" ++ s ++ str "' is neither a valid byte size nor duration") s
      ok (some hang)
  ]

  unfoldable pub parse_first_byte : Map → Result (Option (Range Duration))
  parse_first_byte obj = elim (get (str "first_byte") obj) [
    | none ↦ ok none
    | some (string s) ↦ parse_duration_range ops s >>= λ r. ok (some r)
    | some (object fb_obj) ↦ do
      delay_str ←
          or_fail (get_str (str "delay") (fields fb_obj))
            (str "first_byte object requires 'delay' string field")
      delay ← parse_duration_range ops delay_str
      ok (some delay)
    | some v ↦ fail (str "first_byte must be a string or object")
  ]

  unfoldable pub parse_delivery_fields : Map → Result DeliverySpec
  unfolding parse_pace parse_drop parse_hang parse_first_byte
  parse_delivery_fields obj = do
    pace ← parse_pace obj
    drop ← parse_drop obj
    hang ← parse_hang obj
    first_byte ← parse_first_byte obj
    ok (record { pace = pace; drop = drop; hang = hang; first_byte = first_byte })
