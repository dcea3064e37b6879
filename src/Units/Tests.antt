-- ===== src/Units/Tests.antt =====
-- src/units.rs: sizes over decimal fixed-point numbers.
use mockinx.Common.{ℕ, ◌*◌, ◌/◌, ◌<◌, ◌≡◌, refl, ap, ◌++◌, arith}
use mockinx.Text.{str}
use mockinx.Decimal.{parse_u64-decimal}
use mockinx.Error.{ok, fail}
use mockinx.Float.{F64}
use mockinx.Units.{fixed, min_max}
use mockinx.Units.Parse.{parse_byte_size_range}
use mockinx.Units.Sizes.{
  kb, mb, size_bytes, range_text, IntegerLaws, parse_byte_size_range-range_text,
}
use mockinx.Samples.{fixed_point}

product : (m n : ℕ) → m * 1000 * (n * 1000) / 1000 ≡ m * n * 1000
product m n = omega arith

laws : IntegerLaws fixed_point
laws = record {
  reads = λ n h. rw (parse_u64-decimal n (omega arith)) refl;
  not_negative = λ n. ground arith;
  product = λ m n h. ap F64.bits (product m n);
  truncates = λ n h. omega arith;
}

parse_byte_size_range-range_text_example :
    let parsed = parse_byte_size_range fixed_point (range_text 2 mb 10 kb) in
    (size_bytes 10 kb < size_bytes 2 mb
      → parsed ≡ fail (str "range min > max in '" ++ range_text 2 mb 10 kb ++ str "'"))
    × (size_bytes 2 mb ≡ size_bytes 10 kb
        → parsed ≡ ok (fixed (record { bytes = size_bytes 2 mb })))
    × (size_bytes 2 mb < size_bytes 10 kb
        → parsed
          ≡ ok (min_max (record { bytes = size_bytes 2 mb }) (record { bytes = size_bytes 10 kb })))
parse_byte_size_range-range_text_example =
    parse_byte_size_range-range_text fixed_point laws 2 mb 10 kb (omega arith) (omega arith)
