-- ===== src/Units.antt =====
-- src/units.rs: sizes, durations, speeds and ranges of them.
pub mod Parse
pub mod Sizes
mod Tests
use mockinx.Common.{ℕ, ◌+◌, ◌/◌, Bool, ltb, ◌==◌}
use mockinx.Error.{Result, ok, or_panic, ◌>>=◌}
use mockinx.Float.{F64, FloatOps}

pub record ByteSize : Type 0 where
  pub bytes : ℕ

-- `as_std`, in nanoseconds
pub record Duration : Type 0 where
  pub nanos : ℕ

pub record Speed : Type 0 where
  pub bytes_per_sec : ℕ

unfoldable pub as_millis : Duration → ℕ
as_millis d = d.nanos / 1_000_000

-- The trait `Scalable: Copy + Ord`. Building a `Duration` may panic.
pub record Scalable (T : Type 0) : Type 0 where
  pub lerp : T → T → F64 → Result T
  pub scale : T → F64 → Result T
  pub lt : T → T → Bool
  pub eq : T → T → Bool

module _ (ops : FloatOps) where
  open ops use {add, sub, mul, of_u64, to_u64, from_secs, as_secs}

  unfoldable pub lerp_u64 : ℕ → ℕ → F64 → ℕ
  lerp_u64 a b t = to_u64 (add (of_u64 a) (mul (sub (of_u64 b) (of_u64 a)) t))

  unfoldable pub scale_u64 : ℕ → F64 → ℕ
  scale_u64 a factor = to_u64 (mul (of_u64 a) factor)

  unfoldable pub duration_of_secs : F64 → Result Duration
  duration_of_secs x = or_panic (from_secs x) >>= λ n. ok (record { nanos = n })

  unfoldable pub byte_size_scalable : Scalable ByteSize
  unfolding lerp_u64 scale_u64
  byte_size_scalable = record {
    lerp = λ a b t. ok (record { bytes = lerp_u64 a.bytes b.bytes t });
    scale = λ a factor. ok (record { bytes = scale_u64 a.bytes factor });
    lt = λ a b. ltb a.bytes b.bytes;
    eq = λ a b. a.bytes == b.bytes;
  }

  unfoldable pub duration_scalable : Scalable Duration
  unfolding duration_of_secs
  duration_scalable = record {
    lerp = λ a b t.
        let lo = as_secs a.nanos in
        let hi = as_secs b.nanos in duration_of_secs (add lo (mul (sub hi lo) t));
    scale = λ a factor. duration_of_secs (mul (as_secs a.nanos) factor);
    lt = λ a b. ltb a.nanos b.nanos;
    eq = λ a b. a.nanos == b.nanos;
  }

  unfoldable pub speed_scalable : Scalable Speed
  unfolding lerp_u64 scale_u64
  speed_scalable = record {
    lerp = λ a b t. ok (record { bytes_per_sec = lerp_u64 a.bytes_per_sec b.bytes_per_sec t });
    scale = λ a factor. ok (record { bytes_per_sec = scale_u64 a.bytes_per_sec factor });
    lt = λ a b. ltb a.bytes_per_sec b.bytes_per_sec;
    eq = λ a b. a.bytes_per_sec == b.bytes_per_sec;
  }

pub data Range (T : Type 0) : Type 0 where
  fixed : T → Range T
  min_max : T → T → Range T

-- The random generator as the stream of its draws in [0, 1) and the place reached.
pub record Rng : Type 0 where
  pub draw : ℕ → F64
  pub place : ℕ

unfoldable pub next_f64 : Rng → F64 × Rng
next_f64 rng = (rng.draw rng.place, record rng { place = rng.place + 1 })

-- `Range::sample`: a fixed range draws nothing.
unfoldable pub sample : {T : Type 0} → Scalable T → Range T → Rng → Result (T × Rng)
unfolding next_f64
sample s (fixed v) rng = ok (v, rng)
sample s (min_max lo hi) rng = let (t, rng') = next_f64 rng in s.lerp lo hi t >>= λ v. ok (v, rng')
