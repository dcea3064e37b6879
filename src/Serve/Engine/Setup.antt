-- ===== src/Serve/Engine/Setup.antt =====
-- src/serve/engine.rs: `deliver`, which samples the ranges of a specification.
use mockinx.Common.{
  ℕ, ◌+◌, ◌-◌, ◌*◌, ◌/◌, ◌%◌, ◌^◌, false, Option, none, some, List, min, max, length, if◌then◌else◌,
  ltb, ◌==◌,
}
use mockinx.Error.{Result, ok, panicked, ◌>>=◌}
use mockinx.Float.{FloatOps}
use mockinx.Units.{
  ByteSize, Duration, Range, Rng, sample, byte_size_scalable, duration_scalable, speed_scalable,
  duration_of_secs,
}
use mockinx.Serve.Pace.{
  DropSpec, HangSpec, PaceSpec, DeliverySpec, over_duration, at_speed, in_chunks,
}
use mockinx.Serve.Engine.{DeliveryStream}

abbrev pub default_chunk_size : ℕ
default_chunk_size = 8192

abbrev pub min_pace_chunks : ℕ
min_pace_chunks = 10

-- `Instant + Duration`, which panics where the seconds leave an `i64`.
unfoldable pub instant_add : ℕ → ℕ → Result ℕ
instant_add now d = if ltb (now + d) (2 ^ 63 * 1_000_000_000) then ok (now + d) else panicked

-- `Duration / u32`, which panics at zero.
unfoldable pub duration_div : ℕ → ℕ → Result ℕ
duration_div d n = if n == 0 then panicked else ok (d / n)

-- The chunk size and the number of chunks for `pace: 5s`.
unfoldable pub paced_chunk_size : ℕ → ℕ
paced_chunk_size len = min (max (len / min_pace_chunks) 1) default_chunk_size

unfoldable pub num_chunks : ℕ → ℕ
unfolding paced_chunk_size
num_chunks len = (len + paced_chunk_size len - 1) / max (paced_chunk_size len) 1

abbrev paced_delay : ℕ → ℕ → Result ℕ
paced_delay duration n = if ltb 1 n then duration_div duration ((n - 1) % 2 ^ 32) else ok duration

abbrev pub Paced : Type 0
Paced = ℕ × Option ℕ × Rng

module _ (ops : FloatOps) where
  open ops use {div, of_u64}

  unfoldable pub sample_nanos : Range Duration → Rng → Result (ℕ × Rng)
  sample_nanos r rng = sample (duration_scalable ops) r rng >>= λ p. ok (p.0.nanos, p.1)

  unfoldable pub sample_bytes : Range ByteSize → Rng → Result (ℕ × Rng)
  sample_bytes r rng = sample (byte_size_scalable ops) r rng >>= λ p. ok (p.0.bytes, p.1)

  abbrev sampled : Result (ℕ × Rng) → Result (Option ℕ × Rng)
  sampled r = r >>= λ p. ok (some p.0, p.1)

  abbrev deadline : ℕ → Result (ℕ × Rng) → Result (Option ℕ × Rng)
  deadline now r = do (d, rng) ← r; t ← instant_add now d; ok (some t, rng)

  unfoldable pub first_byte_of : Option (Range Duration) → Rng → Result (Option ℕ × Rng)
  unfolding sample_nanos
  first_byte_of none rng = ok (none, rng)
  first_byte_of (some r) rng = sampled (sample_nanos r rng)

  unfoldable pub drop_bytes_of : Option DropSpec → Rng → Result (Option ℕ × Rng)
  unfolding sample_bytes
  drop_bytes_of (some (DropSpec.after_bytes r)) rng = sampled (sample_bytes r rng)
  drop_bytes_of _ rng = ok (none, rng)

  unfoldable pub drop_deadline_of : Option DropSpec → ℕ → Rng → Result (Option ℕ × Rng)
  unfolding sample_nanos
  drop_deadline_of (some (DropSpec.after_time r)) now rng = deadline now (sample_nanos r rng)
  drop_deadline_of _ now rng = ok (none, rng)

  unfoldable pub hang_bytes_of : Option HangSpec → Rng → Result (Option ℕ × Rng)
  unfolding sample_bytes
  hang_bytes_of (some (HangSpec.after_bytes r)) rng = sampled (sample_bytes r rng)
  hang_bytes_of _ rng = ok (none, rng)

  unfoldable pub hang_deadline_of : Option HangSpec → ℕ → Rng → Result (Option ℕ × Rng)
  unfolding sample_nanos
  hang_deadline_of (some (HangSpec.after_time r)) now rng = deadline now (sample_nanos r rng)
  hang_deadline_of _ now rng = ok (none, rng)

  -- `PaceSpec::Speed` at `bps` bytes a second
  unfoldable pub speed_pace : ℕ → ℕ → Rng → Result Paced
  speed_pace len bps rng =
      let chunk_size = max (bps / 10) 1 in
      let paced : Result Paced =
        duration_of_secs ops (div (of_u64 chunk_size) (of_u64 bps)) >>= λ d.
        ok (chunk_size, some d.nanos, rng) in
      if bps == 0 then ok (max len 1, none, rng) else paced

  unfoldable pub pace_of : Option PaceSpec → ℕ → Rng → Result Paced
  unfolding sample_bytes sample_nanos paced_chunk_size num_chunks speed_pace
  pace_of none len rng = ok (max len 1, none, rng)
  pace_of (some (in_chunks size interval)) len rng = do
    (s, rng1) ← sample_bytes size rng
    (d, rng2) ← sample_nanos interval rng1
    ok (max s 1, some d, rng2)
  pace_of (some (over_duration range)) len rng = do
    (duration, rng1) ← sample_nanos range rng
    delay ← paced_delay duration (num_chunks len)
    ok (paced_chunk_size len, some delay, rng1)
  pace_of (some (at_speed range)) len rng = do
    (speed, rng1) ← sample (speed_scalable ops) range rng
    speed_pace len speed.bytes_per_sec rng1

  -- `at_drop` and `at_hang` are the instants read for the two deadlines.
  unfoldable pub deliver :
      List ℕ → DeliverySpec → (at_drop at_hang : ℕ) → Rng → Result (DeliveryStream × Rng)
  deliver body spec at_drop at_hang rng = do
    (first_byte_delay, rng1) ← first_byte_of spec.first_byte rng
    (drop_after_bytes, rng2) ← drop_bytes_of spec.drop rng1
    (drop_deadline, rng3) ← drop_deadline_of spec.drop at_drop rng2
    (hang_after_bytes, rng4) ← hang_bytes_of spec.hang rng3
    (hang_deadline, rng5) ← hang_deadline_of spec.hang at_hang rng4
    (chunk_size, chunk_delay, rng6) ← pace_of spec.pace (length body) rng5
    ok (
      record {
        body = body;
        offset = 0;
        chunk_size = chunk_size;
        chunk_delay = chunk_delay;
        drop_after_bytes = drop_after_bytes;
        drop_deadline = drop_deadline;
        hang_after_bytes = hang_after_bytes;
        hang_deadline = hang_deadline;
        first_byte_done = false;
        first_byte_delay = first_byte_delay;
        sleep = none;
        started = false;
      },
      rng6,
    )
