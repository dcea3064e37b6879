-- ===== src/Serve/Engine/Tests.antt =====
-- src/serve/engine.rs: the delivery of three bytes.
use mockinx.Common.{
  ℕ, ◌+◌, ◌*◌, ◌≡◌, ◌≤◌, ◌<◌, ◌⊎◌, inr, refl, false, Option, none, some, List, [], ◌∷◌, length,
  take, arith,
}
use mockinx.Error.{ok}
use mockinx.Units.{sample}
use mockinx.Serve.Pace.{DeliverySpec, PaceSpec}
use mockinx.Units.{fixed}
use mockinx.Serve.Engine.{DeliveryStream, Clock, ready_chunk, ready_end, poll_next, effective_len}
use mockinx.Serve.Engine.Setup.{
  deliver, first_byte_of, drop_bytes_of, drop_deadline_of, hang_bytes_of, hang_deadline_of, pace_of,
  sample_bytes, sample_nanos,
}
use mockinx.Serve.Engine.Chunks.{poll_all, poll_all-prefix}
use mockinx.Serve.Engine.Turn.{collect, IsLive, IsSpaced}
use mockinx.Serve.Engine.Progress.{poll_next-ready_end, collect-eq-take}
use mockinx.Serve.Engine.Deliver.{deliver-collect}
use mockinx.Serve.Engine.Hang.{hang_only, poll_all-hang, hang_only-sends_all}
use mockinx.Samples.{fixed_point, quarter_draws}

abbrev three : List ℕ
three = 1 ∷ 2 ∷ 3 ∷ []

-- Two bytes at a time with a pause of 5 between the chunks, and only the first `limit` bytes.
abbrev paced : Option ℕ → Option ℕ → DeliveryStream
paced drop_after hang_after = record {
  body = three;
  offset = 0;
  chunk_size = 2;
  chunk_delay = some 5;
  drop_after_bytes = drop_after;
  drop_deadline = none;
  hang_after_bytes = hang_after;
  hang_deadline = none;
  first_byte_done = false;
  first_byte_delay = none;
  sleep = none;
  started = false;
}

abbrev at : ℕ → Clock
at t = record { at_start = t; at_timer = t; at_hang = t; at_end = t }

abbrev eight : List Clock
eight = at 10 ∷ at 20 ∷ at 30 ∷ at 40 ∷ at 50 ∷ at 60 ∷ at 70 ∷ at 80 ∷ []

whole_body : collect (paced none none) eight ≡ some three
unfolding collect poll_next
whole_body = refl

poll_all-prefix_example :
    ((poll_all (paced (some 2) none) eight).1
      ≡ take (length (poll_all (paced (some 2) none) eight).1) three)
    × (length (poll_all (paced (some 2) none) eight).1 ≤ effective_len (paced (some 2) none))
poll_all-prefix_example = poll_all-prefix (paced (some 2) none) eight refl

ends : (poll_next (poll_all (paced (some 2) none) (at 10 ∷ at 20 ∷ [])).0 (at 30)).1 ≡ ready_end
unfolding poll_all poll_next
ends = refl

poll_next-ready_end_example :
    (poll_all (paced (some 2) none) (at 10 ∷ at 20 ∷ [])).1
    ≡ take (effective_len (paced (some 2) none)) three
poll_next-ready_end_example =
    poll_next-ready_end (paced (some 2) none) (at 10 ∷ at 20 ∷ []) (at 30) refl refl ends

live : IsLive 5 (paced none none)
live = record {
  no_hang_bytes = refl;
  no_hang_deadline = refl;
  chunk_size = omega arith;
  first_byte_delay = omega arith;
  chunk_delay = omega arith;
  ordered = inr refl;
}

enough : 2 * effective_len (paced none none) + 1 < length eight
unfolding effective_len
enough = omega arith

spaced : IsSpaced 5 0 eight
spaced = (
  omega arith,
  (
    omega arith,
    (omega arith, (omega arith, (omega arith, (omega arith, (omega arith, (omega arith, tt)))))),
  ),
)

collect-eq-take_example :
    collect (paced none none) eight ≡ some (take (effective_len (paced none none)) three)
collect-eq-take_example =
    collect-eq-take 5 0 (paced none none) eight refl refl refl live spaced enough

poll_all-hang_example :
    (length (poll_all (paced none (some 1)) eight).1 ≡ 0)
    ⊎ (length (poll_all (paced none (some 1)) eight).1 < 1 + 2)
poll_all-hang_example = poll_all-hang 1 (paced none (some 1)) eight refl refl

-- `pace: 2b@5ns`
abbrev two_bytes : DeliverySpec
two_bytes = record {
  pace = some (PaceSpec.in_chunks (fixed (record { bytes = 2 })) (fixed (record { nanos = 5 })));
  drop = none;
  hang = none;
  first_byte = none;
}

delivers :
    deliver fixed_point three two_bytes 0 0 quarter_draws ≡ ok (paced none none, quarter_draws)
unfolding deliver first_byte_of drop_bytes_of drop_deadline_of hang_bytes_of hang_deadline_of
    pace_of sample_bytes sample_nanos sample
delivers = refl

deliver-collect_example : collect (paced none none) eight ≡ some three
deliver-collect_example =
    deliver-collect fixed_point three two_bytes 0 0 5 0 quarter_draws quarter_draws
      (paced none none) eight refl refl delivers (omega arith) (omega arith) spaced (omega arith)

abbrev unpaced : DeliveryStream
unpaced = record (paced none (some 1)) { chunk_size = 3; chunk_delay = none }

hangs : deliver fixed_point three (hang_only 1) 0 0 quarter_draws ≡ ok (unpaced, quarter_draws)
unfolding deliver first_byte_of drop_bytes_of drop_deadline_of hang_bytes_of hang_deadline_of
    pace_of sample_bytes sample
hangs = refl

hang_only-sends_all_example : (poll_next unpaced (at 10)).1 ≡ ready_chunk three
hang_only-sends_all_example =
    hang_only-sends_all fixed_point 1 three 0 0 quarter_draws quarter_draws unpaced (at 10)
      (omega arith) (omega arith) hangs
