-- ===== src/Serve/Engine/Hang.antt =====
-- src/serve/engine.rs: how far a hang by bytes holds a stream back.
use mockinx.Common.{
  ℕ, ◌+◌, ◌-◌, ◌≤◌, ◌<◌, ◌≡◌, refl, ◌∙◌, ap, ◌⊎◌, inl, inr, none, some, List, [], ◌∷◌, length, take,
  min, arith, max, Bool-cases,
}
use mockinx.Serve.Engine.{
  DeliveryStream, Clock, ready_chunk, Stage, go, wait, first_byte_stage, chunk_stage, effective_len,
  yield_chunk, send_stage, poll_next, after_first_byte, after_chunk_stage, is_past,
}
use mockinx.Serve.Engine.Chunks.{
  poll_all, Same, stage_stream, first_byte_stage-Same, chunk_stage-Same, poll_next-Sends,
  poll_all-SendsAll, Sends-within, IsUnsent,
}
use mockinx.Serve.Engine.Setup.{
  deliver, first_byte_of, drop_bytes_of, drop_deadline_of, hang_bytes_of, hang_deadline_of, pace_of,
  sample_bytes,
}
use mockinx.Error.{ok}
use mockinx.Float.{FloatOps}
use mockinx.Units.{Rng, fixed, sample}
use mockinx.Serve.Pace.{DeliverySpec, HangSpec}

-- A stream at which the hang has not been passed by more than the chunk that reached it.
abbrev IsHeld : ℕ → DeliveryStream → Type 0
IsHeld limit s = (s.offset ≡ 0) ⊎ (s.offset < limit + s.chunk_size)

send_stage-IsHeld :
    (limit : ℕ) (s : DeliveryStream) (clock : Clock)
    → s.hang_after_bytes ≡ some limit
    → IsHeld limit s
    → IsHeld limit (send_stage s clock).0
unfolding send_stage yield_chunk
send_stage-IsHeld limit s clock h b = ground arith

after_chunk_stage-IsHeld :
    (limit : ℕ) (s : DeliveryStream) (stage : Stage) (clock : Clock)
    → s.hang_after_bytes ≡ some limit
    → IsHeld limit s
    → Same s (stage_stream stage)
    → IsHeld limit (after_chunk_stage stage clock).0
after_chunk_stage-IsHeld limit s (wait t) clock h b e = grind (arith, e.offset, e.chunk_size)
after_chunk_stage-IsHeld limit s (go t) clock h b e =
    send_stage-IsHeld limit t clock (e.hang_after_bytes ∙ h) (grind (arith, e.offset, e.chunk_size))

after_first_byte-IsHeld :
    (limit : ℕ) (s : DeliveryStream) (stage : Stage) (clock : Clock)
    → s.hang_after_bytes ≡ some limit
    → IsHeld limit s
    → Same s (stage_stream stage)
    → IsHeld limit (after_first_byte stage clock).0
after_first_byte-IsHeld limit s (wait t) clock h b e = grind (arith, e.offset, e.chunk_size)
after_first_byte-IsHeld limit s (go t) clock h b e =
    after_chunk_stage-IsHeld limit t (chunk_stage t clock.at_timer) clock (e.hang_after_bytes ∙ h)
      (grind (arith, e.offset, e.chunk_size)) (chunk_stage-Same t clock.at_timer)

poll_next-IsHeld :
    (limit : ℕ) (s : DeliveryStream) (clock : Clock)
    → s.hang_after_bytes ≡ some limit
    → IsHeld limit s
    → IsHeld limit (poll_next s clock).0
unfolding poll_next
poll_next-IsHeld limit s clock h b = elim (Bool-cases (is_past s.drop_deadline clock.at_start)) [
  | inl late ↦ rw late b
  | inr early ↦ rw early (
      after_first_byte-IsHeld limit s (first_byte_stage s clock.at_timer) clock h b
        (first_byte_stage-Same s clock.at_timer))
]

poll_all-IsHeld :
    (limit : ℕ) (s : DeliveryStream) (clocks : List Clock)
    → s.hang_after_bytes ≡ some limit
    → s.offset ≤ effective_len s
    → IsHeld limit s
    → IsHeld limit (poll_all s clocks).0 × ((poll_all s clocks).0.chunk_size ≡ s.chunk_size)
unfolding poll_all
poll_all-IsHeld limit s [] h o b = (b, refl)
poll_all-IsHeld limit s (clock ∷ rest) h o b =
    let one = poll_next-Sends s clock o in
    let (held, same) =
      poll_all-IsHeld limit (poll_next s clock).0 rest (one.hang_after_bytes ∙ h) (Sends-within one)
        (poll_next-IsHeld limit s clock h b) in
    (held, same ∙ one.chunk_size)

-- A hang by bytes holds a stream that starts at offset 0 back to within one chunk: over any polls, fewer
-- bytes are sent than the hang allows and one chunk more, or none at all.
pub poll_all-hang :
    (limit : ℕ) (s : DeliveryStream) (clocks : List Clock)
    → IsUnsent s
    → s.hang_after_bytes ≡ some limit
    → (length (poll_all s clocks).1 ≡ 0) ⊎ (length (poll_all s clocks).1 < limit + s.chunk_size)
poll_all-hang limit s clocks u h =
    let all = poll_all-SendsAll s clocks (omega arith) in
    let (held, same) = poll_all-IsHeld limit s clocks h (omega arith) (inl u) in
    grind (arith, all.moved)

whole_chunk : (xs : List ℕ) (n : ℕ) → n ≡ length xs → take n xs ≡ xs
whole_chunk [] n e = rw e refl
whole_chunk (x ∷ xs) n e = rw e (ap (◌∷◌ x) (whole_chunk xs (length xs) refl))

-- `serve: {hang: …}` with a fixed number of bytes and nothing else.
abbrev pub hang_only : ℕ → DeliverySpec
hang_only limit = record {
  pace = none;
  drop = none;
  hang = some (HangSpec.after_bytes (fixed (record { bytes = limit })));
  first_byte = none;
}

-- With `hang` by bytes alone, and no pacing, where `deliver` returns a stream, its first poll sends the
-- whole body if that is not empty, however few bytes the hang allows, if it allows any: the limit is
-- looked at between chunks only, and the chunk is the body.
pub hang_only-sends_all :
    (ops : FloatOps) (limit : ℕ) (body : List ℕ) (at_drop at_hang : ℕ) (rng rng' : Rng)
    (s : DeliveryStream) (clock : Clock)
    → 0 < limit
    → 0 < length body
    → deliver ops body (hang_only limit) at_drop at_hang rng ≡ ok (s, rng')
    → (poll_next s clock).1 ≡ ready_chunk body
unfolding deliver first_byte_of drop_bytes_of drop_deadline_of hang_bytes_of hang_deadline_of
    pace_of sample_bytes sample poll_next yield_chunk
hang_only-sends_all ops limit body at_drop at_hang rng rng' s clock pos nonempty h =
    ground (arith, whole_chunk body (min (length body - 0) (max (length body) 1)) (omega arith))
