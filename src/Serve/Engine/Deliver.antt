-- ===== src/Serve/Engine/Deliver.antt =====
-- src/serve/engine.rs: the streams that `deliver` sets up.
use mockinx.Common.{
  ℕ, ◌+◌, ◌*◌, false, inr, ap, ◌∙◌, take, ◌≤◌, ◌<◌, ◌≡◌, refl, Option, none, some, List, [], ◌∷◌,
  length, arith,
}
use mathlib.Core.Path.{ap₂}
use mockinx.Error.{ok}
use mockinx.Float.{FloatOps}
use mockinx.Units.{Rng}
use mockinx.Serve.Pace.{
  DropSpec, HangSpec, PaceSpec, over_duration, at_speed, in_chunks, DeliverySpec,
}
use mockinx.Serve.Engine.{DeliveryStream, effective_len, Clock}
use mockinx.Serve.Engine.Turn.{collect, IsSpaced, IsLive, or_zero}
use mockinx.Serve.Engine.Progress.{collect-eq-take}
use mockinx.Serve.Engine.Setup.{
  Paced, pace_of, deliver, drop_bytes_of, hang_bytes_of, drop_deadline_of, hang_deadline_of,
}

module _ (ops : FloatOps) where
  pace_of-pos :
      (pace : Option PaceSpec) (len : ℕ) (rng : Rng) {r : Paced}
      → pace_of ops pace len rng ≡ ok r
      → 0 < r.0
  unfolding pace_of
  pace_of-pos none len rng h = ground arith
  pace_of-pos (some (in_chunks size interval)) len rng h = ground arith
  pace_of-pos (some (over_duration range)) len rng h = ground arith
  pace_of-pos (some (at_speed range)) len rng h = ground arith

  drop_bytes_of-none :
      (d : Option DropSpec) (rng : Rng) {r : Option ℕ × Rng}
      → d ≡ none
      → drop_bytes_of ops d rng ≡ ok r
      → r.0 ≡ none
  unfolding drop_bytes_of
  drop_bytes_of-none none rng e h = ground arith
  drop_bytes_of-none (some d) rng e h = cc

  drop_deadline_of-none :
      (d : Option DropSpec) (now : ℕ) (rng : Rng) {r : Option ℕ × Rng}
      → d ≡ none
      → drop_deadline_of ops d now rng ≡ ok r
      → r.0 ≡ none
  unfolding drop_deadline_of
  drop_deadline_of-none none now rng e h = ground arith
  drop_deadline_of-none (some d) now rng e h = cc

  hang_bytes_of-none :
      (d : Option HangSpec) (rng : Rng) {r : Option ℕ × Rng}
      → d ≡ none
      → hang_bytes_of ops d rng ≡ ok r
      → r.0 ≡ none
  unfolding hang_bytes_of
  hang_bytes_of-none none rng e h = ground arith
  hang_bytes_of-none (some d) rng e h = cc

  hang_deadline_of-none :
      (d : Option HangSpec) (now : ℕ) (rng : Rng) {r : Option ℕ × Rng}
      → d ≡ none
      → hang_deadline_of ops d now rng ≡ ok r
      → r.0 ≡ none
  unfolding hang_deadline_of
  hang_deadline_of-none none now rng e h = ground arith
  hang_deadline_of-none (some d) now rng e h = cc

  take_all : (xs : List ℕ) → take (length xs) xs ≡ xs
  take_all [] = refl
  take_all (x ∷ xs) = ap (◌∷◌ x) (take_all xs)

  -- The start of a stream for a specification with no drop and no hang.
  record Start (body : List ℕ) (s : DeliveryStream) : Type 0 where
    whole : s.body ≡ body
    unsent : s.offset ≡ 0
    chunk_size : 0 < s.chunk_size
    no_drop_bytes : s.drop_after_bytes ≡ none
    no_drop_deadline : s.drop_deadline ≡ none
    no_hang_bytes : s.hang_after_bytes ≡ none
    no_hang_deadline : s.hang_deadline ≡ none
    awake : s.sleep ≡ none
    unstarted : s.started ≡ false

  deliver-Start :
      (body : List ℕ) (spec : DeliverySpec) (at_drop at_hang : ℕ) (rng rng' : Rng)
      (s : DeliveryStream)
      → spec.drop ≡ none
      → spec.hang ≡ none
      → deliver ops body spec at_drop at_hang rng ≡ ok (s, rng')
      → Start body s
  unfolding deliver
  deliver-Start body spec at_drop at_hang rng rng' s d g h = grind (
    arith, pace_of-pos, drop_bytes_of-none, drop_deadline_of-none, hang_bytes_of-none,
    hang_deadline_of-none,
  )

  -- Whatever the pacing and the delay before the first byte, a body is delivered whole if neither a drop
  -- nor a hang is specified: where `deliver` returns a stream, and that stream is polled more than twice
  -- for each byte and once, at instants no closer than its delays, the client collects exactly the body.
  pub deliver-collect :
      (body : List ℕ) (spec : DeliverySpec) (at_drop at_hang gap now : ℕ) (rng rng' : Rng)
      (s : DeliveryStream) (clocks : List Clock)
      → spec.drop ≡ none
      → spec.hang ≡ none
      → deliver ops body spec at_drop at_hang rng ≡ ok (s, rng')
      → or_zero s.first_byte_delay ≤ gap
      → or_zero s.chunk_delay ≤ gap
      → IsSpaced gap now clocks
      → 2 * length body + 1 < length clocks
      → collect s clocks ≡ some body
  unfolding effective_len
  deliver-collect body spec at_drop at_hang gap now rng rng' s clocks d g h fb cd sp n =
      let st = deliver-Start body spec at_drop at_hang rng rng' s d g h in
      let full : effective_len s ≡ length body = cc (st.no_drop_bytes, st.whole) in
      let live : IsLive gap s = record {
        no_hang_bytes = st.no_hang_bytes;
        no_hang_deadline = st.no_hang_deadline;
        chunk_size = st.chunk_size;
        first_byte_delay = fb;
        chunk_delay = cd;
        ordered = inr st.unstarted;
      } in
      collect-eq-take gap now s clocks st.unsent st.awake st.no_drop_deadline live sp
        (omega (arith, full))
      ∙ ap₂ (λ n b. some (take n b)) full st.whole
      ∙ ap some (take_all body)
