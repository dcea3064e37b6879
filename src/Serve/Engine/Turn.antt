-- ===== src/Serve/Engine/Turn.antt =====
-- src/serve/engine.rs: what one poll leaves behind of a stream that is live.
use mockinx.Common.{
  ℕ, ◌+◌, ◌-◌, ◌*◌, ◌≤◌, ◌<◌, ◌≡◌, sym, ap, ◌⊎◌, inl, inr, true, false, Option, none, some, List,
  [], ◌∷◌, ◌++◌, arith, Bool-cases, subst, if◌then◌else◌,
}
use mockinx.Serve.Engine.{
  DeliveryStream, Clock, Poll, pending, ready_chunk, ready_end, Stage, go, wait, first_byte_stage,
  chunk_stage, is_past, effective_len, yield_chunk, send_stage, poll_next, after_first_byte,
  after_chunk_stage,
}
use mockinx.Serve.Engine.Chunks.{stage_stream}

-- Bytes until the stream ends, as a client collects them; `none` if the polls run out first.
abbrev pub collected : Poll → Option (List ℕ) → Option (List ℕ)
collected ready_end rest = some []
collected pending rest = rest
collected (ready_chunk bs) none = none
collected (ready_chunk bs) (some more) = some (bs ++ more)

unfoldable pub collect : DeliveryStream → List Clock → Option (List ℕ)
collect s [] = none
collect s (clock ∷ rest) =
    let (s', poll) = poll_next s clock in let later = collect s' rest in collected poll later

abbrev pub or_zero : Option ℕ → ℕ
or_zero none = 0
or_zero (some n) = n

-- Every poll comes at least `gap` after the one before.
abbrev pub IsSpaced : ℕ → ℕ → List Clock → Type 0
IsSpaced gap now [] = Unit
IsSpaced gap now (clock ∷ rest) = (now + gap ≤ clock.at_timer) × IsSpaced gap clock.at_timer rest

-- No hang is set, chunks are not empty, and no delay is longer than `gap`.
pub record IsLive (gap : ℕ) (s : DeliveryStream) : Type 0 where
  pub no_hang_bytes : s.hang_after_bytes ≡ none
  pub no_hang_deadline : s.hang_deadline ≡ none
  pub chunk_size : 0 < s.chunk_size
  pub first_byte_delay : or_zero s.first_byte_delay ≤ gap
  pub chunk_delay : or_zero s.chunk_delay ≤ gap
  pub ordered : (s.first_byte_done ≡ true) ⊎ (s.started ≡ false)

-- The polls that are left: two for each byte, and one to set up the next sleep.
abbrev asleep : Option ℕ → ℕ
asleep none = 1
asleep (some d) = 0

unfoldable pub polls_left : DeliveryStream → ℕ
unfolding effective_len
polls_left s = 2 * (effective_len s - s.offset) + asleep s.sleep

-- What a poll at `now` leaves behind: the stream is still live, its sleep ends within the gap, and it
-- has ended or is nearer to its end.
pub record Turn (gap now left : ℕ) (r : DeliveryStream × Poll) : Type 0 where
  pub live : IsLive gap r.0
  pub sleeps : or_zero r.0.sleep ≤ now + gap
  pub progress : (r.1 ≡ ready_end) ⊎ (polls_left r.0 + 1 ≤ left)

-- A stage that waits has set up a sleep where there was none.
abbrev StageTurn : ℕ → ℕ → ℕ → Stage → Type 0
StageTurn gap now left (wait t) =
    IsLive gap t × (or_zero t.sleep ≤ now + gap) × (polls_left t + 1 ≤ left)
StageTurn gap now left (go t) =
    IsLive gap t
    × (or_zero t.sleep ≤ now + gap)
    × (polls_left t ≤ left + 1)
    × (t.first_byte_done ≡ true)

send_stage-progress :
    (gap : ℕ) (s : DeliveryStream) (clock : Clock)
    → IsLive gap s
    → ((send_stage s clock).1 ≡ ready_end) ⊎ (polls_left (send_stage s clock).0 + 2 ≤ polls_left s)
unfolding send_stage yield_chunk polls_left
send_stage-progress gap s clock l = ground arith

send_stage-IsLive :
    (gap : ℕ) (s : DeliveryStream) (clock : Clock)
    → IsLive gap s
    → s.first_byte_done ≡ true
    → IsLive gap (send_stage s clock).0
unfolding send_stage yield_chunk
send_stage-IsLive gap s clock l f = ground arith

send_stage-sleep : (s : DeliveryStream) (clock : Clock) → (send_stage s clock).0.sleep ≡ s.sleep
unfolding send_stage yield_chunk
send_stage-sleep s clock = ground arith

after_chunk_stage-Turn :
    (gap left : ℕ) (stage : Stage) (clock : Clock)
    → StageTurn gap clock.at_timer left stage
    → Turn gap clock.at_timer left (after_chunk_stage stage clock)
after_chunk_stage-Turn gap left (wait t) clock h = record {
  live = h.0;
  sleeps = h.1;
  progress = inr h.2;
}
after_chunk_stage-Turn gap left (go t) clock h = record {
  live = send_stage-IsLive gap t clock h.0 h.3;
  sleeps = rw (send_stage-sleep t clock) h.1;
  progress = ground (arith, send_stage-progress gap t clock h.0);
}

chunk_stage-StageTurn :
    (gap now : ℕ) (s : DeliveryStream)
    → IsLive gap s
    → or_zero s.sleep ≤ now
    → s.first_byte_done ≡ true
    → StageTurn gap now (polls_left s) (chunk_stage s now)
unfolding chunk_stage polls_left
chunk_stage-StageTurn gap now s l h f = ground arith

first_byte_stage-StageTurn :
    (gap now : ℕ) (s : DeliveryStream)
    → IsLive gap s
    → or_zero s.sleep ≤ now
    → s.first_byte_done ≡ false
    → StageTurn gap now (polls_left s) (first_byte_stage s now)
      × ((stage_stream (first_byte_stage s now)).started ≡ false)
unfolding first_byte_stage polls_left
first_byte_stage-StageTurn gap now s l h f = ground arith

first_byte_stage_done :
    (s : DeliveryStream) (now : ℕ) → s.first_byte_done ≡ true → first_byte_stage s now ≡ go s
unfolding first_byte_stage
first_byte_stage_done s now e = ground arith

chunk_stage_unstarted :
    (s : DeliveryStream) (now : ℕ) → s.started ≡ false → chunk_stage s now ≡ go s
unfolding chunk_stage
chunk_stage_unstarted s now e = ground arith

after_first_byte-Turn :
    (gap left : ℕ) (stage : Stage) (clock : Clock)
    → StageTurn gap clock.at_timer left stage
    → (stage_stream stage).started ≡ false
    → Turn gap clock.at_timer left (after_first_byte stage clock)
after_first_byte-Turn gap left (wait t) clock h e = record {
  live = h.0;
  sleeps = h.1;
  progress = inr h.2;
}
after_first_byte-Turn gap left (go t) clock h e =
    rw (chunk_stage_unstarted t clock.at_timer e) (after_chunk_stage-Turn gap left (go t) clock h)

poll_next_on_time :
    (s : DeliveryStream) (clock : Clock)
    → s.drop_deadline ≡ none
    → poll_next s clock ≡ after_first_byte (first_byte_stage s clock.at_timer) clock
unfolding poll_next
poll_next_on_time s clock d =
    ap
      (λ o.
        if is_past o clock.at_start
        then (s, ready_end)
        else after_first_byte (first_byte_stage s clock.at_timer) clock)
      d

-- One poll at an instant at which the sleep, if there is one, is over.
pub poll_next-Turn :
    (gap : ℕ) (s : DeliveryStream) (clock : Clock)
    → IsLive gap s
    → or_zero s.sleep ≤ clock.at_timer
    → s.drop_deadline ≡ none
    → Turn gap clock.at_timer (polls_left s) (poll_next s clock)
poll_next-Turn gap s clock l h d =
    subst (Turn gap clock.at_timer (polls_left s)) (sym (poll_next_on_time s clock d)) on_time
  where
    on_time :
        Turn gap clock.at_timer
          (polls_left s)
          (after_first_byte (first_byte_stage s clock.at_timer) clock)
    on_time = elim (Bool-cases s.first_byte_done) [
      | inl done ↦ rw (first_byte_stage_done s clock.at_timer done) (
          after_chunk_stage-Turn gap (polls_left s) (chunk_stage s clock.at_timer) clock
            (chunk_stage-StageTurn gap clock.at_timer s l h done))
      | inr todo ↦
          let (turn, unstarted) = first_byte_stage-StageTurn gap clock.at_timer s l h todo in
          after_first_byte-Turn gap (polls_left s) (first_byte_stage s clock.at_timer) clock turn
            unstarted
    ]
