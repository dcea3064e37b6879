-- ===== src/Serve/Engine.antt =====
-- src/serve/engine.rs: the stream that delivers a body in shape. Instants and durations are
-- nanoseconds; a byte is a number.
pub mod Setup
pub mod Chunks
pub mod Turn
pub mod Progress
pub mod Deliver
pub mod Hang
mod Tests
use mockinx.Common.{
  ℕ, ◌+◌, ◌-◌, ◌≤◌, Bool, true, false, Option, none, some, List, [], ◌∷◌, ◌++◌, min, length, take,
  drop, if◌then◌else◌, leb,
}

pub record DeliveryStream : Type 0 where
  pub body : List ℕ
  pub offset : ℕ
  pub chunk_size : ℕ
  pub chunk_delay : Option ℕ
  pub drop_after_bytes : Option ℕ
  pub drop_deadline : Option ℕ
  pub hang_after_bytes : Option ℕ
  pub hang_deadline : Option ℕ
  pub first_byte_done : Bool
  pub first_byte_delay : Option ℕ
  -- the instant at which the pending sleep ends
  pub sleep : Option ℕ
  pub started : Bool

-- The clock as one poll reads it: at the first check, by the timer, at the check for a hang, and at
-- the last check.
pub record Clock : Type 0 where
  pub at_start : ℕ
  pub at_timer : ℕ
  pub at_hang : ℕ
  pub at_end : ℕ

pub data Poll : Type 0 where
  pending : Poll
  ready_chunk : List ℕ → Poll
  ready_end : Poll

-- `Instant::now() >= deadline`, if there is a deadline.
abbrev pub is_past : Option ℕ → ℕ → Bool
is_past none now = false
is_past (some deadline) now = leb deadline now

-- A poll of a sleep, which is set up first if there is none: whether it is over, and its end.
abbrev pub sleep_end : Option ℕ → ℕ → ℕ → ℕ
sleep_end none delay now = now + delay
sleep_end (some deadline) delay now = deadline

-- A stage goes on with a stream or returns `Poll::Pending`.
pub data Stage : Type 0 where
  go wait : DeliveryStream → Stage

abbrev pub slept : ℕ → ℕ → DeliveryStream → DeliveryStream → Stage
slept deadline now s woken =
    if leb deadline now then go woken else wait (record s { sleep = some deadline })

abbrev first_byte_sleep : Option ℕ → ℕ → DeliveryStream → Stage
first_byte_sleep none now s = go (record s { first_byte_done = true })
first_byte_sleep (some delay) now s =
    slept (sleep_end s.sleep delay now) now s (record s { first_byte_done = true; sleep = none })

unfoldable pub first_byte_stage : DeliveryStream → ℕ → Stage
first_byte_stage s now =
    if s.first_byte_done then go s else first_byte_sleep s.first_byte_delay now s

abbrev chunk_sleep : Option ℕ → ℕ → DeliveryStream → Stage
chunk_sleep none now s = go s
chunk_sleep (some delay) now s =
    slept (sleep_end s.sleep delay now) now s (record s { sleep = none })

unfoldable pub chunk_stage : DeliveryStream → ℕ → Stage
chunk_stage s now = if s.started then chunk_sleep s.chunk_delay now s else go s

abbrev has_sent : Option ℕ → ℕ → Bool
has_sent none offset = false
has_sent (some limit) offset = leb limit offset

abbrev min_or : ℕ → Option ℕ → ℕ
min_or n none = n
min_or n (some m) = min n m

unfoldable pub effective_len : DeliveryStream → ℕ
effective_len s = min_or (length s.body) s.drop_after_bytes

-- The next chunk; the slice is within bounds where `offset` is at most the body's length.
unfoldable pub yield_chunk : DeliveryStream → DeliveryStream × Poll
unfolding effective_len
yield_chunk s =
    let len = min (effective_len s - s.offset) s.chunk_size in
    (
      record s { offset = s.offset + len; started = true },
      ready_chunk (take len (drop s.offset s.body)),
    )

-- The checks behind the two delays.
unfoldable pub send_stage : DeliveryStream → Clock → DeliveryStream × Poll
unfolding effective_len yield_chunk
send_stage s clock =
    if is_past s.hang_deadline clock.at_hang
    then (s, pending)
    else if has_sent s.hang_after_bytes s.offset
    then (s, pending)
    else if leb (effective_len s) s.offset
    then (s, ready_end)
    else if is_past s.drop_deadline clock.at_end
    then (s, ready_end)
    else yield_chunk s

abbrev after_chunk_stage : Stage → Clock → DeliveryStream × Poll
after_chunk_stage (wait s) clock = (s, pending)
after_chunk_stage (go s) clock = send_stage s clock

abbrev after_first_byte : Stage → Clock → DeliveryStream × Poll
after_first_byte (wait s) clock = (s, pending)
after_first_byte (go s) clock = after_chunk_stage (chunk_stage s clock.at_timer) clock

unfoldable pub poll_next : DeliveryStream → Clock → DeliveryStream × Poll
unfolding first_byte_stage chunk_stage send_stage
poll_next s clock =
    if is_past s.drop_deadline clock.at_start
    then (s, ready_end)
    else after_first_byte (first_byte_stage s clock.at_timer) clock
