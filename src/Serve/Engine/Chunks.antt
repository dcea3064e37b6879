-- ===== src/Serve/Engine/Chunks.antt =====
-- src/serve/engine.rs: what a stream hands out over any sequence of polls.
use mockinx.Common.{
  ℕ, zero, suc, ◌+◌, ◌-◌, ◌≤◌, ◌≡◌, refl, sym, ap, ◌∙◌, inl, inr, List, [], ◌∷◌, ◌++◌, min, length,
  take, drop, arith, subst, Bool-cases, length-take, length-drop, length-append, drop-drop,
  take-append-take,
}
use mathlib.Core.Path.{subst₂, ap₂}
use mockinx.Serve.Engine.{
  DeliveryStream, Clock, Poll, pending, ready_chunk, ready_end, Stage, go, wait, first_byte_stage,
  chunk_stage, min_or, is_past, effective_len, yield_chunk, send_stage, poll_next, after_first_byte,
  after_chunk_stage,
}

abbrev pub bytes_of : Poll → List ℕ
bytes_of (ready_chunk bs) = bs
bytes_of pending = []
bytes_of ready_end = []

-- A stream polled at each clock reading in turn, with all the bytes that it hands out.
unfoldable pub poll_all : DeliveryStream → List Clock → DeliveryStream × List ℕ
poll_all s [] = (s, [])
poll_all s (clock ∷ rest) =
    let (s', poll) = poll_next s clock in
    let (last, bytes) = poll_all s' rest in (last, bytes_of poll ++ bytes)

-- The stages before the last leave alone all that decides what is sent.
pub record Same (s t : DeliveryStream) : Type 0 where
  pub body : t.body ≡ s.body
  pub offset : t.offset ≡ s.offset
  pub chunk_size : t.chunk_size ≡ s.chunk_size
  pub drop_after_bytes : t.drop_after_bytes ≡ s.drop_after_bytes
  pub hang_after_bytes : t.hang_after_bytes ≡ s.hang_after_bytes
  pub drop_deadline : t.drop_deadline ≡ s.drop_deadline
  pub hang_deadline : t.hang_deadline ≡ s.hang_deadline

abbrev pub stage_stream : Stage → DeliveryStream
stage_stream (go s) = s
stage_stream (wait s) = s

pub first_byte_stage-Same :
    (s : DeliveryStream) (now : ℕ) → Same s (stage_stream (first_byte_stage s now))
unfolding first_byte_stage
first_byte_stage-Same s now = ground arith

pub chunk_stage-Same : (s : DeliveryStream) (now : ℕ) → Same s (stage_stream (chunk_stage s now))
unfolding chunk_stage
chunk_stage-Same s now = ground arith

-- One poll: the stream moves on by the bytes that it hands out, which are the next ones of the body.
pub record Sends (s : DeliveryStream) (r : DeliveryStream × Poll) : Type 0 where
  pub body : r.0.body ≡ s.body
  pub chunk_size : r.0.chunk_size ≡ s.chunk_size
  pub drop_after_bytes : r.0.drop_after_bytes ≡ s.drop_after_bytes
  pub hang_after_bytes : r.0.hang_after_bytes ≡ s.hang_after_bytes
  pub drop_deadline : r.0.drop_deadline ≡ s.drop_deadline
  pub hang_deadline : r.0.hang_deadline ≡ s.hang_deadline
  pub within : r.0.offset ≤ effective_len s
  pub moved : r.0.offset ≡ s.offset + length (bytes_of r.1)
  pub sent : bytes_of r.1 ≡ take (length (bytes_of r.1)) (drop s.offset s.body)
  pub at_most : length (bytes_of r.1) ≤ s.chunk_size

take-length-take : (n : ℕ) (xs : List ℕ) → take (length (take n xs)) xs ≡ take n xs
take-length-take zero xs = refl
take-length-take (suc n) [] = refl
take-length-take (suc n) (x ∷ xs) = ap (◌∷◌ x) (take-length-take n xs)

effective_len-le : (s : DeliveryStream) → effective_len s ≤ length s.body
unfolding effective_len
effective_len-le s = ground arith

stays-Sends :
    (s : DeliveryStream) (p : Poll) → bytes_of p ≡ [] → s.offset ≤ effective_len s → Sends s (s, p)
stays-Sends s p e h = record {
  body = refl;
  chunk_size = refl;
  drop_after_bytes = refl;
  hang_after_bytes = refl;
  drop_deadline = refl;
  hang_deadline = refl;
  within = h;
  moved = rw e (omega arith);
  sent = rw e refl;
  at_most = rw e (omega arith);
}

chunk_length :
    (s : DeliveryStream) (n : ℕ)
    → n ≤ effective_len s - s.offset
    → length (take n (drop s.offset s.body)) ≡ n
chunk_length s n h =
    omega
      (arith, length-take n (drop s.offset s.body), length-drop s.offset s.body, effective_len-le s)

yield_chunk-Sends : (s : DeliveryStream) → s.offset ≤ effective_len s → Sends s (yield_chunk s)
unfolding yield_chunk
yield_chunk-Sends s h = record {
  body = refl;
  chunk_size = refl;
  drop_after_bytes = refl;
  hang_after_bytes = refl;
  drop_deadline = refl;
  hang_deadline = refl;
  within = omega arith;
  moved = rw counted refl;
  sent = sym (take-length-take _ (drop s.offset s.body));
  at_most = rw counted (omega arith);
}
  where
    counted :
        length (take (min (effective_len s - s.offset) s.chunk_size) (drop s.offset s.body))
        ≡ min (effective_len s - s.offset) s.chunk_size
    counted = chunk_length s (min (effective_len s - s.offset) s.chunk_size) (omega arith)

pub send_stage-Sends :
    (s : DeliveryStream) (clock : Clock) → s.offset ≤ effective_len s → Sends s (send_stage s clock)
unfolding send_stage
send_stage-Sends s clock h =
    ground
      (arith, stays-Sends s pending refl h, stays-Sends s ready_end refl h, yield_chunk-Sends s h)

Same-Sends : {s t : DeliveryStream} {r : DeliveryStream × Poll} → Same s t → Sends t r → Sends s r
unfolding effective_len
Same-Sends {s} {t} {r} e h = record {
  body = h.body ∙ e.body;
  chunk_size = h.chunk_size ∙ e.chunk_size;
  drop_after_bytes = h.drop_after_bytes ∙ e.drop_after_bytes;
  hang_after_bytes = h.hang_after_bytes ∙ e.hang_after_bytes;
  drop_deadline = h.drop_deadline ∙ e.drop_deadline;
  hang_deadline = h.hang_deadline ∙ e.hang_deadline;
  within = subst₂ (λ b d. r.0.offset ≤ min_or (length b) d) e.body e.drop_after_bytes h.within;
  moved = subst (λ o. r.0.offset ≡ o + length (bytes_of r.1)) e.offset h.moved;
  sent =
      subst₂ (λ o b. bytes_of r.1 ≡ take (length (bytes_of r.1)) (drop o b)) e.offset e.body h.sent;
  at_most = subst (λ c. length (bytes_of r.1) ≤ c) e.chunk_size h.at_most;
}

pub Same-effective_len :
    {s t : DeliveryStream} → Same s t → s.offset ≤ effective_len s → t.offset ≤ effective_len t
unfolding effective_len
Same-effective_len {s} {t} e h =
    subst₂ (λ b d. t.offset ≤ min_or (length b) d) (sym e.body) (sym e.drop_after_bytes)
      (subst (λ o. o ≤ min_or (length s.body) s.drop_after_bytes) (sym e.offset) h)

after_chunk_stage-Sends :
    (s : DeliveryStream) (stage : Stage) (clock : Clock)
    → s.offset ≤ effective_len s
    → Same s (stage_stream stage)
    → Sends s (after_chunk_stage stage clock)
after_chunk_stage-Sends s (wait t) clock h e =
    Same-Sends e (stays-Sends t pending refl (Same-effective_len e h))
after_chunk_stage-Sends s (go t) clock h e =
    Same-Sends e (send_stage-Sends t clock (Same-effective_len e h))

after_first_byte-Sends :
    (s : DeliveryStream) (stage : Stage) (clock : Clock)
    → s.offset ≤ effective_len s
    → Same s (stage_stream stage)
    → Sends s (after_first_byte stage clock)
after_first_byte-Sends s (wait t) clock h e =
    Same-Sends e (stays-Sends t pending refl (Same-effective_len e h))
after_first_byte-Sends s (go t) clock h e = Same-Sends e (
    after_chunk_stage-Sends t (chunk_stage t clock.at_timer) clock (Same-effective_len e h)
      (chunk_stage-Same t clock.at_timer))

pub poll_next-Sends :
    (s : DeliveryStream) (clock : Clock) → s.offset ≤ effective_len s → Sends s (poll_next s clock)
unfolding poll_next
poll_next-Sends s clock h = elim (Bool-cases (is_past s.drop_deadline clock.at_start)) [
  | inl late ↦ rw late (stays-Sends s ready_end refl h)
  | inr early ↦ rw early (
      after_first_byte-Sends s (first_byte_stage s clock.at_timer) clock h
        (first_byte_stage-Same s clock.at_timer))
]

-- A whole sequence of polls.
pub record SendsAll (s : DeliveryStream) (r : DeliveryStream × List ℕ) : Type 0 where
  pub body : r.0.body ≡ s.body
  pub drop_after_bytes : r.0.drop_after_bytes ≡ s.drop_after_bytes
  pub drop_deadline : r.0.drop_deadline ≡ s.drop_deadline
  pub within : r.0.offset ≤ effective_len s
  pub moved : r.0.offset ≡ s.offset + length r.1
  pub sent : r.1 ≡ take (length r.1) (drop s.offset s.body)

pub Sends-effective_len :
    {s : DeliveryStream} {r : DeliveryStream × Poll}
    → Sends s r
    → effective_len r.0 ≡ effective_len s
unfolding effective_len
Sends-effective_len h = cc (h.body, h.drop_after_bytes)

pub Sends-within :
    {s : DeliveryStream} {r : DeliveryStream × Poll} → Sends s r → r.0.offset ≤ effective_len r.0
Sends-within h = omega (arith, h.within, Sends-effective_len h)

SendsAll-cons :
    {s : DeliveryStream} {r : DeliveryStream × Poll} {q : DeliveryStream × List ℕ}
    → Sends s r
    → SendsAll r.0 q
    → SendsAll s (q.0, bytes_of r.1 ++ q.1)
SendsAll-cons {s} {r} {q} one many = record {
  body = many.body ∙ one.body;
  drop_after_bytes = many.drop_after_bytes ∙ one.drop_after_bytes;
  drop_deadline = many.drop_deadline ∙ one.drop_deadline;
  within = omega (arith, many.within, Sends-effective_len one);
  moved = omega (arith, many.moved, one.moved, length-append (bytes_of r.1) q.1);
  sent = ap₂ ◌++◌ one.sent later ∙ take-append-take _ _ (drop s.offset s.body) ∙ counted;
}
  where
    later : q.1 ≡ take (length q.1) (drop (length (bytes_of r.1)) (drop s.offset s.body))
    later =
        many.sent
        ∙ ap₂ (λ o b. take (length q.1) (drop o b)) one.moved one.body
        ∙ ap (take (length q.1)) (sym (drop-drop s.offset (length (bytes_of r.1)) s.body))

    counted :
        take (length (bytes_of r.1) + length q.1) (drop s.offset s.body)
        ≡ take (length (bytes_of r.1 ++ q.1)) (drop s.offset s.body)
    counted = ap (λ n. take n (drop s.offset s.body)) (sym (length-append (bytes_of r.1) q.1))

pub poll_all-SendsAll :
    (s : DeliveryStream) (clocks : List Clock)
    → s.offset ≤ effective_len s
    → SendsAll s (poll_all s clocks)
unfolding poll_all
poll_all-SendsAll s [] h = record {
  body = refl;
  drop_after_bytes = refl;
  drop_deadline = refl;
  within = h;
  moved = omega arith;
  sent = refl;
}
poll_all-SendsAll s (clock ∷ rest) h =
    let one = poll_next-Sends s clock h in
    SendsAll-cons one (poll_all-SendsAll (poll_next s clock).0 rest (Sends-within one))

pub SendsAll-effective_len :
    {s : DeliveryStream} {r : DeliveryStream × List ℕ}
    → SendsAll s r
    → effective_len r.0 ≡ effective_len s
unfolding effective_len
SendsAll-effective_len h = cc (h.body, h.drop_after_bytes)

-- Nothing has been sent.
abbrev pub IsUnsent : DeliveryStream → Type 0
IsUnsent s = s.offset ≡ 0

-- Over any sequence of polls at any clock readings, the chunks of a stream that starts at offset 0
-- join up to a prefix of the body, and they hold no more bytes than the `drop` limit allows.
pub poll_all-prefix :
    (s : DeliveryStream) (clocks : List Clock)
    → IsUnsent s
    → ((poll_all s clocks).1 ≡ take (length (poll_all s clocks).1) s.body)
      × (length (poll_all s clocks).1 ≤ effective_len s)
poll_all-prefix s clocks e =
    let all = poll_all-SendsAll s clocks (omega arith) in
    (
      subst (λ o. (poll_all s clocks).1 ≡ take (length (poll_all s clocks).1) (drop o s.body)) e
          all.sent,
      omega (arith, all.within, all.moved),
    )
