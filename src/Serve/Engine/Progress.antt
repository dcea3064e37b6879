-- ===== src/Serve/Engine/Progress.antt =====
-- src/serve/engine.rs: a stream that ends has sent all, and a stream that is polled often enough ends.
use mockinx.Common.{
  ℕ, ◌+◌, ◌-◌, ◌*◌, ◌≤◌, ◌<◌, ◌≡◌, refl, sym, ap, ◌∙◌, inl, inr, Option, none, some, List, [], ◌∷◌,
  ◌++◌, length, take, drop, arith, drop-drop, take-append-take, ◌≢◌,
}
use mathlib.Core.Path.{ap₂}
use mockinx.Serve.Engine.{
  DeliveryStream, Clock, Poll, pending, ready_chunk, ready_end, Stage, go, wait, first_byte_stage,
  chunk_stage, effective_len, yield_chunk, send_stage, poll_next, after_first_byte,
  after_chunk_stage,
}
use mockinx.Serve.Engine.Chunks.{
  bytes_of, poll_all, Same, Sends, stage_stream, first_byte_stage-Same, chunk_stage-Same,
  poll_next-Sends, poll_all-SendsAll, Sends-within, Sends-effective_len, IsUnsent, poll_all-prefix,
  SendsAll-effective_len,
}
use mockinx.Serve.Engine.Turn.{
  IsLive, IsSpaced, collect, collected, or_zero, poll_next-Turn, polls_left,
}

send_stage-ends :
    (s : DeliveryStream) (clock : Clock)
    → s.drop_deadline ≡ none
    → (send_stage s clock).1 ≡ ready_end
    → effective_len s ≤ s.offset
unfolding send_stage yield_chunk
send_stage-ends s clock d e = ground arith

Same-ends :
    {s t : DeliveryStream} → Same s t → effective_len t ≤ t.offset → effective_len s ≤ s.offset
unfolding effective_len
Same-ends {s} {t} e h = omega (arith, e.offset, min_or_same)
  where
    min_or_same : effective_len t ≡ effective_len s
    min_or_same = cc (e.body, e.drop_after_bytes)

after_chunk_stage-ends :
    (s : DeliveryStream) (stage : Stage) (clock : Clock)
    → s.drop_deadline ≡ none
    → Same s (stage_stream stage)
    → (after_chunk_stage stage clock).1 ≡ ready_end
    → effective_len s ≤ s.offset
after_chunk_stage-ends s (wait t) clock d e h = cc
after_chunk_stage-ends s (go t) clock d e h =
    Same-ends e (send_stage-ends t clock (e.drop_deadline ∙ d) h)

after_first_byte-ends :
    (s : DeliveryStream) (stage : Stage) (clock : Clock)
    → s.drop_deadline ≡ none
    → Same s (stage_stream stage)
    → (after_first_byte stage clock).1 ≡ ready_end
    → effective_len s ≤ s.offset
after_first_byte-ends s (wait t) clock d e h = cc
after_first_byte-ends s (go t) clock d e h = Same-ends e (
    after_chunk_stage-ends t (chunk_stage t clock.at_timer) clock (e.drop_deadline ∙ d)
      (chunk_stage-Same t clock.at_timer) h)

poll_next-ends :
    (s : DeliveryStream) (clock : Clock)
    → s.drop_deadline ≡ none
    → (poll_next s clock).1 ≡ ready_end
    → effective_len s ≤ s.offset
unfolding poll_next
poll_next-ends s clock d e =
    after_first_byte-ends s (first_byte_stage s clock.at_timer) clock d
      (first_byte_stage-Same s clock.at_timer) (ground arith)

-- When a stream that starts at offset 0 and has no deadline for a drop ends, after whatever polls, all
-- is sent: the chunks join up to the whole body, cut to the first bytes that the `drop` limit allows.
pub poll_next-ready_end :
    (s : DeliveryStream) (clocks : List Clock) (clock : Clock)
    → IsUnsent s
    → s.drop_deadline ≡ none
    → (poll_next (poll_all s clocks).0 clock).1 ≡ ready_end
    → (poll_all s clocks).1 ≡ take (effective_len s) s.body
poll_next-ready_end s clocks clock u d e =
    let all = poll_all-SendsAll s clocks (omega arith) in
    let (joined, within) = poll_all-prefix s clocks u in
    let over = poll_next-ends (poll_all s clocks).0 clock (all.drop_deadline ∙ d) e in
    let same_end : effective_len (poll_all s clocks).0 ≡ effective_len s =
      SendsAll-effective_len all in
    let full : length (poll_all s clocks).1 ≡ effective_len s = omega (arith, all.moved) in
    joined ∙ ap (λ n. take n s.body) full

-- What is left of the body for the client.
abbrev pub remainder : DeliveryStream → List ℕ
remainder s = take (effective_len s - s.offset) (drop s.offset s.body)

Sends-remainder :
    {s : DeliveryStream} {r : DeliveryStream × Poll}
    → Sends s r
    → bytes_of r.1 ++ remainder r.0 ≡ remainder s
Sends-remainder {s} {r} h =
    ap₂ ◌++◌ h.sent later
    ∙ take-append-take (length (bytes_of r.1)) _ (drop s.offset s.body)
    ∙ counted
  where
    left : effective_len r.0 - r.0.offset ≡ effective_len s - (s.offset + length (bytes_of r.1))
    left = omega (arith, Sends-effective_len h, h.moved)

    later :
        remainder r.0
        ≡ take
            (effective_len s - (s.offset + length (bytes_of r.1)))
            (drop (length (bytes_of r.1)) (drop s.offset s.body))
    later =
        ap₂ take left
          (ap₂ drop h.moved h.body ∙ sym (drop-drop s.offset (length (bytes_of r.1)) s.body))

    counted :
        take
          (length (bytes_of r.1) + (effective_len s - (s.offset + length (bytes_of r.1))))
          (drop s.offset s.body)
        ≡ remainder s
    counted =
        let sum : length (bytes_of r.1) + (effective_len s - (s.offset + length (bytes_of r.1)))
            ≡ effective_len s - s.offset =
          omega (arith, h.within, h.moved) in
        ap (λ n. take n (drop s.offset s.body)) sum

collected-eq-remainder :
    (s t : DeliveryStream) (poll : Poll) (later : Option (List ℕ))
    → Sends s (t, poll)
    → (poll ≡ ready_end → effective_len s ≤ s.offset)
    → (poll ≢ ready_end → later ≡ some (remainder t))
    → collected poll later ≡ some (remainder s)
collected-eq-remainder s t pending later h over more = more (λ e. cc) ∙ ap some (Sends-remainder h)
collected-eq-remainder s t (ready_chunk bs) later h over more =
    ap (collected (ready_chunk bs)) (more (λ e. cc)) ∙ ap some (Sends-remainder h)
collected-eq-remainder s t ready_end later h over more =
    let nothing : effective_len s - s.offset ≡ 0 = omega (arith, over refl) in rw nothing refl

collect-remainder :
    (gap now : ℕ) (s : DeliveryStream) (clocks : List Clock)
    → IsLive gap s
    → or_zero s.sleep ≤ now + gap
    → s.drop_deadline ≡ none
    → s.offset ≤ effective_len s
    → IsSpaced gap now clocks
    → polls_left s < length clocks
    → collect s clocks ≡ some (remainder s)
unfolding collect
collect-remainder gap now s [] l h d o sp n = absurd (omega arith)
collect-remainder gap now s (clock ∷ rest) l h d o sp n =
    let one = poll_next-Sends s clock o in
    let turn = poll_next-Turn gap s clock l (omega arith) d in
    let (t, poll) = poll_next s clock in
    collected-eq-remainder s t poll (collect t rest) one (poll_next-ends s clock d) (λ more.
      collect-remainder gap clock.at_timer t rest turn.live turn.sleeps (one.drop_deadline ∙ d)
        (Sends-within one) sp.1
        (elim turn.progress [ inl e ↦ absurd (more e) | inr q ↦ omega arith ]))

-- A stream that starts at offset 0 and with no sleep, has no deadline for a drop and no hang, and whose
-- chunks are not empty, ends: if it may send `n` bytes and is polled `2 * n + 2` times or more, at instants
-- no closer than its delays, the client has collected the whole body, cut to the first bytes that
-- the `drop` limit allows.
pub collect-eq-take :
    (gap now : ℕ) (s : DeliveryStream) (clocks : List Clock)
    → IsUnsent s
    → s.sleep ≡ none
    → s.drop_deadline ≡ none
    → IsLive gap s
    → IsSpaced gap now clocks
    → 2 * effective_len s + 1 < length clocks
    → collect s clocks ≡ some (take (effective_len s) s.body)
unfolding polls_left
collect-eq-take gap now s clocks u q d l sp n =
    let whole : effective_len s - 0 ≡ effective_len s = omega arith in
    collect-remainder gap now s clocks l (rw q (omega arith)) d (omega arith) sp
      (rw (u, q) (omega arith))
    ∙ ap (λ o. some (take (effective_len s - o) (drop o s.body))) u
    ∙ ap (λ n. some (take n s.body)) whole
