-- ===== src/Server/Respond/Whole.antt =====
-- src/server.rs: a response that is shaped against one that is not.
use mockinx.Common.{
  ℕ, ◌+◌, ◌*◌, ◌<◌, ◌≤◌, ◌≡◌, refl, sym, ap, subst, ◌∙◌, Bool, true, false, Option, none, some,
  List, length, Bool-cases, inl, inr, arith,
}
use mockinx.Error.{Result, ok, err, panicked}
use mockinx.Float.{FloatOps}
use mockinx.Units.{Rng}
use mockinx.Reply.{ReplySpec}
use mockinx.Reply.Body.{BodySources, generate_body}
use mockinx.Serve.Pace.{DeliverySpec, is_default}
use mockinx.Serve.Engine.{DeliveryStream, Clock}
use mockinx.Serve.Engine.Setup.{deliver}
use mockinx.Serve.Engine.Turn.{collect, IsSpaced, or_zero}
use mockinx.Serve.Engine.Deliver.{deliver-collect}
use mockinx.Server.Respond.{
  Response, Body, full, streamed, Builder, building, failed, finish, HttpApi, head_of,
  streamed_response, build_reply_response, build_delivery_response,
}

-- What a client has of a body that it polls at the given instants, if that ends.
abbrev pub received : Body → List Clock → Option (List ℕ)
received (full bytes) clocks = some bytes
received (streamed s permit) clocks = collect s clocks

-- The delays of a stream are at most `gap`.
abbrev pub IsWithin : ℕ → Body → Type 0
IsWithin gap (full bytes) = Unit
IsWithin gap (streamed s permit) =
    (or_zero s.first_byte_delay ≤ gap) × (or_zero s.chunk_delay ≤ gap)

module _ (http : HttpApi) (src : BodySources) (ops : FloatOps) where
  abbrev pub SameFor : List Clock → Response → Response → Type 0
  SameFor clocks shaped_one whole =
      (shaped_one.status ≡ whole.status)
      × (shaped_one.headers ≡ whole.headers)
      × (received shaped_one.body clocks ≡ received whole.body clocks)

  finish-SameFor :
      (head : Builder) (s : DeliveryStream) (permit : Bool) (bytes : List ℕ) (gap : ℕ)
      (clocks : List Clock)
      → IsWithin gap (finish (streamed s permit) head).body
      → (IsWithin gap (streamed s permit) → collect s clocks ≡ some bytes)
      → SameFor clocks (finish (streamed s permit) head) (finish (full bytes) head)
  finish-SameFor (building code hs) s permit bytes gap clocks within same =
      (refl, refl, same within)
  finish-SameFor failed s permit bytes gap clocks within same = (refl, refl, refl)

  build_delivery_response-default :
      (reply : ReplySpec) (delivery : DeliverySpec) (at_drop at_hang : ℕ) (rng rng' : Rng)
      (permit : Bool) (r : Response) (bytes : List ℕ)
      → generate_body src reply.body ≡ ok bytes
      → is_default delivery ≡ true
      → build_delivery_response http src ops reply delivery at_drop at_hang rng permit
        ≡ ok (r, rng')
      → finish (full bytes) (head_of http reply) ≡ r
  unfolding build_delivery_response build_reply_response
  build_delivery_response-default reply delivery at_drop at_hang rng rng' permit r bytes generated
        default built =
      ground arith

  streamed_response-eq-ok :
      (reply : ReplySpec) (permit : Bool) (delivered : Result (DeliveryStream × Rng)) (r : Response)
      (rng' : Rng)
      → streamed_response http src ops reply permit delivered ≡ ok (r, rng')
      → (s : DeliveryStream) × (rng1 : Rng) × (delivered ≡ ok (s, rng1))
        × (finish (streamed s permit) (head_of http reply) ≡ r)
  streamed_response-eq-ok reply permit (ok (s, rng1)) r rng' e = (s, rng1, refl, ground arith)
  streamed_response-eq-ok reply permit (err e') r rng' e = cc e
  streamed_response-eq-ok reply permit panicked r rng' e = cc e

  build_delivery_response-streamed :
      (reply : ReplySpec) (delivery : DeliverySpec) (at_drop at_hang : ℕ) (rng rng' : Rng)
      (permit : Bool) (r : Response) (bytes : List ℕ)
      → generate_body src reply.body ≡ ok bytes
      → is_default delivery ≡ false
      → build_delivery_response http src ops reply delivery at_drop at_hang rng permit
        ≡ ok (r, rng')
      → streamed_response http src ops reply permit (deliver ops bytes delivery at_drop at_hang rng)
        ≡ ok (r, rng')
  unfolding build_delivery_response
  build_delivery_response-streamed reply delivery at_drop at_hang rng rng' permit r bytes generated
        shaping built =
      ground arith

  -- A delivery with neither a drop nor a hang changes when a response arrives and not what: where the
  -- response is built, the one without shaping is built too, with the same status and headers, and a
  -- client that polls often enough, at instants no closer than the delays, receives the same body.
  pub build_delivery_response-whole :
      (reply : ReplySpec) (delivery : DeliverySpec) (at_drop at_hang gap now : ℕ) (rng rng' : Rng)
      (permit : Bool) (r : Response) (bytes : List ℕ) (clocks : List Clock)
      → delivery.drop ≡ none
      → delivery.hang ≡ none
      → generate_body src reply.body ≡ ok bytes
      → build_delivery_response http src ops reply delivery at_drop at_hang rng permit
        ≡ ok (r, rng')
      → IsWithin gap r.body
      → IsSpaced gap now clocks
      → 2 * length bytes + 1 < length clocks
      → (whole : Response) × (build_reply_response http src reply ≡ ok whole)
        × SameFor clocks r whole
  unfolding build_delivery_response build_reply_response
  build_delivery_response-whole reply delivery at_drop at_hang gap now rng rng' permit r bytes
        clocks d h generated built within spaced enough =
      let whole = finish (full bytes) (head_of http reply) in
      let generates : build_reply_response http src reply ≡ ok whole = rw generated refl in
      elim (Bool-cases (is_default delivery)) [
        | inl default ↦
            let same =
              build_delivery_response-default reply delivery at_drop at_hang rng rng' permit r bytes
                generated default built in
            (r, generates ∙ ap ok same, (refl, refl, refl))
        | inr shaping ↦
            let (s, rng1, delivered, same) =
              streamed_response-eq-ok reply permit (deliver ops bytes delivery at_drop at_hang rng)
                r rng'
                (build_delivery_response-streamed reply delivery at_drop at_hang rng rng' permit r
                  bytes generated shaping built) in
            (
              whole,
              generates,
              subst (λ x. SameFor clocks x whole) same
                  (finish-SameFor (head_of http reply) s permit bytes gap clocks
                    (subst (λ x. IsWithin gap x.body) (sym same) within)
                    (λ (fb, cd).
                      deliver-collect ops bytes delivery at_drop at_hang gap now rng rng1 s clocks d
                        h delivered fb cd spaced enough)),
            )
      ]
