-- ===== src/Server/Handle/Refusals.antt =====
-- src/server.rs: a request that the limits of a rule refuse.
use mockinx.Common.{ℕ, ◌≡◌, refl, subst, Bool, false, Option, none, some, List}
use mockinx.Text.{Text}
use mockinx.Error.{Result, ok, err, panicked, ◌>>=◌}
use mockinx.Float.{FloatOps}
use mockinx.Units.{Duration, Rng}
use mockinx.Json.{SerdeJson}
use mockinx.Reply.{ReplySpec}
use mockinx.Serve.Pace.{DeliverySpec}
use mockinx.Serve.Runtime.{
  SemaphoreApi, BehaviorRuntime, BehaviorResult, proceed, rejected, waits, check,
}
use mockinx.Store.{RuleEntry, match_request}
use mockinx.Server.{AppState, get_runtime}
use mockinx.Server.Reflect.{Request}
use mockinx.Server.Handle.{
  Answer, status, plain, shaped, stalled, or_default, shape, sampled, shaped_answer, rule_answer,
  answer_with, after_check, with_runtime, with_entry, chaos_override, resolve_reply,
  resolve_and_deliver, handle_request, put_runtime,
}

module _ (ops : FloatOps) (json : SerdeJson) (from_utf8 : List ℕ → Option Text)
    (api : SemaphoreApi) where
  -- If the answer is a refusal, the rules with their counters and the resources are as before.
  abbrev KeepsOnRefusal : AppState api → Result (Answer × AppState api × Rng) → Type 0
  KeepsOnRefusal state (ok (plain r, state', rng)) =
      (state'.store ≡ state.store) × (state'.crud_stores ≡ state.crud_stores)
  KeepsOnRefusal state (ok (status code, state', rng)) = Unit
  KeepsOnRefusal state (ok (shaped r d t held, state', rng)) = Unit
  KeepsOnRefusal state (ok (stalled, state', rng)) = Unit
  KeepsOnRefusal state (err e) = Unit
  KeepsOnRefusal state panicked = Unit

  timed-KeepsOnRefusal :
      (state state' : AppState api) (reply : ReplySpec) (d : DeliverySpec) (permit : Bool)
      (t : Result (Option Duration × Rng))
      → KeepsOnRefusal state (
          shaped_answer ops json from_utf8 api state'
            (t >>= λ (timeout, rng'). ok (shaped reply d timeout permit, rng')))
  timed-KeepsOnRefusal state state' reply d permit (ok _) = tt
  timed-KeepsOnRefusal state state' reply d permit (err e) = tt
  timed-KeepsOnRefusal state state' reply d permit panicked = tt

  shape-KeepsOnRefusal :
      (state state' : AppState api) (entry : RuleEntry) (reply : ReplySpec)
      (d : Option DeliverySpec) (permit : Bool) (rng : Rng)
      → KeepsOnRefusal state (
          shaped_answer ops json from_utf8 api state'
            (shape ops json from_utf8 api entry reply d permit rng))
  unfolding shape
  shape-KeepsOnRefusal state state' entry reply d permit rng =
      timed-KeepsOnRefusal state state' reply (or_default d entry.rule.delivery) permit
        (sampled ops json from_utf8 api entry.rule.behavior.timeout rng)

  rule_answer-KeepsOnRefusal :
      (state : AppState api) (entry : RuleEntry) (req : Request) (d : Option DeliverySpec)
      (permit : Bool) (rng : Rng) (m : Result (Option ReplySpec × AppState api))
      → KeepsOnRefusal state (m >>= rule_answer ops json from_utf8 api entry req d permit rng)
  rule_answer-KeepsOnRefusal state entry req d permit rng (ok (none, state')) = tt
  rule_answer-KeepsOnRefusal state entry req d permit rng (ok (some reply, state')) =
      shape-KeepsOnRefusal state state' entry _ d permit rng
  rule_answer-KeepsOnRefusal state entry req d permit rng (err e) = tt
  rule_answer-KeepsOnRefusal state entry req d permit rng panicked = tt

  answer_with-KeepsOnRefusal :
      (state state' : AppState api) (entry : RuleEntry) (req : Request) (uuid : Text)
      (permit : Bool) (c : (Option ReplySpec × Option DeliverySpec) × Rng)
      → KeepsOnRefusal state (answer_with ops json from_utf8 api state' entry req uuid permit c)
  answer_with-KeepsOnRefusal state state' entry req uuid permit ((some reply, d), rng) =
      shape-KeepsOnRefusal state state' entry reply d permit rng
  answer_with-KeepsOnRefusal state state' entry req uuid permit ((none, d), rng) =
      rule_answer-KeepsOnRefusal state entry req d permit rng
        (resolve_reply ops json from_utf8 api state' entry entry.rule.reply req uuid)

  resolve-KeepsOnRefusal :
      (state state' : AppState api) (entry : RuleEntry) (req : Request) (uuid : Text)
      (permit : Bool) (rng : Rng)
      → KeepsOnRefusal state
          (resolve_and_deliver ops json from_utf8 api state' entry req uuid permit rng)
  unfolding resolve_and_deliver
  resolve-KeepsOnRefusal state state' entry req uuid permit rng =
      answer_with-KeepsOnRefusal state state' entry req uuid permit
        (chaos_override ops json from_utf8 api entry.rule.chaos rng)

  after_check-KeepsOnRefusal :
      (state : AppState api) (runtime : BehaviorRuntime api) (entry : RuleEntry) (req : Request)
      (uuid : Text) (res : Result BehaviorResult) (rng : Rng)
      → KeepsOnRefusal state (
          after_check ops json from_utf8 api entry req uuid
            (put_runtime ops json from_utf8 api state entry.index runtime)
            res
            rng)
  after_check-KeepsOnRefusal state runtime entry req uuid (ok (proceed permit)) rng =
      resolve-KeepsOnRefusal state _ entry req uuid permit rng
  after_check-KeepsOnRefusal state runtime entry req uuid (ok (rejected r)) rng = (refl, refl)
  after_check-KeepsOnRefusal state runtime entry req uuid (ok waits) rng = tt
  after_check-KeepsOnRefusal state runtime entry req uuid (err e) rng = tt
  after_check-KeepsOnRefusal state runtime entry req uuid panicked rng = tt

  with_runtime-KeepsOnRefusal :
      (state : AppState api) (entry : RuleEntry) (req : Request) (uuid : Text) (now : ℕ) (rng : Rng)
      (runtime : Option (BehaviorRuntime api))
      → KeepsOnRefusal state
          (with_runtime ops json from_utf8 api state entry req uuid now rng runtime)
  with_runtime-KeepsOnRefusal state entry req uuid now rng none =
      resolve-KeepsOnRefusal state state entry req uuid false rng
  with_runtime-KeepsOnRefusal state entry req uuid now rng (some runtime) =
      after_check-KeepsOnRefusal state _ entry req uuid
        (check api ops runtime entry.rule.behavior now rng).0 _

  with_entry-KeepsOnRefusal :
      (state : AppState api) (req : Request) (uuid : Text) (now : ℕ) (rng : Rng)
      (entry : Option RuleEntry)
      → KeepsOnRefusal state (with_entry ops json from_utf8 api state req uuid now rng entry)
  with_entry-KeepsOnRefusal state req uuid now rng none = tt
  with_entry-KeepsOnRefusal state req uuid now rng (some entry) =
      with_runtime-KeepsOnRefusal state entry req uuid now rng (get_runtime api state entry.index)

  -- A request that the limits of its rule refuse, which is what the answer `plain` says, leaves the
  -- rules, their call counters and the resources as they are.
  pub handle_request-refused :
      (state state' : AppState api) (req : Request) (uuid : Text) (now : ℕ) (rng rng' : Rng)
      (r : ReplySpec)
      → handle_request ops json from_utf8 api state req uuid now rng ≡ ok (plain r, state', rng')
      → (state'.store ≡ state.store) × (state'.crud_stores ≡ state.crud_stores)
  unfolding handle_request
  handle_request-refused state state' req uuid now rng rng' r e = subst (KeepsOnRefusal state) e (
      with_entry-KeepsOnRefusal state req uuid now rng
        (match_request state.store req.method req.path))
