-- ===== src/Server/Handle.antt =====
-- src/server.rs: a request to the rules, up to the reply and the shape that are sent. One request
-- runs at a time here, so that an entry is known by its index and its counters are the store's.
pub mod Consistency
pub mod Refusals
pub mod Sequence
pub mod Raced
mod Tests
use mockinx.Common.{
  ℕ, ◌%◌, ◌==◌, Bool, true, false, ◌||◌, Option, none, some, List, [], ◌∷◌, length, set, get_elem?,
  map, if◌then◌else◌,
}
use mockinx.Text.{Text, str, eq_ignore_ascii_case}
use mockinx.Error.{Result, ok, err, panicked, ◌>>=◌, or_panic}
use mockinx.Float.{FloatOps}
use mockinx.Units.{Duration, Range, Rng, sample, duration_scalable}
use mockinx.Json.{SerdeJson, string, array, object, Map, keys}
use mockinx.Reply.{ReplySpec, BodySpec, literal}
use mockinx.Reply.Strategy.{ReplyStrategy, static, sequence, crud}
use mockinx.Reply.Crud.{CrudStore}
use mockinx.Serve.Pace.{DeliverySpec}
use mockinx.Serve.Runtime.{
  SemaphoreApi, BehaviorRuntime, BehaviorResult, proceed, rejected, waits, check,
}
use mockinx.Chaos.{ChaosEntry, ChaosResult, normal, overriding, resolve_chaos}
use mockinx.Store.{RuleEntry, RuleStore, next_call, next_call_for, match_request}
use mockinx.Server.{AppState, get_runtime, get_crud_store}
use mockinx.Server.Resource.{resolve_crud_reply}
use mockinx.Server.Reflect.{Request, resolve_reflect}

-- What a request is answered with: a bare status, the reply of a refusal by the rule's limits, or a
-- reply in the rule's shape, within a time limit if there is one, and whether it holds a permit.
-- `stalled` is a wait that has not ended.
pub data Answer : Type 0 where
  status : (code : ℕ) → Answer
  plain : ReplySpec → Answer
  shaped : ReplySpec → DeliverySpec → (timeout : Option Duration) → (permit : Bool) → Answer
  stalled : Answer

abbrev pub is_content_type : Text → Bool
is_content_type key = eq_ignore_ascii_case key (str "content-type")

abbrev pub any_content_type : List Text → Bool
any_content_type [] = false
any_content_type (key ∷ rest) = is_content_type key || any_content_type rest

abbrev pub type_of : BodySpec → Option Text
type_of (literal (object m)) = some (str "application/json")
type_of (literal (array vs)) = some (str "application/json")
type_of (literal (string s)) = some (str "text/plain")
type_of _ = none

unfoldable pub infer_content_type : ReplySpec → Option Text
infer_content_type reply =
    if any_content_type (keys reply.headers) then none else type_of reply.body

abbrev pub same_index : RuleEntry → RuleEntry → RuleEntry
same_index e d = if d.index == e.index then e else d

-- The counters of an entry are written where the store holds it.
abbrev pub put_entry : RuleStore → RuleEntry → RuleStore
put_entry store e = record { entries = map (same_index e) store.entries }

-- The index of a call: by connection where the peer is known.
unfoldable pub call_index : RuleEntry → Option Text → ℕ × RuleEntry
call_index entry (some addr) = next_call_for entry addr
call_index entry none = next_call entry

-- `replies[call_idx % replies.len()]`
unfoldable pub pick : List ReplySpec → ℕ → Result ReplySpec
pick replies call_idx =
    if length replies == 0
    then panicked
    else or_panic (get_elem? replies (call_idx % length replies))

abbrev pub or_default : Option DeliverySpec → DeliverySpec → DeliverySpec
or_default none delivery = delivery
or_default (some chaos_delivery) delivery = chaos_delivery

module _ (ops : FloatOps) (json : SerdeJson) (from_utf8 : List ℕ → Option Text)
    (api : SemaphoreApi) where
  abbrev sampled : Option (Range Duration) → Rng → Result (Option Duration × Rng)
  sampled none rng = ok (none, rng)
  sampled (some range) rng =
      sample (duration_scalable ops) range rng >>= λ (d, rng'). ok (some d, rng')

  -- The delivery under the rule's timeout.
  unfoldable pub shape :
      RuleEntry → ReplySpec → Option DeliverySpec → Bool → Rng → Result (Answer × Rng)
  shape entry reply chaos_delivery permit rng =
      sampled entry.rule.behavior.timeout rng >>= λ (timeout, rng').
      ok (shaped reply (or_default chaos_delivery entry.rule.delivery) timeout permit, rng')

  -- The chaos override: a reply, and a delivery.
  unfoldable pub chaos_override :
      Option (List ChaosEntry) → Rng → (Option ReplySpec × Option DeliverySpec) × Rng
  unfolding resolve_chaos
  chaos_override none rng = ((none, none), rng)
  chaos_override (some entries) rng = overridden (resolve_chaos ops entries rng)
    where
      overridden : ChaosResult × Rng → (Option ReplySpec × Option DeliverySpec) × Rng
      overridden (normal, rng') = ((none, none), rng')
      overridden (overriding reply serve, rng') = ((reply, serve), rng')

  abbrev pub put_crud_store : AppState api → ℕ → CrudStore → AppState api
  put_crud_store state idx store = record state { crud_stores = (idx, store) ∷ state.crud_stores }

  abbrev pub from_resource :
      AppState api → ℕ → Map → Request → Text → Option CrudStore → Option ReplySpec × AppState api
  from_resource state idx headers req uuid none = (none, state)
  from_resource state idx headers req uuid (some store) =
      let (store', reply) =
        resolve_crud_reply json headers store uuid req.method req.path req.body in
      (some reply, put_crud_store state idx store')

  -- The reply of the rule's strategy; none where the resource is missing.
  unfoldable pub resolve_reply :
      AppState api
      → RuleEntry
      → ReplyStrategy
      → Request
      → Text
      → Result (Option ReplySpec × AppState api)
  unfolding call_index pick get_crud_store
  resolve_reply state entry (static r) req uuid = ok (some r, state)
  resolve_reply state entry (sequence replies) req uuid =
      let (call_idx, counted) = call_index entry req.peer_addr in
      pick replies call_idx >>= λ r.
      ok (some r, record state { store = put_entry state.store counted })
  resolve_reply state entry (crud spec headers) req uuid =
      ok (from_resource state entry.index headers req uuid (get_crud_store api state entry.index))

  abbrev Answered : Type 0
  Answered = Result (Answer × AppState api × Rng)

  abbrev shaped_answer : AppState api → Result (Answer × Rng) → Answered
  shaped_answer state r = r >>= λ (answer, rng'). ok (answer, state, rng')

  abbrev rule_answer :
      RuleEntry
      → Request
      → Option DeliverySpec
      → Bool
      → Rng
      → Option ReplySpec × AppState api
      → Answered
  rule_answer entry req chaos_delivery permit rng (none, state) = ok (status 500, state, rng)
  rule_answer entry req chaos_delivery permit rng (some reply, state) =
      shaped_answer state
        (shape entry (resolve_reflect json from_utf8 req reply) chaos_delivery permit rng)

  abbrev answer_with :
      AppState api
      → RuleEntry
      → Request
      → Text
      → Bool
      → (Option ReplySpec × Option DeliverySpec) × Rng
      → Answered
  answer_with state entry req uuid permit ((some chaos_reply, chaos_delivery), rng) =
      shaped_answer state (shape entry chaos_reply chaos_delivery permit rng)
  answer_with state entry req uuid permit ((none, chaos_delivery), rng) =
      resolve_reply state entry entry.rule.reply req uuid
      >>= rule_answer entry req chaos_delivery permit rng

  -- `uuid` is what `Uuid::new_v4` would return.
  unfoldable pub resolve_and_deliver :
      AppState api → RuleEntry → Request → Text → (permit : Bool) → Rng → Answered
  unfolding chaos_override shape resolve_reply
  resolve_and_deliver state entry req uuid permit rng =
      answer_with state entry req uuid permit (chaos_override entry.rule.chaos rng)

  abbrev pub put_runtime : AppState api → ℕ → BehaviorRuntime api → AppState api
  put_runtime state idx runtime = record state { runtimes = set state.runtimes idx runtime }

  abbrev pub after_check :
      RuleEntry → Request → Text → AppState api → Result BehaviorResult → Rng → Answered
  after_check entry req uuid state (ok (proceed permit)) rng =
      resolve_and_deliver state entry req uuid permit rng
  after_check entry req uuid state (ok (rejected reply)) rng = ok (plain reply, state, rng)
  after_check entry req uuid state (ok waits) rng = ok (stalled, state, rng)
  after_check entry req uuid state (err e) rng = err e
  after_check entry req uuid state panicked rng = panicked

  abbrev pub with_runtime :
      AppState api → RuleEntry → Request → Text → ℕ → Rng → Option (BehaviorRuntime api) → Answered
  with_runtime state entry req uuid now rng none =
      resolve_and_deliver state entry req uuid false rng
  with_runtime state entry req uuid now rng (some runtime) =
      let (res, runtime', rng') = check api ops runtime entry.rule.behavior now rng in
      after_check entry req uuid (put_runtime state entry.index runtime') res rng'

  abbrev pub with_entry : AppState api → Request → Text → ℕ → Rng → Option RuleEntry → Answered
  with_entry state req uuid now rng none = ok (status 404, state, rng)
  with_entry state req uuid now rng (some entry) =
      with_runtime state entry req uuid now rng (get_runtime api state entry.index)

  -- The body has been read.
  unfoldable pub handle_request : AppState api → Request → Text → (now : ℕ) → Rng → Answered
  unfolding match_request get_runtime resolve_and_deliver
  handle_request state req uuid now rng =
      with_entry state req uuid now rng (match_request state.store req.method req.path)
