-- ===== src/Server/Handle/Consistency/Requests.antt =====
-- src/server.rs: the shared state after a request.
use mockinx.Common.{
  ℕ, ◌≡◌, refl, sym, subst, ◌∙◌, Bool, false, Option, none, some, List, ◌∷◌, length, All, All-at,
}
use mockinx.Text.{Text}
use mockinx.Error.{Result, ok, err, panicked, ◌>>=◌}
use mockinx.Float.{FloatOps}
use mockinx.Units.{Rng}
use mockinx.Json.{SerdeJson, Map}
use mockinx.Reply.{ReplySpec}
use mockinx.Reply.Strategy.{ReplyStrategy, static, sequence, crud}
use mockinx.Reply.Crud.{CrudStore}
use mockinx.Reply.Crud.Keys.{HasKeys}
use mockinx.Serve.Pace.{DeliverySpec}
use mockinx.Serve.Runtime.{
  SemaphoreApi, BehaviorRuntime, BehaviorResult, proceed, rejected, waits, check,
}
use mockinx.Store.{RuleEntry, match_request}
use mockinx.Store.Matching.{match_request_iff}
use mockinx.Server.{AppState, get_crud_store}
use mockinx.Server.Reflect.{Request}
use mockinx.Server.Handle.{
  Answer, put_entry, call_index, pick, from_resource, put_crud_store, resolve_reply, shaped_answer,
  rule_answer, answer_with, resolve_and_deliver, put_runtime, after_check, with_runtime, with_entry,
  handle_request,
}
use mockinx.Server.Handle.Consistency.Pieces.{
  resolve_crud_reply-HasKeys, get_at-HasKeys, length-set, same_index-IsHeld, call_index-IsHeld,
}
use mockinx.Server.Handle.Consistency.{IsHeld, IsConsistent, HasStore-put, IsHeld-All}

module _ (ops : FloatOps) (json : SerdeJson) (from_utf8 : List ℕ → Option Text)
    (api : SemaphoreApi) where
  -- The state that an answer comes with is consistent.
  abbrev Keeps : Result (Answer × AppState api × Rng) → Type 0
  Keeps (ok (answer, state, rng)) = IsConsistent state
  Keeps (err e) = Unit
  Keeps panicked = Unit

  abbrev KeepsReply : Result (Option ReplySpec × AppState api) → Type 0
  KeepsReply (ok (reply, state)) = IsConsistent state
  KeepsReply (err e) = Unit
  KeepsReply panicked = Unit

  shaped-Keeps :
      (state : AppState api) (r : Result (Answer × Rng))
      → IsConsistent state
      → Keeps (shaped_answer ops json from_utf8 api state r)
  shaped-Keeps state (ok (answer, rng)) h = h
  shaped-Keeps state (err e) h = tt
  shaped-Keeps state panicked h = tt

  rule_answer-Keeps :
      (entry : RuleEntry) (req : Request) (d : Option DeliverySpec) (permit : Bool) (rng : Rng)
      (m : Result (Option ReplySpec × AppState api))
      → KeepsReply m
      → Keeps (m >>= rule_answer ops json from_utf8 api entry req d permit rng)
  rule_answer-Keeps entry req d permit rng (ok (none, state)) h = h
  rule_answer-Keeps entry req d permit rng (ok (some reply, state)) h = shaped-Keeps state _ h
  rule_answer-Keeps entry req d permit rng (err e) h = tt
  rule_answer-Keeps entry req d permit rng panicked h = tt

  picked-KeepsReply :
      (state : AppState api) (r : Result ReplySpec)
      → IsConsistent state
      → KeepsReply (r >>= λ reply. ok (some reply, state))
  picked-KeepsReply state (ok reply) h = h
  picked-KeepsReply state (err e) h = tt
  picked-KeepsReply state panicked h = tt

  put_crud_store-IsConsistent :
      (state : AppState api) (idx : ℕ) (store : CrudStore)
      → HasKeys store
      → IsConsistent state
      → IsConsistent (put_crud_store ops json from_utf8 api state idx store)
  put_crud_store-IsConsistent state idx store k h = record {
    counted = h.counted;
    held =
        IsHeld-All (length state.runtimes) (length state.runtimes) state.crud_stores
          ((idx, store) ∷ state.crud_stores) state.store.entries
          (λ e (lt, there).
            (lt, HasStore-put state.crud_stores e.index idx store e.rule.reply there))
          h.held;
    keys = (k, h.keys);
  }

  from_resource-KeepsReply :
      (state : AppState api) (idx : ℕ) (headers : Map) (req : Request) (uuid : Text)
      (found : Option CrudStore)
      → get_crud_store api state idx ≡ found
      → IsConsistent state
      → KeepsReply (ok (from_resource ops json from_utf8 api state idx headers req uuid found))
  unfolding get_crud_store
  from_resource-KeepsReply state idx headers req uuid none e h = h
  from_resource-KeepsReply state idx headers req uuid (some store) e h =
      put_crud_store-IsConsistent state idx _
        (resolve_crud_reply-HasKeys json headers store uuid req.method req.path req.body
          (get_at-HasKeys state.crud_stores idx store h.keys e))
        h

  put_entry-IsConsistent :
      (state : AppState api) (e : RuleEntry)
      → IsHeld (length state.runtimes) state.crud_stores e
      → IsConsistent state
      → IsConsistent (record state { store = put_entry state.store e })
  put_entry-IsConsistent state e held h = record {
    counted = h.counted;
    held =
        same_index-IsHeld (length state.runtimes) state.crud_stores e state.store.entries held
          h.held;
    keys = h.keys;
  }

  resolve_reply-KeepsReply :
      (state : AppState api) (entry : RuleEntry) (strategy : ReplyStrategy) (req : Request)
      (uuid : Text)
      → IsHeld (length state.runtimes) state.crud_stores entry
      → IsConsistent state
      → KeepsReply (resolve_reply ops json from_utf8 api state entry strategy req uuid)
  unfolding resolve_reply
  resolve_reply-KeepsReply state entry (static r) req uuid held h = h
  resolve_reply-KeepsReply state entry (sequence replies) req uuid held h =
      picked-KeepsReply _ (pick replies _) (
        put_entry-IsConsistent state (call_index entry req.peer_addr).1
          (call_index-IsHeld (length state.runtimes) state.crud_stores entry req.peer_addr held) h)
  resolve_reply-KeepsReply state entry (crud spec headers) req uuid held h =
      from_resource-KeepsReply state entry.index headers req uuid _ refl h

  answer_with-Keeps :
      (state : AppState api) (entry : RuleEntry) (req : Request) (uuid : Text) (permit : Bool)
      (c : (Option ReplySpec × Option DeliverySpec) × Rng)
      → IsHeld (length state.runtimes) state.crud_stores entry
      → IsConsistent state
      → Keeps (answer_with ops json from_utf8 api state entry req uuid permit c)
  answer_with-Keeps state entry req uuid permit ((some reply, d), rng) held h =
      shaped-Keeps state _ h
  answer_with-Keeps state entry req uuid permit ((none, d), rng) held h =
      rule_answer-Keeps entry req d permit rng _
        (resolve_reply-KeepsReply state entry entry.rule.reply req uuid held h)

  resolve_and_deliver-Keeps :
      (state : AppState api) (entry : RuleEntry) (req : Request) (uuid : Text) (permit : Bool)
      (rng : Rng)
      → IsHeld (length state.runtimes) state.crud_stores entry
      → IsConsistent state
      → Keeps (resolve_and_deliver ops json from_utf8 api state entry req uuid permit rng)
  unfolding resolve_and_deliver
  resolve_and_deliver-Keeps state entry req uuid permit rng held h =
      answer_with-Keeps state entry req uuid permit _ held h

  -- `entry` is held by `state`, whose runtimes change only in what they are.
  after_check-Keeps :
      (state : AppState api) (entry : RuleEntry) (req : Request) (uuid : Text)
      (res : Result BehaviorResult) (rng : Rng)
      → IsHeld (length state.runtimes) state.crud_stores entry
      → IsConsistent state
      → Keeps (after_check ops json from_utf8 api entry req uuid state res rng)
  after_check-Keeps state entry req uuid (ok (proceed permit)) rng held h =
      resolve_and_deliver-Keeps state entry req uuid permit rng held h
  after_check-Keeps state entry req uuid (ok (rejected r)) rng held h = h
  after_check-Keeps state entry req uuid (ok waits) rng held h = h
  after_check-Keeps state entry req uuid (err e) rng held h = tt
  after_check-Keeps state entry req uuid panicked rng held h = tt

  pub put_runtime-IsConsistent :
      (state : AppState api) (idx : ℕ) (runtime : BehaviorRuntime api)
      → IsConsistent state
      → IsConsistent (put_runtime ops json from_utf8 api state idx runtime)
  put_runtime-IsConsistent state idx runtime h =
      let n = length-set state.runtimes idx runtime in
      record {
        counted = n ∙ h.counted;
        held = subst (λ k. All (IsHeld k state.crud_stores) state.store.entries) (sym n) h.held;
        keys = h.keys;
      }

  with_runtime-Keeps :
      (state : AppState api) (entry : RuleEntry) (req : Request) (uuid : Text) (now : ℕ) (rng : Rng)
      (runtime : Option (BehaviorRuntime api))
      → IsHeld (length state.runtimes) state.crud_stores entry
      → IsConsistent state
      → Keeps (with_runtime ops json from_utf8 api state entry req uuid now rng runtime)
  with_runtime-Keeps state entry req uuid now rng none held h =
      resolve_and_deliver-Keeps state entry req uuid false rng held h
  with_runtime-Keeps state entry req uuid now rng (some runtime) held h =
      let (_, runtime', _) = check api ops runtime entry.rule.behavior now rng in
      after_check-Keeps _ entry req uuid _ _
        (subst (λ k. IsHeld k state.crud_stores entry)
          (sym (length-set state.runtimes entry.index runtime')) held)
        (put_runtime-IsConsistent state entry.index runtime' h)

  pub match_request-IsHeld :
      (state : AppState api) (method path : Text) (e : RuleEntry)
      → match_request state.store method path ≡ some e
      → IsConsistent state
      → IsHeld (length state.runtimes) state.crud_stores e
  match_request-IsHeld state method path e found h =
      let P = IsHeld (length state.runtimes) state.crud_stores in
      let (before, after, split, _, _) =
        ((match_request_iff state.store method path).0 e).0 found in
      All-at P before after e (subst (All P) split h.held)

  with_entry-Keeps :
      (state : AppState api) (req : Request) (uuid : Text) (now : ℕ) (rng : Rng)
      (found : Option RuleEntry)
      → match_request state.store req.method req.path ≡ found
      → IsConsistent state
      → Keeps (with_entry ops json from_utf8 api state req uuid now rng found)
  with_entry-Keeps state req uuid now rng none e h = h
  with_entry-Keeps state req uuid now rng (some entry) e h =
      with_runtime-Keeps state entry req uuid now rng _
        (match_request-IsHeld state req.method req.path entry e h) h

  pub handle_request-IsConsistent :
      (state state' : AppState api) (req : Request) (uuid : Text) (now : ℕ) (rng rng' : Rng)
      (answer : Answer)
      → handle_request ops json from_utf8 api state req uuid now rng ≡ ok (answer, state', rng')
      → IsConsistent state
      → IsConsistent state'
  unfolding handle_request
  handle_request-IsConsistent state state' req uuid now rng rng' answer e h =
      subst Keeps e (with_entry-Keeps state req uuid now rng _ refl h)
