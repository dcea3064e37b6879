-- ===== src/Server/Handle/Consistency/Reach.antt =====
-- src/server.rs: every state that appends and replacements of rules and requests lead to.
use mockinx.Common.{ℕ, ◌≡◌, subst, Option, some, List, get_elem?-lt}
use mockinx.Text.{Text}
use mockinx.Error.{ok}
use mockinx.Float.{FloatOps}
use mockinx.Units.{Rng}
use mockinx.Json.{SerdeJson, Map}
use mockinx.Reply.Strategy.{crud}
use mockinx.Reply.Crud.{CrudStore}
use mockinx.Reply.Crud.Keys.{HasKeys}
use mockinx.Serve.Behavior.{CrudSpec}
use mockinx.Serve.Runtime.{SemaphoreApi, BehaviorRuntime}
use mockinx.Rule.{Rule}
use mockinx.Store.{RuleEntry, match_request}
use mockinx.Server.{AppState, new_state, register_rules, clear_all, get_runtime, get_crud_store}
use mockinx.Server.Reflect.{Request}
use mockinx.Server.Handle.{Answer, put_runtime, handle_request}
use mockinx.Server.Handle.Consistency.{
  HasStore, IsConsistent, register_rules-IsConsistent, clear_all-IsConsistent,
  new_state-IsConsistent,
}
use mockinx.Server.Handle.Consistency.Pieces.{get_at-HasKeys}
use mockinx.Server.Handle.Consistency.Requests.{
  handle_request-IsConsistent, put_runtime-IsConsistent, match_request-IsHeld,
}

module _ (ops : FloatOps) (json : SerdeJson) (from_utf8 : List ℕ → Option Text)
    (api : SemaphoreApi) where
  -- Rules are appended or replaced, or a request is answered; one that panics is left out.
  pub data Step (s : AppState api) : AppState api → Type 0 where
    appends : (rules : List Rule) → Step s (register_rules api json s rules)
    replaces : (rules : List Rule) → Step s (register_rules api json (clear_all api s) rules)
    answers :
        (req : Request) (uuid : Text) (now : ℕ) (rng rng' : Rng) (answer : Answer)
        (t : AppState api)
        → handle_request ops json from_utf8 api s req uuid now rng ≡ ok (answer, t, rng')
        → Step s t
    -- A response ends, and the runtime of its rule takes back a permit.
    ends :
        (idx : ℕ) (runtime : BehaviorRuntime api)
        → Step s (put_runtime ops json from_utf8 api s idx runtime)

  pub data Reach : AppState api → Type 0 where
    start : Reach (new_state api)
    later : {s t : AppState api} → Reach s → Step s t → Reach t

  Step-IsConsistent : {s t : AppState api} → Step s t → IsConsistent s → IsConsistent t
  Step-IsConsistent {s} (appends rules) h = register_rules-IsConsistent api json s rules h
  Step-IsConsistent {s} (replaces rules) h =
      register_rules-IsConsistent api json (clear_all api s) rules
        (clear_all-IsConsistent api json s)
  Step-IsConsistent {s} (answers req uuid now rng rng' answer t e) h =
      handle_request-IsConsistent ops json from_utf8 api s t req uuid now rng rng' answer e h
  Step-IsConsistent {s} (ends idx runtime) h =
      put_runtime-IsConsistent ops json from_utf8 api s idx runtime h

  Reach-IsConsistent : {s : AppState api} → Reach s → IsConsistent s
  Reach-IsConsistent start = new_state-IsConsistent api json
  Reach-IsConsistent (later r st) = Step-IsConsistent st (Reach-IsConsistent r)

  store-HasKeys :
      (state : AppState api) (e : RuleEntry) (spec : CrudSpec) (headers : Map)
      → e.rule.reply ≡ crud spec headers
      → IsConsistent state
      → HasStore state.crud_stores e.index e.rule.reply
      → (store : CrudStore) × (get_crud_store api state e.index ≡ some store) × HasKeys store
  unfolding get_crud_store
  store-HasKeys state e spec headers is_resource h held =
      let (store, found) = subst (HasStore state.crud_stores e.index) is_resource held in
      (store, found, get_at-HasKeys state.crud_stores e.index store h.keys found)

  -- Whatever rules are appended and replaced and whatever requests are answered, one after
  -- the other, an entry
  -- of a resource that a request is matched with has a runtime and a store, so that no such request is
  -- answered 500 for a missing one, and no two items of the store have the same key.
  pub matched-HasKeys :
      {state : AppState api} (method path : Text) (e : RuleEntry) (spec : CrudSpec) (headers : Map)
      → Reach state
      → match_request state.store method path ≡ some e
      → e.rule.reply ≡ crud spec headers
      → ((runtime : BehaviorRuntime api) × (get_runtime api state e.index ≡ some runtime))
        × ((store : CrudStore) × (get_crud_store api state e.index ≡ some store) × HasKeys store)
  unfolding get_runtime
  matched-HasKeys {state} method path e spec headers r found is_resource =
      let h = Reach-IsConsistent r in
      let (lt, held) = match_request-IsHeld ops json from_utf8 api state method path e found h in
      (
        get_elem?-lt state.runtimes e.index lt,
        store-HasKeys state e spec headers is_resource h held,
      )
