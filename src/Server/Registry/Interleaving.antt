-- ===== src/Server/Registry/Interleaving.antt =====
-- src/server.rs: requests that run while rules are appended, in any order of their steps. What a
-- request does to the runtime that it has found is left out.
use mathlib.Core.List.{append-nil, append_assoc}
use mockinx.Common.{
  ℕ, zero, suc, ◌+◌, ◌≡◌, refl, sym, subst, ap, ◌∙◌, Option, none, some, List, [], ◌∷◌, ◌++◌,
  length, arith, All, length-append, get_elem?,
}
use mockinx.Text.{Text}
use mockinx.Json.{SerdeJson}
use mockinx.Serve.Runtime.{SemaphoreApi, BehaviorRuntime, new_runtime}
use mockinx.Rule.{Rule}
use mockinx.Store.{RuleEntry, new_store, match_request, add, clear}
use mockinx.Server.{
  AppState, new_state, register_rule, register_from, register_rules, clear_all, get_runtime,
}
use mockinx.Server.Registry.{
  HasResource, IsServed, AllServed, register_rule-IsRegistered, IsRegistered,
  runtimes-register_rule, match_request-IsServed,
}

-- `register_rules` holds the locks of the runtimes and of the resources from its start to its end: the
-- rules that it has left, and the index of the next.
pub data Lock : Type 0 where
  unlocked : Lock
  registering : List Rule → (idx : ℕ) → Lock

module _ (api : SemaphoreApi) (json : SerdeJson) where
  -- The state, and the entries that requests under way have been matched with.
  pub record System : Type 0 where
    pub state : AppState api
    pub lock : Lock
    pub held : List RuleEntry

  pub data Step : System → System → Type 0 where
    begin :
        (s : System) (rules : List Rule)
        → s.lock ≡ unlocked
        → Step s (record s {
          state = record s.state { stub_counter = s.state.stub_counter + length rules };
          lock = registering rules s.state.stub_counter;
        })
    register :
        (s : System) (rule : Rule) (rest : List Rule) (idx : ℕ)
        → s.lock ≡ registering (rule ∷ rest) idx
        → Step s (record s {
          state = register_rule api json s.state rule idx;
          lock = registering rest (idx + 1);
        })
    release :
        (s : System) (idx : ℕ) → s.lock ≡ registering [] idx → Step s (record s { lock = unlocked })
    -- A request takes the lock of the store only.
    arrive :
        (s : System) (method path : Text) (e : RuleEntry)
        → match_request s.state.store method path ≡ some e
        → Step s (record s { held = e ∷ s.held })

  pub data Reach : System → Type 0 where
    start : Reach (record { state = new_state api; lock = unlocked; held = [] })
    later : {s t : System} → Reach s → Step s t → Reach t

  abbrev Agrees : Lock → AppState api → Type 0
  Agrees unlocked state = length state.runtimes ≡ state.stub_counter
  Agrees (registering rules idx) state =
      (length state.runtimes ≡ idx) × (state.stub_counter ≡ idx + length rules)

  record IsSound (s : System) : Type 0 where
    counted : Agrees s.lock s.state
    stored : AllServed api json s.state.store.entries s.state.runtimes s.state.crud_stores
    matched : AllServed api json s.held s.state.runtimes s.state.crud_stores

  All-left {ℓ κ} : {A : Type ℓ} (P : A → Type κ) (xs ys : List A) → All P (xs ++ ys) → All P xs
  All-left P [] ys h = tt
  All-left P (x ∷ xs) ys h = (h.0, All-left P xs ys h.1)

  -- What is served stays served while another rule is registered.
  register_rule-held :
      (state : AppState api) (rule : Rule) (idx : ℕ) (held : List RuleEntry)
      → length state.runtimes ≡ idx
      → AllServed api json held state.runtimes state.crud_stores
      → let after = register_rule api json state rule idx in
        AllServed api json held after.runtimes after.crud_stores
  unfolding register_rule add IsRegistered
  register_rule-held state rule idx held e h =
      let with_held = record state { store = record { entries = held } } in
      let (_, served) = register_rule-IsRegistered api json with_held rule idx e h in
      All-left (IsServed api json _ _) held _ served

  Step-IsSound : {s t : System} → Step s t → IsSound s → IsSound t
  unfolding register_rule IsRegistered
  Step-IsSound (begin s rules e) h = record {
    counted = (subst (λ l. Agrees l s.state) e h.counted, refl);
    stored = h.stored;
    matched = h.matched;
  }
  Step-IsSound (register s rule rest idx e) h =
      let (n, total) = subst (λ l. Agrees l s.state) e h.counted in
      let (grown, served) = register_rule-IsRegistered api json s.state rule idx n h.stored in
      record {
        counted = (grown, omega arith);
        stored = served;
        matched = register_rule-held s.state rule idx s.held n h.matched;
      }
  Step-IsSound (release s idx e) h =
      let (n, total) = subst (λ l. Agrees l s.state) e h.counted in
      record { counted = omega arith; stored = h.stored; matched = h.matched }
  Step-IsSound (arrive s method path e found) h = record {
    counted = h.counted;
    stored = h.stored;
    matched = (match_request-IsServed api json s.state method path e h.stored found, h.matched);
  }

  Reach-IsSound : {s : System} → Reach s → IsSound s
  unfolding new_state new_store
  Reach-IsSound start = record { counted = refl; stored = tt; matched = tt }
  Reach-IsSound (later r st) = Step-IsSound st (Reach-IsSound r)

  All-get_elem? {ℓ κ} :
      {A : Type ℓ} (P : A → Type κ) (xs : List A) (i : ℕ) (x : A)
      → All P xs
      → get_elem? xs i ≡ some x
      → P x
  All-get_elem? P [] i x h e = cc e
  All-get_elem? P (y ∷ xs) zero x h e = subst P (ground arith) h.0
  All-get_elem? P (y ∷ xs) (suc i) x h e = All-get_elem? P xs i x h.1 e

  -- However requests and appends of rules interleave, a request that was matched with an entry finds at
  -- its index the runtime made from the entry's own limits and, for a resource, the store made from
  -- its own specification, at every later moment at which it can take the locks.
  pub held-IsServed :
      {s : System} (i : ℕ) (e : RuleEntry)
      → Reach s
      → s.lock ≡ unlocked
      → get_elem? s.held i ≡ some e
      → (get_runtime api s.state e.index ≡ some (new_runtime api e.rule.behavior))
        × HasResource api json s.state.crud_stores e.index e.rule.reply
  unfolding get_runtime
  held-IsServed {s} i e r free found =
      let (lt, runtime, resource) =
        All-get_elem? (IsServed api json s.state.runtimes s.state.crud_stores) s.held i e
          (Reach-IsSound r).matched found in
      (runtime, resource)

  abbrev pub fresh_runtimes : List Rule → List (BehaviorRuntime api)
  fresh_runtimes [] = []
  fresh_runtimes (rule ∷ rules) = new_runtime api rule.behavior ∷ fresh_runtimes rules

  pub runtimes-register_from :
      (rules : List Rule) (state : AppState api) (idx : ℕ)
      → length state.runtimes ≡ idx
      → (register_from api json state rules idx).runtimes ≡ state.runtimes ++ fresh_runtimes rules
  unfolding register_from
  runtimes-register_from [] state idx e = sym (append-nil state.runtimes)
  runtimes-register_from (rule ∷ rules) state idx e =
      let rt = new_runtime api rule.behavior in
      let pushed : (register_rule api json state rule idx).runtimes ≡ state.runtimes ++ rt ∷ [] =
        subst (λ i. (register_rule api json state rule i).runtimes ≡ state.runtimes ++ rt ∷ []) e
          (runtimes-register_rule api json state rule) in
      runtimes-register_from rules (register_rule api json state rule idx) (idx + 1)
        (omega (arith, ap length pushed, length-append state.runtimes (rt ∷ []), e))
      ∙ ap (λ l. l ++ fresh_runtimes rules) pushed
      ∙ append_assoc state.runtimes (rt ∷ []) (fresh_runtimes rules)

  abbrev pub runtime_of : Option Rule → Option (BehaviorRuntime api)
  runtime_of none = none
  runtime_of (some rule) = some (new_runtime api rule.behavior)

  pub get_elem?-fresh_runtimes :
      (rules : List Rule) (i : ℕ)
      → get_elem? (fresh_runtimes rules) i ≡ runtime_of (get_elem? rules i)
  get_elem?-fresh_runtimes [] i = refl
  get_elem?-fresh_runtimes (rule ∷ rules) zero = refl
  get_elem?-fresh_runtimes (rule ∷ rules) (suc i) = get_elem?-fresh_runtimes rules i

  -- After a `PUT` of rules, every index leads to the runtime of the new rule at that place, or to none
  -- behind the last: so does the index of an entry that a request was matched with before.
  pub replaced-runtime :
      (state : AppState api) (rules : List Rule) (idx : ℕ)
      → get_runtime api (register_rules api json (clear_all api state) rules) idx
        ≡ runtime_of (get_elem? rules idx)
  unfolding get_runtime register_rules clear_all clear
  replaced-runtime state rules idx =
      let cleared = record (clear_all api state) { stub_counter = 0 + length rules } in
      ap (λ l. get_elem? l idx) (runtimes-register_from rules cleared 0 refl)
      ∙ get_elem?-fresh_runtimes rules idx
