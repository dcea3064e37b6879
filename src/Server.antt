-- ===== src/Server.antt =====
-- src/server.rs: the shared state, and how rules enter it. The rules change under POST and PUT of
-- `/_mx`; one of those runs at a time here, and no request is under way.
pub mod Registry
pub mod Admin
pub mod Resource
pub mod Reflect
pub mod Handle
pub mod Respond
mod Tests
use mockinx.Common.{
  ℕ, zero, suc, ◌+◌, ◌==◌, Option, none, some, List, [], ◌∷◌, ◌++◌, length, set, get_elem?, leb,
  if◌then◌else◌,
}
use mockinx.Json.{SerdeJson}
use mockinx.Serve.Behavior.{default_behavior}
use mockinx.Serve.Runtime.{SemaphoreApi, BehaviorRuntime, new_runtime}
use mockinx.Reply.Strategy.{ReplyStrategy, crud}
use mockinx.Reply.Crud.{CrudStore, new}
use mockinx.Rule.{Rule}
use mockinx.Store.{RuleStore, new_store, add, clear}

-- `HashMap<usize, _>`: the last value under a key is found first.
abbrev pub get_at {ℓ} : {V : Type ℓ} → ℕ → List (ℕ × V) → Option V
get_at k [] = none
get_at k ((j, v) ∷ m) = if j == k then some v else get_at k m

module _ (api : SemaphoreApi) where
  pub record AppState : Type 0 where
    pub store : RuleStore
    pub runtimes : List (BehaviorRuntime api)
    pub crud_stores : List (ℕ × CrudStore)
    pub stub_counter : ℕ

  unfoldable pub new_state : AppState
  new_state = record { store = new_store; runtimes = []; crud_stores = []; stub_counter = 0 }

  -- The `while` loop that makes the vector large enough: `idx + 1` rounds are enough.
  unfoldable pub grow : ℕ → ℕ → List (BehaviorRuntime api) → List (BehaviorRuntime api)
  grow zero idx runtimes = runtimes
  grow (suc fuel) idx runtimes =
      let grown = grow fuel idx (runtimes ++ new_runtime api default_behavior ∷ []) in
      if leb (length runtimes) idx then grown else runtimes

  module _ (json : SerdeJson) where
    abbrev pub crud_entry : ℕ → ReplyStrategy → List (ℕ × CrudStore) → List (ℕ × CrudStore)
    crud_entry idx (crud spec headers) stores = (idx, new json spec) ∷ stores
    crud_entry idx _ stores = stores

    -- The body of the loop of `register_rules`.
    unfoldable pub register_rule : AppState → Rule → ℕ → AppState
    unfolding grow
    register_rule state rule idx = record state {
      runtimes = set (grow (idx + 1) idx state.runtimes) idx (new_runtime api rule.behavior);
      crud_stores = crud_entry idx rule.reply state.crud_stores;
      store = add state.store rule idx;
    }

    unfoldable pub register_from : AppState → List Rule → ℕ → AppState
    unfolding register_rule
    register_from state [] idx = state
    register_from state (rule ∷ rules) idx =
        register_from (register_rule state rule idx) rules (idx + 1)

    unfoldable pub register_rules : AppState → List Rule → AppState
    unfolding register_from
    register_rules state rules =
        register_from (record state { stub_counter = state.stub_counter + length rules }) rules
          state.stub_counter

  unfoldable pub clear_all : AppState → AppState
  clear_all state = record {
    store = clear state.store;
    runtimes = [];
    crud_stores = [];
    stub_counter = 0;
  }

  unfoldable pub get_runtime : AppState → ℕ → Option (BehaviorRuntime api)
  get_runtime state idx = get_elem? state.runtimes idx

  unfoldable pub get_crud_store : AppState → ℕ → Option CrudStore
  get_crud_store state idx = get_at idx state.crud_stores
