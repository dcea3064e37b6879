-- ===== src/Server/Handle/Consistency.antt =====
-- src/server.rs: what holds of the shared state under appends and replacements of rules and under
-- requests.
pub mod Pieces
pub mod Requests
pub mod Reach
mod Tests
use mockinx.Common.{
  ℕ, zero, suc, ◌+◌, ◌<◌, ◌≡◌, refl, sym, ap, subst, ◌∙◌, ◌==◌, inl, inr, Option, none, some, List,
  [], ◌∷◌, ◌++◌, length, arith, All, All-append, length-append, Bool-cases, set,
}
use mockinx.Json.{SerdeJson}
use mockinx.Serve.Runtime.{SemaphoreApi, new_runtime}
use mockinx.Reply.Strategy.{ReplyStrategy, static, sequence, crud}
use mockinx.Reply.Crud.{CrudStore, new}
use mockinx.Reply.Crud.Keys.{HasKeys, new-HasKeys}
use mockinx.Rule.{Rule}
use mockinx.Store.{RuleEntry, new_entry, add, new_store, clear}
use mockinx.Server.{
  AppState, new_state, register_rule, register_from, register_rules, clear_all, get_at, crud_entry,
}
use mockinx.Server.Registry.{runtimes-register_rule}

abbrev pub Stores : Type 0
Stores = List (ℕ × CrudStore)

-- A rule of a resource has a store under its index.
abbrev pub HasStore : Stores → ℕ → ReplyStrategy → Type 0
HasStore stores idx (crud spec headers) = (store : CrudStore) × (get_at idx stores ≡ some store)
HasStore stores idx (static r) = Unit
HasStore stores idx (sequence rs) = Unit

abbrev pub IsHeld : ℕ → Stores → RuleEntry → Type 0
IsHeld runtimes stores e = (e.index < runtimes) × HasStore stores e.index e.rule.reply

-- The counter is the number of runtimes, every entry has a runtime and, for a resource, a store, and the
-- items of each store have distinct keys.
pub record IsConsistent {api : SemaphoreApi} (state : AppState api) : Type 0 where
  pub counted : length state.runtimes ≡ state.stub_counter
  pub held : All (IsHeld (length state.runtimes) state.crud_stores) state.store.entries
  pub keys : All (λ p. HasKeys p.1) state.crud_stores

pub HasStore-put :
    (stores : Stores) (i idx : ℕ) (store : CrudStore) (reply : ReplyStrategy)
    → HasStore stores i reply
    → HasStore ((idx, store) ∷ stores) i reply
HasStore-put stores i idx store (static r) h = tt
HasStore-put stores i idx store (sequence rs) h = tt
HasStore-put stores i idx store (crud spec headers) (found, e) = elim (Bool-cases (idx == i)) [
  | inl same ↦ (store, rw same refl)
  | inr other ↦ (found, rw other e)
]

pub IsHeld-All :
    (n m : ℕ) (stores stores' : Stores) (entries : List RuleEntry)
    → ((e : RuleEntry) → IsHeld n stores e → IsHeld m stores' e)
    → All (IsHeld n stores) entries
    → All (IsHeld m stores') entries
IsHeld-All n m stores stores' [] f h = tt
IsHeld-All n m stores stores' (e ∷ entries) f (h, hs) =
    (f e h, IsHeld-All n m stores stores' entries f hs)

module _ (api : SemaphoreApi) (json : SerdeJson) where
  HasStore-later :
      (stores : Stores) (i idx : ℕ) (later reply : ReplyStrategy)
      → HasStore stores i reply
      → HasStore (crud_entry api json idx later stores) i reply
  HasStore-later stores i idx (static r) reply h = h
  HasStore-later stores i idx (sequence rs) reply h = h
  HasStore-later stores i idx (crud spec headers) reply h =
      HasStore-put stores i idx (new json spec) reply h

  HasStore-self :
      (stores : Stores) (idx : ℕ) (reply : ReplyStrategy)
      → HasStore (crud_entry api json idx reply stores) idx reply
  HasStore-self stores idx (static r) = tt
  HasStore-self stores idx (sequence rs) = tt
  HasStore-self stores idx (crud spec headers) = (new json spec, ground arith)

  crud_entry-HasKeys :
      (stores : Stores) (idx : ℕ) (reply : ReplyStrategy)
      → All (λ p. HasKeys p.1) stores
      → All (λ p. HasKeys p.1) (crud_entry api json idx reply stores)
  crud_entry-HasKeys stores idx (static r) h = h
  crud_entry-HasKeys stores idx (sequence rs) h = h
  crud_entry-HasKeys stores idx (crud spec headers) h = (new-HasKeys json spec, h)

  -- While `register_rules` runs: the counter is ahead by the rules that are left.
  record IsBetween (state : AppState api) (idx : ℕ) : Type 0 where
    grown : length state.runtimes ≡ idx
    held : All (IsHeld (length state.runtimes) state.crud_stores) state.store.entries
    keys : All (λ p. HasKeys p.1) state.crud_stores

  length-register_rule :
      (state : AppState api) (rule : Rule) (idx : ℕ)
      → length state.runtimes ≡ idx
      → length (register_rule api json state rule idx).runtimes ≡ idx + 1
  length-register_rule state rule idx e =
      subst (λ i. length (register_rule api json state rule i).runtimes ≡ i + 1) e
        (ap length (runtimes-register_rule api json state rule)
          ∙ length-append state.runtimes (new_runtime api rule.behavior ∷ []))

  register_rule-IsBetween :
      (state : AppState api) (rule : Rule) (idx : ℕ)
      → IsBetween state idx
      → IsBetween (register_rule api json state rule idx) (idx + 1)
  unfolding register_rule add new_entry
  register_rule-IsBetween state rule idx h =
      let grown = length-register_rule state rule idx h.grown in
      let stores = crud_entry api json idx rule.reply state.crud_stores in
      record {
        grown = grown;
        held =
            subst (λ n. All (IsHeld n stores) (state.store.entries ++ new_entry rule idx ∷ []))
              (sym grown)
              (All-append (IsHeld (idx + 1) stores) state.store.entries (new_entry rule idx ∷ [])
                (IsHeld-All (length state.runtimes) (idx + 1) state.crud_stores stores
                  state.store.entries
                  (λ e (lt, there). (
                    omega (arith, lt, h.grown),
                    HasStore-later state.crud_stores e.index idx rule.reply e.rule.reply there,
                  ))
                  h.held)
                ((omega arith, HasStore-self state.crud_stores idx rule.reply), tt));
        keys = crud_entry-HasKeys state.crud_stores idx rule.reply h.keys;
      }

  register_from-IsBetween :
      (rules : List Rule) (state : AppState api) (idx : ℕ)
      → IsBetween state idx
      → IsBetween (register_from api json state rules idx) (idx + length rules)
        × ((register_from api json state rules idx).stub_counter ≡ state.stub_counter)
  unfolding register_from register_rule
  register_from-IsBetween [] state idx h = (subst (IsBetween state) (omega arith) h, refl)
  register_from-IsBetween (rule ∷ rules) state idx h =
      let (after, counter) =
        register_from-IsBetween rules (register_rule api json state rule idx) (idx + 1)
          (register_rule-IsBetween state rule idx h) in
      (subst (IsBetween _) (omega arith) after, counter)

  pub register_rules-IsConsistent :
      (state : AppState api) (rules : List Rule)
      → IsConsistent state
      → IsConsistent (register_rules api json state rules)
  unfolding register_rules
  register_rules-IsConsistent state rules h =
      let counted = record state { stub_counter = state.stub_counter + length rules } in
      let (after, counter) =
        register_from-IsBetween rules counted state.stub_counter
          (record { grown = h.counted; held = h.held; keys = h.keys }) in
      record { counted = omega (arith, after.grown, counter); held = after.held; keys = after.keys }

  pub clear_all-IsConsistent : (state : AppState api) → IsConsistent (clear_all api state)
  unfolding clear_all clear
  clear_all-IsConsistent state = record { counted = refl; held = tt; keys = tt }

  pub new_state-IsConsistent : IsConsistent (new_state api)
  unfolding new_state new_store
  new_state-IsConsistent = record { counted = refl; held = tt; keys = tt }
