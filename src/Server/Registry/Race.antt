-- ===== src/Server/Registry/Race.antt =====
-- src/server.rs: rules that are appended while others are replaced. `clear_all` takes the lock of the
-- rules, then that of the runtimes, then that of the resources, and sets the counter last.
use mathlib.Core.List.{append-nil, append_assoc}
use mockinx.Common.{
  ℕ, zero, suc, ◌+◌, ◌≤◌, ◌≡◌, refl, sym, ap, ◌∙◌, none, some, List, [], ◌∷◌, ◌++◌, length,
  get_elem?, arith,
}
use mockinx.Json.{SerdeJson}
use mockinx.Serve.Runtime.{SemaphoreApi}
use mockinx.Rule.{Rule}
use mockinx.Store.{RuleEntry, new_entry, add, clear}
use mockinx.Server.{AppState, register_rule, register_from, register_rules, clear_all, get_runtime}
use mockinx.Server.Registry.Interleaving.{
  runtimes-register_from, runtime_of, get_elem?-fresh_runtimes,
}

module _ (api : SemaphoreApi) (json : SerdeJson) where
  -- The two halves of `clear_all`.
  unfoldable pub clear_store : AppState api → AppState api
  clear_store state = record state { store = clear state.store }

  unfoldable pub clear_others : AppState api → AppState api
  clear_others state = record state { runtimes = []; crud_stores = []; stub_counter = 0 }

  -- Behind each other they are `clear_all`.
  clear_others-clear_store :
      (state : AppState api) → clear_others (clear_store state) ≡ clear_all api state
  unfolding clear_others clear_store clear_all
  clear_others-clear_store state = refl

  -- Rules are appended between the two halves of a replacement.
  unfoldable pub race : AppState api → (appended replacing : List Rule) → AppState api
  unfolding clear_store clear_others register_rules
  race state appended replacing =
      register_rules api json (clear_others (register_rules api json (clear_store state) appended))
        replacing

  abbrev pub fresh_entries : ℕ → List Rule → List RuleEntry
  fresh_entries idx [] = []
  fresh_entries idx (rule ∷ rules) = new_entry rule idx ∷ fresh_entries (idx + 1) rules

  pub entries-register_from :
      (rules : List Rule) (state : AppState api) (idx : ℕ)
      → (register_from api json state rules idx).store.entries
        ≡ state.store.entries ++ fresh_entries idx rules
  unfolding register_from register_rule add
  entries-register_from [] state idx = sym (append-nil state.store.entries)
  entries-register_from (rule ∷ rules) state idx =
      entries-register_from rules (register_rule api json state rule idx) (idx + 1)
      ∙ append_assoc state.store.entries (new_entry rule idx ∷ []) (fresh_entries (idx + 1) rules)

  get_elem?-fresh_entries :
      (rules : List Rule) (idx i : ℕ) (rule : Rule) (rest : List RuleEntry)
      → get_elem? rules i ≡ some rule
      → get_elem? (fresh_entries idx rules ++ rest) i ≡ some (new_entry rule (idx + i))
  get_elem?-fresh_entries [] idx i rule rest e = cc e
  get_elem?-fresh_entries (r ∷ rules) idx zero rule rest e =
      let same : r ≡ rule = ground arith in
      ap (λ x. some (new_entry x idx)) same ∙ ap (λ n. some (new_entry rule n)) (omega arith)
  get_elem?-fresh_entries (r ∷ rules) idx (suc i) rule rest e =
      get_elem?-fresh_entries rules (idx + 1) i rule rest e
      ∙ ap (λ n. some (new_entry rule n)) (omega arith)

  get_elem?-beyond {ℓ} : {A : Type ℓ} (xs : List A) (i : ℕ) → length xs ≤ i → get_elem? xs i ≡ none
  get_elem?-beyond [] i h = refl
  get_elem?-beyond (x ∷ xs) zero h = absurd (omega arith)
  get_elem?-beyond (x ∷ xs) (suc i) h = get_elem?-beyond xs i (omega arith)

  -- Rules that are appended between the two halves of a replacement stay in the store, at the indices
  -- behind the old counter; if no more rules replace than the counter counted, they have no runtime.
  pub race-no_runtime :
      (state : AppState api) (appended replacing : List Rule) (i : ℕ) (rule : Rule)
      → get_elem? appended i ≡ some rule
      → length replacing ≤ state.stub_counter
      → let after = race state appended replacing in
        (get_elem? after.store.entries i ≡ some (new_entry rule (state.stub_counter + i)))
        × (get_runtime api after (state.stub_counter + i) ≡ none)
  unfolding race get_runtime clear
  race-no_runtime state appended replacing i rule found few =
      let counter = state.stub_counter in
      let emptied = clear_store state in
      let counted = record emptied { stub_counter = counter + length appended } in
      let appending = register_from api json counted appended counter in
      let halved = record (clear_others appending) { stub_counter = 0 + length replacing } in
      (
        ap (λ l. get_elem? l i)
              (entries-register_from replacing halved 0
                ∙ ap (λ l. l ++ fresh_entries 0 replacing)
                    (entries-register_from appended counted counter))
            ∙ get_elem?-fresh_entries appended counter i rule (fresh_entries 0 replacing) found,
        ap (λ l. get_elem? l (counter + i))
              (runtimes-register_from api json replacing halved 0 refl)
            ∙ get_elem?-fresh_runtimes api json replacing (counter + i)
            ∙ ap (runtime_of api json) (get_elem?-beyond replacing (counter + i) (omega arith)),
      )
