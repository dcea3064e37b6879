-- ===== src/Server/Handle/Raced.antt =====
-- src/server.rs: a request to a rule that was appended while others were replaced.
use mockinx.Common.{
  ℕ, ◌+◌, ◌≡◌, ◌≤◌, refl, ◌∙◌, ap, false, Option, none, some, List, [], ◌∷◌, length, get_elem?,
  arith,
}
use mockinx.Text.{Text}
use mockinx.Float.{FloatOps}
use mockinx.Units.{Rng}
use mockinx.Json.{SerdeJson}
use mockinx.Serve.Runtime.{SemaphoreApi}
use mockinx.Reply.Strategy.{ReplyStrategy, static, sequence, crud}
use mockinx.Reply.Crud.{CrudStore}
use mockinx.Rule.{Rule}
use mockinx.Store.{new_entry, match_request}
use mockinx.Server.{
  AppState, register_rule, register_from, register_rules, crud_entry, get_at, get_crud_store,
}
use mockinx.Server.Registry.Race.{race, race-no_runtime, clear_others}
use mockinx.Server.Reflect.{Request}
use mockinx.Server.Handle.{resolve_and_deliver, handle_request, with_entry, with_runtime}

module _ (json : SerdeJson) (api : SemaphoreApi) where
  get_at-crud_entry :
      (k idx : ℕ) (reply : ReplyStrategy) (stores : List (ℕ × CrudStore))
      → idx + 1 ≤ k
      → get_at k (crud_entry api json idx reply stores) ≡ get_at k stores
  get_at-crud_entry k idx (static r) stores h = refl
  get_at-crud_entry k idx (sequence rs) stores h = refl
  get_at-crud_entry k idx (crud spec headers) stores h = ground arith

  -- The registration of rules makes no resource behind their indices.
  get_at-register_from :
      (k : ℕ) (rules : List Rule) (state : AppState api) (idx : ℕ)
      → idx + length rules ≤ k
      → get_at k (register_from api json state rules idx).crud_stores ≡ get_at k state.crud_stores
  unfolding register_from register_rule
  get_at-register_from k [] state idx h = refl
  get_at-register_from k (rule ∷ rules) state idx h =
      get_at-register_from k rules (register_rule api json state rule idx) (idx + 1) (omega arith)
      ∙ get_at-crud_entry k idx rule.reply state.crud_stores (omega arith)

  get_crud_store-race :
      (state : AppState api) (appended replacing : List Rule) (k : ℕ)
      → length replacing ≤ k
      → get_crud_store api (race api json state appended replacing) k ≡ none
  unfolding race register_rules clear_others get_crud_store
  get_crud_store-race state appended replacing k h =
      get_at-register_from k replacing _ 0 (omega arith)

  module _ (ops : FloatOps) (from_utf8 : List ℕ → Option Text) where
    -- Rules are appended between the two halves of a replacement by no more rules than the counter
    -- counted. A request that matches an appended rule at its index is then handled without a check of the
    -- rule's limits of rate and concurrency: it goes straight to the reply, without a permit. The
    -- resource of the rule is missing, if it needs one.
    pub handle_request-race :
        (state : AppState api) (appended replacing : List Rule) (i : ℕ) (rule : Rule)
        (req : Request) (uuid : Text) (now : ℕ) (rng : Rng)
        → get_elem? appended i ≡ some rule
        → length replacing ≤ state.stub_counter
        → let after = race api json state appended replacing in
          let entry = new_entry rule (state.stub_counter + i) in
          match_request after.store req.method req.path ≡ some entry
          → (handle_request ops json from_utf8 api after req uuid now rng
              ≡ resolve_and_deliver ops json from_utf8 api after entry req uuid false rng)
            × (get_crud_store api after entry.index ≡ none)
    unfolding handle_request new_entry
    handle_request-race state appended replacing i rule req uuid now rng found few matched =
        let after = race api json state appended replacing in
        let idx = state.stub_counter + i in
        (
          ap (with_entry ops json from_utf8 api after req uuid now rng) matched
              ∙ ap (with_runtime ops json from_utf8 api after (new_entry rule idx) req uuid now rng)
                  (race-no_runtime api json state appended replacing i rule found few).1,
          get_crud_store-race state appended replacing idx (omega arith),
        )
