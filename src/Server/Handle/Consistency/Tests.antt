-- ===== src/Server/Handle/Consistency/Tests.antt =====
-- src/server.rs: a resource that is registered and then posted to.
use mockinx.Common.{◌≡◌, refl, some, [], ◌∷◌}
use mockinx.Text.{str, text_eq, strip_suffix, starts_with, eq_ignore_ascii_case}
use mockinx.Error.{Result, ok}
use mockinx.Units.{Rng}
use mockinx.MatchRule.{matches, path_agrees, normalize_path}
use mockinx.Reply.Strategy.{crud}
use mockinx.Reply.Crud.{CrudStore}
use mockinx.Reply.Crud.Keys.{HasKeys}
use mockinx.Serve.Runtime.{BehaviorRuntime, new_runtime, check, check_rate, check_concurrency}
use mockinx.Rule.{Rule}
use mockinx.Store.{new_entry, new_store, add, match_request, find_match}
use mockinx.Server.{
  AppState, new_state, grow, register_rule, register_from, register_rules, get_runtime,
  get_crud_store,
}
use mockinx.Server.Reflect.{Request, resolve_reflect}
use mockinx.Server.Handle.{
  Answer, handle_request, resolve_and_deliver, resolve_reply, shape, chaos_override,
}
use mockinx.Server.Handle.Consistency.Reach.{start, later, appends, answers, matched-HasKeys}
use mockinx.Samples.{
  no_text, get_root, fixed_point, printer, counting, quarter_draws, rule_at, users,
}

abbrev users_rule : Rule
users_rule = rule_at (str "/users") (crud users [])

abbrev with_users : AppState counting
with_users = register_rules counting printer (new_state counting) (users_rule ∷ [])

abbrev post_bob : Request
post_bob = record get_root { method = str "POST"; path = str "/users"; body = str "Bob" }

abbrev Handled : Type 0
Handled = Result (Answer × AppState counting × Rng)

abbrev answer_of : Handled → Answer
answer_of (ok (answer, state, rng)) = answer
answer_of r = Answer.stalled

abbrev state_of : Handled → AppState counting
state_of (ok (answer, state, rng)) = state
state_of r = with_users

abbrev posting : Handled
posting = handle_request fixed_point printer no_text counting with_users post_bob [] 5 quarter_draws

abbrev posted : AppState counting
posted = state_of posting

post_is_answered : posting ≡ ok (answer_of posting, posted, quarter_draws)
unfolding handle_request resolve_and_deliver resolve_reply shape chaos_override match_request
    find_match matches path_agrees normalize_path text_eq strip_suffix starts_with
    eq_ignore_ascii_case str get_runtime check check_rate check_concurrency register_rules
    register_from register_rule new_state new_store add new_entry new_runtime grow get_crud_store
    resolve_reflect
post_is_answered = refl

found : match_request posted.store (str "GET") (str "/users") ≡ some (new_entry users_rule 0)
unfolding handle_request resolve_and_deliver resolve_reply shape chaos_override match_request
    find_match matches path_agrees normalize_path text_eq strip_suffix starts_with
    eq_ignore_ascii_case str get_runtime check check_rate check_concurrency register_rules
    register_from register_rule new_state new_store add new_entry new_runtime grow get_crud_store
    resolve_reflect
found = refl

matched-HasKeys_example :
    ((runtime : BehaviorRuntime counting) × (get_runtime counting posted 0 ≡ some runtime))
    × ((store : CrudStore) × (get_crud_store counting posted 0 ≡ some store) × HasKeys store)
unfolding new_entry
matched-HasKeys_example =
    matched-HasKeys fixed_point printer no_text counting (str "GET") (str "/users")
      (new_entry users_rule 0) users []
      (later (later start (appends (users_rule ∷ []))) (
        answers post_bob [] 5 quarter_draws quarter_draws (answer_of posting) posted
          post_is_answered))
      found refl
