-- ===== src/Server/Registry/Tests.antt =====
-- src/server.rs: a request that arrives while a rule is appended.
use mockinx.Common.{◌+◌, ◌≡◌, refl, arith, false, none, some, [], ◌∷◌, get_elem?}
use mockinx.Text.{str, text_eq, strip_suffix, starts_with, eq_ignore_ascii_case}
use mockinx.MatchRule.{matches, path_agrees, normalize_path}
use mockinx.Reply.Strategy.{static}
use mockinx.Serve.Runtime.{new_runtime}
use mockinx.Rule.{Rule}
use mockinx.Store.{RuleEntry, new_entry, new_store, add, clear, match_request, find_match}
use mockinx.Server.{
  AppState, new_state, register_rule, register_rules, register_from, clear_all, get_runtime,
  get_crud_store,
}
use mockinx.Server.Registry.{HasResource}
use mockinx.Server.Registry.Interleaving.{
  System, unlocked, begin, register, release, arrive, Reach, start, later, runtime_of,
  held-IsServed, replaced-runtime,
}
use mockinx.Server.Registry.Race.{race, race-no_runtime}
use mockinx.Server.Registry.Race.{clear_store, clear_others}
use mockinx.Server.Handle.{resolve_and_deliver, handle_request}
use mockinx.Server.Handle.Raced.{handle_request-race}
use mockinx.Samples.{
  counting, printer, rule_at, empty_reply, fixed_point, no_text, get_root, quarter_draws,
}

abbrev root_rule : Rule
root_rule = rule_at (str "/") (static empty_reply)

abbrev registered : AppState counting
registered =
    register_rule counting printer (record (new_state counting) { stub_counter = 1 }) root_rule 0

abbrev root_entry : RuleEntry
root_entry = new_entry root_rule 0

found : match_request registered.store (str "GET") (str "/") ≡ some root_entry
unfolding match_request find_match new_state register_rule add new_entry new_store matches
    path_agrees normalize_path text_eq strip_suffix starts_with eq_ignore_ascii_case str
found = refl

abbrev after_append : System counting printer
after_append = record { state = registered; lock = unlocked; held = root_entry ∷ [] }

-- The request arrives before the locks are released.
reached : Reach counting printer after_append
unfolding new_state
reached =
    later
      (later (later (later start (begin _ (root_rule ∷ []) refl)) (register _ root_rule [] 0 refl))
        (arrive _ (str "GET") (str "/") root_entry found))
      (release _ 1 refl)

held-IsServed_example :
    (get_runtime counting registered 0 ≡ some (new_runtime counting root_rule.behavior))
    × HasResource counting printer registered.crud_stores 0 root_rule.reply
unfolding new_entry
held-IsServed_example = held-IsServed counting printer 0 root_entry reached refl refl

replaced-runtime_example :
    get_runtime counting
      (register_rules counting printer (clear_all counting registered) (root_rule ∷ []))
      1
    ≡ runtime_of counting printer none
replaced-runtime_example = replaced-runtime counting printer registered (root_rule ∷ []) 1

race-no_runtime_example :
    let after = race counting printer registered (root_rule ∷ []) (root_rule ∷ []) in
    (get_elem? after.store.entries 0 ≡ some (new_entry root_rule (registered.stub_counter + 0)))
    × (get_runtime counting after (registered.stub_counter + 0) ≡ none)
unfolding register_rule
race-no_runtime_example =
    race-no_runtime counting printer registered (root_rule ∷ []) (root_rule ∷ []) 0 root_rule refl
      (omega arith)

-- The replacement has no rule for the root.
abbrev users_rule : Rule
users_rule = rule_at (str "/users") (static empty_reply)

found_later :
    match_request
      (race counting printer registered (root_rule ∷ []) (users_rule ∷ [])).store
      (str "GET")
      (str "/")
    ≡ some (new_entry root_rule 1)
unfolding match_request find_match race clear_store clear_others clear new_state register_rules
    register_from register_rule add new_entry new_store matches path_agrees normalize_path text_eq
    strip_suffix starts_with eq_ignore_ascii_case str
found_later = refl

handle_request-race_example :
    let after = race counting printer registered (root_rule ∷ []) (users_rule ∷ []) in
    let entry = new_entry root_rule (registered.stub_counter + 0) in
    (handle_request fixed_point printer no_text counting after get_root (str "id") 5 quarter_draws
      ≡ resolve_and_deliver fixed_point printer no_text counting after entry get_root
          (str "id")
          false
          quarter_draws)
    × (get_crud_store counting after entry.index ≡ none)
unfolding register_rule
handle_request-race_example =
    handle_request-race printer counting fixed_point no_text registered (root_rule ∷ [])
      (users_rule ∷ []) 0 root_rule get_root (str "id") 5 quarter_draws refl (omega arith)
      found_later
