-- ===== src/Server/Tests.antt =====
-- src/server.rs: two rules, and the paths of a resource.
use mockinx.Common.{◌≡◌, ◌↔◌, refl, false, none, some, List, [], ◌∷◌}
use mockinx.Text.{
  str, contains_char, trim_matches, text_eq, strip_suffix, starts_with, eq_ignore_ascii_case,
}
use mockinx.MatchRule.{matches, path_agrees, normalize_path}
use mockinx.Reply.Strategy.{crud, static}
use mockinx.Serve.Runtime.{new_runtime}
use mockinx.Rule.{Rule}
use mockinx.Store.{new_entry, new_store, add, match_request, find_match}
use mockinx.Server.{new_state, register_rules, register_from, register_rule, get_runtime}
use mockinx.Server.Registry.{Admin, appends, administer, HasResource, matched-IsServed}
use mockinx.Server.Resource.{path_id, is_slash}
use mockinx.Server.Resource.Routing.{path_id_iff}
use mockinx.Samples.{counting, printer, rule_at, empty_reply, users}

abbrev resource_rule : Rule
resource_rule = rule_at (str "/users") (crud users [])

abbrev appended : List Admin
appended = appends (rule_at (str "/") (static empty_reply) ∷ resource_rule ∷ []) ∷ []

found :
    match_request
      (administer counting printer (new_state counting) appended).store
      (str "GET")
      (str "/users")
    ≡ some (new_entry resource_rule 1)
unfolding match_request find_match administer new_state register_rules register_from register_rule
    add new_entry new_store matches path_agrees normalize_path text_eq strip_suffix starts_with
    eq_ignore_ascii_case str
found = refl

matched-IsServed_example :
    let state = administer counting printer (new_state counting) appended in
    let e = new_entry resource_rule 1 in
    (get_runtime counting state e.index ≡ some (new_runtime counting e.rule.behavior))
    × HasResource counting printer state.crud_stores e.index e.rule.reply
matched-IsServed_example =
    matched-IsServed counting printer appended (str "GET") (str "/users")
      (new_entry resource_rule 1) found

path_id_iff_example :
    (path_id (str "/api/users") ≡ none)
    ↔ (contains_char b'/' (trim_matches is_slash (str "/api/users")) ≡ false)
path_id_iff_example = path_id_iff (str "/api/users")
