-- ===== src/Server/Respond/Unresolved/Tests.antt =====
-- src/server.rs: a rule whose chaos reflects three requests of ten.
use mockinx.Common.{◌≡◌, refl, none, some, List, [], ◌∷◌}
use mockinx.Text.{str, text_eq, strip_suffix, starts_with, eq_ignore_ascii_case}
use mockinx.Error.{panicked}
use mockinx.Float.{F64}
use mockinx.Units.{Rng}
use mockinx.MatchRule.{matches, path_agrees, normalize_path}
use mockinx.Reply.{method}
use mockinx.Reply.Strategy.{static}
use mockinx.Chaos.{ChaosEntry, resolve_chaos}
use mockinx.Rule.{Rule}
use mockinx.Store.{new_entry, match_request, find_match}
use mockinx.Server.{AppState}
use mockinx.Server.Respond.{serve}
use mockinx.Server.Respond.Unresolved.{IsOverridden, serve-reflecting_chaos}
use mockinx.Server.Respond.Tests.{lower_names, ascii, mirror}
use mockinx.Samples.{
  no_text, get_root, fixed_point, printer, counting, quarter_draws, rule_at, empty_reply,
}

abbrev three_of_ten : List ChaosEntry
three_of_ten = record { p = F64.bits 30_000; reply = some mirror; serve = none } ∷ []

abbrev chaotic_rule : Rule
chaotic_rule = record (rule_at (str "/") (static empty_reply)) { chaos = some three_of_ten }

abbrev chaotic_state : AppState counting
chaotic_state = record {
  store = record { entries = new_entry chaotic_rule 0 ∷ [] };
  runtimes = [];
  crud_stores = [];
  stub_counter = 1;
}

abbrev after_roll : Rng
after_roll = record quarter_draws { place = 1 }

overridden :
    IsOverridden fixed_point (new_entry chaotic_rule 0).rule quarter_draws mirror none after_roll
unfolding new_entry resolve_chaos
overridden = record {
  entries = three_of_ten;
  chaotic = refl;
  selected = refl;
  unlimited = refl;
  unrated = refl;
  untimed = refl;
}

found :
    match_request chaotic_state.store get_root.method get_root.path
    ≡ some (new_entry chaotic_rule 0)
unfolding match_request find_match matches path_agrees normalize_path text_eq strip_suffix
    starts_with eq_ignore_ascii_case str new_entry
found = refl

serve-reflecting_chaos_example :
    serve lower_names ascii fixed_point printer no_text counting chaotic_state get_root
      (some [])
      []
      0
      0
      0
      quarter_draws
    ≡ panicked
serve-reflecting_chaos_example =
    serve-reflecting_chaos lower_names ascii fixed_point printer no_text counting chaotic_state
      (new_entry chaotic_rule 0) get_root [] [] 0 0 0 quarter_draws after_roll mirror none
      (method ∷ []) found overridden refl
