-- ===== src/Server/Admin/Tests.antt =====
-- src/server.rs: a `PUT` of one rule.
use mockinx.Common.{ℕ, Option, some, List, [], ◌∷◌}
use mockinx.Text.{Text, str}
use mockinx.Json.{Value, number, string, object, pos_int, field, end}
use mockinx.Reply.Strategy.{static}
use mockinx.Server.{AppState, new_state, register_rules}
use mockinx.Server.Admin.{Read, value, parse_body_as_rules, handle_replace_rules}
use mockinx.Server.Admin.Replaced.{Outcome, handle_replace_rules-cases}
use mockinx.Samples.{fixed_point, printer, shortcuts, counting, rule_at, empty_reply}

-- `{match: {g: "users"}, reply: {s: 200}}`
abbrev given : Value
given = object (
    field (str "match") (object (field (str "g") (string (str "users")) end))
      (field (str "reply") (object (field (str "s") (number (pos_int 200)) end)) end))

abbrev ascii : List ℕ → Option Text
ascii bytes = some bytes

abbrev reads : Text → Read
reads s = value given

-- A state with one rule already, and an empty one.
abbrev before : AppState counting
before =
    register_rules counting printer (new_state counting)
      (rule_at (str "/") (static empty_reply) ∷ [])

handle_replace_rules-cases_example :
    let after =
      handle_replace_rules fixed_point printer shortcuts ascii reads counting before (1 ∷ []) in
    Outcome fixed_point printer shortcuts ascii reads counting before
      (parse_body_as_rules fixed_point printer shortcuts ascii reads counting (1 ∷ []))
      after.0
      after.1
handle_replace_rules-cases_example =
    handle_replace_rules-cases fixed_point printer shortcuts ascii reads counting before (1 ∷ [])
