-- ===== src/Rule/Tests.antt =====
-- src/rule.rs on a concrete rule.
use mockinx.Common.{◌≡◌, ◌↔◌, refl, none, some, [], ◌∷◌}
use mockinx.Text.{str, text_eq, starts_with}
use mockinx.Error.{ok, err, error, in_index}
use mockinx.Json.{
  Value, Items, null, number, string, object, array, pos_int, field, end, cons, nil, get, fields,
  items,
}
use mockinx.MatchRule.{method_path, parse_match_rule, parse_match_object, parse_entry}
use mockinx.Reply.{parse_reply, parse_each}
use mockinx.Reply.Strategy.{sequence, parse_reply_strategy, parse_sequence}
use mockinx.Serve.Behavior.{default_behavior}
use mockinx.Serve.Pace.{default_delivery}
use mockinx.Serve.Parse.{check_keys, contains}
use mockinx.Rule.Errors.{IsFirstError, parse_rules_iff}
use mockinx.Rule.{Rule, decimal, parse_rule, parse_rules, rule_known_keys, overridden}
use mockinx.Rule.WellFormed.{IsWellFormed, parse_rule-IsWellFormed}
use mockinx.Samples.{fixed_point, printer, shortcuts, empty_reply}

-- `{match: {g: "users"}, reply: [{s: 200}]}`
abbrev given : Value
given = object (
    field (str "match") (object (field (str "g") (string (str "users")) end)) (
      field (str "reply") (array (cons (object (field (str "s") (number (pos_int 200)) end)) nil))
        end))

abbrev get_users : Rule
get_users = record {
  match_rule = method_path (some (str "GET")) (str "/users");
  reply = sequence (empty_reply ∷ []);
  delivery = record { pace = none; drop = none; hang = none; first_byte = none };
  behavior = record { concurrency = none; rate_limit = none; timeout = none };
  chaos = none;
  source = given;
}

parses : parse_rule fixed_point printer shortcuts given none ≡ ok get_users
unfolding parse_rule rule_known_keys check_keys contains parse_match_rule parse_match_object
    parse_entry parse_reply_strategy parse_sequence parse_each parse_reply overridden
    default_behavior default_delivery get fields items text_eq starts_with str
parses = refl

parse_rule-IsWellFormed_example : IsWellFormed fixed_point printer shortcuts get_users
parse_rule-IsWellFormed_example =
    parse_rule-IsWellFormed fixed_point printer shortcuts given none get_users parses

-- The second item is no object.
abbrev with_null : Items
with_null = cons given (cons null nil)

not_object :
    parse_rule fixed_point printer shortcuts null none ≡ err (error (str "rule must be an object"))
unfolding parse_rule
not_object = refl

parse_rules_iff_example :
    parse_rules fixed_point printer shortcuts (array with_null) none
      ≡ err (
          in_index
            (decimal fixed_point printer shortcuts)
            (str "rule")
            1
            (error (str "rule must be an object")))
    ↔ IsFirstError fixed_point printer shortcuts none 0 (items with_null) (
        in_index
          (decimal fixed_point printer shortcuts)
          (str "rule")
          1
          (error (str "rule must be an object")))
parse_rules_iff_example = parse_rules_iff fixed_point printer shortcuts none with_null _

first_error : IsFirstError fixed_point printer shortcuts none 0 (items with_null) (
    in_index
      (decimal fixed_point printer shortcuts)
      (str "rule")
      1
      (error (str "rule must be an object")))
unfolding items
first_error = record {
  before = given ∷ [];
  item = null;
  after = [];
  cause = error (str "rule must be an object");
  split = refl;
  rules = ((get_users, parses), tt);
  rejected = not_object;
  located = refl;
}
