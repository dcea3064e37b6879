-- ===== src/Rule.antt =====
-- src/rule.rs: a whole rule, and the parser of one or of many.
pub mod WellFormed
pub mod Errors
mod Tests
use mockinx.Common.{ℕ, ◌+◌, Option, none, some, List, [], ◌∷◌}
use mockinx.Text.{Text, str}
use mockinx.Error.{Result, ok, fail, or_fail, map_err, in_field, in_index, ◌>>=◌, ◌>>◌}
use mockinx.Float.{FloatOps}
use mockinx.Json.{Value, number, pos_int, array, object, SerdeJson, as_object, items, get, keys}
use mockinx.Yttp.{Yttp}
use mockinx.MatchRule.{MatchRule, parse_match_rule}
use mockinx.Reply.Strategy.{ReplyStrategy, parse_reply_strategy}
use mockinx.Suggest.{suggest_rule_key}
use mockinx.Serve.Behavior.{BehaviorSpec, default_behavior}
use mockinx.Serve.Pace.{DeliverySpec, default_delivery}
use mockinx.Serve.Parse.{check_keys, parse_serve}
use mockinx.Chaos.{ChaosEntry, parse_chaos}

pub record Rule : Type 0 where
  pub match_rule : MatchRule
  pub reply : ReplyStrategy
  pub delivery : DeliverySpec
  pub behavior : BehaviorSpec
  pub chaos : Option (List ChaosEntry)
  pub source : Value

unfoldable pub rule_known_keys : List Text
rule_known_keys = str "match" ∷ str "reply" ∷ str "serve" ∷ str "chaos" ∷ []

module _ (ops : FloatOps) (json : SerdeJson) (yttp : Yttp) where
  abbrev served : Option Value → Result (DeliverySpec × BehaviorSpec)
  served none = ok (default_delivery, default_behavior)
  served (some v) = map_err (in_field (str "serve")) (parse_serve ops json yttp v)

  unfoldable pub overridden : Option Value → Result (Option (List ChaosEntry))
  overridden none = ok none
  overridden (some v) = do
    entries ← map_err (in_field (str "chaos")) (parse_chaos ops json yttp v)
    ok (some entries)

  unfoldable pub parse_rule : Value → Option Text → Result Rule
  unfolding rule_known_keys
  parse_rule v base_dir = do
    obj ← or_fail (as_object v) (str "rule must be an object")
    check_keys rule_known_keys (str "rule") suggest_rule_key (keys obj)
    match_val ← or_fail (get (str "match") obj) (str "rule requires 'match' field")
    match_rule ← map_err (in_field (str "match")) (parse_match_rule json yttp match_val)
    reply_val ←
        or_fail (get (str "reply") obj)
          (str "missing 'reply' — every rule needs a reply (static, sequence, or crud!)")
    reply ← map_err (in_field (str "reply")) (parse_reply_strategy ops json yttp reply_val base_dir)
    (delivery, behavior) ← served (get (str "serve") obj)
    chaos ← overridden (get (str "chaos") obj)
    ok (record {
      match_rule = match_rule;
      reply = reply;
      delivery = delivery;
      behavior = behavior;
      chaos = chaos;
      source = v;
    })

  abbrev pub decimal : ℕ → Text
  decimal n = json.to_string (number (pos_int n))

  -- The loop over an array, from place `i` on.
  unfoldable pub parse_rules_from : ℕ → List Value → Option Text → Result (List Rule)
  unfolding parse_rule
  parse_rules_from i [] base_dir = ok []
  parse_rules_from i (item ∷ rest) base_dir = do
    rule ← map_err (in_index decimal (str "rule") i) (parse_rule item base_dir)
    rules ← parse_rules_from (i + 1) rest base_dir
    ok (rule ∷ rules)

  unfoldable pub parse_rules : Value → Option Text → Result (List Rule)
  unfolding parse_rules_from
  parse_rules (array vs) base_dir = parse_rules_from 0 (items vs) base_dir
  parse_rules (object obj) base_dir = parse_rule (object obj) base_dir >>= λ r. ok (r ∷ [])
  parse_rules v base_dir = fail (str "rules must be an object or array")
