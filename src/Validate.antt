-- ===== src/Validate.antt =====
-- src/validate.rs: warnings about rules that are valid and make little sense.
use mockinx.Common.{
  ℕ, ◌+◌, Bool, true, false, Option, none, some, List, [], ◌∷◌, ◌++◌, length, ltb, if◌then◌else◌,
}
use mockinx.Text.{Text, str}
use mockinx.Float.{F64, FloatOps}
use mockinx.Units.{Duration, Range, fixed, min_max, as_millis}
use mockinx.Json.{SerdeJson, number, pos_int}
use mockinx.Serve.Pace.{DropSpec, PaceSpec, over_duration}
use mockinx.Chaos.{ChaosEntry}
use mockinx.Rule.{Rule}

pub record Warning : Type 0 where
  pub msg : Text

-- `Display`
unfoldable pub display_warning : Warning → Text
display_warning w = str "⚠ " ++ w.msg

abbrev shortest : Range Duration → ℕ
shortest (fixed d) = as_millis d
shortest (min_max lo hi) = as_millis lo

abbrev longest : Range Duration → ℕ
longest (fixed d) = as_millis d
longest (min_max lo hi) = as_millis hi

unfoldable pub drops_early : Option DropSpec → Option PaceSpec → Bool
drops_early (some (DropSpec.after_time drop)) (some (over_duration pace)) =
    ltb (shortest drop) (longest pace)
drops_early _ _ = false

module _ (ops : FloatOps) where
  open ops use {add, sub, div, abs, lt, of_u64}

  abbrev sum_p : F64 → List ChaosEntry → F64
  sum_p total [] = total
  sum_p total (e ∷ es) = sum_p (add total e.p) es

  -- `(total - 100.0).abs() < 0.01`
  unfoldable pub sums_to_all : Option (List ChaosEntry) → Bool
  sums_to_all none = false
  sums_to_all (some chaos) =
      lt (abs (sub (sum_p (of_u64 0) chaos) (of_u64 100))) (div (of_u64 1) (of_u64 100))

  module _ (json : SerdeJson) where
    abbrev prefix_of : Option ℕ → Text
    prefix_of none = []
    prefix_of (some i) = str "rule[" ++ json.to_string (number (pos_int i)) ++ str "]."

    abbrev warn_if : Bool → Text → List Warning
    warn_if true msg = record { msg = msg } ∷ []
    warn_if false msg = []

    unfoldable pub validate_rule : Rule → Option ℕ → List Warning
    unfolding drops_early sums_to_all
    validate_rule rule index =
        warn_if (drops_early rule.delivery.drop rule.delivery.pace) (
          prefix_of index
          ++ str "serve: drop fires before pace completes — response will be truncated early")
        ++ warn_if (sums_to_all rule.chaos) (
            prefix_of index
            ++ str "chaos: percentages sum to 100% — no normal responses will ever be returned")

    unfoldable pub validate_from : Bool → ℕ → List Rule → List Warning
    unfolding validate_rule
    validate_from many i [] = []
    validate_from many i (rule ∷ rest) =
        validate_rule rule (if many then some i else none) ++ validate_from many (i + 1) rest

    unfoldable pub validate_rules : List Rule → List Warning
    unfolding validate_from
    validate_rules rules = validate_from (ltb 1 (length rules)) 0 rules
