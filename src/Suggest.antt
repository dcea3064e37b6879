-- ===== src/Suggest.antt =====
-- src/suggest.rs: suggestions for unknown keys.
pub mod Distance
pub mod Alignment
pub mod Nearest
mod Tests
use mathlib.Core.Option
use mockinx.Common.{
  ℕ, suc, ◌+◌, Bool, true, false, ◌&&◌, Option, none, some, List, [], ◌∷◌, ◌++◌, min, length,
  get_elem?, if◌then◌else◌, ltb, leb, ◌==◌,
}
use mockinx.Text.{Text, str, text_eq, to_lowercase}

pub data Suggestion : Type 0 where
  use_key : Text → Suggestion
  hint : Text → Suggestion

abbrev Table : Type 0
Table = List (Text × Text)

unfoldable pub rule_aliases : Table
rule_aliases =
    (str "response", str "reply")
    ∷ (str "resp", str "reply")
    ∷ (str "answer", str "reply")
    ∷ (str "behavior", str "serve")
    ∷ (str "behaviour", str "serve")
    ∷ (str "delivery", str "serve")
    ∷ []

unfoldable pub serve_aliases : Table
serve_aliases =
    (str "speed", str "pace")
    ∷ (str "bandwidth", str "pace")
    ∷ (str "rate", str "pace")
    ∷ (str "duration", str "pace")
    ∷ (str "span", str "pace")
    ∷ (str "time", str "pace")
    ∷ (str "delay", str "first_byte")
    ∷ (str "latency", str "first_byte")
    ∷ (str "wait", str "first_byte")
    ∷ (str "concurrency", str "conn")
    ∷ (str "connections", str "conn")
    ∷ (str "max_connections", str "conn")
    ∷ (str "rate_limit", str "rps")
    ∷ (str "throttle", str "rps")
    ∷ (str "freeze", str "hang")
    ∷ (str "stall", str "hang")
    ∷ []

unfoldable pub serve_hints : Table
serve_hints =
    (str "fail", str "use chaos: instead")
    ∷ (str "error", str "use chaos: instead")
    ∷ (str "fault", str "use chaos: instead")
    ∷ (str "chunk", str "use pace: with @ syntax, e.g. pace: 1kb@100ms")
    ∷ []

unfoldable pub reply_aliases : Table
reply_aliases = (str "status", str "s") ∷ (str "headers", str "h") ∷ (str "body", str "b") ∷ []

unfoldable pub reply_hints : Table
reply_hints = (str "body_size", str "use rand! or pattern! in b:") ∷ []

unfoldable pub rule_keys : List Text
rule_keys = str "match" ∷ str "reply" ∷ str "serve" ∷ str "chaos" ∷ []

unfoldable pub serve_keys : List Text
serve_keys =
    str "pace"
    ∷ str "drop"
    ∷ str "hang"
    ∷ str "first_byte"
    ∷ str "conn"
    ∷ str "rps"
    ∷ str "timeout"
    ∷ []

unfoldable pub reply_keys : List Text
reply_keys = str "s" ∷ str "h" ∷ str "b" ∷ []

-- One cell of the table, from the cells above, to the left and across.
abbrev pub cell : ℕ → ℕ → ℕ → ℕ → ℕ → ℕ
cell a b up left across = min (min (up + 1) (left + 1)) (across + (if a == b then 0 else 1))

-- The cells of a row behind `left`; `across` stands above `left`, and `ups` above the rest.
unfoldable pub fill_row : ℕ → ℕ → ℕ → List ℕ → Text → List ℕ
fill_row a left across [] bs = []
fill_row a left across (up ∷ ups) [] = []
fill_row a left across (up ∷ ups) (b ∷ bs) =
    let value = cell a b up left across in value ∷ fill_row a value up ups bs

-- The first row, `dp[0][j] = j`.
unfoldable pub first_row : ℕ → Text → List ℕ
first_row j [] = j ∷ []
first_row j (b ∷ bs) = j ∷ first_row (j + 1) bs

abbrev next_row : ℕ → ℕ → List ℕ → Text → List ℕ
next_row i a [] bs = []
next_row i a (across ∷ ups) bs = (i + 1) ∷ fill_row a (i + 1) across ups bs

-- The rows below row `i`, one for each character of `a` that is left.
unfoldable pub fill_table : ℕ → List ℕ → Text → Text → List (List ℕ)
unfolding fill_row
fill_table i row [] bs = row ∷ []
fill_table i row (a ∷ as') bs = row ∷ fill_table (i + 1) (next_row i a row bs) as' bs

abbrev cell_or_zero : Option ℕ → ℕ
cell_or_zero none = 0
cell_or_zero (some n) = n

abbrev row_or_empty : Option (List ℕ) → List ℕ
row_or_empty none = []
row_or_empty (some row) = row

unfoldable pub edit_distance : Text → Text → ℕ
unfolding first_row fill_table
edit_distance a b =
    let dp = fill_table 0 (first_row 0 b) a b in
    cell_or_zero (get_elem? (row_or_empty (get_elem? dp (length a))) (length b))

-- The first entry whose alias is the input.
unfoldable pub find_alias : Text → Table → Option Text
find_alias input [] = none
find_alias input ((alias, target) ∷ rest) =
    if text_eq input alias then some target else find_alias input rest

abbrev is_better : ℕ → Option (Text × ℕ) → Bool
is_better dist none = true
is_better dist (some (key, best)) = ltb dist best

abbrev pub consider : Text → ℕ → Option (Text × ℕ) → Option (Text × ℕ)
consider key dist best =
    if leb dist 2 && ltb 0 dist && is_better dist best then some (key, dist) else best

unfoldable pub nearest_key : Text → Option (Text × ℕ) → List Text → Option (Text × ℕ)
nearest_key input best [] = best
nearest_key input best (key ∷ rest) =
    nearest_key input (consider key (edit_distance input key) best) rest

unfoldable pub suggest_from : Text → Table → Table → List Text → Option Suggestion
unfolding find_alias nearest_key
suggest_from input aliases hints valid_keys =
    let input_lower = to_lowercase input in
    elim (find_alias input_lower aliases) [
      | some target ↦ some (use_key target)
      | none ↦ elim (find_alias input_lower hints) [
        | some text ↦ some (hint text)
        | none ↦ elim (nearest_key input_lower none valid_keys) [
          | some (key, dist) ↦ some (use_key key)
          | none ↦ none
        ]
      ]
    ]

unfoldable pub suggest_rule_key : Text → Option Suggestion
unfolding suggest_from rule_aliases rule_keys
suggest_rule_key input = suggest_from input rule_aliases [] rule_keys

unfoldable pub suggest_serve_key : Text → Option Suggestion
unfolding suggest_from serve_aliases serve_hints serve_keys
suggest_serve_key input = suggest_from input serve_aliases serve_hints serve_keys

unfoldable pub suggest_reply_key : Text → Option Suggestion
unfolding suggest_from reply_aliases reply_hints reply_keys
suggest_reply_key input = suggest_from input reply_aliases reply_hints reply_keys

unfoldable pub format_suggestion : Text → Text → Suggestion → Text
format_suggestion key block (use_key target) =
    str "unknown key '" ++ key ++ str "' in " ++ block ++ str " → use '" ++ target ++ str "'"
format_suggestion key block (hint text) =
    str "unknown key '" ++ key ++ str "' in " ++ block ++ str " → " ++ text
