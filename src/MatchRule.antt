-- ===== src/MatchRule.antt =====
-- src/match_rule.rs: which requests a rule is for.
pub mod Coverage
mod Tests
use mockinx.Common.{
  ℕ, Bool, true, false, ◌&&◌, ◌||◌, Option, none, some, List, [], ◌∷◌, ◌++◌, ◌==◌, if◌then◌else◌,
  length, get_elem?,
}
use mockinx.Text.{Text, str, text_eq, strip_suffix, starts_with, eq_ignore_ascii_case}
use mockinx.Error.{Result, ok, fail, or_fail, ◌>>=◌}
use mockinx.Json.{Value, string, object, SerdeJson, as_str, fields, Map}
use mockinx.Yttp.{Yttp}

pub data MatchRule : Type 0 where
  catch_all : MatchRule
  method_path : (method : Option Text) → (path : Text) → MatchRule

abbrev or_else : Option Text → Text → Text
or_else none s = s
or_else (some t) s = t

unfoldable pub normalize_path : Text → Text
normalize_path path = or_else (strip_suffix path (str "/")) path

abbrev method_agrees : Option Text → Text → Bool
method_agrees none method = true
method_agrees (some m) method = eq_ignore_ascii_case m method

abbrev is_slash : Option ℕ → Bool
is_slash none = false
is_slash (some c) = c == b'/'

unfoldable pub path_agrees : Text → Text → Bool
path_agrees normalized_rule normalized_path =
    text_eq normalized_path normalized_rule
    || (starts_with normalized_path normalized_rule
        && is_slash (get_elem? normalized_path (length normalized_rule)))

unfoldable pub matches : MatchRule → Text → Text → Bool
matches catch_all method path = true
matches (method_path rule_method rule_path) method path =
    if method_agrees rule_method method
    then path_agrees (normalize_path rule_path) (normalize_path path)
    else false

module _ (json : SerdeJson) (yttp : Yttp) where
  abbrev pub with_slash : Text → Text
  with_slash path = if starts_with path (str "/") then path else str "/" ++ path

  -- The one entry of a match object.
  unfoldable pub parse_entry : Text → Value → Result MatchRule
  parse_entry key val = do
    given ← or_fail (as_str val) (str "match path must be a string, got " ++ json.to_string val)
    let path = with_slash given
    let resolved : Result MatchRule = elim (yttp.resolve_method key) [
      | some method ↦ ok (method_path (some method) path)
      | none ↦ fail (str "unknown method shortcut '" ++ key ++ str "'")
    ]
    if text_eq key (str "_") then ok (method_path none path) else resolved

  unfoldable pub parse_match_object : Map → Result MatchRule
  unfolding parse_entry
  parse_match_object [] = fail (str "match object cannot be empty")
  parse_match_object ((key, val) ∷ []) = parse_entry key val
  parse_match_object ((key, val) ∷ _ ∷ _) =
      fail (str "match object must have exactly one key (method: path)")

  unfoldable pub parse_match_rule : Value → Result MatchRule
  unfolding parse_match_object
  parse_match_rule (string s) =
      if text_eq s (str "_")
      then ok catch_all
      else fail (str "invalid match string '" ++ s ++ str "', only '_' (catch-all) is allowed")
  parse_match_rule (object obj) = parse_match_object (fields obj)
  parse_match_rule v = fail (str "match must be a string or object, got " ++ json.to_string v)
