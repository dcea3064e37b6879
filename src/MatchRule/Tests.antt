-- ===== src/MatchRule/Tests.antt =====
-- src/match_rule.rs on concrete rules and requests.
use mockinx.Common.{◌≡◌, refl, ◌↔◌, true, false, none, some}
use mockinx.Text.{str, text_eq, strip_suffix, starts_with, eq_ignore_ascii_case}
use mockinx.MatchRule.{MatchRule, method_path, matches, path_agrees, normalize_path}
use mockinx.MatchRule.Coverage.{Covers, matches_iff}

abbrev get_users : MatchRule
get_users = method_path (some (str "GET")) (str "/users")

match_below : matches get_users (str "get") (str "/users/7") ≡ true
unfolding matches path_agrees normalize_path text_eq strip_suffix starts_with eq_ignore_ascii_case
    str
match_below = refl

match_sibling : matches get_users (str "GET") (str "/usersX") ≡ false
unfolding matches path_agrees normalize_path text_eq strip_suffix starts_with eq_ignore_ascii_case
    str
match_sibling = refl

-- The rule for "/" has the empty base, which every absolute path continues.
match_root : matches (method_path none (str "/")) (str "GET") (str "/users") ≡ true
unfolding matches path_agrees normalize_path text_eq strip_suffix starts_with eq_ignore_ascii_case
    str
match_root = refl

matches_iff_example :
    (matches get_users (str "get") (str "/users/7") ≡ true)
    ↔ Covers get_users (str "get") (str "/users/7")
matches_iff_example = matches_iff get_users (str "get") (str "/users/7")
