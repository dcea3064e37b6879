-- ===== src/Store/Tests.antt =====
-- src/store.rs on two rules and on calls from two connections.
use mockinx.Common.{◌≡◌, ◌↔◌, none, some, [], ◌∷◌, All}
use mockinx.Text.{str}
use mockinx.Reply.Strategy.{static}
use mockinx.Rule.{Rule}
use mockinx.Store.{RuleEntry, RuleStore, new_entry, match_request}
use mockinx.Store.Matching.{IsLastMatch, Misses, match_request_iff}
use mockinx.Samples.{rule_at, empty_reply}

abbrev everything : Rule
everything = rule_at (str "/") (static empty_reply)

abbrev some_users : Rule
some_users = rule_at (str "/users") (static empty_reply)

abbrev two_rules : RuleStore
two_rules = record { entries = new_entry everything 0 ∷ new_entry some_users 1 ∷ [] }

match_request_iff_example :
    ((e : RuleEntry)
      → (match_request two_rules (str "GET") (str "/users") ≡ some e)
        ↔ IsLastMatch (str "GET") (str "/users") e two_rules.entries)
    × ((match_request two_rules (str "GET") (str "/users") ≡ none)
        ↔ All (Misses (str "GET") (str "/users")) two_rules.entries)
match_request_iff_example = match_request_iff two_rules (str "GET") (str "/users")
