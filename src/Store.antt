-- ===== src/Store.antt =====
-- src/store.rs: the registered rules and their call counters. A lock is held through each operation,
-- so an operation is one step from state to state; a socket address is its text.
pub mod Matching
pub mod Counters
mod Tests
use mockinx.Common.{
  ℕ, ◌+◌, ◌%◌, ◌^◌, ◌==◌, Bool, Option, none, some, List, [], ◌∷◌, ◌++◌, map, reverse, length,
  if◌then◌else◌,
}
use mockinx.Text.{Text}
use mockinx.Json.{Value, get, insert}
use mockinx.MatchRule.{matches}
use mockinx.Rule.{Rule}

pub record RuleEntry : Type 0 where
  pub rule : Rule
  pub index : ℕ
  pub call_count : ℕ
  pub conn_counters : List (Text × ℕ)

unfoldable pub new_entry : Rule → ℕ → RuleEntry
new_entry rule index = record { rule = rule; index = index; call_count = 0; conn_counters = [] }

-- `fetch_add`, which wraps around
unfoldable pub next_call : RuleEntry → ℕ × RuleEntry
next_call entry = (entry.call_count, record entry { call_count = (entry.call_count + 1) % 2 ^ 64 })

abbrev or_zero : Option ℕ → ℕ
or_zero none = 0
or_zero (some n) = n

-- A count of 2^64 is out of reach: it panics in a debug build and wraps in a release.
unfoldable pub next_call_for : RuleEntry → Text → ℕ × RuleEntry
next_call_for entry addr =
    let current = or_zero (get addr entry.conn_counters) in
    let counted = insert addr ((current + 1) % 2 ^ 64) entry.conn_counters in
    (current, record entry { conn_counters = counted })

pub record RuleStore : Type 0 where
  pub entries : List RuleEntry

unfoldable pub new_store : RuleStore
new_store = record { entries = [] }

unfoldable pub add : RuleStore → Rule → ℕ → RuleStore
unfolding new_entry
add store rule index = record { entries = store.entries ++ new_entry rule index ∷ [] }

abbrev pub enumerate : List Rule → ℕ → List RuleEntry
enumerate [] start_index = []
enumerate (rule ∷ rules) start_index =
    new_entry rule start_index ∷ enumerate rules (start_index + 1)

unfoldable pub add_batch : RuleStore → List Rule → ℕ → RuleStore
unfolding new_entry
add_batch store rules start_index = record {
  entries = store.entries ++ enumerate rules start_index;
}

-- The first match in the order of the list.
unfoldable pub find_match : Text → Text → List RuleEntry → Option RuleEntry
find_match method path [] = none
find_match method path (entry ∷ rest) =
    if matches entry.rule.match_rule method path then some entry else find_match method path rest

-- Both the store and the caller hold the entry, whose counters are shared.
unfoldable pub match_request : RuleStore → Text → Text → Option RuleEntry
unfolding find_match
match_request store method path = find_match method path (reverse store.entries)

unfoldable pub clear : RuleStore → RuleStore
clear store = record { entries = [] }

unfoldable pub len : RuleStore → ℕ
len store = length store.entries

unfoldable pub list_sources : RuleStore → List Value
list_sources store = map (λ e. e.rule.source) (reverse store.entries)

unfoldable pub is_empty : RuleStore → Bool
is_empty store = length store.entries == 0
