-- ===== src/Server/Handle/Tests.antt =====
-- src/server.rs: concrete requests.
use mockinx.Common.{◌%◌, ◌≡◌, refl, none, some, List, [], ◌∷◌, length, get_elem?, arith}
use mockinx.Text.{str, text_eq, strip_suffix, starts_with, eq_ignore_ascii_case}
use mockinx.Error.{ok}
use mockinx.MatchRule.{matches, path_agrees, normalize_path}
use mockinx.Reply.{ReplySpec}
use mockinx.Reply.Strategy.{static, sequence}
use mockinx.Serve.Limiter.{try_acquire}
use mockinx.Serve.Runtime.{check, check_rate, check_concurrency}
use mockinx.Rule.{Rule}
use mockinx.Store.{new_entry, match_request, find_match, next_call_for}
use mockinx.Store.Counters.{calls, occurrences}
use mockinx.Server.{AppState, get_runtime}
use mockinx.Server.Reflect.{Request}
use mockinx.Server.Handle.{put_entry, plain, handle_request, resolve_reply}
use mockinx.Server.Handle.Refusals.{handle_request-refused}
use mockinx.Server.Handle.Sequence.{sequence-cycles}
use mockinx.Samples.{
  no_text, get_root, fixed_point, printer, counting, quarter_draws, rule_at, empty_reply, unlimited,
}

abbrev from_a : Request
from_a = record get_root { peer_addr = some (str "a") }

-- A rule that allows no request in any second.
abbrev closed : Rule
closed = record (rule_at (str "/") (static empty_reply)) {
  behavior = record unlimited { rate_limit = some (record { rps = 0; over = empty_reply }) };
}

abbrev closed_state : AppState counting
closed_state = record {
  store = record { entries = new_entry closed 0 ∷ [] };
  runtimes =
      record { semaphore = none; rate_limiter = some (record { max_rps = 0; timestamps = [] }) }
      ∷ [];
  crud_stores = [];
  stub_counter = 1;
}

refused :
    handle_request fixed_point printer no_text counting closed_state from_a [] 5 quarter_draws
    ≡ ok (plain empty_reply, closed_state, quarter_draws)
unfolding handle_request match_request find_match matches path_agrees normalize_path text_eq
    strip_suffix starts_with eq_ignore_ascii_case str get_runtime check check_rate check_concurrency
    try_acquire new_entry
refused = refl

handle_request-refused_example :
    (closed_state.store ≡ closed_state.store)
    × (closed_state.crud_stores ≡ closed_state.crud_stores)
handle_request-refused_example =
    handle_request-refused fixed_point printer no_text counting closed_state closed_state from_a []
      5 quarter_draws quarter_draws empty_reply refused

abbrev busy_reply : ReplySpec
busy_reply = record empty_reply { status = 503 }

abbrev up_down : List ReplySpec
up_down = empty_reply ∷ busy_reply ∷ []

abbrev alternating : Rule
alternating = rule_at (str "/") (sequence up_down)

sequence-cycles_example :
    let entry = calls (new_entry alternating 0) (str "a" ∷ str "b" ∷ []) in
    (r : ReplySpec) × (get_elem? up_down
        (occurrences (str "a") (str "a" ∷ str "b" ∷ []) % length up_down)
      ≡ some r)
    × (resolve_reply fixed_point printer no_text counting closed_state entry
          (sequence up_down)
          from_a
          []
        ≡ ok (
          some r,
          record closed_state {
            store = put_entry closed_state.store (next_call_for entry (str "a")).1;
          },
        ))
sequence-cycles_example =
    sequence-cycles fixed_point printer no_text counting closed_state alternating 0
      (str "a" ∷ str "b" ∷ []) (str "a") up_down from_a [] refl (omega arith) (omega arith)
