-- ===== src/Server/Handle/Sequence.antt =====
-- src/server.rs: a rule with a sequence of replies.
use mockinx.Common.{
  ℕ, ◌%◌, ◌^◌, ◌<◌, ◌≡◌, refl, ◌==◌, false, Option, some, List, length, get_elem?, get_elem?-lt,
  arith,
}
use mockinx.Text.{Text}
use mockinx.Error.{ok}
use mockinx.Float.{FloatOps}
use mockinx.Json.{SerdeJson}
use mockinx.Reply.{ReplySpec}
use mockinx.Reply.Strategy.{sequence}
use mockinx.Serve.Runtime.{SemaphoreApi}
use mockinx.Rule.{Rule}
use mockinx.Store.{new_entry, next_call_for}
use mockinx.Store.Counters.{calls, occurrences, next_call_for-counts}
use mockinx.Server.{AppState}
use mockinx.Server.Reflect.{Request}
use mockinx.Server.Handle.{pick, call_index, put_entry, resolve_reply}

pick-eq-ok :
    (replies : List ReplySpec) (i : ℕ)
    → 0 < length replies
    → (r : ReplySpec) × (get_elem? replies (i % length replies) ≡ some r) × (pick replies i ≡ ok r)
unfolding pick
pick-eq-ok replies i pos =
    let nonempty : (length replies == 0) ≡ false = ground arith in
    let (r, found) = get_elem?-lt replies (i % length replies) (omega arith) in
    (r, found, rw (nonempty, found) refl)

module _ (ops : FloatOps) (json : SerdeJson) (from_utf8 : List ℕ → Option Text)
    (api : SemaphoreApi) where
  -- The replies of a sequence that is not empty come in turn for each connection, and from the start
  -- again after the last: after fewer than 2^64 calls of the entry, a request of a connection that made
  -- `k` of them gets the reply at `k` modulo the number of replies, and no panic.
  pub sequence-cycles :
      (state : AppState api) (rule : Rule) (index : ℕ) (addrs : List Text) (addr : Text)
      (replies : List ReplySpec) (req : Request) (uuid : Text)
      → req.peer_addr ≡ some addr
      → 0 < length replies
      → length addrs < 2 ^ 64
      → let entry = calls (new_entry rule index) addrs in
        (r : ReplySpec) × (get_elem? replies (occurrences addr addrs % length replies) ≡ some r)
        × (resolve_reply ops json from_utf8 api state entry (sequence replies) req uuid
            ≡ ok (
              some r,
              record state { store = put_entry state.store (next_call_for entry addr).1 },
            ))
  unfolding resolve_reply call_index
  sequence-cycles state rule index addrs addr replies req uuid peer pos few =
      let (r, found, picked) = pick-eq-ok replies (occurrences addr addrs) pos in
      (r, found, rw (peer, next_call_for-counts rule index addrs addr few, picked) refl)
