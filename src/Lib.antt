-- ===== src/Lib.antt =====
-- A model of mockinx, an HTTP server that answers by rules: a rule says which requests it is for, what
-- they are answered with, how the answer is delivered and under which limits, and what goes wrong on
-- purpose.
--
-- The parts, and how they work together. A `POST` or `PUT` of `/_mx` carries rules as a JSON value, which
-- the parsers turn into records, with warnings. The shared state keeps the rules in a store, and
-- for each rule a runtime with its limits and, for a resource, its items. A request is matched against the
-- store, checked against the limits of the rule found, given a reply (a fixed one, the next of a
-- sequence, the answer of a resource, or one that chaos puts in its place), and the reply's body is
-- delivered by a stream that paces, drops or hangs.
--
-- Which file models what (paths of the code are in src/):
--   * Text, Decimal, Json, Float, Yttp: the language's and the crates' types. Text is a list of Unicode
--     scalar values. Json is `serde_json::Value` with its maps in insertion order; its printer and reader are a
--     record of functions (SerdeJson). f64 is a bit pattern whose arithmetic is a record of
--     functions (FloatOps), and so are the crate yttp's two functions (Yttp): whatever uses them takes
--     them as arguments, and no law is assumed of them but where a theorem names it.
--   * Error: ParseError of units.rs, and the results of fallible code. A panic is a result of its own.
--   * Units, Units.Parse: units.rs. A generator of random numbers is the stream of its draws.
--     Units.Sizes is about sizes and ranges that are written as whole numbers, on the part of f64 that is
--     exact (IntegerLaws); Text.Plain has the facts on text that it needs.
--   * MatchRule: match_rule.rs, `matches` and `parse_match_rule`. MatchRule.Coverage is the relation.
--   * Reply, Reply.Strategy: reply/mod.rs, the parsers of replies.
--   * Reply.Crud: reply/crud.rs, `CrudStore` and its operations. Keys, Invariant, Operations and
--     Ids are what holds of it.
--   * Reply.Body: reply/body.rs, with UTF-8, the printing of values, the seeded generator and the file
--     system as a record of functions (BodySources). Reply.Body.Pattern and Reply.Body.Chunks compare the
--     chunks with the whole.
--   * Suggest: suggest.rs. Suggest.Distance and Suggest.Alignment are about `edit_distance`,
--     Suggest.Nearest about the search for a key.
--   * Serve.Behavior, Serve.Pace, Serve.Parse: serve/behavior_types.rs, serve/pace.rs and serve/mod.rs.
--   * Serve.Limiter, Serve.Runtime: serve/runtime.rs, the rate limiter and `check`. The semaphore of
--     tokio is a record of functions (SemaphoreApi), with what tokio documents of it (SemaphoreLaws).
--     Serve.Limiter.Window, Serve.Runtime.Queue and Serve.Runtime.Rate are about the rate and the waits, Serve.Runtime.Permits and
--     Serve.Runtime.Truncation about the permits.
--   * Serve.Engine: serve/engine.rs, `poll_next`, with Chunks, Turn, Progress and Hang about streams;
--     Serve.Engine.Setup: `deliver`, with Deliver about the streams it sets up.
--   * Chaos: chaos.rs, with Chaos.Selection about its entries. Rule: rule.rs, with Rule.WellFormed about
--     accepted rules and Rule.Errors about rejected ones. Validate: validate.rs. Main: `load_config`
--     and the start of main.rs.
--   * Store: store.rs. Store.Matching and Store.Counters are about its order and its counters.
--   * Server: server.rs, `AppState`, with Server.Registry about its entries, Server.Registry.Interleaving
--     about requests under way and Server.Registry.Race about a replacement that an append
--     falls into. Server.Admin: the handlers of `/_mx`, with Replaced about a `PUT`. Server.Resource: `resolve_crud_reply`, with Routing about its paths and Lifecycle about one item. Server.Reflect:
--     `resolve_reflect` and `urldecode`. Server.Handle: `handle_request` and `resolve_and_deliver` up to
--     the reply and its shape, with Consistency about the shared state under all operations, Sequence about
--     sequences, Refusals about limits and Raced about a request behind such a replacement. Server.Respond: `build_reply_response` and `build_delivery_response`,
--     with Headers and Head about status and headers, Whole about bodies, Reflected about panics and
--     Served and Unresolved about a whole request. The
--     names, values and status codes of the crate http and tokio's timeout are a record of
--     functions (HttpApi), with what http documents (HttpLaws).
--   * Common: what all share. Samples: concrete instances of the records of functions, for the tests,
--     which stand in the modules called Tests.
--
-- State and time. A handler or operation is a function from the state to the state and an answer. What is
-- under a lock is one step. A clock is read by an argument: one poll of a stream gets four readings,
-- and a call of the limiter one. Instants and durations are nanoseconds.
--
-- Numbers. Identifiers of resources and call counters wrap at 2^64, `conn` and `rps` at 2^32, as
-- the code does; lengths and sizes are unbounded, since a body of 2^64 bytes is out of reach.
--
-- Fuel. `decimal_from` gets the number and one more, which is at least its number of digits; `grow` gets
-- the index and one more, which is at least the number of pushes. Every other loop is structural.
--
-- Not modelled: the arguments of main.rs and the socket it serves; the wiring of the axum router in
-- `build_router`, whose dispatch is axum's; the running of timers and of
-- tokio's timeout, which either gives the response that is built or has elapsed; lower case outside ASCII, which
-- shows only in the text of a rejection. A wait for a permit is seen when it is polled again (`resume`), and
-- a request that still waits has no response. In Server.Handle and Server.Respond
-- one request runs at a time; in Server.Registry.Interleaving the steps of requests and of appends
-- interleave, but for what a request does to the runtime that it has found.
pub mod Common
pub mod Text
pub mod Error
pub mod Float
pub mod Units
pub mod Json
pub mod Decimal
pub mod Yttp
pub mod MatchRule
pub mod Reply
pub mod Suggest
pub mod Serve
pub mod Chaos
pub mod Rule
pub mod Store
pub mod Server
pub mod Validate
pub mod Samples
pub mod Main
