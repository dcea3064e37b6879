-- ===== src/Server/Admin.antt =====
-- src/server.rs: the handlers of `/_mx`. UTF-8 and the reader of yttp are parameters.
pub mod Replaced
mod Tests
use mockinx.Common.{ℕ, ◌==◌, ◌≡◌, ◌≢◌, refl, Option, none, some, List, [], ◌∷◌, ◌++◌, length, arith}
use mockinx.Text.{Text, str}
use mockinx.Decimal.{decimal}
use mockinx.Error.{Result, ok, err, panicked, display}
use mockinx.Float.{FloatOps}
use mockinx.Json.{Value, SerdeJson}
use mockinx.Yttp.{Yttp}
use mockinx.Serve.Runtime.{SemaphoreApi}
use mockinx.Rule.{Rule, parse_rules}
use mockinx.Validate.{Warning, display_warning, validate_rules}
use mockinx.Store.{list_sources, clear}
use mockinx.Server.{AppState, register_rules, clear_all}

-- What `yttp::from_str` returns: a value, or the text of an error.
pub data Read : Type 0 where
  value : Value → Read
  unreadable : Text → Read

-- Rules, or the text of a plain error with the status 400.
pub data ParsedBody : Type 0 where
  rules : List Rule → ParsedBody
  plain_error : (msg : Text) → ParsedBody
  aborted : ParsedBody

-- A response: a status and a text, or a panic in the handler.
pub data Response : Type 0 where
  responds : (status : ℕ) → (msg : Text) → Response
  aborts : Response

-- The lines for the warnings.
unfoldable pub warning_lines : List Warning → Text
warning_lines [] = []
warning_lines (w ∷ ws) = str "\n" ++ display_warning w ++ warning_lines ws

module _ (ops : FloatOps) (json : SerdeJson) (yttp : Yttp) (from_utf8 : List ℕ → Option Text)
    (from_str : Text → Read) (api : SemaphoreApi) where
  abbrev of_result : Result (List Rule) → ParsedBody
  of_result (ok rs) = rules rs
  of_result (err e) = plain_error (display e)
  of_result panicked = aborted

  abbrev of_read : Read → ParsedBody
  of_read (value v) = of_result (parse_rules ops json yttp v none)
  of_read (unreadable e) = plain_error (str "parse error: " ++ e)

  unfoldable pub parse_body_as_rules : List ℕ → ParsedBody
  parse_body_as_rules body = elim (from_utf8 body) [
    | none ↦ plain_error (str "invalid UTF-8")
    | some s ↦ of_read (from_str s)
  ]

  abbrev report : List Rule → Text → Text
  report rs done = decimal (length rs) ++ done ++ warning_lines (validate_rules ops json rs)

  abbrev append_parsed : AppState api → ParsedBody → AppState api × Response
  append_parsed state (rules rs) =
      (register_rules api json state rs, responds 201 (report rs (str " rule(s) added")))
  append_parsed state (plain_error msg) = (state, responds 400 msg)
  append_parsed state aborted = (state, aborts)

  unfoldable pub handle_append_rules : AppState api → List ℕ → AppState api × Response
  unfolding parse_body_as_rules
  handle_append_rules state body = append_parsed state (parse_body_as_rules body)

  abbrev pub replace_parsed : AppState api → ParsedBody → AppState api × Response
  replace_parsed state (rules rs) = (
    register_rules api json (clear_all api state) rs,
    responds 200 (report rs (str " rule(s) loaded")),
  )
  replace_parsed state (plain_error msg) = (state, responds 400 msg)
  replace_parsed state aborted = (state, aborts)

  unfoldable pub handle_replace_rules : AppState api → List ℕ → AppState api × Response
  unfolding parse_body_as_rules
  handle_replace_rules state body = replace_parsed state (parse_body_as_rules body)

  unfoldable pub handle_list_rules : AppState api → List Value
  unfolding list_sources
  handle_list_rules state = list_sources state.store
