-- ===== src/Main.antt =====
-- src/main.rs: the rules that are loaded from a file at the start. Files, paths and the reader of yttp are
-- parameters; the parsing of arguments and the server's socket are left out.
use mockinx.Common.{ℕ, Option, none, some, List, [], ◌∷◌, ◌++◌, length}
use mockinx.Text.{Text, str}
use mockinx.Error.{Result, ok, err, panicked, display}
use mockinx.Float.{FloatOps}
use mockinx.Json.{SerdeJson}
use mockinx.Yttp.{Yttp}
use mockinx.Serve.Runtime.{SemaphoreApi}
use mockinx.Rule.{Rule, parse_rules}
use mockinx.Validate.{Warning, display_warning, validate_rules}
use mockinx.Server.{AppState, new_state, register_rules}
use mockinx.Server.Admin.{Read, value, unreadable}

-- What `read_to_string` returns: the content, or the text of an error.
pub data File : Type 0 where
  content : Text → File
  unread : Text → File

-- `Path::parent` and `std::fs::read_to_string`
pub record Files : Type 0 where
  pub parent : Text → Option Text
  pub read_to_string : Text → File

-- The number of rules with the lines that are printed, the text of an error, or a panic.
pub data Loaded : Type 0 where
  loaded : (count : ℕ) → (lines : List Text) → Loaded
  failed : (msg : Text) → Loaded
  aborted : Loaded

abbrev warning_texts : List Warning → List Text
warning_texts [] = []
warning_texts (w ∷ ws) = display_warning w ∷ warning_texts ws

module _ (ops : FloatOps) (json : SerdeJson) (yttp : Yttp) (from_str : Text → Read) (files : Files)
    (api : SemaphoreApi) where
  abbrev load_parsed : AppState api → Result (List Rule) → AppState api × Loaded
  load_parsed state (ok rules) = (
    register_rules api json state rules,
    loaded (length rules) (warning_texts (validate_rules ops json rules)),
  )
  load_parsed state (err e) = (state, failed (str "rule error: " ++ display e))
  load_parsed state panicked = (state, aborted)

  abbrev load_read : AppState api → Option Text → Read → AppState api × Loaded
  load_read state base_dir (value v) = load_parsed state (parse_rules ops json yttp v base_dir)
  load_read state base_dir (unreadable e) = (state, failed (str "parse error: " ++ e))

  abbrev load_content : AppState api → Option Text → File → AppState api × Loaded
  load_content state base_dir (content c) = load_read state base_dir (from_str c)
  load_content state base_dir (unread e) = (state, failed (str "read error: " ++ e))

  unfoldable pub load_config : Text → AppState api → AppState api × Loaded
  load_config path state = load_content state (files.parent path) (files.read_to_string path)

  -- The state that the server is started with, or the exit with 1 after an error.
  pub data Started : Type 0 where
    serving : AppState api → (port : ℕ) → (lines : List Text) → Started
    exits : (msg : Text) → Started
    crashes : Started

  abbrev after_load : ℕ → Text → AppState api × Loaded → Started
  after_load port path (state, loaded count lines) = serving state port lines
  after_load port path (state, failed msg) =
      exits (str "error loading config " ++ path ++ str ": " ++ msg)
  after_load port path (state, aborted) = crashes

  -- `main` up to the listening, from the port and the path that the arguments give.
  unfoldable pub start : (port : ℕ) → (config : Option Text) → Started
  unfolding load_config new_state
  start port none = serving (new_state api) port []
  start port (some path) = after_load port path (load_config path (new_state api))
