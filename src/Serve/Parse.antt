-- ===== src/Serve/Parse.antt =====
-- src/serve/mod.rs: the parser of a `serve:` block.
use mockinx.Common.{Bool, true, false, ◌||◌, Option, none, some, List, [], ◌∷◌, ◌++◌}
use mockinx.Text.{Text, str, text_eq}
use mockinx.Error.{Result, ok, fail, or_fail, ◌>>=◌, ◌>>◌}
use mockinx.Float.{FloatOps}
use mockinx.Json.{Value, SerdeJson, as_object, keys}
use mockinx.Yttp.{Yttp}
use mockinx.Suggest.{Suggestion, suggest_serve_key, format_suggestion}
use mockinx.Serve.Behavior.{BehaviorSpec, parse_behavior}
use mockinx.Serve.Pace.{DeliverySpec, parse_delivery_fields}

-- All valid keys of a `serve:` block.
unfoldable pub serve_known_keys : List Text
serve_known_keys =
    str "pace"
    ∷ str "drop"
    ∷ str "hang"
    ∷ str "first_byte"
    ∷ str "conn"
    ∷ str "rps"
    ∷ str "timeout"
    ∷ []

unfoldable pub contains : Text → List Text → Bool
contains key [] = false
contains key (k ∷ ks) = text_eq k key || contains key ks

-- The error for a key that a block does not know.
unfoldable pub unknown_key : Text → Text → Option Suggestion → Text
unknown_key key block (some suggestion) = format_suggestion key block suggestion
unknown_key key block none = str "unknown key '" ++ key ++ str "' in " ++ block

-- The loop over the keys of a block, which stops at the first unknown one.
unfoldable pub check_keys :
    List Text → Text → (Text → Option Suggestion) → List Text → Result (Unit {0})
unfolding contains unknown_key
check_keys known block suggest [] = ok tt
check_keys known block suggest (key ∷ rest) = elim (contains key known) [
  | true ↦ check_keys known block suggest rest
  | false ↦ fail (unknown_key key block (suggest key))
]

module _ (ops : FloatOps) (json : SerdeJson) (yttp : Yttp) where
  unfoldable pub parse_serve : Value → Result (DeliverySpec × BehaviorSpec)
  unfolding check_keys serve_known_keys
  parse_serve v = do
    obj ← or_fail (as_object v) (str "serve must be an object")
    check_keys serve_known_keys (str "serve") suggest_serve_key (keys obj)
    delivery ← parse_delivery_fields ops obj
    behavior ← parse_behavior ops json yttp v
    ok (delivery, behavior)
