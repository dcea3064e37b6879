-- ===== src/Reply/Strategy.antt =====
-- src/reply/mod.rs: static replies, sequences and CRUD resources.
use mockinx.Common.{true, Option, none, some, List, [], ◌∷◌, ◌++◌}
use mockinx.Text.{Text, str}
use mockinx.Error.{Result, ok, fail, or_fail, ◌>>=◌}
use mockinx.Float.{FloatOps}
use mockinx.Json.{Value, bool, array, object, SerdeJson, Map, as_object, items, fields, get}
use mockinx.Yttp.{Yttp}
use mockinx.Reply.{ReplySpec, parse_reply, parse_each, get_object}
use mockinx.Serve.Behavior.{CrudSpec, default_id, parse_crud_spec}

pub data ReplyStrategy : Type 0 where
  static : ReplySpec → ReplyStrategy
  sequence : List ReplySpec → ReplyStrategy
  crud : (spec : CrudSpec) → (headers : Map) → ReplyStrategy

abbrev or_empty : Option Map → Map
or_empty none = []
or_empty (some m) = m

module _ (ops : FloatOps) (json : SerdeJson) (yttp : Yttp) where
  unfoldable pub parse_sequence : List Value → Option Text → Result ReplyStrategy
  unfolding parse_each
  parse_sequence [] base_dir = fail (str "reply sequence cannot be empty")
  parse_sequence (item ∷ rest) base_dir = do
    replies ← parse_each (λ v. parse_reply ops json yttp v base_dir) (item ∷ rest)
    ok (sequence replies)

  unfoldable pub parse_crud_value : Value → Result CrudSpec
  parse_crud_value (bool true) = ok (record { id = default_id; seed_data = [] })
  parse_crud_value v = do
    crud_obj ← or_fail (as_object v) (str "crud! must be true or an object")
    parse_crud_spec json crud_obj

  unfoldable pub parse_reply_strategy : Value → Option Text → Result ReplyStrategy
  unfolding parse_sequence parse_crud_value
  parse_reply_strategy (array vs) base_dir = parse_sequence (items vs) base_dir
  parse_reply_strategy (object obj) base_dir = elim (get (str "crud!") (fields obj)) [
    | some crud_val ↦ do
      spec ← parse_crud_value crud_val
      let headers = yttp.expand_headers (or_empty (get_object (str "h") (fields obj)))
      ok (crud spec headers)
    | none ↦ parse_reply ops json yttp (object obj) base_dir >>= λ r. ok (static r)
  ]
  parse_reply_strategy v base_dir =
      fail (str "reply must be an object or array, got " ++ json.to_string v)
