-- ===== src/Reply.antt =====
-- src/reply/mod.rs: what a reply is made of, and the parser of one reply.
pub mod Strategy
pub mod Crud
pub mod Body
use mockinx.Common.{
  ℕ, Bool, true, false, not, Option, none, some, List, [], ◌∷◌, ◌++◌, if◌then◌else◌, ltb,
}
use mockinx.Text.{Text, str, text_eq, starts_with, strip_suffix}
use mockinx.Error.{Result, ok, fail, reject, or_fail, or_panic, ◌>>=◌, ◌>>◌}
use mockinx.Float.{FloatOps}
use mockinx.Units.{ByteSize}
use mockinx.Units.Parse.{parse_byte_size}
use mockinx.Json.{
  Value, bool, number, pos_int, array, object, json_object, SerdeJson, Map, as_str, as_u64,
  as_object, items, fields, get, contains_key,
}
use mockinx.Yttp.{Yttp}

pub data ReflectField : Type 0 where
  method headers url query body : ReflectField

pub data BodySpec : Type 0 where
  no_body : BodySpec
  literal : Value → BodySpec
  rand : (size : ByteSize) → (seed : ℕ) → BodySpec
  pattern_of : (repeat : Text) → (size : ByteSize) → BodySpec
  reflect : List ReflectField → BodySpec
  file : (path : Text) → BodySpec

pub record ReplySpec : Type 0 where
  pub status : ℕ
  pub headers : Map
  pub body : BodySpec

unfoldable pub default_reply : ReplySpec
default_reply = record { status = 200; headers = []; body = no_body }

-- `obj.get(key).and_then(|v| v.as_str())`, and so for the other views.
unfoldable pub get_str : Text → Map → Option Text
get_str key obj = elim (get key obj) [ some v ↦ as_str v | none ↦ none ]

unfoldable pub get_u64 : Text → Map → Option ℕ
get_u64 key obj = elim (get key obj) [ some v ↦ as_u64 v | none ↦ none ]

unfoldable pub get_object : Text → Map → Option Map
get_object key obj = elim (get key obj) [ some v ↦ as_object v | none ↦ none ]

-- The loop that pushes each parsed item and stops at the first error.
unfoldable pub parse_each {ℓ κ} :
    {A : Type ℓ} {B : Type κ} → (A → Result B) → List A → Result (List B)
parse_each f [] = ok []
parse_each f (a ∷ as') = do b ← f a; bs ← parse_each f as'; ok (b ∷ bs)

unfoldable pub parse_reflect_field : Text → Result ReflectField
parse_reflect_field s =
    if text_eq s (str "i.m")
    then ok method
    else if text_eq s (str "i.h")
    then ok headers
    else if text_eq s (str "i.u")
    then ok url
    else if text_eq s (str "i.q")
    then ok query
    else if text_eq s (str "i.b")
    then ok body
    else fail (str "unknown reflect field: " ++ s ++ str " (expected i.m, i.h, i.u, i.q, i.b)")

abbrev parse_reflect_elem : Value → Result ReflectField
parse_reflect_elem v = do
  s ← or_fail (as_str v) (str "reflect! array elements must be strings")
  parse_reflect_field s

abbrev reflect_fields : List ReflectField → Result BodySpec
reflect_fields [] = fail (str "reflect! array cannot be empty")
reflect_fields (f ∷ fs) = ok (reflect (f ∷ fs))

unfoldable pub parse_reflect_value : Value → Result BodySpec
unfolding parse_each parse_reflect_field
parse_reflect_value (bool true) = ok (reflect (method ∷ headers ∷ url ∷ query ∷ []))
parse_reflect_value (array vs) = parse_each parse_reflect_elem (items vs) >>= reflect_fields
parse_reflect_value v = fail (str "reflect! must be true or an array of field names")

unfoldable pub parse_reflect_body : Map → Result BodySpec
unfolding parse_reflect_value
parse_reflect_body obj = or_panic (get (str "reflect!") obj) >>= parse_reflect_value

-- `Path::is_relative` and `Path::join` on Unix.
unfoldable pub is_relative : Text → Bool
is_relative path = not (starts_with path (str "/"))

abbrev with_separator : Text → Text
with_separator [] = []
with_separator base = elim (strip_suffix base (str "/")) [ some b ↦ base | none ↦ base ++ str "/" ]

unfoldable pub path_join : Text → Text → Text
unfolding is_relative
path_join base path = if is_relative path then with_separator base ++ path else path

abbrev resolve_file : Option Text → Text → Text
resolve_file none path = path
resolve_file (some base) path = path_join base path

unfoldable pub parse_file_body : Map → Option Text → Result BodySpec
unfolding is_relative path_join
parse_file_body b base_dir = do
  path ← or_fail (get_str (str "file!") b) (str "file! must be a string path")
  ok (file (if is_relative path then resolve_file base_dir path else path))

unfoldable pub parse_status_code : ℕ → (decimal : ℕ → Text) → Result ℕ
parse_status_code code decimal = do
  reject (ltb 999 code) (str "status code " ++ decimal code ++ str " out of range (0-999)")
  ok code

module _ (json : SerdeJson) where
  abbrev decimal : ℕ → Text
  decimal n = json.to_string (number (pos_int n))

  unfoldable pub parse_status : Map → Result ℕ
  unfolding parse_status_code
  parse_status obj = elim (get (str "s") obj) [
    | none ↦ ok 200
    | some (number n) ↦ do
      code ←
          or_fail (as_u64 (number n))
            (str "status must be a positive integer, got " ++ json.to_string (number n))
      parse_status_code code decimal
    | some v ↦ fail (str "status must be a number, got " ++ json.to_string v)
  ]

  module _ (yttp : Yttp) where
    unfoldable pub parse_headers : Map → Result Map
    parse_headers obj = elim (get (str "h") obj) [
      | none ↦ ok []
      | some (object h) ↦ ok (yttp.expand_headers (fields h))
      | some v ↦ fail (str "headers must be an object, got " ++ json.to_string v)
    ]

module _ (ops : FloatOps) where
  unfoldable pub parse_rand_body : Map → Text → Result BodySpec
  parse_rand_body obj key = do
    rand_obj ← or_fail (get_object key obj) (str "rand must be an object")
    size_val ← or_fail (get (str "size") rand_obj) (str "rand requires 'size' field")
    size_str ← or_fail (as_str size_val) (str "rand size must be a string")
    size ← parse_byte_size ops size_str
    seed ←
        or_fail (get_u64 (str "seed") rand_obj) (str "rand requires 'seed' as a positive integer")
    ok (rand size seed)

  abbrev is_empty : Text → Bool
  is_empty [] = true
  is_empty (c ∷ s) = false

  unfoldable pub parse_pattern_body : Map → Text → Result BodySpec
  parse_pattern_body obj key = do
    pattern_obj ← or_fail (get_object key obj) (str "pattern must be an object")
    repeat ← or_fail (get_str (str "repeat") pattern_obj) (str "pattern requires 'repeat' string")
    reject (is_empty repeat) (str "pattern repeat string cannot be empty")
    size_val ← or_fail (get (str "size") pattern_obj) (str "pattern requires 'size' field")
    size_str ← or_fail (as_str size_val) (str "pattern size must be a string")
    size ← parse_byte_size ops size_str
    ok (pattern_of repeat size)

  -- The directives under `b:`.
  unfoldable pub parse_object_body : Map → Option Text → Result BodySpec
  unfolding parse_rand_body parse_pattern_body parse_reflect_body parse_file_body
  parse_object_body b base_dir =
      if contains_key (str "rand!") b
      then parse_rand_body b (str "rand!")
      else if contains_key (str "pattern!") b
      then parse_pattern_body b (str "pattern!")
      else if contains_key (str "reflect!") b
      then parse_reflect_body b
      else if contains_key (str "file!") b
      then parse_file_body b base_dir
      else ok (literal (json_object b))

  unfoldable pub parse_body : Map → Option Text → Result BodySpec
  unfolding parse_object_body
  parse_body obj base_dir = elim (get (str "b") obj) [
    | none ↦ ok no_body
    | some (object b) ↦ parse_object_body (fields b) base_dir
    | some v ↦ ok (literal v)
  ]

module _ (ops : FloatOps) (json : SerdeJson) (yttp : Yttp) where
  unfoldable pub parse_reply : Value → Option Text → Result ReplySpec
  unfolding parse_status parse_headers parse_body
  parse_reply v base_dir = do
    obj ← or_fail (as_object v) (str "reply must be an object")
    status ← parse_status json obj
    given_headers ← parse_headers json yttp obj
    given_body ← parse_body ops obj base_dir
    ok (record { status = status; headers = given_headers; body = given_body })
