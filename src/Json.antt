-- ===== src/Json.antt =====
-- `serde_json::Value`, whose maps keep the order of insertion (`preserve_order`).
pub mod Laws
use mathlib.Core.Option
use mockinx.Common.{
  ℕ, Bool, true, false, not, Option, none, some, List, [], ◌∷◌, ◌++◌, map, if◌then◌else◌,
}
use mockinx.Text.{Text, text_eq}
use mockinx.Float.{F64}

-- `Number`: a `u64`, a negative `i64` by its magnitude, or an `f64`.
pub data Number : Type 0 where
  pos_int : ℕ → Number
  neg_int : ℕ → Number
  float : F64 → Number

mutual
  pub data Value : Type 0 where
    null : Value
    bool : Bool → Value
    number : Number → Value
    string : Text → Value
    array : Items → Value
    object : Fields → Value

  pub data Items : Type 0 where
    nil : Items
    cons : Value → Items → Items

  pub data Fields : Type 0 where
    end : Fields
    field : Text → Value → Fields → Fields

abbrev pub Map : Type 0
Map = List (Text × Value)

unfoldable pub items : Items → List Value
items nil = []
items (cons v vs) = v ∷ items vs

unfoldable pub of_items : List Value → Items
of_items [] = nil
of_items (v ∷ vs) = cons v (of_items vs)

unfoldable pub fields : Fields → Map
fields end = []
fields (field k v fs) = (k, v) ∷ fields fs

unfoldable pub of_fields : Map → Fields
of_fields [] = end
of_fields ((k, v) ∷ m) = field k v (of_fields m)

-- `Value::Object(m)` and `Value::Array(v)`
unfoldable pub json_object : Map → Value
json_object m = object (of_fields m)

unfoldable pub json_array : List Value → Value
json_array vs = array (of_items vs)

abbrev pub as_str : Value → Option Text
as_str (string s) = some s
as_str _ = none

abbrev pub as_bool : Value → Option Bool
as_bool (bool b) = some b
as_bool _ = none

abbrev pub as_u64 : Value → Option ℕ
as_u64 (number (pos_int n)) = some n
as_u64 _ = none

abbrev pub as_object : Value → Option Map
as_object (object fs) = some (fields fs)
as_object _ = none

abbrev pub as_array : Value → Option (List Value)
as_array (array vs) = some (items vs)
as_array _ = none

abbrev pub is_null : Value → Bool
is_null null = true
is_null _ = false

-- An insertion-ordered map (`indexmap`), also the one under `serde_json::Map`.
module _ {ℓ} {V : Type ℓ} where
  unfoldable pub get : Text → List (Text × V) → Option V
  get k [] = none
  get k ((j, v) ∷ m) = if text_eq j k then some v else get k m

  abbrev is_some : Option V → Bool
  is_some none = false
  is_some (some v) = true

  unfoldable pub contains_key : Text → List (Text × V) → Bool
  unfolding get
  contains_key k m = is_some (get k m)

  -- A key that is present keeps its place.
  unfoldable pub insert : Text → V → List (Text × V) → List (Text × V)
  insert k v [] = (k, v) ∷ []
  insert k v ((j, w) ∷ m) = if text_eq j k then (j, v) ∷ m else (j, w) ∷ insert k v m

  -- Takes the first entry out and keeps the order of the rest.
  unfoldable pub shift_remove : Text → List (Text × V) → List (Text × V)
  shift_remove k [] = []
  shift_remove k ((j, w) ∷ m) = if text_eq j k then m else (j, w) ∷ shift_remove k m

  abbrev pub keys : List (Text × V) → List Text
  keys [] = []
  keys ((k, v) ∷ m) = k ∷ keys m

  abbrev pub values : List (Text × V) → List V
  values [] = []
  values ((k, v) ∷ m) = v ∷ values m

-- What the program uses of `serde_json`'s printer and parser.
pub record SerdeJson : Type 0 where
  -- `to_string` and `Display`
  pub to_string : Value → Text
  -- `from_slice`
  pub from_slice : List ℕ → Option Value
