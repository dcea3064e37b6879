-- ===== src/Reply/Crud.antt =====
-- src/reply/crud.rs: an in-memory resource. A lock is held through each operation, so an operation is
-- one step from state to state.
pub mod Keys
pub mod Invariant
pub mod Operations
pub mod Ids
mod Tests
use mathlib.Core.Option
use mockinx.Common.{
  ℕ, ◌+◌, ◌%◌, ◌==◌, Bool, true, false, Option, none, some, List, [], ◌∷◌, ◌++◌, max, if◌then◌else◌,
}
use mockinx.Text.{Text, str, text_eq, strip_prefix, trim_end_matches, contains_char}
use mockinx.Decimal.{decimal, parse_u64, parse_negative, u64_limit}
use mockinx.Json.{
  Value, null, number, string, object, pos_int, neg_int, json_object, json_array, SerdeJson, Map,
  as_u64, fields, get, insert, shift_remove, contains_key, values,
}
use mockinx.Serve.Behavior.{CrudSpec}

pub record CrudState : Type 0 where
  pub items : List (Text × Value)
  pub next_id : ℕ

pub record CrudStore : Type 0 where
  pub state : CrudState
  pub open state use *
  pub id_field : Text
  pub id_strategy : Text

-- A status and a body.
abbrev pub CrudResponse : Type 0
CrudResponse = ℕ × Value

unfoldable pub not_found : CrudResponse
not_found = (404, json_object ((str "error", string (str "not found")) ∷ []))

-- `json!(n)` for an `i64` below or at zero
abbrev negative : ℕ → Value
negative n = if n == 0 then number (pos_int 0) else number (neg_int n)

abbrev negative_or_text : Option ℕ → Text → Value
negative_or_text (some n) key = negative n
negative_or_text none key = string key

abbrev number_or : Option ℕ → Value → Value
number_or (some n) v = number (pos_int n)
number_or none v = v

unfoldable pub id_key_to_value : Text → Value
id_key_to_value key = number_or (parse_u64 key) (negative_or_text (parse_negative key) key)

-- The loop that merges `patch_map` into `base_map`.
unfoldable pub merge_fields : Map → Map → Map
merge_fields base [] = base
merge_fields base ((k, v) ∷ patch) = merge_fields (insert k v base) patch

unfoldable pub merge_values : Value → Value → Value
unfolding merge_fields
merge_values (object base) (object patch) = json_object (merge_fields (fields base) (fields patch))
merge_values _ patch = patch

-- What `create` and `replace` store of a body: an object as it is, any other value under "value".
unfoldable pub as_item : Value → Map
as_item (object m) = fields m
as_item other = (str "value", other) ∷ []

abbrev larger : ℕ → Option ℕ → ℕ
larger max_id none = max_id
larger max_id (some n) = max max_id n

abbrev pub field_of : Text → Value → Option Value
field_of k (object m) = get k (fields m)
field_of k v = none

-- The items loaded so far, and the largest numeric id among them.
abbrev pub Loaded : Type 0
Loaded = List (Text × Value) × ℕ

module _ (json : SerdeJson) where
  unfoldable pub value_to_id_key : Value → Text
  value_to_id_key (string s) = s
  value_to_id_key v = json.to_string v

  unfoldable pub load_item : Text → Value → Loaded → Loaded
  unfolding value_to_id_key
  load_item id_field item loaded = elim (field_of id_field item) [
    | none ↦ loaded
    | some id_val ↦ (insert (value_to_id_key id_val) item loaded.0, larger loaded.1 (as_u64 id_val))
  ]

  -- The loop of `new`.
  unfoldable pub load : Text → List Value → Loaded → Loaded
  unfolding load_item
  load id_field [] loaded = loaded
  load id_field (item ∷ rest) loaded = load id_field rest (load_item id_field item loaded)

  unfoldable pub new : CrudSpec → CrudStore
  unfolding load
  new spec =
      let (items, max_id) = load spec.id.name spec.seed_data ([], 0) in
      record {
        state = record { items = items; next_id = (max_id + 1) % u64_limit };
        id_field = spec.id.name;
        id_strategy = spec.id.new;
      }

unfoldable pub list : CrudStore → CrudResponse
list store = (200, json_array (values store.items))

unfoldable pub get_item : CrudStore → Text → CrudResponse
get_item store id = elim (get id store.items) [ some item ↦ (200, item) | none ↦ not_found ]

abbrev pub put : CrudStore → Text → Value → CrudStore
put store key item = record store {
  state = record store.state { items = insert key item store.items };
}

abbrev pub advance : CrudStore → CrudStore
advance store = record store {
  state = record store.state { next_id = (store.next_id + 1) % u64_limit };
}

abbrev pub take_out : CrudStore → Text → CrudStore
take_out store id = record store {
  state = record store.state { items = shift_remove id store.items };
}

-- The new id, its key, and the state after it was drawn.
unfoldable pub new_id : CrudStore → Text → (Value × Text) × CrudStore
new_id store uuid =
    if text_eq store.id_strategy (str "uuid")
    then ((string uuid, uuid), store)
    else ((number (pos_int store.next_id), decimal store.next_id), advance store)

-- `uuid` is the value that `Uuid::new_v4` would return.
unfoldable pub create : CrudStore → Text → Value → CrudStore × CrudResponse
unfolding new_id as_item
create store uuid body =
    let ((id_value, id_key), drawn) = new_id store uuid in
    let item = json_object (insert store.id_field id_value (as_item body)) in
    (put drawn id_key item, (201, item))

unfoldable pub replace : CrudStore → Text → Value → CrudStore × CrudResponse
unfolding as_item id_key_to_value
replace store id body =
    let item = json_object (insert store.id_field (id_key_to_value id) (as_item body)) in
    if contains_key id store.items then (put store id item, (200, item)) else (store, not_found)

unfoldable pub patch : CrudStore → Text → Value → CrudStore × CrudResponse
unfolding merge_values
patch store id body = elim (get id store.items) [
  | some existing ↦ let merged = merge_values existing body in (put store id merged, (200, merged))
  | none ↦ (store, not_found)
]

unfoldable pub delete : CrudStore → Text → CrudStore × CrudResponse
delete store id = elim (get id store.items) [
  | some item ↦ (take_out store id, (204, null))
  | none ↦ (store, not_found)
]

-- The four operations that change a store.
pub data Change : Type 0 where
  creates : (uuid : Text) → (body : Value) → Change
  replaces patches : (id : Text) → (body : Value) → Change
  deletes : (id : Text) → Change

unfoldable pub apply : CrudStore → Change → CrudStore × CrudResponse
apply store (creates uuid body) = create store uuid body
apply store (replaces id body) = replace store id body
apply store (patches id body) = patch store id body
apply store (deletes id) = delete store id

unfoldable pub apply_all : CrudStore → List Change → CrudStore
apply_all store [] = store
apply_all store (change ∷ rest) = apply_all (apply store change).0 rest

abbrev some_segment : Text → Option Text
some_segment [] = none
some_segment (c ∷ s) = if contains_char b'/' (c ∷ s) then none else some (c ∷ s)

abbrev then_strip : Option Text → Text → Option Text
then_strip none prefix = none
then_strip (some s) prefix = strip_prefix s prefix

abbrev then_segment : Option Text → Option Text
then_segment none = none
then_segment (some s) = some_segment s

abbrev is_slash : ℕ → Bool
is_slash c = c == b'/'

unfoldable pub extract_id : Text → Text → Option Text
extract_id base_path request_path =
    let base = trim_end_matches is_slash base_path in
    let path = trim_end_matches is_slash request_path in
    if text_eq path base then none else then_segment (then_strip (strip_prefix path base) (str "/"))
