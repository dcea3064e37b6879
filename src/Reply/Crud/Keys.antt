-- ===== src/Reply/Crud/Keys.antt =====
-- src/reply/crud.rs: keys stay distinct.
use mockinx.Common.{◌≡◌, inl, inr, true, false, some, List, [], ◌∷◌, Bool-cases, Option-cases}
use mockinx.Text.{Text, str, text_eq}
use mockinx.Decimal.{decimal}
use mockinx.Json.{Value, SerdeJson, get, contains_key}
use mockinx.Json.Laws.{HasDistinctKeys, insert-HasDistinctKeys, shift_remove-HasDistinctKeys}
use mockinx.Serve.Behavior.{CrudSpec}
use mockinx.Reply.Crud.{
  CrudStore, field_of, load, load_item, Loaded, new, create, replace, patch, delete, Change,
  creates, replaces, patches, deletes, apply, apply_all, value_to_id_key, put, advance, take_out,
}

-- A change leaves the store alone, adds an item under a new id, writes an item whose key is there,
-- or takes such an item out.
pub apply_cases {ℓ} :
    (P : CrudStore → Type ℓ) (store : CrudStore) (change : Change)
    → P store
    → ((uuid : Text) (v : Value)
        → text_eq store.id_strategy (str "uuid") ≡ true
        → P (put store uuid v))
    → ((v : Value)
        → text_eq store.id_strategy (str "uuid") ≡ false
        → P (put (advance store) (decimal store.next_id) v))
    → ((id : Text) (v old : Value) → get id store.items ≡ some old → P (put store id v))
    → ((id : Text) → P (take_out store id))
    → P (apply store change).0
unfolding apply create replace patch delete contains_key
apply_cases P store (creates uuid body) kept by_uuid by_number written taken =
    elim (Bool-cases (text_eq store.id_strategy (str "uuid"))) [
      | inl random ↦ rw random (by_uuid uuid _ random)
      | inr counted ↦ rw counted (by_number _ counted)
    ]
apply_cases P store (replaces id body) kept by_uuid by_number written taken =
    elim (Option-cases (get id store.items)) [
      | inl missing ↦ rw (missing, contains_key) kept
      | inr (old, found) ↦ rw (found, contains_key) (written id _ old found)
    ]
apply_cases P store (patches id body) kept by_uuid by_number written taken =
    elim (Option-cases (get id store.items)) [
      | inl missing ↦ rw (missing, patch) kept
      | inr (old, found) ↦ rw (found, patch) (written id _ old found)
    ]
apply_cases P store (deletes id) kept by_uuid by_number written taken =
    elim (Option-cases (get id store.items)) [
      | inl missing ↦ rw (missing, delete) kept
      | inr (old, found) ↦ rw (found, delete) (taken id)
    ]

-- Distinct keys.
abbrev pub HasKeys : CrudStore → Type 0
HasKeys store = HasDistinctKeys store.items

pub apply-HasKeys :
    (store : CrudStore) (change : Change) → HasKeys store → HasKeys (apply store change).0
apply-HasKeys store change h =
    apply_cases HasKeys store change h (λ uuid v e. insert-HasDistinctKeys uuid v store.items h)
      (λ v e. insert-HasDistinctKeys (decimal store.next_id) v store.items h)
      (λ id v old e. insert-HasDistinctKeys id v store.items h)
      (λ id. shift_remove-HasDistinctKeys id store.items h)

load_item-HasDistinctKeys :
    (json : SerdeJson) (id_field : Text) (item : Value) (loaded : Loaded)
    → HasDistinctKeys loaded.0
    → HasDistinctKeys (load_item json id_field item loaded).0
unfolding load_item
load_item-HasDistinctKeys json id_field item loaded h =
    elim (Option-cases (field_of id_field item)) [
      | inl missing ↦ rw (missing, load_item) h
      | inr (v, found) ↦
          rw (found, load_item) (insert-HasDistinctKeys (value_to_id_key json v) item loaded.0 h)
    ]

load-HasDistinctKeys :
    (json : SerdeJson) (id_field : Text) (seeds : List Value) (loaded : Loaded)
    → HasDistinctKeys loaded.0
    → HasDistinctKeys (load json id_field seeds loaded).0
unfolding load
load-HasDistinctKeys json id_field [] loaded h = h
load-HasDistinctKeys json id_field (item ∷ rest) loaded h =
    load-HasDistinctKeys json id_field rest (load_item json id_field item loaded)
      (load_item-HasDistinctKeys json id_field item loaded h)

apply_all-HasKeys :
    (store : CrudStore) (changes : List Change) → HasKeys store → HasKeys (apply_all store changes)
unfolding apply_all
apply_all-HasKeys store [] h = h
apply_all-HasKeys store (change ∷ rest) h =
    apply_all-HasKeys (apply store change).0 rest (apply-HasKeys store change h)

pub new-HasKeys : (json : SerdeJson) (spec : CrudSpec) → HasKeys (new json spec)
unfolding new
new-HasKeys json spec = load-HasDistinctKeys json spec.id.name spec.seed_data ([], 0) tt

pub resource-HasKeys :
    (json : SerdeJson) (spec : CrudSpec) (changes : List Change)
    → HasKeys (apply_all (new json spec) changes)
resource-HasKeys json spec changes =
    apply_all-HasKeys (new json spec) changes (new-HasKeys json spec)
