-- ===== src/Reply/Crud/Ids.antt =====
-- src/reply/crud.rs: the id inside an item against the key that it is stored under.
use mockinx.Common.{ℕ, ◌<◌, ◌≡◌, refl, ◌∙◌, ap, Option, none, some, [], ◌∷◌, arith}
use mockinx.Text.{Text, text_eq_iff, text_eq_refl}
use mockinx.Decimal.{decimal, parse_u64-decimal, u64_limit}
use mockinx.Json.{
  Value, object, number, pos_int, Fields, Map, fields, get, contains_key, insert, json_object, keys,
}
use mockinx.Json.Laws.{HasDistinctKeys, get-insert, get-eq-none, keys-insert, fields-of_fields}
use mockinx.Reply.Crud.{
  CrudStore, replace, patch, as_item, id_key_to_value, merge_fields, merge_values, field_of,
}

abbrev pub or_else : Option Value → Option Value → Option Value
or_else none b = b
or_else (some v) b = some v

-- A merge takes each field from the patch, or from the base where the patch has none.
get-merge_fields :
    (k : Text) (base patch : Map)
    → HasDistinctKeys patch
    → get k (merge_fields base patch) ≡ or_else (get k patch) (get k base)
unfolding merge_fields get
get-merge_fields k base [] d = refl
get-merge_fields k base ((j, v) ∷ patch) d =
    get-merge_fields k (insert j v base) patch d.1
    ∙ ground (arith, get-insert j k v base, text_eq_iff j k, get-eq-none j patch d.0)

-- The patch of an object by an object, as both are read by key: each field comes from the body, or
-- from the stored item where the body has none.
pub get-merge_values :
    (k : Text) (old body : Fields)
    → HasDistinctKeys (fields body)
    → field_of k (merge_values (object old) (object body))
      ≡ or_else (get k (fields body)) (get k (fields old))
unfolding merge_values json_object
get-merge_values k old body d =
    ap (get k) (fields-of_fields (merge_fields (fields old) (fields body)))
    ∙ get-merge_fields k (fields old) (fields body) d

id_key_to_value-decimal : (n : ℕ) → n < u64_limit → id_key_to_value (decimal n) ≡ number (pos_int n)
unfolding id_key_to_value
id_key_to_value-decimal n h = rw (parse_u64-decimal n h) refl

get-insert_self : (k : Text) (v : Value) (m : Map) → get k (insert k v m) ≡ some v
get-insert_self k v m = get-insert k k v m ∙ ground (arith, text_eq_refl k)

-- A `PUT` under the decimal of a `u64` that is the key of an item stores an item whose id field is that
-- number, answers with it, and leaves the keys and their order as they are.
pub replace-id :
    (store : CrudStore) (n : ℕ) (body old : Value)
    → n < u64_limit
    → get (decimal n) store.items ≡ some old
    → (field_of store.id_field (replace store (decimal n) body).1.1 ≡ some (number (pos_int n)))
      × (get (decimal n) (replace store (decimal n) body).0.items
          ≡ some (replace store (decimal n) body).1.1)
      × (keys (replace store (decimal n) body).0.items ≡ keys store.items)
unfolding replace contains_key json_object
replace-id store n body old h found =
    rw (found, contains_key)
      (
        ap (get store.id_field) (fields-of_fields _)
            ∙ get-insert_self store.id_field (id_key_to_value (decimal n)) (as_item body)
            ∙ ap some (id_key_to_value-decimal n h),
        get-insert_self (decimal n) _ store.items,
        keys-insert (decimal n) _ old store.items found,
      )
