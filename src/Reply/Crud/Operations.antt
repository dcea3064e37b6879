-- ===== src/Reply/Crud/Operations.antt =====
-- src/reply/crud.rs: the operations against a resource as a function from ids to items.
use mockinx.Common.{
  ◌≡◌, refl, inl, inr, Option, none, some, Bool-cases, Option-cases, if◌then◌else◌,
}
use mockinx.Text.{Text, str, text_eq}
use mockinx.Json.{Value, null, get, contains_key, insert, json_object}
use mockinx.Json.Laws.{HasDistinctKeys, get-insert, get-shift_remove}
use mockinx.Decimal.{decimal}
use mockinx.Reply.Crud.{
  CrudStore, CrudResponse, not_found, create, replace, patch, delete, new_id, as_item,
  id_key_to_value, merge_values, Change, creates, replaces, patches, deletes, apply,
}

-- A resource forgets the order of its items.
abbrev pub Resource : Type 0
Resource = Text → Option Value

abbrev pub view : CrudStore → Resource
view store id = get id store.items

abbrev pub write : Text → Option Value → Resource → Resource
write id v r j = if text_eq id j then v else r j

-- What each change means for a resource: its new contents and the answer.
abbrev answered :
    Resource → Text → (Value → Resource × CrudResponse) → Option Value → Resource × CrudResponse
answered r id f none = (r, not_found)
answered r id f (some old) = f old

abbrev pub meaning : CrudStore → Change → Resource → Resource × CrudResponse
meaning store (creates uuid body) r =
    let ((id_value, id_key), drawn) = new_id store uuid in
    let item = json_object (insert store.id_field id_value (as_item body)) in
    (write id_key (some item) r, (201, item))
meaning store (replaces id body) r =
    let item = json_object (insert store.id_field (id_key_to_value id) (as_item body)) in
    answered r id (λ old. (write id (some item) r, (200, item))) (r id)
meaning store (patches id body) r =
    answered r id (λ old. (write id (some (merge_values old body)) r, (200, merge_values old body)))
      (r id)
meaning store (deletes id) r = answered r id (λ old. (write id none r, (204, null))) (r id)

-- Every change does to the items, seen as a function from ids, what it means: an id that is there is
-- written or taken out, a missing id is answered with 404 and changes nothing, `create` writes under
-- its new id, and no other id is touched. The answers agree too.
pub apply-meaning :
    (store : CrudStore) (change : Change) (j : Text)
    → HasDistinctKeys store.items
    → (view (apply store change).0 j ≡ (meaning store change (view store)).0 j)
      × ((apply store change).1 ≡ (meaning store change (view store)).1)
unfolding apply create replace patch delete contains_key
apply-meaning store (creates uuid body) j d =
    elim (Bool-cases (text_eq store.id_strategy (str "uuid"))) [
      | inl random ↦ rw random (get-insert uuid j _ store.items, refl)
      | inr counted ↦ rw counted (get-insert (decimal store.next_id) j _ store.items, refl)
    ]
apply-meaning store (replaces id body) j d = elim (Option-cases (get id store.items)) [
  | inl missing ↦ rw (missing, contains_key) (refl, refl)
  | inr (old, found) ↦ rw (found, contains_key) (get-insert id j _ store.items, refl)
]
apply-meaning store (patches id body) j d = elim (Option-cases (get id store.items)) [
  | inl missing ↦ rw (missing, patch) (refl, refl)
  | inr (old, found) ↦ rw (found, patch) (get-insert id j _ store.items, refl)
]
apply-meaning store (deletes id) j d = elim (Option-cases (get id store.items)) [
  | inl missing ↦ rw (missing, delete) (refl, refl)
  | inr (old, found) ↦ rw (found, delete) (get-shift_remove id j store.items d, refl)
]
