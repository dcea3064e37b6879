-- ===== src/Reply/Crud/Tests.antt =====
-- src/reply/crud.rs on a resource with one seed item.
use mockinx.Common.{◌≡◌, refl, inr, false, some, List, [], ◌∷◌, ◌++◌, arith}
use mockinx.Text.{str, text_eq}
use mockinx.Decimal.{decimal, decimal_from}
use mockinx.Json.{
  Value, null, string, number, pos_int, object, json_object, of_fields, fields, Fields, get, insert,
  keys, end, field,
}
use mockinx.Json.Laws.{IsFresh, HasDistinctKeys}
use mockinx.Reply.Crud.{
  CrudStore, Change, creates, deletes, new, apply, apply_all, create, replace, patch, field_of,
  merge_values,
}
use mockinx.Reply.Crud.Invariant.{PrintsNumbers, HasNumericId, create-IsFresh}
use mockinx.Reply.Crud.Operations.{view, meaning, apply-meaning}
use mockinx.Reply.Crud.Ids.{or_else, get-merge_values, replace-id}
use mockinx.Samples.{printer, users}

prints : PrintsNumbers printer
prints n = refl

counted : text_eq users.id.new (str "uuid") ≡ false
unfolding text_eq str
counted = refl

numeric :
    HasNumericId
      (str "id")
      8
      (json_object ((str "id", number (pos_int 7)) ∷ (str "name", string (str "Ada")) ∷ []))
unfolding json_object of_fields fields get text_eq str
numeric = inr (7, refl, omega arith)

abbrev bob : Value
bob = string (str "Bob")

abbrev edits : List Change
edits = creates [] bob ∷ deletes (str "7") ∷ []

create-IsFresh_example :
    let store = apply_all (new printer users) edits in
    IsFresh (decimal store.next_id) store.items
    × ((create store [] bob).0.items
        ≡ store.items ++ (decimal store.next_id, (create store [] bob).1.1) ∷ [])
create-IsFresh_example =
    create-IsFresh printer users 8 edits [] bob prints counted (numeric, tt) (omega arith)
      (omega arith)

-- A resource of two items, under the keys "1" and "2".
abbrev one_two : CrudStore
one_two = record {
  state = record { items = (decimal 1, bob) ∷ (decimal 2, null) ∷ []; next_id = 3 };
  id_field = str "id";
  id_strategy = str "inc";
}

one_two-HasDistinctKeys : HasDistinctKeys one_two.items
unfolding decimal decimal_from text_eq
one_two-HasDistinctKeys = ((refl, tt), (tt, tt))

apply-meaning_example :
    (view (apply one_two (deletes (decimal 1))).0 (decimal 2)
      ≡ (meaning one_two (deletes (decimal 1)) (view one_two)).0 (decimal 2))
    × ((apply one_two (deletes (decimal 1))).1
        ≡ (meaning one_two (deletes (decimal 1)) (view one_two)).1)
apply-meaning_example =
    apply-meaning one_two (deletes (decimal 1)) (decimal 2) one_two-HasDistinctKeys

there : get (decimal 2) one_two.items ≡ some null
unfolding get decimal decimal_from text_eq
there = refl

replace-id_example :
    (field_of one_two.id_field (replace one_two (decimal 2) bob).1.1 ≡ some (number (pos_int 2)))
    × (get (decimal 2) (replace one_two (decimal 2) bob).0.items
        ≡ some (replace one_two (decimal 2) bob).1.1)
    × (keys (replace one_two (decimal 2) bob).0.items ≡ keys one_two.items)
replace-id_example = replace-id one_two 2 bob null (omega arith) there

abbrev stored : Fields
stored = field (str "name") bob (field (str "age") (number (pos_int 7)) end)

abbrev given : Fields
given = field (str "age") null end

given-HasDistinctKeys : HasDistinctKeys (fields given)
unfolding fields
given-HasDistinctKeys = (tt, tt)

get-merge_values_example :
    field_of (str "age") (merge_values (object stored) (object given))
    ≡ or_else (get (str "age") (fields given)) (get (str "age") (fields stored))
get-merge_values_example = get-merge_values (str "age") stored given given-HasDistinctKeys

-- A patch may change the id inside an item; the key stays.
patch_changes_id :
    (patch one_two (decimal 2) (object (field (str "id") (number (pos_int 9)) end))).0.items
    ≡ (decimal 1, bob) ∷ (decimal 2, object (field (str "id") (number (pos_int 9)) end)) ∷ []
unfolding patch merge_values get insert decimal decimal_from text_eq
patch_changes_id = refl
