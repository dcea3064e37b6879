-- ===== src/Server/Resource/Lifecycle.antt =====
-- src/server.rs: an item of a resource from its creation to its removal.
use mockinx.Common.{ℕ, ◌≡◌, refl, ap, ◌==◌, false, none, some, List, [], ◌∷◌, ◌++◌, arith}
use mockinx.Text.{Text, str, text_eq, text_eq_refl, to_uppercase, contains_char}
use mockinx.Decimal.{decimal, AreDigits, decimal-AreDigits, decimal≢[]}
use mockinx.Json.{Value, SerdeJson, Map, number, pos_int, json_object, insert, null}
use mockinx.Json.Laws.{HasDistinctKeys, insert-HasDistinctKeys, get-insert, get-shift_remove}
use mockinx.Reply.{no_body, literal}
use mockinx.Reply.Crud.{
  CrudStore, create, get_item, delete, not_found, as_item, put, take_out, advance,
}
use mockinx.Server.Resource.{
  creates, gets, deletes, route, request_body, resolve_crud_reply, path_id,
}
use mockinx.Server.Resource.Routing.{IsSegment, path_id-segments}

AreDigits-no_slash : (s : Text) → AreDigits s → contains_char b'/' s ≡ false
unfolding contains_char
AreDigits-no_slash [] h = refl
AreDigits-no_slash (c ∷ s) (h, hs) = ground (arith, AreDigits-no_slash s hs)

decimal-IsSegment : (n : ℕ) → IsSegment (decimal n)
decimal-IsSegment n = (decimal≢[] n, AreDigits-no_slash (decimal n) (decimal-AreDigits n))

abbrev pub collection : Text → Text
collection base = b'/' ∷ base

abbrev pub item_path : Text → ℕ → Text
item_path base n = b'/' ∷ base ++ b'/' ∷ decimal n

post-creates : (path : Text) → path_id path ≡ none → route (str "POST") path ≡ creates
unfolding route to_uppercase str text_eq
post-creates path e = rw (e, route) refl

get-gets : (path id : Text) → path_id path ≡ some id → route (str "GET") path ≡ gets id
unfolding route to_uppercase str text_eq
get-gets path id e = rw (e, route) refl

delete-deletes : (path id : Text) → path_id path ≡ some id → route (str "DELETE") path ≡ deletes id
unfolding route to_uppercase str text_eq
delete-deletes path id e = rw (e, route) refl

-- The item that `create` stores under a counted id.
abbrev new_item : CrudStore → Value → Value
new_item store body =
    json_object (insert store.id_field (number (pos_int store.next_id)) (as_item body))

create-counted :
    (store : CrudStore) (uuid : Text) (body : Value)
    → text_eq store.id_strategy (str "uuid") ≡ false
    → create store uuid body ≡ (
      put (advance store) (decimal store.next_id) (new_item store body),
      (201, new_item store body),
    )
unfolding create
create-counted store uuid body counted = rw counted refl

get-put_self : (store : CrudStore) (id : Text) (v : Value) → get_item (put store id v) id ≡ (200, v)
unfolding get_item
get-put_self store id v = rw (get-insert id id v store.items, text_eq_refl id, get_item) refl

delete-put_self :
    (store : CrudStore) (id : Text) (v : Value)
    → delete (put store id v) id ≡ (take_out (put store id v) id, (204, null))
unfolding delete
delete-put_self store id v = rw (get-insert id id v store.items, text_eq_refl id, delete) refl

get-take_out :
    (store : CrudStore) (id : Text)
    → HasDistinctKeys store.items
    → get_item (take_out store id) id ≡ not_found
unfolding get_item
get-take_out store id d = rw (get-shift_remove id id store.items d, text_eq_refl id, get_item) refl

module _ (json : SerdeJson) (headers : Map) where
  resolve-post :
      (store : CrudStore) (path uuid : Text) (bytes : List ℕ)
      → path_id path ≡ none
      → text_eq store.id_strategy (str "uuid") ≡ false
      → let v = new_item store (request_body json bytes) in
        resolve_crud_reply json headers store uuid (str "POST") path bytes ≡ (
          put (advance store) (decimal store.next_id) v,
          record { status = 201; headers = headers; body = literal v },
        )
  unfolding resolve_crud_reply json_object
  resolve-post store path uuid bytes e counted =
      rw (post-creates path e, create-counted store uuid (request_body json bytes) counted) refl

  resolve-get :
      (store : CrudStore) (path id uuid : Text) (bytes : List ℕ) (code : ℕ) (v : Value)
      → path_id path ≡ some id
      → get_item store id ≡ (code, v)
      → (code == 204) ≡ false
      → resolve_crud_reply json headers store uuid (str "GET") path bytes
        ≡ (store, record { status = code; headers = headers; body = literal v })
  unfolding resolve_crud_reply
  resolve-get store path id uuid bytes code v e got other =
      let routed = get-gets path id e in rw (routed, got) (ground arith)

  resolve-delete :
      (store gone : CrudStore) (path id uuid : Text) (bytes : List ℕ)
      → path_id path ≡ some id
      → delete store id ≡ (gone, (204, null))
      → resolve_crud_reply json headers store uuid (str "DELETE") path bytes
        ≡ (gone, record { status = 204; headers = headers; body = no_body })
  unfolding resolve_crud_reply
  resolve-delete store gone path id uuid bytes e deleted =
      rw (delete-deletes path id e, deleted) refl

  -- An item of a resource under a base of one segment, with ids that are counted and distinct keys: a
  -- POST to the base creates it and answers 201 with it; a GET of the base and the new id then answers
  -- 200 with the same headers and body and changes nothing; a DELETE of it answers 204 without a body;
  -- and a GET after that answers 404.
  pub resolve_crud_reply-lifecycle :
      (store : CrudStore) (base uuid : Text) (bytes bytes' : List ℕ)
      → IsSegment base
      → text_eq store.id_strategy (str "uuid") ≡ false
      → HasDistinctKeys store.items
      → let (created, posted) =
          resolve_crud_reply json headers store uuid (str "POST") (collection base) bytes in
        let path = item_path base store.next_id in
        let (gone, deleted) =
          resolve_crud_reply json headers created uuid (str "DELETE") path bytes' in
        (posted.status ≡ 201)
        × (resolve_crud_reply json headers created uuid (str "GET") path bytes'
            ≡ (created, record posted { status = 200 }))
        × (deleted ≡ record { status = 204; headers = headers; body = no_body })
        × ((resolve_crud_reply json headers gone uuid (str "GET") path bytes').1.status ≡ 404)
  unfolding not_found
  resolve_crud_reply-lifecycle store base uuid bytes bytes' segment counted distinct =
      let id = decimal store.next_id in
      let (on_base, on_item) = path_id-segments base id segment (decimal-IsSegment store.next_id) in
      let v = new_item store (request_body json bytes) in
      let created = put (advance store) id v in
      let gone = take_out created id in
      let posts = resolve-post store (collection base) uuid bytes on_base counted in
      let path = item_path base store.next_id in
      let gets_it =
        resolve-get created path id uuid bytes' 200 v on_item (get-put_self (advance store) id v)
          refl in
      let removes =
        resolve-delete created gone path id uuid bytes' on_item
          (delete-put_self (advance store) id v) in
      let misses =
        resolve-get gone path id uuid bytes' 404 (not_found.1) on_item
          (get-take_out created id (insert-HasDistinctKeys id v store.items distinct)) refl in
      rw (posts, removes) (refl, gets_it, refl, ap (λ r. r.1.status) misses)
