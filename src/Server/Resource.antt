-- ===== src/Server/Resource.antt =====
-- src/server.rs: a request to a resource.
pub mod Routing
pub mod Lifecycle
mod Tests
use mockinx.Common.{
  ℕ, ◌==◌, Bool, true, false, Option, none, some, List, [], ◌∷◌, ◌&&◌, if◌then◌else◌,
}
use mockinx.Text.{Text, str, text_eq, trim_matches, to_uppercase, split}
use mockinx.Json.{Value, null, string, SerdeJson, Map, json_object}
use mockinx.Reply.{ReplySpec, BodySpec, no_body, literal}
use mockinx.Reply.Crud.{CrudStore, CrudResponse, list, get_item, create, replace, patch, delete}

abbrev pub is_slash : ℕ → Bool
is_slash c = c == b'/'

-- The last of two segments or more.
abbrev last_of : Text → List Text → Text
last_of s [] = s
last_of s (t ∷ rest) = last_of t rest

abbrev potential_id : List Text → Option Text
potential_id [] = none
potential_id (s ∷ []) = none
potential_id (s ∷ t ∷ rest) = some (last_of t rest)

unfoldable pub path_id : Text → Option Text
path_id path = potential_id (split b'/' (trim_matches is_slash path))

-- The arms of the match on a method in upper case and an id.
pub data Operation : Type 0 where
  lists creates not_allowed : Operation
  gets replaces patches deletes : (id : Text) → Operation

abbrev on_collection : Text → Operation
on_collection method =
    if text_eq method (str "GET")
    then lists
    else if text_eq method (str "POST")
    then creates
    else not_allowed

abbrev on_item : Text → Text → Operation
on_item method id =
    if text_eq method (str "GET")
    then gets id
    else if text_eq method (str "PUT")
    then replaces id
    else if text_eq method (str "PATCH")
    then patches id
    else if text_eq method (str "DELETE")
    then deletes id
    else not_allowed

abbrev operation_on : Text → Option Text → Operation
operation_on method none = on_collection method
operation_on method (some id) = on_item method id

unfoldable pub route : Text → Text → Operation
unfolding path_id
route method path = operation_on (to_uppercase method) (path_id path)

unfoldable pub not_allowed_response : CrudResponse
not_allowed_response = (405, json_object ((str "error", string (str "method not allowed")) ∷ []))

-- The operation on the store; `uuid` is what `Uuid::new_v4` would return.
unfoldable pub perform : CrudStore → Text → Value → Operation → CrudStore × CrudResponse
perform store uuid body lists = (store, list store)
perform store uuid body (gets id) = (store, get_item store id)
perform store uuid body creates = create store uuid body
perform store uuid body (replaces id) = replace store id body
perform store uuid body (patches id) = patch store id body
perform store uuid body (deletes id) = delete store id
perform store uuid body not_allowed = (store, not_allowed_response)

abbrev is_null : Value → Bool
is_null null = true
is_null v = false

abbrev body_or_null : Option Value → Value
body_or_null none = null
body_or_null (some v) = v

module _ (json : SerdeJson) where
  unfoldable pub request_body : List ℕ → Value
  request_body [] = null
  request_body (b ∷ bytes) = body_or_null (json.from_slice (b ∷ bytes))

  unfoldable pub resolve_crud_reply :
      Map → CrudStore → Text → Text → Text → List ℕ → CrudStore × ReplySpec
  unfolding request_body route perform
  resolve_crud_reply default_headers store uuid method path body_bytes =
      let (store', (status, body)) =
        perform store uuid (request_body body_bytes) (route method path) in
      let sent = if is_null body && (status == 204) then no_body else literal body in
      (store', record { status = status; headers = default_headers; body = sent })
