-- ===== src/Server/Resource/Tests.antt =====
-- src/server.rs: a user that is posted, read and deleted.
use mockinx.Common.{◌≡◌, refl, false, []}
use mockinx.Text.{str, text_eq, contains_char}
use mockinx.Json.Laws.{HasDistinctKeys}
use mockinx.Reply.{no_body}
use mockinx.Reply.Crud.{CrudStore, new, apply_all}
use mockinx.Reply.Crud.Keys.{resource-HasKeys}
use mockinx.Server.Resource.{resolve_crud_reply}
use mockinx.Server.Resource.Routing.{IsSegment}
use mockinx.Server.Resource.Lifecycle.{collection, item_path, resolve_crud_reply-lifecycle}
use mockinx.Samples.{printer, users}

users-IsSegment : IsSegment (str "users")
unfolding str contains_char
users-IsSegment = (λ e. cc e, refl)

abbrev store : CrudStore
store = new printer users

counted : text_eq store.id_strategy (str "uuid") ≡ false
unfolding text_eq str new
counted = refl

keys : HasDistinctKeys store.items
unfolding apply_all
keys = resource-HasKeys printer users []

resolve_crud_reply-lifecycle_example :
    let (created, posted) =
      resolve_crud_reply printer [] store [] (str "POST") (collection (str "users")) (str "Bob") in
    let path = item_path (str "users") store.next_id in
    let (gone, deleted) = resolve_crud_reply printer [] created [] (str "DELETE") path [] in
    (posted.status ≡ 201)
    × (resolve_crud_reply printer [] created [] (str "GET") path []
        ≡ (created, record posted { status = 200 }))
    × (deleted ≡ record { status = 204; headers = []; body = no_body })
    × ((resolve_crud_reply printer [] gone [] (str "GET") path []).1.status ≡ 404)
resolve_crud_reply-lifecycle_example =
    resolve_crud_reply-lifecycle printer [] store (str "users") [] (str "Bob") [] users-IsSegment
      counted keys
