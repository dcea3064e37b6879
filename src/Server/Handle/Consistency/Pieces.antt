-- ===== src/Server/Handle/Consistency/Pieces.antt =====
-- src/server.rs: what a request does to a resource and to an entry.
use mockinx.Common.{
  ℕ, ◌≡◌, refl, subst, ap, ◌==◌, inl, inr, Option, none, some, List, [], ◌∷◌, length, map, set,
  zero, suc, arith, All, Bool-cases,
}
use mockinx.Text.{Text}
use mockinx.Json.{Value, SerdeJson, Map}
use mockinx.Reply.Crud.{CrudStore, Change, apply}
use mockinx.Reply.Crud.Keys.{HasKeys, apply-HasKeys}
use mockinx.Store.{RuleEntry, next_call, next_call_for}
use mockinx.Server.{get_at}
use mockinx.Server.Resource.{
  Operation, lists, creates, not_allowed, gets, replaces, patches, deletes, perform,
  resolve_crud_reply,
}
use mockinx.Server.Handle.{same_index, call_index}
use mockinx.Server.Handle.Consistency.{Stores, IsHeld}

perform-HasKeys :
    (store : CrudStore) (uuid : Text) (body : Value) (op : Operation)
    → HasKeys store
    → HasKeys (perform store uuid body op).0
unfolding perform apply
perform-HasKeys store uuid body lists h = h
perform-HasKeys store uuid body (gets id) h = h
perform-HasKeys store uuid body creates h = apply-HasKeys store (Change.creates uuid body) h
perform-HasKeys store uuid body (replaces id) h = apply-HasKeys store (Change.replaces id body) h
perform-HasKeys store uuid body (patches id) h = apply-HasKeys store (Change.patches id body) h
perform-HasKeys store uuid body (deletes id) h = apply-HasKeys store (Change.deletes id) h
perform-HasKeys store uuid body not_allowed h = h

pub resolve_crud_reply-HasKeys :
    (json : SerdeJson) (headers : Map) (store : CrudStore) (uuid method path : Text)
    (bytes : List ℕ)
    → HasKeys store
    → HasKeys (resolve_crud_reply json headers store uuid method path bytes).0
unfolding resolve_crud_reply
resolve_crud_reply-HasKeys json headers store uuid method path bytes h =
    perform-HasKeys store uuid _ _ h

pub get_at-HasKeys :
    (stores : Stores) (idx : ℕ) (store : CrudStore)
    → All (λ p. HasKeys p.1) stores
    → get_at idx stores ≡ some store
    → HasKeys store
get_at-HasKeys [] idx store h e = cc e
get_at-HasKeys ((j, st) ∷ stores) idx store (h, hs) e = elim (Bool-cases (j == idx)) [
  | inl same ↦ let found : st ≡ store = ground arith in subst HasKeys found h
  | inr other ↦ get_at-HasKeys stores idx store hs (ground arith)
]

pub length-set {ℓ} : {A : Type ℓ} (xs : List A) (i : ℕ) (x : A) → length (set xs i x) ≡ length xs
length-set [] i x = refl
length-set (y ∷ xs) zero x = refl
length-set (y ∷ xs) (suc i) x = ap suc (length-set xs i x)

pub same_index-IsHeld :
    (n : ℕ) (stores : Stores) (e : RuleEntry) (entries : List RuleEntry)
    → IsHeld n stores e
    → All (IsHeld n stores) entries
    → All (IsHeld n stores) (map (same_index e) entries)
same_index-IsHeld n stores e [] held h = tt
same_index-IsHeld n stores e (d ∷ entries) held (h, hs) = elim (Bool-cases (d.index == e.index)) [
  | inl same ↦ rw same (held, same_index-IsHeld n stores e entries held hs)
  | inr other ↦ rw other (h, same_index-IsHeld n stores e entries held hs)
]

pub call_index-IsHeld :
    (n : ℕ) (stores : Stores) (e : RuleEntry) (peer : Option Text)
    → IsHeld n stores e
    → IsHeld n stores (call_index e peer).1
unfolding call_index next_call next_call_for
call_index-IsHeld n stores e none h = h
call_index-IsHeld n stores e (some addr) h = h
