-- ===== src/Reply/Crud/Invariant.antt =====
-- src/reply/crud.rs: numbers that are still to be drawn stay free.
use mockinx.Common.{
  ℕ, ◌+◌, ◌≤◌, ◌<◌, ◌≡◌, ap, ◌≢◌, ◌⊎◌, inl, inr, false, none, some, List, [], ◌∷◌, ◌++◌, arith, max,
  All, Bool-cases, length, ◌%◌,
}
use mockinx.Text.{Text, str, text_eq, text_eq_iff}
use mockinx.Decimal.{decimal, decimal_injective, u64_limit}
use mockinx.Json.{Value, number, pos_int, SerdeJson, get, insert}
use mockinx.Json.Laws.{IsFresh, get-eq-none, insert-IsFresh, shift_remove-IsFresh, insert-eq-append}
use mockinx.Serve.Behavior.{CrudSpec}
use mockinx.Reply.Crud.Keys.{apply_cases}
use mockinx.Reply.Crud.{
  CrudStore, field_of, load, load_item, Loaded, new, create, Change, apply, apply_all,
  value_to_id_key, put, advance,
}

-- No key is a number that is still to be drawn.
abbrev pub HasFreeNumbers : CrudStore → Type 0
HasFreeNumbers store = (n : ℕ) → store.next_id ≤ n → IsFresh (decimal n) store.items

-- Ids are counted.
abbrev pub Counts : CrudStore → Type 0
Counts store = text_eq store.id_strategy (str "uuid") ≡ false

text_eq-false : (s t : Text) → s ≢ t → text_eq s t ≡ false
text_eq-false s t h = elim (Bool-cases (text_eq s t)) [
  | inl same ↦ absurd (h ((text_eq_iff s t).0 same))
  | inr other ↦ other
]

-- A key that is there differs from one that is not.
text_eq_of_get :
    (k j : Text) (v : Value) (m : List (Text × Value))
    → get k m ≡ some v
    → IsFresh j m
    → text_eq k j ≡ false
text_eq_of_get k j v m found free =
    text_eq-false k j (λ same. cc (found, ap (λ x. get x m) same, get-eq-none j m free))

abbrev Free : ℕ → List (Text × Value) → Type 0
Free next items = (n : ℕ) → next ≤ n → IsFresh (decimal n) items

insert-Free :
    (next m : ℕ) (v : Value) (items : List (Text × Value))
    → m < next
    → Free next items
    → Free next (insert (decimal m) v items)
insert-Free next m v items h f n le =
    insert-IsFresh (decimal m) (decimal n) v items
      (text_eq-false (decimal m) (decimal n) (λ e. absurd (omega (arith, decimal_injective m n e))))
      (f n le)

apply-HasFreeNumbers :
    (store : CrudStore) (change : Change)
    → Counts store
    → store.next_id + 1 < u64_limit
    → HasFreeNumbers store
    → HasFreeNumbers (apply store change).0
apply-HasFreeNumbers store change c b h =
    apply_cases HasFreeNumbers store change h (λ uuid v e. cc) (λ v e. advanced v)
      (λ id v old e n le.
        insert-IsFresh id (decimal n) v store.items
          (text_eq_of_get id (decimal n) old store.items e (h n le)) (h n le))
      (λ id n le. shift_remove-IsFresh id (decimal n) store.items (h n le))
  where
    next : (store.next_id + 1) % u64_limit ≡ store.next_id + 1
    next = omega arith

    advanced : (v : Value) → HasFreeNumbers (put (advance store) (decimal store.next_id) v)
    advanced v n le =
        insert-Free (store.next_id + 1) store.next_id v store.items (omega arith)
          (λ m hm. h m (omega arith)) n (omega (arith, next))

-- What `serde_json` prints for a `u64`.
abbrev pub PrintsNumbers : SerdeJson → Type 0
PrintsNumbers json = (n : ℕ) → json.to_string (number (pos_int n)) ≡ decimal n

-- The id of a seed item is a number below `limit`, or is missing.
abbrev pub HasNumericId : Text → ℕ → Value → Type 0
HasNumericId id_field limit item =
    (field_of id_field item ≡ none)
    ⊎ ((n : ℕ) × (field_of id_field item ≡ some (number (pos_int n))) × (n < limit))

load_item-Free :
    (json : SerdeJson) (id_field : Text) (limit : ℕ) (item : Value) (loaded : Loaded)
    → PrintsNumbers json
    → HasNumericId id_field limit item
    → Free (loaded.1 + 1) loaded.0
    → loaded.1 < limit
    → Free ((load_item json id_field item loaded).1 + 1) (load_item json id_field item loaded).0
      × ((load_item json id_field item loaded).1 < limit)
unfolding load_item value_to_id_key
load_item-Free json id_field limit item loaded p (inl missing) h b = rw (missing, load_item) (h, b)
load_item-Free json id_field limit item loaded p (inr (n, found, small)) h b =
    rw (found, load_item)
      (rw (p n) (
        insert-Free (max loaded.1 n + 1) n item loaded.0 (omega arith) (λ m le. h m (omega arith)),
        omega arith,
      ))

load-Free :
    (json : SerdeJson) (id_field : Text) (limit : ℕ) (seeds : List Value) (loaded : Loaded)
    → PrintsNumbers json
    → All (HasNumericId id_field limit) seeds
    → Free (loaded.1 + 1) loaded.0
    → loaded.1 < limit
    → Free ((load json id_field seeds loaded).1 + 1) (load json id_field seeds loaded).0
      × ((load json id_field seeds loaded).1 < limit)
unfolding load
load-Free json id_field limit [] loaded p a h b = (h, b)
load-Free json id_field limit (item ∷ rest) loaded p a h b =
    let (h', b') = load_item-Free json id_field limit item loaded p a.0 h b in
    load-Free json id_field limit rest (load_item json id_field item loaded) p a.1 h' b'

new-HasFreeNumbers :
    (json : SerdeJson) (spec : CrudSpec) (limit : ℕ)
    → PrintsNumbers json
    → All (HasNumericId spec.id.name limit) spec.seed_data
    → 0 < limit
    → limit < u64_limit
    → HasFreeNumbers (new json spec) × ((new json spec).next_id ≤ limit)
unfolding new
new-HasFreeNumbers json spec limit p a pos small =
    (λ n le. loaded.0 n (omega (arith, next)), omega (arith, next, loaded.1))
  where
    loaded :
        Free
          ((load json spec.id.name spec.seed_data ([], 0)).1 + 1)
          (load json spec.id.name spec.seed_data ([], 0)).0
        × ((load json spec.id.name spec.seed_data ([], 0)).1 < limit)
    loaded = load-Free json spec.id.name limit spec.seed_data ([], 0) p a (λ m le. tt) pos

    next :
        ((load json spec.id.name spec.seed_data ([], 0)).1 + 1) % u64_limit
        ≡ (load json spec.id.name spec.seed_data ([], 0)).1 + 1
    next = omega (arith, loaded.1)

apply-Counts : (store : CrudStore) (change : Change) → Counts store → Counts (apply store change).0
apply-Counts store change c =
    apply_cases Counts store change c (λ uuid v e. c) (λ v e. c) (λ id v old e. c) (λ id. c)

next_id-apply :
    (store : CrudStore) (change : Change) → (apply store change).0.next_id ≤ store.next_id + 1
next_id-apply store change =
    apply_cases (λ t. t.next_id ≤ store.next_id + 1) store change (omega arith)
      (λ uuid v e. omega arith) (λ v e. omega arith) (λ id v old e. omega arith) (λ id. omega arith)

apply_all-HasFreeNumbers :
    (store : CrudStore) (changes : List Change)
    → Counts store
    → store.next_id + length changes < u64_limit
    → HasFreeNumbers store
    → HasFreeNumbers (apply_all store changes) × Counts (apply_all store changes)
unfolding apply_all
apply_all-HasFreeNumbers store [] c b h = (h, c)
apply_all-HasFreeNumbers store (change ∷ rest) c b h =
    apply_all-HasFreeNumbers (apply store change).0 rest (apply-Counts store change c)
      (omega (arith, next_id-apply store change))
      (apply-HasFreeNumbers store change c (omega arith) h)

create-append :
    (store : CrudStore) (uuid : Text) (body : Value)
    → Counts store
    → IsFresh (decimal store.next_id) store.items
    → (create store uuid body).0.items
      ≡ store.items ++ (decimal store.next_id, (create store uuid body).1.1) ∷ []
unfolding create
create-append store uuid body c f = rw c (insert-eq-append (decimal store.next_id) _ store.items f)

-- The ids that a resource counts are new: let the seed items have numbers below `limit` for ids or no
-- ids, and let the strategy be other than "uuid". Then after any changes whose number with `limit`
-- stays below 2^64, the key of the next item is none of the keys there, and `create` adds the item that
-- it answers with behind all the others and leaves those as they are.
pub create-IsFresh :
    (json : SerdeJson) (spec : CrudSpec) (limit : ℕ) (changes : List Change) (uuid : Text)
    (body : Value)
    → PrintsNumbers json
    → text_eq spec.id.new (str "uuid") ≡ false
    → All (HasNumericId spec.id.name limit) spec.seed_data
    → 0 < limit
    → limit + length changes < u64_limit
    → let store = apply_all (new json spec) changes in
      IsFresh (decimal store.next_id) store.items
      × ((create store uuid body).0.items
          ≡ store.items ++ (decimal store.next_id, (create store uuid body).1.1) ∷ [])
create-IsFresh json spec limit changes uuid body p c a pos small =
    let (free, at_most) = new-HasFreeNumbers json spec limit p a pos (omega arith) in
    let counts : Counts (new json spec) = unfold new in c in
    let (later, counting) =
      apply_all-HasFreeNumbers (new json spec) changes counts (omega arith) free in
    let store = apply_all (new json spec) changes in
    let fresh = later store.next_id (omega arith) in
    (fresh, create-append store uuid body counting fresh)
