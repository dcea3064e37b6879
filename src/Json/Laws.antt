-- ===== src/Json/Laws.antt =====
-- Maps in insertion order: lookup after insertion and removal, and distinct keys.
use mockinx.Common.{
  ◌≡◌, refl, ap, false, none, some, List, [], ◌∷◌, ◌++◌, arith, if◌then◌else◌, Bool-cases, inl, inr,
}
use mockinx.Text.{Text, text_eq, text_eq_iff}
use mockinx.Json.{Value, Map, items, of_items, fields, of_fields, get, insert, shift_remove, keys}

pub items-of_items : (vs : List Value) → items (of_items vs) ≡ vs
unfolding items of_items
items-of_items [] = refl
items-of_items (v ∷ vs) = ap (◌∷◌ v) (items-of_items vs)

pub fields-of_fields : (m : Map) → fields (of_fields m) ≡ m
unfolding fields of_fields
fields-of_fields [] = refl
fields-of_fields ((k, v) ∷ m) = ap (◌∷◌ (k, v)) (fields-of_fields m)

module _ {ℓ} {V : Type ℓ} where
  -- The key is none of the map's.
  abbrev pub IsFresh : Text → List (Text × V) → Type 0
  IsFresh k [] = Unit
  IsFresh k ((j, v) ∷ m) = (text_eq j k ≡ false) × IsFresh k m

  abbrev pub HasDistinctKeys : List (Text × V) → Type 0
  HasDistinctKeys [] = Unit
  HasDistinctKeys ((k, v) ∷ m) = IsFresh k m × HasDistinctKeys m

  pub get-insert :
      (k j : Text) (v : V) (m : List (Text × V))
      → get j (insert k v m) ≡ (if text_eq k j then some v else get j m)
  unfolding get insert
  get-insert k j v [] = refl
  get-insert k j v ((i, w) ∷ m) =
      ground (arith, text_eq_iff k j, text_eq_iff i k, text_eq_iff i j, get-insert k j v m)

  pub get-eq-none : (k : Text) (m : List (Text × V)) → IsFresh k m → get k m ≡ none
  unfolding get
  get-eq-none k [] h = refl
  get-eq-none k ((j, v) ∷ m) h = ground (arith, get-eq-none k m h.1)

  pub insert-eq-append :
      (k : Text) (v : V) (m : List (Text × V)) → IsFresh k m → insert k v m ≡ m ++ (k, v) ∷ []
  unfolding insert
  insert-eq-append k v [] h = refl
  insert-eq-append k v ((j, w) ∷ m) h = ground (arith, insert-eq-append k v m h.1)

  pub insert-IsFresh :
      (k j : Text) (v : V) (m : List (Text × V))
      → text_eq k j ≡ false
      → IsFresh j m
      → IsFresh j (insert k v m)
  unfolding insert
  insert-IsFresh k j v [] h f = (h, tt)
  insert-IsFresh k j v ((i, w) ∷ m) h f = ground (arith, insert-IsFresh k j v m h f.1)

  pub insert-HasDistinctKeys :
      (k : Text) (v : V) (m : List (Text × V)) → HasDistinctKeys m → HasDistinctKeys (insert k v m)
  unfolding insert
  insert-HasDistinctKeys k v [] d = (tt, tt)
  insert-HasDistinctKeys k v ((j, w) ∷ m) d = elim (Bool-cases (text_eq j k)) [
    | inl same ↦ rw same d
    | inr other ↦ rw other (
      insert-IsFresh k j v m (ground (arith, text_eq_iff j k, text_eq_iff k j)) d.0,
      insert-HasDistinctKeys k v m d.1,
    )
  ]

  -- An update of a present key changes no key and no order.
  pub keys-insert :
      (k : Text) (v w : V) (m : List (Text × V)) → get k m ≡ some w → keys (insert k v m) ≡ keys m
  unfolding get insert
  keys-insert k v w [] h = cc
  keys-insert k v w ((j, u) ∷ m) h = ground (arith, keys-insert k v w m)

  pub shift_remove-IsFresh :
      (k j : Text) (m : List (Text × V)) → IsFresh j m → IsFresh j (shift_remove k m)
  unfolding shift_remove
  shift_remove-IsFresh k j [] f = tt
  shift_remove-IsFresh k j ((i, w) ∷ m) f = ground (arith, shift_remove-IsFresh k j m f.1)

  pub shift_remove-HasDistinctKeys :
      (k : Text) (m : List (Text × V)) → HasDistinctKeys m → HasDistinctKeys (shift_remove k m)
  unfolding shift_remove
  shift_remove-HasDistinctKeys k [] d = tt
  shift_remove-HasDistinctKeys k ((j, w) ∷ m) d =
      ground (arith, shift_remove-IsFresh k j m d.0, shift_remove-HasDistinctKeys k m d.1)

  pub get-shift_remove :
      (k j : Text) (m : List (Text × V))
      → HasDistinctKeys m
      → get j (shift_remove k m) ≡ (if text_eq k j then none else get j m)
  unfolding get shift_remove
  get-shift_remove k j [] d = ground arith
  get-shift_remove k j ((i, w) ∷ m) d = ground (
    arith,
    text_eq_iff k j,
    text_eq_iff i k,
    text_eq_iff i j,
    get-eq-none i m d.0,
    get-shift_remove k j m d.1,
  )
