-- ===== src/Suggest/Nearest.antt =====
-- src/suggest.rs: the key that is suggested for a misspelt one.
use mockinx.Common.{
  ℕ, ◌≤◌, ◌<◌, ◌≡◌, refl, ◌⊎◌, inl, inr, Option, none, some, List, [], ◌∷◌, arith, All,
}
use mockinx.Text.{Text}
use mockinx.Suggest.{edit_distance, consider, nearest_key}

-- A key that differs, in at most two edits.
abbrev pub IsNear : Text → Text → Type 0
IsNear input key = (0 < edit_distance input key) × (edit_distance input key ≤ 2)

abbrev pub IsAmong : Text → List Text → Type 0
IsAmong key [] = ⊥
IsAmong key (k ∷ keys) = (key ≡ k) ⊎ IsAmong key keys

-- `dist` is the distance of a near key, and none of the near keys is nearer.
abbrev pub IsNearest : Text → List Text → Option (Text × ℕ) → Type 0
IsNearest input keys none = All (λ k. IsNear input k → ⊥) keys
IsNearest input keys (some (key, dist)) =
    IsAmong key keys
    × (dist ≡ edit_distance input key)
    × IsNear input key
    × All (λ k. IsNear input k → dist ≤ edit_distance input k) keys

-- What the loop keeps of the best key so far.
abbrev IsBest : Text → Option (Text × ℕ) → Type 0
IsBest input none = Unit
IsBest input (some (key, dist)) = (dist ≡ edit_distance input key) × IsNear input key

-- One result is at least as near as another.
abbrev Improves : Option (Text × ℕ) → Option (Text × ℕ) → Type 0
Improves none r = Unit
Improves (some b) none = ⊥
Improves (some (k, m)) (some (j, n)) = n ≤ m

consider-IsBest :
    (input key : Text) (best : Option (Text × ℕ))
    → IsBest input best
    → IsBest input (consider key (edit_distance input key) best)
      × Improves best (consider key (edit_distance input key) best)
      × (IsNear input key
          → Improves
              (some (key, edit_distance input key))
              (consider key (edit_distance input key) best))
consider-IsBest input key none h = ground arith
consider-IsBest input key (some (k, m)) h = ground arith

Improves-trans : (a b c : Option (Text × ℕ)) → Improves a b → Improves b c → Improves a c
Improves-trans none b c h k = tt
Improves-trans (some x) none c h k = absurd h
Improves-trans (some x) (some y) none h k = absurd k
Improves-trans (some x) (some y) (some z) h k = omega (arith, h, k)

-- Each near key of the list is no nearer than the result.
abbrev AllImprove : Text → List Text → Option (Text × ℕ) → Type 0
AllImprove input keys r =
    All (λ k. IsNear input k → Improves (some (k, edit_distance input k)) r) keys

nearest_key-IsBest :
    (input : Text) (keys : List Text) (best : Option (Text × ℕ))
    → IsBest input best
    → IsBest input (nearest_key input best keys)
      × Improves best (nearest_key input best keys)
      × AllImprove input keys (nearest_key input best keys)
unfolding nearest_key
nearest_key-IsBest input [] none h = (h, tt, tt)
nearest_key-IsBest input [] (some (k, d)) h = (h, omega arith, tt)
nearest_key-IsBest input (key ∷ keys) best h =
    let next = consider key (edit_distance input key) best in
    let (valid, better, near) = consider-IsBest input key best h in
    let (last, improves, all) = nearest_key-IsBest input keys next valid in
    (
      last,
      Improves-trans best next _ better improves,
      (λ n. Improves-trans (some (key, edit_distance input key)) next _ (near n) improves, all),
    )

-- The result is the best key so far or one of the list.
abbrev IsFrom : List Text → Option (Text × ℕ) → Option (Text × ℕ) → Type 0
IsFrom keys best none = Unit
IsFrom keys best (some (key, d)) = (best ≡ some (key, d)) ⊎ IsAmong key keys

consider-cases :
    (key : Text) (dist : ℕ) (best : Option (Text × ℕ))
    → (consider key dist best ≡ best) ⊎ (consider key dist best ≡ some (key, dist))
consider-cases key dist none = ground arith
consider-cases key dist (some (k, d)) = ground arith

IsFrom-cons :
    (key : Text) (keys : List Text) (best next r : Option (Text × ℕ)) (dist : ℕ)
    → (next ≡ best) ⊎ (next ≡ some (key, dist))
    → IsFrom keys next r
    → IsFrom (key ∷ keys) best r
IsFrom-cons key keys best next none dist h f = tt
IsFrom-cons key keys best next (some (k, d)) dist h (inr m) = inr (inr m)
IsFrom-cons key keys best next (some (k, d)) dist (inl e) (inl f) = inl (cc (e, f))
IsFrom-cons key keys best next (some (k, d)) dist (inr e) (inl f) = inr (inl (cc (e, f)))

self-IsFrom : (best : Option (Text × ℕ)) → IsFrom [] best best
self-IsFrom none = tt
self-IsFrom (some (k, d)) = inl refl

nearest_key-IsFrom :
    (input : Text) (keys : List Text) (best : Option (Text × ℕ))
    → IsFrom keys best (nearest_key input best keys)
unfolding nearest_key
nearest_key-IsFrom input [] best = self-IsFrom best
nearest_key-IsFrom input (key ∷ keys) best =
    let dist = edit_distance input key in
    IsFrom-cons key keys best (consider key dist best) _ dist (consider-cases key dist best)
      (nearest_key-IsFrom input keys (consider key dist best))

IsBest-IsNearest :
    (input : Text) (keys : List Text) (r : Option (Text × ℕ))
    → IsBest input r
    → AllImprove input keys r
    → IsFrom keys none r
    → IsNearest input keys r
IsBest-IsNearest input keys none b a f = a
IsBest-IsNearest input keys (some (k, d)) b a (inl e) = cc
IsBest-IsNearest input keys (some (k, d)) b a (inr m) = (m, b.0, b.1, a)

-- The key that the search for a misspelt key finds is one of the valid keys, at its edit distance from
-- the input, which is 1 or 2, and no other valid key that differs is nearer; if it finds none, no valid
-- key is at distance 1 or 2.
pub nearest_key-IsNearest :
    (input : Text) (keys : List Text) → IsNearest input keys (nearest_key input none keys)
nearest_key-IsNearest input keys =
    let (best, _, all) = nearest_key-IsBest input keys none tt in
    IsBest-IsNearest input keys (nearest_key input none keys) best all
      (nearest_key-IsFrom input keys none)
