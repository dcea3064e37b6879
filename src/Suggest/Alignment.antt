-- ===== src/Suggest/Alignment.antt =====
-- src/suggest.rs: the distance as the least cost of an alignment.
use mathlib.Core.List.{reverse-cons, reverse-append, reverse-reverse}
use mockinx.Common.{
  ℕ, ◌+◌, ◌≤◌, ◌≡◌, refl, sym, ap, ◌∙◌, ◌⊎◌, inl, inr, List, [], ◌∷◌, ◌++◌, min, length, reverse,
  arith, if◌then◌else◌, ◌==◌, leb, Bool-cases,
}
use mockinx.Text.{Text}
use mockinx.Suggest.{edit_distance}
use mockinx.Suggest.Distance.{distance, edit_distance-eq}

-- A character of the source over one of the target, or a character of one of them alone.
pub data Column : Type 0 where
  pairs : (c d : ℕ) → Column
  inserts deletes : (c : ℕ) → Column

abbrev Alignment : Type 0
Alignment = List Column

unfoldable pub source : Alignment → Text
source [] = []
source (pairs c d ∷ cols) = c ∷ source cols
source (inserts c ∷ cols) = source cols
source (deletes c ∷ cols) = c ∷ source cols

unfoldable pub target : Alignment → Text
target [] = []
target (pairs c d ∷ cols) = d ∷ target cols
target (inserts c ∷ cols) = c ∷ target cols
target (deletes c ∷ cols) = target cols

-- A pair costs 1 where it differs, and a character alone costs 1.
unfoldable pub cost : Alignment → ℕ
cost [] = 0
cost (pairs c d ∷ cols) = cost cols + (if c == d then 0 else 1)
cost (inserts c ∷ cols) = cost cols + 1
cost (deletes c ∷ cols) = cost cols + 1

distance-insert : (a b : Text) (d : ℕ) → distance a (d ∷ b) ≤ distance a b + 1
unfolding distance
distance-insert [] b d = omega arith
distance-insert (c ∷ a) b d = omega arith

distance-delete : (a b : Text) (c : ℕ) → distance (c ∷ a) b ≤ distance a b + 1
unfolding distance
distance-delete [] [] c = omega arith
distance-delete (x ∷ a) [] c = omega arith
distance-delete a (d ∷ b) c = omega arith

distance-pair :
    (a b : Text) (c d : ℕ) → distance (c ∷ a) (d ∷ b) ≤ distance a b + (if c == d then 0 else 1)
unfolding distance
distance-pair a b c d = omega arith

distance-le-cost : (cols : Alignment) → distance (source cols) (target cols) ≤ cost cols
unfolding source target cost
distance-le-cost [] = unfold distance in omega arith
distance-le-cost (pairs c d ∷ cols) =
    omega (arith, distance-le-cost cols, distance-pair (source cols) (target cols) c d)
distance-le-cost (inserts d ∷ cols) =
    omega (arith, distance-le-cost cols, distance-insert (source cols) (target cols) d)
distance-le-cost (deletes c ∷ cols) =
    omega (arith, distance-le-cost cols, distance-delete (source cols) (target cols) c)

Attains : Text → Text → ℕ → Type 0
Attains a b n = (cols : Alignment) × (source cols ≡ a) × (target cols ≡ b) × (cost cols ≡ n)

attain_insert : (a b : Text) (d m n : ℕ) → n ≡ m + 1 → Attains a b m → Attains a (d ∷ b) n
unfolding Attains source target cost
attain_insert a b d m n e (cols, s, t, k) = (inserts d ∷ cols, s, ap (◌∷◌ d) t, omega (arith, e, k))

attain_delete : (a b : Text) (c m n : ℕ) → n ≡ m + 1 → Attains a b m → Attains (c ∷ a) b n
unfolding Attains source target cost
attain_delete a b c m n e (cols, s, t, k) = (deletes c ∷ cols, ap (◌∷◌ c) s, t, omega (arith, e, k))

attain_pair :
    (a b : Text) (c d m n : ℕ)
    → n ≡ m + (if c == d then 0 else 1)
    → Attains a b m
    → Attains (c ∷ a) (d ∷ b) n
unfolding Attains source target cost
attain_pair a b c d m n e (cols, s, t, k) =
    (pairs c d ∷ cols, ap (◌∷◌ c) s, ap (◌∷◌ d) t, omega (arith, e, k))

least_of : (x y z : ℕ) → (min (min x y) z ≡ x) ⊎ ((min (min x y) z ≡ y) ⊎ (min (min x y) z ≡ z))
least_of x y z = elim (Bool-cases (leb (min x y) z)) [
  | inl h ↦ elim (Bool-cases (leb x y)) [
    | inl k ↦ inl (ground arith)
    | inr k ↦ inr (inl (ground arith))
  ]
  | inr h ↦ inr (inr (ground arith))
]

distance-nil : (a : Text) → distance a [] ≡ length a
unfolding distance
distance-nil [] = refl
distance-nil (c ∷ a) = refl

nothing : Attains [] [] 0
unfolding Attains source target cost
nothing = ([], refl, refl, refl)

distance-Attains : (a b : Text) → Attains a b (distance a b)
unfolding distance
distance-Attains [] [] = nothing
distance-Attains [] (d ∷ b) =
    attain_insert [] b d (distance [] b) _ (omega arith) (distance-Attains [] b)
distance-Attains (c ∷ a) [] =
    attain_delete a [] c (distance a []) _ (omega (arith, distance-nil a)) (distance-Attains a [])
distance-Attains (c ∷ a) (d ∷ b) =
    elim (least_of (distance a (d ∷ b) + 1) (distance (c ∷ a) b + 1)
      (distance a b + (if c == d then 0 else 1))) [
        | inl e ↦ attain_delete a (d ∷ b) c (distance a (d ∷ b)) _ e (distance-Attains a (d ∷ b))
        | inr (inl e) ↦
            attain_insert (c ∷ a) b d (distance (c ∷ a) b) _ e (distance-Attains (c ∷ a) b)
        | inr (inr e) ↦ attain_pair a b c d (distance a b) _ e (distance-Attains a b)
      ]

source-append : (xs ys : Alignment) → source (xs ++ ys) ≡ source xs ++ source ys
unfolding source
source-append [] ys = refl
source-append (pairs c d ∷ xs) ys = ap (◌∷◌ c) (source-append xs ys)
source-append (inserts c ∷ xs) ys = source-append xs ys
source-append (deletes c ∷ xs) ys = ap (◌∷◌ c) (source-append xs ys)

target-append : (xs ys : Alignment) → target (xs ++ ys) ≡ target xs ++ target ys
unfolding target
target-append [] ys = refl
target-append (pairs c d ∷ xs) ys = ap (◌∷◌ d) (target-append xs ys)
target-append (inserts c ∷ xs) ys = ap (◌∷◌ c) (target-append xs ys)
target-append (deletes c ∷ xs) ys = target-append xs ys

cost-append : (xs ys : Alignment) → cost (xs ++ ys) ≡ cost xs + cost ys
unfolding cost
cost-append [] ys = omega arith
cost-append (pairs c d ∷ xs) ys = omega (arith, cost-append xs ys)
cost-append (inserts c ∷ xs) ys = omega (arith, cost-append xs ys)
cost-append (deletes c ∷ xs) ys = omega (arith, cost-append xs ys)

source-one : (x : Column) → reverse (source (x ∷ [])) ≡ source (x ∷ [])
unfolding source
source-one (pairs c d) = refl
source-one (inserts c) = refl
source-one (deletes c) = refl

target-one : (x : Column) → reverse (target (x ∷ [])) ≡ target (x ∷ [])
unfolding target
target-one (pairs c d) = refl
target-one (inserts c) = refl
target-one (deletes c) = refl

source-reverse : (xs : Alignment) → source (reverse xs) ≡ reverse (source xs)
source-reverse [] = unfold source in refl
source-reverse (x ∷ xs) =
    ap source (reverse-cons x xs)
    ∙ source-append (reverse xs) (x ∷ [])
    ∙ ap (λ t. t ++ source (x ∷ [])) (source-reverse xs)
    ∙ ap (λ t. reverse (source xs) ++ t) (sym (source-one x))
    ∙ sym (reverse-append (source (x ∷ [])) (source xs))
    ∙ ap reverse (sym (source-append (x ∷ []) xs))

target-reverse : (xs : Alignment) → target (reverse xs) ≡ reverse (target xs)
target-reverse [] = unfold target in refl
target-reverse (x ∷ xs) =
    ap target (reverse-cons x xs)
    ∙ target-append (reverse xs) (x ∷ [])
    ∙ ap (λ t. t ++ target (x ∷ [])) (target-reverse xs)
    ∙ ap (λ t. reverse (target xs) ++ t) (sym (target-one x))
    ∙ sym (reverse-append (target (x ∷ [])) (target xs))
    ∙ ap reverse (sym (target-append (x ∷ []) xs))

cost-reverse : (xs : Alignment) → cost (reverse xs) ≡ cost xs
cost-reverse [] = refl
cost-reverse (x ∷ xs) =
    ap cost (reverse-cons x xs)
    ∙ omega (arith, cost-append (reverse xs) (x ∷ []), cost-reverse xs, cost-append (x ∷ []) xs)

-- The edit distance of two texts is the least cost of an alignment of them: some alignment costs just
-- as much, and none costs less.
pub edit_distance-least :
    (a b : Text)
    → ((cols : Alignment) × (source cols ≡ a) × (target cols ≡ b) × (cost cols ≡ edit_distance a b))
      × ((cols : Alignment) → source cols ≡ a → target cols ≡ b → edit_distance a b ≤ cost cols)
unfolding Attains
edit_distance-least a b = (attained (distance-Attains (reverse a) (reverse b)), below)
  where
    attained :
        Attains (reverse a) (reverse b) (distance (reverse a) (reverse b))
        → Attains a b (edit_distance a b)
    attained (cols, s, t, n) = (
      reverse cols,
      source-reverse cols ∙ ap reverse s ∙ reverse-reverse a,
      target-reverse cols ∙ ap reverse t ∙ reverse-reverse b,
      cost-reverse cols ∙ n ∙ sym (edit_distance-eq a b),
    )

    below : (cols : Alignment) → source cols ≡ a → target cols ≡ b → edit_distance a b ≤ cost cols
    below cols s t =
        let bound = distance-le-cost (reverse cols) in
        let same : distance (source (reverse cols)) (target (reverse cols)) ≡ edit_distance a b =
          ap (λ x. distance x (target (reverse cols))) (source-reverse cols ∙ ap reverse s)
          ∙ ap (distance (reverse a)) (target-reverse cols ∙ ap reverse t)
          ∙ sym (edit_distance-eq a b) in
        omega (arith, bound, same, cost-reverse cols)
