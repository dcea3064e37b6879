-- ===== src/Suggest/Distance.antt =====
-- src/suggest.rs: the table of distances between the prefixes of two texts.
use mathlib.Core.List.{reverse_aux}
use mockinx.Common.{
  ℕ, suc, ◌+◌, ◌≡◌, refl, sym, ap, ◌∙◌, some, List, [], ◌∷◌, length, get_elem?, reverse, arith,
}
use mockinx.Text.{Text}
use mockinx.Suggest.{
  cell, first_row, fill_row, next_row, fill_table, edit_distance, cell_or_zero, row_or_empty,
}

-- The distance of two prefixes, read from their ends.
unfoldable pub distance : Text → Text → ℕ
distance [] b = length b
distance (c ∷ a) [] = suc (length a)
distance (c ∷ a) (d ∷ b) = cell c d (distance a (d ∷ b)) (distance (c ∷ a) b) (distance a b)

-- The row of a prefix, from a prefix of the other text on.
row_of : Text → Text → Text → List ℕ
row_of ra rb [] = distance ra rb ∷ []
row_of ra rb (b ∷ bs) = distance ra rb ∷ row_of ra (b ∷ rb) bs

tail_of : Text → Text → Text → List ℕ
tail_of ra rb [] = []
tail_of ra rb (b ∷ bs) = row_of ra (b ∷ rb) bs

row_of-eq : (ra rb bs : Text) → row_of ra rb bs ≡ distance ra rb ∷ tail_of ra rb bs
unfolding row_of tail_of
row_of-eq ra rb [] = refl
row_of-eq ra rb (b ∷ bs) = refl

first_row-eq : (rb bs : Text) → first_row (length rb) bs ≡ row_of [] rb bs
unfolding first_row row_of distance
first_row-eq rb [] = refl
first_row-eq rb (b ∷ bs) =
    let next : length rb + 1 ≡ length (b ∷ rb) = omega arith in
    ap (λ n. length rb ∷ first_row n bs) next ∙ ap (◌∷◌ (length rb)) (first_row-eq (b ∷ rb) bs)

fill_row-eq :
    (a : ℕ) (ra rb bs : Text)
    → fill_row a (distance (a ∷ ra) rb) (distance ra rb) (tail_of ra rb bs) bs
      ≡ tail_of (a ∷ ra) rb bs
unfolding fill_row tail_of distance
fill_row-eq a ra rb [] = refl
fill_row-eq a ra rb (b ∷ bs) =
    ap (λ r. fill_row a (distance (a ∷ ra) rb) (distance ra rb) r (b ∷ bs))
      (row_of-eq ra (b ∷ rb) bs)
    ∙ ap (◌∷◌ (distance (a ∷ ra) (b ∷ rb))) (fill_row-eq a ra (b ∷ rb) bs)
    ∙ sym (row_of-eq (a ∷ ra) (b ∷ rb) bs)

next_row-eq :
    (a : ℕ) (ra bs : Text) → next_row (length ra) a (row_of ra [] bs) bs ≡ row_of (a ∷ ra) [] bs
next_row-eq a ra bs =
    let next : length ra + 1 ≡ distance (a ∷ ra) [] = unfold distance in omega arith in
    ap (λ r. next_row (length ra) a r bs) (row_of-eq ra [] bs)
    ∙ ap (λ n. n ∷ fill_row a n (distance ra []) (tail_of ra [] bs) bs) next
    ∙ ap (◌∷◌ (distance (a ∷ ra) [])) (fill_row-eq a ra [] bs)
    ∙ sym (row_of-eq (a ∷ ra) [] bs)

get_elem?-fill_table :
    (ra as' bs : Text)
    → get_elem? (fill_table (length ra) (row_of ra [] bs) as' bs) (length as')
      ≡ some (row_of (reverse_aux as' ra) [] bs)
unfolding fill_table
get_elem?-fill_table ra [] bs = refl
get_elem?-fill_table ra (a ∷ as') bs =
    let next : length ra + 1 ≡ length (a ∷ ra) = omega arith in
    ap (λ r. get_elem? (fill_table (length ra + 1) r as' bs) (length as')) (next_row-eq a ra bs)
    ∙ ap (λ n. get_elem? (fill_table n (row_of (a ∷ ra) [] bs) as' bs) (length as')) next
    ∙ get_elem?-fill_table (a ∷ ra) as' bs

get_elem?-row_of :
    (ra rb bs : Text)
    → get_elem? (row_of ra rb bs) (length bs) ≡ some (distance ra (reverse_aux bs rb))
unfolding row_of
get_elem?-row_of ra rb [] = refl
get_elem?-row_of ra rb (b ∷ bs) = get_elem?-row_of ra (b ∷ rb) bs

pub edit_distance-eq : (a b : Text) → edit_distance a b ≡ distance (reverse a) (reverse b)
unfolding edit_distance
edit_distance-eq a b =
    ap
      (λ r.
        cell_or_zero
          (get_elem? (row_or_empty (get_elem? (fill_table 0 r a b) (length a))) (length b)))
      (first_row-eq [] b)
    ∙ ap (λ r. cell_or_zero (get_elem? (row_or_empty r) (length b))) (get_elem?-fill_table [] a b)
    ∙ ap cell_or_zero (get_elem?-row_of (reverse a) [] b)
