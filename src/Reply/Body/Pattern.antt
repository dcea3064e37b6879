-- ===== src/Reply/Body/Pattern.antt =====
-- src/reply/body.rs: a pattern's bytes by place against its bytes in turn.
use native.Mathlib.Nat.{suc-mod, mod-lt, mod-eq_of_lt, mod_self}
use mockinx.Common.{
  ℕ, zero, suc, ◌+◌, ◌%◌, ◌<◌, ◌≡◌, refl, sym, ap, ◌∙◌, inl, inr, some, List, [], ◌∷◌, ◌++◌, length,
  get_elem?, drop, leb, arith, Bool-cases,
}
use mockinx.Error.{ok, ◌>>=◌, or_panic}
use mockinx.Reply.Body.{cycle_bytes, byte_at, pattern_from}

pub drop-get_elem? :
    (i : ℕ) (xs : List ℕ)
    → i < length xs
    → (b : ℕ) × (get_elem? xs i ≡ some b) × (drop i xs ≡ b ∷ drop (suc i) xs)
drop-get_elem? i [] h = absurd (omega arith)
drop-get_elem? zero (x ∷ xs) h = (x, refl, refl)
drop-get_elem? (suc i) (x ∷ xs) h = drop-get_elem? i xs (omega arith)

drop-length : (xs : List ℕ) → drop (length xs) xs ≡ []
drop-length [] = refl
drop-length (x ∷ xs) = drop-length xs

cycle_bytes-again :
    (n b : ℕ) (pat : List ℕ) → cycle_bytes n [] (b ∷ pat) ≡ cycle_bytes n (b ∷ pat) (b ∷ pat)
unfolding cycle_bytes
cycle_bytes-again zero b pat = refl
cycle_bytes-again (suc n) b pat = refl

-- The round that is left behind the byte at `o`.
cycle_bytes-next :
    (n o b : ℕ) (pat : List ℕ)
    → cycle_bytes n (drop (suc (o % suc (length pat))) (b ∷ pat)) (b ∷ pat)
      ≡ cycle_bytes n (drop (suc o % suc (length pat)) (b ∷ pat)) (b ∷ pat)
cycle_bytes-next n o b pat = elim (Bool-cases (leb (suc (o % suc (length pat))) (length pat))) [
  | inl within ↦
      let same : suc o % suc (length pat) ≡ suc (o % suc (length pat)) =
        suc-mod o (suc (length pat)) ∙ mod-eq_of_lt (ground arith) in
      ap (λ k. cycle_bytes n (drop k (b ∷ pat)) (b ∷ pat)) (sym same)
  | inr over ↦
      let bound = mod-lt o {m = suc (length pat)} (omega arith) in
      let full : o % suc (length pat) ≡ length pat = ground arith in
      let start : suc o % suc (length pat) ≡ 0 =
        suc-mod o (suc (length pat))
        ∙ ap (λ k. suc k % suc (length pat)) full
        ∙ mod_self (suc (length pat)) in
      ap (λ k. cycle_bytes n (drop k pat) (b ∷ pat)) full
      ∙ ap (λ r. cycle_bytes n r (b ∷ pat)) (drop-length pat)
      ∙ cycle_bytes-again n b pat
      ∙ ap (λ k. cycle_bytes n (drop k (b ∷ pat)) (b ∷ pat)) (sym start)
]

byte_at-eq :
    (b o : ℕ) (pat : List ℕ)
    → byte_at (b ∷ pat) o ≡ or_panic (get_elem? (b ∷ pat) (o % suc (length pat)))
byte_at-eq b o pat = ground arith

pub cycle_bytes-eq :
    (n o b : ℕ) (pat : List ℕ)
    → cycle_bytes n (drop (o % suc (length pat)) (b ∷ pat)) (b ∷ pat) ≡ pattern_from o n (b ∷ pat)
unfolding cycle_bytes pattern_from
cycle_bytes-eq zero o b pat = refl
cycle_bytes-eq (suc n) o b pat =
    let (c, found, split) =
      drop-get_elem? (o % suc (length pat)) (b ∷ pat) (mod-lt o (omega arith)) in
    ap (λ r. cycle_bytes (suc n) r (b ∷ pat)) split
    ∙ ap (λ r. r >>= λ bs. ok (c ∷ bs))
        (cycle_bytes-next n o b pat ∙ cycle_bytes-eq n (suc o) b pat)
    ∙ ap (λ r. or_panic r >>= λ x. pattern_from (suc o) n (b ∷ pat) >>= λ bs. ok (x ∷ bs))
        (sym found)
    ∙ ap (λ r. r >>= λ x. pattern_from (suc o) n (b ∷ pat) >>= λ bs. ok (x ∷ bs))
        (sym (byte_at-eq b o pat))

-- The bytes of a pattern, as a list.
unfoldable pub pattern_bytes : ℕ → ℕ → ℕ → List ℕ → List ℕ
pattern_bytes o zero b pat = []
pattern_bytes o (suc n) b pat =
    (drop-get_elem? (o % suc (length pat)) (b ∷ pat) (mod-lt o (omega arith))).0
    ∷ pattern_bytes (suc o) n b pat

pub pattern_from-eq :
    (o n b : ℕ) (pat : List ℕ) → pattern_from o n (b ∷ pat) ≡ ok (pattern_bytes o n b pat)
unfolding pattern_from pattern_bytes
pattern_from-eq o zero b pat = refl
pattern_from-eq o (suc n) b pat =
    let (c, found, split) =
      drop-get_elem? (o % suc (length pat)) (b ∷ pat) (mod-lt o (omega arith)) in
    ap (λ r. r >>= λ x. pattern_from (suc o) n (b ∷ pat) >>= λ bs. ok (x ∷ bs))
      (byte_at-eq b o pat ∙ ap or_panic found)
    ∙ ap (λ r. r >>= λ bs. ok (c ∷ bs)) (pattern_from-eq (suc o) n b pat)

pub pattern_bytes-add :
    (o m n b : ℕ) (pat : List ℕ)
    → pattern_bytes o (m + n) b pat ≡ pattern_bytes o m b pat ++ pattern_bytes (o + m) n b pat
unfolding pattern_bytes
pattern_bytes-add o zero n b pat =
    let none_first : 0 + n ≡ n = omega arith in
    let none_before : o ≡ o + 0 = omega arith in
    ap (λ k. pattern_bytes o k b pat) none_first ∙ ap (λ k. pattern_bytes k n b pat) none_before
pattern_bytes-add o (suc m) n b pat =
    let one_more : suc m + n ≡ suc (m + n) = omega arith in
    let moved : suc o + m ≡ o + suc m = omega arith in
    ap (λ k. pattern_bytes o k b pat) one_more
    ∙ ap (◌∷◌ (drop-get_elem? (o % suc (length pat)) (b ∷ pat) (mod-lt o (omega arith))).0) (
        pattern_bytes-add (suc o) m n b pat
        ∙ ap (λ k. pattern_bytes (suc o) m b pat ++ pattern_bytes k n b pat) moved)
