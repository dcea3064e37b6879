-- ===== src/Chaos/Selection.antt =====
-- src/chaos.rs: the entries that are accepted, and the one that a roll selects.
use mockinx.Common.{
  ℕ, ◌+◌, ◌≡◌, ◌≢◌, refl, ap, ◌∙◌, ◌⊎◌, inl, inr, Bool, true, false, List, [], ◌∷◌, ◌++◌, arith,
  Bool-cases, Option-cases,
}
use mockinx.Text.{Text, str}
use mockinx.Error.{ok, reject}
use mockinx.Float.{F64, FloatOps}
use mockinx.Units.{Rng, next_f64}
use mockinx.Json.{Value, SerdeJson, as_array, get}
use mockinx.Yttp.{Yttp}
use mockinx.Chaos.{
  ChaosEntry, normal, overriding, overrides_nothing, select_entry, resolve_chaos, parse_percentage,
  parse_p, parse_overrides, parse_entries, parse_chaos_items, parse_chaos,
}

reject-eq-ok : (bad : Bool) (msg : Text) {u : Unit} → reject bad msg ≡ ok u → bad ≡ false
reject-eq-ok true msg h = cc
reject-eq-ok false msg h = refl

module _ (ops : FloatOps) where
  open ops use {add, mul, lt, of_u64}

  -- The sum that the loop has reached behind these entries.
  abbrev pub reach : F64 → List ChaosEntry → F64
  reach total [] = total
  reach total (e ∷ es) = reach (add total e.p) es

  -- The roll is below none of the sums that the entries reach.
  abbrev pub IsBeyond : F64 → F64 → List ChaosEntry → Type 0
  IsBeyond roll total [] = Unit
  IsBeyond roll total (e ∷ es) =
      (lt roll (add total e.p) ≡ false) × IsBeyond roll (add total e.p) es

  -- The roll is below the sum that `e` reaches and below none before.
  abbrev pub IsHit : F64 → F64 → List ChaosEntry → ChaosEntry → Type 0
  IsHit roll total entries e =
      (before after : List ChaosEntry) × (entries ≡ before ++ e ∷ after)
      × IsBeyond roll total before
      × (lt roll (add (reach total before) e.p) ≡ true)

  select_entry-cases :
      (roll total : F64) (entries : List ChaosEntry)
      → ((e : ChaosEntry) × (select_entry ops roll total entries ≡ overriding e.reply e.serve)
          × IsHit roll total entries e)
        ⊎ ((select_entry ops roll total entries ≡ normal) × IsBeyond roll total entries)
  unfolding select_entry
  select_entry-cases roll total [] = inr (refl, tt)
  select_entry-cases roll total (x ∷ xs) = elim (Bool-cases (lt roll (add total x.p))) [
    | inl hit ↦ inl (x, rw hit refl, ([], xs, refl, tt, hit))
    | inr past ↦ elim (select_entry-cases roll (add total x.p) xs) [
      | inl (e, found, (before, after, split, beyond, hit)) ↦
          inl (e, rw past found, (x ∷ before, after, ap (◌∷◌ x) split, (past, beyond), hit))
      | inr (missing, beyond) ↦ inr (rw past missing, (past, beyond))
    ]
  ]

  -- A request's roll selects the first entry whose percentage, added to those before it, is above the
  -- roll; where there is none, the rule answers as it is. One draw is used.
  pub resolve_chaos-cases :
      (entries : List ChaosEntry) (rng : Rng)
      → let roll = mul (rng.draw rng.place) (of_u64 100) in
        let (res, rng') = resolve_chaos ops entries rng in
        (((e : ChaosEntry) × (res ≡ overriding e.reply e.serve) × IsHit roll (of_u64 0) entries e)
          ⊎ ((res ≡ normal) × IsBeyond roll (of_u64 0) entries))
        × (rng'.place ≡ rng.place + 1)
  unfolding resolve_chaos next_f64
  resolve_chaos-cases entries rng =
      (select_entry-cases (mul (rng.draw rng.place) (of_u64 100)) (of_u64 0) entries, refl)

  module _ (json : SerdeJson) (yttp : Yttp) where
    -- No percentage compares as below 0 or above 100, no sum on the way compares as above 100, and each
    -- entry overrides the reply or the delivery.
    abbrev pub IsAccepted : F64 → List ChaosEntry → Type 0
    IsAccepted total [] = Unit
    IsAccepted total (e ∷ es) =
        (lt e.p (of_u64 0) ≡ false)
        × (lt (of_u64 100) e.p ≡ false)
        × (lt (of_u64 100) (add total e.p) ≡ false)
        × (overrides_nothing e.reply e.serve ≡ false)
        × IsAccepted (add total e.p) es

    parse_percentage-range :
        (v : Value) (p : F64)
        → parse_percentage ops v ≡ ok p
        → (lt p (of_u64 0) ≡ false) × (lt (of_u64 100) p ≡ false)
    unfolding parse_percentage
    parse_percentage-range v p h = ground arith

    parse_overrides-entry :
        (obj : List (List ℕ × Value)) (p : F64) (e : ChaosEntry)
        → parse_overrides ops json yttp obj p ≡ ok e
        → (e.p ≡ p) × (overrides_nothing e.reply e.serve ≡ false)
    unfolding parse_overrides
    parse_overrides-entry obj p e h = ground arith

    parse_p-range :
        (obj : List (List ℕ × Value)) (p : F64)
        → parse_p ops json yttp obj ≡ ok p
        → (lt p (of_u64 0) ≡ false) × (lt (of_u64 100) p ≡ false)
    unfolding parse_p
    parse_p-range obj p h = elim (Option-cases (get (str "p") obj)) [
      | inl missing ↦ ground (arith, missing)
      | inr (v, found) ↦ parse_percentage-range v p (rw (found, parse_p) at h)
    ]

    parse_entries-IsAccepted :
        (total : F64) (vs : List Value) (es : List ChaosEntry)
        → parse_entries ops json yttp total vs ≡ ok es
        → IsAccepted total es
    unfolding parse_entries
    parse_entries-IsAccepted total [] es h = ground arith
    parse_entries-IsAccepted total (v ∷ vs) es h =
        let ih = λ (t : F64) (es' : List ChaosEntry). parse_entries-IsAccepted t vs es' in
        grind (arith, ih, parse_p-range, parse_overrides-entry)

    parse_entries-nonempty :
        (total : F64) (v : Value) (vs : List Value)
        → parse_entries ops json yttp total (v ∷ vs) ≢ ok []
    unfolding parse_entries
    parse_entries-nonempty total v vs h = grind arith

    parse_chaos_items-IsAccepted :
        (vs : List Value) (es : List ChaosEntry)
        → parse_chaos_items ops json yttp vs ≡ ok es
        → (es ≢ []) × IsAccepted (of_u64 0) es
    unfolding parse_chaos_items
    parse_chaos_items-IsAccepted [] es h = absurd (ground arith)
    parse_chaos_items-IsAccepted (v ∷ vs) es h = (
      λ e. parse_entries-nonempty (of_u64 0) v vs (h ∙ ap ok e),
      parse_entries-IsAccepted (of_u64 0) (v ∷ vs) es h,
    )

    -- The entries of an accepted `chaos` are not empty, and each overrides the reply or the delivery. By the
    -- comparison of `f64`, no percentage is less than 0, none is more than 100, and no sum of a first part
    -- of them is more than 100. This does not exclude a NaN, for which every comparison is false.
    pub parse_chaos-IsAccepted :
        (v : Value) (entries : List ChaosEntry)
        → parse_chaos ops json yttp v ≡ ok entries
        → (entries ≢ []) × IsAccepted (of_u64 0) entries
    unfolding parse_chaos
    parse_chaos-IsAccepted v entries h = elim (Option-cases (as_array v)) [
      | inl missing ↦ absurd (ground (arith, missing))
      | inr (vs, found) ↦ parse_chaos_items-IsAccepted vs entries (rw (found, parse_chaos) at h)
    ]
