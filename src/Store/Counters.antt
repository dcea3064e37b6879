-- ===== src/Store/Counters.antt =====
-- src/store.rs: what the call counters of an entry count.
use mockinx.Common.{
  ℕ, ◌+◌, ◌%◌, ◌^◌, ◌<◌, ◌≡◌, ap, ◌∙◌, inl, inr, List, [], ◌∷◌, length, arith, if◌then◌else◌,
  Bool-cases,
}
use mockinx.Text.{Text, text_eq, text_eq_iff}
use mockinx.Json.{get}
use mockinx.Json.Laws.{get-insert}
use mockinx.Rule.{Rule}
use mockinx.Store.{RuleEntry, new_entry, next_call_for, or_zero}

-- An entry after calls of these connections.
unfoldable pub calls : RuleEntry → List Text → RuleEntry
calls entry [] = entry
calls entry (addr ∷ addrs) = calls (next_call_for entry addr).1 addrs

unfoldable pub occurrences : Text → List Text → ℕ
occurrences addr [] = 0
occurrences addr (a ∷ addrs) =
    if text_eq a addr then occurrences addr addrs + 1 else occurrences addr addrs

abbrev counter : RuleEntry → Text → ℕ
counter entry addr = or_zero (get addr entry.conn_counters)

counter-next_call_for :
    (entry : RuleEntry) (a addr : Text)
    → counter entry a + 1 < 2 ^ 64
    → counter (next_call_for entry a).1 addr
      ≡ (if text_eq a addr then counter entry a + 1 else counter entry addr)
unfolding next_call_for
counter-next_call_for entry a addr h =
    let next : (counter entry a + 1) % 2 ^ 64 ≡ counter entry a + 1 = omega arith in
    ap or_zero (get-insert a addr ((counter entry a + 1) % 2 ^ 64) entry.conn_counters)
    ∙ ground (arith, next)

counter-calls :
    (entry : RuleEntry) (addrs : List Text) (addr : Text)
    → ((a : Text) → counter entry a + length addrs < 2 ^ 64)
    → counter (calls entry addrs) addr ≡ counter entry addr + occurrences addr addrs
unfolding calls occurrences
counter-calls entry [] addr h = omega arith
counter-calls entry (a ∷ addrs) addr h =
    let ih = counter-calls (next_call_for entry a).1 addrs addr later in
    elim (Bool-cases (text_eq a addr)) [
      | inl same ↦
          let step : counter (next_call_for entry a).1 addr ≡ counter entry a + 1 =
            counter-next_call_for entry a addr (bound a) ∙ ground (arith, same) in
          let agree = ap (counter entry) ((text_eq_iff a addr).0 same) in
          ih ∙ ground (arith, step, agree)
      | inr other ↦
          let step : counter (next_call_for entry a).1 addr ≡ counter entry addr =
            counter-next_call_for entry a addr (bound a) ∙ ground (arith, other) in
          ih ∙ ground (arith, step)
    ]
  where
    bound : (b : Text) → counter entry b + 1 < 2 ^ 64
    bound b = omega (arith, h b)

    later : (b : Text) → counter (next_call_for entry a).1 b + length addrs < 2 ^ 64
    later b = ground (arith, h a, h b, counter-next_call_for entry a b (bound a))

pub next_call_for-counts :
    (rule : Rule) (index : ℕ) (addrs : List Text) (addr : Text)
    → length addrs < 2 ^ 64
    → (next_call_for (calls (new_entry rule index) addrs) addr).0 ≡ occurrences addr addrs
unfolding next_call_for new_entry get
next_call_for-counts rule index addrs addr h =
    counter-calls (new_entry rule index) addrs addr (λ a. omega (arith, h)) ∙ omega arith
