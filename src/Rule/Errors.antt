-- ===== src/Rule/Errors.antt =====
-- src/rule.rs: which error an array of rules, or a rule with an unknown key, is rejected with.
use mockinx.Common.{
  ℕ, ◌+◌, ◌≡◌, ◌↔◌, refl, sym, ap, ◌∙◌, ◌⊎◌, inl, inr, Option, List, [], ◌∷◌, ◌++◌, length, arith,
  All,
}
use mockinx.Text.{Text, str}
use mockinx.Error.{ParseError, Result, ok, err, panicked, map_err, in_index, ◌>>=◌}
use mockinx.Float.{FloatOps}
use mockinx.Json.{Value, Items, array, SerdeJson, items}
use mockinx.Yttp.{Yttp}
use mockinx.Rule.WellFormed.{map_err-eq-ok}
use mockinx.Rule.{Rule, decimal, parse_rule, parse_rules_from, parse_rules}

map_err-eq-err :
    (f : ParseError → ParseError) (m : Result Rule) (e : ParseError)
    → map_err f m ≡ err e
    → (cause : ParseError) × (m ≡ err cause) × (e ≡ f cause)
map_err-eq-err f (ok b) e h = cc h
map_err-eq-err f (err cause) e h = (cause, refl, ground arith)
map_err-eq-err f panicked e h = cc h

module _ (ops : FloatOps) (json : SerdeJson) (yttp : Yttp) (base_dir : Option Text) where
  first_or_rest :
      (first : Result Rule) (rest : Result (List Rule)) (e : ParseError)
      → (first >>= λ rule. rest >>= λ rules. ok (rule ∷ rules)) ≡ err e
      → (first ≡ err e) ⊎ (((rule : Rule) × (first ≡ ok rule)) × (rest ≡ err e))
  first_or_rest (ok rule) (ok rules) e h = cc h
  first_or_rest (ok rule) (err e') e h = inr ((rule, refl), ground arith)
  first_or_rest (ok rule) panicked e h = cc h
  first_or_rest (err e') rest e h = inl (ground arith)
  first_or_rest panicked rest e h = cc h

  abbrev located_at : ParseError → ℕ → ParseError
  located_at cause n = in_index (decimal ops json yttp) (str "rule") n cause

  abbrev IsRule : Value → Type 0
  IsRule item = (rule : Rule) × (parse_rule ops json yttp item base_dir ≡ ok rule)

  -- The error `e` is that of the first item that is no rule, under its place counted from `i`.
  pub record IsFirstError (i : ℕ) (vs : List Value) (e : ParseError) : Type 0 where
    pub before : List Value
    pub item : Value
    pub after : List Value
    pub cause : ParseError
    pub split : vs ≡ before ++ item ∷ after
    pub rules : All IsRule before
    pub rejected : parse_rule ops json yttp item base_dir ≡ err cause
    pub located : e ≡ located_at cause (i + length before)

  parse_rules_from-IsFirstError :
      (i : ℕ) (vs : List Value) (e : ParseError)
      → parse_rules_from ops json yttp i vs base_dir ≡ err e
      → IsFirstError i vs e
  unfolding parse_rules_from
  parse_rules_from-IsFirstError i [] e h = cc h
  parse_rules_from-IsFirstError i (v ∷ vs) e h =
      let at_place = in_index (decimal ops json yttp) (str "rule") i in
      elim (first_or_rest (map_err at_place (parse_rule ops json yttp v base_dir)) _ e h) [
        | inl here ↦
            let (cause, rejected, same) = map_err-eq-err at_place _ e here in
            record {
              before = [];
              item = v;
              after = vs;
              cause = cause;
              split = refl;
              rules = tt;
              rejected = rejected;
              located = same ∙ ap (located_at cause) (omega arith);
            }
        | inr ((rule, parsed), later) ↦
            let accepted = map_err-eq-ok at_place _ parsed in
            let first = parse_rules_from-IsFirstError (i + 1) vs e later in
            record {
              before = v ∷ first.before;
              item = first.item;
              after = first.after;
              cause = first.cause;
              split = ap (◌∷◌ v) first.split;
              rules = ((rule, accepted), first.rules);
              rejected = first.rejected;
              located = first.located ∙ ap (located_at first.cause) (omega arith);
            }
      ]

  IsFirstError-parse_rules_from :
      (i : ℕ) (before : List Value) (item : Value) (after : List Value) (cause : ParseError)
      → All IsRule before
      → parse_rule ops json yttp item base_dir ≡ err cause
      → parse_rules_from ops json yttp i (before ++ item ∷ after) base_dir
        ≡ err (located_at cause (i + length before))
  unfolding parse_rules_from
  IsFirstError-parse_rules_from i [] item after cause ok_before rejected =
      rw rejected (ap (λ n. err (located_at cause n)) (omega arith))
  IsFirstError-parse_rules_from i (v ∷ before) item after cause ((rule, parsed), rest) rejected =
      rw (parsed, IsFirstError-parse_rules_from (i + 1) before item after cause rest rejected)
        (ap (λ n. err (located_at cause n)) (omega arith))

  -- An array of rules is rejected with an error exactly if some item is rejected with an error and all
  -- before it are rules; the error is that of this first item, under the path segment `rule[n]` with its
  -- place `n` from 0.
  pub parse_rules_iff :
      (vs : Items) (e : ParseError)
      → parse_rules ops json yttp (array vs) base_dir ≡ err e ↔ IsFirstError 0 (items vs) e
  unfolding parse_rules
  parse_rules_iff vs e = (
    parse_rules_from-IsFirstError 0 (items vs) e,
    λ first.
        ap (λ l. parse_rules_from ops json yttp 0 l base_dir) first.split
        ∙ IsFirstError-parse_rules_from 0 first.before first.item first.after first.cause
            first.rules first.rejected
        ∙ ap err (sym first.located),
  )
