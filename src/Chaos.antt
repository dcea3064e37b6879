-- ===== src/Chaos.antt =====
-- src/chaos.rs: probabilistic overrides of a rule's reply and delivery.
pub mod Selection
mod Tests
use mockinx.Common.{ℕ, Bool, true, false, Option, none, some, List, [], ◌∷◌, ◌++◌, if◌then◌else◌}
use mockinx.Text.{Text, str, trim, strip_suffix}
use mockinx.Error.{Result, ok, fail, reject, or_fail, ◌>>=◌, ◌>>◌}
use mockinx.Float.{F64, FloatOps}
use mockinx.Units.{Rng, next_f64}
use mockinx.Json.{Value, SerdeJson, Map, as_str, as_object, as_array, get}
use mockinx.Yttp.{Yttp}
use mockinx.Reply.{ReplySpec, parse_reply}
use mockinx.Serve.Pace.{DeliverySpec, is_default, parse_delivery_fields}

pub record ChaosEntry : Type 0 where
  pub p : F64
  pub reply : Option ReplySpec
  pub serve : Option DeliverySpec

pub data ChaosResult : Type 0 where
  normal : ChaosResult
  overriding : (reply : Option ReplySpec) → (serve : Option DeliverySpec) → ChaosResult

abbrev overrides_nothing : Option ReplySpec → Option DeliverySpec → Bool
overrides_nothing none none = true
overrides_nothing _ _ = false

module _ (ops : FloatOps) where
  open ops use {add, mul, lt, of_u64}

  unfoldable pub parse_percentage : Value → Result F64
  parse_percentage v = do
    given ← or_fail (as_str v) (str "p must be a string like \"7%\"")
    let s = trim given
    num_str ← or_fail (strip_suffix s (str "%")) (str "p must end with %, got '" ++ s ++ str "'")
    p ← or_fail (ops.parse (trim num_str)) (str "invalid number in p: '" ++ s ++ str "'")
    reject (lt p (of_u64 0)) (str "p cannot be negative: '" ++ s ++ str "'")
    reject (lt (of_u64 100) p) (str "p cannot exceed 100%: '" ++ s ++ str "'")
    ok p

  -- An absent `serve`, or one that shapes nothing, is no override.
  unfoldable pub parse_chaos_serve : Map → Result (Option DeliverySpec)
  parse_chaos_serve obj = elim (get (str "serve") obj) [
    | none ↦ ok none
    | some v ↦ do
      serve_obj ← or_fail (as_object v) (str "chaos serve must be an object")
      spec ← parse_delivery_fields ops serve_obj
      ok (if is_default spec then none else some spec)
  ]

  -- The loop of `resolve_chaos`.
  unfoldable pub select_entry : F64 → F64 → List ChaosEntry → ChaosResult
  select_entry roll cumulative [] = normal
  select_entry roll cumulative (entry ∷ rest) =
      let total = add cumulative entry.p in
      let later = select_entry roll total rest in
      if lt roll total then overriding entry.reply entry.serve else later

  unfoldable pub resolve_chaos : List ChaosEntry → Rng → ChaosResult × Rng
  unfolding select_entry next_f64
  resolve_chaos entries rng =
      let (t, rng') = next_f64 rng in (select_entry (mul t (of_u64 100)) (of_u64 0) entries, rng')

module _ (ops : FloatOps) (json : SerdeJson) (yttp : Yttp) where
  open ops use {add, lt, of_u64}

  unfoldable pub parse_chaos_reply : Map → Result (Option ReplySpec)
  parse_chaos_reply obj = elim (get (str "reply") obj) [
    | none ↦ ok none
    | some v ↦ parse_reply ops json yttp v none >>= λ r. ok (some r)
  ]

  -- The body of the loop behind the sum's check.
  unfoldable pub parse_overrides : Map → F64 → Result ChaosEntry
  unfolding parse_chaos_reply parse_chaos_serve
  parse_overrides obj p = do
    reply ← parse_chaos_reply obj
    serve ← parse_chaos_serve ops obj
    reject (overrides_nothing reply serve) (str "chaos entry must have 'reply' and/or 'serve'")
    ok (record { p = p; reply = reply; serve = serve })

  unfoldable pub parse_p : Map → Result F64
  unfolding parse_percentage
  parse_p obj =
      or_fail (get (str "p") obj) (str "chaos entry requires 'p'") >>= parse_percentage ops

  unfoldable pub parse_entries : F64 → List Value → Result (List ChaosEntry)
  unfolding parse_overrides parse_p
  parse_entries total [] = ok []
  parse_entries total (item ∷ rest) = do
    obj ← or_fail (as_object item) (str "chaos entry must be an object")
    p ← parse_p obj
    let total_p = add total p
    reject (lt (of_u64 100) total_p)
        (str "chaos percentages sum to " ++ ops.display total_p ++ str "%, cannot exceed 100%")
    entry ← parse_overrides obj p
    entries ← parse_entries total_p rest
    ok (entry ∷ entries)

  unfoldable pub parse_chaos_items : List Value → Result (List ChaosEntry)
  unfolding parse_entries
  parse_chaos_items [] = fail (str "chaos array cannot be empty")
  parse_chaos_items (item ∷ rest) = parse_entries (of_u64 0) (item ∷ rest)

  unfoldable pub parse_chaos : Value → Result (List ChaosEntry)
  unfolding parse_chaos_items
  parse_chaos v = or_fail (as_array v) (str "chaos must be an array") >>= parse_chaos_items
