-- ===== src/Rule/WellFormed.antt =====
-- src/rule.rs: what holds of every rule that is accepted.
use mockinx.Common.{
  ℕ, ◌<◌, ◌^◌, ◌≡◌, ◌≢◌, inl, inr, true, Option, none, some, List, [], ◌∷◌, length, arith,
  Option-cases,
}
use mockinx.Text.{Text, str, starts_with}
use mockinx.Error.{ParseError, map_err, Result, ok, err, panicked}
use mockinx.Float.{FloatOps}
use mockinx.Json.{Value, SerdeJson, Map, get, as_object}
use mockinx.Yttp.{Yttp}
use mockinx.MatchRule.{
  MatchRule, catch_all, method_path, parse_match_rule, parse_match_object, parse_entry, with_slash,
}
use mockinx.Reply.{parse_each}
use mockinx.Reply.Strategy.{
  ReplyStrategy, static, sequence, crud, parse_sequence, parse_reply_strategy,
}
use mockinx.Serve.Behavior.{
  ConcurrencySpec, RateLimitSpec, BehaviorSpec, parse_conn_value, parse_conn, parse_rps_value,
  parse_rps, parse_behavior, default_behavior,
}
use mockinx.Serve.Pace.{DeliverySpec}
use mockinx.Serve.Parse.{parse_serve}
use mockinx.Chaos.{ChaosEntry}
use mockinx.Chaos.Selection.{IsAccepted, parse_chaos-IsAccepted}
use mockinx.Rule.{Rule, parse_rule, served, overridden}

abbrev pub HasSlash : MatchRule → Type 0
HasSlash catch_all = Unit
HasSlash (method_path method path) = starts_with path (str "/") ≡ true

abbrev pub HasReplies : ReplyStrategy → Type 0
HasReplies (sequence replies) = 0 < length replies
HasReplies (static r) = Unit
HasReplies (crud spec headers) = Unit

abbrev IsBelow : ℕ → Option ConcurrencySpec → Type 0
IsBelow limit none = Unit
IsBelow limit (some c) = c.max < limit

abbrev IsBelowRps : ℕ → Option RateLimitSpec → Type 0
IsBelowRps limit none = Unit
IsBelowRps limit (some rl) = rl.rps < limit

abbrev pub FitsU32 : BehaviorSpec → Type 0
FitsU32 spec = IsBelow (2 ^ 32) spec.concurrency × IsBelowRps (2 ^ 32) spec.rate_limit

pub map_err-eq-ok {ℓ} :
    {A : Type ℓ} (f : ParseError → ParseError) (m : Result A) {a : A}
    → map_err f m ≡ ok a
    → m ≡ ok a
map_err-eq-ok f (ok b) h = h
map_err-eq-ok f (err e) h = cc
map_err-eq-ok f panicked h = cc

module _ (ops : FloatOps) (json : SerdeJson) (yttp : Yttp) where
  starts_with-with_slash : (path : Text) → starts_with (with_slash json yttp path) (str "/") ≡ true
  unfolding starts_with str
  starts_with-with_slash path = ground arith

  parse_entry-HasSlash :
      (key : Text) (val : Value) (rule : MatchRule)
      → parse_entry json yttp key val ≡ ok rule
      → HasSlash rule
  unfolding parse_entry
  parse_entry-HasSlash key val rule h = grind (arith, starts_with-with_slash)

  parse_match_object-HasSlash :
      (obj : Map) (rule : MatchRule) → parse_match_object json yttp obj ≡ ok rule → HasSlash rule
  unfolding parse_match_object
  parse_match_object-HasSlash [] rule h = absurd (ground arith)
  parse_match_object-HasSlash ((key, val) ∷ []) rule h = parse_entry-HasSlash key val rule h
  parse_match_object-HasSlash ((key, val) ∷ e ∷ rest) rule h = absurd (ground arith)

  parse_match_rule-HasSlash :
      (v : Value) (rule : MatchRule) → parse_match_rule json yttp v ≡ ok rule → HasSlash rule
  unfolding parse_match_rule
  parse_match_rule-HasSlash v rule h = grind (arith, parse_match_object-HasSlash)

  parse_sequence-HasReplies :
      (vs : List Value) (base_dir : Option Text) (reply : ReplyStrategy)
      → parse_sequence ops json yttp vs base_dir ≡ ok reply
      → HasReplies reply
  unfolding parse_sequence parse_each
  parse_sequence-HasReplies [] base_dir reply h = absurd (ground arith)
  parse_sequence-HasReplies (v ∷ vs) base_dir reply h = grind arith

  parse_reply_strategy-HasReplies :
      (v : Value) (base_dir : Option Text) (reply : ReplyStrategy)
      → parse_reply_strategy ops json yttp v base_dir ≡ ok reply
      → HasReplies reply
  unfolding parse_reply_strategy
  parse_reply_strategy-HasReplies v base_dir reply h = grind (arith, parse_sequence-HasReplies)

  parse_conn-IsBelow :
      (obj : Map) (c : Option ConcurrencySpec)
      → parse_conn ops json yttp obj ≡ ok c
      → IsBelow (2 ^ 32) c
  unfolding parse_conn parse_conn_value
  parse_conn-IsBelow obj c h = grind arith

  parse_rps-IsBelowRps :
      (obj : Map) (rl : Option RateLimitSpec)
      → parse_rps ops json yttp obj ≡ ok rl
      → IsBelowRps (2 ^ 32) rl
  unfolding parse_rps parse_rps_value
  parse_rps-IsBelowRps obj rl h = grind arith

  parse_behavior-FitsU32 :
      (v : Value) (spec : BehaviorSpec) → parse_behavior ops json yttp v ≡ ok spec → FitsU32 spec
  unfolding parse_behavior
  parse_behavior-FitsU32 v spec h = grind (arith, parse_conn-IsBelow, parse_rps-IsBelowRps)

  parse_serve-FitsU32 :
      (v : Value) (d : DeliverySpec) (b : BehaviorSpec)
      → parse_serve ops json yttp v ≡ ok (d, b)
      → FitsU32 b
  unfolding parse_serve
  parse_serve-FitsU32 v d b h = grind (arith, parse_behavior-FitsU32)

  abbrev pub HasChaos : Option (List ChaosEntry) → Type 0
  HasChaos none = Unit
  HasChaos (some entries) = (entries ≢ []) × IsAccepted ops json yttp (ops.of_u64 0) entries

  -- What the fields of an accepted rule have in common.
  pub record IsWellFormed (rule : Rule) : Type 0 where
    pub slash : HasSlash rule.match_rule
    pub replies : HasReplies rule.reply
    pub limits : FitsU32 rule.behavior
    pub chaos : HasChaos rule.chaos

  served-FitsU32 :
      (v : Option Value) (p : DeliverySpec × BehaviorSpec)
      → served ops json yttp v ≡ ok p
      → FitsU32 p.1
  unfolding default_behavior
  served-FitsU32 none p h = ground arith
  served-FitsU32 (some v) p h =
      parse_serve-FitsU32 v p.0 p.1 (map_err-eq-ok _ (parse_serve ops json yttp v) h)

  overridden-HasChaos :
      (v : Option Value) (c : Option (List ChaosEntry))
      → overridden ops json yttp v ≡ ok c
      → HasChaos c
  unfolding overridden
  overridden-HasChaos none c h = ground arith
  overridden-HasChaos (some v) none h = tt
  overridden-HasChaos (some v) (some entries) h =
      parse_chaos-IsAccepted ops json yttp v entries (grind arith)

  parse_rule-chaos :
      (v : Value) (base_dir : Option Text) (rule : Rule)
      → parse_rule ops json yttp v base_dir ≡ ok rule
      → (obj : Map) × (overridden ops json yttp (get (str "chaos") obj) ≡ ok rule.chaos)
  unfolding parse_rule
  parse_rule-chaos v base_dir rule h = elim (Option-cases (as_object v)) [
    | inl missing ↦ absurd (ground (arith, missing))
    | inr (obj, found) ↦ (obj, grind (arith, found))
  ]

  -- A rule that is accepted has a path that starts with a slash, if it has a path; a sequence of replies
  -- that is not empty, if it has a sequence; limits on connections and on requests a second that fit
  -- `u32`; and chaos entries, if any, that are not empty and override something each, where by the
  -- comparison of `f64` no percentage is less than 0 or more than 100 and no sum on the way is more
  -- than 100. This does not exclude a NaN, for which every comparison is false.
  pub parse_rule-IsWellFormed :
      (v : Value) (base_dir : Option Text) (rule : Rule)
      → parse_rule ops json yttp v base_dir ≡ ok rule
      → IsWellFormed rule
  unfolding parse_rule
  parse_rule-IsWellFormed v base_dir rule h = record {
    slash = grind (arith, parse_match_rule-HasSlash);
    replies = grind (arith, parse_reply_strategy-HasReplies);
    limits = grind (arith, served-FitsU32);
    chaos =
        let (obj, c) = parse_rule-chaos v base_dir rule h in
        overridden-HasChaos (get (str "chaos") obj) rule.chaos c;
  }
