-- ===== src/Serve/Behavior.antt =====
-- src/serve/behavior_types.rs: policies of an endpoint, and their parsers.
use mockinx.Common.{ℕ, ◌%◌, ◌^◌, Option, none, some, List, [], ◌++◌, if◌then◌else◌, ◌==◌}
use mockinx.Text.{Text, str, text_eq}
use mockinx.Error.{Result, ok, fail, reject, or_fail, ◌>>=◌, ◌>>◌}
use mockinx.Float.{FloatOps}
use mockinx.Units.{Duration, Range}
use mockinx.Units.Parse.{parse_duration_range}
use mockinx.Json.{Value, string, array, SerdeJson, Map, as_object, items, get, contains_key}
use mockinx.Yttp.{Yttp}
use mockinx.Reply.{ReplySpec, parse_reply, get_str, get_u64}

pub data OverflowAction : Type 0 where
  reply : ReplySpec → OverflowAction
  block : OverflowAction
  block_with_timeout : (timeout : Range Duration) → (then_reply : ReplySpec) → OverflowAction

pub record ConcurrencySpec : Type 0 where
  pub max : ℕ
  pub over : OverflowAction

pub record RateLimitSpec : Type 0 where
  pub rps : ℕ
  pub over : ReplySpec

pub record CrudIdSpec : Type 0 where
  pub name : Text
  pub new : Text

unfoldable pub default_id : CrudIdSpec
default_id = record { name = str "id"; new = str "inc" }

pub record CrudSpec : Type 0 where
  pub id : CrudIdSpec
  pub seed_data : List Value

pub record BehaviorSpec : Type 0 where
  pub concurrency : Option ConcurrencySpec
  pub rate_limit : Option RateLimitSpec
  pub timeout : Option (Range Duration)

unfoldable pub default_behavior : BehaviorSpec
default_behavior = record { concurrency = none; rate_limit = none; timeout = none }

-- `n as u32`
abbrev pub as_u32 : ℕ → ℕ
as_u32 n = n % 2 ^ 32

module _ (ops : FloatOps) (json : SerdeJson) (yttp : Yttp) where
  -- `{block: …, then: …}`
  unfoldable pub parse_block : Map → Result OverflowAction
  parse_block over_obj = do
    block_str ← or_fail (get_str (str "block") over_obj) (str "block timeout must be a string")
    timeout ← parse_duration_range ops block_str
    then_val ← or_fail (get (str "then") over_obj) (str "block requires 'then' reply")
    then_reply ← parse_reply ops json yttp then_val none
    ok (block_with_timeout timeout then_reply)

  unfoldable pub parse_overflow_value : Value → Result OverflowAction
  unfolding parse_block
  parse_overflow_value (string s) =
      if text_eq s (str "block")
      then ok block
      else fail (str "concurrency.over string must be 'block', got '" ++ s ++ str "'")
  parse_overflow_value over_val = do
    over_obj ← or_fail (as_object over_val) (str "concurrency.over must be a string or object")
    let answered = parse_reply ops json yttp over_val none >>= λ r. ok (reply r)
    if contains_key (str "block") over_obj then parse_block over_obj else answered

  unfoldable pub parse_overflow_action : Map → Result OverflowAction
  unfolding parse_overflow_value
  parse_overflow_action obj =
      or_fail (get (str "over") obj) (str "concurrency requires 'over' field")
      >>= parse_overflow_value

  unfoldable pub parse_conn_value : Value → Result ConcurrencySpec
  unfolding parse_overflow_action
  parse_conn_value val = do
    c_obj ← or_fail (as_object val) (str "conn must be an object")
    max ← or_fail (get_u64 (str "max") c_obj) (str "conn requires 'max' as a positive integer")
    reject (max == 0) (str "conn max must be > 0")
    over ← parse_overflow_action c_obj
    ok (record { max = as_u32 max; over = over })

  unfoldable pub parse_conn : Map → Result (Option ConcurrencySpec)
  unfolding parse_conn_value
  parse_conn obj = elim (get (str "conn") obj) [
    | none ↦ ok none
    | some val ↦ parse_conn_value val >>= λ c. ok (some c)
  ]

  unfoldable pub parse_rps_value : Value → Result RateLimitSpec
  parse_rps_value val = do
    rl_obj ← or_fail (as_object val) (str "rps must be an object")
    max ← or_fail (get_u64 (str "max") rl_obj) (str "rps requires 'max' as a positive integer")
    over_val ← or_fail (get (str "over") rl_obj) (str "rps requires 'over' reply")
    over ← parse_reply ops json yttp over_val none
    ok (record { rps = as_u32 max; over = over })

  unfoldable pub parse_rps : Map → Result (Option RateLimitSpec)
  unfolding parse_rps_value
  parse_rps obj = elim (get (str "rps") obj) [
    | none ↦ ok none
    | some val ↦ parse_rps_value val >>= λ r. ok (some r)
  ]

  unfoldable pub parse_timeout : Map → Result (Option (Range Duration))
  parse_timeout obj = elim (get (str "timeout") obj) [
    | none ↦ ok none
    | some (string s) ↦ parse_duration_range ops s >>= λ r. ok (some r)
    | some v ↦ fail (str "timeout must be a string, got " ++ json.to_string v)
  ]

  unfoldable pub parse_behavior : Value → Result BehaviorSpec
  unfolding parse_conn parse_rps parse_timeout
  parse_behavior v = do
    obj ← or_fail (as_object v) (str "behavior must be an object")
    concurrency ← parse_conn obj
    rate_limit ← parse_rps obj
    timeout ← parse_timeout obj
    ok (record { concurrency = concurrency; rate_limit = rate_limit; timeout = timeout })

abbrev or_text : Option Text → Text → Text
or_text none d = d
or_text (some s) d = s

unfoldable pub parse_crud_id : Value → Result CrudIdSpec
parse_crud_id id_val = do
  id_obj ← or_fail (as_object id_val) (str "crud.id must be an object")
  ok (record {
    name = or_text (get_str (str "name") id_obj) (str "id");
    new = or_text (get_str (str "new") id_obj) (str "inc");
  })

module _ (json : SerdeJson) where
  unfoldable pub parse_crud_data : Map → Result (List Value)
  parse_crud_data crud_obj = elim (get (str "data") crud_obj) [
    | none ↦ ok []
    | some (array vs) ↦ ok (items vs)
    | some v ↦ fail (str "crud.data must be an array, got " ++ json.to_string v)
  ]

  unfoldable pub parse_crud_spec : Map → Result CrudSpec
  unfolding parse_crud_id parse_crud_data
  parse_crud_spec crud_obj = do
    id ← elim (get (str "id") crud_obj) [
      | none ↦ ok default_id
      | some id_val ↦ parse_crud_id id_val
    ]
    seed_data ← parse_crud_data crud_obj
    ok (record { id = id; seed_data = seed_data })
