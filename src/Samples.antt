-- ===== src/Samples.antt =====
-- Concrete instances of the program's dependencies, for the tests: decimal fixed-point numbers in place
-- of `f64`, a printer of numbers and strings, and a counting semaphore.
use mockinx.Common.{
  ℕ, zero, suc, ◌+◌, ◌-◌, ◌*◌, ◌/◌, Bool, Option, none, some, List, [], ◌∷◌, ltb, ◌==◌,
  if◌then◌else◌,
}
use mockinx.Text.{Text, str, text_eq}
use mockinx.Decimal.{decimal, parse_u64}
use mockinx.Float.{F64, FloatOps}
use mockinx.Units.{Rng}
use mockinx.Json.{Value, null, number, string, pos_int, json_object, SerdeJson}
use mockinx.Yttp.{Yttp}
use mockinx.MatchRule.{MatchRule}
use mockinx.Reply.{ReplySpec, no_body}
use mockinx.Reply.Strategy.{ReplyStrategy}
use mockinx.Serve.Behavior.{BehaviorSpec, CrudSpec}
use mockinx.Serve.Runtime.{SemaphoreApi}
use mockinx.Rule.{Rule}
use mockinx.Server.Reflect.{Request}

-- A number in thousandths.
abbrev lift2 : (ℕ → ℕ → ℕ) → F64 → F64 → F64
lift2 f (F64.bits a) (F64.bits b) = F64.bits (f a b)

abbrev test2 : (ℕ → ℕ → Bool) → F64 → F64 → Bool
test2 f (F64.bits a) (F64.bits b) = f a b

abbrev thousandths : F64 → ℕ
thousandths (F64.bits a) = a

abbrev whole : Option ℕ → Option F64
whole none = none
whole (some n) = some (F64.bits (n * 1000))

abbrev pub fixed_point : FloatOps
fixed_point = record {
  add = lift2 (λ a b. a + b);
  sub = lift2 (λ a b. a - b);
  mul = lift2 (λ a b. a * b / 1000);
  div = lift2 (λ a b. a * 1000 / b);
  abs = λ a. a;
  lt = test2 ltb;
  eq = test2 (λ a b. a == b);
  of_u64 = λ n. F64.bits (n * 1000);
  to_u64 = λ a. thousandths a / 1000;
  parse = λ s. whole (parse_u64 s);
  display = λ a. decimal (thousandths a / 1000);
  from_secs = λ a. some (thousandths a * 1_000_000);
  as_secs = λ n. F64.bits (n / 1_000_000);
}

abbrev print : Value → Text
print (number (pos_int n)) = decimal n
print (string s) = s
print v = []

abbrev pub printer : SerdeJson
printer = record { to_string = print; from_slice = λ bytes. some (string bytes) }

abbrev pub shortcuts : Yttp
shortcuts = record {
  resolve_method = λ key. if text_eq key (str "g") then some (str "GET") else none;
  expand_headers = λ headers. headers;
}

abbrev taken : ℕ → Option ℕ
taken zero = none
taken (suc n) = some n

abbrev pub counting : SemaphoreApi
counting = record { Semaphore = ℕ; new = λ n. n; acquire_now = taken; release = λ n. suc n }

-- Every draw is 0.25.
abbrev pub quarter_draws : Rng
quarter_draws = record { draw = λ n. F64.bits 250; place = 0 }

abbrev pub empty_reply : ReplySpec
empty_reply = record { status = 200; headers = []; body = no_body }

abbrev pub users : CrudSpec
users = record {
  id = record { name = str "id"; new = str "inc" };
  seed_data =
      json_object ((str "id", number (pos_int 7)) ∷ (str "name", string (str "Ada")) ∷ []) ∷ [];
}

abbrev pub unlimited : BehaviorSpec
unlimited = record { concurrency = none; rate_limit = none; timeout = none }

abbrev pub rule_at : Text → ReplyStrategy → Rule
rule_at path reply = record {
  match_rule = MatchRule.method_path none path;
  reply = reply;
  delivery = record { pace = none; drop = none; hang = none; first_byte = none };
  behavior = unlimited;
  chaos = none;
  source = null;
}

abbrev pub no_text : List ℕ → Option Text
no_text bytes = none

abbrev pub get_root : Request
get_root = record {
  method = str "GET";
  path = str "/";
  query = [];
  headers = [];
  body = [];
  peer_addr = none;
}
