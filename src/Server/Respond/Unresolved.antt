-- ===== src/Server/Respond/Unresolved.antt =====
-- src/server.rs: a chaos reply that reflects the request, from the arrival of the request on.
mod Tests
use mockinx.Common.{
  ℕ, ◌≡◌, refl, ap, ◌∙◌, false, Bool, Option, none, some, List, Option-cases, inl, inr,
}
use mockinx.Text.{Text}
use mockinx.Error.{Result, panicked, ok, ◌>>=◌}
use mockinx.Float.{FloatOps}
use mockinx.Units.{Rng}
use mockinx.Json.{SerdeJson}
use mockinx.Reply.{ReplySpec, ReflectField, reflect}
use mockinx.Reply.Body.{BodySources, generate_body}
use mockinx.Serve.Pace.{DeliverySpec}
use mockinx.Serve.Runtime.{SemaphoreApi}
use mockinx.Chaos.{ChaosEntry, overriding, resolve_chaos}
use mockinx.Rule.{Rule}
use mockinx.Store.{RuleEntry, match_request}
use mockinx.Server.{AppState, get_runtime}
use mockinx.Server.Reflect.{Request}
use mockinx.Server.Handle.{
  handle_request, resolve_and_deliver, chaos_override, shape, shaped, or_default,
}
use mockinx.Server.Respond.{HttpApi, build_delivery_response, respond, serve}
use mockinx.Server.Respond.Served.{handle_request-unlimited}

-- A rule without limits and a timeout, in which a roll has selected an override with this reply.
pub record IsOverridden (ops : FloatOps) (rule : Rule) (rng : Rng) (reply : ReplySpec)
    (d : Option DeliverySpec) (rng' : Rng) : Type 0 where
  pub entries : List ChaosEntry
  pub chaotic : rule.chaos ≡ some entries
  pub selected : resolve_chaos ops entries rng ≡ (overriding (some reply) d, rng')
  pub unlimited : rule.behavior.concurrency ≡ none
  pub unrated : rule.behavior.rate_limit ≡ none
  pub untimed : rule.behavior.timeout ≡ none

module _ (http : HttpApi) (src : BodySources) (ops : FloatOps) (json : SerdeJson)
    (from_utf8 : List ℕ → Option Text) (api : SemaphoreApi) where
  resolve_and_deliver-overridden :
      (state : AppState api) (e : RuleEntry) (req : Request) (uuid : Text) (permit : Bool)
      (rng rng' : Rng) (reply : ReplySpec) (d : Option DeliverySpec)
      → IsOverridden ops e.rule rng reply d rng'
      → resolve_and_deliver ops json from_utf8 api state e req uuid permit rng
        ≡ ok (shaped reply (or_default d e.rule.delivery) none permit, state, rng')
  unfolding resolve_and_deliver chaos_override shape
  resolve_and_deliver-overridden state e req uuid permit rng rng' reply d p =
      rw (p.chaotic, p.selected, p.untimed) refl

  -- A request panics when the rule that it is matched with has no limits and no timeout, and the roll of
  -- its chaos selects an override whose reply has a `reflect!` body: this reply is sent as it is.
  pub serve-reflecting_chaos :
      (state : AppState api) (e : RuleEntry) (req : Request) (bytes : List ℕ) (uuid : Text)
      (now at_drop at_hang : ℕ) (rng rng' : Rng) (reply : ReplySpec) (d : Option DeliverySpec)
      (fields : List ReflectField)
      → match_request state.store req.method req.path ≡ some e
      → IsOverridden ops e.rule rng reply d rng'
      → reply.body ≡ reflect fields
      → serve http src ops json from_utf8 api state req (some bytes) uuid now at_drop at_hang rng
        ≡ panicked
  unfolding serve respond build_delivery_response generate_body
  serve-reflecting_chaos state e req bytes uuid now at_drop at_hang rng rng' reply d fields found p
        reflects =
      let with_body = record req { body = bytes } in
      let handled =
        handle_request-unlimited http src ops json from_utf8 api state e with_body uuid now rng
          found p.unlimited p.unrated
        ∙ resolve_and_deliver-overridden state e with_body uuid false rng rng' reply d p in
      rw (handled, reflects) refl
