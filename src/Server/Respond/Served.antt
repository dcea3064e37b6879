-- ===== src/Server/Respond/Served.antt =====
-- src/server.rs: a request to a rule with one fixed reply and no limits, from its arrival to its response.
use mockinx.Common.{
  ℕ, zero, suc, ◌≡◌, ◌∙◌, refl, ap, true, false, Option, none, some, List, [], ◌∷◌, set, get_elem?,
  Option-cases, inl, inr, arith,
}
use mockinx.Text.{Text}
use mockinx.Error.{ok}
use mockinx.Float.{FloatOps}
use mockinx.Units.{Rng}
use mockinx.Json.{SerdeJson}
use mockinx.Reply.{ReplySpec}
use mockinx.Reply.Body.{BodySources}
use mockinx.Reply.Strategy.{static}
use mockinx.Serve.Pace.{is_default}
use mockinx.Serve.Runtime.{SemaphoreApi, BehaviorRuntime, check, check_rate, after_rate, proceed}
use mockinx.Serve.Limiter.{RateLimiter}
use mockinx.Serve.Behavior.{BehaviorSpec}
use mockinx.Rule.{Rule}
use mockinx.Store.{RuleEntry, match_request}
use mockinx.Server.{AppState, get_runtime}
use mockinx.Server.Reflect.{Request, resolve_reflect}
use mockinx.Server.Handle.{
  handle_request, resolve_and_deliver, resolve_reply, chaos_override, shape, shaped,
}
use mockinx.Server.Respond.{
  HttpApi, Response, build_reply_response, build_delivery_response, respond, serve,
}
use mockinx.Server.Respond.Reflected.{IsRepeatable, resolve_reflect-Generates, sends}

-- A rule with one reply and nothing else to it.
pub record IsPlainRule (rule : Rule) (r : ReplySpec) : Type 0 where
  pub replies : rule.reply ≡ static r
  pub calm : rule.chaos ≡ none
  pub unshaped : is_default rule.delivery ≡ true
  pub unlimited : rule.behavior.concurrency ≡ none
  pub unrated : rule.behavior.rate_limit ≡ none
  pub untimed : rule.behavior.timeout ≡ none

set-get_elem? {ℓ} :
    {A : Type ℓ} (xs : List A) (i : ℕ) (x : A) → get_elem? xs i ≡ some x → set xs i x ≡ xs
set-get_elem? [] i x e = refl
set-get_elem? (y ∷ xs) zero x e = let same : x ≡ y = ground arith in ap (λ a. a ∷ xs) same
set-get_elem? (y ∷ xs) (suc i) x e = ap (◌∷◌ y) (set-get_elem? xs i x e)

module _ (http : HttpApi) (src : BodySources) (ops : FloatOps) (json : SerdeJson)
    (from_utf8 : List ℕ → Option Text) (api : SemaphoreApi) where
  check_rate-none :
      (limiter : Option RateLimiter) (now : ℕ) → check_rate api limiter none now ≡ (limiter, none)
  unfolding check_rate
  check_rate-none none now = refl
  check_rate-none (some l) now = refl

  after_rate-none :
      (sem : Option api.Semaphore) (limiter : Option RateLimiter) (rng : Rng)
      → after_rate api ops sem none rng limiter none
        ≡ (ok (proceed false), record { semaphore = sem; rate_limiter = limiter }, rng)
  after_rate-none none limiter rng = refl
  after_rate-none (some s) limiter rng = refl

  check-unlimited :
      (runtime : BehaviorRuntime api) (spec : BehaviorSpec) (now : ℕ) (rng : Rng)
      → spec.concurrency ≡ none
      → spec.rate_limit ≡ none
      → check api ops runtime spec now rng ≡ (ok (proceed false), runtime, rng)
  unfolding check
  check-unlimited runtime spec now rng c r =
      rw (c, r, check_rate-none runtime.rate_limiter now)
        (after_rate-none runtime.semaphore runtime.rate_limiter rng)

  resolve_and_deliver-plain :
      (state : AppState api) (e : RuleEntry) (r : ReplySpec) (req : Request) (uuid : Text)
      (rng : Rng)
      → IsPlainRule e.rule r
      → resolve_and_deliver ops json from_utf8 api state e req uuid false rng
        ≡ ok (shaped (resolve_reflect json from_utf8 req r) e.rule.delivery none false, state, rng)
  unfolding resolve_and_deliver chaos_override resolve_reply shape
  resolve_and_deliver-plain state e r req uuid rng p = rw (p.calm, p.replies, p.untimed) refl

  -- Without limits, the check passes and leaves the state as it is.
  pub handle_request-unlimited :
      (state : AppState api) (e : RuleEntry) (req : Request) (uuid : Text) (now : ℕ) (rng : Rng)
      → match_request state.store req.method req.path ≡ some e
      → e.rule.behavior.concurrency ≡ none
      → e.rule.behavior.rate_limit ≡ none
      → handle_request ops json from_utf8 api state req uuid now rng
        ≡ resolve_and_deliver ops json from_utf8 api state e req uuid false rng
  unfolding handle_request get_runtime
  handle_request-unlimited state e req uuid now rng found c l =
      elim (Option-cases (get_runtime api state e.index)) [
        | inl missing ↦ rw (found, missing) refl
        | inr (runtime, there) ↦
            rw
              (
                found,
                there,
                check-unlimited runtime e.rule.behavior now rng c l,
                set-get_elem? state.runtimes e.index runtime there,
              )
              refl
      ]

  -- A request that is matched with a rule of one reply and nothing else is answered with the response
  -- to this reply, which reflects the request if it has to: without a panic or a wait, and with the
  -- state as it was. The text of a pattern has to have a byte.
  pub serve-plain :
      (state : AppState api) (e : RuleEntry) (r : ReplySpec) (req : Request) (bytes : List ℕ)
      (uuid : Text) (now at_drop at_hang : ℕ) (rng : Rng)
      → match_request state.store req.method req.path ≡ some e
      → IsPlainRule e.rule r
      → IsRepeatable src r.body
      → (resp : Response) × (build_reply_response http src
            (resolve_reflect json from_utf8 (record req { body = bytes }) r)
          ≡ ok resp)
        × (serve http src ops json from_utf8 api state req (some bytes) uuid now at_drop at_hang rng
            ≡ ok (some resp, state, rng))
  unfolding serve respond build_delivery_response
  serve-plain state e r req bytes uuid now at_drop at_hang rng found p repeatable =
      let with_body = record req { body = bytes } in
      let handled =
        handle_request-unlimited state e with_body uuid now rng found p.unlimited p.unrated
        ∙ resolve_and_deliver-plain state e r with_body uuid rng p in
      let reply = resolve_reflect json from_utf8 with_body r in
      let (sent, made) = resolve_reflect-Generates http src json from_utf8 with_body r repeatable in
      let builds = sends http src json from_utf8 reply reply.body sent refl made in
      (_, builds, rw (handled, p.unshaped, made) refl)
