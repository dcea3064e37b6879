-- ===== src/Serve/Runtime/Permits.antt =====
-- src/serve/runtime.rs: how many requests hold a permit of a rule with a concurrency limit.
use mockinx.Common.{
  ℕ, ◌+◌, ◌-◌, ◌≡◌, ◌↔◌, refl, ◌⊎◌, inl, inr, true, Option, none, some, List, [], ◌∷◌, arith, ◌==◌,
  Bool-cases, if◌then◌else◌,
}
use mockinx.Error.{Result, ok, err, panicked}
use mockinx.Float.{FloatOps}
use mockinx.Units.{Duration, Rng, sample, duration_scalable}
use mockinx.Reply.{ReplySpec}
use mockinx.Serve.Behavior.{
  BehaviorSpec, OverflowAction, ConcurrencySpec, block, block_with_timeout,
}
use mockinx.Serve.Limiter.{RateLimiter}
use mockinx.Serve.Runtime.{
  SemaphoreApi, BehaviorResult, proceed, BehaviorRuntime, new_runtime, check, check_concurrency,
  check_rate, granted, on_time, after_rate, waits, resume,
}

-- What tokio documents of a semaphore. A permit that it hands to one that waits is a release and an
-- acquisition.
pub record SemaphoreLaws (api : SemaphoreApi) : Type 1 where
  pub available : api.Semaphore → ℕ
  pub available-new : (n : ℕ) → available (api.new n) ≡ n
  pub available-release : (s : api.Semaphore) → available (api.release s) ≡ available s + 1
  pub acquire_now-cases :
      (s : api.Semaphore)
      → ((api.acquire_now s ≡ none) × (available s ≡ 0))
        ⊎ ((s' : api.Semaphore) × (api.acquire_now s ≡ some s') × (available s ≡ available s' + 1))

-- A request arrives at an instant, a wait for a permit is polled again, or a response that holds a
-- permit ends.
pub data Event : Type 0 where
  arrives : (now : ℕ) → (rng : Rng) → Event
  wakes : Event
  finishes : Event

unfoldable pub permits : Result BehaviorResult → ℕ
permits (ok (proceed true)) = 1
permits _ = 0

module _ (api : SemaphoreApi) where
  abbrev released : Option api.Semaphore → Option api.Semaphore
  released none = none
  released (some s) = some (api.release s)

  -- The runtime, and the number of responses under way that hold a permit.
  unfoldable pub step :
      FloatOps → BehaviorSpec → BehaviorRuntime api × ℕ → Event → BehaviorRuntime api × ℕ
  unfolding permits
  step ops spec (runtime, held) (arrives now rng) =
      let (res, runtime', _) = check api ops runtime spec now rng in (runtime', held + permits res)
  step ops spec (runtime, held) wakes =
      let (res, runtime') = resume api runtime in (runtime', held + permits res)
  step ops spec (runtime, held) finishes =
      if held == 0
      then (runtime, held)
      else (record runtime { semaphore = released runtime.semaphore }, held - 1)

  unfoldable pub steps :
      FloatOps → BehaviorSpec → BehaviorRuntime api × ℕ → List Event → BehaviorRuntime api × ℕ
  unfolding step
  steps ops spec state [] = state
  steps ops spec state (event ∷ rest) = steps ops spec (step ops spec state event) rest

  module _ (laws : SemaphoreLaws api) where
    -- The permits that are free and those that are held add up to the limit.
    abbrev pub Balances : ℕ → BehaviorRuntime api × ℕ → Type 0
    Balances limit (runtime, held) =
        (s : api.Semaphore) × (runtime.semaphore ≡ some s) × (laws.available s + held ≡ limit)

    granted-available :
        (s : api.Semaphore) (otherwise : BehaviorResult)
        → permits (ok otherwise) ≡ 0
        → laws.available (granted api s otherwise).1 + permits (ok (granted api s otherwise).0)
          ≡ laws.available s
    unfolding permits
    granted-available s otherwise h = elim (laws.acquire_now-cases s) [
      | inl (full, empty) ↦ rw (full, permits, granted) (omega (arith, h))
      | inr (s', e, n) ↦ rw (e, permits, granted) (omega (arith, n))
    ]

    on_time-available :
        (t : Result (Duration × Rng)) (rng : Rng) (s : api.Semaphore) (r : ReplySpec)
        → laws.available (on_time api t rng s r).1 + permits (on_time api t rng s r).0
          ≡ laws.available s
    unfolding permits
    on_time-available (ok _) rng s r = granted-available s _ refl
    on_time-available (err e) rng s r = omega arith
    on_time-available panicked rng s r = omega arith

    check_concurrency-available :
        (ops : FloatOps) (over : OverflowAction) (s : api.Semaphore) (rng : Rng)
        → let (res, s', _) = check_concurrency api ops over s rng in
          laws.available s' + permits res ≡ laws.available s
    unfolding check_concurrency permits
    check_concurrency-available ops (OverflowAction.reply r) s rng = granted-available s _ refl
    check_concurrency-available ops block s rng = granted-available s _ refl
    check_concurrency-available ops (block_with_timeout t r) s rng =
        on_time-available (sample (duration_scalable ops) t rng) rng s r

    after_rate-Balances :
        (ops : FloatOps) (s : api.Semaphore) (conc : ConcurrencySpec) (rng : Rng)
        (l : Option RateLimiter) (refusal : Option ReplySpec) (held limit : ℕ)
        → laws.available s + held ≡ limit
        → let (res, runtime, _) = after_rate api ops (some s) (some conc) rng l refusal in
          Balances limit (runtime, held + permits res)
    unfolding permits
    after_rate-Balances ops s conc rng l (some over) held limit h = (s, refl, omega (arith, h))
    after_rate-Balances ops s conc rng l none held limit h =
        (_, refl, omega (arith, h, check_concurrency-available ops conc.over s rng))

    step-Balances :
        (ops : FloatOps) (spec : BehaviorSpec) (conc : ConcurrencySpec)
        (state : BehaviorRuntime api × ℕ) (event : Event)
        → spec.concurrency ≡ some conc
        → Balances conc.max state
        → Balances conc.max (step ops spec state event)
    unfolding step check resume
    step-Balances ops spec conc (runtime, held) (arrives now rng) c (s, e, h) =
        rw (e, c)
          (after_rate-Balances ops s conc rng
            (check_rate api runtime.rate_limiter spec.rate_limit now).0
            (check_rate api runtime.rate_limiter spec.rate_limit now).1 held conc.max h)
    step-Balances ops spec conc (runtime, held) wakes c (s, e, h) =
        rw (e, resume) (_, refl, omega (arith, h, granted-available s waits refl))
    step-Balances ops spec conc (runtime, held) finishes c (s, e, h) =
        elim (Bool-cases (held == 0)) [
          | inl idle ↦ rw idle (s, e, h)
          | inr busy ↦
              rw (busy, e) (api.release s, refl, ground (arith, h, laws.available-release s))
        ]

    steps-Balances :
        (ops : FloatOps) (spec : BehaviorSpec) (conc : ConcurrencySpec)
        (state : BehaviorRuntime api × ℕ) (events : List Event)
        → spec.concurrency ≡ some conc
        → Balances conc.max state
        → Balances conc.max (steps ops spec state events)
    unfolding steps
    steps-Balances ops spec conc state [] c h = h
    steps-Balances ops spec conc state (event ∷ rest) c h =
        steps-Balances ops spec conc (step ops spec state event) rest c
          (step-Balances ops spec conc state event c h)

    new_runtime-Balances :
        (spec : BehaviorSpec) (conc : ConcurrencySpec)
        → spec.concurrency ≡ some conc
        → Balances conc.max (new_runtime api spec, 0)
    unfolding new_runtime
    new_runtime-Balances spec conc c =
        rw c (api.new conc.max, refl, omega (arith, laws.available-new conc.max))

    pub steps_new-Balances :
        (ops : FloatOps) (spec : BehaviorSpec) (conc : ConcurrencySpec) (events : List Event)
        → spec.concurrency ≡ some conc
        → Balances conc.max (steps ops spec (new_runtime api spec, 0) events)
    steps_new-Balances ops spec conc events c =
        steps-Balances ops spec conc (new_runtime api spec, 0) events c
          (new_runtime-Balances spec conc c)

    -- A permit is refused exactly where none is free.
    pub acquire_now_iff : (s : api.Semaphore) → (api.acquire_now s ≡ none) ↔ (laws.available s ≡ 0)
    acquire_now_iff s = elim (laws.acquire_now-cases s) [
      | inl (full, empty) ↦ (λ e. empty, λ e. full)
      | inr (s', e, n) ↦ (λ missing. absurd (cc (e, missing)), λ empty. absurd (omega (arith, n)))
    ]
