-- ===== src/Serve/Runtime.antt =====
-- src/serve/runtime.rs: the check of a request against a rule's limits. The semaphore is tokio's, a
-- parameter; a permit that is dropped is released.
pub mod Permits
pub mod Truncation
pub mod Queue
pub mod Rate
mod Tests
use mockinx.Common.{ℕ, Bool, true, false, Option, none, some, if◌then◌else◌}
use mockinx.Error.{Result, ok, err, panicked}
use mockinx.Float.{FloatOps}
use mockinx.Units.{Duration, Rng, sample, duration_scalable}
use mockinx.Reply.{ReplySpec}
use mockinx.Serve.Behavior.{
  BehaviorSpec, OverflowAction, ConcurrencySpec, RateLimitSpec, block, block_with_timeout,
}
use mockinx.Serve.Limiter.{RateLimiter, new_limiter, try_acquire}

-- The calls of `tokio::sync::Semaphore`.
pub record SemaphoreApi : Type 1 where
  pub Semaphore : Type 0
  pub new : ℕ → Semaphore
  pub acquire_now : Semaphore → Option Semaphore
  pub release : Semaphore → Semaphore

-- `proceed true` holds a permit. `waits` is an `await` that has not ended, which `resume` polls again.
pub data BehaviorResult : Type 0 where
  proceed : (permit : Bool) → BehaviorResult
  rejected : ReplySpec → BehaviorResult
  waits : BehaviorResult

module _ (api : SemaphoreApi) where
  pub record BehaviorRuntime : Type 0 where
    pub semaphore : Option api.Semaphore
    pub rate_limiter : Option RateLimiter

  abbrev semaphore_of : Option ConcurrencySpec → Option api.Semaphore
  semaphore_of none = none
  semaphore_of (some c) = some (api.new c.max)

  abbrev limiter_of : Option RateLimitSpec → Option RateLimiter
  limiter_of none = none
  limiter_of (some rl) = some (new_limiter rl.rps)

  unfoldable pub new_runtime : BehaviorSpec → BehaviorRuntime
  new_runtime spec = record {
    semaphore = semaphore_of spec.concurrency;
    rate_limiter = limiter_of spec.rate_limit;
  }

  abbrev pub limited : RateLimiter × Bool → ReplySpec → Option RateLimiter × Option ReplySpec
  limited (l, true) over = (some l, none)
  limited (l, false) over = (some l, some over)

  -- The limiter afterwards and the reply of a refusal.
  unfoldable pub check_rate :
      Option RateLimiter → Option RateLimitSpec → ℕ → Option RateLimiter × Option ReplySpec
  check_rate (some limiter) (some rl) now = limited (try_acquire limiter now) rl.over
  check_rate limiter _ now = (limiter, none)

  abbrev granted : api.Semaphore → BehaviorResult → BehaviorResult × api.Semaphore
  granted sem otherwise = elim (api.acquire_now sem) [
    | some sem' ↦ (proceed true, sem')
    | none ↦ (otherwise, sem)
  ]

  abbrev on_time :
      Result (Duration × Rng)
      → Rng
      → api.Semaphore
      → ReplySpec
      → Result BehaviorResult × api.Semaphore × Rng
  on_time (ok (_, rng')) rng sem then_reply =
      let (r, sem') = granted sem (rejected then_reply) in (ok r, sem', rng')
  on_time (err e) rng sem then_reply = (err e, sem, rng)
  on_time panicked rng sem then_reply = (panicked, sem, rng)

  -- `sem` is the semaphore at the instant at which the attempt, the wait or the timeout ends.
  unfoldable pub check_concurrency :
      FloatOps → OverflowAction → api.Semaphore → Rng → Result BehaviorResult × api.Semaphore × Rng
  check_concurrency ops (OverflowAction.reply r) sem rng =
      let (res, sem') = granted sem (rejected r) in (ok res, sem', rng)
  check_concurrency ops block sem rng = let (res, sem') = granted sem waits in (ok res, sem', rng)
  check_concurrency ops (block_with_timeout timeout then_reply) sem rng =
      on_time (sample (duration_scalable ops) timeout rng) rng sem then_reply

  -- A wait under `block` is polled again, with the semaphore at that instant.
  unfoldable pub resume : BehaviorRuntime → Result BehaviorResult × BehaviorRuntime
  resume runtime = elim runtime.semaphore [
    | none ↦ (ok waits, runtime)
    | some sem ↦
        let (res, sem') = granted sem waits in (ok res, record runtime { semaphore = some sem' })
  ]

  abbrev Checked : Type 0
  Checked = Result BehaviorResult × BehaviorRuntime × Rng

  abbrev pub after_rate :
      FloatOps
      → Option api.Semaphore
      → Option ConcurrencySpec
      → Rng
      → Option RateLimiter
      → Option ReplySpec
      → Checked
  after_rate ops sem conc rng limiter (some over) =
      (ok (rejected over), record { semaphore = sem; rate_limiter = limiter }, rng)
  after_rate ops (some sem) (some conc) rng limiter none =
      let (res, sem', rng') = check_concurrency ops conc.over sem rng in
      (res, record { semaphore = some sem'; rate_limiter = limiter }, rng')
  after_rate ops sem conc rng limiter none =
      (ok (proceed false), record { semaphore = sem; rate_limiter = limiter }, rng)

  unfoldable pub check : FloatOps → BehaviorRuntime → BehaviorSpec → ℕ → Rng → Checked
  unfolding check_rate check_concurrency
  check ops runtime spec now rng =
      let (limiter, refusal) = check_rate runtime.rate_limiter spec.rate_limit now in
      after_rate ops runtime.semaphore spec.concurrency rng limiter refusal
