-- ===== src/Serve/Runtime/Rate.antt =====
-- src/serve/runtime.rs: how many of the requests that are checked in a second go on.
use mockinx.Common.{
  ℕ, ◌+◌, ◌≤◌, ◌≡◌, refl, ◌∙◌, subst, ◌++◌, Bool, true, false, Option, none, some, List, [], ◌∷◌,
  arith,
}
use mockinx.Error.{Result, ok, err, panicked}
use mockinx.Float.{FloatOps}
use mockinx.Units.{Rng}
use mockinx.Reply.{ReplySpec}
use mockinx.Serve.Behavior.{BehaviorSpec, ConcurrencySpec, RateLimitSpec}
use mockinx.Serve.Limiter.{RateLimiter, try_acquire}
use mockinx.Serve.Limiter.Window.{
  Served, record_call, call, calls, fresh, count_if, count_if-append, in_second, IsMonotone,
  granted-le-rps,
}
use mockinx.Serve.Runtime.{
  SemaphoreApi, BehaviorResult, proceed, rejected, waits, BehaviorRuntime, new_runtime, check,
  resume, check_rate, after_rate, limited,
}
use mockinx.Serve.Runtime.Queue.{
  admit, enqueue, Arrival, Visit, enters, retries, instants, Log, woken, visit, visit_all, new_log,
}

module _ (api : SemaphoreApi) (ops : FloatOps) (spec : BehaviorSpec) where
  limiter-resume :
      (runtime : BehaviorRuntime api) → (resume api runtime).1.rate_limiter ≡ runtime.rate_limiter
  unfolding resume
  limiter-resume runtime = ground arith

  limiter-after_rate :
      (sem : Option api.Semaphore) (conc : Option ConcurrencySpec) (rng : Rng)
      (limiter : Option RateLimiter) (refusal : Option ReplySpec)
      → (after_rate api ops sem conc rng limiter refusal).1.rate_limiter ≡ limiter
  limiter-after_rate sem conc rng limiter (some over) = refl
  limiter-after_rate none conc rng limiter none = refl
  limiter-after_rate (some s) none rng limiter none = refl
  limiter-after_rate (some s) (some c) rng limiter none = refl

  -- The requests that went on or wait are among those that were granted.
  abbrev AreGranted : List ℕ → List ℕ → List ℕ → Type 0
  AreGranted waiting admitted granted =
      (p : ℕ → Bool) → count_if p waiting + count_if p admitted ≤ count_if p granted

  -- The limiter of the runtime is the one that grants.
  record Follows (log : Log api ops spec) (s : Served) : Type 0 where
    limiter : log.runtime.rate_limiter ≡ some s.limiter
    granted : AreGranted log.waiting log.admitted s.granted

  AreGranted-admit :
      (now : ℕ) (res : Result BehaviorResult) (waiting admitted granted : List ℕ)
      → AreGranted waiting admitted granted
      → AreGranted (enqueue now res waiting) (admit now res admitted) (now ∷ granted)
  AreGranted-admit now (ok (proceed permit)) waiting admitted granted h p = ground (arith, h p)
  AreGranted-admit now (ok (rejected r)) waiting admitted granted h p = ground (arith, h p)
  AreGranted-admit now (ok waits) waiting admitted granted h p =
      ground (arith, h p, count_if-append p waiting (now ∷ []))
  AreGranted-admit now (err e) waiting admitted granted h p = ground (arith, h p)
  AreGranted-admit now panicked waiting admitted granted h p = ground (arith, h p)

  -- A request that is polled again leaves the queue, or stays at its head.
  AreGranted-woken :
      (at : ℕ) (res : Result BehaviorResult) (rest admitted granted : List ℕ)
      → AreGranted (at ∷ rest) admitted granted
      → AreGranted (enqueue at res [] ++ rest) (admit at res admitted) granted
  AreGranted-woken at (ok (proceed permit)) rest admitted granted h p = ground (arith, h p)
  AreGranted-woken at (ok (rejected r)) rest admitted granted h p = ground (arith, h p)
  AreGranted-woken at (ok waits) rest admitted granted h p = h p
  AreGranted-woken at (err e) rest admitted granted h p = ground (arith, h p)
  AreGranted-woken at panicked rest admitted granted h p = ground (arith, h p)

  woken-Follows :
      (log : Log api ops spec) (s : Served) (retried : Result BehaviorResult × BehaviorRuntime api)
      (waiting : List ℕ)
      → retried.1.rate_limiter ≡ log.runtime.rate_limiter
      → log.waiting ≡ waiting
      → Follows log s
      → Follows (woken api ops spec log retried waiting) s
  woken-Follows log s retried [] same e h = h
  woken-Follows log s (res, runtime') (at ∷ rest) same e h = record {
    limiter = same ∙ h.limiter;
    granted =
        AreGranted-woken at res rest log.admitted s.granted
          (subst (λ w. AreGranted w log.admitted s.granted) e h.granted);
  }

  -- What a check leaves behind a verdict of the limiter.
  abbrev logged :
      Option api.Semaphore
      → Rng
      → ℕ
      → List ℕ
      → List ℕ
      → Option RateLimiter × Option ReplySpec
      → Log api ops spec
  logged sem rng now waiting admitted (limiter, refusal) =
      let (res, runtime', _) = after_rate api ops sem spec.concurrency rng limiter refusal in
      record {
        runtime = runtime';
        waiting = enqueue now res waiting;
        admitted = admit now res admitted;
      }

  logged-Follows :
      (sem : Option api.Semaphore) (rng : Rng) (now : ℕ) (waiting admitted granted : List ℕ)
      (verdict : RateLimiter × Bool) (over : ReplySpec)
      → AreGranted waiting admitted granted
      → Follows
          (logged sem rng now waiting admitted (limited api verdict over))
          (record_call granted now verdict)
  logged-Follows sem rng now waiting admitted granted (l, true) over h = record {
    limiter = limiter-after_rate sem spec.concurrency rng (some l) none;
    granted = AreGranted-admit now _ waiting admitted granted h;
  }
  logged-Follows sem rng now waiting admitted granted (l, false) over h = record {
    limiter = refl;
    granted = h;
  }

  visit-Follows :
      (log : Log api ops spec) (s : Served) (a : Arrival api) (rl : RateLimitSpec)
      → spec.rate_limit ≡ some rl
      → Follows log s
      → Follows (visit api ops spec log (enters a)) (call s a.now)
  unfolding visit check check_rate call
  visit-Follows log s a rl limit h =
      let verdict : limited api (try_acquire s.limiter a.now) rl.over
          ≡ check_rate api log.runtime.rate_limiter spec.rate_limit a.now =
        rw (limit, h.limiter) refl in
      subst
        (λ v.
          Follows (logged a.semaphore a.rng a.now log.waiting log.admitted v)
            (record_call s.granted a.now (try_acquire s.limiter a.now)))
        verdict
        (logged-Follows a.semaphore a.rng a.now log.waiting log.admitted s.granted
          (try_acquire s.limiter a.now) rl.over h.granted)

  visit_all-Follows :
      (log : Log api ops spec) (s : Served) (visits : List (Visit api)) (rl : RateLimitSpec)
      → spec.rate_limit ≡ some rl
      → Follows log s
      → Follows (visit_all api ops spec log visits) (calls s (instants visits))
  unfolding visit_all calls
  visit_all-Follows log s [] rl limit h = h
  visit_all-Follows log s (enters a ∷ rest) rl limit h =
      visit_all-Follows (visit api ops spec log (enters a)) (call s a.now) rest rl limit
        (visit-Follows log s a rl limit h)
  visit_all-Follows log s (retries sem ∷ rest) rl limit h =
      let found = record log.runtime { semaphore = sem } in
      visit_all-Follows (visit api ops spec log (retries sem)) s rest rl limit (
        unfold visit in
        woken-Follows log s (resume api found) log.waiting (limiter-resume found) refl h)

  -- Of the requests of a rule with a rate limit that are checked in any one second, wherever it begins, at
  -- most `rps` go on, at once or after a wait for a permit, those that still wait counted in. This holds
  -- whatever the limit of concurrency and the responses under way do, over any requests that are
  -- checked at instants that do not go back. A request counts in the second of its check: the instants
  -- at which waits end are not limited.
  pub admitted-le-rps :
      (rl : RateLimitSpec) (visits : List (Visit api)) (start : ℕ)
      → spec.rate_limit ≡ some rl
      → IsMonotone 0 (instants visits)
      → let log = visit_all api ops spec (new_log api ops spec) visits in
        count_if (in_second start) log.waiting + count_if (in_second start) log.admitted ≤ rl.rps
  unfolding new_log new_runtime fresh
  admitted-le-rps rl visits start limit monotone =
      let begins : Follows (new_log api ops spec) (fresh rl.rps) = record {
        limiter = rw limit refl;
        granted = λ p. omega arith;
      } in
      let follows =
        visit_all-Follows (new_log api ops spec) (fresh rl.rps) visits rl limit begins in
      omega (
        arith,
        follows.granted (in_second start),
        granted-le-rps rl.rps (instants visits) start monotone,
      )
