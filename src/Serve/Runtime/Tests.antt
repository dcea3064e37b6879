-- ===== src/Serve/Runtime/Tests.antt =====
-- src/serve/runtime.rs: requests under limits.
use mockinx.Common.{◌+◌, ◌≡◌, ◌≤◌, ◌^◌, refl, ℕ, some, List, [], ◌∷◌, arith}
use mockinx.Text.{str}
use mockinx.Json.{Map, number, string, pos_int}
use mockinx.Serve.Behavior.{BehaviorSpec, OverflowAction, block, ConcurrencySpec, RateLimitSpec}
use mockinx.Serve.Runtime.{new_runtime, check, check_rate, check_concurrency, resume}
use mockinx.Serve.Runtime.Permits.{Event, arrives, steps, step, permits}
use mockinx.Serve.Limiter.{try_acquire, new_limiter, retain}
use mockinx.Serve.Limiter.Window.{count_if, in_second}
use mockinx.Serve.Runtime.Queue.{Visit, enters, retries, visit, visit_all, new_log}
use mockinx.Serve.Runtime.Rate.{admitted-le-rps}
use mockinx.Samples.{fixed_point, counting, quarter_draws, unlimited, empty_reply}

abbrev two_at_once : ConcurrencySpec
two_at_once = record { max = 2; over = OverflowAction.reply empty_reply }

abbrev limited : BehaviorSpec
limited = record unlimited { concurrency = some two_at_once }

abbrev busy : List Event
busy = arrives 1 quarter_draws ∷ arrives 2 quarter_draws ∷ arrives 3 quarter_draws ∷ []

held_two : (steps counting fixed_point limited (new_runtime counting limited, 0) busy).1 ≡ 2
unfolding steps step check check_rate check_concurrency new_runtime permits
held_two = refl

-- `{max: 4294967296, over: block}`
abbrev wrapped : Map
wrapped = (str "max", number (pos_int (2 ^ 32))) ∷ (str "over", string (str "block")) ∷ []

abbrev none_at_once : ConcurrencySpec
none_at_once = record { max = 0; over = block }

abbrev no_permits : BehaviorSpec
no_permits = record unlimited { concurrency = some none_at_once }

-- One request a second, and one at once.
abbrev once : RateLimitSpec
once = record { rps = 1; over = empty_reply }

abbrev rated : BehaviorSpec
rated = record unlimited {
  rate_limit = some once;
  concurrency = some (record { max = 1; over = block });
}

-- A request with this number of permits free.
abbrev at : ℕ → ℕ → Visit counting
at now free = enters (record { now = now; semaphore = some free; rng = quarter_draws })

-- The third request waits, is polled in vain, and then gets the permit.
abbrev visits : List (Visit counting)
visits = at 5 1 ∷ at 6 0 ∷ at 2_000_000_000 0 ∷ retries (some 0) ∷ retries (some 1) ∷ []

admitted_two :
    (visit_all counting fixed_point rated (new_log counting fixed_point rated) visits).admitted
    ≡ 2_000_000_000 ∷ 5 ∷ []
unfolding visit_all visit new_log check check_rate check_concurrency resume new_runtime try_acquire
    new_limiter retain
admitted_two = refl

admitted-le-rps_example :
    let log = visit_all counting fixed_point rated (new_log counting fixed_point rated) visits in
    count_if (in_second 5) log.waiting + count_if (in_second 5) log.admitted ≤ 1
admitted-le-rps_example =
    admitted-le-rps counting fixed_point rated once visits 5 refl
      (omega arith, (omega arith, (omega arith, tt)))
