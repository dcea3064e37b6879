-- ===== src/Serve/Limiter/Tests.antt =====
-- src/serve/runtime.rs: the rate limiter on concrete calls.
use mockinx.Common.{◌≡◌, ◌<◌, ◌↔◌, refl, true, false, [], ◌∷◌, arith}
use mockinx.Serve.Limiter.{try_acquire}
use mockinx.Serve.Limiter.Window.{calls, fresh, call, count_recent, try_acquire_iff}

-- Two a second: the third call is refused, and a second after the first there is room again.
acquire_third : (try_acquire (calls (fresh 2) (10 ∷ 20 ∷ [])).limiter 30).1 ≡ false
unfolding try_acquire calls fresh call
acquire_third = refl

acquire_later : (try_acquire (calls (fresh 2) (10 ∷ 20 ∷ [])).limiter 1_000_000_010).1 ≡ true
unfolding try_acquire calls fresh call
acquire_later = refl

try_acquire_iff_example :
    ((try_acquire (calls (fresh 2) (10 ∷ 20 ∷ [])).limiter 30).1 ≡ true)
    ↔ (count_recent 30 (calls (fresh 2) (10 ∷ 20 ∷ [])).granted < 2)
try_acquire_iff_example =
    try_acquire_iff 2 (10 ∷ 20 ∷ []) 30 (omega arith, (omega arith, tt)) (omega arith)
