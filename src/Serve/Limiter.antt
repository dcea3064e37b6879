-- ===== src/Serve/Limiter.antt =====
-- src/serve/runtime.rs: the rate limiter, a sliding window of one second. An `Instant` is a number
-- of nanoseconds.
pub mod Window
mod Tests
use mockinx.Common.{ℕ, ◌+◌, Bool, true, false, List, [], ◌∷◌, ◌++◌, length, if◌then◌else◌, ltb}

pub record RateLimiter : Type 0 where
  pub max_rps : ℕ
  pub timestamps : List ℕ

abbrev pub second : ℕ
second = 1_000_000_000

unfoldable pub new_limiter : ℕ → RateLimiter
new_limiter rps = record { max_rps = rps; timestamps = [] }

-- `t > now - 1s`
abbrev pub is_recent : ℕ → ℕ → Bool
is_recent now t = ltb now (t + second)

unfoldable pub retain : ℕ → List ℕ → List ℕ
retain now [] = []
retain now (t ∷ ts) = if is_recent now t then t ∷ retain now ts else retain now ts

-- The instant is read before the lock is taken.
unfoldable pub try_acquire : RateLimiter → ℕ → RateLimiter × Bool
unfolding retain
try_acquire l now =
    let kept = retain now l.timestamps in
    if ltb (length kept) l.max_rps
    then (record l { timestamps = kept ++ now ∷ [] }, true)
    else (record l { timestamps = kept }, false)
