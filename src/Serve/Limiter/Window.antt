-- ===== src/Serve/Limiter/Window.antt =====
-- src/serve/runtime.rs: what the limiter promises over a whole history of calls.
use mockinx.Common.{
  ℕ, suc, ◌+◌, ◌≤◌, ◌<◌, ◌≡◌, refl, ◌∙◌, ◌↔◌, inl, inr, Bool, true, false, ◌&&◌, List, [], ◌∷◌,
  ◌++◌, length, if◌then◌else◌, ltb, leb, arith, Bool-cases,
}
use mockinx.Serve.Limiter.{RateLimiter, new_limiter, second, is_recent, retain, try_acquire}

-- How many instants of a list pass a test.
abbrev pub count_if : (ℕ → Bool) → List ℕ → ℕ
count_if p [] = 0
count_if p (t ∷ ts) = if p t then suc (count_if p ts) else count_if p ts

-- The grants that a call at `now` still counts.
abbrev pub count_recent : ℕ → List ℕ → ℕ
count_recent now = count_if (is_recent now)

-- The instants in the second that begins at `start`.
abbrev pub in_second : ℕ → ℕ → Bool
in_second start t = leb start t && ltb t (start + second)

-- A limiter with the instants that it has granted, newest first.
pub record Served : Type 0 where
  pub limiter : RateLimiter
  pub granted : List ℕ

abbrev pub record_call : List ℕ → ℕ → RateLimiter × Bool → Served
record_call granted now (l, true) = record { limiter = l; granted = now ∷ granted }
record_call granted now (l, false) = record { limiter = l; granted = granted }

unfoldable pub call : Served → ℕ → Served
call s now = record_call s.granted now (try_acquire s.limiter now)

unfoldable pub calls : Served → List ℕ → Served
calls s [] = s
calls s (now ∷ rest) = calls (call s now) rest

unfoldable pub fresh : ℕ → Served
unfolding new_limiter
fresh rps = record { limiter = new_limiter rps; granted = [] }

-- The clock does not go back.
abbrev pub IsMonotone : ℕ → List ℕ → Type 0
IsMonotone now [] = Unit
IsMonotone now (t ∷ ts) = (now ≤ t) × IsMonotone t ts

abbrev last_or : ℕ → List ℕ → ℕ
last_or now [] = now
last_or now (t ∷ ts) = last_or t ts

pub count_if-append :
    (p : ℕ → Bool) (xs ys : List ℕ) → count_if p (xs ++ ys) ≡ count_if p xs + count_if p ys
count_if-append p [] ys = omega arith
count_if-append p (x ∷ xs) ys = ground (arith, count_if-append p xs ys)

length-retain : (now : ℕ) (ts : List ℕ) → length (retain now ts) ≡ count_recent now ts
unfolding retain
length-retain now [] = refl
length-retain now (t ∷ ts) = ground (arith, length-retain now ts)

count_recent-retain :
    (now later : ℕ) (ts : List ℕ)
    → now ≤ later
    → count_recent later (retain now ts) ≡ count_recent later ts
unfolding retain
count_recent-retain now later [] h = refl
count_recent-retain now later (t ∷ ts) h = ground (arith, count_recent-retain now later ts h)

-- The limiter remembers every grant that a later call can count.
pub record Remembers (now : ℕ) (s : Served) : Type 0 where
  pub remembered :
      (later : ℕ)
      → now ≤ later
      → count_recent later s.limiter.timestamps ≡ count_recent later s.granted

call-Remembers : (now t : ℕ) (s : Served) → now ≤ t → Remembers now s → Remembers t (call s t)
unfolding call try_acquire
call-Remembers now t s h r = record { remembered = λ later le. step later le }
  where
    step :
        (later : ℕ)
        → t ≤ later
        → count_recent later (call s t).limiter.timestamps ≡ count_recent later (call s t).granted
    step later le = ground (
      arith,
      r.remembered later,
      count_recent-retain t later s.limiter.timestamps le,
      count_if-append (is_recent later) (retain t s.limiter.timestamps) (t ∷ []),
    )

calls-Remembers :
    (now : ℕ) (s : Served) (ts : List ℕ)
    → IsMonotone now ts
    → Remembers now s
    → Remembers (last_or now ts) (calls s ts)
unfolding calls
calls-Remembers now s [] m r = r
calls-Remembers now s (t ∷ ts) m r =
    calls-Remembers t (call s t) ts m.1 (call-Remembers now t s m.0 r)

max_rps-calls : (s : Served) (ts : List ℕ) → (calls s ts).limiter.max_rps ≡ s.limiter.max_rps
unfolding calls call try_acquire
max_rps-calls s [] = refl
max_rps-calls s (t ∷ ts) = ground (arith, max_rps-calls (call s t) ts)

grants_iff :
    (t now : ℕ) (s : Served)
    → Remembers t s
    → t ≤ now
    → ((try_acquire s.limiter now).1 ≡ true) ↔ (count_recent now s.granted < s.limiter.max_rps)
unfolding try_acquire
grants_iff t now s r h = ground (arith, length-retain now s.limiter.timestamps, r.remembered now h)

fresh-Remembers : (rps : ℕ) → Remembers 0 (fresh rps)
unfolding fresh
fresh-Remembers rps = record { remembered = λ later le. refl }

max_rps-fresh : (rps : ℕ) → (fresh rps).limiter.max_rps ≡ rps
unfolding fresh
max_rps-fresh rps = refl

-- After any history of calls at instants that do not go back, a further call is allowed exactly
-- when fewer than `max_rps` calls were allowed in the second before it.
pub try_acquire_iff :
    (rps : ℕ) (ts : List ℕ) (now : ℕ)
    → IsMonotone 0 ts
    → last_or 0 ts ≤ now
    → ((try_acquire (calls (fresh rps) ts).limiter now).1 ≡ true)
      ↔ (count_recent now (calls (fresh rps) ts).granted < rps)
try_acquire_iff rps ts now m h = ground (
  arith,
  max_rps-calls (fresh rps) ts,
  max_rps-fresh rps,
  grants_iff (last_or 0 ts) now (calls (fresh rps) ts)
      (calls-Remembers 0 (fresh rps) ts m (fresh-Remembers rps)) h,
)

count_if_mono :
    (p q : ℕ → Bool) (xs : List ℕ)
    → ((x : ℕ) → p x ≡ true → q x ≡ true)
    → count_if p xs ≤ count_if q xs
count_if_mono p q [] h = omega arith
count_if_mono p q (x ∷ xs) h = ground (arith, count_if_mono p q xs h, h x)

-- No second holds more grants than the limit.
abbrev IsBounded : ℕ → Served → Type 0
IsBounded rps s = (start : ℕ) → count_if (in_second start) s.granted ≤ rps

call-IsBounded :
    (rps now t : ℕ) (s : Served)
    → s.limiter.max_rps ≡ rps
    → now ≤ t
    → Remembers now s
    → IsBounded rps s
    → IsBounded rps (call s t)
unfolding call try_acquire
call-IsBounded rps now t s e h r b start = elim (Bool-cases (in_second start t)) [
  | inl inside ↦ ground (
    arith,
    b start,
    r.remembered t h,
    length-retain t s.limiter.timestamps,
    count_if_mono (in_second start) (is_recent t) s.granted (λ g hg. ground arith),
  )
  | inr outside ↦ ground (arith, b start)
]

max_rps-call : (s : Served) (t : ℕ) → (call s t).limiter.max_rps ≡ s.limiter.max_rps
unfolding call try_acquire
max_rps-call s t = ground arith

calls-IsBounded :
    (rps now : ℕ) (s : Served) (ts : List ℕ)
    → s.limiter.max_rps ≡ rps
    → IsMonotone now ts
    → Remembers now s
    → IsBounded rps s
    → IsBounded rps (calls s ts)
unfolding calls
calls-IsBounded rps now s [] e m r b = b
calls-IsBounded rps now s (t ∷ ts) e m r b =
    calls-IsBounded rps t (call s t) ts (max_rps-call s t ∙ e) m.1 (call-Remembers now t s m.0 r)
      (call-IsBounded rps now t s e m.0 r b)

pub granted-le-rps :
    (rps : ℕ) (ts : List ℕ) (start : ℕ)
    → IsMonotone 0 ts
    → count_if (in_second start) (calls (fresh rps) ts).granted ≤ rps
unfolding fresh
granted-le-rps rps ts start m =
    calls-IsBounded rps 0 (fresh rps) ts refl m (fresh-Remembers rps) (λ w. omega arith) start
