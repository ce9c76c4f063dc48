-- ===== src/Tests/RateLimiter.antt =====
-- A rate limiter of ten permits a second.
use bookie_cpp.Prelude.{ℕ, ◌+◌, ◌*◌, ◌≤◌, ◌≡◌, refl, List, [], ◌∷◌, some, arith}
use bookie_cpp.RateLimiter.{RateLimiter, aquire, aquire_all}
use bookie_cpp.RateLimiter.Bound.{IsLimiter, aquire_rate}

abbrev ten : RateLimiter
ten = record { interval = 100; stored_permits = 2; max_permits = 10; next_free = 50 }

ten-IsLimiter : IsLimiter ten
ten-IsLimiter = record { ticks = omega arith; forward = omega arith; within = omega arith }

abbrev burst : List (ℕ × ℕ)
burst = (1, 60) ∷ (1, 60) ∷ (1, 60) ∷ (1, 70) ∷ []

aquire_rate_example :
    (r1 : RateLimiter) × (wait : ℕ) × (r2 : RateLimiter) × (aquire_all burst ten ≡ some r1)
    × (aquire 1 80 r1 ≡ some (wait, r2))
    × IsLimiter r2
    × (4 * 100 + 50 ≤ 10 * 100 + (80 + wait))
aquire_rate_example =
    aquire_rate burst 1 80 80 ten ten-IsLimiter (omega arith)
      (omega arith, (omega arith, (omega arith, (omega arith, tt)))) (omega arith) (omega arith)

burst_run : aquire_all burst ten ≡ some (record ten { stored_permits = 0; next_free = 260 })
unfolding aquire_all aquire
burst_run = refl
