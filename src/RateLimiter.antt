-- ===== src/RateLimiter.antt =====
-- src/RateLimiter.h. Times and durations are nanoseconds, the bit patterns of signed 64-bit numbers; the
-- clock's reading is an argument, and so is what the constructor computes from its `double` rate. A number of
-- permits is not negative, as at the one call, `aquire(1)`.
pub mod Bound
use Prim.Native.Nat.{min}
use bookie_cpp.Prelude.{
  ℕ, ◌+◌, ◌-◌, ◌*◌, ◌/◌, ◌%◌, ◌^◌, Bool, Option, none, some, ltb, ◌==◌, if◌then◌else◌, List, [],
  ◌∷◌,
}

-- What the code computes with a rate: `(long)(1e6 / rate)`, as a bit pattern, the rate cut to a long,
-- which is not negative, and `rate < 1e6`.
pub record Rates : Type 1 where
  pub Rate : Type 0
  pub period_micros : Rate → ℕ
  pub whole : Rate → ℕ
  pub below_million : Rate → Bool

pub record RateLimiter : Type 0 where
  pub interval : ℕ
  pub stored_permits : ℕ
  pub max_permits : ℕ
  pub next_free : ℕ

-- `none` is the failed assertion.
unfoldable pub create : (rates : Rates) → rates.Rate → Option RateLimiter
create rates rate =
    if rates.below_million rate
    then some (record {
      interval = 1000 * rates.period_micros rate % 2 ^ 64;
      stored_permits = 0;
      max_permits = rates.whole rate;
      next_free = 0;
    })
    else none

-- One signed number of 64 bits is below another.
unfoldable pub earlier : ℕ → ℕ → Bool
earlier a b = ltb ((a + 2 ^ 63) % 2 ^ 64) ((b + 2 ^ 63) % 2 ^ 64)

-- Their difference.
abbrev pub between : ℕ → ℕ → ℕ
between a b = (b + (2 ^ 64 - a)) % 2 ^ 64

-- Permits that came free since `next_free`, up to the maximum. `none` is the division by a zero interval. The
-- division is that of durations that are not negative, which the interval and a later time's distance are.
unfoldable pub refill : ℕ → RateLimiter → Option RateLimiter
unfolding earlier
refill now r =
    if earlier r.next_free now
    then if r.interval == 0
      then none
      else some (record r {
        stored_permits =
            min r.max_permits (r.stored_permits + between r.next_free now / r.interval);
        next_free = now;
      })
    else some r

-- The permits that are not stored are paid for by moving `next_free`; the caller sleeps till the time
-- that was free before.
unfoldable pub spend : ℕ → ℕ → RateLimiter → ℕ × RateLimiter
spend permits now r =
    let stored = min permits r.stored_permits in
    let fresh = permits - stored in
    (
      between now r.next_free,
      record r {
        next_free = (r.next_free + fresh * r.interval) % 2 ^ 64;
        stored_permits = r.stored_permits - stored;
      },
    )

-- The sleep, and the limiter after the call.
unfoldable pub aquire : ℕ → ℕ → RateLimiter → Option (ℕ × RateLimiter)
unfolding refill spend
aquire permits now r = elim (refill now r) [ none ↦ none | some r' ↦ some (spend permits now r') ]

-- One caller after the other, each with its permits and its time; the result is the limiter after them.
unfoldable pub aquire_all : List (ℕ × ℕ) → RateLimiter → Option RateLimiter
aquire_all [] r = some r
aquire_all ((permits, now) ∷ calls) r = elim (aquire permits now r) [
  | none ↦ none
  | some (wait, r') ↦ aquire_all calls r'
]
