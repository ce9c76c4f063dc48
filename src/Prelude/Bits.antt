-- ===== src/Prelude/Bits.antt =====
-- `bit_and` with a mask of ones and `bit_or` of disjoint fields, as arithmetic.
use Prim.Native.Nat.{
  ℕ, zero, suc, ◌+◌, ◌-◌, ◌*◌, ◌/◌, ◌%◌, ◌^◌, ◌≤◌, ◌<◌, min, max, bit_and, bit_or, digits,
  bit_and-bitwise, bit_or-bitwise,
}
use mathlib.Core.Path.{◌≡◌, refl, ap}
use native.Mathlib.Omega.{arith}
use native.Mathlib.Nat.{pow-suc, one-le-pow}

-- More fuel than the first argument changes no digit.
fuel_irrelevant :
    (ends : ℕ → ℕ) (op : ℕ → ℕ → ℕ) (n m x y : ℕ)
    → x ≤ n
    → x ≤ m
    → digits ends op n x y ≡ digits ends op m x y
fuel_irrelevant ends op zero zero x y hn hm = refl
fuel_irrelevant ends op zero (suc m) zero y hn hm = refl
fuel_irrelevant ends op (suc n) zero zero y hn hm = refl
fuel_irrelevant ends op (suc n) (suc m) zero y hn hm = refl
fuel_irrelevant ends op zero m (suc x) y hn hm = absurd (omega arith)
fuel_irrelevant ends op n zero (suc x) y hn hm = absurd (omega arith)
fuel_irrelevant ends op (suc n) (suc m) (suc x) y hn hm =
    omega (arith, fuel_irrelevant ends op n m (suc x / 2) (y / 2) (omega arith) (omega arith))

-- One binary digit at a time.
and_digit : (x y : ℕ) → bit_and x y ≡ bit_and (x / 2) (y / 2) * 2 + min (x % 2) (y % 2)
and_digit zero y = omega (arith, bit_and-bitwise 0 y, bit_and-bitwise 0 (y / 2))
and_digit (suc x) y = omega (
  arith,
  bit_and-bitwise (suc x) y,
  bit_and-bitwise (suc x / 2) (y / 2),
  fuel_irrelevant (λ _. 0) min x (suc x / 2) (suc x / 2) (y / 2) (omega arith) (omega arith),
)

or_digit : (x y : ℕ) → bit_or x y ≡ bit_or (x / 2) (y / 2) * 2 + max (x % 2) (y % 2)
or_digit zero y = omega (arith, bit_or-bitwise 0 y, bit_or-bitwise 0 (y / 2))
or_digit (suc x) y = omega (
  arith,
  bit_or-bitwise (suc x) y,
  bit_or-bitwise (suc x / 2) (y / 2),
  fuel_irrelevant (λ b. b) max x (suc x / 2) (suc x / 2) (y / 2) (omega arith) (omega arith),
)

and_nothing : (n x : ℕ) → x ≤ n → bit_and x 0 ≡ 0
and_nothing n zero h = refl
and_nothing zero (suc x) h = absurd (omega arith)
and_nothing (suc n) (suc x) h =
    omega (arith, and_digit (suc x) 0, and_nothing n (suc x / 2) (omega arith))

or_nothing : (n x : ℕ) → x ≤ n → bit_or x 0 ≡ x
or_nothing n zero h = refl
or_nothing zero (suc x) h = absurd (omega arith)
or_nothing (suc n) (suc x) h =
    omega (arith, or_digit (suc x) 0, or_nothing n (suc x / 2) (omega arith))

pow_double : (k : ℕ) → 2 ^ suc k ≡ 2 * 2 ^ k
pow_double k = omega (arith, pow-suc 2 k)

mod_double : (x p : ℕ) → 0 < p → x % (2 * p) ≡ x / 2 % p * 2 + x % 2
mod_double x p h = grind arith

-- The mask of the `k` lowest bits keeps the remainder by `2 ^ k`.
pub and_mask : (k x : ℕ) → bit_and x (2 ^ k - 1) ≡ x % 2 ^ k
and_mask zero x = omega (arith, and_nothing x x (omega arith))
and_mask (suc k) x = ground (
  arith,
  pow_double k,
  one-le-pow k 2,
  mod_double x (2 ^ k),
  and_digit x (2 ^ suc k - 1),
  and_mask k (x / 2),
)

-- A field above bit `k` and one below it share no bit.
pub or_fields : (k hi lo : ℕ) → lo < 2 ^ k → bit_or (hi * 2 ^ k) lo ≡ hi * 2 ^ k + lo
or_fields zero hi lo h = ground (arith, or_nothing hi hi)
or_fields (suc k) hi lo h = ground (
  arith,
  ap (λ (p : ℕ). hi * p) (pow_double k),
  or_digit (hi * 2 ^ suc k) lo,
  or_fields k hi (lo / 2),
)
