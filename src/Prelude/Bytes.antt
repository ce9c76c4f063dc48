-- ===== src/Prelude/Bytes.antt =====
-- Big-endian byte strings, as `readBE` and `writeBE` move them.
use Prim.Native.Nat.{ℕ, zero, suc, ◌+◌, ◌*◌, ◌/◌, ◌%◌, ◌^◌, ◌<◌}
use mathlib.Core.Path.{◌≡◌, refl}
use mathlib.Core.List.{List, [], ◌∷◌, ◌++◌}
use native.Mathlib.Omega.{arith}
use native.Mathlib.Nat.{pow-suc}
use bookie_cpp.Prelude.Lists.{length, length-append}

-- The `w` low bytes of a number, the highest first.
abbrev pub to_be : ℕ → ℕ → List ℕ
to_be zero v = []
to_be (suc w) v = to_be w (v / 256) ++ (v % 256 ∷ [])

-- The number that a byte string stands for, with the digits read so far.
abbrev be_from : ℕ → List ℕ → ℕ
be_from acc [] = acc
be_from acc (b ∷ bs) = be_from (acc * 256 + b) bs

abbrev pub of_be : List ℕ → ℕ
of_be = be_from 0

be_from-append : (acc : ℕ) (xs ys : List ℕ) → be_from acc (xs ++ ys) ≡ be_from (be_from acc xs) ys
be_from-append acc [] ys = refl
be_from-append acc (x ∷ xs) ys = be_from-append (acc * 256 + x) xs ys

pub length-to_be : (w v : ℕ) → length (to_be w v) ≡ w
length-to_be zero v = refl
length-to_be (suc w) v =
    omega (arith, length-append (to_be w (v / 256)) (v % 256 ∷ []), length-to_be w (v / 256))

-- A number that fits `w` bytes is read back from them.
pub of_be-to_be : (w v : ℕ) → v < 256 ^ w → of_be (to_be w v) ≡ v
of_be-to_be zero v h = omega arith
of_be-to_be (suc w) v h = omega (
  arith,
  be_from-append 0 (to_be w (v / 256)) (v % 256 ∷ []),
  of_be-to_be w (v / 256) (omega (arith, pow-suc 256 w)),
)
