-- ===== src/Metrics/Order.antt =====
-- The map of metrics stays in the order of its names.
use Prim.Native.Nat.compare as compare_ℕ
use Prim.Native.Nat.{Ordering, compare as compare_ℕ}
use Prim.Native.String.compare
use Prim.Native.String.{String, compare, then as followed_by}
use text.Mathlib.Text.{◌==◌ as str_eq}
use bookie_cpp.Prelude.{ℕ, ◌≡◌, List, [], ◌∷◌, true}
use bookie_cpp.Metrics.{before}

-- Each name is before the next.
abbrev pub IsOrdered : List (String × ℕ) → Type 0
IsOrdered [] = Unit {0}
IsOrdered ((n, p) ∷ []) = Unit {0}
IsOrdered ((n, p) ∷ (m, q) ∷ rest) = (before n m ≡ true) × IsOrdered ((m, q) ∷ rest)

-- The comparison the other way.
abbrev flip : Ordering → Ordering
flip Ordering.lt = Ordering.gt
flip Ordering.eq = Ordering.eq
flip Ordering.gt = Ordering.lt
