-- ===== src/Base/Numbers.antt =====
-- Quotients by a variable: a share of a whole, as C computes percentages.
use Prim.Native.Nat.{ℕ, ◌*◌, ◌/◌, ◌≤◌, ◌<◌}
use mathlib.Core.Path.{◌≡◌}
use native.Mathlib.Nat.{
  div-mul-le_self, le-div_iff_mul-le, le_trans, div-le_of_le-mul, mul-div_right,
}
use native.Mathlib.Omega.{arith}

pub div_mono : (a b c : ℕ) → 0 < c → a ≤ b → a / c ≤ b / c
div_mono a b c h le = (le-div_iff_mul-le h).1 (le_trans (div-mul-le_self a c) le)

mul_mono : (a b k : ℕ) → a ≤ b → a * k ≤ b * k
mul_mono a b k h = grind arith

-- `v * k / m` grows with `v`, and is at most `k` where `v` is at most `m`.
pub share_mono : (v w k m : ℕ) → 0 < m → v ≤ w → v * k / m ≤ w * k / m
share_mono v w k m p q = div_mono (v * k) (w * k) m p (mul_mono v w k q)

pub share-le : (v k m : ℕ) → v ≤ m → v * k / m ≤ k
share-le v k m q = div-le_of_le-mul m (mul_mono v m k q)

pub share_whole : (k m : ℕ) → 0 < m → m * k / m ≡ k
share_whole k m p = mul-div_right k p
