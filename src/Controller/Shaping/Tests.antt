-- ===== src/Controller/Shaping/Tests.antt =====
-- Runs of the shaping, on a fixed-point arithmetic of four decimals in place of `float`.
use capture2cloud.Base.{
  ℕ, [], false, ◌≡◌, ◌≢◌, length, zero, suc, ◌+◌, ◌*◌, arith, true, not, ◌∷◌, some, leb,
  if◌then◌else◌, ℤ, pos, negsuc, pos_part, neg_part, ltb_ℤ, sub_ℕ, neg, nat_abs, scale, tdiv, ◌+ℤ◌,
  ◌-ℤ◌, replicate,
}
use mathlib.Core.Path.{subst}
use capture2cloud.Controller.{ControllerState, slot, l2, r2, is_signed, InRange, IsInRange}
use capture2cloud.Controller.Shaping.{
  Floats, ControllerShaping, neutral_stick, controller_shape_state,
}
use capture2cloud.Controller.Shaping.Range.{shape_state-IsInRange}

-- The largest root up to `k`.
abbrev root_below : ℕ → ℕ → ℕ
root_below zero n = 0
root_below (suc k) n = let below = root_below k n in if leb (suc k * suc k) n then suc k else below

abbrev product : ℤ → ℤ → ℤ
product a b =
    sub_ℕ (pos_part a * pos_part b + neg_part a * neg_part b)
      (pos_part a * neg_part b + neg_part a * pos_part b)

abbrev quotient : ℤ → ℤ → ℤ
quotient a b =
    if ltb_ℤ b (pos 0)
    then neg (tdiv (scale 10000 a) (nat_abs b))
    else tdiv (scale 10000 a) (nat_abs b)

abbrev fixed : Floats
fixed = record {
  Float = ℤ;
  of_int = scale 10000;
  of_ratio = λ n d. tdiv (scale 10000 n) d;
  add = ◌+ℤ◌;
  subtract = ◌-ℤ◌;
  multiply = λ a b. tdiv (product a b) 10000;
  divide = quotient;
  sqrtf = λ a. pos (root_below 20000 (pos_part a * 10000));
  fabsf = λ a. pos (nat_abs a);
  less = ltb_ℤ;
  less_equal = λ a b. not (ltb_ℤ b a);
  truncate = λ a. tdiv a 10000;
}

abbrev calibrated : ControllerShaping
calibrated = record {
  invert_ry = true;
  lt_threshold = pos 30;
  rt_threshold = pos 30;
  left_stick = record { deadzone = pos 10; range = pos 90; diagonal = pos 80 };
  right_stick = neutral_stick;
}

abbrev held : ControllerState
held =
    pos 100
    ∷ pos 0
    ∷ pos 0
    ∷ pos 0
    ∷ pos 45
    ∷ pos 0
    ∷ pos 0
    ∷ pos 20
    ∷ pos 0
    ∷ negsuc 39
    ∷ pos 70
    ∷ pos 50
    ∷ negsuc 99
    ∷ replicate 8 (pos 0)

-- The range of each place, from one on.
Ranged : ℕ → ControllerState → Type 0
Ranged i [] = Unit
Ranged i (v ∷ vs) = InRange i v × Ranged (suc i) vs

Ranged_lem : (k : ℕ) (vs : ControllerState) → Ranged k vs → (i : ℕ) → InRange (k + i) (slot vs i)
unfolding Ranged
Ranged_lem k [] h i = (omega arith, ground arith)
Ranged_lem k (v ∷ vs) h zero = subst (λ n. InRange n v) {x = k} {y = k + 0} (omega arith) h.0
Ranged_lem k (v ∷ vs) h (suc i) =
    subst (λ n. InRange n (slot vs i)) {x = suc k + i} {y = k + suc i} (omega arith)
      (Ranged_lem (suc k) vs h.1 i)

held-IsInRange : IsInRange held
unfolding Ranged
held-IsInRange i =
    subst (λ n. InRange n (slot held i)) {x = 0 + i} {y = i} (omega arith)
      (Ranged_lem 0 held (ground arith) i)

shape_state-IsInRange_example :
    let output = controller_shape_state fixed (some calibrated) held in
    IsInRange output
    × (length output ≡ length held)
    × ((i : ℕ) → l2 ≢ i → r2 ≢ i → is_signed i ≡ false → slot output i ≡ slot held i)
shape_state-IsInRange_example = shape_state-IsInRange fixed (some calibrated) held held-IsInRange
