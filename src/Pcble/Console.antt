-- ===== src/Pcble/Console.antt =====
-- From a controller state to what the console reads: server/output_pcble.c fills the sticks of
-- the state in pcble_backend/poc/protocol.c, whose reports and flash memory the console reads.
use native.Mathlib.Nat.{mul_comm}
use capture2cloud.Base.{
  ℕ, ◌≤◌, ◌<◌, ◌≡◌, ap, arith, Bool, true, false, ℤ, neg, get_or, List, [], ◌∷◌, ◌+◌, pos_part,
  share-le,
}
use capture2cloud.Controller.{ControllerState, slot, lx, ly, rx, ry}
use capture2cloud.Pcble.Protocol.{ProState, is_left, is_right, pro, pro_input}
use capture2cloud.Pcble.Protocol.Reports.{pair_at, pro_input-pair_at}
use capture2cloud.Pcble.Output.{held, aimed, stick_axis, build_nintendo_state}
use capture2cloud.Pcble.Sticks.{
  stick_axis_lem, aimed-IsPercent, reading, reading-deflected, x_axis, y_axis, left_pairs,
  right_pairs, flash_sticks, IsNear, Calibration, calibration,
}

stick_axis-lt :
    (v : ℤ) (c p n : ℕ) (invert : Bool) → c + p ≤ 4095 → n ≤ c → stick_axis v c p n invert < 4096
stick_axis-lt v c p n invert h fits = ground (
  arith,
  stick_axis_lem v c p n invert h fits,
  aimed-IsPercent v invert,
  share-le (pos_part (aimed v invert)) p 100,
  mul_comm p (pos_part (aimed v invert)),
)

-- One axis, given what the flash memory and the report hold for it.
axis_reading :
    (cal : Calibration) (raw : ℕ) (v : ℤ) (c p n : ℕ) (invert : Bool)
    → cal ≡ calibration c p n
    → raw ≡ stick_axis v c p n invert
    → c + p ≤ 4095
    → n ≤ c
    → 100 ≤ p
    → 100 ≤ n
    → IsNear (reading cal raw) (aimed v invert)
unfolding stick_axis
axis_reading cal raw v c p n invert e f h fits a b =
    rw (e, f) (reading-deflected (aimed v invert) c p n h fits a b (aimed-IsPercent v invert))

-- The report of a Pro Controller holds both sticks.
pro_pairs :
    (s : ProState) (timer : ℕ) (a b c d : ℕ)
    → s.type ≡ pro
    → s.sticks ≡ a ∷ b ∷ c ∷ d ∷ []
    → a < 4096
    → b < 4096
    → c < 4096
    → d < 4096
    → (pair_at (pro_input s timer) 7 ≡ (a, b)) × (pair_at (pro_input s timer) 10 ≡ (c, d))
pro_pairs s timer a b c d t e ha hb hc hd = ground (
  arith,
  pro_input-pair_at s timer,
  ap is_right t,
  ap is_left t,
  ap (λ (l : List ℕ). get_or l 0 0) e,
  ap (λ (l : List ℕ). get_or l 1 0) e,
  ap (λ (l : List ℕ). get_or l 2 0) e,
  ap (λ (l : List ℕ). get_or l 3 0) e,
)

-- What the console reads for each axis of a Pro Controller, through the calibration in its flash
-- memory, is the state's value (with the vertical axes turned round): on the same side, short by
-- at most one percent, and exact at rest and at full deflection.
pub console_reading :
    (s : ProState) (state : ControllerState) (home_override capture_override : Bool) (timer : ℕ)
    → s.type ≡ pro
    → s.sticks ≡ (build_nintendo_state state home_override capture_override).sticks
    → let left = pair_at (pro_input s timer) 7 in
      let right = pair_at (pro_input s timer) 10 in
      IsNear (reading (x_axis (left_pairs s)) left.0) (held (slot state lx))
      × IsNear (reading (y_axis (left_pairs s)) left.1) (neg (held (slot state ly)))
      × IsNear (reading (x_axis (right_pairs s)) right.0) (held (slot state rx))
      × IsNear (reading (y_axis (right_pairs s)) right.1) (neg (held (slot state ry)))
unfolding build_nintendo_state aimed
console_reading s state h c timer t e =
    let pairs =
      pro_pairs s timer _ _ _ _ t e
        (stick_axis-lt (slot state lx) 2159 1466 1517 false (omega arith) (omega arith))
        (stick_axis-lt (slot state ly) 1916 1583 1465 true (omega arith) (omega arith))
        (stick_axis-lt (slot state rx) 2070 1414 1522 false (omega arith) (omega arith))
        (stick_axis-lt (slot state ry) 2013 1510 1531 true (omega arith) (omega arith)) in
    let left = (flash_sticks s).0 (ap is_right t) in
    let right = (flash_sticks s).1 (ap is_left t) in
    (
      axis_reading _ _ (slot state lx) 2159 1466 1517 false (ap x_axis left)
          (ap (λ (q : ℕ × ℕ). q.0) pairs.0) (omega arith) (omega arith) (omega arith) (omega arith),
      axis_reading _ _ (slot state ly) 1916 1583 1465 true (ap y_axis left)
          (ap (λ (q : ℕ × ℕ). q.1) pairs.0) (omega arith) (omega arith) (omega arith) (omega arith),
      axis_reading _ _ (slot state rx) 2070 1414 1522 false (ap x_axis right)
          (ap (λ (q : ℕ × ℕ). q.0) pairs.1) (omega arith) (omega arith) (omega arith) (omega arith),
      axis_reading _ _ (slot state ry) 2013 1510 1531 true (ap y_axis right)
          (ap (λ (q : ℕ × ℕ). q.1) pairs.1) (omega arith) (omega arith) (omega arith) (omega arith),
    )
