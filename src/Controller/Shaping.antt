-- ===== src/Controller/Shaping.antt =====
-- server/controller_shaping.c: the calibration that the host applies to a merged state before a
-- backend sees it. The stick's curve is in `float`, whose operations are a parameter.
pub mod Range
mod Tests
use capture2cloud.Base.{
  ℕ, ◌+◌, ◌-◌, ◌≤◌, List, Bool, true, false, ◌&&◌, not, ltb, ◌==◌, if◌then◌else◌, Option, none,
  some, ℤ, pos, negsuc, ltb_ℤ, neg, int8, set,
}
use capture2cloud.Controller.{ControllerState, slot, l2, r2, lx, ly, rx, ry}

-- C's `float` with what the code uses of it; `of_ratio n d` is the literal n / d, and `truncate`
-- is the cast to `int`.
pub record Floats : Type 1 where
  pub Float : Type 0
  pub of_int : ℤ → Float
  pub of_ratio : ℤ → ℕ → Float
  pub add : Float → Float → Float
  pub subtract : Float → Float → Float
  pub multiply : Float → Float → Float
  pub divide : Float → Float → Float
  pub sqrtf : Float → Float
  pub fabsf : Float → Float
  pub less : Float → Float → Bool
  pub less_equal : Float → Float → Bool
  pub truncate : Float → ℤ

-- The two elements of the stick arrays are `left_…` and `right_…`.
pub record StickShaping : Type 0 where
  pub deadzone : ℤ
  pub range : ℤ
  pub diagonal : ℤ

pub record ControllerShaping : Type 0 where
  pub invert_ry : Bool
  pub lt_threshold : ℤ
  pub rt_threshold : ℤ
  pub left_stick : StickShaping
  pub right_stick : StickShaping

abbrev pub neutral_stick : StickShaping
neutral_stick = record { deadzone = pos 0; range = pos 100; diagonal = pos 100 }

abbrev pub output_defaults : ControllerShaping
output_defaults = record {
  invert_ry = false;
  lt_threshold = pos 0;
  rt_threshold = pos 0;
  left_stick = neutral_stick;
  right_stick = neutral_stick;
}

unfoldable pub clamp_int : ℤ → ℤ → ℤ → ℤ
clamp_int value lo hi = if ltb_ℤ value lo then lo else if ltb_ℤ hi value then hi else value

abbrev equal_ℤ : ℤ → ℤ → Bool
equal_ℤ a b = not (ltb_ℤ a b) && not (ltb_ℤ b a)

unfoldable pub neutral_stick_shape : StickShaping → Bool
neutral_stick_shape s =
    equal_ℤ s.deadzone (pos 0) && (equal_ℤ s.range (pos 100) && equal_ℤ s.diagonal (pos 100))

abbrev trigger : ℤ → ℕ → ControllerState → ControllerState → ControllerState
trigger threshold i input output =
    if ltb_ℤ (pos 0) threshold
    then set output i (if ltb_ℤ threshold (slot input i) then pos 100 else pos 0)
    else output

-- What is in `*out_x` and `*out_y` after the two early returns, or at the end.
abbrev written : Bool → Bool → ℤ → ℤ → ℤ × ℤ
written no_deflection in_dead_zone px py =
    if no_deflection
    then (pos 0, pos 0)
    else if in_dead_zone
    then (pos 0, pos 0)
    else (int8 px, int8 py)

module _ (f : Floats) where
  abbrev percent : ℤ → f.Float
  percent v = f.divide (f.of_int v) (f.of_ratio (pos 100) 1)

  -- `a > b ? a : b` and `a > b ? b : a`.
  abbrev larger : f.Float → f.Float → f.Float
  larger a b = if f.less b a then a else b

  abbrev smaller : f.Float → f.Float → f.Float
  smaller a b = if f.less b a then b else a

  -- `t`, held between 0 and 1.
  unfoldable pub travel : f.Float → f.Float → f.Float → f.Float
  travel mag dead sat0 =
      let sat = if f.less_equal sat0 dead then f.add dead (f.of_ratio (pos 1) 100) else sat0 in
      let t = f.divide (f.subtract mag dead) (f.subtract sat dead) in
      let capped = if f.less (f.of_ratio (pos 1) 1) t then f.of_ratio (pos 1) 1 else t in
      if f.less capped (f.of_ratio (pos 0) 1) then f.of_ratio (pos 0) 1 else capped

  -- `(int)(x * scale + (x < 0 ? -0.5f : 0.5f))`, clamped.
  unfoldable pub rounded : f.Float → f.Float → ℤ
  rounded x scale =
      let half =
        if f.less x (f.of_int (pos 0)) then f.of_ratio (negsuc 0) 2 else f.of_ratio (pos 1) 2 in
      clamp_int (f.truncate (f.add (f.multiply x scale) half)) (negsuc 99) (pos 100)

  -- `*out_x` and `*out_y`.
  unfoldable pub controller_shape_stick : f.Float → f.Float → StickShaping → ℤ × ℤ
  controller_shape_stick x y s =
      let tiny = f.of_ratio (pos 1) 10000 in
      let none_yet = f.of_ratio (pos 0) 1 in
      let mag = f.sqrtf (f.add (f.multiply x x) (f.multiply y y)) in
      let ax = f.fabsf x in
      let ay = f.fabsf y in
      let peak = larger ax ay in
      let diagonality = if f.less tiny peak then f.divide (smaller ax ay) peak else none_yet in
      let dead = percent (clamp_int s.deadzone (pos 0) (pos 99)) in
      let sat_axis = percent (clamp_int s.range (pos 1) (pos 100)) in
      let sat_diag = percent (clamp_int s.diagonal (pos 1) (pos 100)) in
      let sat = f.add sat_axis (f.multiply (f.subtract sat_diag sat_axis) diagonality) in
      let t = travel mag dead sat in
      let scale =
        if f.less tiny peak
        then f.divide (f.multiply t (f.of_ratio (pos 100) 1)) peak
        else none_yet in
      written (f.less mag tiny) (f.less_equal mag dead) (rounded x scale) (rounded y scale)

  -- One stick of a state: `x` and `y` are its indices.
  unfoldable pub shape_one :
      StickShaping → ℕ → ℕ → ControllerState → ControllerState → ControllerState
  shape_one s x y input output =
      let shaped = controller_shape_stick (percent (slot input x)) (percent (slot input y)) s in
      if neutral_stick_shape s then output else set (set output x shaped.0) y shaped.1

  unfoldable pub controller_shape_state :
      Option ControllerShaping → ControllerState → ControllerState
  controller_shape_state none input = input
  controller_shape_state (some s) input =
      let left = trigger s.lt_threshold l2 input input in
      let triggers = trigger s.rt_threshold r2 input left in
      let sticks =
        shape_one s.right_stick rx ry input (shape_one s.left_stick lx ly input triggers) in
      if s.invert_ry then set sticks ry (int8 (neg (slot sticks ry))) else sticks
