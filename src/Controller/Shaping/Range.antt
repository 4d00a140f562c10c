-- ===== src/Controller/Shaping/Range.antt =====
-- What shaping leaves alone, and that it keeps a state within its range, whatever the arithmetic
-- of the machine's floats.
use capture2cloud.Base.{
  ℕ, ◌<◌, ◌≡◌, ◌≢◌, ◌⊎◌, refl, ◌∙◌, arith, Bool, true, false, Option, none, some, ℤ, pos, negsuc,
  ltb_ℤ, neg, int8, int8_id, IsInt8, set, get_or-set_ne, get_or-set_holds, length, length-set,
  if◌then◌else◌, Bool-cases, if_holds, inl, inr,
}
use mathlib.Core.Path.{subst}
use capture2cloud.Controller.{
  ControllerState, slot, IsPercent, is_signed, InRange, IsInRange, l2, r2, lx, ly, rx, ry,
}
use capture2cloud.Controller.Shaping.{
  Floats, StickShaping, ControllerShaping, output_defaults, clamp_int, trigger, rounded, percent,
  written, controller_shape_stick, neutral_stick_shape, shape_one, controller_shape_state,
}

not_signed : (i : ℕ) → is_signed i ≡ false → (i < rx) ⊎ (ly < i)
not_signed i e = ground arith

percent-IsInt8 : (v : ℤ) → IsPercent v → IsInt8 v
percent-IsInt8 v h = (omega (arith, h.0), omega (arith, h.1))

clamp-IsPercent : (v : ℤ) → IsPercent (clamp_int v (negsuc 99) (pos 100))
unfolding clamp_int
clamp-IsPercent v = ground arith

int8-IsPercent : (v : ℤ) → IsPercent v → IsPercent (int8 v)
int8-IsPercent v h = rw (int8_id v (percent-IsInt8 v h)) h

neg-IsPercent : (v : ℤ) → IsPercent v → IsPercent (int8 (neg v))
neg-IsPercent v h = int8-IsPercent (neg v) (ground arith)

axis-InRange : (i : ℕ) (v : ℤ) → is_signed i ≡ true → IsPercent v → InRange i v
axis-InRange i v e p = rw e p

set-IsInRange :
    (state : ControllerState) (i : ℕ) (v : ℤ)
    → IsInRange state
    → InRange i v
    → IsInRange (set state i v)
set-IsInRange state i v h p j =
    get_or-set_holds (InRange j) state i j v (pos 0) (h j) (λ e. subst (λ k. InRange k v) e p)

pressed-InRange : (i : ℕ) (b : Bool) → InRange i (if b then pos 100 else pos 0)
pressed-InRange i true = (omega arith, omega arith)
pressed-InRange i false = (omega arith, omega arith)

trigger-IsInRange :
    (threshold : ℤ) (i : ℕ) (input output : ControllerState)
    → IsInRange output
    → IsInRange (trigger threshold i input output)
trigger-IsInRange threshold i input output h =
    if_holds IsInRange (ltb_ℤ (pos 0) threshold)
      (set-IsInRange output i _ h (pressed-InRange i (ltb_ℤ threshold (slot input i)))) h

length-trigger :
    (threshold : ℤ) (i : ℕ) (input output : ControllerState)
    → length (trigger threshold i input output) ≡ length output
length-trigger threshold i input output =
    if_holds (λ (t : ControllerState). length t ≡ length output) (ltb_ℤ (pos 0) threshold)
      (length-set output i _) refl

trigger_ne :
    (threshold : ℤ) (i j : ℕ) (input output : ControllerState)
    → i ≢ j
    → slot (trigger threshold i input output) j ≡ slot output j
trigger_ne threshold i j input output h = elim (Bool-cases (ltb_ℤ (pos 0) threshold)) [
  | inl on ↦ rw on (get_or-set_ne output i j _ (pos 0) h)
  | inr off ↦ rw off
]

written-IsPercent :
    (c d : Bool) (px py : ℤ)
    → IsPercent px
    → IsPercent py
    → IsPercent (written c d px py).0 × IsPercent (written c d px py).1
written-IsPercent true d px py p q = ((omega arith, omega arith), (omega arith, omega arith))
written-IsPercent false true px py p q = ((omega arith, omega arith), (omega arith, omega arith))
written-IsPercent false false px py p q = (int8-IsPercent px p, int8-IsPercent py q)

module _ (f : Floats) where
  rounded-IsPercent : (x scale : f.Float) → IsPercent (rounded f x scale)
  unfolding rounded
  rounded-IsPercent x scale = clamp-IsPercent _

  -- Whatever the stick's position and the calibration, both outputs are between -100 and 100.
  pub shape_stick-IsPercent :
      (x y : f.Float) (s : StickShaping)
      → let out = controller_shape_stick f x y s in IsPercent out.0 × IsPercent out.1
  unfolding controller_shape_stick
  shape_stick-IsPercent x y s =
      written-IsPercent _ _ _ _ (rounded-IsPercent x _) (rounded-IsPercent y _)

  shape_one-IsInRange :
      (s : StickShaping) (x y : ℕ) (input output : ControllerState)
      → is_signed x ≡ true
      → is_signed y ≡ true
      → IsInRange output
      → IsInRange (shape_one f s x y input output)
  unfolding shape_one
  shape_one-IsInRange s x y input output ax ay h =
      let shaped = shape_stick-IsPercent (percent f (slot input x)) (percent f (slot input y)) s in
      if_holds IsInRange (neutral_stick_shape s) h (
        set-IsInRange (set output x _) y _
          (set-IsInRange output x _ h (axis-InRange x _ ax shaped.0))
          (axis-InRange y _ ay shaped.1))

  length-shape_one :
      (s : StickShaping) (x y : ℕ) (input output : ControllerState)
      → length (shape_one f s x y input output) ≡ length output
  unfolding shape_one
  length-shape_one s x y input output =
      if_holds (λ (t : ControllerState). length t ≡ length output) (neutral_stick_shape s) refl
        (length-set (set output x _) y _ ∙ length-set output x _)

  shape_one_ne :
      (s : StickShaping) (x y j : ℕ) (input output : ControllerState)
      → x ≢ j
      → y ≢ j
      → slot (shape_one f s x y input output) j ≡ slot output j
  unfolding shape_one
  shape_one_ne s x y j input output p q =
      if_holds (λ t. slot t j ≡ slot output j) (neutral_stick_shape s) refl
        (get_or-set_ne (set output x _) y j _ (pos 0) q ∙ get_or-set_ne output x j _ (pos 0) p)

  -- Every control but the sticks and the two triggers passes through unchanged.
  pub shape_state_buttons :
      (s : Option ControllerShaping) (input : ControllerState) (i : ℕ)
      → l2 ≢ i
      → r2 ≢ i
      → (i < rx) ⊎ (ly < i)
      → slot (controller_shape_state f s input) i ≡ slot input i
  unfolding controller_shape_state
  shape_state_buttons none input i p q h = refl
  shape_state_buttons (some s) input i p q h =
      let left = trigger_ne s.lt_threshold l2 i input input p in
      let triggers = trigger_ne s.rt_threshold r2 i input _ q ∙ left in
      let sticks =
        shape_one_ne s.right_stick rx ry i input _ (λ e. omega (arith, e)) (λ e. omega (arith, e))
        ∙ shape_one_ne s.left_stick lx ly i input _ (λ e. omega (arith, e)) (λ e. omega (arith, e))
        ∙ triggers in
      if_holds (λ t. slot t i ≡ slot input i) s.invert_ry
        (get_or-set_ne _ ry i _ (pos 0) (λ e. omega (arith, e)) ∙ sticks) sticks

  length-shape_state :
      (s : Option ControllerShaping) (input : ControllerState)
      → length (controller_shape_state f s input) ≡ length input
  unfolding controller_shape_state
  length-shape_state none input = refl
  length-shape_state (some s) input =
      let sticks =
        length-shape_one s.right_stick rx ry input _
        ∙ length-shape_one s.left_stick lx ly input _
        ∙ length-trigger s.rt_threshold r2 input _
        ∙ length-trigger s.lt_threshold l2 input input in
      if_holds (λ (t : ControllerState). length t ≡ length input) s.invert_ry
        (length-set _ ry _ ∙ sticks) sticks

  ranges :
      (s : Option ControllerShaping) (input : ControllerState)
      → IsInRange input
      → IsInRange (controller_shape_state f s input)
  unfolding controller_shape_state
  ranges none input h = h
  ranges (some s) input h =
      let left = trigger-IsInRange s.lt_threshold l2 input input h in
      let triggers = trigger-IsInRange s.rt_threshold r2 input _ left in
      let sticks =
        shape_one-IsInRange s.right_stick rx ry input _ refl refl
          (shape_one-IsInRange s.left_stick lx ly input _ refl refl triggers) in
      if_holds IsInRange s.invert_ry (set-IsInRange _ ry _ sticks (neg-IsPercent _ (sticks ry)))
        sticks

  -- A state with each control in its range, axes from -100 to 100 and triggers and buttons from 0
  -- to 100, is shaped to one with each control in its range, whatever the calibration and the
  -- arithmetic of the floats. It has as many controls, and all but the sticks and the two triggers
  -- are unchanged.
  pub shape_state-IsInRange :
      (s : Option ControllerShaping) (input : ControllerState)
      → IsInRange input
      → let output = controller_shape_state f s input in
        IsInRange output
        × (length output ≡ length input)
        × ((i : ℕ) → l2 ≢ i → r2 ≢ i → is_signed i ≡ false → slot output i ≡ slot input i)
  shape_state-IsInRange s input h = (
    ranges s input h,
    length-shape_state s input,
    λ i p q e. shape_state_buttons s input i p q (not_signed i e),
  )

  -- The output defaults pass every state through exactly, and so does having no calibration.
  pub shape_state_defaults :
      (input : ControllerState)
      → (controller_shape_state f (some output_defaults) input ≡ input)
        × (controller_shape_state f none input ≡ input)
  unfolding controller_shape_state shape_one neutral_stick_shape
  shape_state_defaults input = (refl, refl)
