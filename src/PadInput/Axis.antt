-- ===== src/PadInput/Axis.antt =====
-- The scaling of an axis: its range, its ends, its symmetry, and that it never turns back.
use capture2cloud.Base.{
  ℕ, ◌+◌, ◌-◌, ◌*◌, ◌/◌, ◌≤◌, ◌<◌, ◌≡◌, arith, ℤ, pos, negsuc, nat_abs, ltb_ℤ, neg, int8, leb, ltb,
  if◌then◌else◌, ◌≤ℤ◌, share_mono, share-le, share_whole,
}
use capture2cloud.Controller.{IsPercent}
use capture2cloud.PadInput.{stick_raw_max, axis_to_wire}

-- Where travel starts and where it ends, of a dead zone and a range in per cent.
abbrev pub dead_of : ℕ → ℕ
dead_of deadzone = stick_raw_max * deadzone / 100

share_of : ℕ → ℕ → ℕ → ℕ
share_of dead full value = ((if ltb full value then full else value) - dead) * 100 / (full - dead)

share_of_le : (dead full value : ℕ) → dead < full → share_of dead full value ≤ 100
unfolding share_of
share_of_le dead full value h =
    share-le ((if ltb full value then full else value) - dead) 100 (full - dead) (ground arith)

share_of_end : (dead full value : ℕ) → dead < full → full ≤ value → share_of dead full value ≡ 100
unfolding share_of
share_of_end dead full value h e =
    let held : (if ltb full value then full else value) ≡ full = ground arith in
    rw held (rw (share_whole_comm (full - dead) (omega arith)))
  where
    share_whole_comm : (m : ℕ) → 0 < m → m * 100 / m ≡ 100
    share_whole_comm m p = share_whole 100 m p

share_of_mono :
    (dead full v w : ℕ) → dead < full → v ≤ w → share_of dead full v ≤ share_of dead full w
unfolding share_of
share_of_mono dead full v w h le =
    share_mono ((if ltb full v then full else v) - dead) ((if ltb full w then full else w) - dead)
      100 (full - dead) (omega arith) (ground arith)

-- The answer, for settings whose range is beyond the dead zone.
axis_value :
    (deadzone range : ℕ) (raw : ℤ)
    → dead_of deadzone < dead_of range
    → let share = share_of (dead_of deadzone) (dead_of range) (nat_abs raw) in
      axis_to_wire deadzone range raw ≡ (
        if leb (nat_abs raw) (dead_of deadzone)
        then pos 0
        else if ltb_ℤ raw (pos 0)
        then neg (pos share)
        else pos share)
unfolding axis_to_wire share_of int8
axis_value deadzone range raw h =
    let limit = share_of_le (dead_of deadzone) (dead_of range) (nat_abs raw) h in
    ground (arith, limit)

-- With a range beyond the dead zone, every raw value becomes a percentage; within the dead zone
-- it is 0, from the range on it is 100 with the sign of the raw value.
pub axis_to_wire_lem :
    (deadzone range : ℕ) (raw : ℤ)
    → dead_of deadzone < dead_of range
    → let out = axis_to_wire deadzone range raw in
      IsPercent out
      × (nat_abs raw ≤ dead_of deadzone → out ≡ pos 0)
      × (dead_of range ≤ nat_abs raw → out ≡ (if ltb_ℤ raw (pos 0) then negsuc 99 else pos 100))
axis_to_wire_lem deadzone range raw h =
    let dead = dead_of deadzone in
    let full = dead_of range in
    let limit = share_of_le dead full (nat_abs raw) h in
    rw (axis_value deadzone range raw h) (
      ground (arith, limit),
      λ inside. ground (arith, inside),
      λ outside. rw (share_of_end dead full (nat_abs raw) h outside) (ground (arith, outside)),
    )

-- Pushing a stick further, to either side, never lowers what is sent for it.
pub axis_to_wire_mono :
    (deadzone range : ℕ) (v w : ℕ)
    → dead_of deadzone < dead_of range
    → v ≤ w
    → (axis_to_wire deadzone range (pos v) ≤ℤ axis_to_wire deadzone range (pos w))
      × (axis_to_wire deadzone range (negsuc w) ≤ℤ axis_to_wire deadzone range (negsuc v))
axis_to_wire_mono deadzone range v w h le =
    let dead = dead_of deadzone in
    let full = dead_of range in
    rw
      (
        axis_value deadzone range (pos v) h,
        axis_value deadzone range (pos w) h,
        axis_value deadzone range (negsuc v) h,
        axis_value deadzone range (negsuc w) h,
      )
      (
        ground (arith, share_of_mono dead full v w h le),
        ground (arith, share_of_mono dead full (v + 1) (w + 1) h (omega arith)),
      )
