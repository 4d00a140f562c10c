-- ===== src/Controller.antt =====
-- server/controller_state.h: the 21 signed bytes that every source and every backend share.
-- Axes run from -100 to 100, buttons and triggers from 0 to 100.
pub mod Shaping
use capture2cloud.Base.{
  Bool, ◌&&◌, leb, if◌then◌else◌, ℕ, ◌≤◌, List, ◌≡◌, ℤ, pos, pos_part, neg_part, get_or, length,
  All, IsInt8,
}

abbrev pub home : ℕ
home = 0

abbrev pub select : ℕ
select = 1

abbrev pub start : ℕ
start = 2

abbrev pub r1 : ℕ
r1 = 3

abbrev pub r2 : ℕ
r2 = 4

abbrev pub r3 : ℕ
r3 = 5

abbrev pub l1 : ℕ
l1 = 6

abbrev pub l2 : ℕ
l2 = 7

abbrev pub l3 : ℕ
l3 = 8

abbrev pub rx : ℕ
rx = 9

abbrev pub ry : ℕ
ry = 10

abbrev pub lx : ℕ
lx = 11

abbrev pub ly : ℕ
ly = 12

abbrev pub up : ℕ
up = 13

abbrev pub down : ℕ
down = 14

abbrev pub left : ℕ
left = 15

abbrev pub right : ℕ
right = 16

abbrev pub face_north : ℕ
face_north = 17

abbrev pub face_east : ℕ
face_east = 18

abbrev pub face_south : ℕ
face_south = 19

abbrev pub face_west : ℕ
face_west = 20

abbrev pub state_count : ℕ
state_count = 21

abbrev pub ControllerState : Type 0
ControllerState = List ℤ

abbrev pub slot : ControllerState → ℕ → ℤ
slot state i = get_or state i (pos 0)

-- An `int8_t[CONTROLLER_STATE_COUNT]`.
abbrev pub IsState : ControllerState → Type 0
IsState state = (length state ≡ state_count) × All IsInt8 state

-- A value between -100 and 100.
abbrev pub IsPercent : ℤ → Type 0
IsPercent v = (pos_part v ≤ 100) × (neg_part v ≤ 100)

abbrev pub is_signed : ℕ → Bool
is_signed i = leb rx i && leb i ly

-- The range of each control: axes from -100 to 100, the others from 0 to 100.
abbrev pub InRange : ℕ → ℤ → Type 0
InRange i v = (pos_part v ≤ 100) × (neg_part v ≤ (if is_signed i then 100 else 0))

abbrev pub IsInRange : ControllerState → Type 0
IsInRange state = (i : ℕ) → InRange i (slot state i)
