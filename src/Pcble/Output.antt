-- ===== src/Pcble/Output.antt =====
-- server/output_pcble.c: a controller state as Nintendo button bytes and 12-bit stick values.
use capture2cloud.Base.{
  ℕ, List, [], ◌∷◌, Bool, true, false, ◌||◌, if◌then◌else◌, bit_or, ℤ, pos, negsuc, pos_part, ltb_ℤ,
  neg, scale, tdiv, ◌+ℤ◌,
}
use capture2cloud.Controller.{
  ControllerState, slot, home, select, start, r1, r2, r3, l1, l2, l3, rx, ry, lx, ly, up, down,
  left, right, face_north, face_east, face_south, face_west,
}

abbrev pub pressed : ControllerState → ℕ → Bool
pressed state index = ltb_ℤ (pos 0) (slot state index)

-- `value` held between -100 and 100.
unfoldable pub held : ℤ → ℤ
held value =
    if ltb_ℤ (pos 100) value then pos 100 else if ltb_ℤ value (negsuc 99) then negsuc 99 else value

-- The range of a 12-bit value.
unfoldable pub to_stick : ℤ → ℕ
to_stick result =
    if ltb_ℤ result (pos 0) then 0 else if ltb_ℤ (pos 4095) result then 4095 else pos_part result

unfoldable pub aimed : ℤ → Bool → ℤ
unfolding held
aimed value invert = if invert then neg (held value) else held value

unfoldable pub deflected : ℤ → ℕ → ℕ → ℕ → ℕ
deflected value center positive negative =
    if ltb_ℤ value (pos 0)
    then to_stick (pos center +ℤ tdiv (scale negative value) 100)
    else to_stick (pos center +ℤ tdiv (scale positive value) 100)

unfoldable pub stick_axis : ℤ → ℕ → ℕ → ℕ → Bool → ℕ
stick_axis value center positive negative invert =
    deflected (aimed value invert) center positive negative

-- `if (test) bits |= mask`.
abbrev pub mark : Bool → ℕ → ℕ → ℕ
mark test mask bits = if test then bit_or bits mask else bits

unfoldable pub face_byte : ControllerState → ℕ
face_byte state =
    let b1 = mark (pressed state face_west) 0x01 0 in
    let b2 = mark (pressed state face_north) 0x02 b1 in
    let b3 = mark (pressed state face_south) 0x04 b2 in
    let b4 = mark (pressed state face_east) 0x08 b3 in
    let b5 = mark (pressed state r1) 0x40 b4 in mark (pressed state r2) 0x80 b5

unfoldable pub middle_byte : ControllerState → Bool → Bool → ℕ
middle_byte state home_override capture_override =
    let b1 = mark (pressed state select) 0x01 0 in
    let b2 = mark (pressed state start) 0x02 b1 in
    let b3 = mark (pressed state r3) 0x04 b2 in
    let b4 = mark (pressed state l3) 0x08 b3 in
    let b5 = mark (pressed state home || home_override) 0x10 b4 in mark capture_override 0x20 b5

unfoldable pub pad_byte : ControllerState → ℕ
pad_byte state =
    let b1 = mark (pressed state down) 0x01 0 in
    let b2 = mark (pressed state up) 0x02 b1 in
    let b3 = mark (pressed state right) 0x04 b2 in
    let b4 = mark (pressed state left) 0x08 b3 in
    let b5 = mark (pressed state l1) 0x40 b4 in mark (pressed state l2) 0x80 b5

pub record NintendoState : Type 0 where
  pub buttons : List ℕ
  pub sticks : List ℕ

unfoldable pub build_nintendo_state : ControllerState → Bool → Bool → NintendoState
unfolding face_byte middle_byte pad_byte
build_nintendo_state state home_override capture_override = record {
  buttons =
      face_byte state ∷ middle_byte state home_override capture_override ∷ pad_byte state ∷ [];
  sticks =
      stick_axis (slot state lx) 2159 1466 1517 false
      ∷ stick_axis (slot state ly) 1916 1583 1465 true
      ∷ stick_axis (slot state rx) 2070 1414 1522 false
      ∷ stick_axis (slot state ry) 2013 1510 1531 true
      ∷ [];
}
