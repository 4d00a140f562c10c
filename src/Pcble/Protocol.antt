-- ===== src/Pcble/Protocol.antt =====
-- pcble_backend/poc/protocol.c: the controller's state and its input reports.
pub mod Reports
use capture2cloud.Base.{
  ℕ, ◌+◌, ◌-◌, ◌*◌, ◌/◌, ◌^◌, List, [], ◌∷◌, Bool, true, false, not, ltb, ◌==◌, ◌||◌, if◌then◌else◌,
  bit_and, bit_or, get_or, set, copy, replicate, u8, u16, ◌<<◌, ◌>>◌,
}

pub data ControllerType : Type 0 where
  joycon_l joycon_r pro : ControllerType

-- The enumeration's numbers.
abbrev pub type_code : ControllerType → ℕ
type_code joycon_l = 1
type_code joycon_r = 2
type_code pro = 3

abbrev pub is_pro : ControllerType → Bool
is_pro pro = true
is_pro _ = false

abbrev pub is_left : ControllerType → Bool
is_left joycon_l = true
is_left _ = false

abbrev pub is_right : ControllerType → Bool
is_right joycon_r = true
is_right _ = false

-- Byte arrays are lists: 6, 3, 3, 3, 3 and 3 bytes, and 4 sticks of 16 bits.
pub record ProState : Type 0 where
  pub address : List ℕ
  pub buttons : List ℕ
  pub lights : ℕ
  pub mode : ℕ
  pub body_color : List ℕ
  pub button_color : List ℕ
  pub left_grip_color : List ℕ
  pub right_grip_color : List ℕ
  pub sticks : List ℕ
  pub type : ControllerType
  pub imu : Bool
  pub vibration : Bool

abbrev pub button : ProState → ℕ → ℕ
button s i = get_or s.buttons i 0

abbrev pub stick : ProState → ℕ → ℕ
stick s i = get_or s.sticks i 0

unfoldable pub pack : ℕ → ℕ → List ℕ
pack x y = u8 x ∷ u8 (bit_or (x >> 8) (y << 4)) ∷ u8 (y >> 4) ∷ []

abbrev body_of : ControllerType → List ℕ
body_of pro = 0x82 ∷ 0x82 ∷ 0x82 ∷ []
body_of joycon_l = 0x0a ∷ 0xb9 ∷ 0xe6 ∷ []
body_of joycon_r = 0xff ∷ 0x3c ∷ 0x28 ∷ []

abbrev buttons_of : ControllerType → List ℕ
buttons_of pro = 0x0f ∷ 0x0f ∷ 0x0f ∷ []
buttons_of joycon_l = 0x00 ∷ 0x1e ∷ 0x1e ∷ []
buttons_of joycon_r = 0x1e ∷ 0x0a ∷ 0x0a ∷ []

unfoldable pub controller_init : ControllerType → List ℕ → ProState
controller_init type address = record {
  address = address;
  buttons = 0 ∷ 0 ∷ 0 ∷ [];
  lights = 0;
  mode = if is_pro type then 0x3f else 0x30;
  body_color = body_of type;
  button_color = buttons_of type;
  left_grip_color = body_of type;
  right_grip_color = body_of type;
  sticks = 0x86f ∷ 0x77c ∷ 0x816 ∷ 0x7dd ∷ [];
  type = type;
  imu = false;
  vibration = false;
}

unfoldable pub controller_set_colors : ProState → List ℕ → List ℕ → List ℕ → List ℕ → ProState
controller_set_colors s body buttons left_grip right_grip = record s {
  body_color = body;
  button_color = buttons;
  left_grip_color = left_grip;
  right_grip_color = right_grip;
}

unfoldable pub pro_init : List ℕ → ProState
unfolding controller_init
pro_init address = controller_init pro address

abbrev shared_buttons : ControllerType → ℕ
shared_buttons joycon_l = 0x29
shared_buttons joycon_r = 0x16
shared_buttons pro = 0xff

-- `if (test) *p = v`, on the buffer that holds `p`.
abbrev pub when : Bool → List ℕ → List ℕ → List ℕ
when test written out = if test then written else out

-- The bytes are written in the order of the source.
unfoldable pub pro_input : ProState → ℕ → List ℕ
unfolding pack copy
pro_input s timer =
    let o1 = set (replicate 50 0) 0 0xa1 in
    let o2 = set o1 1 0x30 in
    let o3 = set o2 2 timer in
    let o4 = set o3 3 (if is_pro s.type then 0x80 else 0x9e) in
    let o5 = when (not (is_left s.type)) (set o4 4 (button s 0)) o4 in
    let o6 = set o5 5 (bit_and (button s 1) (shared_buttons s.type)) in
    let o7 = when (not (is_right s.type)) (set o6 6 (button s 2)) o6 in
    let o8 = when (not (is_right s.type)) (copy o7 7 (pack (stick s 0) (stick s 1))) o7 in
    let o9 = when (not (is_left s.type)) (copy o8 10 (pack (stick s 2) (stick s 3))) o8 in
    let o10 = set o9 13 0x80 in when s.imu (set (set (set o10 19 0x10) 31 0x10) 43 0x10) o10

-- `-` does not stop at 0 here: the smaller number is taken off.
unfoldable pub axis16 : ℕ → ℕ → Bool → ℕ
axis16 value center invert =
    let scaled =
      if value == center
      then 0x8000
      else if ltb center value
      then u16 (0x8000 + (value - center) * 0x7fff / (4095 - center))
      else u16 (0x8000 - (center - value) * 0x8000 / center) in
    if not invert || scaled == 0x8000 then scaled else u16 (0xffff - scaled)

-- `(buttons[i] & bit) ? value : 0`.
abbrev flag : ℕ → ℕ → ℕ → ℕ
flag b bit value = if bit_and b bit == 0 then 0 else value

-- `(buttons[i] & bit) != 0`.
abbrev set_bit : ℕ → ℕ → ℕ
set_bit b bit = if bit_and b bit == 0 then 0 else 1

abbrev pub hats : List (List ℕ)
hats = (5 ∷ 4 ∷ 3 ∷ []) ∷ (6 ∷ 8 ∷ 2 ∷ []) ∷ (7 ∷ 0 ∷ 1 ∷ []) ∷ []

unfoldable pub vertical : ℕ → ℕ
vertical b = 1 + set_bit b 0x02 - set_bit b 0x01

unfoldable pub horizontal : ℕ → ℕ
horizontal b = 1 + set_bit b 0x04 - set_bit b 0x08

unfoldable pub hat : ℕ → ℕ
unfolding vertical horizontal
hat b = get_or (get_or hats (vertical b) []) (horizontal b) 0

unfoldable pub simple_buttons : ℕ → ℕ → ℕ
simple_buttons b0 b2 =
    bit_or
      (bit_or
        (bit_or
          (bit_or
            (bit_or (bit_or (bit_or (flag b0 0x04 0x01) (flag b0 0x08 0x02)) (flag b0 0x01 0x04))
              (flag b0 0x02 0x08))
            (flag b2 0x40 0x10))
          (flag b0 0x40 0x20))
        (flag b2 0x80 0x40))
      (flag b0 0x80 0x80)

unfoldable pub simple_shared : ℕ → ℕ
simple_shared b1 = bit_or (bit_or (bit_and b1 0x33) (flag b1 0x08 0x04)) (flag b1 0x04 0x08)

abbrev axis_bytes : ℕ → List ℕ
axis_bytes a = u8 a ∷ u8 (a >> 8) ∷ []

-- The buffer and the number of its bytes that are sent.
unfoldable pub pro_stream_input : ProState → ℕ → List ℕ × ℕ
unfolding pro_input hat simple_buttons simple_shared copy axis16
pro_stream_input s timer =
    if not (is_pro s.type) || s.mode == 0x30
    then (pro_input s timer, 50)
    else let o1 = set (replicate 50 0) 0 0xa1 in
      let o2 = set o1 1 0x3f in
      let o3 = set o2 2 (simple_buttons (button s 0) (button s 2)) in
      let o4 = set o3 3 (simple_shared (button s 1)) in
      let o5 = set o4 4 (hat (button s 2)) in
      let o6 = copy o5 5 (axis_bytes (axis16 (stick s 0) 0x86f false)) in
      let o7 = copy o6 7 (axis_bytes (axis16 (stick s 1) 0x77c true)) in
      let o8 = copy o7 9 (axis_bytes (axis16 (stick s 2) 0x816 false)) in
      let o9 = copy o8 11 (axis_bytes (axis16 (stick s 3) 0x7dd true)) in (o9, 13)
