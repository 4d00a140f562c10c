-- ===== src/Pcble/Tests.antt =====
-- The emulated controller at concrete states and reports.
use capture2cloud.Base.{◌+ℤ◌}
use capture2cloud.Base.{
  ℕ, ◌+◌, ◌<◌, List, [], ◌∷◌, ◌++◌, ◌≡◌, refl, ◌⊎◌, arith, true, false, pos, negsuc, neg, ◌+ℤ◌,
  get_or, length, replicate, u32, ◌||◌,
}
use capture2cloud.Controller.{
  ControllerState, slot, home, select, start, r1, r2, r3, l1, l2, l3, lx, ly, rx, ry, up, down,
  left, right, face_north, face_east, face_south, face_west,
}
use capture2cloud.Pcble.Protocol.{ProState, pro_init, pro_input}
use capture2cloud.Pcble.Protocol.Reports.{pair_at}
use capture2cloud.Pcble.Spi.{spi}
use capture2cloud.Pcble.Reply.{pro_reply}
use capture2cloud.Pcble.Reply.Flash.{pro_reply_flash}
use capture2cloud.Pcble.Reply.Errors.{SameController, pro_reply_keeps}
use capture2cloud.Pcble.Output.{
  pressed, held, aimed, to_stick, stick_axis, deflected, build_nintendo_state, face_byte,
  middle_byte, pad_byte,
}
use capture2cloud.Pcble.Sticks.{IsNear, reading, x_axis, y_axis, left_pairs, right_pairs}
use capture2cloud.Pcble.Buttons.{HasDigits, button_bytes}
use capture2cloud.Pcble.Console.{console_reading}

abbrev address : List ℕ
address = 1 ∷ 2 ∷ 3 ∷ 4 ∷ 5 ∷ 6 ∷ []

-- The left stick right and a little up, the south button and the right trigger pressed.
abbrev state : ControllerState
state =
    pos 0
    ∷ pos 0
    ∷ pos 0
    ∷ pos 0
    ∷ pos 100
    ∷ pos 0
    ∷ pos 0
    ∷ pos 0
    ∷ pos 0
    ∷ pos 0
    ∷ pos 0
    ∷ pos 100
    ∷ negsuc 24
    ∷ pos 0
    ∷ pos 0
    ∷ pos 0
    ∷ pos 0
    ∷ pos 0
    ∷ pos 0
    ∷ pos 100
    ∷ pos 0
    ∷ []

-- A Pro Controller that holds the state.
abbrev holding : ProState
holding = record (pro_init address) {
  buttons = (build_nintendo_state state false false).buttons;
  sticks = (build_nintendo_state state false false).sticks;
}

sent_buttons : (build_nintendo_state state true false).buttons ≡ 0x84 ∷ 0x10 ∷ 0 ∷ []
unfolding build_nintendo_state
sent_buttons = refl

sent_sticks : (build_nintendo_state state false false).sticks ≡ 3625 ∷ 2311 ∷ 2070 ∷ 2013 ∷ []
unfolding build_nintendo_state stick_axis deflected aimed to_stick ◌+ℤ◌
sent_sticks = refl

-- A request for the 18 bytes of stick calibration.
abbrev request : List ℕ
request = 0xa2 ∷ 0x01 ∷ (replicate 9 0 ++ (0x10 ∷ 0x3d ∷ 0x60 ∷ 0 ∷ 0 ∷ 18 ∷ []))

pro_reply_flash_example :
    let r = pro_reply (pro_init address) request 17 3 (replicate 50 0) in
    (r.answered ≡ true)
    × (r.state ≡ pro_init address)
    × (length r.out ≡ 50)
    × (21 + 5 < 50)
    × (get_or r.out (21 + 5) 0 ≡ spi (pro_init address) (u32 (0x603d + 5)))
pro_reply_flash_example =
    pro_reply_flash (pro_init address) request 17 3 5 (replicate 50 0)
      (record {
        long_enough = omega arith;
        output_report = refl;
        subcommand_report = refl;
        reads_flash = refl;
        few = omega arith;
        bytes = (omega arith, omega arith, omega arith);
      })
      (omega arith)

pro_reply_keeps_example :
    let r = pro_reply (pro_init address) request 16 3 (replicate 50 0) in
    SameController (pro_init address) r.state
    × (length r.out ≡ 50)
    × ((r.answered ≡ true) ⊎ (r.state ≡ pro_init address))
pro_reply_keeps_example = pro_reply_keeps (pro_init address) request (replicate 50 0) 16 3 refl

button_bytes_example :
    HasDigits
      (face_byte state)
      (pressed state face_west)
      (pressed state face_north)
      (pressed state face_south)
      (pressed state face_east)
      false
      false
      (pressed state r1)
      (pressed state r2)
    × HasDigits
        (middle_byte state true false)
        (pressed state select)
        (pressed state start)
        (pressed state r3)
        (pressed state l3)
        (pressed state home || true)
        false
        false
        false
    × HasDigits
        (pad_byte state)
        (pressed state down)
        (pressed state up)
        (pressed state right)
        (pressed state left)
        false
        false
        (pressed state l1)
        (pressed state l2)
button_bytes_example = button_bytes state true false

console_reading_example :
    let left_pair = pair_at (pro_input holding 9) 7 in
    let right_pair = pair_at (pro_input holding 9) 10 in
    IsNear (reading (x_axis (left_pairs holding)) left_pair.0) (held (slot state lx))
    × IsNear (reading (y_axis (left_pairs holding)) left_pair.1) (neg (held (slot state ly)))
    × IsNear (reading (x_axis (right_pairs holding)) right_pair.0) (held (slot state rx))
    × IsNear (reading (y_axis (right_pairs holding)) right_pair.1) (neg (held (slot state ry)))
console_reading_example = console_reading holding state false false 9 (unfold pro_init in refl) refl
