-- ===== src/Pcble/Buttons.antt =====
-- The three button bytes of `build_nintendo_state` in server/output_pcble.c.
use capture2cloud.Base.{ℕ, ◌+◌, ◌*◌, ◌≡◌, arith, Bool, false, ◌||◌, if◌then◌else◌}
use capture2cloud.Controller.{
  ControllerState, home, select, start, r1, r2, r3, l1, l2, l3, up, down, left, right, face_north,
  face_east, face_south, face_west,
}
use capture2cloud.Pcble.Output.{pressed, mark, face_byte, middle_byte, pad_byte}

-- A truth value as a binary digit.
abbrev pub digit : Bool → ℕ
digit b = if b then 1 else 0

-- `bits` has exactly these digits.
abbrev pub HasDigits : ℕ → (b0 b1 b2 b3 b4 b5 b6 b7 : Bool) → Type 0
HasDigits bits b0 b1 b2 b3 b4 b5 b6 b7 =
    bits
    ≡ digit b0
      + 2 * digit b1
      + 4 * digit b2
      + 8 * digit b3
      + 16 * digit b4
      + 32 * digit b5
      + 64 * digit b6
      + 128 * digit b7

marks : (b0 b1 b2 b3 b4 b5 b6 b7 : Bool) → ℕ
marks b0 b1 b2 b3 b4 b5 b6 b7 = mark b7 0x80 (
    mark b6 0x40
      (mark b5 0x20 (mark b4 0x10 (mark b3 0x08 (mark b2 0x04 (mark b1 0x02 (mark b0 0x01 0)))))))

marks-HasDigits :
    (b0 b1 b2 b3 b4 b5 b6 b7 : Bool)
    → HasDigits (marks b0 b1 b2 b3 b4 b5 b6 b7) b0 b1 b2 b3 b4 b5 b6 b7
unfolding marks
marks-HasDigits b0 b1 b2 b3 b4 b5 b6 b7 = ground arith

-- Each bit of the three button bytes is set exactly when the control that it stands for is
-- pressed; the home and capture requests add their own bits, and bits 4 and 5 of the outer bytes
-- and 6 and 7 of the middle one are never set.
pub button_bytes :
    (state : ControllerState) (home_override capture_override : Bool)
    → HasDigits
        (face_byte state)
        (pressed state face_west)
        (pressed state face_north)
        (pressed state face_south)
        (pressed state face_east)
        false
        false
        (pressed state r1)
        (pressed state r2)
      × HasDigits
          (middle_byte state home_override capture_override)
          (pressed state select)
          (pressed state start)
          (pressed state r3)
          (pressed state l3)
          (pressed state home || home_override)
          capture_override
          false
          false
      × HasDigits
          (pad_byte state)
          (pressed state down)
          (pressed state up)
          (pressed state right)
          (pressed state left)
          false
          false
          (pressed state l1)
          (pressed state l2)
unfolding face_byte middle_byte pad_byte marks
button_bytes state h c = (
  marks-HasDigits _ _ _ _ false false _ _,
  marks-HasDigits _ _ _ _ _ _ false false,
  marks-HasDigits _ _ _ _ false false _ _,
)
