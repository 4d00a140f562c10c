-- ===== src/Pcble/Sticks.antt =====
-- The stick values that server/output_pcble.c sends against the calibration that the emulated
-- flash memory of pcble_backend/poc/protocol.c announces for them.
use native.Mathlib.Nat.{mul_comm, mul-zero, div-le_of_le-mul, le-div_iff_mul-le}
use native.Mathlib.Decide.{dec_lt}
use capture2cloud.Base.{
  ℕ, zero, suc, scale, tdiv, share-le, ◌+◌, ◌-◌, ◌*◌, ◌/◌, ◌≤◌, ◌<◌, ◌≡◌, arith, Bool, false, leb,
  if◌then◌else◌, ℤ, pos, negsuc, pos_part, neg_part, ltb_ℤ, sub_ℕ, ◌+ℤ◌,
}
use capture2cloud.Controller.{IsPercent}
use capture2cloud.Pcble.Protocol.{ProState, is_left, is_right}
use capture2cloud.Pcble.Protocol.Reports.{unpack}
use capture2cloud.Pcble.Spi.{spi}
use capture2cloud.Pcble.Output.{aimed, deflected, to_stick, stick_axis}

-- `center + (positive * w) / 100` and its mirror, where they stay inside 12 bits.
forward_stick :
    (c p k : ℕ)
    → c + p ≤ 4095
    → k ≤ 100
    → to_stick (pos c +ℤ tdiv (scale p (pos k)) 100) ≡ c + p * k / 100
unfolding to_stick ◌+ℤ◌
forward_stick c p k h le = ground (arith, share-le k p 100, mul_comm p k, mul-zero p)

backward_stick :
    (c n k : ℕ)
    → c ≤ 4095
    → n ≤ c
    → suc k ≤ 100
    → to_stick (pos c +ℤ tdiv (scale n (negsuc k)) 100) ≡ c - n * suc k / 100
unfolding to_stick ◌+ℤ◌
backward_stick c n k h fits le =
    ground (arith, share-le (suc k) n 100, mul_comm n (suc k), mul-zero n)

pub aimed-IsPercent : (v : ℤ) (invert : Bool) → IsPercent (aimed v invert)
unfolding aimed
aimed-IsPercent v invert = ground arith

deflected_lem :
    (w : ℤ) (c p n : ℕ)
    → c + p ≤ 4095
    → n ≤ c
    → IsPercent w
    → deflected w c p n
      ≡ (if ltb_ℤ w (pos 0) then c - n * neg_part w / 100 else c + p * pos_part w / 100)
unfolding deflected
deflected_lem (pos k) c p n h fits b = ground (arith, forward_stick c p k h b.0)
deflected_lem (negsuc k) c p n h fits b =
    ground (arith, backward_stick c n k (omega arith) fits b.1)

-- The value sent is the centre plus the exact share of the travel in the direction that the
-- stick points to.
pub stick_axis_lem :
    (v : ℤ) (c p n : ℕ) (invert : Bool)
    → c + p ≤ 4095
    → n ≤ c
    → let w = aimed v invert in
      stick_axis v c p n invert
      ≡ (if ltb_ℤ w (pos 0) then c - n * neg_part w / 100 else c + p * pos_part w / 100)
unfolding stick_axis
stick_axis_lem v c p n invert h fits =
    deflected_lem (aimed v invert) c p n h fits (aimed-IsPercent v invert)

-- A pair of 12-bit values in the flash memory.
abbrev pub flash_pair : ProState → ℕ → ℕ × ℕ
flash_pair s a = unpack (spi s a) (spi s (a + 1)) (spi s (a + 2))

pub record Calibration : Type 0 where
  pub center : ℕ
  pub positive : ℕ
  pub negative : ℕ

-- The left stick is stored as positive travel, centre, negative travel; the right stick as
-- centre, negative travel, positive travel.
abbrev pub left_pairs : ProState → (ℕ × ℕ) × (ℕ × ℕ) × (ℕ × ℕ)
left_pairs s = (flash_pair s 0x6040, flash_pair s 0x603d, flash_pair s 0x6043)

abbrev pub right_pairs : ProState → (ℕ × ℕ) × (ℕ × ℕ) × (ℕ × ℕ)
right_pairs s = (flash_pair s 0x6046, flash_pair s 0x604c, flash_pair s 0x6049)

abbrev pub x_axis : (ℕ × ℕ) × (ℕ × ℕ) × (ℕ × ℕ) → Calibration
x_axis t = record { center = (t.0).0; positive = (t.1).0; negative = (t.2).0 }

abbrev pub y_axis : (ℕ × ℕ) × (ℕ × ℕ) × (ℕ × ℕ) → Calibration
y_axis t = record { center = (t.0).1; positive = (t.1).1; negative = (t.2).1 }

abbrev pub calibration : ℕ → ℕ → ℕ → Calibration
calibration c p n = record { center = c; positive = p; negative = n }

pub flash_sticks :
    (s : ProState)
    → (is_right s.type ≡ false → left_pairs s ≡ ((2159, 1916), (1466, 1583), (1517, 1465)))
      × (is_left s.type ≡ false → right_pairs s ≡ ((2070, 2013), (1414, 1510), (1522, 1531)))
unfolding spi
flash_sticks s = (λ h. ground arith, λ h. ground arith)

-- What the console makes of a raw value: the share of the travel, in percent.
unfoldable pub reading : Calibration → ℕ → ℤ
reading cal raw =
    if leb cal.center raw
    then pos ((raw - cal.center) * 100 / cal.positive)
    else sub_ℕ 0 ((cal.center - raw) * 100 / cal.negative)

-- On the same side; short by at most one, and by nothing at full deflection.
abbrev pub IsNear : ℤ → ℤ → Type 0
IsNear r v =
    (pos_part r ≤ pos_part v)
    × (pos_part v ≤ pos_part r + (1 - pos_part v / 100))
    × (neg_part r ≤ neg_part v)
    × (neg_part v ≤ neg_part r + (1 - neg_part v / 100))

share_near-le : (t k : ℕ) → t * k / 100 * 100 / t ≤ k
share_near-le t k = div-le_of_le-mul t (omega arith)

le-share : (t j k : ℕ) → 0 < t → j * t ≤ t * k / 100 * 100 → j ≤ t * k / 100 * 100 / t
le-share t j k h le = (le-div_iff_mul-le h).1 le

le-share_near : (t k : ℕ) → 100 ≤ t → k ≤ 100 → k ≤ t * k / 100 * 100 / t + (1 - k / 100)
le-share_near t zero h le = omega arith
le-share_near t (suc j) h le = elim (dec_lt j 99) [
  | yes below ↦ omega (arith, le-share t j (suc j) (omega arith) (omega arith))
  | no above ↦
      let e : j ≡ 99 = omega arith in
      rw e (omega (arith, le-share t 100 100 (omega arith) (omega arith)))
]

reading-deflected_at :
    (w : ℤ) (c p n raw : ℕ)
    → n ≤ c
    → 100 ≤ p
    → 100 ≤ n
    → IsPercent w
    → raw ≡ (if ltb_ℤ w (pos 0) then c - n * neg_part w / 100 else c + p * pos_part w / 100)
    → IsNear (reading (calibration c p n) raw) w
unfolding reading
reading-deflected_at (pos k) c p n raw fits a b range e =
    ground (arith, share_near-le p k, le-share_near p k)
reading-deflected_at (negsuc k) c p n raw fits a b range e = ground (
  arith,
  share-le (suc k) n 100,
  mul_comm n (suc k),
  share_near-le n (suc k),
  le-share_near n (suc k),
)

pub reading-deflected :
    (w : ℤ) (c p n : ℕ)
    → c + p ≤ 4095
    → n ≤ c
    → 100 ≤ p
    → 100 ≤ n
    → IsPercent w
    → IsNear (reading (calibration c p n) (deflected w c p n)) w
reading-deflected w c p n h fits a b range =
    reading-deflected_at w c p n (deflected w c p n) fits a b range
      (deflected_lem w c p n h fits range)
