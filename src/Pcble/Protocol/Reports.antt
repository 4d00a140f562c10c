-- ===== src/Pcble/Protocol/Reports.antt =====
-- What the input reports carry: the stick values, the hat and the 16-bit axes.
use capture2cloud.Base.{
  ℕ, ◌+◌, ◌-◌, ◌*◌, ◌/◌, ◌%◌, ◌^◌, ◌≤◌, ◌<◌, List, ◌≡◌, ◌∙◌, arith, false, if◌then◌else◌, bit_or,
  bit_or_comm, bit_or_disjoint, get_or, length, share-le, share_mono, share_whole,
}
use capture2cloud.Pcble.Protocol.{
  ProState, is_left, is_right, stick, pack, pro_input, axis16, vertical, horizontal,
}

-- The two 12-bit values in three bytes, as the console takes them apart.
abbrev pub unpack : ℕ → ℕ → ℕ → ℕ × ℕ
unpack d0 d1 d2 = (d0 + d1 % 16 * 256, d1 / 16 + d2 * 16)

abbrev pub pair_at : List ℕ → ℕ → ℕ × ℕ
pair_at out i = unpack (get_or out i 0) (get_or out (i + 1) 0) (get_or out (i + 2) 0)

middle_byte_sum : (x y : ℕ) → x < 4096 → bit_or (x / 2 ^ 8) (y * 2 ^ 4) ≡ y * 16 + x / 256
middle_byte_sum x y h =
    bit_or_comm (x / 2 ^ 8) (y * 2 ^ 4) ∙ bit_or_disjoint 4 y (x / 256) (omega arith)

pack-pair_at : (x y : ℕ) → x < 4096 → y < 4096 → pair_at (pack x y) 0 ≡ (x, y)
unfolding pack
pack-pair_at x y p q = ground (arith, middle_byte_sum x y p)

-- The input report gives back each 12-bit stick value that the controller type has, and zeroes
-- in place of the stick that it has not.
pub pro_input-pair_at :
    (s : ProState) (timer : ℕ)
    → stick s 0 < 4096
    → stick s 1 < 4096
    → stick s 2 < 4096
    → stick s 3 < 4096
    → (pair_at (pro_input s timer) 7 ≡ (if is_right s.type then (0, 0) else (stick s 0, stick s 1)))
      × (pair_at (pro_input s timer) 10
          ≡ (if is_left s.type then (0, 0) else (stick s 2, stick s 3)))
unfolding pro_input
pro_input-pair_at s timer a b c d = (
  ground (arith, middle_byte_sum (stick s 0) (stick s 1) a),
  ground (arith, middle_byte_sum (stick s 2) (stick s 3) c),
)

-- A report keeps the size of its buffer for every controller type.
pub length-pro_input : (s : ProState) (timer : ℕ) → length (pro_input s timer) ≡ 50
unfolding pro_input
length-pro_input s timer = ground arith

-- Opposite directions cancel, so the indices into the 3 by 3 table stay inside it.
pub hat_indices : (b : ℕ) → (vertical b ≤ 2) × (horizontal b ≤ 2)
unfolding vertical horizontal
hat_indices b = ground arith

-- A scaled 16-bit axis does not wrap and never decreases as the stick moves on; it is 0 at the
-- lowest stick value, 0x8000 at the centre and 0xffff at the highest.
pub axis16_mono :
    (c v w : ℕ)
    → 0 < c
    → c < 4095
    → v ≤ w
    → w ≤ 4095
    → (axis16 v c false ≤ axis16 w c false)
      × (axis16 0 c false ≡ 0)
      × (axis16 c c false ≡ 0x8000)
      × (axis16 4095 c false ≡ 0xffff)
unfolding axis16
axis16_mono c v w p q r t = (
  ground (
    arith,
    share-le (v - c) 0x7fff (4095 - c),
    share-le (w - c) 0x7fff (4095 - c),
    share_mono (v - c) (w - c) 0x7fff (4095 - c),
    share-le (c - v) 0x8000 c,
    share-le (c - w) 0x8000 c,
    share_mono (c - w) (c - v) 0x8000 c,
  ),
  ground (arith, share_whole 0x8000 c),
  ground arith,
  ground (arith, share_whole 0x7fff (4095 - c)),
)
