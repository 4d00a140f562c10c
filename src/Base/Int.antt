-- ===== src/Base/Int.antt =====
-- Signed integers over the native numbers: C's `int` where no value leaves its range, and the
-- casts to `int8_t` and `int16_t`.
use Prim.Native.Nat.{ℕ, suc, ◌+◌, ◌-◌, ◌*◌, ◌/◌, ◌%◌, ◌≤◌}
use mathlib.Core.Path.{◌≡◌, refl}
use mathlib.Core.Logic.{◌⊎◌, inl, inr}
use mathlib.Core.Bool.{Bool}
use native.Mathlib.Omega.{arith}
use capture2cloud.Base.Tests.{ltb, leb, if◌then◌else◌}

-- `negsuc n` is -(n + 1).
pub data ℤ : Type 0 where
  pos : ℕ → ℤ
  negsuc : ℕ → ℤ

abbrev pub pos_part : ℤ → ℕ
pos_part (pos n) = n
pos_part (negsuc n) = 0

abbrev pub neg_part : ℤ → ℕ
neg_part (pos n) = 0
neg_part (negsuc n) = suc n

-- a - b, as an integer.
abbrev pub sub_ℕ : ℕ → ℕ → ℤ
sub_ℕ a b = if leb b a then pos (a - b) else negsuc (b - a - 1)

infixl 65 ◌+ℤ◌ ◌-ℤ◌
infix 50 ◌≤ℤ◌
unfoldable pub ◌+ℤ◌ : ℤ → ℤ → ℤ
a +ℤ b = sub_ℕ (pos_part a + pos_part b) (neg_part a + neg_part b)

unfoldable pub ◌-ℤ◌ : ℤ → ℤ → ℤ
a -ℤ b = sub_ℕ (pos_part a + neg_part b) (neg_part a + pos_part b)

abbrev pub ◌≤ℤ◌ : ℤ → ℤ → Type 0
a ≤ℤ b = pos_part a + neg_part b ≤ pos_part b + neg_part a

abbrev pub ltb_ℤ : ℤ → ℤ → Bool
ltb_ℤ a b = ltb (pos_part a + neg_part b) (pos_part b + neg_part a)

-- C's unary minus and `abs`.
abbrev pub neg : ℤ → ℤ
neg a = sub_ℕ (neg_part a) (pos_part a)

abbrev pub nat_abs : ℤ → ℕ
nat_abs a = pos_part a + neg_part a

-- C's product with a constant that is not negative, and C's quotient, which rounds towards zero.
abbrev pub scale : ℕ → ℤ → ℤ
scale k a = sub_ℕ (k * pos_part a) (k * neg_part a)

abbrev pub tdiv : ℤ → ℕ → ℤ
tdiv a d = sub_ℕ (pos_part a / d) (neg_part a / d)

-- The value of the low 8 bits (16 bits), read as a signed byte (word).
unfoldable pub int8 : ℤ → ℤ
int8 a =
    let w = (pos_part a + 256 - neg_part a % 256) % 256 in
    if ltb w 128 then pos w else negsuc (255 - w)

unfoldable pub int16 : ℤ → ℤ
int16 a =
    let w = (pos_part a + 65536 - neg_part a % 65536) % 65536 in
    if ltb w 32768 then pos w else negsuc (65535 - w)

abbrev pub IsInt8 : ℤ → Type 0
IsInt8 a = (pos_part a ≤ 127) × (neg_part a ≤ 128)

abbrev pub IsInt16 : ℤ → Type 0
IsInt16 a = (pos_part a ≤ 32767) × (neg_part a ≤ 32768)

pub int8_id : (a : ℤ) → IsInt8 a → int8 a ≡ a
unfolding int8
int8_id (pos n) h = ground arith
int8_id (negsuc n) h = ground arith

pub int16_id : (a : ℤ) → IsInt16 a → int16 a ≡ a
unfolding int16
int16_id (pos n) h = ground arith
int16_id (negsuc n) h = ground arith

pub int8-IsInt8 : (a : ℤ) → IsInt8 (int8 a)
unfolding int8
int8-IsInt8 a = ground arith

-- One equation for each operation, for use where the operation stays shut.
pub +ℤ_parts :
    (a b : ℤ)
    → pos_part (a +ℤ b) + neg_part a + neg_part b ≡ neg_part (a +ℤ b) + pos_part a + pos_part b
unfolding ◌+ℤ◌
+ℤ_parts a b = ground arith

pub -ℤ_parts :
    (a b : ℤ)
    → pos_part (a -ℤ b) + neg_part a + pos_part b ≡ neg_part (a -ℤ b) + pos_part a + neg_part b
unfolding ◌-ℤ◌
-ℤ_parts a b = ground arith

-- One of the two parts is 0.
pub one_part : (a : ℤ) → (pos_part a ≡ 0) ⊎ (neg_part a ≡ 0)
one_part (pos n) = inr refl
one_part (negsuc n) = inl refl
