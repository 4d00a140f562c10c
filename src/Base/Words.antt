-- ===== src/Base/Words.antt =====
-- Casts to the fixed widths and shifts of C, on native numbers.
use Prim.Native.Nat.{ℕ, ◌*◌, ◌/◌, ◌%◌, ◌^◌, ◌<◌}

abbrev pub u8 : ℕ → ℕ
u8 n = n % 256

abbrev pub u16 : ℕ → ℕ
u16 n = n % 65536

abbrev pub u32 : ℕ → ℕ
u32 n = n % 4294967296

infixl 75 ◌<<◌ ◌>>◌
abbrev pub ◌<<◌ : ℕ → ℕ → ℕ
x << k = x * 2 ^ k

abbrev pub ◌>>◌ : ℕ → ℕ → ℕ
x >> k = x / 2 ^ k

abbrev pub IsByte : ℕ → Type 0
IsByte b = b < 256
