-- ===== src/Base/Bits.antt =====
-- `&`, `|` and `^` at variables, as arithmetic: one equation for the lowest binary digit of
-- each, then masks, disjoint fields and the involution of `^`, by strong induction on size.
use Prim.Native.Nat.{
  ℕ, zero, suc, ◌+◌, ◌-◌, ◌*◌, ◌/◌, ◌%◌, ◌^◌, ◌≤◌, ◌<◌, min, max, bit_and, bit_or, bit_xor, digits,
  differ, bitwise, bit_and-bitwise, bit_or-bitwise, bit_xor-bitwise,
}
use mathlib.Core.Path.{◌≡◌, refl, sym, ap, ◌∙◌}
use native.Mathlib.Nat.{pow-suc, one-le-pow}
use native.Mathlib.Omega.{arith}

-- The digits computed from more fuel than the number needs are the same.
enough_fuel :
    (z : ℕ → ℕ) (f : ℕ → ℕ → ℕ) (k l a b : ℕ) → a ≤ k → a ≤ l → digits z f k a b ≡ digits z f l a b
enough_fuel z f zero zero a b p q = refl
enough_fuel z f zero (suc l) zero b p q = refl
enough_fuel z f zero (suc l) (suc a) b p q = absurd (omega arith)
enough_fuel z f (suc k) zero zero b p q = refl
enough_fuel z f (suc k) zero (suc a) b p q = absurd (omega arith)
enough_fuel z f (suc k) (suc l) zero b p q = refl
enough_fuel z f (suc k) (suc l) (suc a) b p q =
    ap (λ (t : ℕ). t * 2 + f (suc a % 2) (b % 2))
      (enough_fuel z f k l (suc a / 2) (b / 2) (omega arith) (omega arith))

low_digit :
    (z : ℕ → ℕ) (f : ℕ → ℕ → ℕ) (a b : ℕ)
    → bitwise z f (suc a) b ≡ bitwise z f (suc a / 2) (b / 2) * 2 + f (suc a % 2) (b % 2)
low_digit z f a b =
    ap (λ (t : ℕ). t * 2 + f (suc a % 2) (b % 2))
      (enough_fuel z f a (suc a / 2) (suc a / 2) (b / 2) (omega arith) (omega arith))

pub bit_and_digit : (a b : ℕ) → bit_and a b ≡ bit_and (a / 2) (b / 2) * 2 + min (a % 2) (b % 2)
bit_and_digit zero b = simp bit_and-bitwise (omega arith)
bit_and_digit (suc a) b = simp bit_and-bitwise (low_digit (λ b. 0) min a b)

pub bit_or_digit : (a b : ℕ) → bit_or a b ≡ bit_or (a / 2) (b / 2) * 2 + max (a % 2) (b % 2)
bit_or_digit zero b = simp bit_or-bitwise (omega arith)
bit_or_digit (suc a) b = simp bit_or-bitwise (low_digit (λ b. b) max a b)

-- The exclusive or of two digits is the low digit of their sum.
differ_sum : (x y : ℕ) → x < 2 → y < 2 → differ x y ≡ (x + y) % 2
differ_sum zero y p q = omega arith
differ_sum (suc zero) zero p q = refl
differ_sum (suc zero) (suc zero) p q = refl
differ_sum (suc zero) (suc (suc y)) p q = absurd (omega arith)
differ_sum (suc (suc x)) y p q = absurd (omega arith)

pub bit_xor_digit : (a b : ℕ) → bit_xor a b ≡ bit_xor (a / 2) (b / 2) * 2 + (a + b) % 2
bit_xor_digit zero b = simp bit_xor-bitwise (omega arith)
bit_xor_digit (suc a) b = simp bit_xor-bitwise (
    omega (
      arith,
      low_digit (λ b. b) differ a b,
      differ_sum (suc a % 2) (b % 2) (omega arith) (omega arith),
    ))

-- Each law below goes from `a / 2` to `a`, on a bound of `a`.
bit_or-zero_bounded : (n a : ℕ) → a ≤ n → bit_or a 0 ≡ a
bit_or-zero_bounded n zero h = refl
bit_or-zero_bounded zero (suc a) h = absurd (omega arith)
bit_or-zero_bounded (suc n) (suc a) h =
    omega (arith, bit_or_digit (suc a) 0, bit_or-zero_bounded n (suc a / 2) (omega arith))

pub bit_or-zero : (a : ℕ) → bit_or a 0 ≡ a
bit_or-zero a = bit_or-zero_bounded a a (omega arith)

bit_and-zero_bounded : (n a : ℕ) → a ≤ n → bit_and a 0 ≡ 0
bit_and-zero_bounded n zero h = refl
bit_and-zero_bounded zero (suc a) h = absurd (omega arith)
bit_and-zero_bounded (suc n) (suc a) h =
    omega (arith, bit_and_digit (suc a) 0, bit_and-zero_bounded n (suc a / 2) (omega arith))

pub bit_and-zero : (a : ℕ) → bit_and a 0 ≡ 0
bit_and-zero a = bit_and-zero_bounded a a (omega arith)

zero-bit_or : (b : ℕ) → bit_or 0 b ≡ b
zero-bit_or b = simp bit_or-bitwise

bit_or_comm_bounded : (n a b : ℕ) → a ≤ n → bit_or a b ≡ bit_or b a
bit_or_comm_bounded n zero b h = simp (zero-bit_or, bit_or-zero)
bit_or_comm_bounded zero (suc a) b h = absurd (omega arith)
bit_or_comm_bounded (suc n) (suc a) b h = omega (
  arith,
  bit_or_digit (suc a) b,
  bit_or_digit b (suc a),
  bit_or_comm_bounded n (suc a / 2) (b / 2) (omega arith),
)

pub bit_or_comm : (a b : ℕ) → bit_or a b ≡ bit_or b a
bit_or_comm a b = bit_or_comm_bounded a a b (omega arith)

shifted_twice : (q k : ℕ) → q * 2 ^ suc k ≡ 2 * (q * 2 ^ k)
shifted_twice q k = omega (arith, ap (λ (t : ℕ). q * t) (pow-suc 2 k))

-- `q << k | r` is a sum where `r` fits `k` bits.
pub bit_or_disjoint : (k q r : ℕ) → r < 2 ^ k → bit_or (q * 2 ^ k) r ≡ q * 2 ^ k + r
bit_or_disjoint zero q r fits = ground (arith, bit_or-zero q)
bit_or_disjoint (suc k) q r fits = ground (
  arith,
  bit_or_digit (q * 2 ^ suc k) r,
  shifted_twice q k,
  bit_or_disjoint k q (r / 2) (omega arith),
)

mod_double : (a m : ℕ) → 0 < m → a % (2 * m) ≡ a / 2 % m * 2 + a % 2
mod_double a m h = grind arith

-- `a & (2 ^ k - 1)` is the remainder by `2 ^ k`.
pub bit_and_low : (k a : ℕ) → bit_and a (2 ^ k - 1) ≡ a % 2 ^ k
bit_and_low zero a = ground (arith, bit_and-zero a)
bit_and_low (suc k) a = ground (
  arith,
  bit_and_digit a (2 ^ suc k - 1),
  pow-suc 2 k,
  one-le-pow k 2,
  mod_double a (2 ^ k),
  bit_and_low k (a / 2),
)

pub div-double : (x m : ℕ) → 0 < m → x / (2 * m) ≡ x / 2 / m
div-double x m h = grind arith

-- `a & (1 << k)` is bit `k`, in its place.
pub bit_and_flag : (k a : ℕ) → bit_and a (2 ^ k) ≡ a / 2 ^ k % 2 * 2 ^ k
bit_and_flag zero a = omega (arith, bit_and_low 1 a)
bit_and_flag (suc k) a = ground (
  arith,
  bit_and_digit a (2 ^ suc k),
  pow-suc 2 k,
  one-le-pow k 2,
  div-double a (2 ^ k),
  ap (λ (t : ℕ). a / 2 / 2 ^ k % 2 * t) (pow-suc 2 k),
  bit_and_flag k (a / 2),
)

zero-bit_xor : (b : ℕ) → bit_xor 0 b ≡ b
zero-bit_xor b = simp bit_xor-bitwise

bit_xor_self_bounded : (n b : ℕ) → b ≤ n → bit_xor b b ≡ 0
bit_xor_self_bounded n zero h = refl
bit_xor_self_bounded zero (suc b) h = absurd (omega arith)
bit_xor_self_bounded (suc n) (suc b) h =
    omega (arith, bit_xor_digit (suc b) (suc b), bit_xor_self_bounded n (suc b / 2) (omega arith))

xor_twice_bounded : (n a b : ℕ) → a ≤ n → bit_xor (bit_xor a b) b ≡ a
xor_twice_bounded zero zero b h = rw (zero-bit_xor b) (bit_xor_self_bounded b b (omega arith))
xor_twice_bounded zero (suc a) b h = absurd (omega arith)
xor_twice_bounded (suc n) a b h = ground (
  arith,
  bit_xor_digit a b,
  bit_xor_digit (bit_xor a b) b,
  xor_twice_bounded n (a / 2) (b / 2) (omega arith),
)

-- `^` with the same number twice gives the first number back.
pub bit_xor_twice : (a b : ℕ) → bit_xor (bit_xor a b) b ≡ a
bit_xor_twice a b = xor_twice_bounded a a b (omega arith)

-- `^` of two numbers of `k` bits has `k` bits.
pub bit_xor-lt : (k a b : ℕ) → a < 2 ^ k → b < 2 ^ k → bit_xor a b < 2 ^ k
bit_xor-lt zero zero zero p q = omega arith
bit_xor-lt zero (suc a) b p q = absurd (omega arith)
bit_xor-lt zero zero (suc b) p q = absurd (omega arith)
bit_xor-lt (suc k) a b p q = omega (
  arith,
  bit_xor_digit a b,
  pow-suc 2 k,
  bit_xor-lt k (a / 2) (b / 2) (omega arith) (omega arith),
)

-- Bit `k` of `a | b` is set where it is set in one of them.
pub bit_or_bit : (k a b : ℕ) → bit_or a b / 2 ^ k % 2 ≡ max (a / 2 ^ k % 2) (b / 2 ^ k % 2)
bit_or_bit zero a b = ground (arith, bit_or_digit a b)
bit_or_bit (suc k) a b =
    let half : bit_or a b / 2 ≡ bit_or (a / 2) (b / 2) = ground (arith, bit_or_digit a b) in
    let m = one-le-pow k 2 in
    let twice : 2 ^ suc k ≡ 2 * 2 ^ k = omega (arith, pow-suc 2 k) in
    rw
      (
        twice,
        div-double (bit_or a b) (2 ^ k) (omega (arith, m)),
        div-double a (2 ^ k) (omega (arith, m)),
        div-double b (2 ^ k) (omega (arith, m)),
        half,
      )
      (bit_or_bit k (a / 2) (b / 2))

le-bit_or_bounded : (n a b : ℕ) → a ≤ n → a ≤ bit_or a b
le-bit_or_bounded n zero b h = omega arith
le-bit_or_bounded zero (suc a) b h = absurd (omega arith)
le-bit_or_bounded (suc n) (suc a) b h =
    omega (arith, bit_or_digit (suc a) b, le-bit_or_bounded n (suc a / 2) (b / 2) (omega arith))

-- `a | b` is 0 only of zeros.
pub bit_or_none : (a b : ℕ) → bit_or a b ≡ 0 → (a ≡ 0) × (b ≡ 0)
bit_or_none a b h = (
  omega (arith, h, le-bit_or_bounded a a b (omega arith)),
  omega (arith, h, bit_or_comm a b, le-bit_or_bounded b b a (omega arith)),
)

-- `a ^ b` is 0 only of equals.
pub bit_xor_same : (a b : ℕ) → bit_xor a b ≡ 0 → a ≡ b
bit_xor_same a b h = sym (bit_xor_twice a b) ∙ ap (λ t. bit_xor t b) h ∙ zero-bit_xor b

pub bit_xor_self : (b : ℕ) → bit_xor b b ≡ 0
bit_xor_self b = bit_xor_self_bounded b b (omega arith)
