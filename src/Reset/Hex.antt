-- ===== src/Reset/Hex.antt =====
-- Bytes come back from their hexadecimal text.
use capture2cloud.Base.{
  ℕ, zero, suc, ◌+◌, ◌*◌, ◌/◌, ◌%◌, ◌≤◌, ◌<◌, List, [], ◌∷◌, Option, none, some, Bool, true, false,
  ◌&&◌, ◌==◌, ltb, ◌≡◌, refl, ap, bit_and, bit_or_disjoint, bit_and_low, ◌>>◌, IsByte, All, get_or,
  set, copy, length, arith,
}
use native.Mathlib.Decide.{ℕ_discrete}
use capture2cloud.Reset.{
  reset_bt_hex_value, pair_value, store, decode_from, reset_bt_decode_hex, digits, hex_text,
  reset_bt_encode_hex,
}

both_left : (a b : Bool) → (a && b) ≡ true → a ≡ true
both_left a b e = ground arith

both_right : (a b : Bool) → (a && b) ≡ true → b ≡ true
both_right a b e = ground arith

is_value : Option ℕ → ℕ → Bool
is_value none n = false
is_value (some v) n = v == n

digits_good : ℕ → Bool
digits_good zero = true
digits_good (suc n) = is_value (reset_bt_hex_value (get_or digits n 0)) n && digits_good n

is_value_iff : (o : Option ℕ) (n : ℕ) → is_value o n ≡ true → o ≡ some n
unfolding is_value
is_value_iff none n e = ground arith
is_value_iff (some v) n e = ap some (ground arith)

digits_good_below :
    (k n : ℕ) → digits_good k ≡ true → n < k → reset_bt_hex_value (get_or digits n 0) ≡ some n
unfolding digits_good
digits_good_below zero n e lt = absurd (omega arith)
digits_good_below (suc k) n e lt = elim (ℕ_discrete n k) [
  | yes same ↦ rw same (is_value_iff (reset_bt_hex_value (get_or digits k 0)) k (both_left _ _ e))
  | no ne ↦ digits_good_below k n (both_right _ _ e) (omega arith)
]

hex_value-digit : (n : ℕ) → n < 16 → reset_bt_hex_value (get_or digits n 0) ≡ some n
unfolding digits_good is_value reset_bt_hex_value
hex_value-digit n = digits_good_below 16 n refl

-- The two digits of a byte.
pair_value-digits :
    (b : ℕ)
    → IsByte b
    → pair_value
        (reset_bt_hex_value (get_or digits (b >> 4) 0))
        (reset_bt_hex_value (get_or digits (bit_and b 0x0f) 0))
      ≡ some b
unfolding pair_value
pair_value-digits b h =
    let low : bit_and b 15 ≡ b % 16 = bit_and_low 4 b in
    rw (hex_value-digit (b >> 4) (omega arith), hex_value-digit (bit_and b 15) (omega (arith, low)))
      (ap some (omega (arith, low, bit_or_disjoint 4 (b >> 4) (bit_and b 15) (omega (arith, low)))))

decode_from-hex_text :
    (bytes : List ℕ) (i : ℕ) (out : List ℕ)
    → All IsByte bytes
    → decode_from (hex_text bytes) i out ≡ (true, copy out i bytes)
unfolding decode_from hex_text copy store
decode_from-hex_text [] i out h = refl
decode_from-hex_text (b ∷ bs) i out h =
    rw (pair_value-digits b h.0) (decode_from-hex_text bs (i + 1) (set out i b) h.1)

length-hex_text : (bytes : List ℕ) → length (hex_text bytes) ≡ length bytes * 2
unfolding hex_text
length-hex_text [] = refl
length-hex_text (b ∷ bs) = omega (arith, length-hex_text bs)

differ : (a b : ℕ) → b < a → (a == b) ≡ false
differ a b h = ground arith

not_less : (a b : ℕ) → b ≤ a → ltb a b ≡ false
not_less a b h = ground arith

-- Text that was written for bytes, in a buffer with room for it, is read back as these bytes, into
-- any buffer with room for them, whose other places are left alone.
pub decode_hex-encode_hex :
    (bytes out : List ℕ) (out_size : ℕ)
    → All IsByte bytes
    → length bytes * 2 < out_size
    → length bytes ≤ length out
    → (reset_bt_encode_hex bytes out_size ≡ some (hex_text bytes))
      × (reset_bt_decode_hex (hex_text bytes) out ≡ (true, length bytes, copy out 0 bytes))
unfolding reset_bt_encode_hex reset_bt_decode_hex
decode_hex-encode_hex bytes out out_size h room fits =
    let n : length (hex_text bytes) ≡ length bytes * 2 = length-hex_text bytes in
    let half : length (hex_text bytes) / 2 ≡ length bytes = omega (arith, n) in
    let even : bit_and (length (hex_text bytes)) 1 ≡ 0 =
      omega (arith, n, bit_and_low 1 (length (hex_text bytes))) in
    let read : decode_from (hex_text bytes) 0 out ≡ (true, copy out 0 bytes) =
      decode_from-hex_text bytes 0 out h in
    (
      rw (differ out_size 0 (omega arith), not_less out_size (length bytes * 2 + 1) (omega arith))
          refl,
      rw (even, half, not_less (length out) (length bytes) fits, read) refl,
    )
