-- ===== src/Reset.antt =====
-- server/reset_method.c: the names of the reset methods, the test of a path, and the hexadecimal
-- text of bytes. A C string is the list of its codes.
pub mod Hex
mod Tests
use capture2cloud.Base.{
  ℕ, ◌+◌, ◌-◌, ◌*◌, ◌/◌, List, [], ◌∷◌, Option, none, some, Bool, true, false, not, ◌&&◌, ◌||◌,
  ◌==◌, ltb, leb, if◌then◌else◌, bit_and, bit_or, ◌<<◌, ◌>>◌, u8, get_or, set, length, codes,
}

pub data ResetMethod : Type 0 where
  script bluetooth other : ResetMethod

unfoldable pub reset_method_name : ResetMethod → Option (List ℕ)
reset_method_name script = some (codes "script")
reset_method_name bluetooth = some (codes "bluetooth")
reset_method_name other = none

-- `isalnum` in the C locale.
unfoldable pub is_alnum : ℕ → Bool
is_alnum c = (leb 48 c && leb c 57) || ((leb 65 c && leb c 90) || (leb 97 c && leb c 122))

unfoldable pub path_char : ℕ → Bool
path_char c = is_alnum c || ((c == 95) || ((c == 45) || ((c == 46) || ((c == 47) || (c == 58)))))

unfoldable pub all_path_chars : List ℕ → Bool
all_path_chars [] = true
all_path_chars (c ∷ cs) = path_char c && all_path_chars cs

unfoldable pub safe_path_token : List ℕ → Bool
safe_path_token value = not (length value == 0) && all_path_chars value

-- `none` is -1.
unfoldable pub reset_bt_hex_value : ℕ → Option ℕ
reset_bt_hex_value c =
    if leb 48 c && leb c 57
    then some (c - 48)
    else if leb 97 c && leb c 102
    then some (10 + c - 97)
    else if leb 65 c && leb c 70
    then some (10 + c - 65)
    else none

-- A pair of digits.
unfoldable pub pair_value : Option ℕ → Option ℕ → Option ℕ
pair_value none low = none
pair_value (some high) none = none
pair_value (some high) (some low) = some (u8 (bit_or (high << 4) low))

unfoldable pub store : (List ℕ → Bool × List ℕ) → List ℕ → ℕ → Option ℕ → Bool × List ℕ
store loop out i none = (false, out)
store loop out i (some v) = loop (set out i v)

-- The loop from byte `i` on; what was written before a wrong digit stays in `out`.
unfoldable pub decode_from : List ℕ → ℕ → List ℕ → Bool × List ℕ
decode_from [] i out = (true, out)
decode_from (c ∷ []) i out = (true, out)
decode_from (c ∷ (d ∷ rest)) i out =
    store (decode_from rest (i + 1)) out i
      (pair_value (reset_bt_hex_value c) (reset_bt_hex_value d))

-- Whether the text was taken, `decoded_size`, and the buffer, whose length is `out_size`.
unfoldable pub reset_bt_decode_hex : List ℕ → List ℕ → Bool × ℕ × List ℕ
reset_bt_decode_hex hex out =
    let r = decode_from hex 0 out in
    if not (bit_and (length hex) 1 == 0) || ltb (length out) (length hex / 2)
    then (false, 0, out)
    else (r.0, if r.0 then length hex / 2 else 0, r.1)

abbrev pub digits : List ℕ
digits = codes "0123456789ABCDEF"

unfoldable pub hex_text : List ℕ → List ℕ
hex_text [] = []
hex_text (b ∷ bs) = get_or digits (b >> 4) 0 ∷ get_or digits (bit_and b 0x0f) 0 ∷ hex_text bs

-- The string in a buffer of that size, or `none` where it is not written to.
unfoldable pub reset_bt_encode_hex : List ℕ → ℕ → Option (List ℕ)
reset_bt_encode_hex bytes out_size =
    if out_size == 0
    then none
    else if ltb out_size (length bytes * 2 + 1)
    then some []
    else some (hex_text bytes)
