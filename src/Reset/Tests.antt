-- ===== src/Reset/Tests.antt =====
-- Two bytes and their hexadecimal text.
use capture2cloud.Base.{ℕ, List, [], ◌∷◌, some, true, ◌≡◌, copy, arith}
use capture2cloud.Reset.{reset_bt_encode_hex, reset_bt_decode_hex, hex_text}
use capture2cloud.Reset.Hex.{decode_hex-encode_hex}

abbrev address : List ℕ
address = 0x5e ∷ 0xa0 ∷ []

decode_hex-encode_hex_example :
    (reset_bt_encode_hex address 5 ≡ some (hex_text address))
    × (reset_bt_decode_hex (hex_text address) (7 ∷ 7 ∷ 7 ∷ [])
        ≡ (true, 2, copy (7 ∷ 7 ∷ 7 ∷ []) 0 address))
decode_hex-encode_hex_example =
    decode_hex-encode_hex address (7 ∷ 7 ∷ 7 ∷ []) 5 (omega arith, (omega arith, tt)) (omega arith)
      (omega arith)
