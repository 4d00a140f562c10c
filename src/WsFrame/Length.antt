-- ===== src/WsFrame/Length.antt =====
-- The length field of a frame: 7 bits, or 16 or 64 bits in network order behind the codes 126
-- and 127. `ws_binary_header` writes it and `ws_take_frame` reads it.
use capture2cloud.Base.{
  ℕ, suc, ◌+◌, ◌*◌, ◌/◌, ◌%◌, ◌^◌, ◌≤◌, ◌<◌, List, [], ◌∷◌, ◌++◌, ◌≡◌, refl, ◌⊎◌, arith, none, some,
  bit_or, bit_and, bit_or_disjoint, bit_and_low, ltb, leb, if◌then◌else◌, ◌<<◌, ap, ◌∙◌, Bool-cases,
  inl, inr,
}
use capture2cloud.WsFrame.{byte, read_long, length_field, ws_binary_header}

-- The field as the protocol defines it: a code, then `n` in as many bytes as the code says.
unfoldable pub length_code : ℕ → ℕ
length_code n = if ltb n 126 then n else if leb n 65535 then 126 else 127

unfoldable pub length_bytes : ℕ → List ℕ
length_bytes n =
    if ltb n 126
    then []
    else if leb n 65535
    then n / 256 ∷ n % 256 ∷ []
    else n / 2 ^ 56 % 256
      ∷ n / 2 ^ 48 % 256
      ∷ n / 2 ^ 40 % 256
      ∷ n / 2 ^ 32 % 256
      ∷ n / 2 ^ 24 % 256
      ∷ n / 2 ^ 16 % 256
      ∷ n / 256 % 256
      ∷ n % 256
      ∷ []

unfoldable pub header_size : ℕ → ℕ
header_size n = if ltb n 126 then 2 else if leb n 65535 then 4 else 10

push_byte : (v d : ℕ) → v < 2 ^ 56 → d < 256 → bit_or ((v << 8) % 2 ^ 64) d ≡ v * 256 + d
push_byte v d p q = ground (arith, bit_or_disjoint 8 v d)

-- One round of the loop takes a prefix `v` of a number to the next prefix `w`.
read_long-suc :
    (left at v w : ℕ) (buf : List ℕ)
    → w < 2 ^ 64
    → v ≡ w / 256
    → byte buf at ≡ w % 256
    → read_long (suc left) at v buf ≡ read_long left (at + 1) w buf
unfolding read_long
read_long-suc left at v w buf p q e =
    ap (λ t. read_long left (at + 1) t buf)
      (omega (arith, push_byte v (byte buf at) (omega arith) (omega arith)))

read_long_lem :
    (c m n : ℕ) (rest : List ℕ)
    → n < 2 ^ 64
    → let buf =
        c
        ∷ m
        ∷ n / 2 ^ 56 % 256
        ∷ n / 2 ^ 48 % 256
        ∷ n / 2 ^ 40 % 256
        ∷ n / 2 ^ 32 % 256
        ∷ n / 2 ^ 24 % 256
        ∷ n / 2 ^ 16 % 256
        ∷ n / 256 % 256
        ∷ n % 256
        ∷ rest in
      read_long 8 2 0 buf ≡ n
read_long_lem c m n rest h =
    read_long-suc 7 2 0 (n / 2 ^ 56) _ (omega arith) (omega arith) refl
    ∙ read_long-suc 6 3 (n / 2 ^ 56) (n / 2 ^ 48) _ (omega arith) (omega arith) refl
    ∙ read_long-suc 5 4 (n / 2 ^ 48) (n / 2 ^ 40) _ (omega arith) (omega arith) refl
    ∙ read_long-suc 4 5 (n / 2 ^ 40) (n / 2 ^ 32) _ (omega arith) (omega arith) refl
    ∙ read_long-suc 3 6 (n / 2 ^ 32) (n / 2 ^ 24) _ (omega arith) (omega arith) refl
    ∙ read_long-suc 2 7 (n / 2 ^ 24) (n / 2 ^ 16) _ (omega arith) (omega arith) refl
    ∙ read_long-suc 1 8 (n / 2 ^ 16) (n / 256) _ (omega arith) (omega arith) refl
    ∙ read_long-suc 0 9 (n / 256) n _ (omega arith) (omega arith) refl
    ∙ unfold read_long in refl

length_field-short :
    (c m n len : ℕ) (rest : List ℕ)
    → n < 126
    → (m ≡ 0) ⊎ (m ≡ 128)
    → length_field (c ∷ (m + n) ∷ rest) len ≡ some (n, 2)
unfolding length_field
length_field-short c m n len rest h flag = ground (arith, bit_and_low 7 (m + n))

length_field_word :
    (c m n len : ℕ) (rest : List ℕ)
    → n < 65536
    → (m ≡ 0) ⊎ (m ≡ 128)
    → length_field (c ∷ (m + 126) ∷ n / 256 ∷ n % 256 ∷ rest) len
      ≡ (if ltb len 4 then none else some (n, 4))
unfolding length_field
length_field_word c m n len rest h flag =
    ground (arith, bit_and_low 7 (m + 126), bit_or_disjoint 8 (n / 256) (n % 256))

length_field_long :
    (c m n len : ℕ) (rest : List ℕ)
    → n < 2 ^ 64
    → (m ≡ 0) ⊎ (m ≡ 128)
    → let buf =
        c
        ∷ (m + 127)
        ∷ n / 2 ^ 56 % 256
        ∷ n / 2 ^ 48 % 256
        ∷ n / 2 ^ 40 % 256
        ∷ n / 2 ^ 32 % 256
        ∷ n / 2 ^ 24 % 256
        ∷ n / 2 ^ 16 % 256
        ∷ n / 256 % 256
        ∷ n % 256
        ∷ rest in
      length_field buf len ≡ (if ltb len 10 then none else some (n, 10))
unfolding length_field
length_field_long c m n len rest h flag =
    let seven : bit_and (m + 127) 127 ≡ 127 = omega (arith, bit_and_low 7 (m + 127)) in
    rw (seven, read_long_lem c (m + 127) n rest h) refl

-- Reading a field gives the length that it was written for, once all of the field is there.
pub length_field_lem :
    (c m n len : ℕ) (rest : List ℕ)
    → n < 2 ^ 64
    → 2 ≤ len
    → (m ≡ 0) ⊎ (m ≡ 128)
    → length_field (c ∷ (m + length_code n) ∷ (length_bytes n ++ rest)) len
      ≡ (if ltb len (header_size n) then none else some (n, header_size n))
unfolding length_code length_bytes header_size
length_field_lem c m n len rest h two flag = elim (Bool-cases (ltb n 126)) [
  | inl short ↦ rw short (ground (arith, length_field-short c m n len rest))
  | inr not_short ↦ elim (Bool-cases (leb n 65535)) [
    | inl word ↦ rw (not_short, word) (length_field_word c m n len rest (ground arith) flag)
    | inr long ↦ rw (not_short, long) (length_field_long c m n len rest h flag)
  ]
]

-- The header is the one that the protocol defines for an unmasked binary message in one frame.
pub ws_binary_header_lem :
    (len : ℕ) → len < 2 ^ 64 → ws_binary_header len ≡ 130 ∷ length_code len ∷ length_bytes len
unfolding ws_binary_header length_code length_bytes
ws_binary_header_lem len h = ground arith
