-- ===== src/WsFrame.antt =====
-- server/ws_frame.c: WebSocket frames. A buffer is a list of bytes; `len` is how many of its
-- bytes have been received. Payload pointers are offsets into the buffer.
pub mod Handshake
pub mod Masking
pub mod Length
pub mod RoundTrip
pub mod Bounds
mod Tests
use capture2cloud.Base.{
  ℕ, zero, suc, ◌+◌, ◌-◌, ◌*◌, ◌%◌, ◌^◌, List, [], ◌∷◌, Option, none, some, Bool, true, false, not,
  ltb, leb, ◌==◌, if◌then◌else◌, bit_and, bit_or, bit_xor, get_or, set, u8, ◌<<◌, ◌>>◌,
}

-- A read past the end of the list would be 0; `Length` and `Masking` show where reads fall.
abbrev pub byte : List ℕ → ℕ → ℕ
byte buf i = get_or buf i 0

abbrev pub max_payload : ℕ
max_payload = 16777216

abbrev pub op_binary : ℕ
op_binary = 0x2

-- The eight bytes of a 64-bit length, from byte `i`, with `left` still to write.
unfoldable pub long_length : ℕ → ℕ → ℕ → List ℕ
long_length zero i len = []
long_length (suc left) i len = u8 (len >> (56 - 8 * i)) ∷ long_length left (i + 1) len

unfoldable pub ws_binary_header : ℕ → List ℕ
unfolding long_length
ws_binary_header len =
    if ltb len 126
    then bit_or 0x80 op_binary ∷ u8 len ∷ []
    else if leb len 0xffff
    then bit_or 0x80 op_binary ∷ 126 ∷ u8 (len >> 8) ∷ u8 len ∷ []
    else bit_or 0x80 op_binary ∷ 127 ∷ long_length 8 0 len

-- `plen = (plen << 8) | buf[at + i]` on a uint64_t, `left` times.
unfoldable pub read_long : ℕ → ℕ → ℕ → List ℕ → ℕ
read_long zero at plen buf = plen
read_long (suc left) at plen buf =
    read_long left (at + 1) (bit_or ((plen << 8) % 2 ^ 64) (byte buf at)) buf

-- The payload's length and the offset behind the length field; `none` where it is incomplete.
unfoldable pub length_field : List ℕ → ℕ → Option (ℕ × ℕ)
unfolding read_long
length_field buf len =
    let plen = bit_and (byte buf 1) 0x7f in
    if plen == 126
    then (if ltb len 4 then none else some (bit_or (byte buf 2 << 8) (byte buf 3), 4))
    else if plen == 127
    then (if ltb len 10 then none else some (read_long 8 2 0 buf, 10))
    else some (plen, 2)

-- `data[i] ^= mask[i & 3]` in place, with `left` bytes to go; `mask` and `at` are offsets.
unfoldable pub unmask : ℕ → ℕ → ℕ → ℕ → List ℕ → List ℕ
unmask zero i mask at buf = buf
unmask (suc left) i mask at buf =
    unmask left (i + 1) mask at
      (set buf (at + i) (bit_xor (byte buf (at + i)) (byte buf (mask + bit_and i 3))))

pub record Frame : Type 0 where
  pub opcode : ℕ
  pub payload : ℕ
  pub payload_len : ℕ
  pub consumed : ℕ
  pub buf : List ℕ

-- 0, -1 and a positive count.
pub data Taken : Type 0 where
  incomplete refused : Taken
  taken : Frame → Taken

unfoldable pub take_payload : List ℕ → ℕ → ℕ → Bool → ℕ → ℕ → Taken
take_payload buf len op masked plen at =
    if not masked
    then refused
    else if ltb max_payload plen
    then refused
    else if ltb len (at + 4)
    then incomplete
    else if ltb len (at + 4 + plen)
    then incomplete
    else taken (record {
      opcode = op;
      payload = at + 4;
      payload_len = plen;
      consumed = at + 4 + plen;
      buf = unmask plen 0 at (at + 4) buf;
    })

unfoldable pub ws_take_frame : List ℕ → ℕ → Taken
unfolding length_field take_payload
ws_take_frame buf len =
    let op = bit_and (byte buf 0) 0x0f in
    let masked = not (bit_and (byte buf 1) 0x80 == 0) in
    if ltb len 2 then incomplete else (elim (length_field buf len) [
      | none ↦ incomplete
      | some (plen, at) ↦ take_payload buf len op masked plen at
    ])
