-- ===== src/WsFrame/RoundTrip.antt =====
-- `ws_take_frame` on what a browser sends, and its bounds on any bytes.
use mathlib.Core.List.{append_assoc}
use native.Mathlib.Nat.{zero-add}
use capture2cloud.Base.{
  ℕ, suc, ◌+◌, ◌^◌, ◌≤◌, ◌<◌, List, ◌∷◌, ◌++◌, ◌≡◌, refl, ap, ◌∙◌, ◌⊎◌, arith, none, some, true,
  bit_and, bit_and_low, bit_and_flag, ltb, if◌then◌else◌, length, length-append,
  get_or-append_right, inl, inr, sym,
}
use capture2cloud.WsFrame.{
  byte, max_payload, incomplete, refused, taken, unmask, take_payload, ws_take_frame, length_field,
  ws_binary_header,
}
use capture2cloud.WsFrame.Masking.{masked_from, masked_twice, length-masked_from, unmask-append}
use capture2cloud.WsFrame.Length.{
  length_code, length_bytes, header_size, length_field_lem, ws_binary_header_lem,
}

-- A client's frame: FIN and the opcode, the mask bit and the length, the key, the masked payload.
unfoldable pub frame_head : ℕ → List ℕ → ℕ → List ℕ
frame_head op key n = (128 + op) ∷ (128 + length_code n) ∷ (length_bytes n ++ key)

unfoldable pub client_frame : ℕ → List ℕ → List ℕ → List ℕ
unfolding frame_head
client_frame op key p = frame_head op key (length p) ++ masked_from 0 key p

length-length_bytes : (n : ℕ) → 2 + length (length_bytes n) ≡ header_size n
unfolding length_bytes header_size
length-length_bytes n = ground arith

length_code-le : (n : ℕ) → length_code n ≤ 127
unfolding length_code
length_code-le n = ground arith

length-length_bytes' : (n : ℕ) → suc (suc (length (length_bytes n))) ≡ header_size n
length-length_bytes' n = omega (arith, length-length_bytes n)

plus_two : (a k : ℕ) → 2 + a + k ≡ suc (suc (a + k))
plus_two a k = omega arith

pub length-frame_head :
    (op : ℕ) (key : List ℕ) (n : ℕ) → length (frame_head op key n) ≡ header_size n + length key
unfolding frame_head
length-frame_head op key n =
    omega (arith, length-append (length_bytes n) key, length-length_bytes n)

-- The key stands behind the length field.
frame_head_key :
    (op : ℕ) (key : List ℕ) (n k : ℕ) → byte (frame_head op key n) (header_size n + k) ≡ byte key k
unfolding frame_head
frame_head_key op key n k =
    rw (← length-length_bytes n, plus_two (length (length_bytes n)) k)
      (get_or-append_right (length_bytes n) key k 0)

take_payload_masked :
    (buf : List ℕ) (len op n at : ℕ)
    → n ≤ max_payload
    → take_payload buf len op true n at ≡ (
        if ltb len (at + 4 + n)
        then incomplete
        else taken (record {
          opcode = op;
          payload = at + 4;
          payload_len = n;
          consumed = at + 4 + n;
          buf = unmask n 0 at (at + 4) buf;
        }))
unfolding take_payload
take_payload_masked buf len op n at h = ground arith

-- The buffer after the loop: the head, the payload in the clear, and what follows.
unmask-client_frame :
    (op : ℕ) (key p rest : List ℕ)
    → length key ≡ 4
    → let n = length p in
      unmask n 0 (header_size n) (header_size n + 4) (client_frame op key p ++ rest)
      ≡ frame_head op key n ++ (p ++ rest)
unfolding client_frame
unmask-client_frame op key p rest four =
    ap (unmask n 0 (header_size n) (header_size n + 4)) (append_assoc head hidden rest)
    ∙ ap (λ t. unmask t 0 (header_size n) (header_size n + 4) (head ++ (hidden ++ rest)))
        (sym (length-masked_from 0 key p))
    ∙ unmask-append key 0 (header_size n) (header_size n + 4) head hidden rest
        (omega (arith, length-frame_head op key n)) (omega arith) (λ k h. frame_head_key op key n k)
    ∙ ap (λ t. head ++ (t ++ rest)) (masked_twice 0 key p)
  where
    n : ℕ
    n = length p

    head : List ℕ
    head = frame_head op key n

    hidden : List ℕ
    hidden = masked_from 0 key p

pub client_frame-append :
    (op : ℕ) (key p rest : List ℕ)
    → client_frame op key p ++ rest ≡ frame_head op key (length p) ++ (masked_from 0 key p ++ rest)
unfolding client_frame
client_frame-append op key p rest =
    append_assoc (frame_head op key (length p)) (masked_from 0 key p) rest

-- The frame's first bytes decide everything up to the payload.
ws_take_frame_masked :
    (buf : List ℕ) (len op n at : ℕ)
    → 2 ≤ at
    → n ≤ max_payload
    → bit_and (byte buf 0) 0x0f ≡ op
    → bit_and (byte buf 1) 0x80 ≡ 128
    → (2 ≤ len → length_field buf len ≡ (if ltb len at then none else some (n, at)))
    → ws_take_frame buf len ≡ (
        if ltb len (at + 4 + n)
        then incomplete
        else taken (record {
          opcode = op;
          payload = at + 4;
          payload_len = n;
          consumed = at + 4 + n;
          buf = unmask n 0 at (at + 4) buf;
        }))
unfolding ws_take_frame
ws_take_frame_masked buf len op n at two fits code mask field =
    ground (arith, field, take_payload_masked buf len op n at)

ws_take_frame-refused :
    (buf : List ℕ) (len n at m : ℕ)
    → 2 ≤ at
    → bit_and (byte buf 1) 0x80 ≡ m
    → (m ≡ 0) ⊎ (max_payload < n)
    → (2 ≤ len → length_field buf len ≡ (if ltb len at then none else some (n, at)))
    → ws_take_frame buf len ≡ (if ltb len at then incomplete else refused)
unfolding ws_take_frame take_payload
ws_take_frame-refused buf len n at m two mask bad field = ground (arith, field)

-- The field as it stands behind a first byte and in front of any rest.
head_field :
    (op n len : ℕ) (key rest : List ℕ)
    → n < 2 ^ 64
    → 2 ≤ len
    → length_field (frame_head op key n ++ rest) len
      ≡ (if ltb len (header_size n) then none else some (n, header_size n))
unfolding frame_head
head_field op n len key rest small two =
    ap (λ t. length_field ((128 + op) ∷ (128 + length_code n) ∷ t) len)
      (append_assoc (length_bytes n) key rest)
    ∙ length_field_lem (128 + op) 128 n len (key ++ rest) small two (inr refl)

head_opcode :
    (op n : ℕ) (key rest : List ℕ)
    → op < 16
    → bit_and (byte (frame_head op key n ++ rest) 0) 0x0f ≡ op
unfolding frame_head
head_opcode op n key rest small = omega (arith, bit_and_low 4 (128 + op))

head_mask :
    (op n : ℕ) (key rest : List ℕ) → bit_and (byte (frame_head op key n ++ rest) 1) 0x80 ≡ 128
unfolding frame_head
head_mask op n key rest = omega (arith, bit_and_flag 7 (128 + length_code n), length_code-le n)

-- Of a client frame with a payload of at most 16 MiB, followed by any bytes: `ws_take_frame`
-- asks for more bytes until the whole frame has been received, and from then on takes exactly
-- that frame, with its opcode, the payload in the clear in its place and all else unchanged.
pub ws_take_frame-client_frame :
    (op len : ℕ) (key p rest : List ℕ)
    → op < 16
    → length key ≡ 4
    → length p ≤ max_payload
    → let n = length p in
      ws_take_frame (client_frame op key p ++ rest) len ≡ (
        if ltb len (header_size n + 4 + n)
        then incomplete
        else taken (record {
          opcode = op;
          payload = header_size n + 4;
          payload_len = n;
          consumed = header_size n + 4 + n;
          buf = frame_head op key n ++ (p ++ rest);
        }))
ws_take_frame-client_frame op len key p rest small four fits =
    let n = length p in
    let apart = client_frame-append op key p rest in
    rw (← unmask-client_frame op key p rest four) (
      ws_take_frame_masked (client_frame op key p ++ rest) len op n (header_size n)
        (omega (arith, length-length_bytes n)) fits (rw apart (head_opcode op n key _ small))
        (rw apart (head_mask op n key _))
        (λ two. rw apart (head_field op n len key _ (omega arith) two)))

-- A masked frame that announces more than 16 MiB is refused as soon as its length field has
-- been received, whatever bytes follow.
pub ws_take_frame_too_long :
    (op n len : ℕ) (key rest : List ℕ)
    → max_payload < n
    → n < 2 ^ 64
    → ws_take_frame (frame_head op key n ++ rest) len
      ≡ (if ltb len (header_size n) then incomplete else refused)
ws_take_frame_too_long op n len key rest long small =
    ws_take_frame-refused (frame_head op key n ++ rest) len n (header_size n) 128
      (omega (arith, length-length_bytes n)) (head_mask op n key rest) (inr long)
      (λ two. head_field op n len key rest small two)

-- The header that the server writes for any 64-bit length is read back as a header of that
-- length's size; since it has no mask bit, `ws_take_frame` refuses the frame once the header has
-- been received.
pub ws_take_frame-ws_binary_header :
    (n len : ℕ) (rest : List ℕ)
    → n < 2 ^ 64
    → ws_take_frame (ws_binary_header n ++ rest) len
      ≡ (if ltb len (length (ws_binary_header n)) then incomplete else refused)
ws_take_frame-ws_binary_header n len rest small =
    let header = 130 ∷ length_code n ∷ length_bytes n in
    let size : length header ≡ header_size n = length-length_bytes' n in
    rw (ws_binary_header_lem n small, size)
      (ws_take_frame-refused (header ++ rest) len n (header_size n) 0
        (omega (arith, length-length_bytes n))
        (omega (arith, bit_and_flag 7 (length_code n), length_code-le n)) (inl refl)
        (λ two. rw zero-add at (length_field_lem 130 0 n len rest small two (inl refl))))
