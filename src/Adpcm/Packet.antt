-- ===== src/Adpcm/Packet.antt =====
-- One datagram of sound: what the decoder hears of what the encoder sent.
use capture2cloud.Base.{
  ℕ, ◌+◌, ◌*◌, ◌/◌, ◌%◌, ◌^◌, ◌≤◌, ◌<◌, ◌≡◌, refl, ◌∙◌, ap, arith, List, [], ◌∷◌, ◌++◌, some, Bool,
  true, ℤ, pos, negsuc, int16, IsInt16, length, take, u8, ◌<<◌, ◌>>◌, bit_and, bit_or, bit_or_comm,
  bit_or_disjoint, bit_and_low,
}
use capture2cloud.Wire.{adpcm_udp_magic, adpcm_frames, adpcm_max_bytes}
use capture2cloud.Wire.Order.{store16-c2s_le16, c2s_le16-load16, store32-c2s_le32, c2s_le32-load32}
use capture2cloud.Adpcm.{
  Stereo, stereo, to_u16, coded, old3ds_adpcm_nibble, encode_frames, decode_frames, adpcm_header,
  Sender, send_old3ds_adpcm, decode_adpcm_packet, header_is_bad,
}
use capture2cloud.Adpcm.Tracking.{decode_nibble-track}

-- Two codes in a byte.
packed : (a b : ℕ) → a < 16 → b < 16 → u8 (bit_or a (b << 4)) ≡ b * 16 + a
packed a b p q = omega (arith, bit_or_comm a (b << 4), bit_or_disjoint 4 b a p)

unpacked :
    (a b : ℕ)
    → a < 16
    → b < 16
    → let byte = u8 (bit_or a (b << 4)) in (bit_and byte 15 ≡ a) × ((byte >> 4) ≡ b)
unpacked a b p q = rw (packed a b p q) (omega (arith, bit_and_low 4 (b * 16 + a)), omega arith)

-- The encoder's own predictions, each twice.
unfoldable pub heard : List ℤ → Stereo → List ℤ
heard (l ∷ (r ∷ rest)) st =
    let next = coded l r st in
    next.left.predictor
    ∷ next.right.predictor
    ∷ next.left.predictor
    ∷ next.right.predictor
    ∷ heard rest next
heard (l ∷ []) st = []
heard [] st = []

pub decode_frames-encode_frames :
    (xs : List ℤ) (st : Stereo) → decode_frames (encode_frames xs st).0 st ≡ heard xs st
unfolding encode_frames decode_frames heard
decode_frames-encode_frames [] st = refl
decode_frames-encode_frames (l ∷ []) st = refl
decode_frames-encode_frames (l ∷ (r ∷ rest)) st =
    let a = decode_nibble-track l st.left in
    let b = decode_nibble-track r st.right in
    let u = unpacked (old3ds_adpcm_nibble l st.left).0 (old3ds_adpcm_nibble r st.right).0 a.1 b.1 in
    rw (u.0, u.1, a.0, b.0, decode_frames-encode_frames rest (coded l r st))

length-encode_frames : (xs : List ℤ) (st : Stereo) → length (encode_frames xs st).0 ≡ length xs / 2
unfolding encode_frames
length-encode_frames [] st = refl
length-encode_frames (l ∷ []) st = refl
length-encode_frames (l ∷ (r ∷ rest)) st = omega (arith, length-encode_frames rest (coded l r st))

int16-to_u16 : (v : ℤ) → IsInt16 v → int16 (pos (to_u16 v)) ≡ v
unfolding int16
int16-to_u16 (pos n) h = ground arith
int16-to_u16 (negsuc n) h = ground arith

-- The header's bytes on the wire, of sequence number `s` and first samples `l` and `r`.
wire_header : ℕ → ℕ → ℕ → ℕ → ℕ → List ℕ
wire_header s l r index_left index_right =
    0x49
    ∷ 0x41
    ∷ 0x44
    ∷ 0x31
    ∷ s % 256
    ∷ s / 256 % 256
    ∷ s / 65536 % 256
    ∷ s / 16777216
    ∷ 224
    ∷ 1
    ∷ 223
    ∷ 1
    ∷ l % 256
    ∷ l / 256
    ∷ r % 256
    ∷ r / 256
    ∷ index_left
    ∷ index_right
    ∷ 0
    ∷ 0
    ∷ []

length-wire_header :
    (s l r index_left index_right : ℕ) (body : List ℕ)
    → length (wire_header s l r index_left index_right ++ body) ≡ length body + 20
unfolding wire_header
length-wire_header s l r index_left index_right body = omega arith

adpcm_header-wire_header :
    (big : Bool) (s : ℕ) (l r : ℤ) (index_left index_right : ℕ)
    → s < 2 ^ 32
    → adpcm_header big s l r index_left index_right
      ≡ wire_header s (to_u16 l) (to_u16 r) index_left index_right
unfolding adpcm_header wire_header
adpcm_header-wire_header big s l r index_left index_right h = rw (
  store32-c2s_le32 big adpcm_udp_magic (omega arith),
  store32-c2s_le32 big s h,
  store16-c2s_le16 big adpcm_frames (omega arith),
  store16-c2s_le16 big adpcm_max_bytes (omega arith),
  store16-c2s_le16 big (to_u16 l) (omega arith),
  store16-c2s_le16 big (to_u16 r) (omega arith),
)

rejoined : (v : ℕ) → v % 256 + v / 256 * 256 ≡ v
rejoined v = omega arith

take_all : (xs : List ℕ) → take (length xs) xs ≡ xs
take_all [] = refl
take_all (x ∷ xs) = ap (λ t. x ∷ t) (take_all xs)

take_whole : (n : ℕ) (xs : List ℕ) → length xs ≡ n → take n xs ≡ xs
take_whole n xs h = rw (← h) (take_all xs)

-- The receiver's reading of those bytes.
decode-wire_header :
    (big : Bool) (s l r index_left index_right n : ℕ) (body : List ℕ)
    → l < 65536
    → r < 65536
    → index_left ≤ 88
    → index_right ≤ 88
    → 960 ≤ n
    → length body ≡ 479
    → let packet = wire_header s l r index_left index_right ++ body in
      let a = int16 (pos l) in
      let b = int16 (pos r) in
      decode_adpcm_packet big packet 499 n
      ≡ some (a ∷ b ∷ a ∷ b ∷ decode_frames body (stereo a b index_left index_right))
unfolding decode_adpcm_packet header_is_bad wire_header
decode-wire_header big s l r index_left index_right n body p q u v w z =
    rw
      (
        c2s_le32-load32 big 0x49 0x41 0x44 0x31 (omega arith) (omega arith) (omega arith)
            (omega arith),
        c2s_le16-load16 big 224 1 (omega arith) (omega arith),
        c2s_le16-load16 big 223 1 (omega arith) (omega arith),
        c2s_le16-load16 big (l % 256) (l / 256) (omega arith) (omega arith),
        c2s_le16-load16 big (r % 256) (r / 256) (omega arith) (omega arith),
        rejoined l,
        rejoined r,
        take_whole 479 body z,
      )
      (ground arith)

-- A sender's datagram with 480 frames of 16-bit samples is decoded, whatever the byte orders of the two machines, to the first frame itself and then the encoder's own predictions, every sample twice.
pub decode_adpcm_packet-send :
    (sender receiver : Bool) (s : Sender) (l r : ℤ) (rest : List ℤ) (n : ℕ)
    → s.pcm ≡ l ∷ r ∷ rest
    → length rest ≡ 958
    → IsInt16 l
    → IsInt16 r
    → s.index_left ≤ 88
    → s.index_right ≤ 88
    → s.sequence < 2 ^ 32
    → 960 ≤ n
    → (packet : List ℕ) × ((send_old3ds_adpcm sender true s).0 ≡ some packet)
      × (length packet ≡ 499)
      × (decode_adpcm_packet receiver packet 499 n
          ≡ some (l ∷ r ∷ l ∷ r ∷ heard rest (stereo l r s.index_left s.index_right)))
unfolding send_old3ds_adpcm
decode_adpcm_packet-send sender receiver s l r rest n e z p q u v w m =
    let st = stereo l r s.index_left s.index_right in
    let body = encode_frames rest st in
    let size : length body.0 ≡ 479 = length-encode_frames rest st ∙ ap (λ t. t / 2) z in
    (
      wire_header s.sequence (to_u16 l) (to_u16 r) s.index_left s.index_right ++ body.0,
      rw (e, adpcm_header-wire_header sender s.sequence l r s.index_left s.index_right w),
      omega (
        arith,
        size,
        length-wire_header s.sequence (to_u16 l) (to_u16 r) s.index_left s.index_right body.0,
      ),
      decode-wire_header receiver s.sequence (to_u16 l) (to_u16 r) s.index_left s.index_right n
            body.0 (omega arith) (omega arith) u v m size
          ∙ rw (int16-to_u16 l p, int16-to_u16 r q, decode_frames-encode_frames rest st),
    )
