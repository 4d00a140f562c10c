-- ===== src/Adpcm.antt =====
-- The sound of the Old 3DS: the encoder of server/switch_stream.c and the decoder of
-- 3ds/source/audio.c, which turn 16-bit samples into 4-bit codes and back.
pub mod Tracking
pub mod Packet
mod Tests
use capture2cloud.Base.{
  ℕ, ◌+◌, ◌-◌, ◌*◌, ◌/◌, ◌%◌, List, [], ◌∷◌, ◌++◌, Option, none, some, Bool, true, false, not, ltb,
  leb, ◌==◌, ◌||◌, if◌then◌else◌, bit_and, bit_or, ℤ, pos, negsuc, pos_part, neg_part, ltb_ℤ, neg,
  nat_abs, ◌+ℤ◌, ◌-ℤ◌, int16, get_or, length, take, drop, replicate, u8, ◌<<◌, ◌>>◌,
}
use capture2cloud.Wire.{
  c2s_le16, c2s_le32, store16, load16, store32, load32, adpcm_udp_magic, adpcm_frames,
  adpcm_max_bytes,
}

-- The table that stands in both files.
abbrev pub step_table : List ℕ
step_table =
    7 ∷ 8 ∷ 9 ∷ 10 ∷ 11 ∷ 12 ∷ 13 ∷ 14 ∷ 16 ∷ 17 ∷ 19 ∷ 21 ∷ 23 ∷ 25 ∷ 28 ∷ 31 ∷ 34 ∷ 37 ∷ 41 ∷ 45
    ∷ 50 ∷ 55 ∷ 60 ∷ 66 ∷ 73 ∷ 80 ∷ 88 ∷ 97 ∷ 107 ∷ 118 ∷ 130 ∷ 143 ∷ 157 ∷ 173 ∷ 190 ∷ 209 ∷ 230
    ∷ 253 ∷ 279 ∷ 307 ∷ 337 ∷ 371 ∷ 408 ∷ 449 ∷ 494 ∷ 544 ∷ 598 ∷ 658 ∷ 724 ∷ 796 ∷ 876 ∷ 963 ∷ 1060
    ∷ 1166 ∷ 1282 ∷ 1411 ∷ 1552 ∷ 1707 ∷ 1878 ∷ 2066 ∷ 2272 ∷ 2499 ∷ 2749 ∷ 3024 ∷ 3327 ∷ 3660
    ∷ 4026 ∷ 4428 ∷ 4871 ∷ 5358 ∷ 5894 ∷ 6484 ∷ 7132 ∷ 7845 ∷ 8630 ∷ 9493 ∷ 10442 ∷ 11487 ∷ 12635
    ∷ 13899 ∷ 15289 ∷ 16818 ∷ 18500 ∷ 20350 ∷ 22385 ∷ 24623 ∷ 27086 ∷ 29794 ∷ 32767 ∷ []

abbrev index_adjust : List ℤ
index_adjust = negsuc 0 ∷ negsuc 0 ∷ negsuc 0 ∷ negsuc 0 ∷ pos 2 ∷ pos 4 ∷ pos 6 ∷ pos 8 ∷ []

-- What both sides keep for a channel.
pub record Channel : Type 0 where
  pub predictor : ℤ
  pub index : ℕ

-- `step_table[index]`; `Tracking` shows that the index stays in the table.
unfoldable pub step_of : ℕ → ℕ
step_of index = get_or step_table index 0

unfoldable pub clamp_s16 : ℤ → ℤ
clamp_s16 value =
    if ltb_ℤ value (negsuc 32767)
    then negsuc 32767
    else if ltb_ℤ (pos 32767) value
    then pos 32767
    else value

-- `*index += index_adjust[code & 7]` and the two limits.
unfoldable pub moved_index : ℕ → ℕ → ℕ
moved_index index code =
    let i = pos index +ℤ get_or index_adjust (bit_and code 7) (pos 0) in
    if ltb_ℤ i (pos 0) then 0 else if ltb_ℤ (pos 88) i then 88 else pos_part i

-- `difference`, `code` and `delta` on their way through the three comparisons.
pub record Search : Type 0 where
  pub difference : ℕ
  pub code : ℕ
  pub delta : ℕ

-- `if (difference >= part)` with the bit that it sets.
unfoldable pub compared : ℕ → ℕ → Search → Search
compared part bit t =
    if leb part t.difference
    then record {
      difference = t.difference - part;
      code = bit_or t.code bit;
      delta = t.delta + part;
    }
    else t

-- The last comparison does not write `difference` back; nothing reads it.
unfoldable pub searched : ℕ → ℕ → Bool → Search
searched step difference negative = compared (step >> 2) 1 (
    compared (step >> 1) 2 (
      compared step 4
        (record { difference = difference; code = if negative then 8 else 0; delta = step >> 3 })))

unfoldable pub old3ds_adpcm_nibble : ℤ → Channel → ℕ × Channel
old3ds_adpcm_nibble sample c =
    let difference = sample -ℤ c.predictor in
    let t = searched (step_of c.index) (nat_abs difference) (ltb_ℤ difference (pos 0)) in
    let moved =
      if bit_and t.code 8 == 0 then c.predictor +ℤ pos t.delta else c.predictor -ℤ pos t.delta in
    (t.code, record { predictor = clamp_s16 moved; index = moved_index c.index t.code })

-- `if (code & bit) delta += part`.
abbrev added : ℕ → ℕ → ℕ → ℕ → ℕ
added code bit part delta = if bit_and code bit == 0 then delta else delta + part

unfoldable pub decoded_delta : ℕ → ℕ → ℕ
decoded_delta step code =
    added code 1 (step >> 2) (added code 2 (step >> 1) (added code 4 step (step >> 3)))

-- The sample is the new predictor.
unfoldable pub decode_adpcm_nibble : ℕ → Channel → Channel
decode_adpcm_nibble code c =
    let delta = decoded_delta (step_of c.index) code in
    let moved =
      if bit_and code 8 == 0 then c.predictor +ℤ pos delta else c.predictor -ℤ pos delta in
    record { predictor = clamp_s16 moved; index = moved_index c.index code }

-- Both channels.
pub record Stereo : Type 0 where
  pub left : Channel
  pub right : Channel

abbrev pub stereo : ℤ → ℤ → ℕ → ℕ → Stereo
stereo l r index_left index_right = record {
  left = record { predictor = l; index = index_left };
  right = record { predictor = r; index = index_right };
}

-- `(uint16_t)sample`.
abbrev pub to_u16 : ℤ → ℕ
to_u16 a = (pos_part a + 65536 - neg_part a % 65536) % 65536

abbrev pub coded : ℤ → ℤ → Stereo → Stereo
coded l r st = record {
  left = (old3ds_adpcm_nibble l st.left).1;
  right = (old3ds_adpcm_nibble r st.right).1;
}

-- The loop over the frames after the first: the samples are those of `pcm` from index 2 on.
unfoldable pub encode_frames : List ℤ → Stereo → List ℕ × Stereo
encode_frames (l ∷ (r ∷ rest)) st =
    let a = (old3ds_adpcm_nibble l st.left).0 in
    let b = (old3ds_adpcm_nibble r st.right).0 in
    let tail = encode_frames rest (coded l r st) in (u8 (bit_or a (b << 4)) ∷ tail.0, tail.1)
encode_frames (l ∷ []) st = ([], st)
encode_frames [] st = ([], st)

-- The packed header, in the order of its fields.
unfoldable pub adpcm_header : Bool → ℕ → ℤ → ℤ → ℕ → ℕ → List ℕ
adpcm_header big sequence l r index_left index_right =
    store32 big (c2s_le32 big adpcm_udp_magic)
    ++ (store32 big (c2s_le32 big sequence)
        ++ (store16 big (c2s_le16 big adpcm_frames)
            ++ (store16 big (c2s_le16 big adpcm_max_bytes)
                ++ (store16 big (c2s_le16 big (to_u16 l))
                    ++ (store16 big (c2s_le16 big (to_u16 r))
                        ++ (index_left ∷ index_right ∷ 0 ∷ 0 ∷ []))))))

-- The part of the server's state that `send_old3ds_adpcm` reads and writes.
pub record Sender : Type 0 where
  pub pcm : List ℤ
  pub index_left : ℕ
  pub index_right : ℕ
  pub sequence : ℕ

abbrev sample : Sender → ℕ → ℤ
sample s i = get_or s.pcm i (pos 0)

-- The datagram for the peers, if there is one, and the state after it. `big` is the byte order
-- of the machine.
unfoldable pub send_old3ds_adpcm : Bool → Bool → Sender → Option (List ℕ) × Sender
send_old3ds_adpcm big has_peers s =
    let l = sample s 0 in
    let r = sample s 1 in
    let body = encode_frames (drop 2 s.pcm) (stereo l r s.index_left s.index_right) in
    if has_peers
    then (
      some (adpcm_header big s.sequence l r s.index_left s.index_right ++ body.0),
      record s {
        index_left = u8 body.1.left.index;
        index_right = u8 body.1.right.index;
        sequence = (s.sequence + 1) % 4294967296;
      },
    )
    else (none, s)

-- The frames after the first, each sample written twice.
unfoldable pub decode_frames : List ℕ → Stereo → List ℤ
decode_frames [] st = []
decode_frames (packed ∷ rest) st =
    let left = decode_adpcm_nibble (bit_and packed 0x0f) st.left in
    let right = decode_adpcm_nibble (packed >> 4) st.right in
    left.predictor
    ∷ right.predictor
    ∷ left.predictor
    ∷ right.predictor
    ∷ decode_frames rest (record { left = left; right = right })

abbrev at : List ℕ → ℕ → ℕ
at packet i = get_or packet i 0

abbrev field16 : Bool → List ℕ → ℕ → ℕ
field16 big packet i = c2s_le16 big (load16 big (at packet i) (at packet (i + 1)))

abbrev field32 : Bool → List ℕ → ℕ → ℕ
field32 big packet i =
    c2s_le32 big
      (load32 big (at packet i) (at packet (i + 1)) (at packet (i + 2)) (at packet (i + 3)))

unfoldable pub header_is_bad : Bool → List ℕ → Bool
header_is_bad big packet =
    not (field32 big packet 0 == adpcm_udp_magic)
    || (not (field16 big packet 8 == adpcm_frames)
        || (not (field16 big packet 10 == adpcm_max_bytes)
            || (ltb 88 (at packet 16) || ltb 88 (at packet 17))))

-- `none` is -1; a list holds the samples written, in `output_frames` frames of two at most.
unfoldable pub decode_adpcm_packet : Bool → List ℕ → ℕ → ℕ → Option (List ℤ)
decode_adpcm_packet big packet size output_frames =
    if size == 0
    then (if ltb output_frames (adpcm_frames * 2)
        then none
        else some (replicate (adpcm_frames * 2 * 2) (pos 0)))
    else if not (size == 20 + adpcm_max_bytes) || ltb output_frames (adpcm_frames * 2)
    then none
    else if header_is_bad big packet
    then none
    else let l = int16 (pos (field16 big packet 12)) in
      let r = int16 (pos (field16 big packet 14)) in
      some (
        l
        ∷ r
        ∷ l
        ∷ r
        ∷ decode_frames (take adpcm_max_bytes (drop 20 packet))
            (stereo l r (at packet 16) (at packet 17)))
