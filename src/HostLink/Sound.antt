-- ===== src/HostLink/Sound.antt =====
-- `net_take_audio` in wiiu_console/src/net.c: PCM sound over UDP.
pub mod Packets
use capture2cloud.Base.{
  ℕ, ◌+◌, ◌-◌, ◌*◌, ◌%◌, ◌^◌, List, [], ◌∷◌, Bool, true, false, not, ◌&&◌, ◌||◌, ◌==◌, ltb, leb,
  if◌then◌else◌, Option, none, some, u32, length, take, drop,
}
use capture2cloud.Wire.{pcm_udp_magic, pcm_udp_max_frames, c2s_le16, c2s_le32, load16, load32}
use capture2cloud.Native.Messages.{byte_at}

-- `g_audio_have_sequence`, `g_audio_expected_sequence` and `g_info.rx_bytes`.
pub record AudioState : Type 0 where
  pub have_sequence : Bool
  pub expected_sequence : ℕ
  pub rx_bytes : ℕ

-- The size of `g_audio_packet`, above which `recvfrom` cuts a datagram off.
abbrev pub packet_max : ℕ
packet_max = 1292

-- The fields of the header, on a machine that is big-endian.
abbrev pub field32 : List ℕ → ℕ → ℕ
field32 d at =
    c2s_le32 true
      (load32 true (byte_at d at) (byte_at d (at + 1)) (byte_at d (at + 2)) (byte_at d (at + 3)))

abbrev pub frames_of : List ℕ → ℕ
frames_of d = c2s_le16 true (load16 true (byte_at d 8) (byte_at d 9))

-- The cast of a difference to `int32_t` is negative.
abbrev pub is_late : ℕ → ℕ → Bool
is_late sequence expected = leb (2 ^ 31) ((sequence + 2 ^ 32 - expected) % 2 ^ 32)

unfoldable pub is_pcm : List ℕ → Bool
is_pcm d =
    let frames = frames_of d in
    not (ltb (length d) 12)
    && (field32 d 0 == pcm_udp_magic)
    && not (frames == 0)
    && not (ltb pcm_udp_max_frames frames)
    && (length d == 12 + frames * 4)

-- Whether the packet is taken: it is whole, and no duplicate and not late.
unfoldable pub takes_packet : AudioState → List ℕ → Bool
unfolding is_pcm
takes_packet a d = is_pcm d && not (a.have_sequence && is_late (field32 d 4) a.expected_sequence)

unfoldable pub after_packet : AudioState → List ℕ → AudioState
after_packet a d = record {
  have_sequence = true;
  expected_sequence = u32 (field32 d 4 + 1);
  rx_bytes = (a.rx_bytes + length d) % 2 ^ 64;
}

-- The loop over what the socket holds: the payload that it takes, and what it leaves.
unfoldable pub take_packet :
    AudioState → List (List ℕ) → Option (List ℕ) × AudioState × List (List ℕ)
take_packet a [] = (none, a, [])
take_packet a (datagram ∷ more) =
    let d = take packet_max datagram in
    let rest = take_packet a more in
    if takes_packet a d then (some (drop 12 d), after_packet a d, more) else rest

-- `usable` says whether the socket is open, the link is up and the sound comes over UDP.
unfoldable pub net_take_audio :
    Bool → AudioState → List (List ℕ) → Option (List ℕ) × AudioState × List (List ℕ)
net_take_audio usable a queued = if usable then take_packet a queued else (none, a, queued)
