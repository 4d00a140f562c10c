-- ===== src/Native/Audio.antt =====
-- The sound that server/switch_stream.c sends: to which clients, and in which way.
pub mod Paths
use capture2cloud.Base.{
  ℕ, suc, ◌+◌, ◌*◌, ◌/◌, ◌%◌, List, [], ◌∷◌, ◌++◌, map, Bool, true, false, not, ◌&&◌, ◌||◌, ◌==◌,
  ltb, if◌then◌else◌, some, none, length, u32,
}
use capture2cloud.Wire.{
  msg_audio, opus_udp_magic, opus_udp_max_bytes, pcm_udp_magic, pcm_udp_max_frames,
}
use capture2cloud.Native.{SsClient, SwitchStream, Event, datagram, stream_wiiu, le16, le32}
use capture2cloud.Native.Table.{is_live}
use capture2cloud.Native.Broadcast.{Message, Host, broadcast_filtered, opus_only, pcm_tcp}

-- The addresses of the clients that a test picks.
unfoldable pub peers : (SsClient → Bool) → List SsClient → List ℕ
peers wants [] = []
peers wants (c ∷ cs) = if wants c then c.peer_ipv4 ∷ peers wants cs else peers wants cs

unfoldable pub wants_opus_udp : SsClient → Bool
wants_opus_udp c = is_live c && c.on_old3ds_port && c.opus_udp && not (c.peer_ipv4 == 0)

unfoldable pub wants_adpcm_udp : SsClient → Bool
wants_adpcm_udp c = is_live c && c.on_old3ds_port && c.adpcm_udp && not (c.peer_ipv4 == 0)

unfoldable pub wants_pcm_udp : SsClient → Bool
wants_pcm_udp c =
    is_live c
    && (c.on_wiiu_port || c.on_old3ds_port)
    && c.pcm_audio
    && c.pcm_udp
    && not (c.peer_ipv4 == 0)

-- `C2sOpusUdpHeader` and `C2sPcmUdpHeader`, with what follows them.
unfoldable pub opus_packet : ℕ → List ℕ → List ℕ
opus_packet sequence bytes =
    le32 opus_udp_magic ++ le32 sequence ++ le16 (length bytes) ++ le16 0 ++ bytes

unfoldable pub pcm_packet : ℕ → List ℕ → List ℕ
pcm_packet sequence bytes =
    le32 pcm_udp_magic ++ le32 sequence ++ le16 (length bytes / 4) ++ le16 0 ++ bytes

abbrev pub opus_message : List ℕ → Message
opus_message bytes = record {
  slot = none;
  filter = opus_only;
  type = msg_audio;
  flags = 0;
  data_bytes = bytes;
}

abbrev pub pcm_message : List ℕ → Message
pcm_message bytes = record {
  slot = some stream_wiiu;
  filter = pcm_tcp;
  type = msg_audio;
  flags = 0;
  data_bytes = bytes;
}

-- Opus goes to the clients without another way of sound, and over UDP to those that asked so; the
-- sequence number moves only where there is somebody to send to.
unfoldable pub switch_stream_send_audio :
    Host → ℕ → List ℕ → SwitchStream → SwitchStream × List Event
switch_stream_send_audio h now bytes s =
    let tcp = broadcast_filtered h now (opus_message bytes) s in
    let to = peers wants_opus_udp tcp.0.clients in
    let packet = opus_packet tcp.0.opus_sequence bytes in
    if (length bytes == 0) || (ltb opus_udp_max_bytes (length bytes) || not tcp.0.audio_udp)
    then tcp
    else if length to == 0
    then tcp
    else (
      record tcp.0 { opus_sequence = u32 (tcp.0.opus_sequence + 1) },
      tcp.1 ++ map (λ peer. datagram peer packet) to,
    )

-- PCM without the blocks of ADPCM sound, which `Adpcm` models: over TCP on the Wii U's stream, and
-- over UDP.
unfoldable pub send_pcm : Host → ℕ → List ℕ → SwitchStream → SwitchStream × List Event
send_pcm h now bytes s =
    let tcp = broadcast_filtered h now (pcm_message bytes) s in
    let to = peers wants_pcm_udp tcp.0.clients in
    let packet = pcm_packet tcp.0.pcm_sequence bytes in
    if (length bytes == 0) || not (length bytes % 4 == 0)
    then (s, [])
    else if not tcp.0.audio_udp || ltb pcm_udp_max_frames (length bytes / 4)
    then tcp
    else if length to == 0
    then tcp
    else (
      record tcp.0 { pcm_sequence = u32 (tcp.0.pcm_sequence + 1) },
      tcp.1 ++ map (λ peer. datagram peer packet) to,
    )
