-- ===== src/Native/Hello.antt =====
-- `handle_hello` in server/switch_stream.c: a client's greeting and its answer.
pub mod Outcomes
use capture2cloud.Base.{
  ℕ, ◌+◌, ◌*◌, min, List, [], ◌∷◌, ◌++◌, Bool, true, false, not, ◌&&◌, ◌||◌, ◌==◌, ltb,
  if◌then◌else◌, get_or, length, take, drop, bit_and, bit_or,
}
use capture2cloud.Wire.{
  codec_h264, codec_drc_h264, codec_opus, codec_pcm_s16le, codec_adpcm, c2s_old3ds_video_codec,
  c2s_old3ds_predictive_codec, c2s_magic, c2s_version, c2s_max_token_len, adpcm_rate, cap_pcm_s16le,
  cap_pcm_udp, cap_opus_udp, cap_adpcm_udp, cap_old3ds, load16, load32,
}
use capture2cloud.Native.{SsClient, SwitchStream, client, Event, client_slot, le16, le32}
use capture2cloud.Native.Socket.{send_all_now}
use capture2cloud.Native.Table.{put, drop_client, recount, send_group_state}

-- `C2sHello`; `caps` is `reserved`.
pub record Hello : Type 0 where
  pub magic : ℕ
  pub version : ℕ
  pub token_len : ℕ
  pub caps : ℕ

abbrev byte_at : List ℕ → ℕ → ℕ
byte_at bytes i = get_or bytes i 0

unfoldable pub read_hello : List ℕ → Hello
read_hello rx = record {
  magic = load32 false (byte_at rx 0) (byte_at rx 1) (byte_at rx 2) (byte_at rx 3);
  version = byte_at rx 4;
  token_len = byte_at rx 5;
  caps = load16 false (byte_at rx 6) (byte_at rx 7);
}

abbrev pub has_cap : Hello → ℕ → Bool
has_cap h cap = not (bit_and h.caps cap == 0)

-- `C2sHelloAck`.
pub record HelloAck : Type 0 where
  pub accepted : ℕ
  pub may_control : ℕ
  pub udp_flags : ℕ
  pub width : ℕ
  pub height : ℕ
  pub video_codec : ℕ
  pub audio_codec : ℕ
  pub audio_rate : ℕ
  pub audio_channels : ℕ

abbrev pub refusal : HelloAck
refusal = record {
  accepted = 0;
  may_control = 0;
  udp_flags = 0;
  width = 0;
  height = 0;
  video_codec = 0;
  audio_codec = 0;
  audio_rate = 0;
  audio_channels = 0;
}

unfoldable pub ack_bytes : HelloAck → List ℕ
ack_bytes a =
    le32 c2s_magic
    ++ c2s_version ∷ a.accepted ∷ a.may_control ∷ a.udp_flags ∷ le16 a.width
    ++ le16 a.height
    ++ a.video_codec ∷ a.audio_codec ∷ le16 a.audio_rate
    ++ a.audio_channels ∷ 0 ∷ 0 ∷ 0 ∷ []

abbrev pub flag_if : Bool → ℕ → ℕ
flag_if b flag = if b then flag else 0

-- The token as the C string that the web server is asked about.
abbrev pub token_of : Hello → List ℕ → List ℕ
token_of h rx = take (min h.token_len c2s_max_token_len) (drop 8 rx)

abbrev pub client_consume : SsClient → ℕ → SsClient
client_consume c bytes = record c { rx = drop bytes c.rx }

-- The codec and the ways of sound that an accepted client gets.
unfoldable pub negotiated : SwitchStream → Hello → SsClient → SsClient
negotiated s h c =
    let keeps_codec = (c.codec == codec_drc_h264) || c2s_old3ds_video_codec c.codec in
    let pcm = (c.on_wiiu_port || c.on_old3ds_port) && has_cap h cap_pcm_s16le in
    let own_udp = not pcm && c.on_old3ds_port && s.audio_udp in
    record c {
      codec = if keeps_codec then c.codec else codec_h264;
      pcm_audio = pcm;
      pcm_udp = pcm && s.audio_udp && has_cap h cap_pcm_udp;
      opus_udp = own_udp && has_cap h cap_opus_udp && not (has_cap h cap_adpcm_udp);
      adpcm_udp = own_udp && has_cap h cap_adpcm_udp;
    }

-- The width and height that a stream has, or those of the server.
abbrev pub slot_width : SwitchStream → ℕ → ℕ
slot_width s slot =
    if get_or s.group_stream_known slot false then get_or s.group_width slot 0 else s.width

abbrev pub slot_height : SwitchStream → ℕ → ℕ
slot_height s slot =
    if get_or s.group_stream_known slot false then get_or s.group_height slot 0 else s.height

unfoldable pub acceptance : SwitchStream → SsClient → Bool → HelloAck
acceptance s c control = record {
  accepted = 1;
  may_control = flag_if control 1;
  udp_flags = bit_or (bit_or (flag_if c.pcm_udp 1) (flag_if c.opus_udp 2)) (flag_if c.adpcm_udp 4);
  width = slot_width s (client_slot c);
  height = slot_height s (client_slot c);
  video_codec = c.codec;
  audio_codec =
      if c.pcm_audio then codec_pcm_s16le else if c.adpcm_udp then codec_adpcm else codec_opus;
  audio_rate = if c.adpcm_udp then adpcm_rate else 48000;
  audio_channels = 2;
}

-- A refused client is told so, if that can be sent, and goes.
unfoldable pub refuse : SwitchStream → ℕ → SsClient → SwitchStream × List Event
refuse s i c = drop_client (put s i (record c { fd = (send_all_now (ack_bytes refusal) c.fd).1 })) i

-- The client's state once its answer is sent.
unfoldable pub welcomed : SwitchStream → SsClient → Bool → SsClient
welcomed s c control = record c {
  handshake_done = true;
  may_control = control;
  waiting_keyframe = c.on_old3ds_port && c2s_old3ds_predictive_codec s.old3ds_codec;
}

unfoldable pub welcome : SwitchStream → ℕ → SsClient → Bool → SwitchStream
welcome s i c control =
    let known : SwitchStream = record (put s i (welcomed s c control)) {
      keyframe_pending =
          s.keyframe_pending
          || (not c.on_old3ds_port || c2s_old3ds_predictive_codec s.old3ds_codec);
    } in
    recount (send_group_state known i)

unfoldable pub accept_hello : SwitchStream → ℕ → Hello → SsClient → Bool → SwitchStream × List Event
accept_hello s i h c control =
    let n = negotiated s h c in
    let answer = send_all_now (ack_bytes (acceptance s n control)) c.fd in
    let told : SsClient = record n { fd = answer.1 } in
    if answer.0 then (welcome s i told control, []) else drop_client (put s i told) i

-- `web_may_control` is the answer of `web_stream_may_control` for a token.
unfoldable pub handle_hello : (List ℕ → Bool) → SwitchStream → ℕ → SwitchStream × List Event
handle_hello web_may_control s i =
    let c = client s i in
    let h = read_hello c.rx in
    let greeted = client_consume c (8 + h.token_len) in
    let control = (c.codec == codec_drc_h264) || web_may_control (token_of h c.rx) in
    if ltb (length c.rx) 8
    then (s, [])
    else if ltb (length c.rx) (8 + h.token_len)
    then (s, [])
    else if not (h.magic == c2s_magic) || not (h.version == c2s_version)
    then refuse s i greeted
    else if c.on_old3ds_port && not (has_cap h cap_old3ds)
    then refuse s i greeted
    else accept_hello s i h greeted control
