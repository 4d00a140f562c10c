-- ===== src/Native.antt =====
-- server/switch_stream.c: the server of the native clients and of the browsers' WebSockets. This
-- file has its constants, a client, the server's state and the streams that clients are on.
pub mod Audio
pub mod Broadcast
pub mod Hello
pub mod Messages
pub mod Socket
pub mod Sound
pub mod Table
pub mod Websocket
mod Tests
pub mod Poll
use capture2cloud.Base.{
  ℕ, ◌+◌, ◌*◌, ◌/◌, ◌%◌, List, [], ◌∷◌, ◌++◌, Bool, true, false, ◌==◌, if◌then◌else◌, get_or,
  length, replicate,
}
use capture2cloud.Wire.{codec_h264, codec_vp8, codec_drc_h264, codec_mpeg1}

abbrev pub max_clients : ℕ
max_clients = 8

abbrev pub max_ws_clients : ℕ
max_ws_clients = 4

abbrev pub idle_timeout_ms : ℕ
idle_timeout_ms = 10000

abbrev pub idle_probe_ms : ℕ
idle_probe_ms = 3000

abbrev pub rx_capacity : ℕ
rx_capacity = 512

abbrev pub audio_pending_max_bytes : ℕ
audio_pending_max_bytes = 262144

abbrev pub keyframe_min_interval_ms : ℕ
keyframe_min_interval_ms = 1000

-- The streams.
abbrev pub stream_vp8 : ℕ
stream_vp8 = 0

abbrev pub stream_h264 : ℕ
stream_h264 = 1

abbrev pub stream_web : ℕ
stream_web = 2

abbrev pub stream_drc : ℕ
stream_drc = 3

abbrev pub stream_wiiu : ℕ
stream_wiiu = 4

abbrev pub stream_old3ds : ℕ
stream_old3ds = 5

abbrev pub stream_count : ℕ
stream_count = 6

-- What the kernel answers to a `send`: how many bytes it takes at most (0 stands for EAGAIN), or
-- that the connection is gone.
pub data SendResult : Type 0 where
  takes : ℕ → SendResult
  gone : SendResult

-- A descriptor: the bytes that the kernel has taken so far, and its answers to come. After the
-- last of them it answers EAGAIN.
pub record Descriptor : Type 0 where
  pub wire : List ℕ
  pub answers : List SendResult

abbrev pub closed : Descriptor
closed = record { wire = []; answers = [] }

-- `rx`, `ws_rx` and `pending` hold the bytes up to `rx_len`, `ws_rx_len` and `pending_len`.
pub record SsClient : Type 0 where
  pub fd : Descriptor
  pub in_use : Bool
  pub handshake_done : Bool
  pub may_control : Bool
  pub codec : ℕ
  pub is_ws : Bool
  pub on_drc_port : Bool
  pub on_wiiu_port : Bool
  pub on_old3ds_port : Bool
  pub waiting_keyframe : Bool
  pub pcm_audio : Bool
  pub pcm_udp : Bool
  pub opus_udp : Bool
  pub adpcm_udp : Bool
  pub peer_ipv4 : ℕ
  pub last_seen_ms : ℕ
  pub last_probe_ms : ℕ
  pub rx : List ℕ
  pub ws_rx : List ℕ
  pub ws_rx_cap : ℕ
  pub pending : List ℕ
  pub pending_sent : ℕ
  pub pending_cap : ℕ

-- A slot after `memset`.
abbrev pub no_client : SsClient
no_client = record {
  fd = closed;
  in_use = false;
  handshake_done = false;
  may_control = false;
  codec = 0;
  is_ws = false;
  on_drc_port = false;
  on_wiiu_port = false;
  on_old3ds_port = false;
  waiting_keyframe = false;
  pcm_audio = false;
  pcm_udp = false;
  opus_udp = false;
  adpcm_udp = false;
  peer_ipv4 = 0;
  last_seen_ms = 0;
  last_probe_ms = 0;
  rx = [];
  ws_rx = [];
  ws_rx_cap = 0;
  pending = [];
  pending_sent = 0;
  pending_cap = 0;
}

-- `C2sShared`.
pub record Shared : Type 0 where
  pub width : ℕ
  pub height : ℕ
  pub fps : ℕ
  pub bitrate_kbps : ℕ
  pub video_codec : ℕ
  pub capture_mjpeg : ℕ

abbrev pub no_shared : Shared
no_shared = record {
  width = 0;
  height = 0;
  fps = 0;
  bitrate_kbps = 0;
  video_codec = 0;
  capture_mjpeg = 0;
}

-- The arrays with one element for each stream are lists of six; `has_web` says whether there is
-- a web server to ask, `audio_udp` whether the UDP socket could be made.
pub record SwitchStream : Type 0 where
  pub has_web : Bool
  pub audio_udp : Bool
  pub old3ds_codec : ℕ
  pub width : ℕ
  pub height : ℕ
  pub live : List ℕ
  pub demand_dirty : Bool
  pub drc_available : Bool
  pub max_frame_bytes_by_slot : List ℕ
  pub shared : List Shared
  pub shared_known : List Bool
  pub group_width : List ℕ
  pub group_height : List ℕ
  pub group_stream_known : List Bool
  pub clients : List SsClient
  pub last_keyframe_ms : ℕ
  pub max_frame_bytes : ℕ
  pub skipped_frames : ℕ
  pub keyframe_pending : Bool
  pub opus_sequence : ℕ
  pub pcm_sequence : ℕ

abbrev pub client : SwitchStream → ℕ → SsClient
client s i = get_or s.clients i no_client

-- What the server sets off elsewhere: in the gamepad bridge, in the pipeline, in the web server,
-- in the program, and a packet on the UDP socket. The callbacks are all set.
pub data Event : Type 0 where
  input : ℕ → List ℕ → Event
  forget : ℕ → Event
  press_home : Event
  press_capture : Event
  profile : ℕ → List ℕ → Event
  wake_console : Event
  request_restart : Event
  recover_output : Event
  request_keyframe : Event
  demand_changed : Event
  datagram : ℕ → List ℕ → Event

unfoldable pub codec_slot : ℕ → ℕ
codec_slot codec =
    if codec == codec_drc_h264
    then stream_drc
    else if codec == codec_h264
    then stream_h264
    else stream_vp8

unfoldable pub client_slot : SsClient → ℕ
client_slot c =
    if c.is_ws
    then stream_web
    else if c.on_drc_port
    then stream_drc
    else if c.on_wiiu_port
    then stream_wiiu
    else if c.on_old3ds_port
    then stream_old3ds
    else codec_slot c.codec

unfoldable pub slot_codec : SwitchStream → ℕ → ℕ
slot_codec s slot =
    if slot == stream_vp8
    then codec_vp8
    else if slot == stream_drc
    then codec_drc_h264
    else if slot == stream_old3ds
    then s.old3ds_codec
    else codec_h264

-- The little-endian bytes of a field, on the x86-64 host.
abbrev pub le16 : ℕ → List ℕ
le16 v = v % 256 ∷ v / 256 % 256 ∷ []

abbrev pub le32 : ℕ → List ℕ
le32 v = v % 256 ∷ v / 256 % 256 ∷ v / 65536 % 256 ∷ v / 16777216 % 256 ∷ []

-- `C2sFrameHeader`.
abbrev pub frame_header : ℕ → ℕ → ℕ → List ℕ
frame_header type flags size = type ∷ flags ∷ 0 ∷ 0 ∷ le32 size
