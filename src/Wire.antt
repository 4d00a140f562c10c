-- ===== src/Wire.antt =====
-- shared/c2s_protocol.h: constants of the wire protocol, its byte order and its codecs.
pub mod Order
use capture2cloud.Base.{
  ℕ, ◌+◌, ◌*◌, ◌/◌, ◌%◌, List, [], ◌∷◌, Bool, true, false, ◌==◌, ◌||◌, if◌then◌else◌, get_or,
}

-- `__builtin_bswap16` and `__builtin_bswap32`.
abbrev pub bswap16 : ℕ → ℕ
bswap16 v = v % 256 * 256 + v / 256 % 256

abbrev pub bswap32 : ℕ → ℕ
bswap32 v = v % 256 * 16777216 + v / 256 % 256 * 65536 + v / 65536 % 256 * 256 + v / 16777216 % 256

-- `big` says whether the machine is big-endian.
unfoldable pub c2s_le16 : Bool → ℕ → ℕ
c2s_le16 big v = if big then bswap16 v else v

unfoldable pub c2s_le32 : Bool → ℕ → ℕ
c2s_le32 big v = if big then bswap32 v else v

-- The bytes of a number in a machine's memory, and the number that they are read as.
unfoldable pub store16 : Bool → ℕ → List ℕ
store16 big v = if big then v / 256 % 256 ∷ v % 256 ∷ [] else v % 256 ∷ v / 256 % 256 ∷ []

unfoldable pub load16 : Bool → ℕ → ℕ → ℕ
load16 big b0 b1 = if big then b0 * 256 + b1 else b0 + b1 * 256

unfoldable pub store32 : Bool → ℕ → List ℕ
store32 big v =
    if big
    then v / 16777216 % 256 ∷ v / 65536 % 256 ∷ v / 256 % 256 ∷ v % 256 ∷ []
    else v % 256 ∷ v / 256 % 256 ∷ v / 65536 % 256 ∷ v / 16777216 % 256 ∷ []

unfoldable pub load32 : Bool → ℕ → ℕ → ℕ → ℕ → ℕ
load32 big b0 b1 b2 b3 =
    if big
    then b0 * 16777216 + b1 * 65536 + b2 * 256 + b3
    else b0 + b1 * 256 + b2 * 65536 + b3 * 16777216

abbrev pub adpcm_udp_magic : ℕ
adpcm_udp_magic = 0x31444149

abbrev pub adpcm_frames : ℕ
adpcm_frames = 480

abbrev pub adpcm_max_bytes : ℕ
adpcm_max_bytes = 479

-- The numbers of the codecs.
abbrev pub codec_vp8 : ℕ
codec_vp8 = 1

abbrev pub codec_opus : ℕ
codec_opus = 2

abbrev pub codec_h264 : ℕ
codec_h264 = 3

abbrev pub codec_drc_h264 : ℕ
codec_drc_h264 = 4

abbrev pub codec_pcm_s16le : ℕ
codec_pcm_s16le = 5

abbrev pub codec_adpcm : ℕ
codec_adpcm = 8

abbrev pub codec_jpeg : ℕ
codec_jpeg = 6

abbrev pub codec_mpeg4 : ℕ
codec_mpeg4 = 7

abbrev pub codec_mpeg1 : ℕ
codec_mpeg1 = 9

abbrev pub codec_mpeg2 : ℕ
codec_mpeg2 = 10

-- The numbers of the messages.
abbrev pub msg_video : ℕ
msg_video = 1

abbrev pub msg_audio : ℕ
msg_audio = 2

abbrev pub msg_input : ℕ
msg_input = 16

abbrev pub msg_ping : ℕ
msg_ping = 17

abbrev pub msg_home : ℕ
msg_home = 18

abbrev pub msg_profile : ℕ
msg_profile = 19

abbrev pub msg_codec : ℕ
msg_codec = 20

abbrev pub msg_stream_info : ℕ
msg_stream_info = 21

abbrev pub msg_keyframe : ℕ
msg_keyframe = 22

abbrev pub msg_wake : ℕ
msg_wake = 23

abbrev pub msg_reset_dongle : ℕ
msg_reset_dongle = 24

abbrev pub msg_restart : ℕ
msg_restart = 25

abbrev pub msg_shared : ℕ
msg_shared = 26

abbrev pub msg_hello_ack : ℕ
msg_hello_ack = 27

abbrev pub msg_capture : ℕ
msg_capture = 28

-- The flags of a video message.
abbrev pub flag_keyframe : ℕ
flag_keyframe = 1

abbrev pub flag_mpeg4 : ℕ
flag_mpeg4 = 2

abbrev pub flag_mpeg1 : ℕ
flag_mpeg1 = 4

abbrev pub flag_mpeg2 : ℕ
flag_mpeg2 = 8

-- What a client says of itself in its hello.
abbrev pub cap_pcm_s16le : ℕ
cap_pcm_s16le = 1

abbrev pub cap_pcm_udp : ℕ
cap_pcm_udp = 2

abbrev pub cap_opus_udp : ℕ
cap_opus_udp = 4

abbrev pub cap_adpcm_udp : ℕ
cap_adpcm_udp = 8

abbrev pub cap_old3ds : ℕ
cap_old3ds = 32768

abbrev pub c2s_magic : ℕ
c2s_magic = 0x57533243

abbrev pub c2s_version : ℕ
c2s_version = 1

abbrev pub c2s_max_payload : ℕ
c2s_max_payload = 4194304

abbrev pub c2s_max_token_len : ℕ
c2s_max_token_len = 64

abbrev pub c2s_pad_slots : ℕ
c2s_pad_slots = 21

abbrev pub opus_udp_magic : ℕ
opus_udp_magic = 0x3155504f

abbrev pub pcm_udp_magic : ℕ
pcm_udp_magic = 0x314d4350

abbrev pub pcm_udp_max_frames : ℕ
pcm_udp_max_frames = 320

abbrev pub opus_udp_max_bytes : ℕ
opus_udp_max_bytes = 512

abbrev pub adpcm_rate : ℕ
adpcm_rate = 24000

unfoldable pub c2s_old3ds_video_codec : ℕ → Bool
c2s_old3ds_video_codec codec =
    codec == codec_jpeg || (codec == codec_mpeg4 || (codec == codec_mpeg1 || codec == codec_mpeg2))

unfoldable pub c2s_old3ds_predictive_codec : ℕ → Bool
c2s_old3ds_predictive_codec codec =
    codec == codec_mpeg4 || (codec == codec_mpeg1 || codec == codec_mpeg2)
