-- ===== src/Native/Messages.antt =====
-- `handle_messages` in server/switch_stream.c: what a client asks for.
pub mod Parse
pub mod Cases
pub mod Counted
pub mod Sound
pub mod Retuned
pub mod Control
pub mod Loop
pub mod Confined
use capture2cloud.Base.{
  ℕ, zero, suc, ◌+◌, ◌-◌, ◌*◌, ◌%◌, ◌^◌, List, [], ◌∷◌, ◌++◌, map, Bool, true, false, not, ◌&&◌,
  ◌||◌, ◌==◌, ltb, leb, if◌then◌else◌, get_or, set, length, take, drop,
}
use capture2cloud.Wire.{
  codec_vp8, codec_h264, codec_drc_h264, c2s_old3ds_video_codec, c2s_old3ds_predictive_codec,
  msg_input, msg_home, msg_capture, msg_profile, msg_codec, msg_keyframe, msg_wake, msg_restart,
  msg_reset_dongle, c2s_pad_slots, load16, load32,
}
use capture2cloud.Native.{
  SsClient, no_client, Shared, no_shared, SwitchStream, client, Event, input, press_home,
  press_capture, profile, wake_console, request_restart, recover_output, client_slot, stream_old3ds,
  rx_capacity, keyframe_min_interval_ms,
}
use capture2cloud.Native.Table.{
  put, drop_client, recount, send_group_state, group_state, source_native, is_live,
}
use capture2cloud.Native.Broadcast.{since}

-- Where the bytes to be parsed are, and the room that they have.
abbrev pub buffer : SsClient → List ℕ
buffer c = if c.is_ws then c.ws_rx else c.rx

abbrev pub capacity : SsClient → ℕ
capacity c = if c.is_ws then c.ws_rx_cap else rx_capacity

abbrev pub with_buffer : SsClient → List ℕ → SsClient
with_buffer c bytes = if c.is_ws then record c { ws_rx = bytes } else record c { rx = bytes }

-- The next message: not all there, too large, or its type and its payload.
pub data Parsed : Type 0 where
  waiting oversized : Parsed
  message : ℕ → List ℕ → Parsed

abbrev pub byte_at : List ℕ → ℕ → ℕ
byte_at bytes i = get_or bytes i 0

abbrev pub size_field : List ℕ → ℕ
size_field buf = load32 false (byte_at buf 4) (byte_at buf 5) (byte_at buf 6) (byte_at buf 7)

unfoldable pub next_message : ℕ → List ℕ → Parsed
next_message cap buf =
    let size = size_field buf in
    if ltb (length buf) 8
    then waiting
    else if ltb ((cap + 2 ^ 64 - 8) % 2 ^ 64) size
    then oversized
    else if ltb (length buf) (8 + size)
    then waiting
    else message (byte_at buf 0) (take size (drop 8 buf))

-- What a message does: whether a codec changed, the server after it, and the events.
abbrev pub Effect : Type 0
Effect = Bool × SwitchStream × List Event

abbrev pub nothing : SwitchStream → Effect
nothing s = (false, s, [])

abbrev pub raise_if : Bool → SwitchStream → Event → Effect
raise_if b s e = (false, s, if b then e ∷ [] else [])

-- Every Old 3DS client follows the codec that one of them chose, and is told so.
unfoldable pub retuned : SwitchStream → ℕ → SsClient → SsClient
retuned s codec c =
    if is_live c && c.on_old3ds_port
    then group_state s
        (record c { codec = codec; waiting_keyframe = c2s_old3ds_predictive_codec codec })
    else c

unfoldable pub set_old3ds_codec : SwitchStream → ℕ → SwitchStream
set_old3ds_codec s codec =
    let sh : Shared = record (get_or s.shared stream_old3ds no_shared) { video_codec = codec } in
    let t : SwitchStream = record s {
      old3ds_codec = codec;
      shared =
          if get_or s.shared_known stream_old3ds false
          then set s.shared stream_old3ds sh
          else s.shared;
    } in
    record t { clients = map (retuned t codec) s.clients }

unfoldable pub choose_old3ds_codec : SwitchStream → ℕ → Effect
choose_old3ds_codec s codec =
    if c2s_old3ds_video_codec codec && not (s.old3ds_codec == codec)
    then (true, set_old3ds_codec s codec, [])
    else nothing s

unfoldable pub choose_codec : SwitchStream → ℕ → ℕ → Effect
choose_codec s i codec =
    let c = client s i in
    let chosen : SwitchStream = send_group_state (put s i (record c { codec = codec })) i in
    if (codec == codec_drc_h264) && not s.drc_available
    then nothing s
    else if ((codec == codec_vp8) || ((codec == codec_h264) || (codec == codec_drc_h264)))
        && not (c.codec == codec)
    then (true, record chosen { keyframe_pending = true }, [])
    else nothing s

unfoldable pub on_codec : SwitchStream → ℕ → List ℕ → Effect
on_codec s i payload =
    if not (length payload == 1)
    then nothing s
    else if (client s i).on_old3ds_port
    then choose_old3ds_codec s (byte_at payload 0)
    else choose_codec s i (byte_at payload 0)

-- The four numbers of a `C2sProfile`.
unfoldable pub profile_fields : List ℕ → List ℕ
profile_fields p =
    load16 false (byte_at p 0) (byte_at p 1)
    ∷ load16 false (byte_at p 2) (byte_at p 3)
    ∷ load16 false (byte_at p 4) (byte_at p 5)
    ∷ load16 false (byte_at p 6) (byte_at p 7)
    ∷ []

unfoldable pub on_message : ℕ → SwitchStream → ℕ → ℕ → List ℕ → Effect
on_message now s i type payload =
    let c = client s i in
    let size = length payload in
    if type == msg_input
    then raise_if (c.may_control && (size == c2s_pad_slots)) s (input (source_native i) payload)
    else if type == msg_home
    then raise_if c.may_control s press_home
    else if type == msg_capture
    then raise_if c.may_control s press_capture
    else if type == msg_profile
    then raise_if (c.may_control && (size == 8)) s
        (profile (client_slot c) (profile_fields payload))
    else if type == msg_codec
    then on_codec s i payload
    else if type == msg_keyframe
    then (
      false,
      record s {
        keyframe_pending =
            leb keyframe_min_interval_ms (since now s.last_keyframe_ms) || s.keyframe_pending;
      },
      [],
    )
    else if type == msg_wake
    then raise_if (c.may_control && s.has_web) s wake_console
    else if type == msg_restart
    then raise_if c.may_control s request_restart
    else if type == msg_reset_dongle
    then raise_if c.may_control s recover_output
    else nothing s

-- A message is handled, taken out of the buffer, and the streams are counted again where a codec
-- changed.
unfoldable pub handle_one : ℕ → SwitchStream → ℕ → ℕ → List ℕ → SwitchStream × List Event
handle_one now s i type payload =
    let r = on_message now s i type payload in
    let c = client r.1 i in
    let consumed = put r.1 i (with_buffer c (drop (8 + length payload) (buffer c))) in
    (if r.0 then recount consumed else consumed, r.2)

-- One round, with the rounds after it.
unfoldable pub act :
    (SwitchStream → SwitchStream × List Event)
    → ℕ
    → SwitchStream
    → ℕ
    → Parsed
    → SwitchStream × List Event
act loop now s i waiting = (s, [])
act loop now s i oversized = drop_client s i
act loop now s i (message type payload) =
    let one = handle_one now s i type payload in let rest = loop one.0 in (rest.0, one.1 ++ rest.1)

-- The loop, for at most `fuel` messages.
unfoldable pub handle_from : ℕ → ℕ → SwitchStream → ℕ → SwitchStream × List Event
handle_from zero now s i = (s, [])
handle_from (suc fuel) now s i =
    act (λ t. handle_from fuel now t i) now s i
      (next_message (capacity (client s i)) (buffer (client s i)))

-- A message is eight bytes at least.
unfoldable pub handle_messages : ℕ → SwitchStream → ℕ → SwitchStream × List Event
handle_messages now s i = handle_from (suc (length (buffer (client s i)))) now s i
