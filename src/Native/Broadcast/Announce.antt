-- ===== src/Native/Broadcast/Announce.antt =====
-- The broadcasts of server/switch_stream.c: video, and the announcements of a stream's shape and
-- settings.
use capture2cloud.Base.{
  ℕ, List, [], Bool, true, ◌==◌, leb, if◌then◌else◌, Option, some, set, bit_or,
}
use capture2cloud.Wire.{
  msg_video, msg_stream_info, msg_shared, flag_keyframe, flag_mpeg4, flag_mpeg1, flag_mpeg2,
  codec_mpeg1, codec_mpeg2, codec_mpeg4,
}
use capture2cloud.Native.{Shared, SwitchStream, Event, slot_codec, stream_old3ds, stream_count}
use capture2cloud.Native.Table.{stream_info, shared_bytes}
use capture2cloud.Native.Broadcast.{Host, any_audio, broadcast_filtered}

unfoldable pub broadcast :
    Host → ℕ → Option ℕ → ℕ → ℕ → List ℕ → SwitchStream → SwitchStream × List Event
broadcast h now slot type flags bytes =
    broadcast_filtered h now
      (record { slot = slot; filter = any_audio; type = type; flags = flags; data_bytes = bytes })

unfoldable pub video_flags : ℕ → Bool → ℕ → ℕ
video_flags slot keyframe codec =
    let key = if keyframe then flag_keyframe else 0 in
    if slot == stream_old3ds
    then (if codec == codec_mpeg4
        then bit_or key flag_mpeg4
        else if codec == codec_mpeg1
        then bit_or key flag_mpeg1
        else if codec == codec_mpeg2
        then bit_or key flag_mpeg2
        else key)
    else key

unfoldable pub switch_stream_send_video :
    Host → ℕ → ℕ → List ℕ → Bool → ℕ → SwitchStream → SwitchStream × List Event
switch_stream_send_video h now slot bytes keyframe codec =
    broadcast h now (some slot) msg_video (video_flags slot keyframe codec) bytes

unfoldable pub switch_stream_announce_stream :
    Host → ℕ → ℕ → ℕ → ℕ → SwitchStream → SwitchStream × List Event
switch_stream_announce_stream h now slot width height s =
    let noted : SwitchStream = record s {
      group_width = set s.group_width slot width;
      group_height = set s.group_height slot height;
      group_stream_known = set s.group_stream_known slot true;
    } in
    if leb stream_count slot
    then (s, [])
    else broadcast h now (some slot) msg_stream_info 0
        (stream_info width height (slot_codec s slot)) noted

unfoldable pub switch_stream_announce_shared :
    Host → ℕ → ℕ → ℕ → ℕ → ℕ → ℕ → ℕ → SwitchStream → SwitchStream × List Event
switch_stream_announce_shared h now slot width height fps bitrate_kbps capture_mjpeg s =
    let sh : Shared = record {
      width = width;
      height = height;
      fps = fps;
      bitrate_kbps = bitrate_kbps;
      video_codec = slot_codec s slot;
      capture_mjpeg = capture_mjpeg;
    } in
    let noted : SwitchStream = record s {
      shared = set s.shared slot sh;
      shared_known = set s.shared_known slot true;
    } in
    if leb stream_count slot
    then (s, [])
    else broadcast h now (some slot) msg_shared 0 (shared_bytes sh) noted
