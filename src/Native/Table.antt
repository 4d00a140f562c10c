-- ===== src/Native/Table.antt =====
-- The table of clients in server/switch_stream.c: who watches which stream, a client that goes,
-- and what a client is told about its stream.
pub mod Counts
use capture2cloud.Base.{
  ℕ, zero, suc, ◌+◌, ◌%◌, List, [], ◌∷◌, ◌++◌, Bool, true, false, not, ◌&&◌, ◌||◌, ◌==◌, leb,
  if◌then◌else◌, get_or, set, replicate,
}
use capture2cloud.Wire.{msg_stream_info, msg_shared}
use capture2cloud.Native.{
  SsClient, no_client, Shared, no_shared, SwitchStream, client, Event, forget, client_slot,
  slot_codec, stream_count, le16,
}
use capture2cloud.Native.Socket.{send_msg_now}

-- `GAMEPAD_SOURCE_NATIVE`.
abbrev pub source_native : ℕ → ℕ
source_native i = 0x200 + i

abbrev pub put : SwitchStream → ℕ → SsClient → SwitchStream
put s i c = record s { clients = set s.clients i c }

abbrev pub is_live : SsClient → Bool
is_live c = c.in_use && c.handshake_done

-- `n[client_slot(c)]++` for each client that is connected.
unfoldable pub counted : SsClient → List ℕ → List ℕ
counted c n = if is_live c then set n (client_slot c) (get_or n (client_slot c) 0 + 1) else n

unfoldable pub counts : List SsClient → List ℕ → List ℕ
counts [] n = n
counts (c ∷ cs) n = counts cs (counted c n)

unfoldable pub differs : List ℕ → List ℕ → Bool
differs [] m = false
differs (a ∷ n) [] = false
differs (a ∷ n) (b ∷ m) = not (a == b) || differs n m

unfoldable pub recount : SwitchStream → SwitchStream
recount s =
    let n = counts s.clients (replicate stream_count 0) in
    if differs n s.live then record s { live = n; demand_dirty = true } else s

unfoldable pub drop_client : SwitchStream → ℕ → SwitchStream × List Event
drop_client s i =
    if not (client s i).in_use
    then (s, [])
    else (recount (put s i no_client), forget (source_native i) ∷ [])

-- `C2sStreamInfo` and `C2sShared` on the wire.
unfoldable pub stream_info : ℕ → ℕ → ℕ → List ℕ
stream_info width height codec = le16 width ++ le16 height ++ codec ∷ 0 ∷ 0 ∷ 0 ∷ []

unfoldable pub shared_bytes : Shared → List ℕ
shared_bytes h =
    le16 h.width
    ++ le16 h.height
    ++ le16 h.fps
    ++ le16 h.bitrate_kbps
    ++ h.video_codec ∷ h.capture_mjpeg ∷ 0 ∷ 0 ∷ []

-- The answers of `send_msg_now` are not looked at.
unfoldable pub tell_stream_info : SwitchStream → ℕ → SsClient → SsClient
tell_stream_info s slot c =
    let info =
      stream_info (get_or s.group_width slot 0) (get_or s.group_height slot 0)
        (slot_codec s slot) in
    if get_or s.group_stream_known slot false then (send_msg_now c msg_stream_info info).1 else c

unfoldable pub tell_shared : SwitchStream → ℕ → SsClient → SsClient
tell_shared s slot c =
    if get_or s.shared_known slot false
    then (send_msg_now c msg_shared (shared_bytes (get_or s.shared slot no_shared))).1
    else c

unfoldable pub group_state : SwitchStream → SsClient → SsClient
group_state s c = tell_shared s (client_slot c) (tell_stream_info s (client_slot c) c)

unfoldable pub send_group_state : SwitchStream → ℕ → SwitchStream
send_group_state s i = put s i (group_state s (client s i))

unfoldable pub switch_stream_stream_client_count : SwitchStream → ℕ → ℕ
switch_stream_stream_client_count s slot = if leb stream_count slot then 0 else get_or s.live slot 0

-- The codec of the first client on a stream.
unfoldable pub first_codec : List SsClient → ℕ → ℕ
first_codec [] slot = 0
first_codec (c ∷ cs) slot =
    if is_live c && (client_slot c == slot) then c.codec else first_codec cs slot

unfoldable pub switch_stream_stream_codec : SwitchStream → ℕ → ℕ
switch_stream_stream_codec s slot = if leb stream_count slot then 0 else first_codec s.clients slot

unfoldable pub count_live : List SsClient → ℕ
count_live [] = 0
count_live (c ∷ cs) = (if is_live c then 1 else 0) + count_live cs

unfoldable pub switch_stream_client_count : SwitchStream → ℕ
switch_stream_client_count s = count_live s.clients

unfoldable pub count_opus : List SsClient → ℕ
count_opus [] = 0
count_opus (c ∷ cs) =
    (if is_live c && (not c.pcm_audio && not c.adpcm_udp) then 1 else 0) + count_opus cs

unfoldable pub switch_stream_opus_audio_client_count : SwitchStream → ℕ
switch_stream_opus_audio_client_count s = count_opus s.clients

unfoldable pub switch_stream_set_drc_available : SwitchStream → Bool → SwitchStream
switch_stream_set_drc_available s available = record s { drc_available = available }

unfoldable pub switch_stream_set_video_size : SwitchStream → ℕ → ℕ → SwitchStream
switch_stream_set_video_size s width height = record s { width = width; height = height }
