-- ===== src/Native/Tests.antt =====
-- Clients and a server of server/switch_stream.c, and what the theorems on them say of these.
use capture2cloud.Base.{
  ℕ, List, [], ◌∷◌, ◌++◌, true, false, not, ◌&&◌, ◌≡◌, refl, if◌then◌else◌, some, All, replicate,
  take, arith,
}
use capture2cloud.Wire.{
  codec_h264, codec_mpeg1, msg_video, msg_input, msg_home, flag_keyframe, load32, msg_ping,
  c2s_old3ds_video_codec,
}
use capture2cloud.WsFrame.{ws_take_frame}
use capture2cloud.Native.{
  takes, SsClient, no_client, no_shared, SwitchStream, client, max_clients, forget, stream_count,
  stream_h264, client_slot, codec_slot,
}
use capture2cloud.Native.Socket.{on_wire, send_msg_now, send_all_now, push, is_finished}
use capture2cloud.Native.Socket.Stream.{stream, send_msg_now-stream}
use capture2cloud.Native.Table.{
  source_native, recount, differs, counts, counted, send_group_state, group_state, tell_shared,
  tell_stream_info,
}
use capture2cloud.Native.Sound.{IsSound}
use capture2cloud.Native.Broadcast.{Message, Host, any_audio, broadcast_filtered}
use capture2cloud.Native.Broadcast.Effect.{IsWhole}
use capture2cloud.Native.Broadcast.Rounds.{left_with, outcome, broadcast_filtered-IsWhole}
use capture2cloud.Native.Hello.{
  negotiated, read_hello, accept_hello, ack_bytes, welcome, welcomed, handle_hello,
}
use capture2cloud.Native.Hello.Outcomes.{IsEntitled, handle_hello-IsEntitled}
use capture2cloud.Native.Messages.{handle_messages}
use capture2cloud.Native.Messages.Cases.{Allows}
use capture2cloud.Native.Messages.Confined.{Confined, handle_messages-Confined}
use capture2cloud.Native.Messages.Loop.{IsIdle, handle_messages-IsIdle}
use capture2cloud.Native.Messages.Parse.{framed}
use capture2cloud.Native.Poll.Split.{receive-split_message}
use capture2cloud.WsFrame.{op_binary}
use capture2cloud.WsFrame.Length.{length_bytes}
use capture2cloud.WsFrame.RoundTrip.{client_frame}
use capture2cloud.Native.Audio.Paths.{ways, negotiated-ways}
use capture2cloud.Native.Websocket.{unwrap_ws}
use capture2cloud.Native.Websocket.Unwrap.{frames, payloads, unwrap_ws-frames}
use capture2cloud.Native.Poll.{Arrival, drc, quiet, receive, poll_round}
use capture2cloud.Native.Poll.History.{starts, steps, round, Reachable-IsSound}

abbrev empty_server : SwitchStream
empty_server = record {
  has_web = true;
  audio_udp = true;
  old3ds_codec = codec_mpeg1;
  width = 1280;
  height = 720;
  live = replicate stream_count 0;
  demand_dirty = false;
  drc_available = true;
  max_frame_bytes_by_slot = replicate stream_count 0;
  shared = replicate stream_count no_shared;
  shared_known = replicate stream_count false;
  group_width = replicate stream_count 0;
  group_height = replicate stream_count 0;
  group_stream_known = replicate stream_count false;
  clients = replicate max_clients no_client;
  last_keyframe_ms = 0;
  max_frame_bytes = 0;
  skipped_frames = 0;
  keyframe_pending = false;
  opus_sequence = 0;
  pcm_sequence = 0;
}

-- A player whose socket takes five bytes and then twenty; one input message and a half have come.
abbrev player : SsClient
player = record no_client {
  fd = record { wire = []; answers = takes 5 ∷ takes 20 ∷ [] };
  in_use = true;
  handshake_done = true;
  may_control = true;
  codec = codec_h264;
  peer_ipv4 = 16777343;
  rx = framed msg_home 0 [] ++ take 12 (framed msg_input 0 (replicate 21 0));
}

abbrev with_client : SsClient → SwitchStream
with_client c = record empty_server { clients = c ∷ replicate 7 no_client }

abbrev frame : Message
frame = record {
  slot = some stream_h264;
  filter = any_audio;
  type = msg_video;
  flags = flag_keyframe;
  data_bytes = 1 ∷ 2 ∷ 3 ∷ [];
}

abbrev host : Host
host = record { queued = λ _. some 0; room = λ _. true }

broadcast_filtered-IsWhole_example :
    (client (broadcast_filtered host 0 frame (with_client player)).0 0
      ≡ left_with (outcome host frame (with_client player) 0))
    × IsWhole true frame player (outcome host frame (with_client player) 0)
broadcast_filtered-IsWhole_example =
    broadcast_filtered-IsWhole host 0 frame (with_client player) 0 refl (omega arith) (omega arith)

abbrev arrival : Arrival
arrival = record { door = drc; peer = 16777343; fd = record { wire = []; answers = [] } }

Reachable-IsSound_example :
    IsSound (poll_round (λ _. false) (λ _. true) (λ _. quiet) 7 (arrival ∷ []) empty_server).0
Reachable-IsSound_example = Reachable-IsSound _ (
    steps (starts (record { clients = refl; live = refl }))
      (round (λ _. false) (λ _. true) (λ _. quiet) 7 (arrival ∷ [])))

handle_messages-Confined_example :
    let r = handle_messages 0 (with_client player) 0 in
    All (Allows true 0) r.1 × Confined (with_client player) 0 r.0
handle_messages-Confined_example = handle_messages-Confined 0 (with_client player) 0 (omega arith)

handle_messages-IsIdle_example : IsIdle (client (handle_messages 0 (with_client player) 0).0 0)
handle_messages-IsIdle_example = handle_messages-IsIdle 0 (with_client player) 0 (omega arith)

-- A browser whose input message comes in two frames.
abbrev page : SsClient
page = record player { is_ws = true; rx = [] }

abbrev key : List ℕ
key = 1 ∷ 2 ∷ 3 ∷ 4 ∷ []

receive-split_message_example :
    let frame = client_frame op_binary key (take 12 (framed msg_input 0 (replicate 21 0))) in
    let r = receive (λ _. true) true 5 (with_client page) 0 frame in
    (client r.0 0 ≡ no_client) × (r.1 ≡ forget (source_native 0) ∷ [])
unfolding client_frame length_bytes
receive-split_message_example =
    receive-split_message (λ _. true) 5 (with_client page) 0 msg_input 0 12 (replicate 21 0) key
      (omega arith)
      (record {
        browser = refl;
        connected = refl;
        greeted = refl;
        nothing_read = refl;
        nothing_collected = refl;
        small = omega arith;
      })
      (omega arith) (omega arith) (omega arith) refl (omega arith)

-- A client that greets without a token.
abbrev greeting : SsClient
greeting = record player {
  handshake_done = false;
  may_control = false;
  fd = record { wire = []; answers = takes 20 ∷ [] };
  rx = 0x43 ∷ 0x32 ∷ 0x53 ∷ 0x57 ∷ 1 ∷ 0 ∷ 0 ∷ 0 ∷ [];
}

handle_hello-IsEntitled_example : IsEntitled (λ _. true) greeting
unfolding handle_hello read_hello load32 accept_hello send_all_now is_finished push ack_bytes
    welcome recount differs counts send_group_state counted group_state tell_shared tell_stream_info
    client_slot welcomed negotiated codec_slot c2s_old3ds_video_codec
handle_hello-IsEntitled_example =
    handle_hello-IsEntitled (λ _. true) (with_client greeting) 0 (omega arith) refl refl

negotiated-ways_example :
    let n = negotiated empty_server (read_hello greeting.rx) greeting in
    ways (welcomed empty_server n false)
    ≡ (if n.pcm_audio && not n.pcm_udp && greeting.on_old3ds_port then 0 else 1)
unfolding negotiated
negotiated-ways_example =
    negotiated-ways empty_server (read_hello greeting.rx) greeting false refl refl refl refl refl

-- A client with part of a frame still to be sent.
abbrev busy : SsClient
busy = record player {
  fd = record { wire = 9 ∷ []; answers = takes 100 ∷ [] };
  pending = 9 ∷ 8 ∷ 7 ∷ [];
  pending_sent = 1;
}

send_msg_now-stream_example :
    stream (send_msg_now busy msg_ping []).1 ≡ (9 ∷ [] ++ on_wire false msg_ping 0 []) ++ 8 ∷ 7 ∷ []
unfolding send_msg_now send_all_now push is_finished
send_msg_now-stream_example = send_msg_now-stream busy msg_ping [] refl

abbrev sent_frames : List (List ℕ × List ℕ)
sent_frames = (1 ∷ 2 ∷ 3 ∷ 4 ∷ [], 5 ∷ 6 ∷ []) ∷ (9 ∷ 8 ∷ 7 ∷ 6 ∷ [], 0 ∷ []) ∷ []

abbrev browser : SsClient
browser = record player { is_ws = true; rx = frames sent_frames ++ 130 ∷ [] }

unwrap_ws-frames_example :
    let r = unwrap_ws true browser in
    (r.0 ≡ true) × ((r.1.ws_rx ≡ [] ++ payloads sent_frames) × (r.1.rx ≡ 130 ∷ []))
unfolding ws_take_frame
unwrap_ws-frames_example =
    unwrap_ws-frames browser sent_frames (130 ∷ []) refl
      ((refl, omega arith), ((refl, omega arith), tt)) refl
