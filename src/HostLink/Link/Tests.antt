-- ===== src/HostLink/Link/Tests.antt =====
-- The connection of wiiu_console/src/net.c at concrete links and hosts.
use capture2cloud.Base.{
  ℕ, List, [], ◌∷◌, ◌++◌, true, false, not, ◌≡◌, refl, ◌==◌, none, some, take, replicate, arith,
}
use capture2cloud.Wire.{msg_input, codec_h264}
use capture2cloud.Native.{
  takes, SsClient, no_client, no_shared, SwitchStream, max_clients, stream_count, frame_header,
  client_slot, codec_slot,
}
use capture2cloud.Native.Messages.{message, next_message}
use capture2cloud.Native.Messages.Parse.{framed}
use capture2cloud.Native.Hello.{
  Hello, HelloAck, ack_bytes, acceptance, negotiated, slot_width, slot_height,
}
use capture2cloud.HostLink.{contents}
use capture2cloud.HostLink.Buffer.{would_block}
use capture2cloud.HostLink.Events.{no_event}
use capture2cloud.HostLink.Link.{
  link_none, link_handshake, link_up, net_failed, NetInfo, Link, net_connect, send_message,
}
use capture2cloud.HostLink.Link.Poll.{System, resolved, net_poll, handle_handshake_reply}
use capture2cloud.HostLink.Link.Torn.{sent_link, send_message_torn}
use capture2cloud.HostLink.Link.Reach.{IsLinked, agree}
use capture2cloud.HostLink.Link.Reach.History.{connect, poll, here, next, Reach-IsLinked}
use capture2cloud.HostLink.Link.Greeting.{Greeted}
use capture2cloud.HostLink.Link.Greeting.Agreed.{handle_handshake_reply-negotiated}
use capture2cloud.HostLink.Link.Recovery.Whole.{net_poll_recovers}

abbrev no_info : NetInfo
no_info = record {
  state = net_failed;
  may_control = 0;
  width = 0;
  height = 0;
  video_codec = 0;
  audio_codec = 0;
  audio_udp = false;
  audio_rate = 0;
  audio_channels = 0;
  tx_bytes = 0;
  attempts = 0;
}

-- A link after a failure, to be tried again at 5000, with a small buffer.
abbrev failed_link : Link
failed_link = record {
  sock = none;
  stage = link_none;
  info = no_info;
  rx = record { buf = replicate 32 0; off = 0; len = 0 };
  host = 49 ∷ 46 ∷ [];
  port = 5083;
  token = 97 ∷ 98 ∷ [];
  want_connection = true;
  next_retry_ms = 5000;
  last_ping_ms = 0;
  connect_started_ms = 0;
  local_ip = 0;
  audio_open = true;
  audio = record { have_sequence = false; expected_sequence = 0; rx_bytes = 0 };
  async_running = false;
  async_requested = false;
  async = record {
    events = replicate 32 no_event;
    read = 0;
    write = 0;
    count = 0;
    video_count = 0;
    video_paused = false;
    video_synced = false;
    keyframe_requested = false;
  };
}

failed_link-IsLinked : IsLinked failed_link
unfolding agree
failed_link-IsLinked = record {
  agreed = refl;
  within = record { inside = omega arith; small = omega arith };
}

abbrev ack : HelloAck
ack = record {
  accepted = 1;
  may_control = 1;
  udp_flags = 1;
  width = 1280;
  height = 720;
  video_codec = codec_h264;
  audio_codec = 5;
  audio_rate = 48000;
  audio_channels = 2;
}

-- A system that does all that is asked, at a time, with the bytes that have come.
abbrev willing : ℕ → List ℕ → System
willing now come = record {
  now = now;
  is_address = λ _. true;
  new_socket = sent_link [] (takes 100 ∷ takes 100 ∷ []);
  made_nonblocking = true;
  connect_started = true;
  writable = resolved;
  error_clear = true;
  local_address = some 7;
  memory = λ _. true;
  ending = would_block;
  limits = replicate 25 9;
  queued = come;
}

Reach-IsLinked_example :
    IsLinked (net_poll (willing 6000 []) (net_connect true true (49 ∷ []) 5083 [] failed_link)).0
Reach-IsLinked_example =
    Reach-IsLinked failed_link-IsLinked
      (next (next here (connect true true (49 ∷ []) 5083 [])) (poll (willing 6000 [])))

net_poll_recovers_example :
    Greeted
      (net_poll
        (willing 6200 (ack_bytes ack ++ []))
        (net_poll (willing 6100 []) (net_poll (willing 6000 []) failed_link).0).0).0
      ack
      []
unfolding ack_bytes
net_poll_recovers_example =
    net_poll_recovers (willing 6000 []) (willing 6100 []) (willing 6200 (ack_bytes ack ++ []))
      failed_link [] 100 100 [] ack [] failed_link-IsLinked refl refl refl
      (record {
        due = refl;
        known = refl;
        readable = refl;
        made = refl;
        nonblocking = refl;
        begun = refl;
      })
      (omega arith) (omega arith) (omega arith) (record { told = refl; clear = refl })
      (record {
        memory = λ n. refl;
        open_still = refl;
        limits = omega arith;
        enough = omega arith;
        come = refl;
        small = omega arith;
        in_time = refl;
      })
      (record { wide = omega arith; high = omega arith; rated = omega arith }) refl

-- A link that is up, whose socket takes a header, is full, and takes two sends more.
abbrev up_link : Link
up_link = record failed_link {
  sock = sent_link [] (takes 8 ∷ takes 0 ∷ takes 8 ∷ takes 100 ∷ []);
  stage = link_up;
}

send_message_torn_example :
    let first = send_message msg_input 0 (replicate 21 1) up_link in
    let second = send_message msg_input 0 (replicate 21 2) first.1 in
    let bytes = frame_header msg_input 0 21 ++ framed msg_input 0 (replicate 21 2) in
    (first.0 ≡ false)
    × (first.1.stage ≡ link_up)
    × (second.1.sock ≡ sent_link ([] ++ bytes) [])
    × (next_message 512 bytes ≡ message msg_input (take 21 (framed msg_input 0 (replicate 21 2))))
send_message_torn_example =
    send_message_torn [] 100 512 msg_input 0 1 (replicate 20 1) msg_input 0 2 (replicate 20 2)
      up_link refl (omega arith) (omega arith) (omega arith) (omega arith) (omega arith)

-- A host with one stream shape, and a Wii U client of it that asked for PCM over UDP.
abbrev wiiu_host : SwitchStream
wiiu_host = record {
  has_web = true;
  audio_udp = true;
  old3ds_codec = 9;
  width = 1280;
  height = 720;
  live = replicate stream_count 0;
  demand_dirty = false;
  drc_available = true;
  max_frame_bytes_by_slot = replicate stream_count 0;
  shared = replicate stream_count no_shared;
  shared_known = replicate stream_count false;
  group_width = replicate stream_count 0;
  group_height = replicate stream_count 0;
  group_stream_known = replicate stream_count false;
  clients = replicate max_clients no_client;
  last_keyframe_ms = 0;
  max_frame_bytes = 0;
  skipped_frames = 0;
  keyframe_pending = false;
  opus_sequence = 0;
  pcm_sequence = 0;
}

abbrev wiiu_hello : Hello
wiiu_hello = record { magic = 0x57533243; version = 1; token_len = 0; caps = 3 }

abbrev wiiu_client : SsClient
wiiu_client = record no_client { in_use = true; on_wiiu_port = true; codec = codec_h264 }

abbrev answered_link : Link
answered_link = record failed_link {
  stage = link_handshake;
  rx = record {
    buf =
        ack_bytes (acceptance wiiu_host (negotiated wiiu_host wiiu_hello wiiu_client) true)
        ++ 1 ∷ [];
    off = 0;
    len = 21;
  };
}

handle_handshake_reply-negotiated_example :
    let n = negotiated wiiu_host wiiu_hello wiiu_client in
    let r = handle_handshake_reply 6200 answered_link in
    (r.stage ≡ link_up)
    × (r.info.audio_udp ≡ n.pcm_udp)
    × ((r.info.may_control == 0) ≡ not true)
    × (r.info.width ≡ slot_width wiiu_host (client_slot n))
    × (r.info.height ≡ slot_height wiiu_host (client_slot n))
    × (r.info.video_codec ≡ n.codec)
    × (contents r.rx ≡ 1 ∷ [])
unfolding ack_bytes acceptance negotiated client_slot codec_slot
handle_handshake_reply-negotiated_example =
    handle_handshake_reply-negotiated 6200 answered_link wiiu_host wiiu_hello wiiu_client true
      (1 ∷ []) (record { inside = omega arith; small = omega arith }) refl (omega arith)
      (omega arith)
