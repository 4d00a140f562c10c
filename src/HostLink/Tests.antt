-- ===== src/HostLink/Tests.antt =====
-- The console's link of wiiu_console/src/net.c at concrete buffers, messages and states.
use capture2cloud.Base.{
  ℕ, ◌-◌, ◌^◌, some, List, [], ◌∷◌, ◌++◌, map, Bool, true, false, ◌≡◌, ◌≢◌, ◌⊎◌, refl, ◌==◌, All,
  length, take, replicate, arith,
}
use capture2cloud.Wire.{msg_video, msg_audio, msg_stream_info, msg_ping, flag_keyframe}
use capture2cloud.Native.Messages.Parse.{framed}
use capture2cloud.HostLink.{Rx, contents}
use capture2cloud.HostLink.Buffer.{would_block, fill_rx}
use capture2cloud.HostLink.Buffer.Stream.{IsWithin}
use capture2cloud.HostLink.Buffer.Queue.{Keeps, fill_rx-Keeps}
use capture2cloud.HostLink.Frames.{nothing, frame, take_frame_direct}
use capture2cloud.HostLink.Frames.Whole.{take_frame_direct-framed, fill_rx-take_frame_direct}
use capture2cloud.HostLink.Events.{AsyncEvent, no_event, AsyncState, async_queue_event}
use capture2cloud.HostLink.Events.Ring.{IsRing, waiting_events, enqueue, async_queue_event-enqueue}
use capture2cloud.HostLink.Video.{drained, async_drain_rx, net_async_video_resume}
use capture2cloud.HostLink.Video.Feed.{WellFed}
use capture2cloud.HostLink.Video.Drain.{all_sent, IsPlain, handle_each, async_drain_rx-all_sent}
use capture2cloud.HostLink.Video.History.{drain, resume, here, next, Run-WellFed}
use capture2cloud.HostLink.Sound.{AudioState, net_take_audio}
use capture2cloud.HostLink.Sound.Packets.{
  Packet, IsSent, bytes_of, first_new, Expects, samples_of, expected_after,
  net_take_audio-first_new,
}

-- A buffer of sixteen bytes, six of which are in use behind two that are not.
abbrev small_rx : Rx
small_rx = record { buf = 9 ∷ 9 ∷ 2 ∷ 1 ∷ 0 ∷ 0 ∷ 2 ∷ 0 ∷ replicate 8 0; off = 2; len = 6 }

small_rx-IsWithin : IsWithin small_rx
small_rx-IsWithin = record { inside = omega arith; small = omega arith }

abbrev pieces : List ℕ
pieces = replicate 12 5

abbrev come : List ℕ
come = 0 ∷ 0 ∷ 7 ∷ 8 ∷ framed msg_ping 0 []

abbrev plenty : ℕ → Bool
plenty n = true

fill_rx-take_frame_direct_example :
    let r = fill_rx plenty would_block pieces come small_rx in
    ((r.2 ≡ []) × (r.0 ≡ would_block)) ⊎ ((take_frame_direct true r.1).0 ≢ nothing)
fill_rx-take_frame_direct_example =
    fill_rx-take_frame_direct plenty would_block pieces come small_rx small_rx-IsWithin (λ n. refl)
      (omega arith) (omega arith)

fill_rx-Keeps_example : Keeps small_rx come (fill_rx plenty would_block pieces come small_rx)
fill_rx-Keeps_example = fill_rx-Keeps plenty would_block pieces come small_rx small_rx-IsWithin

-- A buffer with such bytes.
abbrev holding : List ℕ → Rx
holding bytes = record { buf = bytes; off = 0; len = length bytes }

abbrev two_messages : List ℕ
two_messages = framed msg_video 1 (7 ∷ 8 ∷ []) ++ framed msg_ping 0 []

take_frame_direct-framed_example :
    let r = take_frame_direct true (holding two_messages) in
    (r.0 ≡ frame msg_video 1 (7 ∷ 8 ∷ [])) × (contents r.1 ≡ framed msg_ping 0 []) × IsWithin r.1
take_frame_direct-framed_example =
    take_frame_direct-framed (holding two_messages) msg_video 1 (7 ∷ 8 ∷ []) (framed msg_ping 0 [])
      (record { inside = omega arith; small = omega arith }) refl (omega arith)

-- A full ring whose oldest event stands at the place 3.
abbrev full_ring : AsyncState
full_ring = record {
  events = replicate 32 (record { type = msg_audio; flags = 0; payload = 1 ∷ [] });
  read = 3;
  write = 3;
  count = 32;
  video_count = 0;
  video_paused = false;
  video_synced = false;
  keyframe_requested = false;
}

async_queue_event-enqueue_example :
    let s' = async_queue_event msg_stream_info 0 (4 ∷ []) full_ring in
    (waiting_events s'
      ≡ enqueue
          (record { type = msg_stream_info; flags = 0; payload = 4 ∷ [] })
          (waiting_events full_ring))
    × IsRing s'
async_queue_event-enqueue_example =
    async_queue_event-enqueue msg_stream_info 0 (4 ∷ []) full_ring (omega arith)
      (record { slots = refl; read_in = omega arith; count_in = omega arith; write_at_end = refl })

abbrev quiet_ring : AsyncState
quiet_ring = record full_ring { events = replicate 32 no_event; read = 0; write = 0; count = 0 }

abbrev keyframe : AsyncEvent
keyframe = record { type = msg_video; flags = flag_keyframe; payload = 5 ∷ 6 ∷ [] }

abbrev delta : AsyncEvent
delta = record { type = msg_video; flags = 0; payload = 6 ∷ [] }

-- The decoder takes the first frame of a count only.
abbrev first_only : ℕ → Bool
first_only n = n == 1

abbrev frames_rx : Rx
frames_rx = holding (all_sent (keyframe ∷ delta ∷ delta ∷ []))

Run-WellFed_example : WellFed false (
    ([] ++ (async_drain_rx first_only 9 frames_rx quiet_ring).3)
    ++ (net_async_video_resume true (async_drain_rx first_only 9 frames_rx quiet_ring).2).1)
Run-WellFed_example =
    Run-WellFed {s = quiet_ring} refl
      (next (next here (drain first_only 9 frames_rx)) (resume true))

two_frames-IsPlain : All IsPlain (keyframe ∷ delta ∷ [])
two_frames-IsPlain = (
  record { some_type = refl; same_shape = refl; small = omega arith },
  (record { some_type = refl; same_shape = refl; small = omega arith }, tt),
)

abbrev cut_rx : Rx
cut_rx = holding (all_sent (keyframe ∷ delta ∷ []) ++ take 8 (framed msg_video 0 (6 ∷ [])))

async_drain_rx-all_sent_example :
    let r = async_drain_rx first_only 4 cut_rx quiet_ring in
    let e = handle_each first_only (keyframe ∷ delta ∷ []) quiet_ring in
    (r.0 ≡ drained)
    × (contents r.1 ≡ take 8 (framed msg_video 0 (6 ∷ [])))
    × (r.2 ≡ e.0)
    × (r.3 ≡ e.1)
async_drain_rx-all_sent_example =
    async_drain_rx-all_sent first_only (keyframe ∷ delta ∷ []) delta 8 1 cut_rx quiet_ring
      (record { inside = omega arith; small = omega arith }) refl two_frames-IsPlain (omega arith)
      (omega arith)

abbrev shape_rx : Rx
shape_rx = holding (
    all_sent (keyframe ∷ delta ∷ []) ++ (framed msg_stream_info 0 (1 ∷ []) ++ framed msg_ping 0 []))

-- The number that is expected is the last of 32 bits: the packet before it is late, the one after
-- it, 0 on the wire, is new.
abbrev hearing : AudioState
hearing = record { have_sequence = true; expected_sequence = 2 ^ 32 - 1; rx_bytes = 0 }

abbrev packets : List Packet
packets =
    record { sequence = 2 ^ 32 - 2; samples = replicate 4 1 }
    ∷ record { sequence = 2 ^ 32; samples = replicate 8 2 }
    ∷ record { sequence = 2 ^ 32 - 1; samples = replicate 4 3 }
    ∷ []

packets-IsSent : All IsSent packets
packets-IsSent = (
  record { whole = refl; some_frames = omega arith; few_frames = omega arith },
  (
    record { whole = refl; some_frames = omega arith; few_frames = omega arith },
    (record { whole = refl; some_frames = omega arith; few_frames = omega arith }, tt),
  ),
)

net_take_audio-first_new_example :
    let f = first_new (some (2 ^ 32 - 1)) packets in
    let r = net_take_audio true hearing (map bytes_of packets) in
    (r.0 ≡ samples_of f.0)
    × Expects r.1 (expected_after (some (2 ^ 32 - 1)) f.0)
    × (r.2 ≡ map bytes_of f.1)
net_take_audio-first_new_example =
    net_take_audio-first_new hearing (some (2 ^ 32 - 1)) packets (refl, refl) packets-IsSent
      ((omega arith, omega arith), ((omega arith, omega arith), ((omega arith, omega arith), tt)))
