-- ===== src/Native/Poll/History.antt =====
-- The history of the server of server/switch_stream.c: what can happen to it, and what holds
-- of its table at every time.
use capture2cloud.Base.{
  ltb, not, ◌||◌, ◌%◌, ◌/◌, ℕ, ◌<◌, List, Bool, false, ◌&&◌, leb, ◌≡◌, refl, sym, ap, ◌∙◌, if_holds,
  if_cases, Option, none, some, length, length-set, replicate, get_or, get_or-replicate, ◌==◌,
  arith,
}
use capture2cloud.Wire.{opus_udp_max_bytes, pcm_udp_max_frames, msg_hello_ack}
use capture2cloud.Native.{
  SsClient, no_client, Descriptor, SwitchStream, client, max_clients, max_ws_clients, stream_count,
  client_slot,
}
use capture2cloud.Native.Socket.{send_msg_now}
use capture2cloud.Native.Table.{put, switch_stream_set_drc_available, switch_stream_set_video_size}
use capture2cloud.Native.Table.Counts.{watchers}
use capture2cloud.Native.Sound.{
  IsSound, Follows, count_browsers-set_one, recount-IsSound, put-IsSound, same-IsSound, IsShaped,
  send_group_state-IsShaped,
}
use capture2cloud.Native.Hello.{ack_bytes, acceptance}
use capture2cloud.Native.Websocket.{
  count_browsers, free_slot, new_browser, adopt_at, adopt_free, switch_stream_adopt_websocket,
}
use capture2cloud.Native.Broadcast.{Host, Message, broadcast_filtered}
use capture2cloud.Native.Broadcast.Announce.{
  switch_stream_announce_stream, switch_stream_announce_shared, broadcast,
}
use capture2cloud.Native.Audio.{
  opus_message, pcm_message, peers, wants_opus_udp, wants_pcm_udp, switch_stream_send_audio,
  send_pcm,
}
use capture2cloud.Native.Broadcast.Sound.{broadcast_filtered-IsSound}
use capture2cloud.Native.Poll.{Arrival, Readiness, poll_round}
use capture2cloud.Native.Poll.Invariant.{SoundAfter}
use capture2cloud.Native.Poll.Reach.{free_slot-in_use, poll_round-IsSound}

adopt_at-IsSound :
    (s : SwitchStream) (i : ℕ) (c : SsClient) (control : Bool)
    → (client s i).in_use ≡ false
    → count_browsers s.clients < max_ws_clients
    → IsSound s
    → IsSound (adopt_at s i c control).1
unfolding adopt_at
adopt_at-IsSound s i c control e lt h =
    let answer = send_msg_now c msg_hello_ack (ack_bytes (acceptance s c control)) in
    let there : IsShaped (put s i answer.1) = record {
      streams = h.counted.streams;
      eight = length-set s.clients i answer.1 ∙ h.eight;
      browsers = omega (arith, count_browsers-set_one s.clients i answer.1);
    } in
    let told = send_group_state-IsShaped (put s i answer.1) i there in
    let free : Follows (client s i) no_client = record {
      browser = sym (ap (λ b. b && (client s i).is_ws) e);
      stream = λ slot.
          sym
            (ap (λ b. (b && (client s i).handshake_done) && (client_slot (client s i) == slot)) e);
    } in
    if_holds (λ (r : Bool × SwitchStream). IsSound r.1) answer.0
      (recount-IsSound _
        (record { streams = told.streams; eight = told.eight; browsers = told.browsers }))
      (put-IsSound s i no_client free h)

adopt_free-IsSound :
    (s : SwitchStream) (fd : Descriptor) (control : Bool) (now : ℕ) (o : Option ℕ)
    → ((i : ℕ) → o ≡ some i → (client s i).in_use ≡ false)
    → count_browsers s.clients < max_ws_clients
    → IsSound s
    → IsSound (adopt_free s fd control now o).1
unfolding adopt_free
adopt_free-IsSound s fd control now none f lt h = h
adopt_free-IsSound s fd control now (some i) f lt h =
    adopt_at-IsSound s i (new_browser fd control now) control (f i refl) lt h

adopt-IsSound :
    (fd : Descriptor) (control : Bool) (now : ℕ) (s : SwitchStream)
    → IsSound s
    → IsSound (switch_stream_adopt_websocket fd control now s).1
unfolding switch_stream_adopt_websocket
adopt-IsSound fd control now s h =
    if_cases (λ (r : Bool × SwitchStream). IsSound r.1)
      (leb max_ws_clients (count_browsers s.clients)) (λ _. h)
      (λ e.
        adopt_free-IsSound s fd control now (free_slot s.clients)
          (λ i f. (free_slot-in_use s.clients i f).1) (ground arith) h)

announce_stream-IsSound :
    (h : Host) (now slot width height : ℕ) (s : SwitchStream)
    → IsSound s
    → SoundAfter (switch_stream_announce_stream h now slot width height s)
unfolding switch_stream_announce_stream broadcast
announce_stream-IsSound h now slot width height s v =
    if_holds SoundAfter (leb stream_count slot) v
      (broadcast_filtered-IsSound h now _ _ (same-IsSound s _ refl refl v))

announce_shared-IsSound :
    (h : Host) (now slot width height fps kbps mjpeg : ℕ) (s : SwitchStream)
    → IsSound s
    → SoundAfter (switch_stream_announce_shared h now slot width height fps kbps mjpeg s)
unfolding switch_stream_announce_shared broadcast
announce_shared-IsSound h now slot width height fps kbps mjpeg s v =
    if_holds SoundAfter (leb stream_count slot) v
      (broadcast_filtered-IsSound h now _ _ (same-IsSound s _ refl refl v))

send_audio-IsSound :
    (h : Host) (now : ℕ) (bytes : List ℕ) (s : SwitchStream)
    → IsSound s
    → SoundAfter (switch_stream_send_audio h now bytes s)
unfolding switch_stream_send_audio
send_audio-IsSound h now bytes s v =
    let tcp = broadcast_filtered h now (opus_message bytes) s in
    let sound : IsSound tcp.0 = broadcast_filtered-IsSound h now (opus_message bytes) s v in
    let to = peers wants_opus_udp tcp.0.clients in
    if_holds SoundAfter
      ((length bytes == 0) || (ltb opus_udp_max_bytes (length bytes) || not tcp.0.audio_udp)) sound
      (if_holds SoundAfter (length to == 0) sound (same-IsSound tcp.0 _ refl refl sound))

send_pcm-IsSound :
    (h : Host) (now : ℕ) (bytes : List ℕ) (s : SwitchStream)
    → IsSound s
    → SoundAfter (send_pcm h now bytes s)
unfolding send_pcm
send_pcm-IsSound h now bytes s v =
    let tcp = broadcast_filtered h now (pcm_message bytes) s in
    let sound : IsSound tcp.0 = broadcast_filtered-IsSound h now (pcm_message bytes) s v in
    let to = peers wants_pcm_udp tcp.0.clients in
    if_holds SoundAfter ((length bytes == 0) || not (length bytes % 4 == 0)) v (
      if_holds SoundAfter (not tcp.0.audio_udp || ltb pcm_udp_max_frames (length bytes / 4)) sound
        (if_holds SoundAfter (length to == 0) sound (same-IsSound tcp.0 _ refl refl sound)))

-- One thing that happens to the server.
pub data Step : SwitchStream → SwitchStream → Type 0 where
  round :
      {s : SwitchStream} (web : List ℕ → Bool) (room : ℕ → Bool) (ready : ℕ → Readiness) (now : ℕ)
      (arrivals : List Arrival)
      → Step s (poll_round web room ready now arrivals s).0
  adopts :
      {s : SwitchStream} (fd : Descriptor) (control : Bool) (now : ℕ)
      → Step s (switch_stream_adopt_websocket fd control now s).1
  sends :
      {s : SwitchStream} (h : Host) (now : ℕ) (m : Message)
      → Step s (broadcast_filtered h now m s).0
  plays :
      {s : SwitchStream} (h : Host) (now : ℕ) (bytes : List ℕ)
      → Step s (switch_stream_send_audio h now bytes s).0
  plays_pcm :
      {s : SwitchStream} (h : Host) (now : ℕ) (bytes : List ℕ) → Step s (send_pcm h now bytes s).0
  announces :
      {s : SwitchStream} (h : Host) (now slot width height : ℕ)
      → Step s (switch_stream_announce_stream h now slot width height s).0
  shares :
      {s : SwitchStream} (h : Host) (now slot width height fps kbps mjpeg : ℕ)
      → Step s (switch_stream_announce_shared h now slot width height fps kbps mjpeg s).0
  makes_drc :
      {s : SwitchStream} (available : Bool) → Step s (switch_stream_set_drc_available s available)
  resizes :
      {s : SwitchStream} (width height : ℕ) → Step s (switch_stream_set_video_size s width height)

-- `switch_stream_start`: the table is empty and nobody watches anything.
pub record IsStart (s : SwitchStream) : Type 0 where
  pub clients : s.clients ≡ replicate max_clients no_client
  pub live : s.live ≡ replicate stream_count 0

pub data Reachable : SwitchStream → Type 0 where
  starts : {s : SwitchStream} → IsStart s → Reachable s
  steps : {s t : SwitchStream} → Reachable s → Step s t → Reachable t

Step-IsSound : {s t : SwitchStream} → Step s t → IsSound s → IsSound t
unfolding switch_stream_set_drc_available switch_stream_set_video_size
Step-IsSound (round web room ready now arrivals) h =
    poll_round-IsSound web room ready now arrivals _ h
Step-IsSound (adopts fd control now) h = adopt-IsSound fd control now _ h
Step-IsSound (sends k now m) h = broadcast_filtered-IsSound k now m _ h
Step-IsSound (plays k now bytes) h = send_audio-IsSound k now bytes _ h
Step-IsSound (plays_pcm k now bytes) h = send_pcm-IsSound k now bytes _ h
Step-IsSound (announces k now slot width height) h =
    announce_stream-IsSound k now slot width height _ h
Step-IsSound (shares k now slot width height fps kbps mjpeg) h =
    announce_shared-IsSound k now slot width height fps kbps mjpeg _ h
Step-IsSound (makes_drc available) h = same-IsSound _ _ refl refl h
Step-IsSound (resizes width height) h = same-IsSound _ _ refl refl h

start-IsSound : (s : SwitchStream) → IsStart s → IsSound s
unfolding watchers count_browsers
start-IsSound s h =
    let nobody : (slot : ℕ) → watchers slot (replicate max_clients no_client) ≡ 0 = λ slot. refl in
    record {
      eight = ap length h.clients;
      counted = record {
        streams = ap length h.live;
        live = λ slot lt.
            ap (λ n. get_or n slot 0) h.live
            ∙ get_or-replicate {A = ℕ} stream_count 0 slot
            ∙ sym (nobody slot)
            ∙ ap (watchers slot) (sym h.clients);
      };
      browsers = rw h.clients (omega arith);
    }

-- At every time the table has eight slots, at most four of them are taken by browsers, and `live`
-- holds for each stream how many greeted clients are on it.
pub Reachable-IsSound : (s : SwitchStream) → Reachable s → IsSound s
Reachable-IsSound s (starts h) = start-IsSound s h
Reachable-IsSound s (steps r p) = Step-IsSound p (Reachable-IsSound _ r)
