-- ===== src/Native/Poll.antt =====
-- `accept_thread` in server/switch_stream.c: one round of its loop, after `poll`.
pub mod Invariant
pub mod Reach
pub mod Split
pub mod History
use capture2cloud.Base.{
  ℕ, zero, suc, ◌+◌, ◌-◌, List, [], ◌∷◌, ◌++◌, Bool, true, false, not, ◌&&◌, ◌||◌, ◌==◌, ltb,
  if◌then◌else◌, Option, none, some, length, take, get_or,
}
use capture2cloud.Wire.{codec_h264, codec_drc_h264, msg_ping}
use capture2cloud.Native.{
  SsClient, no_client, Descriptor, SwitchStream, client, Event, request_keyframe, demand_changed,
  max_clients, rx_capacity, idle_timeout_ms, idle_probe_ms,
}
use capture2cloud.Native.Socket.{send_msg_now}
use capture2cloud.Native.Table.{put, drop_client}
use capture2cloud.Native.Broadcast.{since}
use capture2cloud.Native.Hello.{handle_hello}
use capture2cloud.Native.Messages.{handle_messages}
use capture2cloud.Native.Websocket.{unwrap_ws, free_slot}

-- The listening sockets, one for each kind of client.
pub data Door : Type 0 where
  native drc wiiu old3ds : Door

unfoldable pub is_wiiu : Door → Bool
is_wiiu native = false
is_wiiu drc = false
is_wiiu wiiu = true
is_wiiu old3ds = false

-- A connection that `accept` returns; the address is 0 where it is not an IPv4 one.
pub record Arrival : Type 0 where
  pub door : Door
  pub peer : ℕ
  pub fd : Descriptor

abbrev pub fresh : Arrival → ℕ → SsClient
fresh a now = record no_client { fd = a.fd; in_use = true; peer_ipv4 = a.peer; last_seen_ms = now }

unfoldable pub through : SwitchStream → Door → SsClient → SsClient
through s native c = c
through s drc c = record c { codec = codec_drc_h264; on_drc_port = true }
through s wiiu c = record c { codec = codec_h264; on_wiiu_port = true }
through s old3ds c = record c { codec = s.old3ds_codec; on_old3ds_port = true }

-- The door that a client came in through decides the stream that it is on.
unfoldable pub new_client : SwitchStream → Arrival → ℕ → SsClient
new_client s a now = through s a.door (fresh a now)

-- A Wii U console that comes again replaces its older sessions.
unfoldable pub replaced_from : ℕ → ℕ → ℕ → SwitchStream → SwitchStream × List Event
replaced_from zero i peer s = (s, [])
replaced_from (suc left) i peer s =
    let c = client s i in
    let gone = drop_client s i in
    let here = if c.in_use && (c.on_wiiu_port && (c.peer_ipv4 == peer)) then gone else (s, []) in
    let rest = replaced_from left (i + 1) peer here.0 in (rest.0, here.1 ++ rest.1)

unfoldable pub admit_at : SwitchStream → SsClient → Option ℕ → SwitchStream
admit_at s c none = s
admit_at s c (some i) = put s i c

unfoldable pub admit : SwitchStream → Arrival → ℕ → SwitchStream
admit s a now = admit_at s (new_client s a now) (free_slot s.clients)

unfoldable pub accept_one : ℕ → SwitchStream → Arrival → SwitchStream × List Event
accept_one now s a =
    let cleared = replaced_from max_clients 0 a.peer s in
    let replaced = if is_wiiu a.door && not (a.peer == 0) then cleared else (s, []) in
    (admit replaced.0 a now, replaced.1)

unfoldable pub accept_all : ℕ → SwitchStream → List Arrival → SwitchStream × List Event
accept_all now s [] = (s, [])
accept_all now s (a ∷ more) =
    let here = accept_one now s a in
    let rest = accept_all now here.0 more in (rest.0, here.1 ++ rest.1)

-- What `poll` and then `recv` say of a socket; `bytes` are those that have arrived, of which
-- `recv` takes what fits.
pub data Readiness : Type 0 where
  hung_up quiet would_block failed : Readiness
  bytes : List ℕ → Readiness

-- A silent client is asked after three seconds, and dropped after ten.
unfoldable pub idle : ℕ → SwitchStream → ℕ → SwitchStream × List Event
idle now s i =
    let c = client s i in
    let silent = since now c.last_seen_ms in
    let asked : SsClient = record c { last_probe_ms = now } in
    if ltb idle_timeout_ms silent
    then drop_client s i
    else if ltb idle_probe_ms silent && ltb idle_probe_ms (since now c.last_probe_ms)
    then (put s i (send_msg_now asked msg_ping []).1, [])
    else (s, [])

-- The clients' requests, where the client is greeted and still there.
unfoldable pub then_messages : ℕ → ℕ → SwitchStream × List Event → SwitchStream × List Event
then_messages now i (s, events) =
    let r = handle_messages now s i in
    if (client s i).in_use && (client s i).handshake_done then (r.0, events ++ r.1) else (s, events)

unfoldable pub unwrapped : ℕ → ℕ → SwitchStream → Bool × SsClient → SwitchStream × List Event
unwrapped now i s (false, c) = drop_client (put s i c) i
unwrapped now i s (true, c) = then_messages now i (put s i c, [])

-- Where the buffer is full `recv` is asked for no bytes, and its 0 means that the client closed.
unfoldable pub receive :
    (List ℕ → Bool) → Bool → ℕ → SwitchStream → ℕ → List ℕ → SwitchStream × List Event
receive web_may_control room now s i arrived =
    let c = client s i in
    let got = take (rx_capacity - length c.rx) arrived in
    let read : SsClient = record c { rx = c.rx ++ got; last_seen_ms = now } in
    let filled = put s i read in
    if length got == 0
    then drop_client s i
    else if c.is_ws
    then unwrapped now i s (unwrap_ws room read)
    else if not c.handshake_done
    then then_messages now i (handle_hello web_may_control filled i)
    else then_messages now i (filled, [])

unfoldable pub serve :
    (List ℕ → Bool) → Bool → ℕ → SwitchStream → ℕ → Readiness → SwitchStream × List Event
serve web_may_control room now s i hung_up = drop_client s i
serve web_may_control room now s i quiet = idle now s i
serve web_may_control room now s i would_block = (s, [])
serve web_may_control room now s i failed = drop_client s i
serve web_may_control room now s i (bytes arrived) = receive web_may_control room now s i arrived

-- The slots that were in use when `poll` was called, and are so still.
unfoldable pub serve_from :
    (List ℕ → Bool)
    → (ℕ → Bool)
    → (ℕ → Readiness)
    → ℕ
    → List SsClient
    → ℕ
    → ℕ
    → SwitchStream
    → SwitchStream × List Event
serve_from web_may_control room ready now polled zero i s = (s, [])
serve_from web_may_control room ready now polled (suc left) i s =
    let served = serve web_may_control (room i) now s i (ready i) in
    let here =
      if (get_or polled i no_client).in_use && (client s i).in_use then served else (s, []) in
    let rest = serve_from web_may_control room ready now polled left (i + 1) here.0 in
    (rest.0, here.1 ++ rest.1)

-- Outside the lock: what the pipeline is told.
unfoldable pub notified : ℕ → SwitchStream → SwitchStream × List Event
notified now s = (
  record s {
    demand_dirty = false;
    keyframe_pending = false;
    last_keyframe_ms = if s.keyframe_pending then now else s.last_keyframe_ms;
  },
  (if s.demand_dirty then demand_changed ∷ [] else [])
      ++ (if s.keyframe_pending then request_keyframe ∷ [] else []),
)

-- A round in which `poll` reported something; `ready` is what it said of the slots then in use.
unfoldable pub poll_round :
    (List ℕ → Bool)
    → (ℕ → Bool)
    → (ℕ → Readiness)
    → ℕ
    → List Arrival
    → SwitchStream
    → SwitchStream × List Event
poll_round web_may_control room ready now arrivals s =
    let accepted = accept_all now s arrivals in
    let served = serve_from web_may_control room ready now s.clients max_clients 0 accepted.0 in
    let told = notified now served.0 in (told.0, accepted.1 ++ (served.1 ++ told.1))
