-- ===== src/Native/Websocket.antt =====
-- The browsers' WebSockets in server/switch_stream.c: adopting a connection, and taking the
-- messages out of its frames.
pub mod Unwrap
pub mod Follows
use capture2cloud.Base.{
  ℕ, zero, suc, ◌+◌, List, [], ◌∷◌, ◌++◌, Bool, true, false, not, ◌&&◌, ◌||◌, ◌==◌, ltb, leb,
  if◌then◌else◌, Option, none, some, set, length, take, drop,
}
use capture2cloud.Wire.{codec_h264, msg_hello_ack}
use capture2cloud.WsFrame.{
  ws_binary_header, ws_take_frame, Frame, Taken, incomplete, refused, taken, op_binary,
}
use capture2cloud.Native.{SsClient, no_client, Descriptor, SwitchStream, stream_web, max_ws_clients}
use capture2cloud.Native.Socket.{send_all_now, send_msg_now}
use capture2cloud.Native.Table.{put, recount, send_group_state}
use capture2cloud.Native.Hello.{HelloAck, ack_bytes, acceptance}

abbrev pub op_cont : ℕ
op_cont = 0x0

abbrev pub op_close : ℕ
op_close = 0x8

abbrev pub op_ping : ℕ
op_ping = 0x9

-- The header of a pong is that of a binary frame but for its first byte.
unfoldable pub pong : SsClient → List ℕ → SsClient
pong c payload =
    let head = send_all_now (set (ws_binary_header (length payload)) 0 0x8a) c.fd in
    let whole = send_all_now payload head.1 in
    record c { fd = if head.0 && not (length payload == 0) then whole.1 else head.1 }

-- `room` says whether `realloc` succeeds.
unfoldable pub collect : Bool → SsClient → List ℕ → Bool × SsClient
collect room c payload =
    let want = length c.ws_rx + length payload in
    if ltb c.ws_rx_cap want
    then (if room
        then (true, record c { ws_rx = c.ws_rx ++ payload; ws_rx_cap = want })
        else (false, c))
    else (true, record c { ws_rx = c.ws_rx ++ payload })

-- `false` is -1.
unfoldable pub on_frame : Bool → SsClient → ℕ → List ℕ → Bool × SsClient
on_frame room c op payload =
    if op == op_close
    then (false, c)
    else if op == op_ping
    then (true, pong c payload)
    else if (op == op_binary) || (op == op_cont)
    then collect room c payload
    else (true, c)

abbrev pub payload_of : Frame → List ℕ
payload_of f = take f.payload_len (drop f.payload f.buf)

abbrev pub after_frame : Frame → List ℕ
after_frame f = drop f.consumed f.buf

unfoldable pub went_on :
    (SsClient → List ℕ → Bool × SsClient) → List ℕ → Bool × SsClient → Bool × SsClient
went_on loop rest (false, c) = (false, c)
went_on loop rest (true, c) = loop c rest

-- One round of the loop, with the rounds after it; `rest` is what is left of `rx`.
unfoldable pub take_one :
    (SsClient → List ℕ → Bool × SsClient) → Bool → SsClient → List ℕ → Taken → Bool × SsClient
take_one loop room c rest incomplete = (true, record c { rx = rest })
take_one loop room c rest refused = (false, c)
take_one loop room c rest (taken f) =
    went_on loop (after_frame f) (on_frame room c f.opcode (payload_of f))

-- The loop, for at most `fuel` frames.
unfoldable pub unwrap_from : ℕ → Bool → SsClient → List ℕ → Bool × SsClient
unwrap_from zero room c rest = (true, record c { rx = rest })
unwrap_from (suc fuel) room c rest =
    let round = take_one (unwrap_from fuel room) room c rest (ws_take_frame rest (length rest)) in
    if length rest == 0 then (true, record c { rx = rest }) else round

unfoldable pub unwrap_ws : Bool → SsClient → Bool × SsClient
unwrap_ws room c = unwrap_from (suc (length c.rx)) room c c.rx

unfoldable pub count_browsers : List SsClient → ℕ
count_browsers [] = 0
count_browsers (c ∷ cs) = (if c.in_use && c.is_ws then 1 else 0) + count_browsers cs

unfoldable pub one_further : Option ℕ → Option ℕ
one_further none = none
one_further (some i) = some (suc i)

-- The first slot that is not in use.
unfoldable pub free_slot : List SsClient → Option ℕ
free_slot [] = none
free_slot (c ∷ cs) = if c.in_use then one_further (free_slot cs) else some 0

abbrev pub new_browser : Descriptor → Bool → ℕ → SsClient
new_browser fd control now = record no_client {
  fd = fd;
  in_use = true;
  is_ws = true;
  handshake_done = true;
  may_control = control;
  codec = codec_h264;
  last_seen_ms = now;
}

-- The browser's answer goes out as a message, and where it cannot, the slot is free again.
unfoldable pub adopt_at : SwitchStream → ℕ → SsClient → Bool → Bool × SwitchStream
adopt_at s i c control =
    let answer = send_msg_now c msg_hello_ack (ack_bytes (acceptance s c control)) in
    let told : SwitchStream = record (send_group_state (put s i answer.1) i) {
      keyframe_pending = true;
    } in
    if answer.0 then (true, recount told) else (false, put s i no_client)

unfoldable pub adopt_free : SwitchStream → Descriptor → Bool → ℕ → Option ℕ → Bool × SwitchStream
adopt_free s fd control now none = (false, s)
adopt_free s fd control now (some i) = adopt_at s i (new_browser fd control now) control

-- `false` is -1.
unfoldable pub switch_stream_adopt_websocket :
    Descriptor → Bool → ℕ → SwitchStream → Bool × SwitchStream
switch_stream_adopt_websocket fd control now s =
    if leb max_ws_clients (count_browsers s.clients)
    then (false, s)
    else adopt_free s fd control now (free_slot s.clients)
