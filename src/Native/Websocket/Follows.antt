-- ===== src/Native/Websocket/Follows.antt =====
-- `unwrap_ws` leaves a client's place in the table of server/switch_stream.c as it was.
use capture2cloud.Base.{
  ℕ, zero, suc, ◌+◌, List, ◌++◌, Bool, true, false, ◌||◌, ◌==◌, ltb, if_holds, length,
}
use capture2cloud.WsFrame.{ws_take_frame, Taken, incomplete, refused, taken, op_binary}
use capture2cloud.Native.{SsClient}
use capture2cloud.Native.Sound.{Follows, Follows-bytes, Follows-read}
use capture2cloud.Native.Websocket.{
  op_close, op_ping, op_cont, pong, collect, on_frame, went_on, take_one, unwrap_from, payload_of,
  after_frame,
}

pong-Follows : (c d : SsClient) (payload : List ℕ) → Follows c d → Follows c (pong d payload)
unfolding pong
pong-Follows c d payload f =
    Follows-bytes c d _ d.pending d.pending_sent d.pending_cap d.waiting_keyframe f

collect-Follows :
    (room : Bool) (c d : SsClient) (payload : List ℕ)
    → Follows c d
    → Follows c (collect room d payload).1
unfolding collect
collect-Follows room c d payload f =
    let want = length d.ws_rx + length payload in
    let P : Bool × SsClient → Type 0 = λ r. Follows c r.1 in
    if_holds P (ltb d.ws_rx_cap want)
      (if_holds P room
        (Follows-read c d d.rx (d.ws_rx ++ payload) want d.last_seen_ms d.last_probe_ms f) f)
      (Follows-read c d d.rx (d.ws_rx ++ payload) d.ws_rx_cap d.last_seen_ms d.last_probe_ms f)

on_frame-Follows :
    (room : Bool) (c d : SsClient) (op : ℕ) (payload : List ℕ)
    → Follows c d
    → Follows c (on_frame room d op payload).1
unfolding on_frame
on_frame-Follows room c d op payload f =
    let P : Bool × SsClient → Type 0 = λ r. Follows c r.1 in
    if_holds P (op == op_close) f (
      if_holds P (op == op_ping) (pong-Follows c d payload f)
        (if_holds P ((op == op_binary) || (op == op_cont)) (collect-Follows room c d payload f) f))

with_rx : (c d : SsClient) (rest : List ℕ) → Follows c d → Follows c (record d { rx = rest })
with_rx c d rest f = Follows-read c d rest d.ws_rx d.ws_rx_cap d.last_seen_ms d.last_probe_ms f

went_on-Follows :
    (loop : SsClient → List ℕ → Bool × SsClient) (c : SsClient) (rest : List ℕ)
    (r : Bool × SsClient)
    → ((d : SsClient) → Follows c d → Follows c (loop d rest).1)
    → Follows c r.1
    → Follows c (went_on loop rest r).1
unfolding went_on
went_on-Follows loop c rest (true, d) h f = h d f
went_on-Follows loop c rest (false, d) h f = f

take_one-Follows :
    (loop : SsClient → List ℕ → Bool × SsClient) (room : Bool) (c d : SsClient) (rest : List ℕ)
    (t : Taken)
    → ((e : SsClient) (more : List ℕ) → Follows c e → Follows c (loop e more).1)
    → Follows c d
    → Follows c (take_one loop room d rest t).1
unfolding take_one
take_one-Follows loop room c d rest incomplete h f = with_rx c d rest f
take_one-Follows loop room c d rest refused h f = f
take_one-Follows loop room c d rest (taken g) h f =
    went_on-Follows loop c (after_frame g) (on_frame room d g.opcode (payload_of g))
      (λ e. h e (after_frame g)) (on_frame-Follows room c d g.opcode (payload_of g) f)

pub unwrap_from-Follows :
    (fuel : ℕ) (room : Bool) (c d : SsClient) (rest : List ℕ)
    → Follows c d
    → Follows c (unwrap_from fuel room d rest).1
unfolding unwrap_from
unwrap_from-Follows zero room c d rest f = with_rx c d rest f
unwrap_from-Follows (suc fuel) room c d rest f =
    if_holds (λ (r : Bool × SsClient). Follows c r.1) (length rest == 0) (with_rx c d rest f)
      (take_one-Follows (unwrap_from fuel room) room c d rest (ws_take_frame rest (length rest))
        (λ e more. unwrap_from-Follows fuel room c e more) f)
