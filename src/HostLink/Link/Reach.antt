-- ===== src/HostLink/Link/Reach.antt =====
-- The connection's invariant (wiiu_console/src/net.c), over every run of the main loop and of the
-- receiver's thread.
pub mod Steps
pub mod History
use capture2cloud.Base.{
  ℕ, suc, ◌+◌, ◌-◌, List, [], ◌∷◌, Bool, true, false, not, ◌&&◌, ◌||◌, ◌≡◌, refl, sym, ap, ◌∙◌,
  ◌==◌, ltb, leb, if◌then◌else◌, if_cases, if_holds, Bool-cases, inl, inr, Option, none, some,
  length, take, u8, arith,
}
use capture2cloud.Native.{Descriptor}
use capture2cloud.HostLink.{Rx, ping_interval_ms}
use capture2cloud.Wire.{msg_ping}
use capture2cloud.HostLink.Buffer.{Ending, would_block, closed, failed, fill_rx, consume}
use capture2cloud.HostLink.Buffer.Stream.{IsWithin}
use capture2cloud.HostLink.Buffer.Queue.{fill_rx-Keeps, consume-IsWithin}
use capture2cloud.HostLink.Frames.{take_frame_direct, Taken, nothing, broken, frame}
use capture2cloud.HostLink.Events.{AsyncEvent, AsyncState, async_pop_event}
use capture2cloud.HostLink.Video.{
  VideoAct, request_keyframe, submit, async_drain_rx, Drained, ended_or, handled, DrainEnd,
}
use capture2cloud.HostLink.Link.{
  LinkStage, link_none, link_connecting, link_handshake, link_up, NetState, net_idle,
  net_connecting, net_connected, net_failed, Link, close_socket, close_audio_socket, fail,
  send_all_by, send_all, console_header, send_message, async_stop_internal, async_start_internal,
  net_set_async_receive, net_disconnect, open_audio_socket, net_connect,
}
use capture2cloud.HostLink.Link.Poll.{
  System, Writable, not_yet, poll_failed, resolved, connect_on, begin_connect, with_address, greet,
  after_hello, is_connecting, is_handshake, hello_bytes, finish_connect_on, finish_connect,
  handle_handshake_reply, ping_if_due, filled_link, proceed, receive, poll_socket, net_poll,
}
use capture2cloud.HostLink.Link.Requests.{Request, send_if, net_send}
use capture2cloud.HostLink.Link.Thread.{
  send_requests, drain_link, Ready, poll_error, quiet, readable, fill_link, read_ready,
  async_thread_round, taken_link, taken_or, net_take_frame, is_out_of_step,
}

abbrev pub has_socket : Option Descriptor → Bool
has_socket none = false
has_socket (some fd) = true

-- Whether a socket, a stage and a state may go together.
unfoldable pub agree : Bool → LinkStage → NetState → Bool
agree false link_none net_idle = true
agree false link_none net_failed = true
agree true link_connecting net_connecting = true
agree true link_handshake net_connecting = true
agree true link_up net_connected = true
agree _ _ _ = false

-- There is a socket exactly in the stages after the first; the link is shown as connected exactly
-- where it is up, and as connecting exactly in the two stages before that. The bytes in use lie in
-- the buffer.
pub record IsLinked (l : Link) : Type 0 where
  pub agreed : agree (has_socket l.sock) l.stage l.info.state ≡ true
  pub within : IsWithin l.rx

-- A change that leaves the stage, the state, the buffer and that there is a socket.
pub record Same (l m : Link) : Type 0 where
  pub socket : has_socket m.sock ≡ has_socket l.sock
  pub stage : m.stage ≡ l.stage
  pub state : m.info.state ≡ l.info.state
  pub buffer : m.rx ≡ l.rx

Same-refl : (l : Link) → Same l l
Same-refl l = record { socket = refl; stage = refl; state = refl; buffer = refl }

Same-IsLinked : {l m : Link} → Same l m → IsLinked l → IsLinked m
Same-IsLinked e h = record {
  agreed = rw (e.socket, e.stage, e.state) h.agreed;
  within = rw (e.buffer) h.within;
}

empty-IsWithin : (rx : Rx) → IsWithin rx → IsWithin (record rx { off = 0; len = 0 })
empty-IsWithin rx w = record { inside = omega arith; small = w.small }

pub fail-IsLinked : (now : ℕ) (l : Link) → IsWithin l.rx → IsLinked (fail now l)
unfolding fail agree
fail-IsLinked now l w = record { agreed = refl; within = empty-IsWithin l.rx w }

fail-cases : (now : ℕ) (l m : Link) → IsLinked l → m.rx ≡ l.rx → IsLinked (fail now m)
fail-cases now l m h e = fail-IsLinked now m (rw e h.within)

-- Sending leaves the stage and the buffer.
send_all_by-Same :
    (o : Option Descriptor) (bytes : List ℕ) (l : Link)
    → l.sock ≡ o
    → Same l (send_all_by o bytes l).1
unfolding send_all_by
send_all_by-Same none bytes l e = Same-refl l
send_all_by-Same (some fd) bytes l e = record {
  socket = sym (ap has_socket e);
  stage = refl;
  state = refl;
  buffer = refl;
}

Same-trans : {l m n : Link} → Same l m → Same m n → Same l n
Same-trans p q = record {
  socket = q.socket ∙ p.socket;
  stage = q.stage ∙ p.stage;
  state = q.state ∙ p.state;
  buffer = q.buffer ∙ p.buffer;
}

send_all-Same : (bytes : List ℕ) (l : Link) → Same l (send_all bytes l).1
unfolding send_all
send_all-Same bytes l = send_all_by-Same l.sock bytes l refl

pub send_message-Same :
    (type flags : ℕ) (payload : List ℕ) (l : Link) → Same l (send_message type flags payload l).1
unfolding send_message
send_message-Same type flags payload l =
    let S : Bool × Link → Type 0 = λ r. Same l r.1 in
    let head = send_all (console_header type flags (length payload)) l in
    let h = send_all-Same (console_header type flags (length payload)) l in
    let both = Same-trans h (send_all-Same payload head.1) in
    if_holds S head.0 (if_holds S (length payload == 0) h both) h

send_if-Same :
    (allowed : Bool) (type : ℕ) (payload : List ℕ) (l : Link)
    → Same l (send_if allowed type payload l)
unfolding send_if
send_if-Same allowed type payload l =
    if_holds (Same l) allowed (send_message-Same type 0 payload l) (Same-refl l)

net_send-Same : (r : Request) (l : Link) → Same l (net_send r l)
unfolding net_send
net_send-Same (Request.input pad) l = send_if-Same _ _ _ l
net_send-Same Request.keyframe l = send_if-Same _ _ _ l
net_send-Same Request.wake l = send_if-Same _ _ _ l
net_send-Same Request.restart l = send_if-Same _ _ _ l
net_send-Same Request.reset_dongle l = send_if-Same _ _ _ l
net_send-Same Request.home l = send_if-Same _ _ _ l
net_send-Same (Request.profile w h f b) l = send_if-Same _ _ _ l
net_send-Same (Request.codec c) l = send_if-Same _ _ _ l

send_requests-Same : (acts : List VideoAct) (l : Link) → Same l (send_requests acts l)
unfolding send_requests
send_requests-Same [] l = Same-refl l
send_requests-Same (request_keyframe ∷ acts) l =
    Same-trans (net_send-Same Request.keyframe l)
      (send_requests-Same acts (net_send Request.keyframe l))
send_requests-Same (submit key payload taken ∷ acts) l = send_requests-Same acts l

ping_if_due-Same : (now : ℕ) (l : Link) → Same l (ping_if_due now l)
unfolding ping_if_due
ping_if_due-Same now l =
    let pinged : Link = record l { last_ping_ms = now } in
    let p = send_message-Same msg_ping 0 [] pinged in
    if_holds (Same l) (leb ping_interval_ms (now - l.last_ping_ms))
      (record { socket = p.socket; stage = p.stage; state = p.state; buffer = p.buffer })
      (Same-refl l)

connecting_inv :
    (b : Bool) (stage : LinkStage) (state : NetState)
    → agree b stage state ≡ true
    → is_connecting stage ≡ true
    → (b ≡ true) × (state ≡ net_connecting)
unfolding agree
connecting_inv b stage state h e = ground arith

handshake_inv :
    (b : Bool) (stage : LinkStage) (state : NetState)
    → agree b stage state ≡ true
    → is_handshake stage ≡ true
    → (b ≡ true) × (state ≡ net_connecting)
unfolding agree
handshake_inv b stage state h e = ground arith

connect_on-IsLinked :
    (sys : System) (o : Option Descriptor) (l : Link) → IsLinked l → IsLinked (connect_on sys o l)
unfolding connect_on agree
connect_on-IsLinked sys none l h = fail-cases sys.now l l h refl
connect_on-IsLinked sys (some fd) l h =
    if_holds IsLinked (not sys.made_nonblocking) (fail-cases sys.now l _ h refl) (
      if_holds IsLinked (not sys.connect_started) (fail-cases sys.now l _ h refl)
        (record { agreed = refl; within = h.within }))

begin_connect-IsLinked : (sys : System) (l : Link) → IsLinked l → IsLinked (begin_connect sys l)
unfolding begin_connect
begin_connect-IsLinked sys l h =
    if_holds IsLinked (length l.host == 0) (fail-cases sys.now l l h refl) (
      if_holds IsLinked (not (sys.is_address l.host)) (fail-cases sys.now l l h refl)
        (connect_on-IsLinked sys sys.new_socket l h))

-- The greeting is sent in the stage LINK_CONNECTING.
greet-IsLinked :
    (now : ℕ) (l : Link) → IsLinked l → is_connecting l.stage ≡ true → IsLinked (greet now l)
unfolding greet agree
greet-IsLinked now l h c =
    let inv = connecting_inv (has_socket l.sock) l.stage l.info.state h.agreed c in
    let n = u8 (length l.token) in
    let hello = send_all (hello_bytes l.audio_open n) l in
    let token = send_all l.token hello.1 in
    let p = send_all-Same (hello_bytes l.audio_open n) l in
    let both = Same-trans p (send_all-Same l.token hello.1) in
    if_holds IsLinked (not hello.0) (fail-cases now l hello.1 h p.buffer) (
      if_holds IsLinked (n == 0)
        (record {
          agreed = rw (p.socket, p.state, inv.0, inv.1) refl;
          within = rw (p.buffer) h.within;
        })
        (if_holds IsLinked (not token.0) (fail-cases now l token.1 h both.buffer) (record {
          agreed = rw (both.socket, both.state, inv.0, inv.1) refl;
          within = rw (both.buffer) h.within;
        })))

stage_of_none :
    (o : Option Descriptor) (stage : LinkStage) (state : NetState)
    → agree (has_socket o) stage state ≡ true
    → o ≡ none
    → stage ≡ link_none
unfolding agree
stage_of_none o stage state h e = ground arith

pub no_stage : (l : Link) → IsLinked l → l.sock ≡ none → l.stage ≡ link_none
no_stage l h e = stage_of_none l.sock l.stage l.info.state h.agreed e
