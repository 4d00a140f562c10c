-- ===== src/Pcble/Session/Worker.antt =====
-- The worker's thread of server/output_pcble.c: one round sends the controller state to the
-- helpers' sockets and learns from their replies whether the Nintendo link is up.
use capture2cloud.Base.{
  ℕ, ◌-◌, List, [], ◌∷◌, Bool, true, false, not, ◌&&◌, ◌||◌, ◌==◌, leb, ltb, if◌then◌else◌, Option,
  none, some, length, drop, codes,
}
use capture2cloud.Controller.{ControllerState}
use capture2cloud.Pcble.Session.{Session, keepalive_ms, retry_ms, passed, is_after}
use capture2cloud.Pcble.Session.Launch.{starts_with}

-- `strstr`: the text from the first place where the other begins.
unfoldable pub strstr : List ℕ → List ℕ → Option (List ℕ)
unfolding starts_with
strstr [] needle = if starts_with needle [] then some [] else none
strstr (c ∷ cs) needle =
    let rest = strstr cs needle in if starts_with needle (c ∷ cs) then some (c ∷ cs) else rest

abbrev pub is_some {ℓ} : {A : Type ℓ} → Option A → Bool
is_some none = false
is_some (some a) = true

-- A JSON string up to its closing quote, cut at the room for it.
unfoldable pub until_quote : ℕ → List ℕ → List ℕ
until_quote room [] = []
until_quote room (c ∷ cs) =
    let rest = until_quote (room - 1) cs in if (c == b'"') || not (ltb 1 room) then [] else c ∷ rest

abbrev pub peer_key : List ℕ
peer_key = codes "\"peer\":\""

unfoldable pub peer_after : ℕ → Option (List ℕ) → List ℕ
unfolding until_quote
peer_after size none = []
peer_after size (some text) = until_quote size (drop (length peer_key) text)

unfoldable pub reply_peer : List ℕ → ℕ → List ℕ
unfolding strstr peer_after
reply_peer reply size = if size == 0 then [] else peer_after size (strstr reply peer_key)

-- What `socket_request` makes of a helper's reply; `none` is that no whole line came in time.
pub record Reply : Type 0 where
  pub accepted : Bool
  pub initialized : Bool
  pub peer : List ℕ

abbrev pub no_reply : Reply
no_reply = record { accepted = false; initialized = false; peer = [] }

unfoldable pub judged : Option (List ℕ) → ℕ → Reply
unfolding strstr reply_peer
judged none size = no_reply
judged (some line) size =
    if is_some (strstr line (codes "\"ok\":true"))
    then record {
      accepted = true;
      initialized = is_some (strstr line (codes "\"initialized\":true"));
      peer = reply_peer line size;
    }
    else no_reply

-- `send_input`, by the replies of the one helper or of the two.
unfoldable pub send_input : Bool → Option (List ℕ) → Option (List ℕ) → Reply
unfolding judged
send_input pair_mode left right =
    let l = judged left 32 in
    let r = judged right 0 in
    if pair_mode
    then record {
      accepted = l.accepted && r.accepted;
      initialized = l.initialized && r.initialized;
      peer = l.peer;
    }
    else l

-- What a round sends: the state, and whether HOME and CAPTURE are held.
pub record Sending : Type 0 where
  pub state : ControllerState
  pub home : Bool
  pub capture : Bool
  pub pair : Bool

unfoldable pub should_send : ℕ → Session → Bool
should_send now s =
    if s.ipc_up
    then s.dirty || leb keepalive_ms (passed now s.last_send)
    else leb retry_ms (passed now s.last_attempt)

-- Before the sending, under the lock.
unfoldable pub worker_begin : ℕ → Session → Option Sending × Session
unfolding should_send
worker_begin now s =
    if should_send now s
    then (
      some (record {
        state = s.state;
        home = not (s.home_until == 0) && is_after s.home_until now;
        capture = not (s.capture_until == 0) && is_after s.capture_until now;
        pair = s.pair_mode;
      }),
      record s { dirty = false; last_attempt = now },
    )
    else (none, s)

-- After it. A link that is up is the success of a recovery.
unfoldable pub worker_done : ℕ → Reply → Session → Session
worker_done now r s =
    let up = r.accepted && r.initialized in
    record s {
      ipc_up = r.accepted;
      link_up = up;
      reconnect_active = if up then false else s.reconnect_active;
      launch_owned = if up then false else s.launch_owned;
      reconnect_requested = if up then false else s.reconnect_requested;
      attempt = if up then 0 else s.attempt;
      not_before = if up then 0 else s.not_before;
      peer = if r.accepted then if length r.peer == 0 then s.peer else r.peer else [];
      last_send = if r.accepted then now else s.last_send;
    }
