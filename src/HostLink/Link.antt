-- ===== src/HostLink/Link.antt =====
-- The connection of wiiu_console/src/net.c: its state, sending, and the ways that it is opened and
-- closed. The texts that are shown (`status`, `last_step`) and `last_errno` are left out. A time
-- that a function reads more than once is one number.
pub mod Poll
pub mod Requests
pub mod Thread
pub mod Torn
pub mod Reach
pub mod Greeting
pub mod Recovery
mod Tests
use capture2cloud.Base.{
  ℕ, ◌+◌, ◌%◌, ◌^◌, List, [], ◌∷◌, ◌++◌, Bool, true, false, not, ◌&&◌, ◌==◌, if◌then◌else◌, Option,
  none, some, u8, length, take,
}
use capture2cloud.Wire.{store16, store32, c2s_le16, c2s_le32}
use capture2cloud.Native.{Descriptor}
use capture2cloud.Native.Socket.{push, is_finished, sent_to, Outcome}
use capture2cloud.Native.{SendResult}
use capture2cloud.HostLink.{Rx, retry_interval_ms}
use capture2cloud.HostLink.Events.{AsyncState, async_clear_events}
use capture2cloud.HostLink.Video.{async_start}
use capture2cloud.HostLink.Sound.{AudioState}

pub data LinkStage : Type 0 where
  link_none link_connecting link_handshake link_up : LinkStage

pub data NetState : Type 0 where
  net_idle net_connecting net_connected net_failed : NetState

-- `rx_bytes` stands in the state of the sound, which counts it too.
pub record NetInfo : Type 0 where
  pub state : NetState
  pub may_control : ℕ
  pub width : ℕ
  pub height : ℕ
  pub video_codec : ℕ
  pub audio_codec : ℕ
  pub audio_udp : Bool
  pub audio_rate : ℕ
  pub audio_channels : ℕ
  pub tx_bytes : ℕ
  pub attempts : ℕ

-- The file's variables. `sock` is none where `g_sock` is -1.
pub record Link : Type 0 where
  pub sock : Option Descriptor
  pub stage : LinkStage
  pub info : NetInfo
  pub rx : Rx
  pub host : List ℕ
  pub port : ℕ
  pub token : List ℕ
  pub want_connection : Bool
  pub next_retry_ms : ℕ
  pub last_ping_ms : ℕ
  pub connect_started_ms : ℕ
  pub local_ip : ℕ
  pub audio_open : Bool
  pub audio : AudioState
  pub async_running : Bool
  pub async_requested : Bool
  pub async : AsyncState

abbrev pub is_up : LinkStage → Bool
is_up link_none = false
is_up link_connecting = false
is_up link_handshake = false
is_up link_up = true

abbrev pub with_state : NetState → NetInfo → NetInfo
with_state state info = record info { state = state }

unfoldable pub close_socket : Link → Link
close_socket l = record l { sock = none; stage = link_none; rx = record l.rx { off = 0; len = 0 } }

unfoldable pub fail : ℕ → Link → Link
unfolding close_socket
fail now l =
    close_socket
      (record l { info = with_state net_failed l.info; next_retry_ms = now + retry_interval_ms })

unfoldable pub close_audio_socket : Link → Link
close_audio_socket l = record l {
  audio_open = false;
  audio = record l.audio { have_sequence = false; expected_sequence = 0 };
}

-- What the loop around `send` leaves, with `n` of the bytes sent.
abbrev pub after_send : Link → Descriptor → List ℕ → Outcome × ℕ × List SendResult → Bool × Link
after_send l fd bytes p = (
  is_finished p.0,
  record l {
    sock = some (sent_to fd bytes p.1 p.2);
    info = record l.info { tx_bytes = (l.info.tx_bytes + p.1) % 2 ^ 64 };
  },
)

-- `false` is -1. A socket that is closed sends nothing.
unfoldable pub send_all_by : Option Descriptor → List ℕ → Link → Bool × Link
send_all_by none bytes l = (length bytes == 0, l)
send_all_by (some fd) bytes l = after_send l fd bytes (push fd.answers (length bytes))

unfoldable pub send_all : List ℕ → Link → Bool × Link
unfolding send_all_by
send_all bytes l = send_all_by l.sock bytes l

-- `C2sFrameHeader` in the memory of the console, which is big-endian.
abbrev pub console_header : ℕ → ℕ → ℕ → List ℕ
console_header type flags size =
    type ∷ flags ∷ store16 true (c2s_le16 true 0) ++ store32 true (c2s_le32 true size)

unfoldable pub send_message : ℕ → ℕ → List ℕ → Link → Bool × Link
send_message type flags payload l =
    let header = send_all (console_header type flags (length payload)) l in
    let body = send_all payload header.1 in
    if header.0 then if length payload == 0 then (true, header.1) else body else (false, header.1)

-- The thread is stopped and joined.
unfoldable pub async_stop_internal : Link → Link
async_stop_internal l = record l { async_running = false }

-- `created` says whether the thread can be made.
unfoldable pub async_start_internal : Bool → Link → Link
unfolding async_start
async_start_internal created l =
    if l.async_running then l else record l { async_running = created; async = async_start l.async }

unfoldable pub net_set_async_receive : Bool → Bool → Link → Link
unfolding async_stop_internal async_start_internal
net_set_async_receive created enabled l =
    let m : Link = record l { async_requested = enabled } in
    if enabled then async_start_internal created m else async_stop_internal m

unfoldable pub net_disconnect : Link → Link
unfolding async_clear_events close_socket close_audio_socket async_stop_internal
net_disconnect l =
    let stopped = async_stop_internal l in
    let quiet : Link = record stopped {
      async = async_clear_events stopped.async;
      want_connection = false;
    } in
    let shut = close_audio_socket (close_socket quiet) in
    record shut { info = with_state net_idle shut.info }

-- `bound` says whether `open_audio_socket` can make its socket.
unfoldable pub open_audio_socket : Bool → Link → Link
unfolding close_audio_socket
open_audio_socket bound l =
    if l.audio_open
    then l
    else if bound
    then record l { audio_open = true }
    else close_audio_socket l

-- Before the sound's socket is opened. The texts are cut at the sizes of `g_host` and `g_token`.
unfoldable pub wanted_link : List ℕ → ℕ → List ℕ → Link → Link
unfolding async_clear_events close_socket async_stop_internal
wanted_link host port token l =
    let stopped = async_stop_internal l in
    close_socket (record stopped {
      async = async_clear_events stopped.async;
      host = take 63 host;
      port = port;
      token = take 79 token;
      want_connection = true;
      next_retry_ms = 0;
    })

-- After that.
unfoldable pub fresh_link : Link → Link
fresh_link l = record l {
  info = record l.info { state = net_idle; may_control = 0; tx_bytes = 0; attempts = 0 };
  audio = record l.audio { rx_bytes = 0 };
}

unfoldable pub net_connect : Bool → Bool → List ℕ → ℕ → List ℕ → Link → Link
unfolding wanted_link fresh_link open_audio_socket async_start_internal
net_connect bound created host port token l =
    let fresh = fresh_link (open_audio_socket bound (wanted_link host port token l)) in
    if fresh.async_requested then async_start_internal created fresh else fresh
