-- ===== src/HostLink/Link/Poll.antt =====
-- `net_poll` in wiiu_console/src/net.c and the steps of a connection: its opening, the greeting,
-- the host's answer, and the keepalive. The clock does not go back.
use capture2cloud.Base.{
  ℕ, ◌+◌, ◌-◌, ◌*◌, ◌%◌, ◌^◌, List, [], ◌∷◌, ◌++◌, Bool, true, false, not, ◌&&◌, ◌==◌, ltb, leb,
  if◌then◌else◌, Option, none, some, u8, length, bit_and, bit_or,
}
use capture2cloud.Wire.{
  store16, store32, load16, load32, c2s_le16, c2s_le32, c2s_magic, c2s_version, cap_pcm_s16le,
  cap_pcm_udp, codec_pcm_s16le, msg_ping,
}
use capture2cloud.Native.{Descriptor}
use capture2cloud.Native.Messages.{byte_at}
use capture2cloud.HostLink.{Rx, contents, ping_interval_ms, connect_timeout_ms}
use capture2cloud.HostLink.Buffer.{Ending, would_block, closed, failed, fill_rx, consume}
use capture2cloud.HostLink.Link.{
  LinkStage, link_none, link_connecting, link_handshake, link_up, net_connecting, net_connected,
  NetInfo, Link, is_up, with_state, fail, send_all, send_message,
}

-- What `poll` says of the connect in flight.
pub data Writable : Type 0 where
  not_yet poll_failed resolved : Writable

-- The system's answers during one `net_poll`: whether `inet_pton` reads the host, the new socket,
-- whether it is made non-blocking, whether `connect` is under way, how it fares, whether SO_ERROR
-- is clear, the local address where it is known, and what `fill_rx` meets.
pub record System : Type 0 where
  pub now : ℕ
  pub is_address : List ℕ → Bool
  pub new_socket : Option Descriptor
  pub made_nonblocking : Bool
  pub connect_started : Bool
  pub writable : Writable
  pub error_clear : Bool
  pub local_address : Option ℕ
  pub memory : ℕ → Bool
  pub ending : Ending
  pub limits : List ℕ
  pub queued : List ℕ

unfoldable pub connect_on : System → Option Descriptor → Link → Link
connect_on sys none l = fail sys.now l
connect_on sys (some fd) l =
    let made : Link = record l { sock = some fd } in
    let tried : Link = record made {
      info = record made.info { attempts = (made.info.attempts + 1) % 2 ^ 32 };
    } in
    if not sys.made_nonblocking
    then fail sys.now made
    else if not sys.connect_started
    then fail sys.now tried
    else record tried {
      stage = link_connecting;
      connect_started_ms = sys.now;
      info = with_state net_connecting tried.info;
    }

unfoldable pub begin_connect : System → Link → Link
unfolding connect_on
begin_connect sys l =
    if length l.host == 0
    then fail sys.now l
    else if not (sys.is_address l.host)
    then fail sys.now l
    else connect_on sys sys.new_socket l

-- `C2sHello` in the memory of the console.
unfoldable pub hello_bytes : Bool → ℕ → List ℕ
hello_bytes audio_open token_len =
    store32 true (c2s_le32 true c2s_magic)
    ++ c2s_version
      ∷ token_len
      ∷ store16 true (c2s_le16 true (bit_or cap_pcm_s16le (if audio_open then cap_pcm_udp else 0)))

abbrev pub with_address : Option ℕ → Link → Link
with_address none l = l
with_address (some ip) l = record l { local_ip = ip }

-- After the hello: the token, where there is one; then the host's reply is waited for.
unfoldable pub after_hello : ℕ → ℕ → List ℕ → Bool × Link → Link
after_hello now token_len token hello =
    let t = send_all token hello.1 in
    if not hello.0
    then fail now hello.1
    else if token_len == 0
    then record hello.1 { stage = link_handshake; connect_started_ms = now }
    else if not t.0
    then fail now t.1
    else record t.1 { stage = link_handshake; connect_started_ms = now }

unfoldable pub greet : ℕ → Link → Link
unfolding hello_bytes after_hello
greet now l =
    let token_len = u8 (length l.token) in
    after_hello now token_len l.token (send_all (hello_bytes l.audio_open token_len) l)

unfoldable pub finish_connect_on : System → Writable → Link → Link
unfolding greet
finish_connect_on sys not_yet l =
    if ltb connect_timeout_ms (sys.now - l.connect_started_ms) then fail sys.now l else l
finish_connect_on sys poll_failed l = fail sys.now l
finish_connect_on sys resolved l =
    if not sys.error_clear then fail sys.now l else greet sys.now (with_address sys.local_address l)

unfoldable pub finish_connect : System → Link → Link
unfolding finish_connect_on
finish_connect sys l = finish_connect_on sys sys.writable l

-- The fields of a `C2sHelloAck`, on the console.
abbrev pub ack16 : List ℕ → ℕ → ℕ
ack16 b at = c2s_le16 true (load16 true (byte_at b at) (byte_at b (at + 1)))

abbrev pub ack_magic : List ℕ → ℕ
ack_magic b = c2s_le32 true (load32 true (byte_at b 0) (byte_at b 1) (byte_at b 2) (byte_at b 3))

abbrev pub ack_info : List ℕ → NetInfo → NetInfo
ack_info b info = record info {
  state = net_connected;
  may_control = byte_at b 6;
  width = ack16 b 8;
  height = ack16 b 10;
  video_codec = byte_at b 12;
  audio_codec = byte_at b 13;
  audio_udp = (byte_at b 13 == codec_pcm_s16le) && not (bit_and (byte_at b 7) 1 == 0);
  audio_rate = ack16 b 14;
  audio_channels = byte_at b 16;
}

-- The host has accepted.
unfoldable pub accepted_link : ℕ → List ℕ → Link → Link
accepted_link now b l = record l {
  info = ack_info b l.info;
  stage = link_up;
  last_ping_ms = now;
  audio = record l.audio { have_sequence = false; expected_sequence = 0 };
}

unfoldable pub handle_handshake_reply : ℕ → Link → Link
unfolding accepted_link
handle_handshake_reply now l =
    let b = contents l.rx in
    let read : Link = record l { rx = consume 20 l.rx } in
    if ltb l.rx.len 20
    then l
    else if not (ack_magic b == c2s_magic)
    then fail now read
    else if not (byte_at b 4 == c2s_version)
    then fail now read
    else if byte_at b 5 == 0
    then fail now read
    else accepted_link now b read

-- The keepalive of a quiet connection.
unfoldable pub ping_if_due : ℕ → Link → Link
ping_if_due now l =
    if leb ping_interval_ms (now - l.last_ping_ms)
    then (send_message msg_ping 0 [] (record l { last_ping_ms = now })).1
    else l

-- The buffer after `fill_rx`, and the bytes counted that it took off the kernel.
abbrev pub filled_link : Link → Rx → ℕ → Link
filled_link l rx n = record l {
  rx = rx;
  audio = record l.audio { rx_bytes = (l.audio.rx_bytes + n) % 2 ^ 64 };
}

abbrev pub is_handshake : LinkStage → Bool
is_handshake link_none = false
is_handshake link_connecting = false
is_handshake link_handshake = true
is_handshake link_up = false

-- After `fill_rx`.
unfoldable pub proceed : ℕ → Ending → Link → Link
unfolding handle_handshake_reply ping_if_due
proceed now closed l = fail now l
proceed now (failed error) l = fail now l
proceed now would_block l =
    if not (is_handshake l.stage)
    then ping_if_due now l
    else if ltb (connect_timeout_ms * 2) (now - l.connect_started_ms)
    then fail now l
    else handle_handshake_reply now l

unfoldable pub receive : System → Link → Link × List ℕ
unfolding proceed
receive sys l =
    let r = fill_rx sys.memory sys.ending sys.limits sys.queued l.rx in
    (proceed sys.now r.0 (filled_link l r.1 (length sys.queued - length r.2)), r.2)

abbrev pub is_connecting : LinkStage → Bool
is_connecting link_none = false
is_connecting link_connecting = true
is_connecting link_handshake = false
is_connecting link_up = false

-- By whether there is a socket.
unfoldable pub poll_socket : System → Option Descriptor → Link → Link × List ℕ
unfolding begin_connect finish_connect receive
poll_socket sys none l =
    (if leb l.next_retry_ms sys.now then begin_connect sys l else l, sys.queued)
poll_socket sys (some fd) l =
    if is_connecting l.stage then (finish_connect sys l, sys.queued) else receive sys l

-- What becomes of the link, and what the kernel still holds. Of a link that is up the background
-- thread reads, where it runs.
unfoldable pub net_poll : System → Link → Link × List ℕ
unfolding poll_socket
net_poll sys l =
    if not l.want_connection
    then (l, sys.queued)
    else if l.async_running && is_up l.stage
    then (ping_if_due sys.now l, sys.queued)
    else poll_socket sys l.sock l
