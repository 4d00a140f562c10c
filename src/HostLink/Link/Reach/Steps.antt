-- ===== src/HostLink/Link/Reach/Steps.antt =====
-- Every step of the main loop and of the receiver's thread keeps the connection's invariant
-- (wiiu_console/src/net.c).
use capture2cloud.Base.{
  ℕ, zero, suc, ◌+◌, ◌-◌, ◌*◌, List, Bool, true, false, not, ◌&&◌, ◌||◌, ◌≡◌, refl, ◌==◌, ltb, leb,
  if_cases, if_holds, Option, none, some,
}
use capture2cloud.Wire.{c2s_magic, c2s_version, c2s_max_payload}
use capture2cloud.Native.{Descriptor}
use capture2cloud.Native.Messages.{byte_at}
use capture2cloud.HostLink.{Rx, contents, connect_timeout_ms}
use capture2cloud.HostLink.Buffer.{Ending, would_block, closed, failed, fill_rx, consume}
use capture2cloud.HostLink.Buffer.Stream.{IsWithin}
use capture2cloud.HostLink.Buffer.Queue.{fill_rx-Keeps, consume-IsWithin}
use capture2cloud.HostLink.Frames.{Taken, header_size, take_frame_direct}
use capture2cloud.HostLink.Events.{AsyncState}
use capture2cloud.HostLink.Video.{VideoAct, DrainEnd, Drained, handled, ended_or, async_drain_rx}
use capture2cloud.HostLink.Link.{Link, is_up}
use capture2cloud.HostLink.Link.Poll.{
  System, Writable, not_yet, poll_failed, resolved, with_address, greet, finish_connect_on,
  finish_connect, ack_magic, handle_handshake_reply, filled_link, is_handshake, is_connecting,
  proceed, receive, poll_socket, net_poll,
}
use capture2cloud.HostLink.Link.Thread.{send_requests, is_out_of_step, drain_link}
use capture2cloud.HostLink.Link.Reach.{
  IsLinked, Same-IsLinked, agree, has_socket, fail-IsLinked, fail-cases, handshake_inv,
  begin_connect-IsLinked, greet-IsLinked, ping_if_due-Same, send_requests-Same,
}

not-false : (b : Bool) → not b ≡ false → b ≡ true
not-false true e = refl
not-false false e = cc

addressed-IsLinked :
    (now : ℕ) (o : Option ℕ) (l : Link)
    → IsLinked l
    → is_connecting l.stage ≡ true
    → IsLinked (greet now (with_address o l))
addressed-IsLinked now none l h c = greet-IsLinked now l h c
addressed-IsLinked now (some ip) l h c =
    greet-IsLinked now (with_address (some ip) l) (record { agreed = h.agreed; within = h.within })
      c

finish_connect_on-IsLinked :
    (sys : System) (w : Writable) (l : Link)
    → IsLinked l
    → is_connecting l.stage ≡ true
    → IsLinked (finish_connect_on sys w l)
unfolding finish_connect_on
finish_connect_on-IsLinked sys not_yet l h c =
    if_holds IsLinked (ltb connect_timeout_ms (sys.now - l.connect_started_ms))
      (fail-cases sys.now l l h refl) h
finish_connect_on-IsLinked sys poll_failed l h c = fail-cases sys.now l l h refl
finish_connect_on-IsLinked sys resolved l h c =
    if_holds IsLinked (not sys.error_clear) (fail-cases sys.now l l h refl)
      (addressed-IsLinked sys.now sys.local_address l h c)

handle_handshake_reply-IsLinked :
    (now : ℕ) (l : Link)
    → IsLinked l
    → is_handshake l.stage ≡ true
    → IsLinked (handle_handshake_reply now l)
unfolding handle_handshake_reply agree
handle_handshake_reply-IsLinked now l h c =
    let inv = handshake_inv (has_socket l.sock) l.stage l.info.state h.agreed c in
    let b = contents l.rx in
    let read : Link = record l { rx = consume 20 l.rx } in
    let w = consume-IsWithin 20 l.rx h.within in
    let lost = fail-IsLinked now read w in
    if_holds IsLinked (ltb l.rx.len 20) h (
      if_holds IsLinked (not (ack_magic b == c2s_magic)) lost (
        if_holds IsLinked (not (byte_at b 4 == c2s_version)) lost (
          if_holds IsLinked (byte_at b 5 == 0) lost
            (record { agreed = rw (inv.0) refl; within = w }))))

-- A link with another buffer.
pub rebuffered-IsLinked :
    (l m : Link)
    → IsLinked l
    → (m.sock ≡ l.sock) × (m.stage ≡ l.stage) × (m.info.state ≡ l.info.state)
    → IsWithin m.rx
    → IsLinked m
rebuffered-IsLinked l m h e w = record { agreed = rw (e.0, e.1, e.2) h.agreed; within = w }

proceed-IsLinked : (now : ℕ) (e : Ending) (l : Link) → IsLinked l → IsLinked (proceed now e l)
unfolding proceed
proceed-IsLinked now closed l h = fail-cases now l l h refl
proceed-IsLinked now (failed error) l h = fail-cases now l l h refl
proceed-IsLinked now would_block l h =
    if_cases IsLinked (not (is_handshake l.stage)) (λ _. Same-IsLinked (ping_if_due-Same now l) h)
      (λ e.
        if_holds IsLinked (ltb (connect_timeout_ms * 2) (now - l.connect_started_ms))
          (fail-cases now l l h refl)
          (handle_handshake_reply-IsLinked now l h (not-false (is_handshake l.stage) e)))

pub filled-IsLinked :
    (sys : System) (l : Link) (n : ℕ)
    → IsLinked l
    → let r = fill_rx sys.memory sys.ending sys.limits sys.queued l.rx in
      IsLinked (filled_link l r.1 n)
filled-IsLinked sys l n h =
    let r = fill_rx sys.memory sys.ending sys.limits sys.queued l.rx in
    rebuffered-IsLinked l (filled_link l r.1 n) h (refl, refl, refl)
      (fill_rx-Keeps sys.memory sys.ending sys.limits sys.queued l.rx h.within).within

receive-IsLinked : (sys : System) (l : Link) → IsLinked l → IsLinked (receive sys l).0
unfolding receive
receive-IsLinked sys l h = proceed-IsLinked sys.now _ _ (filled-IsLinked sys l _ h)

poll_socket-IsLinked :
    (sys : System) (o : Option Descriptor) (l : Link)
    → IsLinked l
    → IsLinked (poll_socket sys o l).0
unfolding poll_socket finish_connect
poll_socket-IsLinked sys none l h =
    if_holds IsLinked (leb l.next_retry_ms sys.now) (begin_connect-IsLinked sys l h) h
poll_socket-IsLinked sys (some fd) l h =
    if_cases (λ (r : Link × List ℕ). IsLinked r.0) (is_connecting l.stage)
      (λ c. finish_connect_on-IsLinked sys sys.writable l h c) (λ _. receive-IsLinked sys l h)

pub net_poll-IsLinked : (sys : System) (l : Link) → IsLinked l → IsLinked (net_poll sys l).0
unfolding net_poll
net_poll-IsLinked sys l h =
    let P : Link × List ℕ → Type 0 = λ r. IsLinked r.0 in
    if_holds P (not l.want_connection) h (
      if_holds P (l.async_running && is_up l.stage) (Same-IsLinked (ping_if_due-Same sys.now l) h)
        (poll_socket-IsLinked sys l.sock l h))

pub take_frame_direct-IsWithin :
    (up : Bool) (rx : Rx) → IsWithin rx → IsWithin (take_frame_direct up rx).1
unfolding take_frame_direct
take_frame_direct-IsWithin up rx w =
    let P : Taken × Rx → Type 0 = λ r. IsWithin r.1 in
    let size = header_size (contents rx) in
    if_holds P (not up || ltb rx.len 8) w (
      if_holds P (ltb c2s_max_payload size) w
        (if_holds P (ltb rx.len (8 + size)) w (consume-IsWithin (8 + size) rx w)))

ended_or-IsWithin :
    (o : Option DrainEnd) (e : AsyncState × List VideoAct) (rx : Rx) (rest : Drained)
    → IsWithin rx
    → IsWithin rest.1
    → IsWithin (ended_or o e rx rest).1
unfolding ended_or
ended_or-IsWithin (some end) e rx rest p q = p
ended_or-IsWithin none e rx rest p q = q

async_drain_rx-IsWithin :
    (accepts : ℕ → Bool) (fuel : ℕ) (rx : Rx) (s : AsyncState)
    → IsWithin rx
    → IsWithin (async_drain_rx accepts fuel rx s).1
unfolding async_drain_rx
async_drain_rx-IsWithin accepts zero rx s w = w
async_drain_rx-IsWithin accepts (suc fuel) rx s w =
    let t = take_frame_direct true rx in
    let h = handled accepts t.0 s in
    let v = take_frame_direct-IsWithin true rx w in
    ended_or-IsWithin h.0 (h.1, h.2) t.1 (async_drain_rx accepts fuel t.1 h.1) v
      (async_drain_rx-IsWithin accepts fuel t.1 h.1 v)

pub drain_link-IsLinked :
    (accepts : ℕ → Bool) (now : ℕ) (l : Link) → IsLinked l → IsLinked (drain_link accepts now l).1
unfolding drain_link
drain_link-IsLinked accepts now l h =
    let r = async_drain_rx accepts (suc l.rx.len) l.rx l.async in
    let m : Link = record l { rx = r.1; async = r.2 } in
    let k : IsLinked m =
      rebuffered-IsLinked l m h (refl, refl, refl)
        (async_drain_rx-IsWithin accepts (suc l.rx.len) l.rx l.async h.within) in
    let s = send_requests-Same r.3 m in
    if_holds IsLinked (is_out_of_step r.0) (fail-cases now m (send_requests r.3 m) k s.buffer)
      (Same-IsLinked s k)
