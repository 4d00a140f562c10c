-- ===== src/HostLink/Link/Recovery/Whole.antt =====
-- The console of wiiu_console/src/net.c reads its host's answer, and is connected again.
use capture2cloud.Base.{
  ℕ, ◌-◌, ◌*◌, ◌≤◌, ◌<◌, List, [], ◌∷◌, ◌++◌, Bool, true, false, not, ◌≡◌, inl, inr, refl, sym, ap,
  ◌∙◌, ◌==◌, ltb, if◌then◌else◌, none, some, All, length, take, drop, length-append, arith,
}
use mathlib.Core.Path.{subst}
use mathlib.Core.List.{append-nil}
use capture2cloud.Native.{Descriptor, SendResult, takes}
use capture2cloud.Native.Hello.{HelloAck, ack_bytes}
use capture2cloud.HostLink.{Rx, contents, rx_limit, connect_timeout_ms}
use capture2cloud.HostLink.Buffer.{would_block, fill_rx}
use capture2cloud.HostLink.Buffer.Stream.{IsWithin, length-contents}
use capture2cloud.HostLink.Buffer.Queue.{fill_rx-Keeps, fill_rx_progress}
use capture2cloud.HostLink.Link.{Link, fail, is_up}
use capture2cloud.HostLink.Link.Reach.{IsLinked, no_stage}
use capture2cloud.HostLink.Link.Greeting.{Fits, Greeted, handle_handshake_reply-ack_bytes}
use capture2cloud.HostLink.Link.Poll.{
  System, finish_connect, filled_link, proceed, receive, ping_if_due, poll_socket, is_connecting,
  is_handshake, net_poll, handle_handshake_reply,
}
use capture2cloud.HostLink.Link.Recovery.{
  Starts, Resolves, Waiting, poll-Starts, net_poll_socket, resolved_greet, addressed_waits,
}

-- The host's answer has come whole.
pub record Answers (sys : System) (started : ℕ) (answer : List ℕ) : Type 0 where
  pub memory : (n : ℕ) → sys.memory n ≡ true
  pub open_still : sys.ending ≡ would_block
  pub limits : All (λ n. 0 < n) sys.limits
  pub enough : length sys.queued ≤ length sys.limits
  pub come : sys.queued ≡ answer
  pub small : length sys.queued < rx_limit
  pub in_time : ltb (connect_timeout_ms * 2) (sys.now - started) ≡ false

-- `fill_rx` reads the answer.
fill_rx-answer :
    (sys : System) (started : ℕ) (answer : List ℕ) (rx : Rx)
    → IsWithin rx
    → rx.len ≡ 0
    → Answers sys started answer
    → let r = fill_rx sys.memory sys.ending sys.limits sys.queued rx in
      (r.0 ≡ would_block) × (contents r.1 ≡ answer) × IsWithin r.1
fill_rx-answer sys started answer rx w empty s =
    let r = fill_rx sys.memory sys.ending sys.limits sys.queued rx in
    let k = fill_rx-Keeps sys.memory sys.ending sys.limits sys.queued rx w in
    let none_yet : contents rx ≡ [] = ap (λ n. take n (drop rx.off rx.buf)) empty in
    let stream : contents r.1 ++ r.2 ≡ sys.queued = k.stream ∙ ap (λ t. t ++ sys.queued) none_yet in
    elim (fill_rx_progress sys.memory sys.ending sys.limits sys.queued rx w s.memory s.limits
      s.enough) [
        | inl done ↦ (
          done.1 ∙ s.open_still,
          sym (append-nil (contents r.1))
              ∙ ap (λ t. contents r.1 ++ t) (sym done.0)
              ∙ stream
              ∙ s.come,
          k.within,
        )
        | inr full ↦ absurd (
            omega (
              arith,
              s.small,
              length-contents r.1 k.within,
              length-append (contents r.1) r.2,
              ap length stream,
              full,
            ))
      ]

poll_answered :
    (sys : System) (l m : Link) (started : ℕ) (a : HelloAck) (rest : List ℕ)
    → Waiting l m started
    → IsWithin l.rx
    → l.rx.len ≡ 0
    → Answers sys started (ack_bytes a ++ rest)
    → Fits a
    → (a.accepted == 0) ≡ false
    → Greeted (net_poll sys m).0 a rest
unfolding receive proceed poll_socket
poll_answered sys l m started a rest m_waits w empty s f taken =
    let wm : IsWithin m.rx = rw (m_waits.buffer) w in
    let em : m.rx.len ≡ 0 = ap (λ (r : Rx). r.len) m_waits.buffer ∙ empty in
    let r = fill_rx sys.memory sys.ending sys.limits sys.queued m.rx in
    let q = fill_rx-answer sys started (ack_bytes a ++ rest) m.rx wm em s in
    let filled = filled_link m r.1 (length sys.queued - length r.2) in
    let g : Greeted (handle_handshake_reply sys.now filled) a rest =
      handle_handshake_reply-ack_bytes sys.now filled a rest q.2 q.1 f taken in
    let H : Link = handle_handshake_reply sys.now filled in
    let late : Bool → Link = λ b. if b then fail sys.now filled else H in
    let path : (net_poll sys m).0 ≡ H =
      ap (λ p. p.0)
        (net_poll_socket sys m (some m_waits.sock.0) m_waits.wanted (ap is_up m_waits.stage)
          m_waits.sock.1)
      ∙ ap
          (λ b.
            (let p : Link × List ℕ =
                if b then (finish_connect sys m, sys.queued) else receive sys m in
              p.0))
          (ap is_connecting m_waits.stage)
      ∙ ap (λ e. proceed sys.now e filled) q.0
      ∙ ap
          (λ b.
            if not b
            then ping_if_due sys.now filled
            else late (ltb (connect_timeout_ms * 2) (sys.now - m.connect_started_ms)))
          (ap is_handshake m_waits.stage)
      ∙ ap (λ t. late (ltb (connect_timeout_ms * 2) (sys.now - t))) m_waits.started
      ∙ ap late s.in_time in
    subst (λ (p : Link). Greeted p a rest) (sym path) g

-- A link without a socket that is wanted is up after three calls of `net_poll`, where the connect
-- may be tried again, the system starts it and brings it about, its socket takes the hello and the
-- token, the host accepts in time and there is memory; and then it has the fields of the answer.
pub net_poll_recovers :
    (starts resolves answers : System) (l : Link) (wire : List ℕ) (k1 k2 : ℕ)
    (more : List SendResult) (a : HelloAck) (rest : List ℕ)
    → IsLinked l
    → l.want_connection ≡ true
    → l.sock ≡ none
    → l.rx.len ≡ 0
    → Starts starts l (record { wire = wire; answers = takes k1 ∷ takes k2 ∷ more })
    → 8 ≤ k1
    → length l.token ≤ k2
    → length l.token ≤ 79
    → Resolves resolves
    → Answers answers resolves.now (ack_bytes a ++ rest)
    → Fits a
    → (a.accepted == 0) ≡ false
    → Greeted (net_poll answers (net_poll resolves (net_poll starts l).0).0).0 a rest
net_poll_recovers starts resolves answers l wire k1 k2 more a rest h wanted shut empty s room1 room2
      short r c f taken =
    let fd : Descriptor = record { wire = wire; answers = takes k1 ∷ takes k2 ∷ more } in
    let m = (net_poll starts l).0 in
    let p = poll-Starts starts l fd wanted (no_stage l h shut) shut s in
    let q =
      addressed_waits resolves.now resolves.local_address m fd k1 k2 more p.sock refl room1
        (rw (p.token) room2) (rw (p.token) short) p.wanted in
    let w : Waiting m (net_poll resolves m).0 resolves.now =
      subst (λ (x : Link). Waiting m x resolves.now)
        (sym (resolved_greet resolves m fd p.stage p.sock p.wanted r)) q in
    poll_answered answers m (net_poll resolves m).0 resolves.now a rest w (rw (p.buffer) h.within)
      (ap (λ (x : Rx). x.len) p.buffer ∙ empty) c f taken
