-- ===== src/HostLink/Link/Recovery.antt =====
-- The console of wiiu_console/src/net.c connects anew by itself.
pub mod Whole
use capture2cloud.Base.{
  ℕ, zero, suc, ◌+◌, ◌-◌, ◌*◌, ◌%◌, ◌^◌, ◌≤◌, ◌<◌, List, [], ◌∷◌, ◌++◌, Bool, true, false, not,
  ◌&&◌, ◌||◌, ◌≡◌, ◌⊎◌, inl, inr, refl, sym, ap, ◌∙◌, ◌==◌, ltb, leb, lt→ltb, if◌then◌else◌,
  if_cases, if_holds, Bool-cases, Option, none, some, All, u8, get_or, length, take, drop,
  length-append, arith,
}
use mathlib.Core.Path.{subst}
use mathlib.Core.List.{append-nil}
use capture2cloud.Wire.{store16, store32}
use capture2cloud.Native.{Descriptor, SendResult, takes}
use capture2cloud.Native.Hello.{HelloAck, ack_bytes}
use capture2cloud.HostLink.{Rx, contents, rx_limit, connect_timeout_ms}
use capture2cloud.HostLink.Buffer.{Ending, would_block, fill_rx}
use capture2cloud.HostLink.Buffer.Stream.{IsWithin, length-contents}
use capture2cloud.HostLink.Buffer.Queue.{fill_rx-Keeps, fill_rx_progress}
use capture2cloud.HostLink.Link.{
  Link, LinkStage, link_none, link_connecting, link_handshake, link_up, NetState, fail, send_all_by,
  send_all, is_up,
}
use capture2cloud.HostLink.Link.Torn.{sent_link, send_all_whole}
use capture2cloud.HostLink.Link.Reach.{IsLinked, no_stage}
use capture2cloud.HostLink.Link.Greeting.{Fits, Greeted, handle_handshake_reply-ack_bytes}
use capture2cloud.HostLink.Link.Poll.{
  System, Writable, resolved, connect_on, begin_connect, with_address, hello_bytes, after_hello,
  greet, finish_connect_on, finish_connect, filled_link, proceed, receive, ping_if_due, poll_socket,
  is_connecting, is_handshake, net_poll, handle_handshake_reply,
}

-- The system lets a connect start, on a socket that takes the greeting.
pub record Starts (sys : System) (l : Link) (fd : Descriptor) : Type 0 where
  pub due : leb l.next_retry_ms sys.now ≡ true
  pub known : (length l.host == 0) ≡ false
  pub readable : sys.is_address l.host ≡ true
  pub made : sys.new_socket ≡ some fd
  pub nonblocking : sys.made_nonblocking ≡ true
  pub begun : sys.connect_started ≡ true

-- The link with a connect in flight.
record Connecting (l m : Link) (fd : Descriptor) : Type 0 where
  stage : m.stage ≡ link_connecting
  sock : m.sock ≡ some fd
  wanted : m.want_connection ≡ true
  buffer : m.rx ≡ l.rx
  token : m.token ≡ l.token

and_false : (b : Bool) → (b && false) ≡ false
and_false true = refl
and_false false = refl

-- Of a link that is wanted and not up `net_poll` goes by the socket.
net_poll_socket :
    (sys : System) (m : Link) (o : Option Descriptor)
    → m.want_connection ≡ true
    → is_up m.stage ≡ false
    → m.sock ≡ o
    → net_poll sys m ≡ poll_socket sys o m
unfolding net_poll
net_poll_socket sys m o wanted down sock =
    let A : Link × List ℕ = (m, sys.queued) in
    let B : Link × List ℕ = (ping_if_due sys.now m, sys.queued) in
    let D : Link × List ℕ = poll_socket sys m.sock m in
    ap (λ w. if not w then A else if m.async_running && is_up m.stage then B else D) wanted
    ∙ ap (λ u. if m.async_running && u then B else D) down
    ∙ ap (λ b. if b then B else D) (and_false m.async_running)
    ∙ ap (λ t. poll_socket sys t m) sock

poll-Starts :
    (sys : System) (l : Link) (fd : Descriptor)
    → l.want_connection ≡ true
    → l.stage ≡ link_none
    → l.sock ≡ none
    → Starts sys l fd
    → Connecting l (net_poll sys l).0 fd
unfolding net_poll
poll-Starts sys l fd wanted stage shut s =
    rw
      (
        wanted,
        stage,
        and_false l.async_running,
        shut,
        s.due,
        s.known,
        s.readable,
        s.made,
        s.nonblocking,
        s.begun,
      )
      (record { stage = refl; sock = refl; wanted = refl; buffer = refl; token = refl })

-- The connect has come about.
pub record Resolves (sys : System) : Type 0 where
  pub told : sys.writable ≡ resolved
  pub clear : sys.error_clear ≡ true

some_length : (bs : List ℕ) → suc (length bs) ≤ 79 → (u8 (suc (length bs)) == 0) ≡ false
some_length bs h = ground arith

send_all_by_wanted :
    (o : Option Descriptor) (bytes : List ℕ) (m : Link)
    → (send_all_by o bytes m).1.want_connection ≡ m.want_connection
unfolding send_all_by
send_all_by_wanted none bytes m = refl
send_all_by_wanted (some fd) bytes m = refl

send_all_wanted :
    (bytes : List ℕ) (m : Link) → (send_all bytes m).1.want_connection ≡ m.want_connection
unfolding send_all
send_all_wanted bytes m = send_all_by_wanted m.sock bytes m

send_all_by_buffer :
    (o : Option Descriptor) (bytes : List ℕ) (m : Link) → (send_all_by o bytes m).1.rx ≡ m.rx
unfolding send_all_by
send_all_by_buffer none bytes m = refl
send_all_by_buffer (some fd) bytes m = refl

send_all_buffer : (bytes : List ℕ) (m : Link) → (send_all bytes m).1.rx ≡ m.rx
unfolding send_all
send_all_buffer bytes m = send_all_by_buffer m.sock bytes m

-- The link after its greeting.
record Waiting (l m : Link) (now : ℕ) : Type 0 where
  stage : m.stage ≡ link_handshake
  sock : (fd : Descriptor) × (m.sock ≡ some fd)
  wanted : m.want_connection ≡ true
  buffer : m.rx ≡ l.rx
  started : m.connect_started_ms ≡ now

after_hello_waits :
    (now : ℕ) (token wire : List ℕ) (k : ℕ) (more : List SendResult) (hello : Bool × Link)
    → length token ≤ 79
    → length token ≤ k
    → hello.0 ≡ true
    → hello.1.sock ≡ sent_link wire (takes k ∷ more)
    → hello.1.want_connection ≡ true
    → Waiting hello.1 (after_hello now (u8 (length token)) token hello) now
unfolding after_hello
after_hello_waits now [] wire k more (went, m) short fits sent sock wanted = rw sent (record {
  stage = refl;
  sock = (record { wire = wire; answers = takes k ∷ more }, sock);
  wanted = wanted;
  buffer = refl;
  started = refl;
})
after_hello_waits now (b ∷ bs) wire k more (went, m) short fits sent sock wanted =
    let t =
      send_all_whole (record { wire = wire; answers = takes k ∷ more }) k more b bs m sock refl
        fits in
    rw (sent, some_length bs short, t.0)
      (record {
        stage = refl;
        sock = (record { wire = wire ++ b ∷ bs; answers = more }, t.1);
        wanted = send_all_wanted (b ∷ bs) m ∙ wanted;
        buffer = send_all_buffer (b ∷ bs) m;
        started = refl;
      })

-- A connect in flight that comes about is greeted on.
greet_waits :
    (now : ℕ) (m : Link) (fd : Descriptor) (k1 k2 : ℕ) (more : List SendResult)
    → m.sock ≡ some fd
    → fd.answers ≡ takes k1 ∷ takes k2 ∷ more
    → 8 ≤ k1
    → length m.token ≤ k2
    → length m.token ≤ 79
    → m.want_connection ≡ true
    → Waiting m (greet now m) now
unfolding greet hello_bytes store32 store16
greet_waits now m fd k1 k2 more sock answers room1 room2 short wanted =
    let n = u8 (length m.token) in
    let bytes = hello_bytes m.audio_open n in
    let t =
      send_all_whole fd k1 (takes k2 ∷ more) (get_or bytes 0 0) (drop 1 bytes) m sock answers
        room1 in
    let w =
      after_hello_waits now m.token (fd.wire ++ bytes) k2 more (send_all bytes m) short room2 t.0
        t.1 (send_all_wanted bytes m ∙ wanted) in
    record {
      stage = w.stage;
      sock = w.sock;
      wanted = w.wanted;
      buffer = w.buffer ∙ send_all_buffer bytes m;
      started = w.started;
    }

resolved_greet :
    (sys : System) (m : Link) (fd : Descriptor)
    → m.stage ≡ link_connecting
    → m.sock ≡ some fd
    → m.want_connection ≡ true
    → Resolves sys
    → (net_poll sys m).0 ≡ greet sys.now (with_address sys.local_address m)
unfolding poll_socket
resolved_greet sys m fd stage sock wanted s =
    let greeted = greet sys.now (with_address sys.local_address m) in
    ap (λ r. r.0) (net_poll_socket sys m (some fd) wanted (ap is_up stage) sock)
    ∙ ap
        (λ b.
          (let r : Link × List ℕ =
              if b then (finish_connect sys m, sys.queued) else receive sys m in
            r.0))
        (ap is_connecting stage)
    ∙ ap (λ w. finish_connect_on sys w m) s.told
    ∙ ap (λ b. if not b then fail sys.now m else greeted) s.clear

addressed_waits :
    (now : ℕ) (o : Option ℕ) (m : Link) (fd : Descriptor) (k1 k2 : ℕ) (more : List SendResult)
    → m.sock ≡ some fd
    → fd.answers ≡ takes k1 ∷ takes k2 ∷ more
    → 8 ≤ k1
    → length m.token ≤ k2
    → length m.token ≤ 79
    → m.want_connection ≡ true
    → Waiting m (greet now (with_address o m)) now
addressed_waits now none m fd k1 k2 more sock answers room1 room2 short wanted =
    greet_waits now m fd k1 k2 more sock answers room1 room2 short wanted
addressed_waits now (some ip) m fd k1 k2 more sock answers room1 room2 short wanted =
    let w =
      greet_waits now (with_address (some ip) m) fd k1 k2 more sock answers room1 room2 short
        wanted in
    record {
      stage = w.stage;
      sock = w.sock;
      wanted = w.wanted;
      buffer = w.buffer;
      started = w.started;
    }
