-- ===== src/HostLink/Link/Reach/History.antt =====
-- The connection of wiiu_console/src/net.c over any run: its steps as a relation.
use capture2cloud.Base.{
  ℕ, ◌-◌, List, Bool, true, false, not, ◌&&◌, ◌||◌, refl, if◌then◌else◌, if_holds, Option, none,
  some, length,
}
use capture2cloud.HostLink.{Rx}
use capture2cloud.HostLink.Buffer.{would_block, closed, failed, fill_rx}
use capture2cloud.HostLink.Buffer.Stream.{IsWithin}
use capture2cloud.HostLink.Frames.{Taken, nothing, broken, frame, take_frame_direct}
use capture2cloud.HostLink.Events.{AsyncEvent, AsyncState, async_pop_event}
use capture2cloud.HostLink.Link.{
  Link, is_up, fail, async_start_internal, net_set_async_receive, net_disconnect, open_audio_socket,
  wanted_link, fresh_link, net_connect,
}
use capture2cloud.HostLink.Link.Poll.{System, filled_link, net_poll}
use capture2cloud.HostLink.Link.Requests.{Request, net_send}
use capture2cloud.HostLink.Link.Thread.{
  drain_link, Ready, poll_error, quiet, readable, fill_link, read_ready, async_thread_round,
  taken_link, taken_or, net_take_frame,
}
use capture2cloud.HostLink.Link.Reach.{
  IsLinked, Same, Same-IsLinked, Same-refl, agree, fail-cases, empty-IsWithin, net_send-Same,
}
use capture2cloud.HostLink.Link.Reach.Steps.{
  rebuffered-IsLinked, filled-IsLinked, net_poll-IsLinked, take_frame_direct-IsWithin,
  drain_link-IsLinked,
}

fill_link-IsLinked : (sys : System) (l : Link) → IsLinked l → IsLinked (fill_link sys l).1
unfolding fill_link
fill_link-IsLinked sys l h =
    let r = fill_rx sys.memory sys.ending sys.limits sys.queued l.rx in
    let m = filled_link l r.1 (length sys.queued - length r.2) in
    let k : IsLinked m = filled-IsLinked sys l (length sys.queued - length r.2) h in
    elim r.0
      as (λ e.
        let b : Bool × Link = elim e [
          | would_block ↦ (true, m)
          | closed ↦ (false, fail sys.now m)
          | failed error ↦ (false, fail sys.now m)
        ] in
        IsLinked b.1) [
          | would_block ↦ k
          | closed ↦ fail-cases sys.now m m k refl
          | failed error ↦ fail-cases sys.now m m k refl
        ]

read_ready-IsLinked :
    (accepts : ℕ → Bool) (sys : System) (r : Ready) (l : Link)
    → IsLinked l
    → IsLinked (read_ready accepts sys r l)
unfolding read_ready
read_ready-IsLinked accepts sys poll_error l h = fail-cases sys.now l l h refl
read_ready-IsLinked accepts sys quiet l h = h
read_ready-IsLinked accepts sys readable l h =
    let f = fill_link-IsLinked sys l h in
    if_holds IsLinked (fill_link sys l).0
      (drain_link-IsLinked accepts sys.now (fill_link sys l).1 f) f

async_thread_round-IsLinked :
    (accepts : ℕ → Bool) (sys : System) (r : Ready) (l : Link)
    → IsLinked l
    → IsLinked (async_thread_round accepts sys r l)
unfolding async_thread_round
async_thread_round-IsLinked accepts sys r l h =
    let d = drain_link accepts sys.now l in
    let k = drain_link-IsLinked accepts sys.now l h in
    if_holds IsLinked (not (is_up l.stage) || l.async.video_paused) h (
      if_holds IsLinked d.0 k
        (read_ready-IsLinked accepts sys (if is_up d.1.stage then r else quiet) d.1 k))

taken_link-IsLinked :
    (now : ℕ) (t : Taken) (rx : Rx) (l : Link)
    → IsLinked l
    → IsWithin rx
    → IsLinked (taken_link now (t, rx) l).1
unfolding taken_link
taken_link-IsLinked now nothing rx l h w = h
taken_link-IsLinked now broken rx l h w = fail-cases now l l h refl
taken_link-IsLinked now (frame type flags payload) rx l h w =
    rebuffered-IsLinked l (record l { rx = rx }) h (refl, refl, refl) w

taken_or-IsLinked :
    (now : ℕ) (o : Option AsyncEvent) (s : AsyncState) (l : Link)
    → IsLinked l
    → IsLinked (taken_or now (o, s) l).1
unfolding taken_or
taken_or-IsLinked now (some event) s l h = record { agreed = h.agreed; within = h.within }
taken_or-IsLinked now none s l h =
    let t = take_frame_direct (is_up l.stage) l.rx in
    if_holds (λ (r : Option AsyncEvent × Link). IsLinked r.1) (l.async_running && is_up l.stage) h
      (taken_link-IsLinked now t.0 t.1 l h
        (take_frame_direct-IsWithin (is_up l.stage) l.rx h.within))

net_take_frame-IsLinked : (now : ℕ) (l : Link) → IsLinked l → IsLinked (net_take_frame now l).1
unfolding net_take_frame
net_take_frame-IsLinked now l h =
    let p = async_pop_event l.async in taken_or-IsLinked now p.0 p.1 l h

net_disconnect-IsLinked : (l : Link) → IsLinked l → IsLinked (net_disconnect l)
unfolding net_disconnect agree
net_disconnect-IsLinked l h = record { agreed = refl; within = empty-IsWithin l.rx h.within }

started-IsLinked :
    (created : Bool) (l : Link) → IsLinked l → IsLinked (async_start_internal created l)
unfolding async_start_internal
started-IsLinked created l h =
    if_holds IsLinked l.async_running h (record { agreed = h.agreed; within = h.within })

set_async-IsLinked :
    (created enabled : Bool) (l : Link)
    → IsLinked l
    → IsLinked (net_set_async_receive created enabled l)
unfolding net_set_async_receive
set_async-IsLinked created enabled l h =
    let m : Link = record l { async_requested = enabled } in
    let k : IsLinked m = record { agreed = h.agreed; within = h.within } in
    if_holds IsLinked enabled (started-IsLinked created m k)
      (record { agreed = h.agreed; within = h.within })

opened-Same : (bound : Bool) (l : Link) → Same l (open_audio_socket bound l)
unfolding open_audio_socket
opened-Same bound l = if_holds (Same l) l.audio_open (Same-refl l) (
    if_holds (Same l) bound (record { socket = refl; stage = refl; state = refl; buffer = refl })
      (record { socket = refl; stage = refl; state = refl; buffer = refl }))

fresh-IsLinked :
    (bound : Bool) (host : List ℕ) (port : ℕ) (token : List ℕ) (l : Link)
    → IsLinked l
    → IsLinked (fresh_link (open_audio_socket bound (wanted_link host port token l)))
unfolding fresh_link wanted_link agree
fresh-IsLinked bound host port token l h =
    let q = opened-Same bound (wanted_link host port token l) in
    record {
      agreed = rw (q.socket, q.stage) refl;
      within = rw (q.buffer) (empty-IsWithin l.rx h.within);
    }

net_connect-IsLinked :
    (bound created : Bool) (host : List ℕ) (port : ℕ) (token : List ℕ) (l : Link)
    → IsLinked l
    → IsLinked (net_connect bound created host port token l)
unfolding net_connect
net_connect-IsLinked bound created host port token l h =
    let fresh = fresh_link (open_audio_socket bound (wanted_link host port token l)) in
    let f = fresh-IsLinked bound host port token l h in
    if_holds IsLinked fresh.async_requested (started-IsLinked created fresh f) f

-- What happens to the link: calls of the main loop and of the controller's thread, and the rounds
-- of the receiver's thread, with any answers of the system.
pub data Step (l : Link) : Link → Type 0 where
  poll : (sys : System) → Step l (net_poll sys l).0
  send : (r : Request) → Step l (net_send r l)
  connect :
      (bound created : Bool) (host : List ℕ) (port : ℕ) (token : List ℕ)
      → Step l (net_connect bound created host port token l)
  disconnect : Step l (net_disconnect l)
  set_async : (created enabled : Bool) → Step l (net_set_async_receive created enabled l)
  take_frame : (now : ℕ) → Step l (net_take_frame now l).1
  thread :
      (accepts : ℕ → Bool) (sys : System) (r : Ready) → Step l (async_thread_round accepts sys r l)

pub data Reach (l : Link) : Link → Type 0 where
  here : Reach l l
  next : {m n : Link} → Reach l m → Step m n → Reach l n

Step-IsLinked : {l m : Link} → IsLinked l → Step l m → IsLinked m
Step-IsLinked {l} h (poll sys) = net_poll-IsLinked sys l h
Step-IsLinked {l} h (send r) = Same-IsLinked (net_send-Same r l) h
Step-IsLinked {l} h (connect bound created host port token) =
    net_connect-IsLinked bound created host port token l h
Step-IsLinked {l} h disconnect = net_disconnect-IsLinked l h
Step-IsLinked {l} h (set_async created enabled) = set_async-IsLinked created enabled l h
Step-IsLinked {l} h (take_frame now) = net_take_frame-IsLinked now l h
Step-IsLinked {l} h (thread accepts sys r) = async_thread_round-IsLinked accepts sys r l h

-- Whatever the host sends and the system answers: there is a socket exactly in the stages after
-- the first, the link is shown as connected exactly where it is up, and the buffer's bytes lie in
-- it.
pub Reach-IsLinked : {l m : Link} → IsLinked l → Reach l m → IsLinked m
Reach-IsLinked h here = h
Reach-IsLinked h (next run step) = Step-IsLinked (Reach-IsLinked h run) step
