-- ===== src/HostLink/Link/Thread.antt =====
-- The receiver's thread and the main loop's reading of messages (wiiu_console/src/net.c).
use capture2cloud.Base.{
  ℕ, suc, ◌-◌, List, [], ◌∷◌, Bool, true, false, not, ◌&&◌, ◌||◌, ◌==◌, if◌then◌else◌, Option, none,
  some, length,
}
use capture2cloud.HostLink.{Rx}
use capture2cloud.HostLink.Buffer.{would_block, closed, failed, fill_rx}
use capture2cloud.HostLink.Frames.{Taken, nothing, broken, frame, take_frame_direct}
use capture2cloud.HostLink.Events.{AsyncEvent, AsyncState, async_pop_event}
use capture2cloud.HostLink.Video.{
  VideoAct, request_keyframe, submit, DrainEnd, drained, boundary, out_of_step, unfinished,
  async_drain_rx,
}
use capture2cloud.HostLink.Link.{Link, is_up, fail}
use capture2cloud.HostLink.Link.Requests.{net_send, keyframe}
use capture2cloud.HostLink.Link.Poll.{System, filled_link}

-- The requests for keyframes are sent; the frames are the decoder's.
unfoldable pub send_requests : List VideoAct → Link → Link
send_requests [] l = l
send_requests (request_keyframe ∷ acts) l = send_requests acts (net_send keyframe l)
send_requests (submit key payload taken ∷ acts) l = send_requests acts l

abbrev pub is_out_of_step : DrainEnd → Bool
is_out_of_step drained = false
is_out_of_step boundary = false
is_out_of_step out_of_step = true
is_out_of_step unfinished = false

abbrev pub is_boundary : DrainEnd → Bool
is_boundary drained = false
is_boundary boundary = true
is_boundary out_of_step = false
is_boundary unfinished = false

-- A drain of what is in the buffer, which takes one round more than there are bytes at most. A
-- stream out of step closes the link, after what was asked for before that.
unfoldable pub drain_link : (ℕ → Bool) → ℕ → Link → Bool × Link
unfolding send_requests
drain_link accepts now l =
    let r = async_drain_rx accepts (suc l.rx.len) l.rx l.async in
    let asked = send_requests r.3 (record l { rx = r.1; async = r.2 }) in
    (is_boundary r.0, if is_out_of_step r.0 then fail now asked else asked)

-- The socket as `poll` reports it: an error, nothing, or that it can be read.
pub data Ready : Type 0 where
  poll_error quiet readable : Ready

unfoldable pub fill_link : System → Link → Bool × Link
fill_link sys l =
    let r = fill_rx sys.memory sys.ending sys.limits sys.queued l.rx in
    let filled = filled_link l r.1 (length sys.queued - length r.2) in
    elim r.0 [
      | would_block ↦ (true, filled)
      | closed ↦ (false, fail sys.now filled)
      | failed error ↦ (false, fail sys.now filled)
    ]

unfoldable pub read_ready : (ℕ → Bool) → System → Ready → Link → Link
unfolding fill_link drain_link
read_ready accepts sys poll_error l = fail sys.now l
read_ready accepts sys quiet l = l
read_ready accepts sys readable l =
    let r = fill_link sys l in if r.0 then (drain_link accepts sys.now r.1).1 else r.1

-- One round of `async_thread_entry`. A link that is up has a socket; `poll_error` is any error but
-- EINTR. After a drain that closed the link, `poll` is asked about no socket, and is quiet.
unfoldable pub async_thread_round : (ℕ → Bool) → System → Ready → Link → Link
unfolding drain_link read_ready
async_thread_round accepts sys ready l =
    let d = drain_link accepts sys.now l in
    if not (is_up l.stage) || l.async.video_paused
    then l
    else if d.0
    then d.1
    else read_ready accepts sys (if is_up d.1.stage then ready else quiet) d.1

-- The main loop's `net_take_frame`: an event of the thread, or else a message of the buffer, where
-- no thread reads it. `none` is 0.
unfoldable pub taken_link : ℕ → Taken × Rx → Link → Option AsyncEvent × Link
taken_link now (nothing, rx) l = (none, l)
taken_link now (broken, rx) l = (none, fail now l)
taken_link now (frame type flags payload, rx) l = (
  if type == 0 then none else some (record { type = type; flags = flags; payload = payload }),
  record l { rx = rx },
)

unfoldable pub taken_or : ℕ → Option AsyncEvent × AsyncState → Link → Option AsyncEvent × Link
unfolding taken_link
taken_or now (some event, async) l = (some event, record l { async = async })
taken_or now (none, async) l =
    if l.async_running && is_up l.stage
    then (none, l)
    else taken_link now (take_frame_direct (is_up l.stage) l.rx) l

unfoldable pub net_take_frame : ℕ → Link → Option AsyncEvent × Link
unfolding taken_or
net_take_frame now l = taken_or now (async_pop_event l.async) l
