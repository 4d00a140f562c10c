-- ===== src/HostLink/Video.antt =====
-- The receiver's thread of wiiu_console/src/net.c: what it does with the messages of the buffer.
-- Each function is one step under `g_async_lock`.
pub mod Feed
pub mod Drain
pub mod History
use capture2cloud.Base.{
  ℕ, zero, suc, ◌+◌, ◌%◌, ◌^◌, List, [], ◌∷◌, ◌++◌, Bool, true, false, not, ◌&&◌, ◌==◌,
  if◌then◌else◌, Option, none, some, bit_and,
}
use capture2cloud.Wire.{msg_video, msg_stream_info, flag_keyframe}
use capture2cloud.HostLink.{Rx}
use capture2cloud.HostLink.Frames.{Taken, nothing, broken, frame, take_frame_direct}
use capture2cloud.HostLink.Events.{AsyncState, async_queue_event}

-- What the receiver sets off: a call of `net_send_keyframe_request`, and a frame for the decoder,
-- with whether it is a keyframe and whether `video_worker_submit_wait` took it.
pub data VideoAct : Type 0 where
  request_keyframe : VideoAct
  submit : Bool → List ℕ → Bool → VideoAct

abbrev pub is_keyframe : ℕ → Bool
is_keyframe flags = not (bit_and flags flag_keyframe == 0)

abbrev pub counted : AsyncState → AsyncState
counted s = record s { video_count = (s.video_count + 1) % 2 ^ 32 }

abbrev pub asked : AsyncState → AsyncState
asked s = record s { keyframe_requested = true }

abbrev pub synced : AsyncState → AsyncState
synced s = record s { video_synced = true; keyframe_requested = false }

-- `accepts` has the decoder's answers, by the number of the video message.
unfoldable pub submitted : Bool → Bool → List ℕ → AsyncState → AsyncState × List VideoAct
submitted accepted key payload s = if accepted then (s, submit key payload true ∷ []) else (
  record s { video_synced = false; keyframe_requested = true },
  submit key payload false ∷ request_keyframe ∷ [],
)

unfoldable pub async_handle_video :
    (ℕ → Bool) → List ℕ → ℕ → AsyncState → AsyncState × List VideoAct
unfolding submitted
async_handle_video accepts payload flags s =
    let c = counted s in
    let key = is_keyframe flags in
    let accepted = accepts c.video_count in
    if c.video_paused
    then (c, [])
    else if c.video_synced
    then submitted accepted key payload c
    else if key
    then submitted accepted key payload (synced c)
    else if c.keyframe_requested
    then (c, [])
    else (asked c, request_keyframe ∷ [])

-- How a drain ends: no whole message is left, the picture's shape changes (its 1), or the stream is
-- out of step and `fail` was called. `unfinished` is for fuel that ran out.
pub data DrainEnd : Type 0 where
  drained boundary out_of_step unfinished : DrainEnd

abbrev pub Handled : Type 0
Handled = Option DrainEnd × AsyncState × List VideoAct

abbrev pub paused_for : ℕ → List ℕ → AsyncState → AsyncState
paused_for flags payload s =
    async_queue_event msg_stream_info flags payload
      (record s { video_paused = true; video_synced = false; keyframe_requested = false })

-- One round of the loop; `none` is to go on. The type 0 reads as no message.
unfoldable pub handled : (ℕ → Bool) → Taken → AsyncState → Handled
handled accepts nothing s = (some drained, s, [])
handled accepts broken s = (some out_of_step, s, [])
handled accepts (frame type flags payload) s =
    let v = async_handle_video accepts payload flags s in
    if type == 0
    then (some drained, s, [])
    else if type == msg_video
    then (none, v.0, v.1)
    else if type == msg_stream_info
    then (some boundary, paused_for flags payload s, [])
    else (none, async_queue_event type flags payload s, [])

abbrev pub Drained : Type 0
Drained = DrainEnd × Rx × AsyncState × List VideoAct

-- After a round: the loop's end, or what its further rounds give.
unfoldable pub ended_or : Option DrainEnd → AsyncState × List VideoAct → Rx → Drained → Drained
ended_or (some end) (s, acts) rx rest = (end, rx, s, acts)
ended_or none (s, acts) rx rest = (rest.0, rest.1, rest.2, acts ++ rest.3)

-- `LINK_UP` is the stage, until `fail` leaves it.
unfoldable pub async_drain_rx : (ℕ → Bool) → ℕ → Rx → AsyncState → Drained
unfolding ended_or
async_drain_rx accepts zero rx s = (unfinished, rx, s, [])
async_drain_rx accepts (suc fuel) rx s =
    let t = take_frame_direct true rx in
    let h = handled accepts t.0 s in
    let rest = async_drain_rx accepts fuel t.1 h.1 in ended_or h.0 (h.1, h.2) t.1 rest

-- The main loop has rebuilt the decoder. `running` says whether the receiver's thread runs.
unfoldable pub net_async_video_resume : Bool → AsyncState → AsyncState × List VideoAct
net_async_video_resume running s =
    if running
    then (
      record s { video_paused = false; video_synced = false; keyframe_requested = true },
      request_keyframe ∷ [],
    )
    else (s, [])

-- What `async_start_internal` does before it starts the thread.
unfoldable pub async_start : AsyncState → AsyncState
async_start s = record s { video_paused = false; video_synced = false; keyframe_requested = false }
