-- ===== src/HostLink/Video/History.antt =====
-- The receiver of wiiu_console/src/net.c over any run of the receiver's thread and the main loop.
use capture2cloud.Base.{ℕ, List, [], ◌++◌, Bool, true, false, ◌≡◌, arith}
use capture2cloud.HostLink.{Rx}
use capture2cloud.HostLink.Events.{
  AsyncState, async_pop_event, async_clear_events, net_take_async_video_count,
}
use capture2cloud.HostLink.Video.{VideoAct, async_drain_rx, net_async_video_resume, async_start}
use capture2cloud.HostLink.Video.Feed.{
  WellFed, Feeds, Feeds-append, quiet-Feeds, request-Feeds, async_drain_rx-Feeds,
}

-- A step under `g_async_lock`, with what it sets off. A drain meets any bytes and any answers of
-- the decoder.
pub data Step (s : AsyncState) : List VideoAct → AsyncState → Type 0 where
  drain :
      (accepts : ℕ → Bool) (fuel : ℕ) (rx : Rx)
      → Step s (async_drain_rx accepts fuel rx s).3 (async_drain_rx accepts fuel rx s).2
  pop : Step s [] (async_pop_event s).1
  clear : Step s [] (async_clear_events s)
  take_count : Step s [] (net_take_async_video_count s).1
  resume :
      (running : Bool)
      → Step s (net_async_video_resume running s).1 (net_async_video_resume running s).0
  start : Step s [] (async_start s)

pub data Run (s : AsyncState) : List VideoAct → AsyncState → Type 0 where
  here : Run s [] s
  next :
      {acts more : List VideoAct} {t u : AsyncState}
      → Run s acts t
      → Step t more u
      → Run s (acts ++ more) u

pop_synced : (s : AsyncState) → (async_pop_event s).1.video_synced ≡ s.video_synced
unfolding async_pop_event
pop_synced s = ground arith

Step-Feeds : {s t : AsyncState} {acts : List VideoAct} → Step s acts t → Feeds s acts t
unfolding async_clear_events net_take_async_video_count net_async_video_resume async_start
Step-Feeds {s} (drain accepts fuel rx) = async_drain_rx-Feeds accepts fuel rx s
Step-Feeds {s} pop = quiet-Feeds s _ (λ e. cc (pop_synced s))
Step-Feeds {s} clear = quiet-Feeds s _ (λ e. e)
Step-Feeds {s} take_count = quiet-Feeds s _ (λ e. e)
Step-Feeds {s} (resume true) = request-Feeds s _ (λ e. cc)
Step-Feeds {s} (resume false) = quiet-Feeds s _ (λ e. e)
Step-Feeds {s} start = quiet-Feeds s _ (λ e. cc)

Run-Feeds : {s t : AsyncState} {acts : List VideoAct} → Run s acts t → Feeds s acts t
Run-Feeds {s} here = quiet-Feeds s s (λ e. e)
Run-Feeds (next {acts} {more} run step) = Feeds-append acts more (Run-Feeds run) (Step-Feeds step)

-- From a start at which no frame was taken, whatever bytes arrive and whatever the decoder answers,
-- it is given a frame that is no keyframe only right after one that it took.
pub Run-WellFed :
    {s t : AsyncState} {acts : List VideoAct}
    → s.video_synced ≡ false
    → Run s acts t
    → WellFed false acts
Run-WellFed off run = (Run-Feeds run).fed false (λ on. cc)
