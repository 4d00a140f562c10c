-- ===== src/HostLink/Events.antt =====
-- The queue of events between the receiver's thread and the main loop of
-- wiiu_console/src/net.c: a ring of 32 slots. Each function is one step under `g_async_lock`,
-- which `net_init` has made.
pub mod Ring
use capture2cloud.Base.{
  ℕ, ◌+◌, ◌-◌, ◌%◌, List, [], Bool, true, false, ltb, leb, ◌==◌, if◌then◌else◌, Option, none, some,
  u8, get_or, set, length,
}
use capture2cloud.Wire.{msg_audio}

abbrev pub async_event_slots : ℕ
async_event_slots = 32

abbrev pub async_event_payload_max : ℕ
async_event_payload_max = 2048

-- `payload` holds the bytes up to `size`.
pub record AsyncEvent : Type 0 where
  pub type : ℕ
  pub flags : ℕ
  pub payload : List ℕ

abbrev pub no_event : AsyncEvent
no_event = record { type = 0; flags = 0; payload = [] }

-- The variables named `g_async_`, but for the threads' own.
pub record AsyncState : Type 0 where
  pub events : List AsyncEvent
  pub read : ℕ
  pub write : ℕ
  pub count : ℕ
  pub video_count : ℕ
  pub video_paused : Bool
  pub video_synced : Bool
  pub keyframe_requested : Bool

-- Without the oldest event.
abbrev pub oldest_dropped : AsyncState → AsyncState
oldest_dropped s = record s { read = (s.read + 1) % async_event_slots; count = s.count - 1 }

abbrev pub event_written : AsyncState → AsyncEvent → AsyncState
event_written s event = record s {
  events = set s.events s.write event;
  write = (s.write + 1) % async_event_slots;
  count = s.count + 1;
}

unfoldable pub async_queue_event : ℕ → ℕ → List ℕ → AsyncState → AsyncState
async_queue_event type flags payload s =
    let event : AsyncEvent = record { type = u8 type; flags = flags; payload = payload } in
    if ltb async_event_payload_max (length payload)
    then s
    else if leb async_event_slots s.count
    then if type == msg_audio then s else event_written (oldest_dropped s) event
    else event_written s event

unfoldable pub async_clear_events : AsyncState → AsyncState
async_clear_events s = record s { read = 0; write = 0; count = 0; video_count = 0 }

unfoldable pub async_pop_event : AsyncState → Option AsyncEvent × AsyncState
async_pop_event s =
    if s.count == 0 then (none, s) else (some (get_or s.events s.read no_event), oldest_dropped s)

unfoldable pub net_take_async_video_count : AsyncState → ℕ × AsyncState
net_take_async_video_count s = (s.video_count, record s { video_count = 0 })
