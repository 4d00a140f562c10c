-- ===== src/Pcble/Session.antt =====
-- The session of server/output_pcble.c: the helper process that owns the Bluetooth controller, its
-- recovery, and the worker that sends it the controller state. SDL's clock is a number of 32 bits.
-- Each function is one step: what another thread does between two of its reads is left out, and so
-- are the texts on stderr and the rate of the reports.
pub mod Launch
pub mod Worker
pub mod Recovery
mod Tests
use capture2cloud.Base.{
  ℕ, ◌+◌, ◌-◌, ◌%◌, ◌^◌, List, [], ◌∷◌, Bool, true, false, not, ◌&&◌, ◌||◌, ◌==◌, ltb, leb,
  if◌then◌else◌, Option, none, some,
}
use capture2cloud.Controller.{ControllerState}

abbrev pub keepalive_ms : ℕ
keepalive_ms = 100

abbrev pub retry_ms : ℕ
retry_ms = 250

abbrev pub home_ms : ℕ
home_ms = 150

abbrev pub capture_ms : ℕ
capture_ms = 150

-- The clock `ms` later, the time from `b` to `a`, and whether the cast of that to Sint32 is
-- negative or positive.
abbrev pub later : ℕ → ℕ → ℕ
later now ms = (now + ms) % 2 ^ 32

abbrev pub passed : ℕ → ℕ → ℕ
passed a b = (a + 2 ^ 32 - b) % 2 ^ 32

abbrev pub is_before : ℕ → ℕ → Bool
is_before a b = leb (2 ^ 31) (passed a b)

abbrev pub is_after : ℕ → ℕ → Bool
is_after a b = not (is_before a b) && not (passed a b == 0)

-- The file's variables. `launcher` is the number of the helper's process, `initialized` says
-- whether `g_lock` is there.
pub record Session : Type 0 where
  pub initialized : Bool
  pub running : Bool
  pub dirty : Bool
  pub pair_mode : Bool
  pub ipc_up : Bool
  pub link_up : Bool
  pub state : ControllerState
  pub home_until : ℕ
  pub capture_until : ℕ
  pub last_attempt : ℕ
  pub last_send : ℕ
  pub peer : List ℕ
  pub launcher : Option ℕ
  pub session_stopping : Bool
  pub reconnect_requested : Bool
  pub reconnect_active : Bool
  pub wake_suspended : Bool
  pub launch_owned : Bool
  pub not_before : ℕ
  pub attempt : ℕ

abbrev pub is_running : Option ℕ → Bool
is_running none = false
is_running (some process) = true

unfoldable pub output_pcble_update : ControllerState → Session → Session
output_pcble_update state s = if s.initialized then record s { state = state; dirty = true } else s

-- The single entry of a recovery.
unfoldable pub output_pcble_reset : ℕ → Session → Session
output_pcble_reset now s = record s {
  wake_suspended = false;
  reconnect_requested = true;
  reconnect_active = true;
  attempt = 0;
  not_before = now;
}

unfoldable pub output_pcble_press_home : ℕ → Session → Session
output_pcble_press_home now s =
    if s.initialized then record s { home_until = later now home_ms; dirty = true } else s

unfoldable pub output_pcble_press_capture : ℕ → Session → Session
output_pcble_press_capture now s =
    if s.initialized then record s { capture_until = later now capture_ms; dirty = true } else s

unfoldable pub set_pair_mode : Bool → Session → Session
set_pair_mode pair_mode s =
    if s.initialized
    then record s {
      pair_mode = pair_mode;
      ipc_up = false;
      link_up = false;
      peer = [];
      dirty = true;
    }
    else record s { pair_mode = pair_mode }

-- What is asked of the helpers: to stop, or to terminate the process where no helper answers.
-- `stopped` says whether one did.
pub data Act : Type 0 where
  request_stop : Bool → Act
  terminate : ℕ → Act
  launch : List (List ℕ) → Act

abbrev pub terminated : Bool → Option ℕ → List Act
terminated true launcher = []
terminated false none = []
terminated false (some process) = terminate process ∷ []

unfoldable pub output_pcble_stop_session : Bool → Session → Session × List Act
output_pcble_stop_session stopped s =
    (record s { session_stopping = true }, request_stop s.pair_mode ∷ terminated stopped s.launcher)

unfoldable pub output_pcble_clear_reconnect_request : Session → Session
output_pcble_clear_reconnect_request s = record s { reconnect_requested = false }

-- The wake of the console takes the Bluetooth stack.
unfoldable pub output_pcble_suspend_for_wake : Bool → Session → Session × List Act
unfolding output_pcble_stop_session
output_pcble_suspend_for_wake stopped s =
    let off : Session = record s {
      wake_suspended = true;
      reconnect_requested = false;
      reconnect_active = false;
      launch_owned = false;
      attempt = 0;
      not_before = 0;
    } in
    if is_running s.launcher && not s.session_stopping
    then output_pcble_stop_session stopped off
    else (off, [])

abbrev pub is_process : ℕ → Option ℕ → Bool
is_process process none = false
is_process process (some current) = current == process

-- The end of a helper, as `launcher_wait_thread` meets it.
unfoldable pub launcher_exited : ℕ → ℕ → Session → Session
launcher_exited now process s =
    let mine = is_process process s.launcher in
    let t : Session = record s {
      launcher = if mine then none else s.launcher;
      session_stopping = false;
    } in
    if s.launch_owned && s.reconnect_active && not s.wake_suspended
    then record t {
      launch_owned = false;
      reconnect_requested = true;
      reconnect_active = true;
      not_before = later now 1000;
    }
    else record t {
      launch_owned = false;
      reconnect_active = if s.reconnect_requested then s.reconnect_active else false;
    }
