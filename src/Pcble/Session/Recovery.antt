-- ===== src/Pcble/Session/Recovery.antt =====
-- `output_pcble_service` of server/output_pcble.c: the recovery of a lost link.
pub mod Budget
pub mod Withdrawn
use capture2cloud.Base.{
  ℕ, ◌+◌, ◌-◌, ◌≤◌, ◌<◌, List, [], ◌∷◌, ◌++◌, Bool, true, false, not, ◌&&◌, ◌||◌, ◌≡◌, refl, ◌==◌,
  leb, ltb, if◌then◌else◌, if_holds, if_cases, Bool-cases, inl, inr, Option, none, some, length,
  arith,
}
use capture2cloud.Pcble.Session.{
  Session, Act, request_stop, terminate, launch, later, is_before, is_running,
  output_pcble_stop_session,
}
use capture2cloud.Pcble.Session.Launch.{
  Host, Saved, Reconnected, ReconnectRefusal, output_pcble_start_saved_reconnect,
}

-- The recovery is over without a link.
abbrev pub given_up : Session → Session
given_up s = record s {
  reconnect_requested = false;
  reconnect_active = false;
  launch_owned = false;
  attempt = 0;
}

-- After a launch was tried.
unfoldable pub serviced : ℕ → Reconnected → Session × List Act
serviced now (none, s, acts) = (record s { reconnect_requested = false }, acts)
serviced now (some error, s, acts) =
    if ltb s.attempt 3
    then (record s { launch_owned = false; not_before = later now 1000 }, acts)
    else (given_up s, acts)

-- `stopped` says whether a helper that is asked to stop answers.
unfoldable pub output_pcble_service :
    (List ℕ → Option (List ℕ)) → Host → Saved → Bool → ℕ → Session → Session × List Act
unfolding serviced output_pcble_stop_session
output_pcble_service resolve h c stopped now s =
    let stop = output_pcble_stop_session stopped s in
    let tried : Session = record s { attempt = s.attempt + 1; launch_owned = true } in
    if not s.reconnect_requested
    then (s, [])
    else if is_running s.launcher
    then if s.session_stopping
      then (s, [])
      else (record stop.0 { not_before = later now 1000 }, stop.1)
    else if is_before now s.not_before
    then (s, [])
    else if leb 3 s.attempt
    then (given_up s, [])
    else serviced now (output_pcble_start_saved_reconnect resolve h c tried)
