-- ===== src/Pcble/Session/Tests.antt =====
-- The session of server/output_pcble.c at concrete requests, replies and times.
use capture2cloud.Base.{
  ℕ, ◌+◌, ◌≤◌, List, [], true, false, ◌≡◌, ◌⊎◌, refl, Option, none, some, replicate, codes, pos,
}
use capture2cloud.Pcble.Session.{
  Session, Act, output_pcble_reset, output_pcble_stop_session, output_pcble_suspend_for_wake,
  launcher_exited,
}
use capture2cloud.Pcble.Session.Launch.{Request, Host, Saved, output_pcble_start_session}
use capture2cloud.Pcble.Session.Launch.Safe.{Refuses, Launches, output_pcble_start_session-cases}
use capture2cloud.Pcble.Session.Worker.{Reply, worker_done}
use capture2cloud.Pcble.Session.Recovery.{output_pcble_service}
use capture2cloud.Pcble.Session.Recovery.Budget.{
  launches, service, exit, done, here, next, Run-launches, suspend-launches,
}
use capture2cloud.Pcble.Session.Recovery.Withdrawn.{recovery_withdrawn}

abbrev session : Session
session = record {
  initialized = true;
  running = true;
  dirty = false;
  pair_mode = false;
  ipc_up = true;
  link_up = true;
  state = replicate 21 (pos 0);
  home_until = 0;
  capture_until = 0;
  last_attempt = 900;
  last_send = 900;
  peer = [];
  launcher = some 41;
  session_stopping = false;
  reconnect_requested = false;
  reconnect_active = false;
  wake_suspended = false;
  launch_owned = false;
  not_before = 0;
  attempt = 0;
}

abbrev address : List ℕ
address = codes "98:B6:E9:00:11:22"

abbrev request : Request
request = record {
  primary = codes "hci0";
  secondary = [];
  profile = codes "pro";
  reconnect = address;
  body = codes "828282";
  buttons = codes "0F0F0F";
  left_grip = codes "828282";
  right_grip = codes "828282";
  verbose = false;
}

abbrev installed : Host
installed = record { installed = true; spawn = some 42 }

output_pcble_start_session-cases_example :
    let s : Session = record session { launcher = none } in
    let t = output_pcble_start_session installed request s in
    Refuses installed request s t ⊎ Launches installed request s t
output_pcble_start_session-cases_example =
    output_pcble_start_session-cases installed request (record session { launcher = none })

abbrev saved : Saved
saved = record {
  controller = codes "pro";
  switch_address = address;
  paired_adapter = address;
  body_color = codes "828282";
  button_color = codes "0F0F0F";
  left_grip_color = codes "828282";
  right_grip_color = codes "828282";
  is_verbose = false;
}

abbrev resolve : List ℕ → Option (List ℕ)
resolve paired = some (codes "hci0")

-- A recovery that is asked for at 1000, with no helper running.
abbrev asked : Session
asked = output_pcble_reset 1000 (record session { launcher = none })

abbrev after_launch : Session × List Act
after_launch = output_pcble_service resolve installed saved true 1000 asked

Run-launches_example :
    0
      + launches after_launch.1
      + 0
      + launches
          (output_pcble_service resolve installed saved true 3000
            (launcher_exited 1500 42 after_launch.0)).1
    ≤ 3
Run-launches_example = Run-launches {s = asked} (
    next (next (next here (service resolve installed saved true 1000)) (exit 1500 42))
      (service resolve installed saved true 3000))

abbrev linked : Reply
linked = record { accepted = true; initialized = true; peer = address }

-- The helper that is stopped reports a link once more, and ends.
suspend-launches_example :
    let off = (output_pcble_suspend_for_wake true session).0 in
    let ended = launcher_exited 1500 41 (worker_done 1010 linked off) in
    0 + 0 + 0 + launches (output_pcble_service resolve installed saved true 3000 ended).1 ≡ 0
suspend-launches_example = suspend-launches true session (
    next (next (next here (done 1010 linked)) (exit 1500 41))
      (service resolve installed saved true 3000))

recovery_withdrawn_example :
    let stops =
      output_pcble_service resolve installed saved true 1001 (output_pcble_reset 1000 session) in
    let ended = launcher_exited 1500 41 (worker_done 1010 linked stops.0) in
    (stops.1 ≡ (output_pcble_stop_session true (output_pcble_reset 1000 session)).1)
    × (ended.launcher ≡ none)
    × (output_pcble_service resolve installed saved true 9000 ended ≡ (ended, []))
recovery_withdrawn_example =
    recovery_withdrawn resolve installed saved true true 1000 1001 1010 1500 9000 41 linked session
      refl refl refl
