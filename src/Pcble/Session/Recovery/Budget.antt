-- ===== src/Pcble/Session/Recovery/Budget.antt =====
-- A recovery of server/output_pcble.c runs at most three helpers, and none during a wake.
use capture2cloud.Base.{
  ℕ, suc, ◌+◌, ◌-◌, ◌≤◌, ◌<◌, List, [], ◌∷◌, Bool, true, false, not, ◌&&◌, ◌||◌, ◌≡◌, refl, ◌∙◌,
  leb, ltb, if◌then◌else◌, if_holds, if_cases, Option, none, some, codes, arith,
}
use capture2cloud.Controller.{ControllerState}
use capture2cloud.Pcble.Session.{
  Session, Act, request_stop, terminate, launch, later, is_before, is_running, terminated,
  set_pair_mode, output_pcble_update, output_pcble_press_home, output_pcble_press_capture,
  output_pcble_stop_session, output_pcble_clear_reconnect_request, output_pcble_suspend_for_wake,
  launcher_exited,
}
use capture2cloud.Pcble.Session.Launch.{
  same_text, valid_mac, Request, Refusal, refusal, arguments, Host, Saved, Started, spawned,
  start_checked, output_pcble_start_session, reconnect_request, Reconnected, reconnected,
  reconnect_on, output_pcble_start_saved_reconnect,
}
use capture2cloud.Pcble.Session.Worker.{Reply, worker_begin, worker_done}
use capture2cloud.Pcble.Session.Recovery.{given_up, serviced, output_pcble_service}

-- The launches among the acts.
pub launches : List Act → ℕ
launches [] = 0
launches (launch arguments ∷ acts) = suc (launches acts)
launches (request_stop pair ∷ acts) = launches acts
launches (terminate process ∷ acts) = launches acts

-- How many helpers the recovery may still run: up to three, where one is asked for, or one that it
-- ran is waited for.
pub budget : Session → ℕ
budget s =
    if s.reconnect_requested || (s.launch_owned && s.reconnect_active) then 3 - s.attempt else 0

abbrev Tried : Session → List Act → Session → Type 0
Tried s acts t = (launches acts ≤ 1) × (t.attempt ≡ s.attempt)

paired_attempt : (pair : Bool) (s : Session) → (set_pair_mode pair s).attempt ≡ s.attempt
unfolding set_pair_mode
paired_attempt pair s = if_holds (λ (t : Session). t.attempt ≡ s.attempt) s.initialized refl refl

spawned-Tried :
    (r : Request) (o : Option ℕ) (s : Session) → let t = spawned r o s in Tried s t.2 t.1
unfolding spawned launches
spawned-Tried r none s = (omega arith, refl)
spawned-Tried r (some process) s = (omega arith, paired_attempt _ _)

checked-Tried :
    (o : Option Refusal) (h : Host) (r : Request) (s : Session)
    → let t = start_checked o h r s in Tried s t.2 t.1
unfolding start_checked launches
checked-Tried (some error) h r s = (omega arith, refl)
checked-Tried none h r s =
    let P : Started → Type 0 = λ t. Tried s t.2 t.1 in
    if_holds P (not h.installed) (omega arith, refl)
      (if_holds P (is_running s.launcher) (omega arith, refl) (spawned-Tried r h.spawn s))

reconnected-Tried :
    (t : Started) (s : Session) → Tried s t.2 t.1 → let r = reconnected t in Tried s r.2 r.1
reconnected-Tried (some error, t, acts) s h = h
reconnected-Tried (none, t, acts) s h = h

on-Tried :
    (o : Option (List ℕ)) (h : Host) (c : Saved) (s : Session)
    → let r = reconnect_on o h c s in Tried s r.2 r.1
unfolding reconnect_on output_pcble_start_session launches
on-Tried none h c s = (omega arith, refl)
on-Tried (some hci) h c s =
    let q = reconnect_request c hci in
    reconnected-Tried (start_checked (refusal q) h q s) s (checked-Tried (refusal q) h q s)

reconnect-Tried :
    (resolve : List ℕ → Option (List ℕ)) (h : Host) (c : Saved) (s : Session)
    → let r = output_pcble_start_saved_reconnect resolve h c s in Tried s r.2 r.1
unfolding output_pcble_start_saved_reconnect launches
reconnect-Tried resolve h c s =
    let P : Reconnected → Type 0 = λ r. Tried s r.2 r.1 in
    if_holds P (not (same_text c.controller (codes "pro"))) (omega arith, refl)
      (if_holds P (not (valid_mac c.switch_address)) (omega arith, refl)
        (if_holds P (not (valid_mac c.paired_adapter)) (omega arith, refl)
          (on-Tried (resolve c.paired_adapter) h c s)))

budget-le : (s : Session) → budget s ≤ 3 - s.attempt
unfolding budget
budget-le s =
    if_holds (λ n. n ≤ 3 - s.attempt) {a = 3 - s.attempt} {b = 0}
      (s.reconnect_requested || (s.launch_owned && s.reconnect_active)) (omega arith) (omega arith)

given_up_none : (s : Session) → budget (given_up s) ≡ 0
unfolding budget
given_up_none s = refl

serviced-budget :
    (now a : ℕ) (r : Reconnected)
    → a < 3
    → launches r.2 ≤ 1
    → r.1.attempt ≡ suc a
    → let t = serviced now r in launches t.1 + budget t.0 ≤ 3 - a
unfolding serviced
serviced-budget now a (none, s, acts) lt one e =
    omega (arith, budget-le (record s { reconnect_requested = false }))
serviced-budget now a (some error, s, acts) lt one e =
    if_holds (λ (t : Session × List Act). launches t.1 + budget t.0 ≤ 3 - a) (ltb s.attempt 3)
      (omega (arith, budget-le (record s { launch_owned = false; not_before = later now 1000 })))
      (omega (arith, given_up_none s))

launches-terminated : (stopped : Bool) (o : Option ℕ) → launches (terminated stopped o) ≡ 0
unfolding launches
launches-terminated true o = refl
launches-terminated false none = refl
launches-terminated false (some process) = refl

stop_launches :
    (stopped : Bool) (s : Session) → launches (output_pcble_stop_session stopped s).1 ≡ 0
unfolding output_pcble_stop_session launches
stop_launches stopped s = launches-terminated stopped s.launcher

leb-false : (a b : ℕ) → leb a b ≡ false → b < a
leb-false a b h = ground arith

stopped_budget :
    (stopped : Bool) (at : ℕ) (s : Session)
    → budget (record (output_pcble_stop_session stopped s).0 { not_before = at }) ≡ budget s
unfolding budget output_pcble_stop_session
stopped_budget stopped at s = refl

asked_budget : (b a : Bool) (n : ℕ) → not b ≡ false → (if b || a then n else 0) ≡ n
asked_budget b a n h = ground arith

requested_budget : (s : Session) → not s.reconnect_requested ≡ false → budget s ≡ 3 - s.attempt
unfolding budget
requested_budget s h =
    asked_budget s.reconnect_requested (s.launch_owned && s.reconnect_active) (3 - s.attempt) h

-- Every helper that `output_pcble_service` runs is paid for.
pub service-budget :
    (resolve : List ℕ → Option (List ℕ)) (h : Host) (c : Saved) (stopped : Bool) (now : ℕ)
    (s : Session)
    → let t = output_pcble_service resolve h c stopped now s in launches t.1 + budget t.0 ≤ budget s
unfolding output_pcble_service launches
service-budget resolve h c stopped now s =
    let P : Session × List Act → Type 0 = λ t. launches t.1 + budget t.0 ≤ budget s in
    let stop = output_pcble_stop_session stopped s in
    let tried : Session = record s { attempt = s.attempt + 1; launch_owned = true } in
    let r = output_pcble_start_saved_reconnect resolve h c tried in
    let t = reconnect-Tried resolve h c tried in
    if_cases P (not s.reconnect_requested) (λ _. omega arith)
      (λ asked.
        if_holds P (is_running s.launcher)
          (if_holds P s.session_stopping (omega arith)
            (omega (arith, stop_launches stopped s, stopped_budget stopped (later now 1000) s)))
          (if_holds P (is_before now s.not_before) (omega arith) (
            if_cases P (leb 3 s.attempt) (λ _. omega (arith, given_up_none s))
              (λ few. omega (
                arith,
                requested_budget s asked,
                serviced-budget now s.attempt r (leb-false 3 s.attempt few) t.0 (t.1 ∙ omega arith),
              )))))

-- What happens besides new requests: calls of the service, ends of helpers, rounds of the worker,
-- whatever the helpers reply, and the rest of the file's operations but `output_pcble_reset` and
-- `output_pcble_start_session`. The number is how many helpers are run.
pub data Step (s : Session) : ℕ → Session → Type 0 where
  service :
      (resolve : List ℕ → Option (List ℕ)) (h : Host) (c : Saved) (stopped : Bool) (now : ℕ)
      → Step s
          (launches (output_pcble_service resolve h c stopped now s).1)
          (output_pcble_service resolve h c stopped now s).0
  exit : (now process : ℕ) → Step s 0 (launcher_exited now process s)
  begin : (now : ℕ) → Step s 0 (worker_begin now s).1
  done : (now : ℕ) (r : Reply) → Step s 0 (worker_done now r s)
  update : (state : ControllerState) → Step s 0 (output_pcble_update state s)
  home : (now : ℕ) → Step s 0 (output_pcble_press_home now s)
  capture : (now : ℕ) → Step s 0 (output_pcble_press_capture now s)
  controller : (pair : Bool) → Step s 0 (set_pair_mode pair s)
  stop : (stopped : Bool) → Step s 0 (output_pcble_stop_session stopped s).0
  suspend : (stopped : Bool) → Step s 0 (output_pcble_suspend_for_wake stopped s).0
  clear : Step s 0 (output_pcble_clear_reconnect_request s)

pub data Run (s : Session) : ℕ → Session → Type 0 where
  here : Run s 0 s
  next : {n k : ℕ} {t u : Session} → Run s n t → Step t k u → Run s (n + k) u

abbrev Pays : Session → Session → Type 0
Pays s t = budget t ≤ budget s

exited-Pays : (now process : ℕ) (s : Session) → Pays s (launcher_exited now process s)
unfolding launcher_exited budget
exited-Pays now process s = ground arith

replied-Pays : (now : ℕ) (r : Reply) (s : Session) → Pays s (worker_done now r s)
unfolding worker_done budget
replied-Pays now r s = ground arith

Step-budget : {s t : Session} {n : ℕ} → Step s n t → n + budget t ≤ budget s
unfolding worker_begin output_pcble_update output_pcble_press_home output_pcble_press_capture
    set_pair_mode output_pcble_stop_session output_pcble_suspend_for_wake
    output_pcble_clear_reconnect_request budget
Step-budget {s} (service resolve h c stopped now) = service-budget resolve h c stopped now s
Step-budget {s} (exit now process) = omega (arith, exited-Pays now process s)
Step-budget {s} (begin now) = ground arith
Step-budget {s} (done now r) = omega (arith, replied-Pays now r s)
Step-budget {s} (update state) = ground arith
Step-budget {s} (home now) = ground arith
Step-budget {s} (capture now) = ground arith
Step-budget {s} (controller pair) = ground arith
Step-budget {s} (stop stopped) = ground arith
Step-budget {s} (suspend stopped) = ground arith
Step-budget {s} clear = ground arith

Run-budget : {s t : Session} {n : ℕ} → Run s n t → n + budget t ≤ budget s
Run-budget here = omega arith
Run-budget (next run step) = omega (arith, Run-budget run, Step-budget step)

-- Without a new request, at most three helpers are run, whatever happens: ends of helpers, failed
-- launches, rounds of the worker that find a link or none, console wakes, at any times.
pub Run-launches : {s t : Session} {n : ℕ} → Run s n t → n ≤ 3
Run-launches {s} run = omega (arith, Run-budget run, budget-le s)

suspended_budget :
    (stopped : Bool) (s : Session) → budget (output_pcble_suspend_for_wake stopped s).0 ≡ 0
unfolding output_pcble_suspend_for_wake output_pcble_stop_session budget
suspended_budget stopped s = ground arith

-- Once a console wake has suspended the session, no helper is run until there is a new request,
-- though the helper that is stopped may still report a link, and end, at any time.
pub suspend-launches :
    (stopped : Bool) (s : Session) {t : Session} {n : ℕ}
    → Run (output_pcble_suspend_for_wake stopped s).0 n t
    → n ≡ 0
suspend-launches stopped s run = omega (arith, Run-budget run, suspended_budget stopped s)
