-- ===== src/Pcble/Session/Recovery/Withdrawn.antt =====
-- A request to recover that server/output_pcble.c forgets: the worker's report of the link that is
-- being taken down withdraws it.
use capture2cloud.Base.{
  ℕ, List, [], Bool, true, false, not, ◌&&◌, ◌≡◌, refl, ap, ◌∙◌, if◌then◌else◌, if_holds, if_cases,
  Option, none, some, arith,
}
use capture2cloud.Pcble.Session.{
  Session, Act, is_running, is_process, output_pcble_reset, output_pcble_stop_session,
  launcher_exited,
}
use capture2cloud.Pcble.Session.Launch.{Host, Saved}
use capture2cloud.Pcble.Session.Worker.{Reply, worker_done}
use capture2cloud.Pcble.Session.Recovery.{output_pcble_service}

exit_requested :
    (now process : ℕ) (s : Session)
    → s.launch_owned ≡ false
    → s.reconnect_requested ≡ false
    → (launcher_exited now process s).reconnect_requested ≡ false
unfolding launcher_exited
exit_requested now process s a b = ground arith

is_process_self : (process : ℕ) → is_process process (some process) ≡ true
is_process_self process = ground arith

exit_launcher :
    (now process : ℕ) (s : Session)
    → s.launcher ≡ some process
    → (launcher_exited now process s).launcher ≡ none
unfolding launcher_exited
exit_launcher now process s e =
    let mine : is_process process s.launcher ≡ true =
      ap (is_process process) e ∙ is_process_self process in
    if_holds (λ (t : Session). t.launcher ≡ none)
      (s.launch_owned && s.reconnect_active && not s.wake_suspended)
      (ap (λ b. if b then none else s.launcher) mine)
      (ap (λ b. if b then none else s.launcher) mine)

idle_service :
    (resolve : List ℕ → Option (List ℕ)) (h : Host) (c : Saved) (stopped : Bool) (now : ℕ)
    (s : Session)
    → s.reconnect_requested ≡ false
    → output_pcble_service resolve h c stopped now s ≡ (s, [])
unfolding output_pcble_service
idle_service resolve h c stopped now s e =
    if_cases (λ (t : Session × List Act). t ≡ (s, [])) (not s.reconnect_requested) (λ _. refl)
      (λ asked. cc)

-- The service stops the helper that runs.
stopping_service :
    (resolve : List ℕ → Option (List ℕ)) (h : Host) (c : Saved) (stopped : Bool) (now : ℕ)
    (s : Session) (process : ℕ)
    → s.reconnect_requested ≡ true
    → s.launcher ≡ some process
    → s.session_stopping ≡ false
    → let t = output_pcble_service resolve h c stopped now s in
      (t.1 ≡ (output_pcble_stop_session stopped s).1) × (t.0.launcher ≡ some process)
unfolding output_pcble_service output_pcble_stop_session
stopping_service resolve h c stopped now s process asked there free =
    let P : Session × List Act → Type 0 =
      λ t. (t.1 ≡ (output_pcble_stop_session stopped s).1) × (t.0.launcher ≡ some process) in
    let runs : is_running s.launcher ≡ true = ap is_running there in
    if_cases P (not s.reconnect_requested) (λ no_request. absurd (cc))
      (λ _.
        if_cases P (is_running s.launcher)
          (λ _. if_cases P s.session_stopping (λ e. absurd (cc)) (λ _. (refl, there)))
          (λ e. absurd (cc)))

-- A request to recover that comes while a helper runs has the service stop that helper. If the
-- worker then still reports the link as up, the request is forgotten: once the helper has ended,
-- the service runs no other, at any time.
pub recovery_withdrawn :
    (resolve : List ℕ → Option (List ℕ)) (h : Host) (c : Saved) (stopped stopped' : Bool)
    (t0 t1 t2 t3 t4 process : ℕ) (r : Reply) (s : Session)
    → s.launcher ≡ some process
    → s.session_stopping ≡ false
    → (r.accepted && r.initialized) ≡ true
    → let asked = output_pcble_reset t0 s in
      let stops = output_pcble_service resolve h c stopped t1 asked in
      let ended = launcher_exited t3 process (worker_done t2 r stops.0) in
      (stops.1 ≡ (output_pcble_stop_session stopped asked).1)
      × (ended.launcher ≡ none)
      × (output_pcble_service resolve h c stopped' t4 ended ≡ (ended, []))
unfolding output_pcble_reset worker_done
recovery_withdrawn resolve h c stopped stopped' t0 t1 t2 t3 t4 process r s there free up =
    let asked = output_pcble_reset t0 s in
    let stops = output_pcble_service resolve h c stopped t1 asked in
    let told = worker_done t2 r stops.0 in
    let q = stopping_service resolve h c stopped t1 asked process refl there free in
    (
      q.0,
      exit_launcher t3 process told q.1,
      idle_service resolve h c stopped' t4 (launcher_exited t3 process told) (
          exit_requested t3 process told (ap (λ b. if b then false else stops.0.launch_owned) up)
            (ap (λ b. if b then false else stops.0.reconnect_requested) up)),
    )
