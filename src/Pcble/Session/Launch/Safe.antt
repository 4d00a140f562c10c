-- ===== src/Pcble/Session/Launch/Safe.antt =====
-- `output_pcble_start_session` of server/output_pcble.c, by what its caller sees.
use capture2cloud.Base.{
  ℕ, List, [], ◌∷◌, Bool, true, false, not, ◌≡◌, ◌≢◌, ◌⊎◌, inl, inr, refl, if_cases, if_holds,
  Option, none, some,
}
use capture2cloud.Pcble.Session.{Session, launch, is_running, set_pair_mode}
use capture2cloud.Pcble.Session.Launch.{
  Request, is_pair, reconnects, Refusal, refusal, not_started, arguments, Host, Started, spawned,
  start_checked, output_pcble_start_session,
}
use capture2cloud.Pcble.Session.Launch.Command.{
  not-false, IsSafe, refusal-IsSafe, IsCommand, arguments-IsCommand,
}

-- A session with the helper's process.
pub record Runs (r : Request) (process : ℕ) (t : Started) : Type 0 where
  pub success : t.0 ≡ none
  pub launcher : t.1.launcher ≡ some process
  pub not_stopping : t.1.session_stopping ≡ false
  pub reconnecting : t.1.reconnect_active ≡ reconnects r
  pub mode : t.1.pair_mode ≡ is_pair r

-- The runner is called once. Where no process comes of it, that is the error, and the session is as
-- before.
pub record Launches (h : Host) (r : Request) (s : Session) (t : Started) : Type 0 where
  pub words : List (List ℕ)
  pub command : IsCommand r words
  pub once : t.2 ≡ launch words ∷ []
  pub installed : h.installed ≡ true
  pub alone : s.launcher ≡ none
  pub result :
      ((h.spawn ≡ none) × (t.0 ≡ some not_started) × (t.1 ≡ s))
      ⊎ ((process : ℕ) × (h.spawn ≡ some process) × Runs r process t)

paired-Runs :
    (r : Request) (process : ℕ) (s : Session)
    → s.launcher ≡ some process
    → s.session_stopping ≡ false
    → s.reconnect_active ≡ reconnects r
    → Runs r process (none, set_pair_mode (is_pair r) s, launch (arguments r) ∷ [])
unfolding set_pair_mode
paired-Runs r process s e f g =
    if_holds (λ (t : Session). Runs r process (none, t, launch (arguments r) ∷ [])) s.initialized
      (record { success = refl; launcher = e; not_stopping = f; reconnecting = g; mode = refl })
      (record { success = refl; launcher = e; not_stopping = f; reconnecting = g; mode = refl })

not_running : (o : Option ℕ) → is_running o ≡ false → o ≡ none
not_running none e = refl
not_running (some process) e = cc

not-true : (b : Bool) → not b ≡ true → b ≡ false
not-true true e = cc
not-true false e = refl

running : (o : Option ℕ) → is_running o ≡ true → o ≢ none
running none e n = cc
running (some process) e n = cc

spawned-Launches :
    (o : Option ℕ) (h : Host) (r : Request) (s : Session)
    → h.spawn ≡ o
    → IsSafe r
    → h.installed ≡ true
    → s.launcher ≡ none
    → Launches h r s (spawned r o s)
unfolding spawned
spawned-Launches none h r s e safe there alone = record {
  words = arguments r;
  command = arguments-IsCommand r safe;
  once = refl;
  installed = there;
  alone = alone;
  result = inl (e, refl, refl);
}
spawned-Launches (some process) h r s e safe there alone = record {
  words = arguments r;
  command = arguments-IsCommand r safe;
  once = refl;
  installed = there;
  alone = alone;
  result = inr (process, e, paired-Runs r process _ refl refl refl);
}

-- A call that runs nothing.
pub record Refuses (h : Host) (r : Request) (s : Session) (t : Started) : Type 0 where
  pub nothing : t.2 ≡ []
  pub same : t.1 ≡ s
  pub error : t.0 ≢ none
  pub reason : (refusal r ≢ none) ⊎ ((h.installed ≡ false) ⊎ (s.launcher ≢ none))

checked-cases :
    (o : Option Refusal) (h : Host) (r : Request) (s : Session)
    → refusal r ≡ o
    → let t = start_checked o h r s in Refuses h r s t ⊎ Launches h r s t
unfolding start_checked
checked-cases (some error) h r s e =
    inl (record { nothing = refl; same = refl; error = λ n. cc; reason = inl (λ n. cc) })
checked-cases none h r s e =
    let P : Started → Type 0 = λ t. Refuses h r s t ⊎ Launches h r s t in
    if_cases P (not h.installed)
      (λ missing. inl (record {
        nothing = refl;
        same = refl;
        error = λ n. cc;
        reason = inr (inl (not-true h.installed missing));
      }))
      (λ there.
        if_cases P (is_running s.launcher)
          (λ busy. inl (record {
            nothing = refl;
            same = refl;
            error = λ n. cc;
            reason = inr (inr (running s.launcher busy));
          }))
          (λ alone. inr (
            spawned-Launches h.spawn h r s refl (refusal-IsSafe r e) (not-false h.installed there)
              (not_running s.launcher alone))))

-- A call either fails and leaves all as it is, with nothing run, since a test of the request fails,
-- the runner is missing or a helper is running; or it calls the installed runner once, where no
-- helper was running. Then the command line has the words of the request alone: an
-- adapter spelled hci and a number; of a Pro Controller four colours of six hexadecimal digits, of
-- a pair another such adapter; and an address, if there is one, that is a MAC address. If a process
-- comes of it, it is the session's, and the call is a success; otherwise it is an error, and the
-- session is as before.
pub output_pcble_start_session-cases :
    (h : Host) (r : Request) (s : Session)
    → let t = output_pcble_start_session h r s in Refuses h r s t ⊎ Launches h r s t
unfolding output_pcble_start_session
output_pcble_start_session-cases h r s = checked-cases (refusal r) h r s refl
