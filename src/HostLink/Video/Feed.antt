-- ===== src/HostLink/Video/Feed.antt =====
-- What the receiver's thread of wiiu_console/src/net.c gives to the decoder.
use capture2cloud.Base.{
  ℕ, zero, suc, List, [], ◌∷◌, ◌++◌, Bool, true, false, ◌≡◌, ◌⊎◌, inl, inr, refl, ◌==◌, if_cases,
  if_holds, Option, none, some, arith,
}
use capture2cloud.Wire.{msg_video, msg_stream_info}
use capture2cloud.HostLink.{Rx}
use capture2cloud.HostLink.Frames.{Taken, nothing, broken, frame, take_frame_direct}
use capture2cloud.HostLink.Events.{AsyncState, async_queue_event}
use capture2cloud.HostLink.Video.{
  VideoAct, request_keyframe, submit, async_handle_video, submitted, Handled, handled,
  async_drain_rx, Drained, DrainEnd, ended_or, is_keyframe, paused_for,
}

-- `ready` says whether the decoder can go on with a frame that is no keyframe: it took the frame
-- before. No other frame is given to it.
pub WellFed : Bool → List VideoAct → Type 0
WellFed ready [] = Unit
WellFed ready (request_keyframe ∷ acts) = WellFed ready acts
WellFed ready (submit key payload taken ∷ acts) =
    ((key ≡ true) ⊎ (ready ≡ true)) × WellFed taken acts

pub last_taken : Bool → List VideoAct → Bool
last_taken ready [] = ready
last_taken ready (request_keyframe ∷ acts) = last_taken ready acts
last_taken ready (submit key payload taken ∷ acts) = last_taken taken acts

-- The receiver counts on the decoder only where that took the last frame.
pub record Feeds (s : AsyncState) (acts : List VideoAct) (s' : AsyncState) : Type 0 where
  pub fed : (ready : Bool) → (s.video_synced ≡ true → ready ≡ true) → WellFed ready acts
  pub after :
      (ready : Bool)
      → (s.video_synced ≡ true → ready ≡ true)
      → s'.video_synced ≡ true
      → last_taken ready acts ≡ true

WellFed-append :
    (ready : Bool) (xs ys : List VideoAct)
    → WellFed ready xs
    → WellFed (last_taken ready xs) ys
    → WellFed ready (xs ++ ys)
unfolding WellFed last_taken
WellFed-append ready [] ys p q = q
WellFed-append ready (request_keyframe ∷ xs) ys p q = WellFed-append ready xs ys p q
WellFed-append ready (submit key payload taken ∷ xs) ys p q =
    (p.0, WellFed-append taken xs ys p.1 q)

last_taken-append :
    (ready : Bool) (xs ys : List VideoAct)
    → last_taken ready (xs ++ ys) ≡ last_taken (last_taken ready xs) ys
unfolding last_taken
last_taken-append ready [] ys = refl
last_taken-append ready (request_keyframe ∷ xs) ys = last_taken-append ready xs ys
last_taken-append ready (submit key payload taken ∷ xs) ys = last_taken-append taken xs ys

pub Feeds-append :
    {s t u : AsyncState} (xs ys : List VideoAct)
    → Feeds s xs t
    → Feeds t ys u
    → Feeds s (xs ++ ys) u
Feeds-append xs ys p q = record {
  fed = λ ready h.
      WellFed-append ready xs ys (p.fed ready h) (q.fed (last_taken ready xs) (p.after ready h));
  after = λ ready h e.
      rw (last_taken-append ready xs ys) (q.after (last_taken ready xs) (p.after ready h) e);
}

-- A step that gives nothing to the decoder, and counts on it no more than before.
pub quiet-Feeds :
    (s s' : AsyncState) → (s'.video_synced ≡ true → s.video_synced ≡ true) → Feeds s [] s'
unfolding WellFed last_taken
quiet-Feeds s s' h = record { fed = λ ready g. tt; after = λ ready g e. g (h e) }

pub request-Feeds :
    (s s' : AsyncState)
    → (s'.video_synced ≡ true → s.video_synced ≡ true)
    → Feeds s (request_keyframe ∷ []) s'
unfolding WellFed last_taken
request-Feeds s s' h = record { fed = λ ready g. tt; after = λ ready g e. g (h e) }

submitted-Feeds :
    (accepted key : Bool) (payload : List ℕ) (s t : AsyncState)
    → (key ≡ true) ⊎ (s.video_synced ≡ true)
    → let r = submitted accepted key payload t in Feeds s r.1 r.0
unfolding WellFed last_taken submitted
submitted-Feeds true key payload s t h = record {
  fed = λ ready g. (elim h [ inl k ↦ inl k | inr e ↦ inr (g e) ], tt);
  after = λ ready g e. refl;
}
submitted-Feeds false key payload s t h = record {
  fed = λ ready g. (elim h [ inl k ↦ inl k | inr e ↦ inr (g e) ], tt);
  after = λ ready g e. cc;
}

async_handle_video-Feeds :
    (accepts : ℕ → Bool) (payload : List ℕ) (flags : ℕ) (s : AsyncState)
    → let r = async_handle_video accepts payload flags s in Feeds s r.1 r.0
unfolding async_handle_video
async_handle_video-Feeds accepts payload flags s =
    let F : AsyncState × List VideoAct → Type 0 = λ r. Feeds s r.1 r.0 in
    if_cases F s.video_paused (λ _. quiet-Feeds s _ (λ e. e))
      (λ _.
        if_cases F s.video_synced (λ on. submitted-Feeds _ (is_keyframe flags) payload s _ (inr on))
          (λ off.
            if_cases F (is_keyframe flags)
              (λ key. submitted-Feeds _ (is_keyframe flags) payload s _ (inl key))
              (λ _.
                if_cases F s.keyframe_requested (λ _. quiet-Feeds s _ (λ e. e))
                  (λ _. request-Feeds s _ (λ e. e)))))

queue_synced :
    (type flags : ℕ) (payload : List ℕ) (s : AsyncState)
    → (async_queue_event type flags payload s).video_synced ≡ s.video_synced
unfolding async_queue_event
queue_synced type flags payload s = ground arith

handled-Feeds :
    (accepts : ℕ → Bool) (t : Taken) (s : AsyncState)
    → let h = handled accepts t s in Feeds s h.2 h.1
unfolding handled
handled-Feeds accepts nothing s = quiet-Feeds s s (λ e. e)
handled-Feeds accepts broken s = quiet-Feeds s s (λ e. e)
handled-Feeds accepts (frame type flags payload) s =
    let F : Handled → Type 0 = λ h. Feeds s h.2 h.1 in
    if_holds F (type == 0) (quiet-Feeds s s (λ e. e)) (
      if_holds F (type == msg_video) (async_handle_video-Feeds accepts payload flags s) (
        if_holds F (type == msg_stream_info)
          (quiet-Feeds s (paused_for flags payload s) (λ e. cc (
            queue_synced msg_stream_info flags payload (record s {
              video_paused = true;
              video_synced = false;
              keyframe_requested = false;
            }))))
          (quiet-Feeds s _ (λ e. cc (queue_synced type flags payload s)))))

ended_or-Feeds :
    (o : Option DrainEnd) (s t : AsyncState) (acts : List VideoAct) (rx : Rx) (rest : Drained)
    → Feeds s acts t
    → Feeds t rest.3 rest.2
    → let r = ended_or o (t, acts) rx rest in Feeds s r.3 r.2
unfolding ended_or
ended_or-Feeds (some end) s t acts rx rest p q = p
ended_or-Feeds none s t acts rx rest p q = Feeds-append acts rest.3 p q

pub async_drain_rx-Feeds :
    (accepts : ℕ → Bool) (fuel : ℕ) (rx : Rx) (s : AsyncState)
    → let r = async_drain_rx accepts fuel rx s in Feeds s r.3 r.2
unfolding async_drain_rx
async_drain_rx-Feeds accepts zero rx s = quiet-Feeds s s (λ e. e)
async_drain_rx-Feeds accepts (suc fuel) rx s =
    let t = take_frame_direct true rx in
    let h = handled accepts t.0 s in
    ended_or-Feeds h.0 s h.1 h.2 t.1 (async_drain_rx accepts fuel t.1 h.1)
      (handled-Feeds accepts t.0 s) (async_drain_rx-Feeds accepts fuel t.1 h.1)
