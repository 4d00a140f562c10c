-- ===== src/HostLink/Video/Drain.antt =====
-- `async_drain_rx` in wiiu_console/src/net.c handles the server's messages in order, up to the one
-- that changes the picture's shape.
pub mod Shape
use capture2cloud.Base.{
  ℕ, suc, ◌+◌, ◌≤◌, ◌<◌, List, [], ◌∷◌, ◌++◌, Bool, true, false, ◌≡◌, refl, sym, ap, ◌∙◌, ◌==◌,
  if_holds, All, length, take, none, arith,
}
use mathlib.Core.List.{append_assoc, append-nil}
use native.Mathlib.Nat.{zero-add, suc-add}
use capture2cloud.Wire.{msg_video, msg_stream_info, c2s_max_payload}
use capture2cloud.Native.Messages.Parse.{framed}
use capture2cloud.HostLink.{Rx, contents}
use capture2cloud.HostLink.Buffer.Stream.{IsWithin}
use capture2cloud.HostLink.Frames.{nothing, frame, take_frame_direct}
use capture2cloud.HostLink.Frames.Whole.{take_frame_direct-framed, take_frame_direct-take-framed}
use capture2cloud.HostLink.Events.{AsyncEvent, AsyncState, async_queue_event}
use capture2cloud.HostLink.Events.Ring.{IsRing, waiting_events, enqueue, async_queue_event-enqueue}
use capture2cloud.HostLink.Video.{
  VideoAct, drained, boundary, Handled, handled, Drained, async_drain_rx, paused_for,
}

-- A message as the server sends it.
abbrev sent : AsyncEvent → List ℕ
sent m = framed m.type m.flags m.payload

abbrev pub all_sent : List AsyncEvent → List ℕ
all_sent [] = []
all_sent (m ∷ ms) = sent m ++ all_sent ms

-- A message of another type than 0 and than that of a new shape.
pub record IsPlain (m : AsyncEvent) : Type 0 where
  pub some_type : (m.type == 0) ≡ false
  pub same_shape : (m.type == msg_stream_info) ≡ false
  pub small : length m.payload ≤ c2s_max_payload

-- The messages handled one after the other.
pub handle_each : (ℕ → Bool) → List AsyncEvent → AsyncState → AsyncState × List VideoAct
handle_each accepts [] s = (s, [])
handle_each accepts (m ∷ ms) s =
    let h = handled accepts (frame m.type m.flags m.payload) s in
    let rest = handle_each accepts ms h.1 in (rest.0, h.2 ++ rest.1)

plain_goes_on :
    (accepts : ℕ → Bool) (m : AsyncEvent) (s : AsyncState)
    → IsPlain m
    → (handled accepts (frame m.type m.flags m.payload) s).0 ≡ none
unfolding handled
plain_goes_on accepts m s p =
    rw (p.some_type, p.same_shape)
      (if_holds (λ (h : Handled). h.0 ≡ none) (m.type == msg_video) refl refl)

-- A drain that goes on after the messages.
abbrev then_drained : AsyncState × List VideoAct → Drained → Drained
then_drained e r = (r.0, r.1, r.2, e.1 ++ r.3)

regrouped :
    (acts : List VideoAct) (e : AsyncState × List VideoAct) (r : Drained)
    → then_drained (e.0, acts) (then_drained e r) ≡ then_drained (e.0, acts ++ e.1) r
regrouped acts e r =
    ap (λ (t : List VideoAct). (let d : Drained = (r.0, r.1, r.2, t) in d))
      (sym (append_assoc acts e.1 r.3))

module _ (accepts : ℕ → Bool) where
  drain_next :
      (fuel : ℕ) (rx : Rx) (m : AsyncEvent) (s : AsyncState)
      → (take_frame_direct true rx).0 ≡ frame m.type m.flags m.payload
      → IsPlain m
      → let h = handled accepts (frame m.type m.flags m.payload) s in
        async_drain_rx accepts (suc fuel) rx s
        ≡ then_drained (h.1, h.2) (async_drain_rx accepts fuel (take_frame_direct true rx).1 h.1)
  unfolding async_drain_rx
  drain_next fuel rx m s e p = rw (e, plain_goes_on accepts m s p) refl

  drain_part :
      (fuel : ℕ) (rx : Rx) (s : AsyncState)
      → take_frame_direct true rx ≡ (nothing, rx)
      → async_drain_rx accepts (suc fuel) rx s ≡ (drained, rx, s, [])
  unfolding async_drain_rx handled
  drain_part fuel rx s e = rw e refl

  pub drain_info :
      (fuel flags : ℕ) (payload : List ℕ) (rx : Rx) (s : AsyncState)
      → (take_frame_direct true rx).0 ≡ frame msg_stream_info flags payload
      → async_drain_rx accepts (suc fuel) rx s
        ≡ (boundary, (take_frame_direct true rx).1, paused_for flags payload s, [])
  unfolding async_drain_rx handled
  drain_info fuel flags payload rx s e = rw e refl

  pub drain_each :
      (ms : List AsyncEvent) (fuel : ℕ) (rx : Rx) (s : AsyncState) (rest : List ℕ)
      → IsWithin rx
      → contents rx ≡ all_sent ms ++ rest
      → All IsPlain ms
      → (rx' : Rx) × (contents rx' ≡ rest)
        × IsWithin rx'
        × (async_drain_rx accepts (length ms + fuel) rx s
            ≡ then_drained
                (handle_each accepts ms s)
                (async_drain_rx accepts fuel rx' (handle_each accepts ms s).0))
  unfolding handle_each
  drain_each [] fuel rx s rest w e ps = (rx, e, w, rw zero-add refl)
  drain_each (m ∷ ms) fuel rx s rest w e ps =
      let t =
        take_frame_direct-framed rx m.type m.flags m.payload (all_sent ms ++ rest) w
          (e ∙ append_assoc (sent m) (all_sent ms) rest) ps.0.small in
      let h = handled accepts (frame m.type m.flags m.payload) s in
      let r = drain_each ms fuel (take_frame_direct true rx).1 h.1 rest t.2 t.1 ps.1 in
      (
        r.0,
        r.1,
        r.2,
        rw suc-add (
            drain_next (length ms + fuel) rx m s t.0 ps.0
            ∙ ap (then_drained (h.1, h.2)) r.3
            ∙ regrouped h.2 (handle_each accepts ms h.1)
                (async_drain_rx accepts fuel r.0 (handle_each accepts ms h.1).0)),
      )

-- Whole messages that do not change the shape, and a part of one more: all the whole ones are
-- handled in order, and the part is left.
pub async_drain_rx-all_sent :
    (accepts : ℕ → Bool) (ms : List AsyncEvent) (part : AsyncEvent) (n fuel : ℕ) (rx : Rx)
    (s : AsyncState)
    → IsWithin rx
    → contents rx ≡ all_sent ms ++ take n (framed part.type part.flags part.payload)
    → All IsPlain ms
    → length part.payload ≤ c2s_max_payload
    → n < 8 + length part.payload
    → let r = async_drain_rx accepts (length ms + suc fuel) rx s in
      let e = handle_each accepts ms s in
      (r.0 ≡ drained)
      × (contents r.1 ≡ take n (framed part.type part.flags part.payload))
      × (r.2 ≡ e.0)
      × (r.3 ≡ e.1)
async_drain_rx-all_sent accepts ms part n fuel rx s w e ps small lt =
    let r =
      drain_each accepts ms (suc fuel) rx s (take n (framed part.type part.flags part.payload)) w e
        ps in
    let end =
      drain_part accepts fuel r.0 (handle_each accepts ms s).0
        (take_frame_direct-take-framed r.0 part.type part.flags n part.payload r.2 r.1 small lt) in
    rw (r.3, end) (refl, r.1, refl, append-nil (handle_each accepts ms s).1)
