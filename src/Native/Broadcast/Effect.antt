-- ===== src/Native/Broadcast/Effect.antt =====
-- What `broadcast_filtered` does to one client: its stream stays a sequence of whole messages.
use capture2cloud.Base.{
  ℕ, ◌+◌, max, List, [], ◌∷◌, ◌++◌, Bool, true, false, not, ◌&&◌, ◌==◌, ltb, ◌≡◌, refl, sym, ap,
  ◌∙◌, ◌⊎◌, inl, inr, if_holds, if_cases, Bool-cases, Option, length, drop, arith,
}
use mathlib.Core.List.{append_assoc}
use capture2cloud.Wire.{msg_audio}
use capture2cloud.Native.{SsClient}
use capture2cloud.Native.Socket.{flush_pending, on_wire, unsent}
use capture2cloud.Native.Socket.Stream.{stream, flush_pending-stream, flush_pending_holds, drop-nil}
use capture2cloud.Native.Broadcast.{
  Message, Allowance, Delivery, keeps, skips, drops, skipped, sent, enqueue, behind_pending, offer,
  flushed_first, deliver, addressed,
}

abbrev pub frame_of : Message → SsClient → List ℕ
frame_of m c = on_wire c.is_ws m.type m.flags m.data_bytes

-- The whole message stands at the end of the client's stream, or nothing of it, which for a
-- client that goes on unskipped happens only when it is not addressed or memory is out.
unfoldable pub IsWhole : Bool → Message → SsClient → Delivery → Type 0
IsWhole room m c (keeps d) =
    (stream d ≡ stream c ++ frame_of m c)
    ⊎ ((stream d ≡ stream c) × ((addressed m c && room) ≡ false))
IsWhole room m c (skips d) = stream d ≡ stream c
IsWhole room m c drops = Unit

skipped-IsWhole :
    (room : Bool) (m : Message) (c d : SsClient)
    → stream d ≡ stream c
    → IsWhole room m c (skipped m d)
unfolding skipped IsWhole
skipped-IsWhole room m c d e = e

sent-IsWhole :
    (room : Bool) (m : Message) (c : SsClient) (p : Bool × SsClient)
    → stream p.1 ≡ stream c ++ frame_of m c
    → IsWhole room m c (sent m p)
unfolding sent IsWhole
sent-IsWhole room m c (true, d) e = inl e
sent-IsWhole room m c (false, d) e = tt

drops-IsWhole : (room : Bool) (m : Message) (c : SsClient) → IsWhole room m c drops
unfolding IsWhole
drops-IsWhole room m c = tt

keeps-IsWhole :
    (room : Bool) (m : Message) (c d : SsClient)
    → stream d ≡ stream c
    → (addressed m c && room) ≡ false
    → IsWhole room m c (keeps d)
unfolding IsWhole
keeps-IsWhole room m c d e n = inr (e, n)

no_room : (a b room : Bool) → (a && not room) ≡ true → (b && room) ≡ false
no_room a b room e = ground arith

skips-IsWhole :
    (room : Bool) (m : Message) (c d : SsClient) → stream d ≡ stream c → IsWhole room m c (skips d)
unfolding IsWhole
skips-IsWhole room m c d e = e

-- `d` is `c` after some flushing, with all of `pending` still unsent.
enqueue-IsWhole :
    (room : Bool) (m : Message) (c d : SsClient)
    → d.is_ws ≡ c.is_ws
    → d.fd.wire ++ d.pending ≡ stream c
    → stream d ≡ stream c
    → IsWhole room m c (enqueue room m d)
unfolding enqueue
enqueue-IsWhole room m c d w e f =
    let frame = on_wire d.is_ws m.type m.flags m.data_bytes in
    let q : SsClient = record d {
      pending = d.pending ++ frame;
      pending_sent = 0;
      pending_cap = max d.pending_cap (length d.pending + length frame);
    } in
    let said : stream (flush_pending q).1 ≡ stream c ++ frame_of m c =
      flush_pending-stream q
      ∙ sym (append_assoc d.fd.wire d.pending frame)
      ∙ ap (λ t. t ++ frame) e
      ∙ ap (λ b. stream c ++ on_wire b m.type m.flags m.data_bytes) w in
    if_holds (IsWhole room m c) _ (drops-IsWhole room m c) (
      if_cases (IsWhole room m c) (ltb d.pending_cap (length d.pending + length frame) && not room)
        (λ n. keeps-IsWhole room m c d f (no_room _ (addressed m c) room n))
        (λ _. sent-IsWhole room m c (flush_pending q) said))

drop_empty : (n : ℕ) (xs : List ℕ) → (length xs == 0) ≡ true → drop n xs ≡ xs
drop_empty n [] e = drop-nil n
drop_empty n (x ∷ xs) e = ground arith

behind_pending-IsWhole :
    (room : Bool) (m : Message) (c d : SsClient)
    → d.is_ws ≡ c.is_ws
    → stream d ≡ stream c
    → IsWhole room m c (behind_pending room m d)
unfolding behind_pending
behind_pending-IsWhole room m c d w f = elim (Bool-cases (length d.pending == 0)) [
  | inl e ↦ rw e (
      enqueue-IsWhole room m c d w
        (ap (λ t. d.fd.wire ++ t) (sym (drop_empty d.pending_sent d.pending e)) ∙ f) f)
  | inr e ↦ rw e (
      if_holds (IsWhole room m c) (not (m.type == msg_audio)) (skipped-IsWhole room m c d f)
        (enqueue-IsWhole room m c (record d { pending = unsent d; pending_sent = 0 }) w f f))
]

offer-IsWhole :
    (queued : Option ℕ) (room : Bool) (a : Allowance) (m : Message) (c d : SsClient)
    → d.is_ws ≡ c.is_ws
    → stream d ≡ stream c
    → IsWhole room m c (offer queued room a m d)
unfolding offer
offer-IsWhole queued room a m c d w f = if_holds (IsWhole room m c) _ (skips-IsWhole room m c d f) (
    if_holds (IsWhole room m c) _ (skipped-IsWhole room m c d f)
      (behind_pending-IsWhole room m c d w f))

flushed_first-IsWhole :
    (queued : Option ℕ) (room : Bool) (a : Allowance) (m : Message) (c : SsClient)
    (p : Bool × SsClient)
    → p.1.is_ws ≡ c.is_ws
    → stream p.1 ≡ stream c
    → IsWhole room m c (flushed_first queued room a m p)
unfolding flushed_first
flushed_first-IsWhole queued room a m c (true, d) w f = offer-IsWhole queued room a m c d w f
flushed_first-IsWhole queued room a m c (false, d) w f = drops-IsWhole room m c

-- Whatever the kernel answers, a client that stays has got the message whole, behind what it was
-- given before, or none of it; a client for which a frame was skipped has got none of it.
pub deliver-IsWhole :
    (queued : Option ℕ) (room : Bool) (a : Allowance) (m : Message) (c : SsClient)
    → IsWhole room m c (deliver queued room a m c)
unfolding deliver
deliver-IsWhole queued room a m c = elim (Bool-cases (addressed m c)) [
  | inl e ↦ rw e (
      flushed_first-IsWhole queued room a m c (flush_pending c)
        (flush_pending_holds (λ d. d.is_ws ≡ c.is_ws) c (λ fd pending sent. refl))
        (flush_pending-stream c))
  | inr e ↦ rw e (keeps-IsWhole room m c c refl (rw e refl))
]
