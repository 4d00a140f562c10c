-- ===== src/Native/Broadcast/Sound.antt =====
-- A broadcast keeps the table's invariant.
use capture2cloud.Base.{
  ℕ, zero, suc, ◌+◌, max, List, ◌++◌, Bool, true, false, not, ◌&&◌, ◌==◌, ltb, ◌≡◌, refl, if_holds,
  Option, none, some, length,
}
use capture2cloud.Wire.{msg_audio, msg_video, c2s_max_payload}
use capture2cloud.Native.{SsClient, SwitchStream, client, Event, max_clients}
use capture2cloud.Native.Socket.{flush_pending, on_wire, unsent}
use capture2cloud.Native.Socket.Stream.{flush_pending_holds}
use capture2cloud.Native.Sound.{
  IsSound, Follows, Follows-refl, Follows-bytes, put-IsSound, same-IsSound, drop_client-IsSound,
}
use capture2cloud.Native.Broadcast.{
  Message, Host, Allowance, allowance, Delivery, keeps, skips, drops, skipped, sent, enqueue,
  behind_pending, offer, flushed_first, deliver, addressed, settle, broadcast_from, note_frame_of,
  note_frame, after_skip, broadcast_filtered,
}

unfoldable Keeps : SsClient → Delivery → Type 0
Keeps c (keeps d) = Follows c d
Keeps c (skips d) = Follows c d
Keeps c drops = Unit

keeps-Keeps : (c d : SsClient) → Follows c d → Keeps c (keeps d)
unfolding Keeps
keeps-Keeps c d f = f

drops-Keeps : (c : SsClient) → Keeps c drops
unfolding Keeps
drops-Keeps c = tt

skipped-Keeps : (m : Message) (c d : SsClient) → Follows c d → Keeps c (skipped m d)
unfolding Keeps skipped
skipped-Keeps m c d f = Follows-bytes c d d.fd d.pending d.pending_sent d.pending_cap _ f

sent-Keeps : (m : Message) (c : SsClient) (p : Bool × SsClient) → Follows c p.1 → Keeps c (sent m p)
unfolding Keeps sent
sent-Keeps m c (true, d) f = Follows-bytes c d d.fd d.pending d.pending_sent d.pending_cap _ f
sent-Keeps m c (false, d) f = tt

flush_pending-Follows : (c d : SsClient) → Follows c d → Follows c (flush_pending d).1
flush_pending-Follows c d f =
    flush_pending_holds (Follows c) d
      λ fd pending sent. Follows-bytes c d fd pending sent d.pending_cap d.waiting_keyframe f

enqueue-Keeps :
    (room : Bool) (m : Message) (c d : SsClient) → Follows c d → Keeps c (enqueue room m d)
unfolding enqueue
enqueue-Keeps room m c d f =
    let frame = on_wire d.is_ws m.type m.flags m.data_bytes in
    let q : SsClient = record d {
      pending = d.pending ++ frame;
      pending_sent = 0;
      pending_cap = max d.pending_cap (length d.pending + length frame);
    } in
    if_holds (Keeps c) _ (drops-Keeps c) (
      if_holds (Keeps c) _ (keeps-Keeps c d f) (
        sent-Keeps m c (flush_pending q) (
          flush_pending-Follows c q
            (Follows-bytes c d d.fd (d.pending ++ frame) 0 _ d.waiting_keyframe f))))

behind_pending-Keeps :
    (room : Bool) (m : Message) (c d : SsClient) → Follows c d → Keeps c (behind_pending room m d)
unfolding behind_pending
behind_pending-Keeps room m c d f =
    if_holds (Keeps c) (length d.pending == 0) (enqueue-Keeps room m c d f) (
      if_holds (Keeps c) (not (m.type == msg_audio)) (skipped-Keeps m c d f) (
        enqueue-Keeps room m c (record d { pending = unsent d; pending_sent = 0 })
          (Follows-bytes c d d.fd (unsent d) 0 d.pending_cap d.waiting_keyframe f)))

skips-Keeps : (c d : SsClient) → Follows c d → Keeps c (skips d)
unfolding Keeps
skips-Keeps c d f = f

offer-Keeps :
    (queued : Option ℕ) (room : Bool) (a : Allowance) (m : Message) (c d : SsClient)
    → Follows c d
    → Keeps c (offer queued room a m d)
unfolding offer
offer-Keeps queued room a m c d f =
    if_holds (Keeps c) _ (skips-Keeps c d f)
      (if_holds (Keeps c) _ (skipped-Keeps m c d f) (behind_pending-Keeps room m c d f))

flushed_first-Keeps :
    (queued : Option ℕ) (room : Bool) (a : Allowance) (m : Message) (c : SsClient)
    (p : Bool × SsClient)
    → Follows c p.1
    → Keeps c (flushed_first queued room a m p)
unfolding flushed_first
flushed_first-Keeps queued room a m c (true, d) f = offer-Keeps queued room a m c d f
flushed_first-Keeps queued room a m c (false, d) f = drops-Keeps c

deliver-Keeps :
    (queued : Option ℕ) (room : Bool) (a : Allowance) (m : Message) (c : SsClient)
    → Keeps c (deliver queued room a m c)
unfolding deliver
deliver-Keeps queued room a m c =
    if_holds (Keeps c) (not (addressed m c)) (keeps-Keeps c c (Follows-refl c)) (
      flushed_first-Keeps queued room a m c (flush_pending c)
        (flush_pending-Follows c c (Follows-refl c)))

settle-IsSound :
    (s : SwitchStream) (i : ℕ) (d : Delivery)
    → Keeps (client s i) d
    → IsSound s
    → IsSound (settle s i d).1
unfolding settle Keeps
settle-IsSound s i (keeps d) f h = put-IsSound s i d f h
settle-IsSound s i (skips d) f h = put-IsSound s i d f h
settle-IsSound s i drops f h = drop_client-IsSound s i h

broadcast_from-IsSound :
    (h : Host) (a : Allowance) (m : Message) (left i : ℕ) (s : SwitchStream)
    → IsSound s
    → IsSound (broadcast_from h a m left i s).1
unfolding broadcast_from
broadcast_from-IsSound h a m zero i s v = v
broadcast_from-IsSound h a m (suc left) i s v =
    broadcast_from-IsSound h a m left (i + 1) _
      (settle-IsSound s i _ (deliver-Keeps (h.queued i) (h.room i) a m (client s i)) v)

note_frame_of-IsSound :
    (slot : Option ℕ) (m : Message) (s : SwitchStream)
    → IsSound s
    → IsSound (note_frame_of slot m s)
unfolding note_frame_of
note_frame_of-IsSound none m s v = v
note_frame_of-IsSound (some slot) m s v =
    if_holds IsSound (m.type == msg_video) (same-IsSound s _ refl refl v) v

after_skip-IsSound :
    (now : ℕ) (m : Message) (s : SwitchStream) → IsSound s → IsSound (after_skip now m s).0
unfolding after_skip
after_skip-IsSound now m s v =
    same-IsSound s (after_skip now m s).0
      (if_holds (λ (r : SwitchStream × List Event). r.0.clients ≡ s.clients) _ refl refl)
      (if_holds (λ (r : SwitchStream × List Event). r.0.live ≡ s.live) _ refl refl) v

-- A broadcast keeps the table's invariant.
pub broadcast_filtered-IsSound :
    (h : Host) (now : ℕ) (m : Message) (s : SwitchStream)
    → IsSound s
    → IsSound (broadcast_filtered h now m s).0
unfolding broadcast_filtered note_frame
broadcast_filtered-IsSound h now m s v =
    let noted = note_frame_of m.slot m s in
    let round = broadcast_from h (allowance noted.max_frame_bytes) m max_clients 0 noted in
    let here : IsSound round.1 =
      broadcast_from-IsSound h (allowance noted.max_frame_bytes) m max_clients 0 noted
        (note_frame_of-IsSound m.slot m s v) in
    let P : SwitchStream × List Event → Type 0 = λ r. IsSound r.0 in
    if_holds P (ltb c2s_max_payload (length m.data_bytes)) v
      (if_holds P (round.0 && (m.type == msg_video)) (after_skip-IsSound now m round.1 here) here)
