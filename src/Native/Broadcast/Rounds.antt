-- ===== src/Native/Broadcast/Rounds.antt =====
-- `broadcast_filtered` as a whole: each of the eight clients gets what `deliver` gives it.
use capture2cloud.Base.{
  ℕ, zero, suc, ◌+◌, ◌≤◌, ◌<◌, List, Bool, true, false, ◌&&◌, ◌==◌, ltb, ◌≡◌, ◌≢◌, refl, sym, ap,
  ◌∙◌, inl, inr, if_holds, if_cases, Bool-cases, Option, none, some, get_or, set, length,
  length-set, get_or-set_self, get_or-set_ne, arith,
}
use native.Mathlib.Decide.{dec_lt}
use capture2cloud.Wire.{c2s_max_payload, msg_video}
use capture2cloud.Native.{SsClient, no_client, SwitchStream, client, max_clients, Event}
use capture2cloud.Native.Table.{put, drop_client}
use capture2cloud.Native.Table.Counts.{recount-clients, drop_client_live}
use capture2cloud.Native.Broadcast.{
  Message, Host, Allowance, allowance, Delivery, keeps, skips, drops, deliver, addressed, settle,
  broadcast_from, note_frame_of, note_frame, after_skip, broadcast_filtered,
}
use capture2cloud.Native.Broadcast.Effect.{IsWhole, deliver-IsWhole}

-- The slot after the delivery.
unfoldable pub left_with : Delivery → SsClient
left_with (keeps c) = c
left_with (skips c) = c
left_with drops = no_client

deliver_unused :
    (queued : Option ℕ) (room : Bool) (a : Allowance) (m : Message) (c : SsClient)
    → c.in_use ≡ false
    → deliver queued room a m c ≡ keeps c
unfolding deliver addressed
deliver_unused queued room a m c e = rw e refl

drop_client-client :
    (s : SwitchStream) (i : ℕ)
    → i < length s.clients
    → (client s i).in_use ≡ true
    → (drop_client s i).0.clients ≡ set s.clients i no_client
drop_client-client s i lt e =
    ap (λ (t : SwitchStream). t.clients) (drop_client_live s i)
    ∙ rw e (recount-clients (put s i no_client))

settle-clients :
    (s : SwitchStream) (i : ℕ) (d : Delivery)
    → i < length s.clients
    → (d ≡ drops → (client s i).in_use ≡ true)
    → (settle s i d).1.clients ≡ set s.clients i (left_with d)
unfolding settle left_with
settle-clients s i (keeps c) lt h = refl
settle-clients s i (skips c) lt h = refl
settle-clients s i drops lt h = drop_client-client s i lt (h refl)

drops_in_use :
    (queued : Option ℕ) (room : Bool) (a : Allowance) (m : Message) (c : SsClient)
    → deliver queued room a m c ≡ drops
    → c.in_use ≡ true
drops_in_use queued room a m c e = elim (Bool-cases c.in_use) [
  | inl u ↦ u
  | inr u ↦ ground (arith, deliver_unused queued room a m c u)
]

module _ (h : Host) (a : Allowance) (m : Message) where
  abbrev pub delivered : ℕ → SsClient → Delivery
  delivered i c = deliver (h.queued i) (h.room i) a m c

  step_clients :
      (s : SwitchStream) (i : ℕ)
      → i < length s.clients
      → (settle s i (delivered i (client s i))).1.clients
        ≡ set s.clients i (left_with (delivered i (client s i)))
  step_clients s i lt =
      settle-clients s i (delivered i (client s i)) lt
        (drops_in_use (h.queued i) (h.room i) a m (client s i))

  step_self :
      (s : SwitchStream) (i : ℕ)
      → i < length s.clients
      → client (settle s i (delivered i (client s i))).1 i ≡ left_with (delivered i (client s i))
  step_self s i lt =
      ap (λ cs. get_or cs i no_client) (step_clients s i lt)
      ∙ get_or-set_self s.clients i (left_with (delivered i (client s i))) no_client lt

  step_other :
      (s : SwitchStream) (i j : ℕ)
      → i < length s.clients
      → i ≢ j
      → client (settle s i (delivered i (client s i))).1 j ≡ client s j
  step_other s i j lt ne =
      ap (λ cs. get_or cs j no_client) (step_clients s i lt)
      ∙ get_or-set_ne s.clients i j (left_with (delivered i (client s i))) no_client ne

  length-step :
      (s : SwitchStream) (i : ℕ)
      → i < length s.clients
      → length (settle s i (delivered i (client s i))).1.clients ≡ length s.clients
  length-step s i lt = ap length (step_clients s i lt) ∙ length-set s.clients i _

  -- The rounds for `left` clients from `i` on.
  broadcast_from_before :
      (left i j : ℕ) (s : SwitchStream)
      → i + left ≤ length s.clients
      → j < i
      → client (broadcast_from h a m left i s).1 j ≡ client s j
  unfolding broadcast_from
  broadcast_from_before zero i j s le lt = refl
  broadcast_from_before (suc left) i j s le lt =
      broadcast_from_before left (i + 1) j _ (omega (arith, length-step s i (omega arith)))
        (omega arith)
      ∙ step_other s i j (omega arith) (ground arith)

  broadcast_from_within :
      (left i j : ℕ) (s : SwitchStream)
      → i + left ≤ length s.clients
      → i ≤ j
      → j < i + left
      → client (broadcast_from h a m left i s).1 j ≡ left_with (delivered j (client s j))
  unfolding broadcast_from
  broadcast_from_within zero i j s le ge lt = absurd (omega arith)
  broadcast_from_within (suc left) i j s le ge lt =
      let room : i + 1 + left ≤ length (settle s i (delivered i (client s i))).1.clients =
        omega (arith, length-step s i (omega arith)) in
      elim (dec_lt i j) [
        | yes less ↦
            broadcast_from_within left (i + 1) j _ room (omega arith) (omega arith)
            ∙ ap (λ c. left_with (delivered j c)) (step_other s i j (omega arith) (ground arith))
        | no more ↦
            let same : i ≡ j = omega arith in
            broadcast_from_before left (i + 1) j _ room (omega arith)
            ∙ ap (client (settle s i (delivered i (client s i))).1) (sym same)
            ∙ step_self s i (omega arith)
            ∙ ap (λ n. left_with (delivered n (client s n))) same
      ]

note_frame_of-clients :
    (slot : Option ℕ) (m : Message) (s : SwitchStream)
    → (note_frame_of slot m s).clients ≡ s.clients
unfolding note_frame_of
note_frame_of-clients none m s = refl
note_frame_of-clients (some slot) m s =
    if_holds (λ (t : SwitchStream). t.clients ≡ s.clients) (m.type == msg_video) refl refl

note_frame-clients : (m : Message) (s : SwitchStream) → (note_frame m s).clients ≡ s.clients
unfolding note_frame
note_frame-clients m s = note_frame_of-clients m.slot m s

after_skip-clients :
    (now : ℕ) (m : Message) (s : SwitchStream) → (after_skip now m s).0.clients ≡ s.clients
unfolding after_skip
after_skip-clients now m s =
    if_holds (λ (t : SwitchStream × List Event). t.0.clients ≡ s.clients) _ refl refl

-- What the loop's body makes of client `i` in a broadcast.
abbrev pub outcome : Host → Message → SwitchStream → ℕ → Delivery
outcome h m s i =
    deliver (h.queued i) (h.room i) (allowance (note_frame m s).max_frame_bytes) m (client s i)

-- A broadcast of a message that is not too large leaves each of the eight slots with what the
-- loop's body makes of its client: dropped, or with the whole message behind what the client was
-- given before, or with nothing of it, and that only where a frame is skipped, the client is not
-- addressed or memory is out.
pub broadcast_filtered-IsWhole :
    (h : Host) (now : ℕ) (m : Message) (s : SwitchStream) (i : ℕ)
    → length s.clients ≡ max_clients
    → length m.data_bytes ≤ c2s_max_payload
    → i < max_clients
    → (client (broadcast_filtered h now m s).0 i ≡ left_with (outcome h m s i))
      × IsWhole (h.room i) m (client s i) (outcome h m s i)
unfolding broadcast_filtered
broadcast_filtered-IsWhole h now m s i n size lt =
    let a = allowance (note_frame m s).max_frame_bytes in
    let eight : length (note_frame m s).clients ≡ max_clients =
      ap length (note_frame-clients m s) ∙ n in
    let round = broadcast_from h a m max_clients 0 (note_frame m s) in
    let here : client round.1 i ≡ left_with (outcome h m s i) =
      broadcast_from_within h a m max_clients 0 i (note_frame m s) (omega (arith, eight))
        (omega arith) (omega arith)
      ∙ ap (λ cs. left_with (delivered h a m i (get_or cs i no_client))) (note_frame-clients m s) in
    let P : SwitchStream × List Event → Type 0 = λ r. client r.0 i ≡ left_with (outcome h m s i) in
    (
      if_cases P (ltb c2s_max_payload (length m.data_bytes)) (λ e. absurd (ground arith))
          (λ _.
            if_holds P (round.0 && (m.type == msg_video))
              (ap (λ cs. get_or cs i no_client) (after_skip-clients now m round.1) ∙ here) here),
      deliver-IsWhole (h.queued i) (h.room i) a m (client s i),
    )
