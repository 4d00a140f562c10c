-- ===== src/Native/Messages/Loop.antt =====
-- The loop of `handle_messages` ends, and where it ends no complete message is left.
use capture2cloud.Base.{
  ℕ, zero, suc, ◌+◌, ◌-◌, ◌<◌, List, false, ◌≡◌, refl, ap, ◌∙◌, ◌⊎◌, inl, inr, Bool-cases, if_cases,
  length, length-drop, drop, arith, get_or, get_or-set_self,
}
use capture2cloud.Native.{SsClient, no_client, SwitchStream, client, Event}
use capture2cloud.Native.Table.{put, drop_client}
use capture2cloud.Native.Table.Counts.{drop_client_live, recount-clients}
use capture2cloud.Native.Messages.{
  Parsed, waiting, oversized, message, next_message, buffer, capacity, handle_one, act, handle_from,
  handle_messages,
}
use capture2cloud.Native.Messages.Parse.{next_message_within}
use capture2cloud.Native.Messages.Retuned.{IsRetuned, consumed, handle_one_self, length-handle_one}

-- Nothing is left to do for a client: its slot is free, or it has not sent the rest of a message.
abbrev pub IsIdle : SsClient → Type 0
IsIdle c = (c.in_use ≡ false) ⊎ (next_message (capacity c) (buffer c) ≡ waiting)

buffer-IsRetuned : (c d : SsClient) → IsRetuned c d → buffer d ≡ buffer c
buffer-IsRetuned c d (fd, codec, w, p) = ap buffer p

buffer-consumed : (n : ℕ) (c : SsClient) → buffer (consumed n c) ≡ drop n (buffer c)
buffer-consumed n c = elim (Bool-cases c.is_ws) [ inl e ↦ rw e refl | inr e ↦ rw e refl ]

length-buffer-handle_one :
    (now : ℕ) (s : SwitchStream) (i type : ℕ) (payload : List ℕ)
    → i < length s.clients
    → length (buffer (client (handle_one now s i type payload).0 i))
      ≡ length (buffer (client s i)) - (8 + length payload)
length-buffer-handle_one now s i type payload lt =
    ap length (
      buffer-IsRetuned (consumed (8 + length payload) (client s i)) _
        (handle_one_self now s i type payload lt))
    ∙ ap length (buffer-consumed (8 + length payload) (client s i))
    ∙ length-drop (8 + length payload) (buffer (client s i))

-- A dropped client's slot is free.
pub drop_client-in_use :
    (s : SwitchStream) (i : ℕ)
    → i < length s.clients
    → (client (drop_client s i).0 i).in_use ≡ false
drop_client-in_use s i lt = rw (drop_client_live s i) (
    if_cases (λ (t : SwitchStream). (client t i).in_use ≡ false) (client s i).in_use
      (λ _.
        ap (λ cs. (get_or cs i no_client).in_use) (recount-clients (put s i no_client))
        ∙ ap (λ (c : SsClient). c.in_use) (get_or-set_self s.clients i no_client no_client lt))
      (λ e. e))

act-IsIdle :
    (loop : SwitchStream → SwitchStream × List Event) (now : ℕ) (s : SwitchStream) (i : ℕ)
    (p : Parsed)
    → i < length s.clients
    → next_message (capacity (client s i)) (buffer (client s i)) ≡ p
    → ((type : ℕ) (payload : List ℕ)
        → next_message (capacity (client s i)) (buffer (client s i)) ≡ message type payload
        → IsIdle (client (loop (handle_one now s i type payload).0).0 i))
    → IsIdle (client (act loop now s i p).0 i)
unfolding act
act-IsIdle loop now s i waiting lt e h = inr e
act-IsIdle loop now s i oversized lt e h = inl (drop_client-in_use s i lt)
act-IsIdle loop now s i (message type payload) lt e h = h type payload e

-- With more fuel than there are bytes the loop ends by itself.
handle_from-IsIdle :
    (fuel now : ℕ) (s : SwitchStream) (i : ℕ)
    → i < length s.clients
    → length (buffer (client s i)) < fuel
    → IsIdle (client (handle_from fuel now s i).0 i)
unfolding handle_from
handle_from-IsIdle zero now s i lt h = absurd (omega arith)
handle_from-IsIdle (suc fuel) now s i lt h =
    act-IsIdle _ now s i (next_message (capacity (client s i)) (buffer (client s i))) lt refl
      (λ type payload e.
        handle_from-IsIdle fuel now (handle_one now s i type payload).0 i
          (omega (arith, length-handle_one now s i type payload))
          (omega (
            arith,
            length-buffer-handle_one now s i type payload lt,
            next_message_within (capacity (client s i)) type (buffer (client s i)) payload e,
          )))

-- `handle_messages` ends, and where it ends the client is gone or its next message is incomplete.
pub handle_messages-IsIdle :
    (now : ℕ) (s : SwitchStream) (i : ℕ)
    → i < length s.clients
    → IsIdle (client (handle_messages now s i).0 i)
unfolding handle_messages
handle_messages-IsIdle now s i lt = handle_from-IsIdle _ now s i lt (omega arith)
