-- ===== src/Native/Messages/Sound.antt =====
-- `handle_messages` keeps the table's invariant.
use capture2cloud.Base.{
  ℕ, zero, suc, ◌+◌, List, ◌≡◌, refl, ap, ◌∙◌, if_holds, length, drop, ◌<◌, arith,
}
use mathlib.Core.Path.{subst}
use native.Mathlib.Decide.{ℕ_discrete}
use capture2cloud.Native.{SsClient, SwitchStream, client, Event}
use capture2cloud.Native.Sound.{IsSound, is_browser, count_browsers_same, drop_client-IsSound}
use capture2cloud.Native.Messages.{
  Parsed, waiting, oversized, message, buffer, capacity, next_message, handle_one, act, handle_from,
  handle_messages,
}
use capture2cloud.Native.Messages.Retuned.{
  IsRetuned, consumed, handle_one_self, handle_one_other, length-handle_one,
}
use capture2cloud.Native.Messages.Counted.{handle_one-IsCounted}

browser-IsRetuned : (c d : SsClient) → IsRetuned c d → is_browser d ≡ is_browser c
browser-IsRetuned c d (fd, codec, w, p) = ap is_browser p

browser-consumed : (n : ℕ) (c : SsClient) → is_browser (consumed n c) ≡ is_browser c
browser-consumed n c =
    if_holds (λ (d : SsClient). is_browser d ≡ is_browser c)
      {a = record c { ws_rx = drop n (buffer c) }} {b = record c { rx = drop n (buffer c) }} c.is_ws
      refl refl

handle_one-IsSound :
    (now : ℕ) (s : SwitchStream) (i type : ℕ) (payload : List ℕ)
    → i < length s.clients
    → IsSound s
    → IsSound (handle_one now s i type payload).0
handle_one-IsSound now s i type payload lt h = record {
  eight = length-handle_one now s i type payload ∙ h.eight;
  counted = handle_one-IsCounted now s i type payload h.counted;
  browsers =
      rw
        (count_browsers_same s.clients (handle_one now s i type payload).0.clients
          (length-handle_one now s i type payload) each)
        h.browsers;
}
  where
    each :
        (j : ℕ)
        → is_browser (client (handle_one now s i type payload).0 j) ≡ is_browser (client s j)
    each j = elim (ℕ_discrete i j) [
      | yes e ↦
          subst
            (λ k.
              is_browser (client (handle_one now s i type payload).0 k) ≡ is_browser (client s k))
            e
            (browser-IsRetuned (consumed (8 + length payload) (client s i))
                (client (handle_one now s i type payload).0 i)
                (handle_one_self now s i type payload lt)
              ∙ browser-consumed (8 + length payload) (client s i))
      | no ne ↦
          browser-IsRetuned (client s j) (client (handle_one now s i type payload).0 j)
            (handle_one_other now s i j type payload ne)
    ]

act-IsSound :
    (loop : SwitchStream → SwitchStream × List Event) (now : ℕ) (s : SwitchStream) (i : ℕ)
    (p : Parsed)
    → i < length s.clients
    → ((t : SwitchStream) → i < length t.clients → IsSound t → IsSound (loop t).0)
    → IsSound s
    → IsSound (act loop now s i p).0
unfolding act
act-IsSound loop now s i waiting lt f h = h
act-IsSound loop now s i oversized lt f h = drop_client-IsSound s i h
act-IsSound loop now s i (message type payload) lt f h =
    f _ (omega (arith, length-handle_one now s i type payload))
      (handle_one-IsSound now s i type payload lt h)

handle_from-IsSound :
    (fuel now : ℕ) (s : SwitchStream) (i : ℕ)
    → i < length s.clients
    → IsSound s
    → IsSound (handle_from fuel now s i).0
unfolding handle_from
handle_from-IsSound zero now s i lt h = h
handle_from-IsSound (suc fuel) now s i lt h =
    act-IsSound _ now s i (next_message (capacity (client s i)) (buffer (client s i))) lt
      (λ t. handle_from-IsSound fuel now t i) h

pub handle_messages-IsSound :
    (now : ℕ) (s : SwitchStream) (i : ℕ)
    → i < length s.clients
    → IsSound s
    → IsSound (handle_messages now s i).0
unfolding handle_messages
handle_messages-IsSound now s i = handle_from-IsSound _ now s i
