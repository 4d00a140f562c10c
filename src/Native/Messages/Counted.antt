-- ===== src/Native/Messages/Counted.antt =====
-- `handle_messages` keeps the numbers of watchers, codec changes included.
use capture2cloud.Base.{
  ℕ, ◌+◌, List, false, ◌≡◌, refl, ap, ◌∙◌, if_cases, if_holds, length, drop, arith,
}
use capture2cloud.Native.{SsClient, SwitchStream, client, client_slot}
use capture2cloud.Native.Table.{put}
use capture2cloud.Native.Table.Counts.{
  watches, IsCounted, recount-IsCounted, put-IsCounted, same_clients-IsCounted,
}
use capture2cloud.Native.Messages.{buffer, on_message, handle_one}
use capture2cloud.Native.Messages.Cases.{on_message_cases}
use capture2cloud.Native.Messages.Retuned.{consumed, on_message-IsTame}

-- A message after which nothing is counted again has changed no client.
on_message_uncounted :
    (now : ℕ) (s : SwitchStream) (i type : ℕ) (payload : List ℕ)
    → (on_message now s i type payload).0 ≡ false
    → (on_message now s i type payload).1.clients ≡ s.clients
on_message_uncounted now s i =
    on_message_cases (λ r. r.0 ≡ false → r.1.clients ≡ s.clients) s i (λ _ _ _ _. refl)
      (λ _ _. refl) (λ _ e. ground arith) (λ _ e. ground arith) (λ _. refl) now

watches_rx :
    (k : ℕ) (c : SsClient) (rx ws_rx : List ℕ)
    → watches k (record c { rx = rx; ws_rx = ws_rx }) ≡ watches k c
unfolding client_slot
watches_rx k c rx ws_rx = refl

watches-consumed : (n k : ℕ) (c : SsClient) → watches k (consumed n c) ≡ watches k c
watches-consumed n k c =
    if_holds (λ (d : SsClient). watches k d ≡ watches k c)
      {a = record c { ws_rx = drop n (buffer c) }} {b = record c { rx = drop n (buffer c) }} c.is_ws
      (watches_rx k c c.rx (drop n (buffer c))) (watches_rx k c (drop n (buffer c)) c.ws_rx)

pub handle_one-IsCounted :
    (now : ℕ) (s : SwitchStream) (i type : ℕ) (payload : List ℕ)
    → IsCounted s
    → IsCounted (handle_one now s i type payload).0
unfolding handle_one
handle_one-IsCounted now s i type payload h =
    let r = on_message now s i type payload in
    let tame = on_message-IsTame now s i type payload in
    let next = put r.1 i (consumed (8 + length payload) (client r.1 i)) in
    if_cases IsCounted r.0 (λ _. recount-IsCounted next (ap length tame.counted ∙ h.streams))
      (λ e.
        put-IsCounted r.1 i (consumed (8 + length payload) (client r.1 i))
          (λ k. watches-consumed (8 + length payload) k (client r.1 i))
          (same_clients-IsCounted s r.1 tame.counted (on_message_uncounted now s i type payload e)
            h))
