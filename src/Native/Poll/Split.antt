-- ===== src/Native/Poll/Split.antt =====
-- A browser's message that comes in parts, in server/switch_stream.c: `unwrap_ws` collects them in a
-- buffer that grows to what has arrived, and `handle_messages` takes its size for the limit.
use capture2cloud.Base.{
  ℕ, zero, suc, ◌+◌, ◌-◌, ◌≤◌, ◌<◌, ◌^◌, List, [], ◌∷◌, ◌++◌, Bool, true, false, ◌≡◌, refl, sym, ap,
  ◌∙◌, ltb, ◌==◌, if_cases, if◌then◌else◌, length, take, length-take, get_or, get_or-set_self,
  length-set, arith,
}
use mathlib.Core.List.{append-nil}
use native.Mathlib.Nat.{zero-add}
use capture2cloud.WsFrame.{max_payload, op_binary}
use capture2cloud.WsFrame.Length.{header_size}
use capture2cloud.WsFrame.RoundTrip.{client_frame}
use capture2cloud.Native.{SsClient, no_client, SwitchStream, client, forget, rx_capacity}
use capture2cloud.Native.Table.{put, drop_client, source_native}
use capture2cloud.Native.Table.Counts.{recount-clients}
use capture2cloud.Native.Websocket.{collect, went_on, unwrap_from, unwrap_ws}
use capture2cloud.Native.Websocket.Unwrap.{unwrap_from_step, length-client_frame}
use capture2cloud.Native.Messages.{
  oversized, next_message, capacity, buffer, act, handle_from, handle_messages,
}
use capture2cloud.Native.Messages.Parse.{framed, next_message_outgrown}
use capture2cloud.Native.Poll.{then_messages, unwrapped, receive}

-- A browser that is connected, has sent nothing that waits, and whose buffer holds at most `n`
-- bytes.
pub record IsFresh (n : ℕ) (c : SsClient) : Type 0 where
  pub browser : c.is_ws ≡ true
  pub connected : c.in_use ≡ true
  pub greeted : c.handshake_done ≡ true
  pub nothing_read : c.rx ≡ []
  pub nothing_collected : c.ws_rx ≡ []
  pub small : c.ws_rx_cap ≤ n

-- The first payload is collected in a buffer of just its size.
take_all {ℓ} : {A : Type ℓ} (n : ℕ) (xs : List A) → length xs ≤ n → take n xs ≡ xs
take_all zero [] h = refl
take_all zero (x ∷ xs) h = absurd (omega arith)
take_all (suc n) [] h = refl
take_all (suc n) (x ∷ xs) h = ap (λ t. x ∷ t) (take_all n xs (omega arith))

length_frame :
    (key p : List ℕ)
    → length key ≡ 4
    → length (client_frame op_binary key p) ≡ header_size (length p) + 4 + length p
length_frame key p four =
    ap length (sym (append-nil (client_frame op_binary key p)))
    ∙ length-client_frame key p [] four
    ∙ omega arith

frame_some :
    (key p : List ℕ) → length key ≡ 4 → (length (client_frame op_binary key p) == 0) ≡ false
frame_some key p four = ground (arith, length_frame key p four)

collected_fresh :
    (c : SsClient) (p : List ℕ)
    → c.ws_rx ≡ []
    → c.ws_rx_cap ≤ length p
    → collect true c p ≡ (true, record c { ws_rx = p; ws_rx_cap = length p })
unfolding collect
collected_fresh c p e small =
    rw (e, zero-add)
      (if_cases (λ (r : Bool × SsClient). r ≡ (true, record c { ws_rx = p; ws_rx_cap = length p }))
        (ltb c.ws_rx_cap (length p)) (λ _. refl)
        (λ full.
          let same : c.ws_rx_cap ≡ length p = ground arith in
          ap (λ n. (let r : Bool × SsClient = (true, record c { ws_rx = p; ws_rx_cap = n }) in r))
            same))

unwrap_from-done :
    (fuel : ℕ) (c : SsClient) → unwrap_from (suc fuel) true c [] ≡ (true, record c { rx = [] })
unfolding unwrap_from
unwrap_from-done fuel c = refl

unwrap_ws-first :
    (c : SsClient) (key p : List ℕ)
    → c.rx ≡ client_frame op_binary key p
    → length key ≡ 4
    → length p ≤ max_payload
    → c.ws_rx ≡ []
    → c.ws_rx_cap ≤ length p
    → unwrap_ws true c ≡ (true, record c { rx = []; ws_rx = p; ws_rx_cap = length p })
unfolding unwrap_ws went_on
unwrap_ws-first c key p e four fits none_yet small =
    let whole = client_frame op_binary key p in
    let n : length (whole ++ []) ≡ suc (length (whole ++ []) - 1) =
      omega (arith, length-client_frame key p [] four) in
    let got : SsClient = record c { ws_rx = p; ws_rx_cap = length p } in
    ap (λ rx. unwrap_from (suc (length rx)) true c rx) (e ∙ sym (append-nil whole))
    ∙ unwrap_from_step (length (whole ++ [])) c key p [] (four, fits)
    ∙ ap (went_on (unwrap_from (length (whole ++ [])) true) []) (collected_fresh c p none_yet small)
    ∙ ap (λ k. unwrap_from k true got []) n
    ∙ unwrap_from-done (length (whole ++ []) - 1) got

dropped_slot :
    (s : SwitchStream) (i : ℕ)
    → i < length s.clients
    → (client s i).in_use ≡ true
    → (client (drop_client s i).0 i ≡ no_client)
      × ((drop_client s i).1 ≡ forget (source_native i) ∷ [])
unfolding drop_client
dropped_slot s i lt used = rw used (
  ap (λ cs. get_or cs i no_client) (recount-clients (put s i no_client))
      ∙ get_or-set_self s.clients i no_client no_client lt,
  refl,
)

-- A client whose next message is too large goes at once.
oversized_goes :
    (now : ℕ) (s : SwitchStream) (i : ℕ)
    → next_message (capacity (client s i)) (buffer (client s i)) ≡ oversized
    → handle_messages now s i ≡ drop_client s i
unfolding handle_messages handle_from act
oversized_goes now s i e = rw e refl

messages_drop :
    (now : ℕ) (s : SwitchStream) (i : ℕ)
    → i < length s.clients
    → (client s i).in_use ≡ true
    → (client s i).handshake_done ≡ true
    → next_message (capacity (client s i)) (buffer (client s i)) ≡ oversized
    → let r = then_messages now i (s, []) in
      (client r.0 i ≡ no_client) × (r.1 ≡ forget (source_native i) ∷ [])
unfolding then_messages
messages_drop now s i lt used greeted e =
    rw (used, greeted, oversized_goes now s i e) (dropped_slot s i lt used)

if_true {ℓ} : {A : Type ℓ} (b : Bool) (x y : A) → b ≡ true → (if b then x else y) ≡ x
if_true b x y e = rw e refl

-- A browser's bytes go through `unwrap_ws`.
receive_browser :
    (may : List ℕ → Bool) (now : ℕ) (s : SwitchStream) (i : ℕ) (arrived : List ℕ)
    → (client s i).rx ≡ []
    → (client s i).is_ws ≡ true
    → length arrived ≤ rx_capacity
    → (length arrived == 0) ≡ false
    → receive may true now s i arrived
      ≡ unwrapped now i s
          (unwrap_ws true (record (client s i) { rx = arrived; last_seen_ms = now }))
unfolding receive
receive_browser may now s i arrived nothing browser room some_bytes =
    rw (nothing, take_all (512 - 0) arrived room, some_bytes)
      (if_true (client s i).is_ws _ _ browser)

-- A browser sends the first part of a message, its header whole, in a binary frame that comes at
-- once: it is dropped, however small the message is, where nothing of it waits and its buffer is
-- no larger than the part.
pub receive-split_message :
    (may : List ℕ → Bool) (now : ℕ) (s : SwitchStream) (i type flags n : ℕ) (payload key : List ℕ)
    → i < length s.clients
    → IsFresh n (client s i)
    → 8 ≤ n
    → n < 8 + length payload
    → length payload + 8 < 2 ^ 32
    → length key ≡ 4
    → let frame = client_frame op_binary key (take n (framed type flags payload)) in
      length frame ≤ rx_capacity
      → let r = receive may true now s i frame in
        (client r.0 i ≡ no_client) × (r.1 ≡ forget (source_native i) ∷ [])
unfolding unwrapped
receive-split_message may now s i type flags n payload key lt f long part fits four room =
    let part_sent = take n (framed type flags payload) in
    let frame = client_frame op_binary key part_sent in
    let c = client s i in
    let len : length part_sent ≡ n = omega (arith, length-take n (framed type flags payload)) in
    let read : SsClient = record c { rx = frame; last_seen_ms = now } in
    let got : SsClient = record read { rx = []; ws_rx = part_sent; ws_rx_cap = length part_sent } in
    let small : c.ws_rx_cap ≤ length part_sent = omega (arith, len, f.small) in
    let nonempty : (length frame == 0) ≡ false = frame_some key part_sent four in
    let first : unwrap_ws true read ≡ (true, got) =
      unwrap_ws-first read key part_sent refl four
        (omega (arith, len, room, length_frame key part_sent four)) f.nothing_collected small in
    let there : client (put s i got) i ≡ got = get_or-set_self s.clients i got no_client lt in
    let dropped =
      messages_drop now (put s i got) i (omega (arith, lt, length-set s.clients i got))
        (ap (λ (x : SsClient). x.in_use) there ∙ f.connected)
        (ap (λ (x : SsClient). x.handshake_done) there ∙ f.greeted)
        (ap (λ x. next_message (capacity x) (buffer x)) there
          ∙ ap
              (λ b.
                next_message (if b then length part_sent else rx_capacity)
                  (if b then part_sent else []))
              f.browser
          ∙ ap (λ k. next_message k part_sent) len
          ∙ next_message_outgrown type flags n payload long part fits) in
    let path = receive_browser may now s i frame f.nothing_read f.browser room nonempty in
    rw (path, first) dropped
