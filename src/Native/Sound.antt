-- ===== src/Native/Sound.antt =====
-- The invariant of the server's table in server/switch_stream.c, and the steps that keep it.
use capture2cloud.Base.{
  ℕ, zero, suc, ◌+◌, ◌≤◌, List, [], ◌∷◌, Bool, true, false, ◌&&◌, ◌≡◌, refl, sym, ap, ap₂, ◌∙◌,
  if◌then◌else◌, if_holds, get_or, set, length, length-set, arith,
}
use capture2cloud.Native.{
  SsClient, no_client, Descriptor, SwitchStream, client, client_slot, max_clients, max_ws_clients,
  stream_count,
}
use capture2cloud.Native.Socket.{send_msg_now}
use capture2cloud.Native.Socket.Stream.{send_msg_now_holds}
use capture2cloud.Native.Table.{
  put, recount, drop_client, tell_stream_info, tell_shared, group_state, send_group_state,
}
use capture2cloud.Native.Table.Counts.{
  watches, IsCounted, recount-IsCounted, recount-clients, put-IsCounted, same_clients-IsCounted,
  drop_client_live,
}
use capture2cloud.Native.Websocket.{count_browsers}

abbrev pub is_browser : SsClient → Bool
is_browser c = c.in_use && c.is_ws

-- The table has eight slots, the numbers of watchers are right, and at most four of the clients
-- are browsers.
pub record IsSound (s : SwitchStream) : Type 0 where
  pub eight : length s.clients ≡ max_clients
  pub counted : IsCounted s
  pub browsers : count_browsers s.clients ≤ max_ws_clients

-- The second client is counted as the first.
pub record Follows (c d : SsClient) : Type 0 where
  pub browser : is_browser d ≡ is_browser c
  pub stream : (slot : ℕ) → watches slot d ≡ watches slot c

pub Follows-refl : (c : SsClient) → Follows c c
Follows-refl c = record { browser = refl; stream = λ _. refl }

abbrev one_if : Bool → ℕ
one_if b = if b then 1 else 0

one_if_mono : (a b : Bool) → (a ≡ true → b ≡ true) → one_if a ≤ one_if b
one_if_mono true true h = omega arith
one_if_mono true false h = ground arith
one_if_mono false b h = omega arith

pub count_browsers-set :
    (cs : List SsClient) (i : ℕ) (c : SsClient)
    → (is_browser c ≡ true → is_browser (get_or cs i no_client) ≡ true)
    → count_browsers (set cs i c) ≤ count_browsers cs
unfolding count_browsers
count_browsers-set [] i c h = omega arith
count_browsers-set (d ∷ cs) zero c h = omega (arith, one_if_mono (is_browser c) (is_browser d) h)
count_browsers-set (d ∷ cs) (suc i) c h = omega (arith, count_browsers-set cs i c h)

pub count_browsers-set_one :
    (cs : List SsClient) (i : ℕ) (c : SsClient)
    → count_browsers (set cs i c) ≤ suc (count_browsers cs)
unfolding count_browsers
count_browsers-set_one [] i c = omega arith
count_browsers-set_one (d ∷ cs) zero c = omega (arith, one_if_mono (is_browser c) true (λ _. refl))
count_browsers-set_one (d ∷ cs) (suc i) c = omega (arith, count_browsers-set_one cs i c)

pub count_browsers_same :
    (cs ds : List SsClient)
    → length ds ≡ length cs
    → ((j : ℕ) → is_browser (get_or ds j no_client) ≡ is_browser (get_or cs j no_client))
    → count_browsers ds ≡ count_browsers cs
unfolding count_browsers
count_browsers_same [] [] e h = refl
count_browsers_same [] (d ∷ ds) e h = absurd (omega arith)
count_browsers_same (c ∷ cs) [] e h = absurd (omega arith)
count_browsers_same (c ∷ cs) (d ∷ ds) e h =
    ap₂ (λ b n. one_if b + n) (h 0) (count_browsers_same cs ds (omega arith) (λ j. h (suc j)))

pub same-IsSound :
    (s t : SwitchStream) → t.clients ≡ s.clients → t.live ≡ s.live → IsSound s → IsSound t
same-IsSound s t c l h = record {
  eight = ap length c ∙ h.eight;
  counted = same_clients-IsCounted s t l c h.counted;
  browsers = rw c h.browsers;
}

-- What is left of the invariant between a change and the recount after it.
pub record IsShaped (s : SwitchStream) : Type 0 where
  pub streams : length s.live ≡ stream_count
  pub eight : length s.clients ≡ max_clients
  pub browsers : count_browsers s.clients ≤ max_ws_clients

pub IsSound-IsShaped : (s : SwitchStream) → IsSound s → IsShaped s
IsSound-IsShaped s h = record {
  streams = h.counted.streams;
  eight = h.eight;
  browsers = h.browsers;
}

pub recount-IsSound : (s : SwitchStream) → IsShaped s → IsSound (recount s)
recount-IsSound s h = record {
  eight = ap length (recount-clients s) ∙ h.eight;
  counted = recount-IsCounted s h.streams;
  browsers = rw (recount-clients s) h.browsers;
}

pub put-IsShaped :
    (s : SwitchStream) (i : ℕ) (c : SsClient)
    → (is_browser c ≡ true → is_browser (client s i) ≡ true)
    → IsShaped s
    → IsShaped (put s i c)
put-IsShaped s i c f h = record {
  streams = h.streams;
  eight = length-set s.clients i c ∙ h.eight;
  browsers = omega (arith, count_browsers-set s.clients i c f, h.browsers);
}

pub put-IsSound :
    (s : SwitchStream) (i : ℕ) (c : SsClient)
    → Follows (client s i) c
    → IsSound s
    → IsSound (put s i c)
put-IsSound s i c f h = record {
  eight = length-set s.clients i c ∙ h.eight;
  counted = put-IsCounted s i c f.stream h.counted;
  browsers = omega (arith, count_browsers-set s.clients i c (λ e. sym f.browser ∙ e), h.browsers);
}

pub drop_client-IsSound : (s : SwitchStream) (i : ℕ) → IsSound s → IsSound (drop_client s i).0
drop_client-IsSound s i h = rw (drop_client_live s i) (
    if_holds IsSound (client s i).in_use
      (recount-IsSound (put s i no_client)
        (put-IsShaped s i no_client (λ e. ground arith) (IsSound-IsShaped s h)))
      h)

-- A client with other bytes, or with another wait, is counted as before.
pub Follows-bytes :
    (c d : SsClient) (fd : Descriptor) (pending : List ℕ) (sent cap : ℕ) (waiting : Bool)
    → Follows c d
    → Follows c (record d {
      fd = fd;
      pending = pending;
      pending_sent = sent;
      pending_cap = cap;
      waiting_keyframe = waiting;
    })
unfolding client_slot
Follows-bytes c d fd pending sent cap waiting f = record { browser = f.browser; stream = f.stream }

pub Follows-read :
    (c d : SsClient) (rx ws_rx : List ℕ) (cap seen probed : ℕ)
    → Follows c d
    → Follows c (record d {
      rx = rx;
      ws_rx = ws_rx;
      ws_rx_cap = cap;
      last_seen_ms = seen;
      last_probe_ms = probed;
    })
unfolding client_slot
Follows-read c d rx ws_rx cap seen probed f = record { browser = f.browser; stream = f.stream }

pub send_msg_now-Follows :
    (c d : SsClient) (type : ℕ) (bytes : List ℕ)
    → Follows c d
    → Follows c (send_msg_now d type bytes).1
send_msg_now-Follows c d type bytes f =
    send_msg_now_holds (Follows c) d type bytes
      λ fd. Follows-bytes c d fd d.pending d.pending_sent d.pending_cap d.waiting_keyframe f

group_state-Follows : (s : SwitchStream) (c : SsClient) → Follows c (group_state s c)
unfolding group_state tell_stream_info tell_shared
group_state-Follows s c =
    let told : Follows c (tell_stream_info s (client_slot c) c) =
      if_holds (Follows c) (get_or s.group_stream_known (client_slot c) false)
        (send_msg_now-Follows c c _ _ (Follows-refl c)) (Follows-refl c) in
    if_holds (Follows c) (get_or s.shared_known (client_slot c) false)
      (send_msg_now-Follows c (tell_stream_info s (client_slot c) c) _ _ told) told

pub send_group_state-IsShaped :
    (s : SwitchStream) (i : ℕ) → IsShaped s → IsShaped (send_group_state s i)
unfolding send_group_state
send_group_state-IsShaped s i =
    put-IsShaped s i _ (λ e. sym (group_state-Follows s (client s i)).browser ∙ e)
