-- ===== src/Native/Poll/Reach.antt =====
-- Whatever happens to the server of server/switch_stream.c, its table stays sound.
use capture2cloud.Base.{
  ℕ, zero, suc, ◌+◌, ◌-◌, ◌≤◌, ◌<◌, List, [], ◌∷◌, ◌++◌, Bool, true, false, not, ◌&&◌, ◌==◌, ◌≡◌,
  refl, sym, ap, ◌∙◌, if_holds, if_cases, Option, none, some, get_or, length, get_or-set_self, take,
  arith,
}
use capture2cloud.Native.{
  SsClient, no_client, SwitchStream, client, max_clients, client_slot, rx_capacity,
}
use capture2cloud.Native.Table.{put}
use capture2cloud.Native.Sound.{
  IsSound, Follows, Follows-refl, Follows-read, put-IsSound, same-IsSound, drop_client-IsSound,
}
use capture2cloud.Native.Hello.{handle_hello}
use capture2cloud.Native.Websocket.{unwrap_ws, one_further, free_slot}
use capture2cloud.Native.Websocket.Follows.{unwrap_from-Follows}
use capture2cloud.Native.Poll.{
  Door, native, drc, wiiu, old3ds, Arrival, new_client, replaced_from, through, fresh, admit_at,
  admit, accept_one, accept_all, Readiness, hung_up, quiet, would_block, failed, bytes, unwrapped,
  receive, serve, serve_from, notified, poll_round, is_wiiu,
}
use capture2cloud.Native.Poll.Invariant.{
  SoundAfter, idle-IsSound, then_messages-IsSound, handle_hello-IsSound,
}

unwrapped-IsSound :
    (now i : ℕ) (s : SwitchStream) (r : Bool × SsClient)
    → i < max_clients
    → Follows (client s i) r.1
    → IsSound s
    → SoundAfter (unwrapped now i s r)
unfolding unwrapped
unwrapped-IsSound now i s (false, c) lt f h =
    drop_client-IsSound (put s i c) i (put-IsSound s i c f h)
unwrapped-IsSound now i s (true, c) lt f h =
    then_messages-IsSound now i (put s i c, []) lt (put-IsSound s i c f h)

receive-IsSound :
    (web : List ℕ → Bool) (room : Bool) (now : ℕ) (s : SwitchStream) (i : ℕ) (arrived : List ℕ)
    → i < max_clients
    → IsSound s
    → SoundAfter (receive web room now s i arrived)
unfolding receive unwrap_ws
receive-IsSound web room now s i arrived lt h =
    let c = client s i in
    let got = take (rx_capacity - length c.rx) arrived in
    let read : SsClient = record c { rx = c.rx ++ got; last_seen_ms = now } in
    let f : Follows c read =
      Follows-read c c (c.rx ++ got) c.ws_rx c.ws_rx_cap now c.last_probe_ms (Follows-refl c) in
    let filled : IsSound (put s i read) = put-IsSound s i read f h in
    let unmet : not c.handshake_done ≡ true → (client (put s i read) i).handshake_done ≡ false =
      λ e.
        ap (λ (d : SsClient). d.handshake_done)
          (get_or-set_self s.clients i read no_client (omega (arith, h.eight)))
        ∙ ground arith in
    if_cases SoundAfter (length got == 0) (λ _. drop_client-IsSound s i h)
      λ _.
        if_cases SoundAfter c.is_ws
          (λ _.
            unwrapped-IsSound now i s (unwrap_ws room read) lt
              (unwrap_from-Follows (suc (length read.rx)) room c read read.rx f) h)
          λ _.
            if_cases SoundAfter (not c.handshake_done)
              (λ e.
                then_messages-IsSound now i (handle_hello web (put s i read) i) lt
                  (handle_hello-IsSound web (put s i read) i (unmet e) filled))
              (λ _. then_messages-IsSound now i (put s i read, []) lt filled)

serve-IsSound :
    (web : List ℕ → Bool) (room : Bool) (now : ℕ) (s : SwitchStream) (i : ℕ) (r : Readiness)
    → i < max_clients
    → IsSound s
    → SoundAfter (serve web room now s i r)
unfolding serve
serve-IsSound web room now s i hung_up lt h = drop_client-IsSound s i h
serve-IsSound web room now s i quiet lt h = idle-IsSound now s i h
serve-IsSound web room now s i would_block lt h = h
serve-IsSound web room now s i failed lt h = drop_client-IsSound s i h
serve-IsSound web room now s i (bytes arrived) lt h = receive-IsSound web room now s i arrived lt h

serve_from-IsSound :
    (web : List ℕ → Bool) (room : ℕ → Bool) (ready : ℕ → Readiness) (now : ℕ)
    (polled : List SsClient) (left i : ℕ) (s : SwitchStream)
    → i + left ≤ max_clients
    → IsSound s
    → SoundAfter (serve_from web room ready now polled left i s)
unfolding serve_from
serve_from-IsSound web room ready now polled zero i s le h = h
serve_from-IsSound web room ready now polled (suc left) i s le h =
    serve_from-IsSound web room ready now polled left (i + 1) _ (omega arith) (
      if_holds SoundAfter ((get_or polled i no_client).in_use && (client s i).in_use)
        (serve-IsSound web (room i) now s i (ready i) (omega arith) h) h)

replaced_from-IsSound :
    (left i peer : ℕ) (s : SwitchStream) → IsSound s → SoundAfter (replaced_from left i peer s)
unfolding replaced_from
replaced_from-IsSound zero i peer s h = h
replaced_from-IsSound (suc left) i peer s h =
    let c = client s i in
    replaced_from-IsSound left (i + 1) peer _ (
      if_holds SoundAfter (c.in_use && (c.on_wiiu_port && (c.peer_ipv4 == peer)))
        (drop_client-IsSound s i h) h)

one_further-some :
    (o : Option ℕ) (i : ℕ) → one_further o ≡ some i → (k : ℕ) × ((i ≡ suc k) × (o ≡ some k))
unfolding one_further
one_further-some none i e = ground arith
one_further-some (some k) i e = (k, (ground arith, refl))

-- A free slot's client is not in use.
pub free_slot-in_use :
    (cs : List SsClient) (i : ℕ)
    → free_slot cs ≡ some i
    → (i < length cs) × ((get_or cs i no_client).in_use ≡ false)
unfolding free_slot
free_slot-in_use [] i e = ground arith
free_slot-in_use (c ∷ cs) i e =
    if_cases (λ o. o ≡ some i → P o) c.in_use
      (λ u e'.
        let k = one_further-some (free_slot cs) i e' in
        let rest = free_slot-in_use cs k.0 k.1.1 in rw k.1.0 (omega (arith, rest.0), rest.1))
      (λ u e'. let first : i ≡ 0 = ground arith in rw first (omega arith, u)) e
  where
    P : Option ℕ → Type 0
    P o = (i < suc (length cs)) × ((get_or (c ∷ cs) i no_client).in_use ≡ false)

through-Follows :
    (s : SwitchStream) (a : Arrival) (now : ℕ) (c : SsClient) (door : Door)
    → c.in_use ≡ false
    → Follows c (through s door (fresh a now))
unfolding through
through-Follows s a now c native e = record {
  browser = sym (ap (λ b. b && c.is_ws) e);
  stream = λ slot. sym (ap (λ b. (b && c.handshake_done) && (client_slot c == slot)) e);
}
through-Follows s a now c drc e = record {
  browser = sym (ap (λ b. b && c.is_ws) e);
  stream = λ slot. sym (ap (λ b. (b && c.handshake_done) && (client_slot c == slot)) e);
}
through-Follows s a now c wiiu e = record {
  browser = sym (ap (λ b. b && c.is_ws) e);
  stream = λ slot. sym (ap (λ b. (b && c.handshake_done) && (client_slot c == slot)) e);
}
through-Follows s a now c old3ds e = record {
  browser = sym (ap (λ b. b && c.is_ws) e);
  stream = λ slot. sym (ap (λ b. (b && c.handshake_done) && (client_slot c == slot)) e);
}

admit_at-IsSound :
    (s : SwitchStream) (c : SsClient) (o : Option ℕ)
    → ((i : ℕ) → o ≡ some i → Follows (client s i) c)
    → IsSound s
    → IsSound (admit_at s c o)
unfolding admit_at
admit_at-IsSound s c none f h = h
admit_at-IsSound s c (some i) f h = put-IsSound s i c (f i refl) h

admit-IsSound : (s : SwitchStream) (a : Arrival) (now : ℕ) → IsSound s → IsSound (admit s a now)
unfolding admit new_client
admit-IsSound s a now =
    admit_at-IsSound s (through s a.door (fresh a now)) (free_slot s.clients)
      λ i e. through-Follows s a now (client s i) a.door (free_slot-in_use s.clients i e).1

accept_one-IsSound :
    (now : ℕ) (s : SwitchStream) (a : Arrival) → IsSound s → SoundAfter (accept_one now s a)
unfolding accept_one
accept_one-IsSound now s a h = admit-IsSound _ a now (
    if_holds SoundAfter (is_wiiu a.door && not (a.peer == 0))
      (replaced_from-IsSound max_clients 0 a.peer s h) h)

accept_all-IsSound :
    (now : ℕ) (s : SwitchStream) (arrivals : List Arrival)
    → IsSound s
    → SoundAfter (accept_all now s arrivals)
unfolding accept_all
accept_all-IsSound now s [] h = h
accept_all-IsSound now s (a ∷ more) h =
    accept_all-IsSound now (accept_one now s a).0 more (accept_one-IsSound now s a h)

-- A round of the loop keeps the table sound.
pub poll_round-IsSound :
    (web : List ℕ → Bool) (room : ℕ → Bool) (ready : ℕ → Readiness) (now : ℕ)
    (arrivals : List Arrival) (s : SwitchStream)
    → IsSound s
    → SoundAfter (poll_round web room ready now arrivals s)
unfolding poll_round notified
poll_round-IsSound web room ready now arrivals s h =
    let served =
      serve_from-IsSound web room ready now s.clients max_clients 0 (accept_all now s arrivals).0
        (omega arith) (accept_all-IsSound now s arrivals h) in
    same-IsSound _ _ refl refl served
