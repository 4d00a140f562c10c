-- ===== src/Native/Poll/Invariant.antt =====
-- The table's invariant in server/switch_stream.c, over all that happens to the server.
use capture2cloud.Base.{
  ℕ, ◌+◌, ◌<◌, List, [], Bool, false, not, ◌&&◌, ◌||◌, ◌==◌, ltb, ◌≡◌, refl, sym, ◌∙◌, if_holds,
  length, drop, arith,
}
use capture2cloud.Wire.{c2s_magic, c2s_version, cap_old3ds, codec_drc_h264, msg_ping}
use capture2cloud.Native.{
  SsClient, Descriptor, SwitchStream, client, Event, max_clients, idle_timeout_ms,
}
use capture2cloud.Native.Socket.{send_all_now, send_msg_now}
use capture2cloud.Native.Table.{put, is_live}
use capture2cloud.Native.Table.Counts.{watches}
use capture2cloud.Native.Sound.{
  IsSound, Follows, Follows-refl, Follows-bytes, Follows-read, is_browser, recount-IsSound,
  put-IsSound, drop_client-IsSound, send_msg_now-Follows, IsSound-IsShaped, put-IsShaped,
  send_group_state-IsShaped,
}
use capture2cloud.Native.Broadcast.{since}
use capture2cloud.Native.Hello.{
  Hello, read_hello, has_cap, ack_bytes, refusal, acceptance, token_of, client_consume, negotiated,
  refuse, welcomed, welcome, accept_hello, handle_hello,
}
use capture2cloud.Native.Messages.Sound.{handle_messages-IsSound}
use capture2cloud.Native.Poll.{idle, then_messages}

abbrev pub Outcome : Type 0
Outcome = SwitchStream × List Event

abbrev pub SoundAfter : Outcome → Type 0
SoundAfter r = IsSound r.0

-- A client that is not connected yet watches nothing.
pub watches_none : (slot : ℕ) (c : SsClient) → is_live c ≡ false → watches slot c ≡ false
watches_none slot c e = rw e refl

not_live : (a b : Bool) → b ≡ false → (a && b) ≡ false
not_live a b e = ground arith

refuse-IsSound :
    (s : SwitchStream) (i : ℕ) (c : SsClient)
    → Follows (client s i) c
    → IsSound s
    → IsSound (refuse s i c).0
unfolding refuse
refuse-IsSound s i c f h =
    let fd = (send_all_now (ack_bytes refusal) c.fd).1 in
    drop_client-IsSound (put s i (record c { fd = fd })) i (
      put-IsSound s i (record c { fd = fd })
        (Follows-bytes (client s i) c fd c.pending c.pending_sent c.pending_cap c.waiting_keyframe
          f)
        h)

negotiated-Follows :
    (s : SwitchStream) (h : Hello) (c d : SsClient) (fd : Descriptor)
    → d.handshake_done ≡ false
    → Follows c d
    → Follows c (record (negotiated s h d) { fd = fd })
unfolding negotiated
negotiated-Follows s h c d fd e f = record {
  browser = f.browser;
  stream = λ slot.
      watches_none slot (record (negotiated s h d) { fd = fd })
        (not_live d.in_use d.handshake_done e)
      ∙ sym (watches_none slot d (not_live d.in_use d.handshake_done e))
      ∙ f.stream slot;
}

welcome-IsSound :
    (s : SwitchStream) (i : ℕ) (c : SsClient) (control : Bool)
    → is_browser c ≡ is_browser (client s i)
    → IsSound s
    → IsSound (welcome s i c control)
unfolding welcome welcomed
welcome-IsSound s i c control e h =
    let v = put-IsShaped s i (welcomed s c control) (λ b. sym e ∙ b) (IsSound-IsShaped s h) in
    recount-IsSound _ (
      send_group_state-IsShaped _ i
        (record { streams = v.streams; eight = v.eight; browsers = v.browsers }))

accept_hello-IsSound :
    (s : SwitchStream) (i : ℕ) (hello : Hello) (c : SsClient) (control : Bool)
    → c.handshake_done ≡ false
    → Follows (client s i) c
    → IsSound s
    → SoundAfter (accept_hello s i hello c control)
unfolding accept_hello
accept_hello-IsSound s i hello c control e f h =
    let answer = send_all_now (ack_bytes (acceptance s (negotiated s hello c) control)) c.fd in
    let told : SsClient = record (negotiated s hello c) { fd = answer.1 } in
    let g : Follows (client s i) told = negotiated-Follows s hello (client s i) c answer.1 e f in
    if_holds SoundAfter answer.0 (welcome-IsSound s i told control g.browser h)
      (drop_client-IsSound (put s i told) i (put-IsSound s i told g h))

-- A greeting keeps the invariant.
pub handle_hello-IsSound :
    (web : List ℕ → Bool) (s : SwitchStream) (i : ℕ)
    → (client s i).handshake_done ≡ false
    → IsSound s
    → SoundAfter (handle_hello web s i)
unfolding handle_hello
handle_hello-IsSound web s i e h =
    let c = client s i in
    let hello = read_hello c.rx in
    let greeted = client_consume c (8 + hello.token_len) in
    let control = (c.codec == codec_drc_h264) || web (token_of hello c.rx) in
    let f : Follows c greeted =
      Follows-read c c (drop (8 + hello.token_len) c.rx) c.ws_rx c.ws_rx_cap c.last_seen_ms
        c.last_probe_ms (Follows-refl c) in
    if_holds SoundAfter (ltb (length c.rx) 8) h (
      if_holds SoundAfter (ltb (length c.rx) (8 + hello.token_len)) h (
        if_holds SoundAfter (not (hello.magic == c2s_magic) || not (hello.version == c2s_version))
          (refuse-IsSound s i greeted f h)
          (if_holds SoundAfter (c.on_old3ds_port && not (has_cap hello cap_old3ds))
            (refuse-IsSound s i greeted f h)
            (accept_hello-IsSound s i hello greeted control e f h))))

pub idle-IsSound : (now : ℕ) (s : SwitchStream) (i : ℕ) → IsSound s → SoundAfter (idle now s i)
unfolding idle
idle-IsSound now s i h =
    let c = client s i in
    let asked : SsClient = record c { last_probe_ms = now } in
    if_holds SoundAfter (ltb idle_timeout_ms (since now c.last_seen_ms)) (drop_client-IsSound s i h)
      (if_holds SoundAfter _
        (put-IsSound s i (send_msg_now asked msg_ping []).1
          (send_msg_now-Follows c asked msg_ping []
            (Follows-read c c c.rx c.ws_rx c.ws_rx_cap c.last_seen_ms now (Follows-refl c)))
          h)
        h)

pub then_messages-IsSound :
    (now i : ℕ) (r : Outcome) → i < max_clients → SoundAfter r → SoundAfter (then_messages now i r)
unfolding then_messages
then_messages-IsSound now i (s, events) lt h =
    if_holds SoundAfter _ (handle_messages-IsSound now s i (omega (arith, h.eight)) h) h
