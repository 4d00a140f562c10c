-- ===== src/Native/Messages/Retuned.antt =====
-- What a message leaves alone: a client's bytes, its rights and its place.
use capture2cloud.Base.{
  ◌<◌, ℕ, ◌+◌, List, Bool, true, ◌≡◌, refl, sym, ap, ◌∙◌, if_holds, get_or, length, length-set,
  length-map, get_or-set_holds, get_or-set_self, get_or-set_ne, ◌≢◌, Bool-cases, inl, inr, arith,
  get_or-map_holds, drop,
}
use capture2cloud.Native.{SsClient, no_client, SwitchStream, client, Descriptor, client_slot}
use capture2cloud.Wire.{c2s_old3ds_predictive_codec, msg_stream_info, msg_shared}
use capture2cloud.Native.Socket.{send_msg_now}
use capture2cloud.Native.Socket.Stream.{send_msg_now_holds}
use capture2cloud.Native.Table.{put, tell_stream_info, tell_shared, group_state, send_group_state}
use capture2cloud.Native.Table.Counts.{recount-clients}
use capture2cloud.Native.Messages.Cases.{chosen, on_message_cases}
use capture2cloud.Native.Messages.{
  retuned, set_old3ds_codec, on_message, handle_one, with_buffer, buffer,
}

-- The second client is the first but for its descriptor, its codec and `waiting_keyframe`.
abbrev pub IsRetuned : SsClient → SsClient → Type 0
IsRetuned c d =
    (fd : Descriptor) × (codec : ℕ) × (waiting : Bool) × (d
      ≡ record c { fd = fd; codec = codec; waiting_keyframe = waiting })

pub IsRetuned-refl : (c : SsClient) → IsRetuned c c
IsRetuned-refl c = (c.fd, c.codec, c.waiting_keyframe, refl)

pub IsRetuned-trans : (c d e : SsClient) → IsRetuned c d → IsRetuned d e → IsRetuned c e
IsRetuned-trans c d e (fd, codec, w, p) (fd', codec', w', q) = (
  fd',
  codec',
  w',
  q ∙ ap (λ (x : SsClient). record x { fd = fd'; codec = codec'; waiting_keyframe = w' }) p,
)

send_msg_now-IsRetuned :
    (c : SsClient) (type : ℕ) (bytes : List ℕ) → IsRetuned c (send_msg_now c type bytes).1
send_msg_now-IsRetuned c type bytes =
    send_msg_now_holds (IsRetuned c) c type bytes (λ fd. (fd, c.codec, c.waiting_keyframe, refl))

tell_stream_info-IsRetuned :
    (s : SwitchStream) (slot : ℕ) (c : SsClient) → IsRetuned c (tell_stream_info s slot c)
unfolding tell_stream_info
tell_stream_info-IsRetuned s slot c =
    if_holds (IsRetuned c) _ (send_msg_now-IsRetuned c msg_stream_info _) (IsRetuned-refl c)

tell_shared-IsRetuned :
    (s : SwitchStream) (slot : ℕ) (c : SsClient) → IsRetuned c (tell_shared s slot c)
unfolding tell_shared
tell_shared-IsRetuned s slot c =
    if_holds (IsRetuned c) _ (send_msg_now-IsRetuned c msg_shared _) (IsRetuned-refl c)

pub group_state-IsRetuned : (s : SwitchStream) (c : SsClient) → IsRetuned c (group_state s c)
unfolding group_state
group_state-IsRetuned s c =
    IsRetuned-trans c (tell_stream_info s (client_slot c) c) _
      (tell_stream_info-IsRetuned s (client_slot c) c)
      (tell_shared-IsRetuned s (client_slot c) (tell_stream_info s (client_slot c) c))

pub send_group_state-IsRetuned :
    (s : SwitchStream) (i j : ℕ) → IsRetuned (client s j) (client (send_group_state s i) j)
unfolding send_group_state
send_group_state-IsRetuned s i j =
    get_or-set_holds (IsRetuned (client s j)) s.clients i j (group_state s (client s i)) no_client
      (IsRetuned-refl (client s j)) (λ e. ap_client e)
  where
    ap_client : i ≡ j → IsRetuned (client s j) (group_state s (client s i))
    ap_client e = rw (sym e) (group_state-IsRetuned s (client s i))

retuned-IsRetuned : (s : SwitchStream) (codec : ℕ) (c : SsClient) → IsRetuned c (retuned s codec c)
unfolding retuned
retuned-IsRetuned s codec c =
    let d : SsClient = record c {
      codec = codec;
      waiting_keyframe = c2s_old3ds_predictive_codec codec;
    } in
    if_holds (IsRetuned c) _
      (IsRetuned-trans c d _ (c.fd, codec, c2s_old3ds_predictive_codec codec, refl)
        (group_state-IsRetuned s d))
      (IsRetuned-refl c)

-- What a codec change may do: each client stays but for its descriptor and its codec, and there
-- are as many of them.
pub record IsTame (s t : SwitchStream) : Type 0 where
  pub count : length t.clients ≡ length s.clients
  pub web : t.has_web ≡ s.has_web
  pub counted : t.live ≡ s.live
  pub each : (j : ℕ) → IsRetuned (client s j) (client t j)

IsTame-refl : (s : SwitchStream) → IsTame s s
IsTame-refl s = record {
  count = refl;
  web = refl;
  counted = refl;
  each = λ j. IsRetuned-refl (client s j);
}

set_old3ds_codec-IsTame : (s : SwitchStream) (codec : ℕ) → IsTame s (set_old3ds_codec s codec)
unfolding set_old3ds_codec
set_old3ds_codec-IsTame s codec = record {
  count = length-map _ s.clients;
  web = refl;
  counted = refl;
  each = λ j.
      get_or-map_holds (IsRetuned (client s j)) _ s.clients j no_client
        (IsRetuned-refl (client s j)) (retuned-IsRetuned _ codec (client s j));
}

IsTame-trans : (s t u : SwitchStream) → IsTame s t → IsTame t u → IsTame s u
IsTame-trans s t u p q = record {
  count = q.count ∙ p.count;
  web = q.web ∙ p.web;
  counted = q.counted ∙ p.counted;
  each = λ j. IsRetuned-trans (client s j) (client t j) (client u j) (p.each j) (q.each j);
}

put-IsTame :
    (s : SwitchStream) (i : ℕ) (c : SsClient) → IsRetuned (client s i) c → IsTame s (put s i c)
put-IsTame s i c h = record {
  count = length-set s.clients i c;
  web = refl;
  counted = refl;
  each = λ j.
      get_or-set_holds (IsRetuned (client s j)) s.clients i j c no_client
        (IsRetuned-refl (client s j)) (λ e. rw (sym e) h);
}

send_group_state-IsTame : (s : SwitchStream) (i : ℕ) → IsTame s (send_group_state s i)
unfolding send_group_state
send_group_state-IsTame s i = put-IsTame s i _ (group_state-IsRetuned s (client s i))

chosen-IsTame : (s : SwitchStream) (i codec : ℕ) → IsTame s (chosen s i codec)
chosen-IsTame s i codec =
    let c = client s i in
    let moved = put s i (record c { codec = codec }) in
    IsTame-trans s moved (send_group_state moved i)
      (put-IsTame s i (record c { codec = codec }) (c.fd, codec, c.waiting_keyframe, refl))
      (send_group_state-IsTame moved i)

asked-IsTame :
    (s t : SwitchStream) (b : Bool) → IsTame s t → IsTame s (record t { keyframe_pending = b })
asked-IsTame s t b h = record { count = h.count; web = h.web; counted = h.counted; each = h.each }

-- A message changes no client but for its descriptor and its codec.
pub on_message-IsTame :
    (now : ℕ) (s : SwitchStream) (i type : ℕ) (payload : List ℕ)
    → IsTame s (on_message now s i type payload).1
on_message-IsTame now s i =
    on_message_cases (λ r. IsTame s r.1) s i (λ _ _ _. IsTame-refl s)
      (λ b. asked-IsTame s s b (IsTame-refl s)) (λ codec _. set_old3ds_codec-IsTame s codec)
      (λ codec. asked-IsTame s (chosen s i codec) true (chosen-IsTame s i codec)) (IsTame-refl s)
      now

-- The client with its first bytes taken out of the buffer.
abbrev pub consumed : ℕ → SsClient → SsClient
consumed n c = with_buffer c (drop n (buffer c))

consumed-record :
    (n : ℕ) (c : SsClient) (fd : Descriptor) (codec : ℕ) (w : Bool)
    → consumed n (record c { fd = fd; codec = codec; waiting_keyframe = w })
      ≡ record (consumed n c) { fd = fd; codec = codec; waiting_keyframe = w }
consumed-record n c fd codec w = elim (Bool-cases c.is_ws) [ inl e ↦ rw e refl | inr e ↦ rw e refl ]

consumed-IsRetuned :
    (n : ℕ) (c d : SsClient) → IsRetuned c d → IsRetuned (consumed n c) (consumed n d)
consumed-IsRetuned n c d (fd, codec, w, p) =
    (fd, codec, w, ap (consumed n) p ∙ consumed-record n c fd codec w)

pub handle_one-clients :
    (now : ℕ) (s : SwitchStream) (i type : ℕ) (payload : List ℕ)
    → let r = on_message now s i type payload in
      (handle_one now s i type payload).0.clients
      ≡ (put r.1 i (consumed (8 + length payload) (client r.1 i))).clients
unfolding handle_one
handle_one-clients now s i type payload =
    let r = on_message now s i type payload in
    let next = put r.1 i (consumed (8 + length payload) (client r.1 i)) in
    if_holds (λ (t : SwitchStream). t.clients ≡ next.clients) r.0 (recount-clients next) refl

-- The client whose message it was has it taken out of its buffer, and is otherwise only retuned.
pub handle_one_self :
    (now : ℕ) (s : SwitchStream) (i type : ℕ) (payload : List ℕ)
    → i < length s.clients
    → IsRetuned
        (consumed (8 + length payload) (client s i))
        (client (handle_one now s i type payload).0 i)
handle_one_self now s i type payload lt =
    let r = on_message now s i type payload in
    let tame = on_message-IsTame now s i type payload in
    let n = 8 + length payload in
    let there : client (handle_one now s i type payload).0 i ≡ consumed n (client r.1 i) =
      ap (λ cs. get_or cs i no_client) (handle_one-clients now s i type payload)
      ∙ get_or-set_self r.1.clients i _ no_client (omega (arith, tame.count)) in
    rw there (consumed-IsRetuned n (client s i) (client r.1 i) (tame.each i))

pub handle_one_other :
    (now : ℕ) (s : SwitchStream) (i j type : ℕ) (payload : List ℕ)
    → i ≢ j
    → IsRetuned (client s j) (client (handle_one now s i type payload).0 j)
handle_one_other now s i j type payload ne =
    let r = on_message now s i type payload in
    let there : client (handle_one now s i type payload).0 j ≡ client r.1 j =
      ap (λ cs. get_or cs j no_client) (handle_one-clients now s i type payload)
      ∙ get_or-set_ne r.1.clients i j _ no_client ne in
    rw there ((on_message-IsTame now s i type payload).each j)

pub length-handle_one :
    (now : ℕ) (s : SwitchStream) (i type : ℕ) (payload : List ℕ)
    → length (handle_one now s i type payload).0.clients ≡ length s.clients
length-handle_one now s i type payload =
    ap length (handle_one-clients now s i type payload)
    ∙ length-set (on_message now s i type payload).1.clients i _
    ∙ (on_message-IsTame now s i type payload).count
