-- ===== src/Native/Hello/Outcomes.antt =====
-- Who may control the console after a greeting.
use capture2cloud.Base.{
  ℕ, ◌+◌, ◌<◌, List, Bool, true, false, not, ◌&&◌, ◌||◌, ◌==◌, ltb, ◌≡◌, refl, sym, ap, ◌∙◌,
  if_holds, if_cases, get_or, set, length, get_or-set_self, get_or-set_holds, arith,
}
use capture2cloud.Wire.{codec_drc_h264, c2s_magic, c2s_version, cap_old3ds}
use capture2cloud.Native.{SsClient, no_client, SwitchStream, client, Event}
use capture2cloud.Native.Socket.{send_all_now}
use capture2cloud.Native.Table.{put, drop_client}
use capture2cloud.Native.Table.Counts.{recount-clients, drop_client_live}
use capture2cloud.Native.Hello.{
  Hello, read_hello, has_cap, token_of, ack_bytes, refusal, acceptance, client_consume, negotiated,
  refuse, welcomed, welcome, accept_hello, handle_hello,
}
use capture2cloud.Native.Messages.Retuned.{send_group_state-IsRetuned}

-- A dropped client controls nothing.
drop_client_control :
    (s : SwitchStream) (i : ℕ) (c : SsClient)
    → c.may_control ≡ false
    → (client s i).may_control ≡ false
    → (client (drop_client (put s i c) i).0 i).may_control ≡ false
drop_client_control s i c e f =
    let P : SsClient → Type 0 = λ d. d.may_control ≡ false in
    let there : (client (put s i c) i).may_control ≡ false =
      get_or-set_holds P s.clients i i c no_client f (λ _. e) in
    rw (drop_client_live (put s i c) i) (
      if_holds (λ (t : SwitchStream). (client t i).may_control ≡ false)
        (client (put s i c) i).in_use
        (ap (λ cs. (get_or cs i no_client).may_control)
            (recount-clients (put (put s i c) i no_client))
          ∙ get_or-set_holds P (set s.clients i c) i i no_client no_client there (λ _. refl))
        there)

welcome_control :
    (s : SwitchStream) (i : ℕ) (c : SsClient) (control : Bool)
    → i < length s.clients
    → (client (welcome s i c control) i).may_control ≡ control
unfolding welcome welcomed
welcome_control s i c control lt =
    ap (λ cs. (get_or cs i no_client).may_control) (recount-clients _)
    ∙ ap (λ (d : SsClient). d.may_control) (send_group_state-IsRetuned _ i i).3
    ∙ ap (λ (d : SsClient). d.may_control) (get_or-set_self s.clients i _ no_client lt)

accept_hello_control :
    (s : SwitchStream) (i : ℕ) (h : Hello) (c : SsClient) (control : Bool)
    → i < length s.clients
    → c.may_control ≡ false
    → (client s i).may_control ≡ false
    → (client (accept_hello s i h c control).0 i).may_control ≡ true
    → control ≡ true
unfolding accept_hello negotiated
accept_hello_control s i h c control lt e f =
    if_cases (λ (r : SwitchStream × List Event). (client r.0 i).may_control ≡ true → control ≡ true)
      (send_all_now (ack_bytes (acceptance s (negotiated s h c) control)) c.fd).0
      (λ _ m. sym (welcome_control s i _ control lt) ∙ m)
      (λ _ m. ground (arith, drop_client_control s i (told s h c control) e f))
  where
    told : SwitchStream → Hello → SsClient → Bool → SsClient
    told s h c control = record (negotiated s h c) {
      fd = (send_all_now (ack_bytes (acceptance s (negotiated s h c) control)) c.fd).1;
    }

-- What a client that is to control the console has said: the protocol's name and version, and,
-- unless it came in through the GamePad's door, a token that the web server takes.
abbrev pub IsEntitled : (List ℕ → Bool) → SsClient → Type 0
IsEntitled web c =
    let h = read_hello c.rx in
    (((h.magic == c2s_magic) && (h.version == c2s_version)) ≡ true)
    × (((c.codec == codec_drc_h264) || web (token_of h c.rx)) ≡ true)

-- A greeting lets a client that could not control the console do so only where its hello has the
-- protocol's name and version and where its codec is the GamePad's, which that port gave it, or
-- the web server takes its token.
pub handle_hello-IsEntitled :
    (web : List ℕ → Bool) (s : SwitchStream) (i : ℕ)
    → i < length s.clients
    → (client s i).may_control ≡ false
    → (client (handle_hello web s i).0 i).may_control ≡ true
    → IsEntitled web (client s i)
unfolding handle_hello refuse
handle_hello-IsEntitled web s i lt e =
    let c = client s i in
    let h = read_hello c.rx in
    let control = (c.codec == codec_drc_h264) || web (token_of h c.rx) in
    let greeted = client_consume c (8 + h.token_len) in
    let refused : SsClient = record greeted { fd = (send_all_now (ack_bytes refusal) c.fd).1 } in
    let P : SwitchStream × List Event → Type 0 =
      λ r. (client r.0 i).may_control ≡ true → IsEntitled web c in
    let no_right : (client (drop_client (put s i refused) i).0 i).may_control ≡ true
        → IsEntitled web c =
      λ m. absurd (ground (arith, drop_client_control s i refused e e)) in
    if_cases P (ltb (length c.rx) 8) (λ _ m. absurd (ground arith))
      λ _.
        if_cases P (ltb (length c.rx) (8 + h.token_len)) (λ _ m. absurd (ground arith))
          λ _.
            if_cases P (not (h.magic == c2s_magic) || not (h.version == c2s_version))
              (λ _. no_right)
              λ ok.
                if_cases P (c.on_old3ds_port && not (has_cap h cap_old3ds)) (λ _. no_right)
                  λ _ m. (ground arith, accept_hello_control s i h greeted control lt e e m)
