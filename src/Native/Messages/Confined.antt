-- ===== src/Native/Messages/Confined.antt =====
-- What a client's messages change in the server (`handle_messages` in server/switch_stream.c), and
-- what they leave alone.
use capture2cloud.Base.{
  ℕ, zero, suc, ◌+◌, ◌<◌, List, Bool, true, false, ◌≡◌, ◌≢◌, refl, sym, ap, ◌∙◌, if_holds,
  if◌then◌else◌, All, length, get_or, get_or-set_ne, get_or-set_self, arith,
}
use capture2cloud.Native.{SsClient, no_client, SwitchStream, client, Event}
use capture2cloud.Native.Table.{put, drop_client, recount, differs, send_group_state}
use capture2cloud.Native.Table.Counts.{drop_client_live}
use capture2cloud.Native.Messages.{
  Parsed, waiting, oversized, message, next_message, capacity, buffer, on_message, set_old3ds_codec,
  handle_one, act, handle_from, handle_messages,
}
use capture2cloud.Native.Messages.Cases.{Allows, chosen, on_message_cases}
use capture2cloud.Native.Messages.Retuned.{
  IsRetuned, IsRetuned-refl, IsRetuned-trans, consumed, handle_one_self, handle_one_other,
  length-handle_one,
}
use capture2cloud.Native.Messages.Control.{may_control-handle_one, handle_messages-Allows}

-- The server with the parts that a message may change taken from another.
abbrev pub changed : SwitchStream → SwitchStream → SwitchStream
changed s t = record s {
  clients = t.clients;
  live = t.live;
  demand_dirty = t.demand_dirty;
  keyframe_pending = t.keyframe_pending;
  old3ds_codec = t.old3ds_codec;
  shared = t.shared;
}

-- What lies beyond the reach of a client that is no Old 3DS.
pub record IsApart (s : SwitchStream) (i : ℕ) (t : SwitchStream) : Type 0 where
  pub clients : (j : ℕ) → i ≢ j → client t j ≡ client s j
  pub codec : t.old3ds_codec ≡ s.old3ds_codec
  pub settings : t.shared ≡ s.shared

-- From `s` to `t` by messages of client `i`.
pub record Confined (s : SwitchStream) (i : ℕ) (t : SwitchStream) : Type 0 where
  pub rest : t ≡ changed s t
  pub others : (j : ℕ) → i ≢ j → IsRetuned (client s j) (client t j)
  pub apart : (client s i).on_old3ds_port ≡ false → IsApart s i t
  pub rights : (client t i).may_control ≡ true → (client s i).may_control ≡ true

IsApart-refl : (s : SwitchStream) (i : ℕ) → IsApart s i s
IsApart-refl s i = record { clients = λ j ne. refl; codec = refl; settings = refl }

Confined-refl : (s : SwitchStream) (i : ℕ) → Confined s i s
Confined-refl s i = record {
  rest = refl;
  others = λ j ne. IsRetuned-refl (client s j);
  apart = λ e. IsApart-refl s i;
  rights = λ e. e;
}

Confined-trans :
    (s t u : SwitchStream) (i : ℕ)
    → (client t i).on_old3ds_port ≡ (client s i).on_old3ds_port
    → Confined s i t
    → Confined t i u
    → Confined s i u
Confined-trans s t u i door p q = record {
  rest = q.rest ∙ ap (λ x. changed x u) p.rest;
  others = λ j ne.
      IsRetuned-trans (client s j) (client t j) (client u j) (p.others j ne) (q.others j ne);
  apart = λ e.
      let a = p.apart e in
      let b = q.apart (door ∙ e) in
      record {
        clients = λ j ne. b.clients j ne ∙ a.clients j ne;
        codec = b.codec ∙ a.codec;
        settings = b.settings ∙ a.settings;
      };
  rights = λ e. p.rights (q.rights e);
}

on_message-rest :
    (now : ℕ) (s : SwitchStream) (i type : ℕ) (payload : List ℕ)
    → let t = (on_message now s i type payload).1 in t ≡ changed s t
unfolding set_old3ds_codec send_group_state
on_message-rest now s i =
    on_message_cases (λ r. r.1 ≡ changed s r.1) s i (λ _ _ _. refl) (λ _. refl) (λ _ _. refl)
      (λ _. refl) refl now

chosen-IsApart : (s : SwitchStream) (i codec : ℕ) → IsApart s i (chosen s i codec)
unfolding send_group_state
chosen-IsApart s i codec =
    let moved = put s i (record (client s i) { codec = codec }) in
    record {
      clients = λ j ne.
          get_or-set_ne moved.clients i j _ no_client ne
          ∙ get_or-set_ne s.clients i j _ no_client ne;
      codec = refl;
      settings = refl;
    }

on_message-IsApart :
    (now : ℕ) (s : SwitchStream) (i type : ℕ) (payload : List ℕ)
    → (client s i).on_old3ds_port ≡ false
    → IsApart s i (on_message now s i type payload).1
on_message-IsApart now s i type payload off =
    on_message_cases (λ r. IsApart s i r.1) s i (λ _ _ _. IsApart-refl s i)
      (λ _. record { clients = λ j ne. refl; codec = refl; settings = refl }) (λ _ on. absurd (cc))
      (λ codec.
        let a = chosen-IsApart s i codec in
        record { clients = a.clients; codec = a.codec; settings = a.settings })
      (IsApart-refl s i) now type payload

-- What `recount` leaves.
record Recounted (s t : SwitchStream) : Type 0 where
  rest : t ≡ changed s t
  clients : t.clients ≡ s.clients
  codec : t.old3ds_codec ≡ s.old3ds_codec
  settings : t.shared ≡ s.shared

recount-Recounted : (b : Bool) (s : SwitchStream) → Recounted s (if b then recount s else s)
unfolding recount
recount-Recounted b s =
    let same : Recounted s s = record {
      rest = refl;
      clients = refl;
      codec = refl;
      settings = refl;
    } in
    if_holds (Recounted s) b
      (if_holds (Recounted s) (differs _ s.live)
        (record { rest = refl; clients = refl; codec = refl; settings = refl }) same)
      same

changed_trans : (s t u : SwitchStream) → t ≡ changed s t → u ≡ changed t u → u ≡ changed s u
changed_trans s t u p q = q ∙ ap (λ x. changed x u) p

handle_one-Confined :
    (now : ℕ) (s : SwitchStream) (i type : ℕ) (payload : List ℕ)
    → i < length s.clients
    → Confined s i (handle_one now s i type payload).0
unfolding handle_one
handle_one-Confined now s i type payload lt =
    let r = on_message now s i type payload in
    let next = put r.1 i (consumed (8 + length payload) (client r.1 i)) in
    let counted = recount-Recounted r.0 next in
    let taken : next ≡ changed s next =
      changed_trans s r.1 next (on_message-rest now s i type payload) refl in
    record {
      rest = changed_trans s next (if r.0 then recount next else next) taken counted.rest;
      others = λ j ne. handle_one_other now s i j type payload ne;
      apart = λ off.
          let a = on_message-IsApart now s i type payload off in
          record {
            clients = λ j ne.
                ap (λ cs. get_or cs j no_client) counted.clients
                ∙ get_or-set_ne r.1.clients i j _ no_client ne
                ∙ a.clients j ne;
            codec = counted.codec ∙ a.codec;
            settings = counted.settings ∙ a.settings;
          };
      rights = λ e. sym (may_control-handle_one now s i type payload lt) ∙ e;
    }

lost : (c : SsClient) → c ≡ no_client → c.may_control ≡ false
lost c e = ap (λ (x : SsClient). x.may_control) e

drop_client-Confined :
    (s : SwitchStream) (i : ℕ) → i < length s.clients → Confined s i (drop_client s i).0
drop_client-Confined s i lt =
    rw (drop_client_live s i) (if_holds (Confined s i) (client s i).in_use gone (Confined-refl s i))
  where
    gone : Confined s i (recount (put s i no_client))
    gone =
        let next = put s i no_client in
        let counted = recount-Recounted true next in
        let there = λ (j : ℕ) (ne : i ≢ j).
          ap (λ cs. get_or cs j no_client) counted.clients
          ∙ get_or-set_ne s.clients i j no_client no_client ne in
        record {
          rest = changed_trans s next (recount next) refl counted.rest;
          others = λ j ne. rw (there j ne) (IsRetuned-refl (client s j));
          apart =
              λ off. record { clients = there; codec = counted.codec; settings = counted.settings };
          rights = λ e.
              let free : client (recount next) i ≡ no_client =
                ap (λ cs. get_or cs i no_client) counted.clients
                ∙ get_or-set_self s.clients i no_client no_client lt in
              let none_left = lost (client (recount next) i) free in absurd (cc);
        }

port_kept :
    (now : ℕ) (s : SwitchStream) (i type : ℕ) (payload : List ℕ)
    → i < length s.clients
    → (client (handle_one now s i type payload).0 i).on_old3ds_port ≡ (client s i).on_old3ds_port
port_kept now s i type payload lt =
    ap (λ (c : SsClient). c.on_old3ds_port) (handle_one_self now s i type payload lt).3
    ∙ if_holds (λ (c : SsClient). c.on_old3ds_port ≡ (client s i).on_old3ds_port) (client s i).is_ws
        refl refl

act-Confined :
    (loop : SwitchStream → SwitchStream × List Event) (now : ℕ) (s : SwitchStream) (i : ℕ)
    (p : Parsed)
    → i < length s.clients
    → ((type : ℕ) (payload : List ℕ)
        → let t = (handle_one now s i type payload).0 in Confined t i (loop t).0)
    → Confined s i (act loop now s i p).0
unfolding act
act-Confined loop now s i waiting lt h = Confined-refl s i
act-Confined loop now s i oversized lt h = drop_client-Confined s i lt
act-Confined loop now s i (message type payload) lt h =
    let t = (handle_one now s i type payload).0 in
    Confined-trans s t (loop t).0 i (port_kept now s i type payload lt)
      (handle_one-Confined now s i type payload lt) (h type payload)

handle_from-Confined :
    (fuel now : ℕ) (s : SwitchStream) (i : ℕ)
    → i < length s.clients
    → Confined s i (handle_from fuel now s i).0
unfolding handle_from
handle_from-Confined zero now s i lt = Confined-refl s i
handle_from-Confined (suc fuel) now s i lt =
    act-Confined _ now s i (next_message (capacity (client s i)) (buffer (client s i))) lt
      λ type payload.
        handle_from-Confined fuel now (handle_one now s i type payload).0 i
          (omega (arith, length-handle_one now s i type payload))

-- While the messages of a client are handled, all that is set off at once is its own leaving and,
-- where it may control, its own input of 21 values and the other requests of a player. Beyond that
-- only the table of clients changes, with its counts, the mark that a keyframe is wanted, the codec
-- of the Old 3DS clients and the settings that are announced. Another client keeps all but its
-- codec, its wait for a keyframe and what was sent to it; and from a client that is no Old 3DS, the
-- other clients, that codec and those settings are left alone. No client gains control.
pub handle_messages-Confined :
    (now : ℕ) (s : SwitchStream) (i : ℕ)
    → i < length s.clients
    → let r = handle_messages now s i in
      All (Allows (client s i).may_control i) r.1 × Confined s i r.0
unfolding handle_messages
handle_messages-Confined now s i lt =
    (handle_messages-Allows now s i lt, handle_from-Confined _ now s i lt)
