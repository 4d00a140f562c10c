-- ===== src/Native/Messages/Control.antt =====
-- The access control of `handle_messages`: what a viewer's bytes can set off.
use capture2cloud.Base.{
  ℕ, zero, suc, ◌+◌, ◌<◌, List, Bool, true, false, not, ◌≡◌, refl, ap, ◌∙◌, if_holds, All,
  All-append, length, arith,
}
use mathlib.Core.Path.{subst}
use capture2cloud.Native.{SsClient, SwitchStream, client, Event}
use capture2cloud.Native.Table.{drop_client}
use capture2cloud.Native.Messages.{
  Parsed, waiting, oversized, message, raise_if, next_message, capacity, buffer, on_message,
  handle_one, act, handle_from, handle_messages,
}
use capture2cloud.Native.Messages.Cases.{Allows, on_message_cases}
use capture2cloud.Native.Messages.Retuned.{consumed, handle_one_self, length-handle_one}

raise_if-Allows :
    (control : Bool) (i : ℕ) (b : Bool) (s : SwitchStream) (e : Event)
    → (b ≡ true → Allows control i e)
    → All (Allows control i) (raise_if b s e).2
raise_if-Allows control i true s e h = (h refl, tt)
raise_if-Allows control i false s e h = tt

on_message-Allows :
    (now : ℕ) (s : SwitchStream) (i type : ℕ) (payload : List ℕ)
    → All (Allows (client s i).may_control i) (on_message now s i type payload).2
on_message-Allows now s i =
    let control = (client s i).may_control in
    on_message_cases (λ r. All (Allows control i) r.2) s i (λ b e. raise_if-Allows control i b s e)
      (λ _. tt) (λ _ _. tt) (λ _. tt) tt now

drop_client-Allows :
    (control : Bool) (i : ℕ) (s : SwitchStream) → All (Allows control i) (drop_client s i).1
unfolding drop_client
drop_client-Allows control i s =
    if_holds (λ (r : SwitchStream × List Event). All (Allows control i) r.1)
      (not (client s i).in_use) tt (refl, tt)

pub may_control-handle_one :
    (now : ℕ) (s : SwitchStream) (i type : ℕ) (payload : List ℕ)
    → i < length s.clients
    → (client (handle_one now s i type payload).0 i).may_control ≡ (client s i).may_control
may_control-handle_one now s i type payload lt =
    ap (λ (c : SsClient). c.may_control) (handle_one_self now s i type payload lt).3
    ∙ kept (client s i).is_ws
  where
    kept :
        (b : Bool)
        → (consumed (8 + length payload) (client s i)).may_control ≡ (client s i).may_control
    kept b =
        if_holds (λ (c : SsClient). c.may_control ≡ (client s i).may_control) (client s i).is_ws
          refl refl

handle_one_events :
    (now : ℕ) (s : SwitchStream) (i type : ℕ) (payload : List ℕ)
    → All (Allows (client s i).may_control i) (handle_one now s i type payload).1
unfolding handle_one
handle_one_events now s i type payload = on_message-Allows now s i type payload

act-Allows :
    (loop : SwitchStream → SwitchStream × List Event) (now : ℕ) (s : SwitchStream) (i : ℕ)
    (p : Parsed)
    → ((type : ℕ) (payload : List ℕ)
        → All (Allows (client s i).may_control i) (loop (handle_one now s i type payload).0).1)
    → All (Allows (client s i).may_control i) (act loop now s i p).1
unfolding act
act-Allows loop now s i waiting h = tt
act-Allows loop now s i oversized h = drop_client-Allows (client s i).may_control i s
act-Allows loop now s i (message type payload) h =
    All-append (Allows (client s i).may_control i) (handle_one now s i type payload).1 _
      (handle_one_events now s i type payload) (h type payload)

handle_from-Allows :
    (fuel now : ℕ) (s : SwitchStream) (i : ℕ)
    → i < length s.clients
    → All (Allows (client s i).may_control i) (handle_from fuel now s i).1
unfolding handle_from
handle_from-Allows zero now s i lt = tt
handle_from-Allows (suc fuel) now s i lt =
    act-Allows _ now s i (next_message (capacity (client s i)) (buffer (client s i)))
      λ type payload.
        let next = (handle_one now s i type payload).0 in
        subst (λ b. All (Allows b i) (handle_from fuel now next i).1)
          (may_control-handle_one now s i type payload lt)
          (handle_from-Allows fuel now next i
            (omega (arith, length-handle_one now s i type payload)))

-- The bytes of a client set off only its own input, in a state of 21 values, and its own leaving;
-- for all else, and for the input too, it must be one that may control.
pub handle_messages-Allows :
    (now : ℕ) (s : SwitchStream) (i : ℕ)
    → i < length s.clients
    → All (Allows (client s i).may_control i) (handle_messages now s i).1
unfolding handle_messages
handle_messages-Allows now s i lt = handle_from-Allows _ now s i lt
