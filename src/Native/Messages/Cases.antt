-- ===== src/Native/Messages/Cases.antt =====
-- The cases of a message in server/switch_stream.c, for what is to hold of its effect.
use capture2cloud.Base.{
  ℕ, List, [], Bool, true, false, not, ◌&&◌, ◌||◌, ◌==◌, ◌≡◌, refl, if_cases, if_holds, length,
  arith,
}
use capture2cloud.Wire.{
  msg_input, msg_home, msg_capture, msg_profile, msg_codec, msg_keyframe, msg_wake, msg_restart,
  msg_reset_dongle, c2s_pad_slots, c2s_old3ds_video_codec, codec_drc_h264, codec_vp8, codec_h264,
}
use capture2cloud.Native.{
  SwitchStream, client, Event, input, forget, press_home, press_capture, profile, wake_console,
  request_restart, recover_output, request_keyframe, demand_changed, datagram, client_slot,
}
use capture2cloud.Native.Table.{put, source_native, send_group_state}
use capture2cloud.Native.Messages.{
  Effect, nothing, raise_if, profile_fields, byte_at, on_codec, choose_codec, choose_old3ds_codec,
  set_old3ds_codec, on_message,
}

-- What the client in slot `i` may set off: its own input and its own leaving, and the rest only
-- where it may control.
abbrev pub Allows : Bool → ℕ → Event → Type 0
Allows control i (input source state) =
    (control ≡ true) × ((source ≡ source_native i) × (length state ≡ c2s_pad_slots))
Allows control i (forget source) = source ≡ source_native i
Allows control i press_home = control ≡ true
Allows control i press_capture = control ≡ true
Allows control i (profile slot fields) = control ≡ true
Allows control i wake_console = control ≡ true
Allows control i request_restart = control ≡ true
Allows control i recover_output = control ≡ true
Allows control i request_keyframe = true ≡ false
Allows control i demand_changed = true ≡ false
Allows control i (datagram peer packet) = true ≡ false

-- The server once client `i` has chosen a codec.
abbrev pub chosen : SwitchStream → ℕ → ℕ → SwitchStream
chosen s i codec = send_group_state (put s i (record (client s i) { codec = codec })) i

both_left : (a b : Bool) → (a && b) ≡ true → a ≡ true
both_left a b e = ground arith

module _ {κ} (P : Effect → Type κ) (s : SwitchStream) (i : ℕ)
    (raises : (b : Bool) (e : Event)
      → (b ≡ true → Allows (client s i).may_control i e)
      → P (raise_if b s e))
    (asks : (b : Bool) → P (false, record s { keyframe_pending = b }, []))
    (retunes : (codec : ℕ)
      → (client s i).on_old3ds_port ≡ true
      → P (true, set_old3ds_codec s codec, []))
    (chooses : (codec : ℕ) → P (true, record (chosen s i codec) { keyframe_pending = true }, []))
    (rests : P (nothing s)) where
  on_codec_cases : (payload : List ℕ) → P (on_codec s i payload)
  unfolding on_codec choose_codec choose_old3ds_codec
  on_codec_cases payload =
      let codec = byte_at payload 0 in
      let known = (codec == codec_vp8) || ((codec == codec_h264) || (codec == codec_drc_h264)) in
      if_holds P (not (length payload == 1)) rests (
        if_cases P (client s i).on_old3ds_port
          (λ old3ds.
            if_holds P (c2s_old3ds_video_codec codec && not (s.old3ds_codec == codec))
              (retunes codec old3ds) rests)
          (λ _.
            if_holds P ((codec == codec_drc_h264) && not s.drc_available) rests
              (if_holds P (known && not ((client s i).codec == codec)) (chooses codec) rests)))

  pub on_message_cases : (now type : ℕ) (payload : List ℕ) → P (on_message now s i type payload)
  unfolding on_message
  on_message_cases now type payload =
      let c = client s i in
      let control = c.may_control in
      let pad = length payload == c2s_pad_slots in
      if_holds P (type == msg_input)
        (raises (control && pad) (input (source_native i) payload)
          (λ e. (both_left control pad e, (refl, ground arith))))
        (if_holds P (type == msg_home) (raises control press_home (λ e. e)) (
          if_holds P (type == msg_capture) (raises control press_capture (λ e. e)) (
            if_holds P (type == msg_profile)
              (raises (control && (length payload == 8))
                (profile (client_slot c) (profile_fields payload)) (both_left control _))
              (if_holds P (type == msg_codec) (on_codec_cases payload) (
                if_holds P (type == msg_keyframe) (asks _) (
                  if_holds P (type == msg_wake)
                    (raises (control && s.has_web) wake_console (both_left control s.has_web))
                    (if_holds P (type == msg_restart) (raises control request_restart (λ e. e)) (
                      if_holds P (type == msg_reset_dongle) (raises control recover_output (λ e. e))
                        rests))))))))
