-- ===== src/HostLink/Link/Requests.antt =====
-- What the console asks of its host (wiiu_console/src/net.c).
use capture2cloud.Base.{
  ℕ, List, [], ◌∷◌, ◌++◌, Bool, true, not, ◌&&◌, ◌==◌, if◌then◌else◌, u8, u16, take,
}
use capture2cloud.Wire.{
  store16, c2s_le16, c2s_pad_slots, msg_input, msg_keyframe, msg_wake, msg_restart,
  msg_reset_dongle, msg_profile, msg_codec, msg_home,
}
use capture2cloud.HostLink.Link.{Link, is_up, send_message}

-- What the main loop and the controller's thread ask for.
pub data Request : Type 0 where
  input : List ℕ → Request
  keyframe wake restart reset_dongle home : Request
  profile : ℕ → ℕ → ℕ → ℕ → Request
  codec : ℕ → Request

abbrev pub may_send : Link → Bool
may_send l = is_up l.stage && not (l.info.may_control == 0)

-- The functions `net_send_`, which leave the result of `send_message` unread.
unfoldable pub send_if : Bool → ℕ → List ℕ → Link → Link
send_if allowed type payload l = if allowed then (send_message type 0 payload l).1 else l

-- A field of `C2sProfile`, in the memory of the console.
abbrev pub profile_field : ℕ → List ℕ
profile_field v = store16 true (c2s_le16 true (u16 v))

unfoldable pub net_send : Request → Link → Link
unfolding send_if
net_send (input pad) l = send_if (may_send l) msg_input (take c2s_pad_slots pad) l
net_send keyframe l = send_if (is_up l.stage) msg_keyframe [] l
net_send wake l = send_if (may_send l) msg_wake [] l
net_send restart l = send_if (may_send l) msg_restart [] l
net_send reset_dongle l = send_if (may_send l) msg_reset_dongle [] l
net_send home l = send_if (may_send l) msg_home [] l
net_send (profile width height fps bitrate_kbps) l =
    send_if (is_up l.stage) msg_profile
      (profile_field width
        ++ (profile_field height ++ (profile_field fps ++ profile_field bitrate_kbps)))
      l
net_send (codec c) l = send_if (is_up l.stage) msg_codec (u8 c ∷ []) l
