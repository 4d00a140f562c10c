-- ===== src/Pcble/Reply/Errors.antt =====
-- What `pro_reply` may read and change, on every subcommand and every malformed report.
use capture2cloud.Base.{
  ℕ, ◌≤◌, List, ◌≡◌, arith, true, false, get_or-take, take, length, length-set, length-copy, set,
  copy, ◌⊎◌,
}
use capture2cloud.Pcble.Protocol.{ProState}
use capture2cloud.Pcble.Reply.{
  byte, address_of, read_flash, device_info, reply_head, answer, pro_reply, too_short, elapsed,
  nfc_params,
}
use capture2cloud.Pcble.Reply.Flash.{length-read_flash, length-reply_head}

read_flash-take :
    (s : ProState) (inp out : List ℕ) (len : ℕ)
    → 17 ≤ len
    → read_flash s (take len inp) out ≡ read_flash s inp out
unfolding read_flash address_of
read_flash-take s inp out len h = rw (
  get_or-take len inp 12 0 (omega arith),
  get_or-take len inp 13 0 (omega arith),
  get_or-take len inp 14 0 (omega arith),
  get_or-take len inp 15 0 (omega arith),
  get_or-take len inp 16 0 (omega arith),
)

too_short-take :
    (inp : List ℕ) (len cmd : ℕ) → too_short (take len inp) len cmd ≡ too_short inp len cmd
unfolding too_short
too_short-take inp len cmd = ground (arith, get_or-take len inp 16 0)

answer-take :
    (s : ProState) (inp out : List ℕ) (len cmd : ℕ)
    → too_short inp len cmd ≡ false
    → answer s (take len inp) cmd out ≡ answer s inp cmd out
unfolding too_short answer
answer-take s inp out len cmd h =
    ground (arith, get_or-take len inp 12 0, read_flash-take s inp out len)

-- `pro_reply` never reads past the `len` bytes that it is given: cutting the report there
-- changes nothing of its result.
pub pro_reply-take :
    (s : ProState) (inp out : List ℕ) (len timer : ℕ)
    → pro_reply s (take len inp) len timer out ≡ pro_reply s inp len timer out
unfolding pro_reply
pro_reply-take s inp out len timer = ground (
  arith,
  get_or-take len inp 0 0,
  get_or-take len inp 1 0,
  get_or-take len inp 11 0,
  too_short-take inp len (byte inp 11),
  answer-take s inp (reply_head s timer (byte inp 11)) len (byte inp 11),
)

-- The state after a reply, as far as it is the controller's identity and input.
pub record SameController (s t : ProState) : Type 0 where
  pub same_type : t.type ≡ s.type
  pub same_address : t.address ≡ s.address
  pub same_buttons : t.buttons ≡ s.buttons
  pub same_sticks : t.sticks ≡ s.sticks
  pub same_body : t.body_color ≡ s.body_color
  pub same_button_color : t.button_color ≡ s.button_color
  pub same_left_grip : t.left_grip_color ≡ s.left_grip_color
  pub same_right_grip : t.right_grip_color ≡ s.right_grip_color

answer-SameController :
    (s : ProState) (inp out : List ℕ) (cmd : ℕ) → SameController s (answer s inp cmd out).state
unfolding answer
answer-SameController s inp out cmd = ground arith

length-device_info : (s : ProState) (out : List ℕ) → length (device_info s out) ≡ length out
unfolding device_info
length-device_info s out = simp (length-set, length-copy)

length-answer :
    (s : ProState) (inp out : List ℕ) (cmd : ℕ) → length (answer s inp cmd out).out ≡ length out
unfolding answer
length-answer s inp out cmd = ground (
  arith,
  length-device_info s out,
  length-read_flash s inp out,
  length-set out 14 0x83,
  length-set out 14 0xa0,
  length-set out 14 0x82,
  length-copy (set out 14 0x83) 16 elapsed,
  length-copy (set out 14 0xa0) 16 nfc_params,
  length-set (copy (set out 14 0xa0) 16 nfc_params) 49 0xc8,
)

answer_refused :
    (s : ProState) (inp out : List ℕ) (cmd : ℕ)
    → ((answer s inp cmd out).answered ≡ true) ⊎ ((answer s inp cmd out).state ≡ s)
unfolding answer
answer_refused s inp out cmd = ground arith

-- Whatever the report and its length, the controller's identity, colours and input stay as they
-- were, the reply keeps the buffer's 50 bytes, and the whole state stays as it was where the
-- report is not answered.
pub pro_reply_keeps :
    (s : ProState) (inp out : List ℕ) (len timer : ℕ)
    → length out ≡ 50
    → let r = pro_reply s inp len timer out in
      SameController s r.state × (length r.out ≡ 50) × ((r.answered ≡ true) ⊎ (r.state ≡ s))
unfolding pro_reply
pro_reply_keeps s inp out len timer fifty = (
  ground (arith, answer-SameController s inp (reply_head s timer (byte inp 11)) (byte inp 11)),
  ground (
    arith,
    length-reply_head s timer (byte inp 11),
    length-answer s inp (reply_head s timer (byte inp 11)) (byte inp 11),
  ),
  ground (arith, answer_refused s inp (reply_head s timer (byte inp 11)) (byte inp 11)),
)
