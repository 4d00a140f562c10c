-- ===== src/Pcble/Reply.antt =====
-- `pro_reply` of pcble_backend/poc/protocol.c: the answers to the console's subcommands.
pub mod Flash
pub mod Errors
use capture2cloud.Base.{
  ℕ, zero, suc, ◌+◌, ◌-◌, ◌*◌, List, [], ◌∷◌, Bool, true, false, not, ltb, ◌==◌, ◌&&◌, ◌||◌,
  if◌then◌else◌, bit_or, get_or, set, copy, replicate, u32, ◌<<◌, take, drop,
}
use capture2cloud.Pcble.Protocol.{ProState, ControllerType, type_code, is_pro, pro_input}
use capture2cloud.Pcble.Spi.{spi}

abbrev pub byte : List ℕ → ℕ → ℕ
byte inp i = get_or inp i 0

-- What `pro_reply` returns, and what it leaves in the state and in `out`.
pub record Reply : Type 0 where
  pub answered : Bool
  pub state : ProState
  pub out : List ℕ

-- `for (i = 0; i < in[16]; i++) out[21 + i] = spi(s, addr + i)`, with `left` rounds to go.
unfoldable pub copy_flash : ProState → ℕ → ℕ → ℕ → List ℕ → List ℕ
copy_flash s zero i addr out = out
copy_flash s (suc left) i addr out =
    copy_flash s left (i + 1) addr (set out (21 + i) (spi s (u32 (addr + i))))

unfoldable pub address_of : List ℕ → ℕ
address_of inp =
    bit_or (bit_or (bit_or (byte inp 12) (byte inp 13 << 8)) (byte inp 14 << 16))
      (byte inp 15 << 24)

abbrev elapsed : List ℕ
elapsed = 0 ∷ 0x6a ∷ 1 ∷ 0xbb ∷ 1 ∷ 0x93 ∷ 1 ∷ 0x95 ∷ 1 ∷ []

abbrev nfc_params : List ℕ
nfc_params = 1 ∷ 0 ∷ 0xff ∷ 0 ∷ 8 ∷ 0 ∷ 0x1b ∷ 1 ∷ []

unfoldable pub device_info : ProState → List ℕ → List ℕ
device_info s out =
    let o1 = set out 14 0x82 in
    let o2 = set o1 16 3 in
    let o3 = set o2 17 (if is_pro s.type then 0x48 else 0x8b) in
    let o4 = set o3 18 (type_code s.type) in
    let o5 = set o4 19 2 in
    let o6 = copy o5 20 s.address in
    let o7 = set o6 26 1 in set o7 27 (if is_pro s.type then 2 else 1)

unfoldable pub read_flash : ProState → List ℕ → List ℕ → List ℕ
read_flash s inp out = copy_flash s (byte inp 16) 0 (address_of inp) (
    copy (set out 14 0x90) 16
      (byte inp 12 ∷ byte inp 13 ∷ byte inp 14 ∷ byte inp 15 ∷ byte inp 16 ∷ []))

abbrev done : ProState → List ℕ → Reply
done s out = record { answered = true; state = s; out = out }

-- The `switch`; `out` holds the report's common part.
unfoldable pub answer : ProState → List ℕ → ℕ → List ℕ → Reply
answer s inp cmd out =
    if cmd == 1
    then done s out
    else if cmd == 2
    then done s (device_info s out)
    else if cmd == 3
    then done (record s { mode = byte inp 12 }) out
    else if cmd == 4
    then (let o1 = set out 14 0x83 in done s (if is_pro s.type then copy o1 16 elapsed else o1))
    else if cmd == 8
    then done s out
    else if cmd == 0x10
    then done s (read_flash s inp out)
    else if cmd == 0x21
    then done s (if is_pro s.type then out else set (copy (set out 14 0xa0) 16 nfc_params) 49 0xc8)
    else if cmd == 0x22
    then done s out
    else if cmd == 0x30
    then done (record s { lights = byte inp 12 }) out
    else if cmd == 0x40
    then done (record s { imu = not (byte inp 12 == 0) }) out
    else if cmd == 0x48
    then done (record s { vibration = not (byte inp 12 == 0) })
        (if is_pro s.type then out else set out 14 0x82)
    else record { answered = is_pro s.type; state = s; out = out }

-- The part of a reply that is common to all subcommands.
unfoldable pub reply_head : ProState → ℕ → ℕ → List ℕ
reply_head s timer cmd =
    let o1 = set (pro_input s timer) 1 0x21 in
    let o2 = copy o1 14 (replicate 36 0) in set (set o2 14 0x80) 15 cmd

-- The subcommands that take an argument, where it is missing or asks for too much.
unfoldable pub too_short : List ℕ → ℕ → ℕ → Bool
too_short inp len cmd =
    ((cmd == 3 || (cmd == 0x30 || (cmd == 0x40 || cmd == 0x48))) && ltb len 13)
    || (cmd == 0x10 && (ltb len 17 || ltb 29 (byte inp 16)))

-- `out` is the caller's buffer; a report that is refused leaves it as it was.
unfoldable pub pro_reply : ProState → List ℕ → ℕ → ℕ → List ℕ → Reply
pro_reply s inp len timer out =
    if ltb len 12 || (not (byte inp 0 == 0xa2) || not (byte inp 1 == 0x01))
    then record { answered = false; state = s; out = out }
    else let cmd = byte inp 11 in
      if too_short inp len cmd
      then record { answered = false; state = s; out = out }
      else answer s inp cmd (reply_head s timer cmd)
