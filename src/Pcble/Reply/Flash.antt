-- ===== src/Pcble/Reply/Flash.antt =====
-- Subcommand 0x10 of `pro_reply`: reading the flash memory.
use native.Mathlib.Decide.{dec_lt}
use capture2cloud.Base.{
  ℕ, zero, suc, ◌+◌, ◌*◌, ◌^◌, ◌≤◌, ◌<◌, List, [], ◌∷◌, ◌≡◌, refl, ◌∙◌, ap, ◌⊎◌, arith, true,
  bit_or, bit_or_comm, bit_or_disjoint, get_or, set, length, length-set, length-copy,
  get_or-set_self, get_or-set_ne, u32, ◌<<◌, IsByte,
}
use capture2cloud.Pcble.Protocol.{ProState}
use capture2cloud.Pcble.Protocol.Reports.{length-pro_input}
use capture2cloud.Pcble.Spi.{spi}
use capture2cloud.Pcble.Reply.{
  byte, copy_flash, address_of, read_flash, reply_head, answer, pro_reply, too_short,
}

pub length-copy_flash :
    (s : ProState) (n i addr : ℕ) (out : List ℕ) → length (copy_flash s n i addr out) ≡ length out
unfolding copy_flash
length-copy_flash s zero i addr out = refl
length-copy_flash s (suc n) i addr out =
    length-copy_flash s n (i + 1) addr _ ∙ length-set out (21 + i) _

copy_flash_outside :
    (s : ProState) (n i addr j : ℕ) (out : List ℕ)
    → (j < 21 + i) ⊎ (21 + i + n ≤ j)
    → get_or (copy_flash s n i addr out) j 0 ≡ get_or out j 0
unfolding copy_flash
copy_flash_outside s zero i addr j out h = refl
copy_flash_outside s (suc n) i addr j out h =
    copy_flash_outside s n (i + 1) addr j _ (omega arith)
    ∙ get_or-set_ne out (21 + i) j _ 0 (omega arith)

-- The loop stores each byte in its place, as far as the buffer goes.
copy_flash_inside :
    (s : ProState) (n i addr j : ℕ) (out : List ℕ)
    → i ≤ j
    → j < i + n
    → 21 + i + n ≤ length out
    → get_or (copy_flash s n i addr out) (21 + j) 0 ≡ spi s (u32 (addr + j))
unfolding copy_flash
copy_flash_inside s zero i addr j out a b fits = absurd (omega arith)
copy_flash_inside s (suc n) i addr j out a b fits = elim (dec_lt i j) [
  | yes later ↦
      copy_flash_inside s n (i + 1) addr j _ (omega arith) (omega arith)
        (omega (arith, length-set out (21 + i) (spi s (u32 (addr + i)))))
  | no now ↦
      let e : i ≡ j = omega arith in
      rw (← e) (
        copy_flash_outside s n (i + 1) addr (21 + i) _ (omega arith)
        ∙ get_or-set_self out (21 + i) _ 0 (omega arith))
]

-- `x | b << k`, where `x` fits below.
or_field : (k x b : ℕ) → x < 2 ^ k → bit_or x (b << k) ≡ b * 2 ^ k + x
or_field k x b h = bit_or_comm x (b * 2 ^ k) ∙ bit_or_disjoint k b x h

-- The address is the little-endian value of its four bytes.
address_of_lem :
    (inp : List ℕ)
    → IsByte (byte inp 12)
    → IsByte (byte inp 13)
    → IsByte (byte inp 14)
    → address_of inp
      ≡ byte inp 12 + 256 * byte inp 13 + 65536 * byte inp 14 + 16777216 * byte inp 15
unfolding address_of
address_of_lem inp a b c = omega (
  arith,
  or_field 24 (bit_or (bit_or (byte inp 12) (byte inp 13 << 8)) (byte inp 14 << 16)) (byte inp 15),
  or_field 16 (bit_or (byte inp 12) (byte inp 13 << 8)) (byte inp 14),
  or_field 8 (byte inp 12) (byte inp 13),
)

pub length-reply_head : (s : ProState) (timer cmd : ℕ) → length (reply_head s timer cmd) ≡ 50
unfolding reply_head
length-reply_head s timer cmd = simp (length-set, length-copy, length-pro_input)

pub length-read_flash :
    (s : ProState) (inp out : List ℕ) → length (read_flash s inp out) ≡ length out
unfolding read_flash
length-read_flash s inp out = simp (length-copy_flash, length-copy, length-set)

read_flash_at :
    (s : ProState) (inp out : List ℕ) (i : ℕ)
    → length out ≡ 50
    → byte inp 16 ≤ 29
    → i < byte inp 16
    → get_or (read_flash s inp out) (21 + i) 0 ≡ spi s (u32 (address_of inp + i))
unfolding read_flash
read_flash_at s inp out i fifty few h =
    copy_flash_inside s (byte inp 16) 0 (address_of inp) i _ (omega arith) (omega arith) (
      omega (
        arith,
        length-copy (set out 14 0x90) 16
            (byte inp 12 ∷ byte inp 13 ∷ byte inp 14 ∷ byte inp 15 ∷ byte inp 16 ∷ []),
        length-set out 14 0x90,
      ))

-- A well-formed request for flash memory.
pub record IsFlashRequest (inp : List ℕ) (len : ℕ) : Type 0 where
  pub long_enough : 17 ≤ len
  pub output_report : byte inp 0 ≡ 0xa2
  pub subcommand_report : byte inp 1 ≡ 0x01
  pub reads_flash : byte inp 11 ≡ 0x10
  pub few : byte inp 16 ≤ 29
  pub bytes : IsByte (byte inp 12) × IsByte (byte inp 13) × IsByte (byte inp 14)

answers_flash :
    (s : ProState) (inp : List ℕ) (len timer : ℕ) (out : List ℕ)
    → IsFlashRequest inp len
    → pro_reply s inp len timer out
      ≡ record { answered = true; state = s; out = read_flash s inp (reply_head s timer 0x10) }
unfolding pro_reply too_short answer
answers_flash s inp len timer out r = ground arith

-- A request for `n` bytes of flash memory at an address is answered, without a change of state,
-- by a 50-byte report whose bytes from 21 on are the `n` bytes of memory from that address on
-- (32-bit addresses wrap); with 29 bytes at most, they fit the report.
pub pro_reply_flash :
    (s : ProState) (inp : List ℕ) (len timer i : ℕ) (out : List ℕ)
    → IsFlashRequest inp len
    → i < byte inp 16
    → let r = pro_reply s inp len timer out in
      let addr = byte inp 12 + 256 * byte inp 13 + 65536 * byte inp 14 + 16777216 * byte inp 15 in
      (r.answered ≡ true)
      × (r.state ≡ s)
      × (length r.out ≡ 50)
      × (21 + i < 50)
      × (get_or r.out (21 + i) 0 ≡ spi s (u32 (addr + i)))
pro_reply_flash s inp len timer i out r h =
    let head = reply_head s timer 0x10 in
    let fifty = length-reply_head s timer 0x10 in
    rw (answers_flash s inp len timer out r) (
      refl,
      refl,
      length-read_flash s inp head ∙ fifty,
      omega arith,
      read_flash_at s inp head i fifty r.few h
          ∙ ap (λ t. spi s (u32 (t + i))) (address_of_lem inp r.bytes.0 r.bytes.1 r.bytes.2),
    )
