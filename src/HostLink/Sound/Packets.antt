-- ===== src/HostLink/Sound/Packets.antt =====
-- The console of wiiu_console/src/net.c takes the server's PCM packets: the newest ones, in order.
use capture2cloud.Base.{
  ℕ, zero, suc, ◌+◌, ◌/◌, ◌%◌, ◌^◌, ◌≤◌, ◌<◌, List, [], ◌∷◌, map, Bool, true, false, not, ◌≡◌, refl,
  ap, ◌∙◌, leb, if◌then◌else◌, Bool-cases, inl, inr, Option, none, some, u32, All, length, take,
  drop, arith,
}
use capture2cloud.Wire.{pcm_udp_magic}
use capture2cloud.Wire.Order.{c2s_le16-load16, c2s_le32-load32}
use capture2cloud.Native.Audio.{pcm_packet}
use capture2cloud.HostLink.Sound.{
  AudioState, packet_max, field32, frames_of, is_late, is_pcm, takes_packet, after_packet,
  take_packet, net_take_audio,
}

-- A packet of the server: its number, counted on where the four bytes of the wire wrap around, and
-- its samples, at most 320 frames of four bytes.
pub record Packet : Type 0 where
  pub sequence : ℕ
  pub samples : List ℕ

pub record IsSent (p : Packet) : Type 0 where
  pub whole : length p.samples % 4 ≡ 0
  pub some_frames : 4 ≤ length p.samples
  pub few_frames : length p.samples ≤ 1280

abbrev pub bytes_of : Packet → List ℕ
bytes_of p = pcm_packet p.sequence p.samples

-- The number that is played next; `none` is that nothing has come yet.
abbrev pub is_new : Option ℕ → Packet → Bool
is_new none p = true
is_new (some expected) p = leb expected p.sequence

-- Less than half of the numbers lie between a packet and the one that is expected.
abbrev pub IsNear : Option ℕ → Packet → Type 0
IsNear none p = Unit
IsNear (some expected) p = (expected ≤ p.sequence + 2 ^ 31) × (p.sequence < expected + 2 ^ 31)

-- The first packet that is not older than expected, and those after it.
pub first_new : Option ℕ → List Packet → Option Packet × List Packet
first_new expected [] = (none, [])
first_new expected (p ∷ ps) =
    let rest = first_new expected ps in if is_new expected p then (some p, ps) else rest

take_all {ℓ} : {A : Type ℓ} (n : ℕ) (xs : List A) → length xs ≤ n → take n xs ≡ xs
take_all zero [] h = refl
take_all zero (x ∷ xs) h = absurd (omega arith)
take_all (suc n) [] h = refl
take_all (suc n) (x ∷ xs) h = ap (λ t. x ∷ t) (take_all n xs (omega arith))

length-bytes_of : (p : Packet) → length (bytes_of p) ≡ 12 + length p.samples
unfolding pcm_packet
length-bytes_of p = omega arith

sequence-bytes_of : (p : Packet) → field32 (bytes_of p) 4 ≡ u32 p.sequence
unfolding pcm_packet
sequence-bytes_of p =
    let q = p.sequence in
    c2s_le32-load32 true (q % 256) (q / 256 % 256) (q / 65536 % 256) (q / 16777216 % 256)
      (omega arith) (omega arith) (omega arith) (omega arith)
    ∙ omega arith

frames-bytes_of : (p : Packet) → IsSent p → frames_of (bytes_of p) ≡ length p.samples / 4
unfolding pcm_packet
frames-bytes_of p s =
    let f = length p.samples / 4 in
    c2s_le16-load16 true (f % 256) (f / 256 % 256) (omega arith) (omega arith)
    ∙ omega (arith, s.few_frames)

magic-bytes_of : (p : Packet) → field32 (bytes_of p) 0 ≡ pcm_udp_magic
unfolding pcm_packet
magic-bytes_of p =
    c2s_le32-load32 true 80 67 77 49 (omega arith) (omega arith) (omega arith) (omega arith)

samples-bytes_of : (p : Packet) → drop 12 (bytes_of p) ≡ p.samples
unfolding pcm_packet
samples-bytes_of p = refl

is_pcm-bytes_of : (p : Packet) → IsSent p → is_pcm (bytes_of p) ≡ true
unfolding is_pcm
is_pcm-bytes_of p s =
    rw (magic-bytes_of p, frames-bytes_of p s, length-bytes_of p)
      (ground (arith, s.whole, s.some_frames, s.few_frames))

is_late-near : (q e : ℕ) → e ≤ q + 2 ^ 31 → q < e + 2 ^ 31 → not (is_late (u32 q) (u32 e)) ≡ leb e q
is_late-near q e h k = ground arith

-- The console's state where it expects that number.
abbrev pub Expects : AudioState → Option ℕ → Type 0
Expects a none = a.have_sequence ≡ false
Expects a (some expected) = (a.have_sequence ≡ true) × (a.expected_sequence ≡ u32 expected)

takes_packet-bytes_of :
    (a : AudioState) (expected : Option ℕ) (p : Packet)
    → IsSent p
    → Expects a expected
    → IsNear expected p
    → takes_packet a (bytes_of p) ≡ is_new expected p
unfolding takes_packet
takes_packet-bytes_of a none p s e near = rw (is_pcm-bytes_of p s, e) refl
takes_packet-bytes_of a (some expected) p s e near =
    rw (is_pcm-bytes_of p s, sequence-bytes_of p, e.0, e.1)
      (is_late-near p.sequence expected near.0 near.1)

abbrev pub samples_of : Option Packet → Option (List ℕ)
samples_of none = none
samples_of (some p) = some p.samples

-- What is expected after a packet, if one was taken.
abbrev pub expected_after : Option ℕ → Option Packet → Option ℕ
expected_after expected none = expected
expected_after expected (some p) = some (p.sequence + 1)

-- What `take_packet` makes of the packets.
record Plays (expected : Option ℕ) (f : Option Packet × List Packet)
    (r : Option (List ℕ) × AudioState × List (List ℕ)) : Type 0 where
  played : r.0 ≡ samples_of f.0
  next : Expects r.1 (expected_after expected f.0)
  left : r.2 ≡ map bytes_of f.1

take_packet-Plays :
    (a : AudioState) (expected : Option ℕ) (ps : List Packet)
    → Expects a expected
    → All IsSent ps
    → All (IsNear expected) ps
    → Plays expected (first_new expected ps) (take_packet a (map bytes_of ps))
unfolding take_packet first_new after_packet
take_packet-Plays a expected [] e s near = record { played = refl; next = e; left = refl }
take_packet-Plays a expected (p ∷ ps) e s near =
    let fits : take packet_max (bytes_of p) ≡ bytes_of p =
      take_all packet_max (bytes_of p) (omega (arith, length-bytes_of p, s.0.few_frames)) in
    rw (fits, takes_packet-bytes_of a expected p s.0 e near.0)
      (elim (Bool-cases (is_new expected p)) [
        | inl new ↦ rw new (record {
          played = ap some (samples-bytes_of p);
          next = (refl, ap (λ q. u32 (q + 1)) (sequence-bytes_of p) ∙ omega arith);
          left = refl;
        })
        | inr late ↦ rw late (take_packet-Plays a expected ps e s.1 near.1)
      ])

-- Of packets that the server sent, in whatever order and however often they arrive, one call takes
-- the first whose number is not below the one after the last that was taken, gives its samples,
-- passes over those before it and leaves those after it; at the start it takes the first. Numbers
-- are 32 bits on the wire, and wrap around: those of the packets lie within half the range of the
-- number that is expected.
pub net_take_audio-first_new :
    (a : AudioState) (expected : Option ℕ) (ps : List Packet)
    → Expects a expected
    → All IsSent ps
    → All (IsNear expected) ps
    → let f = first_new expected ps in
      let r = net_take_audio true a (map bytes_of ps) in
      (r.0 ≡ samples_of f.0) × Expects r.1 (expected_after expected f.0) × (r.2 ≡ map bytes_of f.1)
unfolding net_take_audio
net_take_audio-first_new a expected ps e s near =
    let p = take_packet-Plays a expected ps e s near in (p.played, p.next, p.left)
