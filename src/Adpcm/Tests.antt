-- ===== src/Adpcm/Tests.antt =====
-- Runs of the sound codec and of the wire's byte order.
use capture2cloud.Base.{
  ℕ, ◌+◌, ◌*◌, ◌/◌, ◌≤◌, ◌≡◌, refl, ◌⊎◌, arith, List, ◌∷◌, some, true, false, ℤ, pos, negsuc,
  nat_abs, ◌-ℤ◌, max, length, replicate, length-replicate,
}
use capture2cloud.Adpcm.{
  Channel, searched, compared, old3ds_adpcm_nibble, step_of, Sender, send_old3ds_adpcm,
  decode_adpcm_packet, stereo,
}
use capture2cloud.Adpcm.Tracking.{nibble_error}
use capture2cloud.Adpcm.Packet.{decode_adpcm_packet-send, heard}

abbrev quiet : Channel
quiet = record { predictor = pos 0; index = 0 }

abbrev loud : Channel
loud = record { predictor = pos 900; index = 40 }

-- A sample far above a quiet channel takes the largest code.
nibble_of_loud : (old3ds_adpcm_nibble (pos 1000) quiet).0 ≡ 7
unfolding old3ds_adpcm_nibble searched compared step_of ◌-ℤ◌
nibble_of_loud = refl

nibble_error_example :
    let c' = (old3ds_adpcm_nibble (pos 1000) loud).1 in
    let step = step_of 40 in
    let before = nat_abs (pos 1000 -ℤ pos 900) in
    let after = nat_abs (pos 1000 -ℤ c'.predictor) in
    (after ≤ max before (step / 8)) × ((2 * step ≤ before) ⊎ (after ≤ step / 8 + 2))
nibble_error_example = nibble_error (pos 1000) loud (omega arith, omega arith)

abbrev tail_of_pcm : List ℤ
tail_of_pcm = replicate 958 (pos 300)

abbrev sender : Sender
sender = record {
  pcm = pos 12 ∷ negsuc 4 ∷ tail_of_pcm;
  index_left = 3;
  index_right = 88;
  sequence = 70000;
}

decode_adpcm_packet-send_example :
    (packet : List ℕ) × ((send_old3ds_adpcm true true sender).0 ≡ some packet)
    × (length packet ≡ 499)
    × (decode_adpcm_packet false packet 499 1024
        ≡ some (
            pos 12
            ∷ negsuc 4
            ∷ pos 12
            ∷ negsuc 4
            ∷ heard tail_of_pcm (stereo (pos 12) (negsuc 4) 3 88)))
decode_adpcm_packet-send_example =
    decode_adpcm_packet-send true false sender (pos 12) (negsuc 4) tail_of_pcm 1024 refl
      (length-replicate 958 (pos 300)) (omega arith, omega arith) (omega arith, omega arith)
      (omega arith) (omega arith) (omega arith) (omega arith)
