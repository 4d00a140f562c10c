-- ===== src/Adpcm/Tracking.antt =====
-- One code: the decoder follows the encoder, and both stay in range.
use capture2cloud.Base.{
  ℕ, ◌+◌, ◌-◌, ◌*◌, ◌/◌, ◌≤◌, ◌<◌, ◌≡◌, ◌⊎◌, arith, Bool, not, ◌==◌, if◌then◌else◌, bit_and, ℤ, pos,
  negsuc, ltb_ℤ, nat_abs, ◌+ℤ◌, ◌-ℤ◌, IsInt16, max, Bool-cases, inl, inr, +ℤ_parts, -ℤ_parts,
  one_part,
}
use capture2cloud.Adpcm.{
  Channel, step_of, clamp_s16, moved_index, compared, searched, old3ds_adpcm_nibble, decoded_delta,
  decode_adpcm_nibble,
}

-- The code says what was added to the prediction, and in which direction.
searched_lem :
    (step difference : ℕ) (negative : Bool)
    → let t = searched step difference negative in
      (t.delta ≡ decoded_delta step t.code)
      × (t.code < 16)
      × ((bit_and t.code 8 == 0) ≡ not negative)
unfolding searched compared decoded_delta
searched_lem step difference negative = (ground arith, ground arith, ground arith)

-- The decoder, given the encoder's code and the state that the encoder started from, comes to
-- the state that the encoder is in after the sample; the code has four bits.
pub decode_nibble-track :
    (sample : ℤ) (c : Channel)
    → let coded = old3ds_adpcm_nibble sample c in
      (decode_adpcm_nibble coded.0 c ≡ coded.1) × (coded.0 < 16)
unfolding old3ds_adpcm_nibble decode_adpcm_nibble
decode_nibble-track sample c =
    let t =
      searched_lem (step_of c.index) (nat_abs (sample -ℤ c.predictor))
        (ltb_ℤ (sample -ℤ c.predictor) (pos 0)) in
    (rw (← t.0), t.1)

pub record IsChannel (c : Channel) : Type 0 where
  pub in_range : IsInt16 c.predictor
  pub in_table : c.index ≤ 88

clamp_s16-IsInt16 : (v : ℤ) → IsInt16 (clamp_s16 v)
unfolding clamp_s16
clamp_s16-IsInt16 v = ground arith

moved_index-le : (index code : ℕ) → moved_index index code ≤ 88
unfolding moved_index
moved_index-le index code = ground arith

-- After any sample, whatever the state before, the predictor is a 16-bit value and the index is
-- one of the step table's.
pub nibble-IsChannel : (sample : ℤ) (c : Channel) → IsChannel (old3ds_adpcm_nibble sample c).1
unfolding old3ds_adpcm_nibble
nibble-IsChannel sample c = record {
  in_range = clamp_s16-IsInt16 _;
  in_table = moved_index-le c.index _;
}

-- What is left of the difference.
searched_rest :
    (step d : ℕ) (negative : Bool)
    → let t = searched step d negative in
      (t.delta ≤ d + step / 8) × (d < 2 * step → d ≤ t.delta + (step / 8 + 2))
unfolding searched compared
searched_rest step d negative = (ground arith, λ h. ground arith)

-- Holding a value within 16 bits does not take it away from a 16-bit sample.
clamp_nearer :
    (sample m : ℤ) → IsInt16 sample → nat_abs (sample -ℤ clamp_s16 m) ≤ nat_abs (sample -ℤ m)
unfolding clamp_s16 ◌-ℤ◌
clamp_nearer (pos s) m h = ground arith
clamp_nearer (negsuc s) m h = ground arith

-- A move of `delta` in the direction of the difference.
toward : ℤ → ℤ → ℕ → ℤ
toward sample p delta = if ltb_ℤ (sample -ℤ p) (pos 0) then p -ℤ pos delta else p +ℤ pos delta

toward_rest :
    (sample p : ℤ) (delta : ℕ)
    → let before = nat_abs (sample -ℤ p) in
      nat_abs (sample -ℤ toward sample p delta) ≡ before - delta + (delta - before)
unfolding toward
toward_rest sample p delta = elim (Bool-cases (ltb_ℤ (sample -ℤ p) (pos 0))) [
  | inl below ↦ rw below (
      ground (
        arith,
        -ℤ_parts sample p,
        -ℤ_parts p (pos delta),
        -ℤ_parts sample (p -ℤ pos delta),
        one_part (sample -ℤ p),
        one_part (sample -ℤ (p -ℤ pos delta)),
      ))
  | inr above ↦ rw above (
      ground (
        arith,
        -ℤ_parts sample p,
        +ℤ_parts p (pos delta),
        -ℤ_parts sample (p +ℤ pos delta),
        one_part (sample -ℤ p),
        one_part (sample -ℤ (p +ℤ pos delta)),
      ))
]

-- The prediction after the sample, as a move towards it.
nibble-toward :
    (sample : ℤ) (c : Channel)
    → let d = sample -ℤ c.predictor in
      let t = searched (step_of c.index) (nat_abs d) (ltb_ℤ d (pos 0)) in
      (old3ds_adpcm_nibble sample c).1.predictor ≡ clamp_s16 (toward sample c.predictor t.delta)
unfolding old3ds_adpcm_nibble toward
nibble-toward sample c =
    let d = sample -ℤ c.predictor in
    ground (arith, searched_lem (step_of c.index) (nat_abs d) (ltb_ℤ d (pos 0)))

-- After a sample the prediction is off by no more than before, or than an eighth of the step;
-- where the sample was within two steps, it is off by at most an eighth of the step plus 2.
pub nibble_error :
    (sample : ℤ) (c : Channel)
    → IsInt16 sample
    → let c' = (old3ds_adpcm_nibble sample c).1 in
      let step = step_of c.index in
      let before = nat_abs (sample -ℤ c.predictor) in
      let after = nat_abs (sample -ℤ c'.predictor) in
      (after ≤ max before (step / 8)) × ((2 * step ≤ before) ⊎ (after ≤ step / 8 + 2))
nibble_error sample c h =
    let d = sample -ℤ c.predictor in
    let step = step_of c.index in
    let t = searched step (nat_abs d) (ltb_ℤ d (pos 0)) in
    let m = toward sample c.predictor t.delta in
    let rest = searched_rest step (nat_abs d) (ltb_ℤ d (pos 0)) in
    let nearer = clamp_nearer sample m h in
    let left = toward_rest sample c.predictor t.delta in
    rw (nibble-toward sample c)
      (omega (arith, rest.0, left, nearer), ground (arith, rest.0, rest.1, left, nearer))
