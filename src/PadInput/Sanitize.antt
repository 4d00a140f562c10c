-- ===== src/PadInput/Sanitize.antt =====
-- What the settings satisfy after `input_config_sanitize`.
use capture2cloud.Base.{ℕ, ◌≤◌, ◌≡◌, refl, arith, true, Bool-cases, inl, inr}
use capture2cloud.PadInput.{
  InputConfig, ranged, capped, truth, limited, map_is_good, bindable_slot,
  input_config_reset_bindings, input_config_sanitize,
}

-- The limits that the scaling of an axis relies on.
pub record HasLimits (config : InputConfig) : Type 0 where
  pub deadzones : (config.deadzone_left ≤ 40) × (config.deadzone_right ≤ 40)
  pub ranges_low : (45 ≤ config.range_left) × (45 ≤ config.range_right)
  pub ranges_high : (config.range_left ≤ 100) × (config.range_right ≤ 100)
  pub flags : (config.invert_y ≤ 1) × (config.face_by_position ≤ 1)

capped_le : (v : ℕ) → capped 40 v ≤ 40
capped_le v = ground arith

ranged_lem : (dead v : ℕ) → dead ≤ 40 → (45 ≤ ranged dead v) × (ranged dead v ≤ 100)
ranged_lem dead v h = (ground arith, ground arith)

truth_le : (v : ℕ) → truth v ≤ 1
truth_le v = ground arith

limited-HasLimits : (config : InputConfig) → HasLimits (limited config)
limited-HasLimits config =
    let left =
      ranged_lem (capped 40 config.deadzone_left) config.range_left
        (capped_le config.deadzone_left) in
    let right =
      ranged_lem (capped 40 config.deadzone_right) config.range_right
        (capped_le config.deadzone_right) in
    record {
      deadzones = (capped_le config.deadzone_left, capped_le config.deadzone_right);
      ranges_low = (left.0, right.0);
      ranges_high = (left.1, right.1);
      flags = (truth_le config.invert_y, truth_le config.face_by_position);
    }

reset-HasLimits :
    (config : InputConfig) → HasLimits config → HasLimits (input_config_reset_bindings config)
unfolding input_config_reset_bindings
reset-HasLimits config h = record {
  deadzones = h.deadzones;
  ranges_low = h.ranges_low;
  ranges_high = h.ranges_high;
  flags = (h.flags.0, omega arith);
}

reset_map_is_good :
    (config : InputConfig) → map_is_good 0 (input_config_reset_bindings config).button_map ≡ true
unfolding input_config_reset_bindings map_is_good bindable_slot
reset_map_is_good config = refl

-- Whatever the settings, after `input_config_sanitize` they are within the limits and the loop
-- over the button map finds nothing to object to.
pub sanitize-HasLimits :
    (config : InputConfig)
    → let clean = input_config_sanitize config in
      HasLimits clean × (map_is_good 0 clean.button_map ≡ true)
unfolding input_config_sanitize
sanitize-HasLimits config = elim (Bool-cases (map_is_good 0 config.button_map)) [
  | inl good ↦ rw good (limited-HasLimits config, good)
  | inr bad ↦ rw bad (
    reset-HasLimits (limited config) (limited-HasLimits config),
    reset_map_is_good (limited config),
  )
]
