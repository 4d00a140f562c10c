-- ===== src/PadInput/Tests.antt =====
-- Runs of the bindings and of the axis.
use capture2cloud.Base.{◌≡◌, refl, arith, true, [], ◌∷◌, some, length, pos}
use capture2cloud.PadInput.{
  InputConfig, default_button_map, bindable_slot, map_is_good, input_config_bind,
  input_config_physical_for_slot, button_count,
}
use capture2cloud.PadInput.Seen.{at_button, IsBinding}
use capture2cloud.PadInput.Bind.{bind-IsBinding}

-- Settings with two buttons on one slot.
abbrev broken : InputConfig
broken = record {
  deadzone_left = 60;
  deadzone_right = 3;
  range_left = 20;
  range_right = 200;
  invert_y = 7;
  face_by_position = 0;
  button_map = 18 ∷ 18 ∷ 17 ∷ 20 ∷ 8 ∷ 5 ∷ 6 ∷ 3 ∷ 7 ∷ 4 ∷ 2 ∷ 1 ∷ 15 ∷ 13 ∷ 16 ∷ 14 ∷ [];
}

default_bindable : bindable_slot 13 ≡ true
unfolding bindable_slot
default_bindable = refl

default_is_good : map_is_good 0 default_button_map ≡ true
unfolding map_is_good bindable_slot
default_is_good = refl

bind-IsBinding_example :
    let after = input_config_bind broken (pos 4) (pos 13) in
    IsBinding after.button_map
    × (length after.button_map ≡ button_count)
    × (at_button after.button_map 4 ≡ 13)
    × (input_config_physical_for_slot after 13 ≡ some 4)
bind-IsBinding_example = bind-IsBinding broken 4 13 refl (omega arith) default_bindable
