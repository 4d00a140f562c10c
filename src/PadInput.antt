-- ===== src/PadInput.antt =====
-- wiiu_console/src/input.c: the Wii U console client's button bindings, its settings for the
-- sticks, and the scaling of a raw axis to the wire's percentages.
pub mod Sanitize
pub mod Seen
pub mod Swap
pub mod Bind
pub mod Axis
mod Tests
use capture2cloud.Base.{
  ℕ, zero, suc, ◌+◌, ◌-◌, ◌*◌, ◌/◌, List, [], ◌∷◌, Bool, true, false, not, ◌||◌, ltb, leb, ◌==◌,
  if◌then◌else◌, Option, none, some, ℤ, pos, negsuc, nat_abs, ltb_ℤ, neg, int8, get_or, set, u8,
  bit_and, bit_or, bit_xor, ◌<<◌, codes,
}

abbrev pub button_count : ℕ
button_count = 16

-- The enumeration of `input.h` as far as the maps name it.
abbrev pub default_button_map : List ℕ
default_button_map = 18 ∷ 19 ∷ 17 ∷ 20 ∷ 8 ∷ 5 ∷ 6 ∷ 3 ∷ 7 ∷ 4 ∷ 2 ∷ 1 ∷ 15 ∷ 13 ∷ 16 ∷ 14 ∷ []

abbrev pub bindable_pad_slots : List ℕ
bindable_pad_slots = 19 ∷ 18 ∷ 20 ∷ 17 ∷ 8 ∷ 5 ∷ 6 ∷ 3 ∷ 7 ∷ 4 ∷ 2 ∷ 1 ∷ 15 ∷ 13 ∷ 16 ∷ 14 ∷ []

-- `deadzone` and `range` hold the left and the right stick.
pub record InputConfig : Type 0 where
  pub deadzone_left : ℕ
  pub deadzone_right : ℕ
  pub range_left : ℕ
  pub range_right : ℕ
  pub invert_y : ℕ
  pub face_by_position : ℕ
  pub button_map : List ℕ

-- The loops that look for a value.
abbrev pub among : List ℕ → ℕ → Bool
among [] v = false
among (s ∷ slots) v = s == v || among slots v

unfoldable pub bindable_slot : ℕ → Bool
bindable_slot slot = among bindable_pad_slots slot

unfoldable pub input_config_reset_bindings : InputConfig → InputConfig
input_config_reset_bindings config = record config {
  button_map = default_button_map;
  face_by_position = 1;
}

abbrev capped : ℕ → ℕ → ℕ
capped limit v = if ltb limit v then limit else v

-- The three limits of a range, given the dead zone, in the order of the code; it is stored in a byte.
abbrev ranged : ℕ → ℕ → ℕ
ranged dead v =
    let low = if ltb v 45 then 45 else v in
    let high = if ltb 100 low then 100 else low in if leb high dead then u8 (dead + 1) else high

abbrev truth : ℕ → ℕ
truth v = if v == 0 then 0 else 1

-- The loop over the map with the bits of `seen`: is every slot bindable and new?
unfoldable pub map_is_good : ℕ → List ℕ → Bool
map_is_good seen [] = true
map_is_good seen (slot ∷ slots) =
    let rest = map_is_good (bit_or seen (1 << slot)) slots in
    if not (bindable_slot slot) || not (bit_and seen (1 << slot) == 0) then false else rest

-- The settings after the limits, before the loop over the map.
abbrev limited : InputConfig → InputConfig
limited config =
    let dl = capped 40 config.deadzone_left in
    let dr = capped 40 config.deadzone_right in
    record config {
      deadzone_left = dl;
      deadzone_right = dr;
      range_left = ranged dl config.range_left;
      range_right = ranged dr config.range_right;
      invert_y = truth config.invert_y;
      face_by_position = truth config.face_by_position;
    }

unfoldable pub input_config_sanitize : InputConfig → InputConfig
input_config_sanitize config =
    if map_is_good 0 config.button_map
    then limited config
    else input_config_reset_bindings (limited config)

-- The index of the first element with the value, from `i` on; `none` is -1.
abbrev index_from : ℕ → List ℕ → ℕ → Option ℕ
index_from i [] v = none
index_from i (s ∷ slots) v =
    let rest = index_from (i + 1) slots v in if s == v then some i else rest

unfoldable pub input_config_physical_for_slot : InputConfig → ℕ → Option ℕ
input_config_physical_for_slot config pad_slot = index_from 0 config.button_map pad_slot

-- The map after a binding: the physical button that had the slot, if it is another, takes the
-- old slot.
unfoldable pub rebound : List ℕ → Option ℕ → ℕ → ℕ → List ℕ
rebound buttons none physical_button pad_slot = set buttons physical_button (u8 pad_slot)
rebound buttons (some displaced) physical_button pad_slot =
    let bound = set buttons physical_button (u8 pad_slot) in
    if displaced == physical_button
    then bound
    else set bound displaced (get_or buttons physical_button 0)

-- Both arguments are C's `int`.
unfoldable pub input_config_bind : InputConfig → ℤ → ℤ → InputConfig
input_config_bind config (negsuc n) pad_slot = config
input_config_bind config (pos physical_button) (negsuc n) = config
input_config_bind config (pos physical_button) (pos pad_slot) =
    let clean = input_config_sanitize config in
    let displaced = input_config_physical_for_slot clean pad_slot in
    if leb button_count physical_button || not (bindable_slot pad_slot)
    then config
    else record clean {
      button_map = rebound clean.button_map displaced physical_button pad_slot;
      face_by_position = 0;
    }

-- The button returned, if one is pressed, and the bits left: `fuel` buttons from `i` on.
unfoldable pub take_from : ℕ → ℕ → ℕ → Option ℕ × ℕ
take_from zero i pressed = (none, pressed)
take_from (suc fuel) i pressed =
    let rest = take_from fuel (i + 1) pressed in
    if bit_and pressed (1 << i) == 0 then rest else (some i, pressed - (1 << i))

-- `pressed & ~bit` is `pressed - bit`, as the bit is set.
unfoldable pub input_take_physical_button : ℕ → Option ℕ × ℕ
input_take_physical_button pressed = take_from button_count 0 pressed

abbrev pub stick_raw_max : ℕ
stick_raw_max = 32752

-- The dead zone and the range are those of the stick that the axis belongs to.
unfoldable pub axis_to_wire : ℕ → ℕ → ℤ → ℤ
axis_to_wire deadzone range raw =
    let value = nat_abs raw in
    let dead = stick_raw_max * deadzone / 100 in
    let range0 = stick_raw_max * range / 100 in
    let full = if leb range0 dead then dead + 1 else range0 in
    let held = if ltb full value then full else value in
    let share = (held - dead) * 100 / (full - dead) in
    let scaled = if ltb 100 share then 100 else share in
    if leb value dead
    then pos 0
    else if ltb_ℤ raw (pos 0)
    then int8 (neg (pos scaled))
    else int8 (pos scaled)
