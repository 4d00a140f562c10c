-- ===== src/Bridge/Tests.antt =====
-- Runs of the bridge.
mod Arithmetic
use capture2cloud.Base.{
  ℕ, ◌+◌, ◌<◌, ◌≡◌, refl, ◌⊎◌, arith, ◌++◌, Bool, true, false, ◌&&◌, ◌==◌, List, [], ◌∷◌, Option,
  none, some, length, map, if◌then◌else◌, ℤ, pos, negsuc, replicate, codes, neg, tdiv, scale, ◌+ℤ◌,
  ◌-ℤ◌, ltb_ℤ, not, nat_abs,
}
use capture2cloud.Controller.{ControllerState, slot, state_count, lx, IsState}
use capture2cloud.Controller.Shaping.{Floats, output_defaults}
use capture2cloud.Bridge.{
  GamepadSource, unused, Backend, Bridge, merge_sources, gamepad_bridge_update,
  gamepad_bridge_forget,
}
use capture2cloud.Bridge.Merge.{IsHeld, HeldDown, slot-merged, AllStates}
use capture2cloud.Bridge.Table.{view, Unique, fresh}
use capture2cloud.Bridge.Operations.{has_room, entry_of}
use capture2cloud.Bridge.Promises.{view-update, view-forget}
use capture2cloud.Bridge.Registry.{
  gamepad_bridge_backend_count, gamepad_bridge_backend_name_at, gamepad_bridge_backend_from_name,
  same_name, named_from,
}
use capture2cloud.Bridge.Registry.Names.{from_name-name_at, name_at-from_name, to_upper}
use capture2cloud.Bridge.Tests.Arithmetic.{whole}

abbrev pushed : ControllerState
pushed = replicate 11 (pos 0) ++ negsuc 69 ∷ replicate 9 (pos 100)

abbrev browser : GamepadSource
browser = record { in_use = true; key = 0x100; last_ms = 4000; state = pushed }

abbrev native : GamepadSource
native = record {
  in_use = true;
  key = 0x200;
  last_ms = 2000;
  state = replicate state_count (pos 50);
}

abbrev table : List GamepadSource
table = native ∷ unused ∷ browser ∷ replicate 5 unused

abbrev titan : Backend
titan = record {
  name = codes "titan";
  init = some true;
  update = true;
  reset = true;
  service = true;
  press_home = true;
  press_capture = false;
  shutdown = true;
  link_up = some true;
}

abbrev running : Bridge
running = record {
  sources = table;
  mutex = true;
  backend = some titan;
  shaping = output_defaults;
  configured = some 0;
}

table-Unique : Unique table
unfolding Unique capture2cloud.Bridge.Sources.Absent
table-Unique = (
  (λ _. (refl, (refl, (refl, (refl, (refl, (refl, (refl, tt)))))))),
  (
    no,
    ((λ _. (refl, (refl, (refl, (refl, (refl, tt)))))), (no, (no, (no, (no, ((λ _. tt), tt)))))),
  ),
)
  where
    no : {A : Type 0} → false ≡ true → A
    no e = absurd (ground (arith, e))

zero-IsState : IsState (replicate state_count (pos 0))
zero-IsState = (refl, ground arith)

fifty-IsState : IsState (replicate state_count (pos 50))
fifty-IsState = (refl, ground arith)

pushed-IsState : IsState pushed
pushed-IsState = (refl, ground arith)

table-AllStates : AllStates table
unfolding AllStates
table-AllStates = (
  fifty-IsState,
  (
    zero-IsState,
    (
      pushed-IsState,
      (zero-IsState, (zero-IsState, (zero-IsState, (zero-IsState, (zero-IsState, tt))))),
    ),
  ),
)

slot-merged_example :
    let v = slot (merge_sources 4100 table (replicate state_count (pos 0))).1 lx in
    ((v ≡ pos 0) ⊎ IsHeld 4100 lx v table) × HeldDown 4100 lx v table
slot-merged_example = slot-merged 4100 lx table table-AllStates (omega arith)

view-update_example :
    let after = (gamepad_bridge_update whole 4200 4201 0x300 pushed running).0 in
    (view 0x300 after.sources
      ≡ fresh 4201 (
          if (0x300 == 0x300) && has_room 0x300 table
          then some (entry_of 4200 0x300 pushed)
          else view 0x300 table))
    × Unique after.sources
    × (length after.sources ≡ length table)
view-update_example =
    view-update whole 4200 4201 0x300 0x300 pushed running titan refl refl table-Unique

pcble_found : gamepad_bridge_backend_from_name (codes "PcBle") ≡ some 1
unfolding gamepad_bridge_backend_from_name named_from same_name
pcble_found = refl
