-- ===== src/Bridge/Registry.antt =====
-- The registry of output backends in server/gamepad_bridge.c, the search for one by name, and
-- the start of the bridge.
pub mod Names
use capture2cloud.Base.{
  ℕ, zero, suc, ◌+◌, List, [], ◌∷◌, Bool, true, false, not, ◌&&◌, ltb, leb, ◌==◌, if◌then◌else◌,
  Option, none, some, length, codes, get_elem?,
}
use capture2cloud.Bridge.{Backend, Bridge, Call, init_call, empty_sources}

-- An entry; `none` is a null pointer. `factory` says whether there is one.
pub record BackendEntry : Type 0 where
  pub name : List ℕ
  pub label : List ℕ
  pub maintenance_label : Option (List ℕ)
  pub factory : Bool

abbrev pub backends : List BackendEntry
backends =
    record {
      name = codes "titan";
      label = codes "Titan / ConsoleTuner USB";
      maintenance_label = some (codes "re-enumerate Titan adapter");
      factory = true;
    }
    ∷ record {
      name = codes "pcble";
      label = codes "pcble2gamepad";
      maintenance_label = some (codes "reconnect paired Switch");
      factory = true;
    }
    ∷ record {
      name = codes "jocp";
      label = codes "JOCP / Pico 2 W";
      maintenance_label = none;
      factory = false;
    }
    ∷ []

unfoldable pub gamepad_bridge_backend_count : ℕ
gamepad_bridge_backend_count = length backends

-- An index that is negative is handled like one that is too large.
unfoldable pub gamepad_bridge_backend_name_at : ℕ → List ℕ
gamepad_bridge_backend_name_at index = elim (get_elem? backends index) [
  | none ↦ []
  | some e ↦ e.name
]

unfoldable pub gamepad_bridge_backend_label : ℕ → List ℕ
gamepad_bridge_backend_label index = elim (get_elem? backends index) [
  | none ↦ codes "Unknown backend"
  | some e ↦ e.label
]

unfoldable pub gamepad_bridge_backend_maintenance_label : ℕ → List ℕ
gamepad_bridge_backend_maintenance_label index = elim (get_elem? backends index) [
  | none ↦ []
  | some e ↦ elim e.maintenance_label [ none ↦ [] | some l ↦ l ]
]

unfoldable pub gamepad_bridge_backend_available : ℕ → Bool
gamepad_bridge_backend_available index = elim (get_elem? backends index) [
  | none ↦ false
  | some e ↦ e.factory
]

-- `tolower` in the C locale.
abbrev pub to_lower : ℕ → ℕ
to_lower c = if leb 65 c && leb c 90 then c + 32 else c

-- `strcasecmp(a, b) == 0`.
unfoldable pub same_name : List ℕ → List ℕ → Bool
same_name [] [] = true
same_name [] (c ∷ b) = false
same_name (c ∷ a) [] = false
same_name (c ∷ a) (d ∷ b) = (to_lower c == to_lower d) && same_name a b

-- The loop over the registry, from `i` on.
unfoldable pub named_from : ℕ → List BackendEntry → List ℕ → Option ℕ
named_from i [] name = none
named_from i (e ∷ entries) name =
    let rest = named_from (i + 1) entries name in if same_name e.name name then some i else rest

unfoldable pub gamepad_bridge_backend_from_name : List ℕ → Option ℕ
gamepad_bridge_backend_from_name [] = none
gamepad_bridge_backend_from_name (c ∷ name) = named_from 0 backends (c ∷ name)

-- The start: `wanted` is the setting, `make` what the factories return, `mutex_made` whether SDL
-- has a mutex to give. The result is C's truth value.
unfoldable pub gamepad_bridge_init :
    List ℕ → (ℕ → Option Backend) → Bool → Bridge → Bridge × Bool × List Call
gamepad_bridge_init wanted make mutex_made b =
    let found = gamepad_bridge_backend_from_name wanted in
    let named = record b { configured = found } in
    let failed : Bridge × Bool × List Call = (named, false, []) in
    elim b.backend [
      | some running ↦ (b, true, [])
      | none ↦ elim found [
        | none ↦ failed
        | some index ↦ elim (if gamepad_bridge_backend_available index then make index else none) [
          | none ↦ failed
          | some backend ↦
              let cleared = record named { sources = empty_sources } in
              if not mutex_made then failed else elim backend.init [
                | none ↦ (record cleared { mutex = false }, false, [])
                | some false ↦ (record cleared { mutex = false }, false, init_call ∷ [])
                | some true ↦
                    (record cleared { mutex = true; backend = some backend }, true, init_call ∷ [])
              ]
        ]
      ]
    ]
