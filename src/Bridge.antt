-- ===== src/Bridge.antt =====
-- server/gamepad_bridge.c: up to eight sources drive the console at once; the bridge keeps the
-- state of each, merges them and hands the result to the selected output backend.
pub mod Registry
pub mod Merge
pub mod Sources
pub mod Table
pub mod Operations
pub mod Promises
mod Tests
use capture2cloud.Base.{
  ℕ, zero, suc, ◌+◌, ◌-◌, ◌%◌, List, [], ◌∷◌, map, Bool, true, false, not, ◌&&◌, ◌||◌, ltb, ◌==◌,
  if◌then◌else◌, Option, none, some, ℤ, pos, nat_abs, ltb_ℤ, int8, set, get_or, replicate,
}
use capture2cloud.Controller.{ControllerState, slot, state_count, rx, ry, lx, ly}
use capture2cloud.Controller.Shaping.{
  Floats, ControllerShaping, controller_shape_state, output_defaults,
}

abbrev pub max_sources : ℕ
max_sources = 8

abbrev pub source_timeout_ms : ℕ
source_timeout_ms = 1500

pub record GamepadSource : Type 0 where
  pub in_use : Bool
  pub key : ℕ
  pub last_ms : ℕ
  pub state : ControllerState

-- A slot that `memset` has cleared.
abbrev pub unused : GamepadSource
unused = record { in_use = false; key = 0; last_ms = 0; state = replicate state_count (pos 0) }

abbrev pub is_axis : ℕ → Bool
is_axis i = i == rx || (i == ry || (i == lx || i == ly))

-- `now - src->last_ms > GAMEPAD_SOURCE_TIMEOUT_MS`, on 32 bits.
abbrev pub is_stale : ℕ → GamepadSource → Bool
is_stale now src = ltb source_timeout_ms ((now + 4294967296 - src.last_ms) % 4294967296)

-- One slot of the merged state, given the source's value.
unfoldable pub merge_value : ℕ → ℤ → ℤ → ℤ
merge_value i v m =
    if is_axis i
    then (if ltb (nat_abs m) (nat_abs v) then int8 v else m)
    else if ltb_ℤ m v
    then int8 v
    else m

-- The loop over the slots from `i` on.
unfoldable pub merge_from : ℕ → ControllerState → ControllerState → ControllerState
merge_from i state [] = []
merge_from i state (m ∷ merged) = merge_value i (slot state i) m ∷ merge_from (i + 1) state merged

abbrev pub is_live : ℕ → GamepadSource → Bool
is_live now src = src.in_use && not (is_stale now src)

-- What the loop leaves in a source.
abbrev pub expired : ℕ → GamepadSource → GamepadSource
expired now src = if src.in_use && is_stale now src then record src { in_use = false } else src

-- The loop over the sources.
unfoldable pub merge_sources :
    ℕ → List GamepadSource → ControllerState → List GamepadSource × ControllerState
merge_sources now [] merged = ([], merged)
merge_sources now (src ∷ sources) merged =
    let next = if is_live now src then merge_from 0 src.state merged else merged in
    let rest = merge_sources now sources next in (expired now src ∷ rest.0, rest.1)

-- The slot that holds the source, and the first free one before it, as far as the loop looks.
unfoldable pub search_slot : ℕ → ℕ → Option ℕ → List GamepadSource → Option ℕ × Option ℕ
search_slot i source free [] = (none, free)
search_slot i source free (src ∷ sources) =
    let first_free : Option ℕ =
      if src.in_use then free else elim free [ none ↦ some i | some k ↦ some k ] in
    let rest = search_slot (i + 1) source first_free sources in
    if src.in_use && src.key == source then (some i, free) else rest

-- `slot` after `if (slot < 0) slot = free_slot;`.
unfoldable pub chosen_slot : ℕ → List GamepadSource → Option ℕ
chosen_slot source sources =
    let found = search_slot 0 source none sources in
    elim found.0 [ none ↦ found.1 | some k ↦ some k ]

-- What the bridge does to a backend.
pub data Call : Type 0 where
  init_call : Call
  update_call : ControllerState → Call
  reset_call : Call
  service_call : Call
  press_home_call : Call
  press_capture_call : Call
  shutdown_call : Call

-- A `GamepadOutputBackend`: its name, which functions it has, and what `init` and the queries
-- answer.
pub record Backend : Type 0 where
  pub name : List ℕ
  pub init : Option Bool
  pub update : Bool
  pub reset : Bool
  pub service : Bool
  pub press_home : Bool
  pub press_capture : Bool
  pub shutdown : Bool
  pub link_up : Option Bool

-- The file's variables.
pub record Bridge : Type 0 where
  pub sources : List GamepadSource
  pub mutex : Bool
  pub backend : Option Backend
  pub shaping : ControllerShaping
  pub configured : Option ℕ

abbrev pub empty_sources : List GamepadSource
empty_sources = replicate max_sources unused

-- `if (f) f();`
abbrev pub call_if : Bool → Call → List Call
call_if true c = c ∷ []
call_if false c = []

-- A slot of the source that `gamepad_bridge_forget` is given is free.
abbrev pub freed : ℕ → GamepadSource → GamepadSource
freed source src = if src.in_use && src.key == source then record src { in_use = false } else src

module _ (f : Floats) where
  -- The merged and shaped state, and the sources after it. `now` is SDL's clock.
  unfoldable pub recombine : ℕ → Bridge → Bridge × ControllerState
  recombine now b =
      let merged = merge_sources now b.sources (replicate state_count (pos 0)) in
      (record b { sources = merged.0 }, controller_shape_state f (some b.shaping) merged.1)

  -- `recombine` and the call of the backend's `update`.
  unfoldable pub sent : ℕ → Backend → Bridge → Bridge × List Call
  sent now backend b = let r = recombine now b in (r.0, call_if backend.update (update_call r.1))

  -- The clock is read for the slot, at `now`, and again to recombine, at `later`.
  unfoldable pub gamepad_bridge_update : ℕ → ℕ → ℕ → ControllerState → Bridge → Bridge × List Call
  gamepad_bridge_update now later source state b =
      let written : GamepadSource = record {
        in_use = true;
        key = source;
        last_ms = now;
        state = state;
      } in
      let table : List GamepadSource = elim (chosen_slot source b.sources) [
        | none ↦ b.sources
        | some k ↦ set b.sources k written
      ] in
      let stored = record b { sources = table } in
      elim b.backend [
        | none ↦ (b, [])
        | some backend ↦ if b.mutex then sent later backend stored else (b, [])
      ]

  unfoldable pub gamepad_bridge_forget : ℕ → ℕ → Bridge → Bridge × List Call
  gamepad_bridge_forget now source b =
      let left = record b { sources = map (freed source) b.sources } in
      elim b.backend [
        | none ↦ (b, [])
        | some backend ↦ if b.mutex then sent now backend left else (b, [])
      ]

  unfoldable pub gamepad_bridge_set_output_shaping :
      ℕ → Option ControllerShaping → Bridge → Bridge × List Call
  gamepad_bridge_set_output_shaping now none b = (b, [])
  gamepad_bridge_set_output_shaping now (some s) b =
      let shaped = record b { shaping = s } in
      let r = recombine now shaped in
      if not b.mutex
      then (shaped, [])
      else elim b.backend [ none ↦ (r.0, []) | some backend ↦ sent now backend shaped ]

unfoldable pub gamepad_bridge_reset : Bridge → List Call
gamepad_bridge_reset b = elim b.backend [ none ↦ [] | some d ↦ call_if d.reset reset_call ]

unfoldable pub gamepad_bridge_service : Bridge → List Call
gamepad_bridge_service b = elim b.backend [ none ↦ [] | some d ↦ call_if d.service service_call ]

unfoldable pub gamepad_bridge_press_home : Bridge → List Call
gamepad_bridge_press_home b = elim b.backend [
  | none ↦ []
  | some d ↦ call_if d.press_home press_home_call
]

unfoldable pub gamepad_bridge_press_capture : Bridge → List Call
gamepad_bridge_press_capture b = elim b.backend [
  | none ↦ []
  | some d ↦ call_if d.press_capture press_capture_call
]

unfoldable pub gamepad_bridge_link_up : Bridge → Bool
gamepad_bridge_link_up b = elim b.backend [
  | none ↦ false
  | some d ↦ elim d.link_up [ none ↦ false | some up ↦ up ]
]

unfoldable pub gamepad_bridge_shutdown : Bridge → Bridge × List Call
gamepad_bridge_shutdown b = (
  record b { sources = empty_sources; mutex = false; backend = none },
  elim b.backend [ none ↦ [] | some d ↦ call_if d.shutdown shutdown_call ],
)
