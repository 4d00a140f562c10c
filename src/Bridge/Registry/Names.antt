-- ===== src/Bridge/Registry/Names.antt =====
-- Backends are found by their names, in any spelling of the letters' case; what a start leaves.
use capture2cloud.Base.{
  ℕ, zero, suc, ◌+◌, ◌-◌, ◌<◌, map, get_elem?, ◌≡◌, refl, inl, inr, arith, List, [], ◌∷◌, true,
  ◌&&◌, leb, if◌then◌else◌, some, Bool-cases, length,
}
use capture2cloud.Bridge.Registry.{
  BackendEntry, backends, same_name, named_from, gamepad_bridge_backend_from_name,
  gamepad_bridge_backend_name_at, gamepad_bridge_backend_count,
}

named_from_lem :
    (i k : ℕ) (entries : List BackendEntry) (name : List ℕ)
    → named_from i entries name ≡ some k
    → (j : ℕ) × (e : BackendEntry) × (k ≡ i + j)
      × (j < length entries)
      × (get_elem? entries j ≡ some e)
      × (same_name e.name name ≡ true)
unfolding named_from
named_from_lem i k [] name h = absurd (ground (arith, h))
named_from_lem i k (e ∷ entries) name h = elim (Bool-cases (same_name e.name name)) [
  | inl here ↦
      let at : some i ≡ some k = rw here at h in
      (0, e, omega (arith, unwrapped i k at), omega arith, refl, here)
  | inr further ↦
      let rest = named_from_lem (i + 1) k entries name (rw further at h) in
      (suc rest.0, rest.1, omega (arith, rest.2), omega (arith, rest.3), rest.4, rest.5)
]
  where
    unwrapped : (a b : ℕ) → some a ≡ some b → a ≡ b
    unwrapped a b p = ground (arith, p)

abbrev pub to_upper : ℕ → ℕ
to_upper c = if leb 97 c && leb c 122 then c - 32 else c

-- A name found is an entry's own, up to the case of its letters, of an index that is in the
-- registry.
pub from_name-name_at :
    (name : List ℕ) (index : ℕ)
    → gamepad_bridge_backend_from_name name ≡ some index
    → (index < gamepad_bridge_backend_count)
      × (same_name (gamepad_bridge_backend_name_at index) name ≡ true)
unfolding gamepad_bridge_backend_from_name gamepad_bridge_backend_name_at
    gamepad_bridge_backend_count
from_name-name_at [] index h = absurd (ground (arith, h))
from_name-name_at (c ∷ name) index h =
    let found = named_from_lem 0 index backends (c ∷ name) h in
    let e : index ≡ found.0 = omega (arith, found.2) in rw (e, found.4) (found.3, found.5)

-- Each entry of the registry is found under its own name, and under its name in capitals.
pub name_at-from_name :
    (index : ℕ)
    → index < gamepad_bridge_backend_count
    → let name = gamepad_bridge_backend_name_at index in
      (gamepad_bridge_backend_from_name name ≡ some index)
      × (gamepad_bridge_backend_from_name (map to_upper name) ≡ some index)
unfolding gamepad_bridge_backend_from_name gamepad_bridge_backend_name_at
    gamepad_bridge_backend_count named_from same_name
name_at-from_name zero h = (refl, refl)
name_at-from_name (suc zero) h = (refl, refl)
name_at-from_name (suc (suc zero)) h = (refl, refl)
name_at-from_name (suc (suc (suc i))) h = absurd (omega arith)
