-- ===== src/Bridge/Operations.antt =====
-- What the bridge's operations do to the map of sources, and what they send.
use capture2cloud.Base.{
  ℕ, ◌≡◌, refl, sym, ◌∙◌, inl, inr, arith, Bool, true, false, ◌&&◌, ◌==◌, List, [], ◌∷◌, ◌++◌,
  Option, none, some, length, length-set, if◌then◌else◌, ==_iff, set, set-append_here,
}
use capture2cloud.Controller.{ControllerState}
use capture2cloud.Bridge.{GamepadSource, chosen_slot}
use capture2cloud.Bridge.Sources.{uses, Absent, Place, chosen_slot_lem}
use capture2cloud.Bridge.Table.{view, Unique, view-append, view-append_other, view_own, uses_parts}

-- Putting an entry in the slot chosen for its key.
abbrev pub stored : ℕ → GamepadSource → List GamepadSource → List GamepadSource
stored key entry sources = elim (chosen_slot key sources) [
  | none ↦ sources
  | some k ↦ set sources k entry
]

-- A slot for the key is there.
abbrev pub has_room : ℕ → List GamepadSource → Bool
has_room key sources = elim (chosen_slot key sources) [ none ↦ false | some k ↦ true ]

view_stored_here :
    (key : ℕ) (sources : List GamepadSource) (position : ℕ) (entry : GamepadSource)
    → Place 0 key sources position
    → uses key entry ≡ true
    → view key (set sources position entry) ≡ some entry
view_stored_here key sources position entry p own =
    let e : position ≡ length p.before = omega (arith, p.at_here) in
    rw (p.whole, e, set-append_here p.before p.after p.here entry)
      (view-append key p.before (entry ∷ p.after) p.none_before ∙ view_own key entry p.after own)

uses_ne :
    (source key : ℕ) (src : GamepadSource)
    → (key == source) ≡ false
    → uses source src ≡ true
    → uses key src ≡ false
uses_ne source key src ne own = ground (arith, uses_parts source src own)

not_other :
    (source key position : ℕ) (sources : List GamepadSource) (p : Place 0 source sources position)
    → (key == source) ≡ false
    → uses key p.here ≡ false
not_other source key position sources p ne = elim p.own_or_free [
  | inl own ↦ uses_ne source key p.here ne own
  | inr free ↦ rw free.0
]

view_stored_other :
    (source key : ℕ) (sources : List GamepadSource) (position : ℕ) (entry : GamepadSource)
    → Place 0 source sources position
    → uses source entry ≡ true
    → (key == source) ≡ false
    → view key (set sources position entry) ≡ view key sources
view_stored_other source key sources position entry p own ne =
    let e : position ≡ length p.before = omega (arith, p.at_here) in
    rw (p.whole, e, set-append_here p.before p.after p.here entry)
      (view-append_other key p.before entry p.here p.after (uses_ne source key entry ne own)
        (not_other source key position sources p ne))

Absent-replaced :
    (key : ℕ) (before : List GamepadSource) (here entry : GamepadSource)
    (after : List GamepadSource)
    → Absent key (before ++ here ∷ after)
    → uses key entry ≡ false
    → Absent key (before ++ entry ∷ after)
unfolding Absent
Absent-replaced key [] here entry after h e = (e, h.1)
Absent-replaced key (src ∷ before) here entry after h e =
    (h.0, Absent-replaced key before here entry after h.1 e)

Absent-after :
    (source : ℕ) (before : List GamepadSource) (here : GamepadSource) (after : List GamepadSource)
    → Unique (before ++ here ∷ after)
    → uses source here ≡ true
    → Absent source after
unfolding Unique
Absent-after source [] here after h own =
    let parts = uses_parts source here own in rw (← parts.1) (h.0 parts.0)
Absent-after source (src ∷ before) here after h own = Absent-after source before here after h.1 own

Unique-replaced :
    (source : ℕ) (before : List GamepadSource) (here entry : GamepadSource)
    (after : List GamepadSource)
    → Unique (before ++ here ∷ after)
    → Absent source before
    → entry.key ≡ source
    → Absent source after
    → Unique (before ++ entry ∷ after)
unfolding Unique Absent
Unique-replaced source [] here entry after h b k a = ((λ _. rw k a), h.1)
Unique-replaced source (src ∷ before) here entry after h b k a = (
  λ used. Absent-replaced src.key before here entry after (h.0 used) (ground (arith, b.0, used, k)),
  Unique-replaced source before here entry after h.1 b.1 k a,
)

-- What an update writes to its slot.
abbrev pub entry_of : ℕ → ℕ → ControllerState → GamepadSource
entry_of now source state = record { in_use = true; key = source; last_ms = now; state = state }

entry_own :
    (now source : ℕ) (state : ControllerState) → uses source (entry_of now source state) ≡ true
entry_own now source state = ground arith

Unique-stored_at :
    (source position : ℕ) (sources : List GamepadSource) (entry : GamepadSource)
    → Place 0 source sources position
    → entry.key ≡ source
    → Unique sources
    → Unique (set sources position entry)
Unique-stored_at source position sources entry p k u =
    let e : position ≡ length p.before = omega (arith, p.at_here) in
    let split : Unique (p.before ++ p.here ∷ p.after) = rw (← p.whole) u in
    let after : Absent source p.after = elim p.own_or_free [
      | inl own ↦ Absent-after source p.before p.here p.after split own
      | inr free ↦ free.1
    ] in
    rw (p.whole, e, set-append_here p.before p.after p.here entry)
      (Unique-replaced source p.before p.here entry p.after split p.none_before k after)

abbrev pub after_update : ℕ → ℕ → ControllerState → List GamepadSource → List GamepadSource
after_update now source state sources = stored source (entry_of now source state) sources

stored_full :
    (key : ℕ) (entry : GamepadSource) (sources : List GamepadSource)
    → chosen_slot key sources ≡ none
    → (stored key entry sources ≡ sources) × (has_room key sources ≡ false)
stored_full key entry sources h = (rw (stored, h), rw (has_room, h))

stored_room :
    (key position : ℕ) (entry : GamepadSource) (sources : List GamepadSource)
    → chosen_slot key sources ≡ some position
    → (stored key entry sources ≡ set sources position entry) × (has_room key sources ≡ true)
stored_room key position entry sources h = (rw (stored, h), rw (has_room, h))

unfoldable pub condition : Bool → Bool → GamepadSource → Option GamepadSource → Option GamepadSource
condition same room entry found = if same && room then some entry else found

condition_full :
    (same : Bool) (entry : GamepadSource) (found : Option GamepadSource)
    → found ≡ condition same false entry found
unfolding condition
condition_full true entry found = refl
condition_full false entry found = refl

view-stored_room :
    (source key position : ℕ) (entry : GamepadSource) (sources : List GamepadSource) (same : Bool)
    → same ≡ (key == source)
    → Place 0 source sources position
    → uses source entry ≡ true
    → view key (set sources position entry) ≡ condition same true entry (view key sources)
unfolding condition
view-stored_room source key position entry sources true h p own =
    let e : key ≡ source = (==_iff key source).0 (sym h) in
    rw e (view_stored_here source sources position entry p own)
view-stored_room source key position entry sources false h p own =
    view_stored_other source key sources position entry p own (sym h)

-- Also the table's size.
pub view-after_update :
    (now source key : ℕ) (state : ControllerState) (sources : List GamepadSource)
    → Unique sources
    → let table = after_update now source state sources in
      (view key table
        ≡ condition
            (key == source)
            (has_room source sources)
            (entry_of now source state)
            (view key sources))
      × Unique table
      × (length table ≡ length sources)
view-after_update now source key state sources u =
    let entry = entry_of now source state in
    elim (chosen_slot_lem source sources) [
      | inr full ↦
          let e = stored_full source entry sources full.0 in
          rw (e.0, e.1) (condition_full (key == source) entry (view key sources), u, refl)
      | inl room ↦
          let e = stored_room source room.0 entry sources room.1 in
          rw (e.0, e.1)
            (
              view-stored_room source key room.0 entry sources (key == source) refl room.2
                  (entry_own now source state),
              Unique-stored_at source room.0 sources entry room.2 refl u,
              length-set sources room.0 entry,
            )
    ]
