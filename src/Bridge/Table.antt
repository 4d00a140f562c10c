-- ===== src/Bridge/Table.antt =====
-- The table of sources as a map from keys, and what the bridge's operations do to that map.
use capture2cloud.Base.{
  ℕ, ◌≡◌, refl, sym, ap, ◌∙◌, ◌⊎◌, inl, inr, arith, Bool, true, false, ◌&&◌, ◌==◌, List, [], ◌∷◌,
  ◌++◌, map, Option, none, some, Bool-cases, if◌then◌else◌, if_holds,
}
use capture2cloud.Controller.{ControllerState}
use capture2cloud.Bridge.{GamepadSource, is_stale, expired, freed, merge_sources}
use capture2cloud.Bridge.Sources.{uses, Absent}

-- The slot that a key is found in.
unfoldable pub view : ℕ → List GamepadSource → Option GamepadSource
view key [] = none
view key (src ∷ sources) = let rest = view key sources in if uses key src then some src else rest

-- No two slots in use have the same key.
unfoldable pub Unique : List GamepadSource → Type 0
Unique [] = Unit
Unique (src ∷ sources) = (src.in_use ≡ true → Absent src.key sources) × Unique sources

-- An entry that is too old at `now` is none.
abbrev pub fresh : ℕ → Option GamepadSource → Option GamepadSource
fresh now none = none
fresh now (some src) = if is_stale now src then none else some src

pub sources-merge_sources :
    (now : ℕ) (sources : List GamepadSource) (merged : ControllerState)
    → (merge_sources now sources merged).0 ≡ map (expired now) sources
unfolding merge_sources
sources-merge_sources now [] merged = refl
sources-merge_sources now (src ∷ sources) merged =
    ap (λ t. expired now src ∷ t) (sources-merge_sources now sources _)

view-Absent :
    (key : ℕ) (sources : List GamepadSource) → Absent key sources → view key sources ≡ none
unfolding view Absent
view-Absent key [] h = refl
view-Absent key (src ∷ sources) h = rw h.0 (view-Absent key sources h.1)

pub view-append :
    (key : ℕ) (before rest : List GamepadSource)
    → Absent key before
    → view key (before ++ rest) ≡ view key rest
unfolding view Absent
view-append key [] rest h = refl
view-append key (src ∷ before) rest h = rw h.0 (view-append key before rest h.1)

pub view_own :
    (key : ℕ) (src : GamepadSource) (sources : List GamepadSource)
    → uses key src ≡ true
    → view key (src ∷ sources) ≡ some src
unfolding view
view_own key src sources h = rw h

view_other :
    (key : ℕ) (src : GamepadSource) (sources : List GamepadSource)
    → uses key src ≡ false
    → view key (src ∷ sources) ≡ view key sources
unfolding view
view_other key src sources h = rw h

-- A slot that is in use, if at all, by other keys than `key`, counts for nothing.
pub view-append_other :
    (key : ℕ) (before : List GamepadSource) (a b : GamepadSource) (after : List GamepadSource)
    → uses key a ≡ false
    → uses key b ≡ false
    → view key (before ++ a ∷ after) ≡ view key (before ++ b ∷ after)
unfolding view
view-append_other key [] a b after p q = rw (p, q)
view-append_other key (src ∷ before) a b after p q =
    ap (λ t. if uses key src then some src else t) (view-append_other key before a b after p q)

-- Freeing the slots that `p` picks, in the way `recombine` and `gamepad_bridge_forget` do.
dropped : (GamepadSource → Bool) → GamepadSource → GamepadSource
dropped p src = if p src then record src { in_use = false } else src

pub uses_parts :
    (key : ℕ) (src : GamepadSource) → uses key src ≡ true → (src.in_use ≡ true) × (src.key ≡ key)
uses_parts key src h = ground arith

uses-dropped :
    (p : GamepadSource → Bool) (key : ℕ) (src : GamepadSource)
    → (uses key src ≡ false) ⊎ (p src ≡ true)
    → uses key (dropped p src) ≡ false
unfolding dropped
uses-dropped p key src (inl other) =
    if_holds (λ (s : GamepadSource). uses key s ≡ false) (p src) refl other
uses-dropped p key src (inr picked) = rw picked

Absent-dropped :
    (p : GamepadSource → Bool) (key : ℕ) (sources : List GamepadSource)
    → Absent key sources
    → Absent key (map (dropped p) sources)
unfolding Absent
Absent-dropped p key [] h = tt
Absent-dropped p key (src ∷ sources) h =
    (uses-dropped p key src (inl h.0), Absent-dropped p key sources h.1)

Unique-dropped :
    (p : GamepadSource → Bool) (sources : List GamepadSource)
    → Unique sources
    → Unique (map (dropped p) sources)
unfolding Unique dropped
Unique-dropped p [] h = tt
Unique-dropped p (src ∷ sources) h = (
  if_holds (λ (s : GamepadSource). s.in_use ≡ true → Absent s.key (map (dropped p) sources)) (p src)
      (λ e. absurd (ground (arith, e))) (λ e. Absent-dropped p src.key sources (h.0 e)),
  Unique-dropped p sources h.1,
)

kept : (GamepadSource → Bool) → Option GamepadSource → Option GamepadSource
kept p none = none
kept p (some src) = if p src then none else some src

dropped_same :
    (p : GamepadSource → Bool) (src : GamepadSource) → p src ≡ false → dropped p src ≡ src
unfolding dropped
dropped_same p src h = rw h

-- The entry itself, where its slot is the first of the list.
view-dropped_own :
    (p : GamepadSource → Bool) (key : ℕ) (src : GamepadSource) (sources : List GamepadSource)
    → Absent key sources
    → uses key src ≡ true
    → view key (dropped p src ∷ map (dropped p) sources) ≡ kept p (some src)
unfolding kept
view-dropped_own p key src sources absent own =
    let gone = view-Absent key (map (dropped p) sources) (Absent-dropped p key sources absent) in
    elim (Bool-cases (p src)) [
      | inl picked ↦ rw picked (
          view_other key (dropped p src) (map (dropped p) sources)
            (uses-dropped p key src (inr picked))
          ∙ gone)
      | inr left ↦
          rw (left, dropped_same p src left) (view_own key src (map (dropped p) sources) own)
    ]

view-dropped_none : (p : GamepadSource → Bool) (key : ℕ) → view key [] ≡ kept p (view key [])
unfolding view kept
view-dropped_none p key = refl

-- Freed slots count for nothing, and the others stay.
view-dropped :
    (p : GamepadSource → Bool) (key : ℕ) (sources : List GamepadSource)
    → Unique sources
    → view key (map (dropped p) sources) ≡ kept p (view key sources)
unfolding Unique
view-dropped p key [] h = view-dropped_none p key
view-dropped p key (src ∷ sources) h = elim (Bool-cases (uses key src)) [
  | inr other ↦
      view_other key (dropped p src) (map (dropped p) sources) (uses-dropped p key src (inl other))
      ∙ view-dropped p key sources h.1
      ∙ ap (kept p) (sym (view_other key src sources other))
  | inl own ↦
      let parts = uses_parts key src own in
      view-dropped_own p key src sources (rw (← parts.1) (h.0 parts.0)) own
      ∙ ap (kept p) (sym (view_own key src sources own))
]

kept_cong :
    (p q : GamepadSource → Bool) (key : ℕ) (sources : List GamepadSource)
    → ((src : GamepadSource) → uses key src ≡ true → p src ≡ q src)
    → kept p (view key sources) ≡ kept q (view key sources)
unfolding kept view
kept_cong p q key [] h = refl
kept_cong p q key (src ∷ sources) h = elim (Bool-cases (uses key src)) [
  | inl own ↦ rw (view_own key src sources own, h src own)
  | inr other ↦ rw (view_other key src sources other) (kept_cong p q key sources h)
]

kept-fresh : (now : ℕ) (found : Option GamepadSource) → kept (is_stale now) found ≡ fresh now found
unfolding kept
kept-fresh now none = refl
kept-fresh now (some src) = refl

-- After `recombine` has been over the table, a key is found where it was and is not too old.
pub view-expired :
    (now key : ℕ) (sources : List GamepadSource)
    → Unique sources
    → (view key (map (expired now) sources) ≡ fresh now (view key sources))
      × Unique (map (expired now) sources)
unfolding dropped
view-expired now key sources h =
    let p : GamepadSource → Bool = λ src. src.in_use && is_stale now src in
    (
      view-dropped p key sources h
          ∙ kept_cong p (is_stale now) key sources (λ src own. rw (uses_parts key src own).0)
          ∙ kept-fresh now (view key sources),
      Unique-dropped p sources h,
    )

kept_whole :
    (b : Bool) (found : Option GamepadSource) → kept (λ _. b) found ≡ (if b then none else found)
unfolding kept
kept_whole true none = refl
kept_whole false none = refl
kept_whole true (some src) = refl
kept_whole false (some src) = refl

-- Freeing a source's slots takes that key out of the table, and no other.
pub view-freed :
    (source key : ℕ) (sources : List GamepadSource)
    → Unique sources
    → (view key (map (freed source) sources) ≡ (if key == source then none else view key sources))
      × Unique (map (freed source) sources)
unfolding dropped
view-freed source key sources h =
    let p : GamepadSource → Bool = λ src. src.in_use && src.key == source in
    (
      view-dropped p key sources h
          ∙ kept_cong p (λ _. key == source) key sources
              (λ src own. rw ((uses_parts key src own).0, (uses_parts key src own).1))
          ∙ kept_whole (key == source) (view key sources),
      Unique-dropped p sources h,
    )
