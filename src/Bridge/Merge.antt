-- ===== src/Bridge/Merge.antt =====
-- What the merged state says of the live sources, control by control.
use capture2cloud.Base.{
  ℕ, zero, suc, ◌+◌, ◌<◌, ◌≡◌, refl, ap, ◌∙◌, ◌⊎◌, inl, inr, arith, Bool, true, false, List, [],
  ◌∷◌, some, get_elem?, length, All, ℤ, pos, nat_abs, ltb_ℤ, ◌≤ℤ◌, int8_id, IsInt8, Bool-cases,
  replicate, if◌then◌else◌, ltb, All-get_or,
}
use capture2cloud.Controller.{ControllerState, slot, state_count, IsState}
use capture2cloud.Bridge.{GamepadSource, is_axis, is_live, merge_value, merge_from, merge_sources}

length-merge_from :
    (i : ℕ) (state merged : ControllerState) → length (merge_from i state merged) ≡ length merged
unfolding merge_from
length-merge_from i state [] = refl
length-merge_from i state (m ∷ merged) = ap suc (length-merge_from (i + 1) state merged)

-- The loop over the controls, at the control that is `k` places on.
slot-merge_from :
    (i k : ℕ) (state merged : ControllerState)
    → k < length merged
    → slot (merge_from i state merged) k ≡ merge_value (i + k) (slot state (i + k)) (slot merged k)
unfolding merge_from
slot-merge_from i k state [] h = absurd (omega arith)
slot-merge_from i zero state (m ∷ merged) h = let e : i + 0 ≡ i = omega arith in rw e
slot-merge_from i (suc k) state (m ∷ merged) h =
    let e : i + suc k ≡ i + 1 + k = omega arith in
    rw e (slot-merge_from (i + 1) k state merged (omega arith))

-- The merged value of one control.
value_of : ℕ → ℕ → List GamepadSource → ℤ → ℤ
value_of now i [] v = v
value_of now i (src ∷ sources) v =
    value_of now i sources (if is_live now src then merge_value i (slot src.state i) v else v)

slot-merge_sources :
    (now i : ℕ) (sources : List GamepadSource) (merged : ControllerState)
    → i < length merged
    → slot (merge_sources now sources merged).1 i ≡ value_of now i sources (slot merged i)
unfolding merge_sources value_of
slot-merge_sources now i [] merged h = refl
slot-merge_sources now i (src ∷ sources) merged h = elim (Bool-cases (is_live now src)) [
  | inl live ↦ rw live (
      slot-merge_sources now i sources (merge_from 0 src.state merged)
        (rw (length-merge_from 0 src.state merged) h)
      ∙ ap (value_of now i sources) (slot-merge_from 0 i src.state merged h ∙ zero_added))
  | inr dead ↦ rw dead (slot-merge_sources now i sources merged h)
]
  where
    zero_added :
        merge_value (0 + i) (slot src.state (0 + i)) (slot merged i)
        ≡ merge_value i (slot src.state i) (slot merged i)
    zero_added = let e : 0 + i ≡ i = omega arith in rw e

-- How a value of a control counts: an axis by its size, a button by its value.
abbrev heft : Bool → ℤ → ℤ
heft axis v = if axis then pos (nat_abs v) else v

abbrev pub weight : ℕ → ℤ → ℤ
weight i v = heft (is_axis i) v

picked : Bool → ℤ → ℤ → ℤ
picked axis v m =
    if axis then (if ltb (nat_abs m) (nat_abs v) then v else m) else if ltb_ℤ m v then v else m

picked_heaviest :
    (axis : Bool) (v m : ℤ)
    → let r = picked axis v m in
      (heft axis v ≤ℤ heft axis r) × (heft axis m ≤ℤ heft axis r) × ((r ≡ m) ⊎ (r ≡ v))
unfolding picked
picked_heaviest true v m = elim (Bool-cases (ltb (nat_abs m) (nat_abs v))) [
  | inl e ↦ rw e (ground arith, ground arith, inr refl)
  | inr e ↦ rw e (ground arith, ground arith, inl refl)
]
picked_heaviest false v m = elim (Bool-cases (ltb_ℤ m v)) [
  | inl e ↦ rw e (ground arith, ground arith, inr refl)
  | inr e ↦ rw e (ground arith, ground arith, inl refl)
]

merge_value-weight :
    (i : ℕ) (v m : ℤ)
    → IsInt8 v
    → let r = merge_value i v m in
      (weight i v ≤ℤ weight i r) × (weight i m ≤ℤ weight i r) × ((r ≡ m) ⊎ (r ≡ v))
unfolding merge_value picked
merge_value-weight i v m h = rw (int8_id v h) (picked_heaviest (is_axis i) v m)

-- The live sources' values of a control, bounded by `v`.
pub HeldDown : ℕ → ℕ → ℤ → List GamepadSource → Type 0
HeldDown now i v sources =
    All (λ src. is_live now src ≡ true → weight i (slot src.state i) ≤ℤ weight i v) sources

-- `v` is what a live source of the list holds a control at.
pub IsHeld : ℕ → ℕ → ℤ → List GamepadSource → Type 0
IsHeld now i v sources =
    (k : ℕ) × (src : GamepadSource) × (get_elem? sources k ≡ some src)
    × (is_live now src ≡ true)
    × (v ≡ slot src.state i)

≤ℤ_trans : (a b c : ℤ) → a ≤ℤ b → b ≤ℤ c → a ≤ℤ c
≤ℤ_trans a b c p q = omega (arith, p, q)

unfoldable pub AllStates : List GamepadSource → Type 0
AllStates sources = All (λ src. IsState src.state) sources

slot-IsInt8 : (state : ControllerState) (i : ℕ) → IsState state → IsInt8 (slot state i)
slot-IsInt8 state i h = All-get_or IsInt8 state i (pos 0) h.1 (omega arith, omega arith)

IsHeld-later :
    (now i : ℕ) (v : ℤ) (src : GamepadSource) (sources : List GamepadSource)
    → IsHeld now i v sources
    → IsHeld now i v (src ∷ sources)
unfolding IsHeld
IsHeld-later now i v src sources h = (suc h.0, h.1, h.2, h.3, h.4)

IsHeld-first :
    (now i : ℕ) (src : GamepadSource) (sources : List GamepadSource)
    → is_live now src ≡ true
    → IsHeld now i (slot src.state i) (src ∷ sources)
unfolding IsHeld
IsHeld-first now i src sources live = (0, src, refl, live, refl)

value_of_live :
    (now i : ℕ) (src : GamepadSource) (sources : List GamepadSource) (v : ℤ)
    → is_live now src ≡ true
    → value_of now i (src ∷ sources) v ≡ value_of now i sources (merge_value i (slot src.state i) v)
unfolding value_of
value_of_live now i src sources v live = rw live

value_of_dead :
    (now i : ℕ) (src : GamepadSource) (sources : List GamepadSource) (v : ℤ)
    → is_live now src ≡ false
    → value_of now i (src ∷ sources) v ≡ value_of now i sources v
unfolding value_of
value_of_dead now i src sources v dead = rw dead

-- `r` is `v` or a live source's value, and the heaviest of them.
IsHeaviest : ℕ → ℕ → List GamepadSource → ℤ → ℤ → Type 0
IsHeaviest now i sources v r =
    (weight i v ≤ℤ weight i r) × HeldDown now i r sources × ((r ≡ v) ⊎ IsHeld now i r sources)

IsHeaviest-live :
    (now i : ℕ) (src : GamepadSource) (sources : List GamepadSource) (v r : ℤ)
    → IsInt8 (slot src.state i)
    → is_live now src ≡ true
    → IsHeaviest now i sources (merge_value i (slot src.state i) v) r
    → IsHeaviest now i (src ∷ sources) v r
unfolding IsHeaviest HeldDown
IsHeaviest-live now i src sources v r h live rest =
    let held = slot src.state i in
    let next = merge_value i held v in
    let one = merge_value-weight i held v h in
    (
      ≤ℤ_trans (weight i v) (weight i next) (weight i r) one.1 rest.0,
      (λ _. ≤ℤ_trans (weight i held) (weight i next) (weight i r) one.0 rest.0, rest.1),
      elim rest.2 [
        | inr later ↦ inr (IsHeld-later now i r src sources later)
        | inl same ↦ elim one.2 [
          | inl kept ↦ inl (same ∙ kept)
          | inr taken ↦ inr (rw (same ∙ taken) (IsHeld-first now i src sources live))
        ]
      ],
    )

IsHeaviest-dead :
    (now i : ℕ) (src : GamepadSource) (sources : List GamepadSource) (v r : ℤ)
    → is_live now src ≡ false
    → IsHeaviest now i sources v r
    → IsHeaviest now i (src ∷ sources) v r
unfolding IsHeaviest HeldDown
IsHeaviest-dead now i src sources v r dead rest = (
  rest.0,
  (λ live. absurd (ground (arith, live, dead)), rest.1),
  elim rest.2 [ inr later ↦ inr (IsHeld-later now i r src sources later) | inl same ↦ inl same ],
)

value_of_none : (now i : ℕ) (v : ℤ) → value_of now i [] v ≡ v
unfolding value_of
value_of_none now i v = refl

IsHeaviest-none : (now i : ℕ) (v : ℤ) → IsHeaviest now i [] v v
unfolding IsHeaviest HeldDown
IsHeaviest-none now i v = (omega arith, tt, inl refl)

value_of-IsHeaviest :
    (now i : ℕ) (sources : List GamepadSource) (v : ℤ)
    → AllStates sources
    → IsHeaviest now i sources v (value_of now i sources v)
unfolding AllStates
value_of-IsHeaviest now i [] v h = rw (value_of_none now i v) (IsHeaviest-none now i v)
value_of-IsHeaviest now i (src ∷ sources) v h =
    let held = slot src.state i in
    elim (Bool-cases (is_live now src)) [
      | inl live ↦
          let next = merge_value i held v in
          rw (value_of_live now i src sources v live) (
            IsHeaviest-live now i src sources v (value_of now i sources next)
              (slot-IsInt8 src.state i h.0) live (value_of-IsHeaviest now i sources next h.1))
      | inr dead ↦ rw (value_of_dead now i src sources v dead) (
          IsHeaviest-dead now i src sources v (value_of now i sources v) dead
            (value_of-IsHeaviest now i sources v h.1))
    ]

slot-zeros : (n i : ℕ) → slot (replicate n (pos 0)) i ≡ pos 0
slot-zeros zero i = refl
slot-zeros (suc n) zero = refl
slot-zeros (suc n) (suc i) = slot-zeros n i

-- Of the state that `recombine` merges, with the sources as they stand: a control is 0 or is what one of the live sources holds it at, and no live source holds it at a value that counts for more - a larger one for a button, one of larger size for an axis.
pub slot-merged :
    (now i : ℕ) (sources : List GamepadSource)
    → AllStates sources
    → i < state_count
    → let v = slot (merge_sources now sources (replicate state_count (pos 0))).1 i in
      ((v ≡ pos 0) ⊎ IsHeld now i v sources) × HeldDown now i v sources
unfolding IsHeaviest
slot-merged now i sources h lt =
    let zeros = replicate state_count (pos 0) in
    let r = value_of-IsHeaviest now i sources (pos 0) h in
    rw (slot-merge_sources now i sources zeros lt, slot-zeros state_count i) (r.2, r.1)
