-- ===== src/Bridge/Sources.antt =====
-- The search for a source's slot, and the table that the slots are: a finite map from keys.
use capture2cloud.Base.{
  ℕ, ◌+◌, ◌≡◌, refl, ap, ◌⊎◌, inl, inr, arith, Bool, true, false, ◌&&◌, ◌==◌, List, [], ◌∷◌, ◌++◌,
  Option, none, some, length, All, Bool-cases, if◌then◌else◌,
}
use capture2cloud.Bridge.{GamepadSource, search_slot, chosen_slot}

abbrev pub uses : ℕ → GamepadSource → Bool
uses key src = src.in_use && src.key == key

-- No slot of the list is the source's.
unfoldable pub Absent : ℕ → List GamepadSource → Type 0
Absent key sources = All (λ src. uses key src ≡ false) sources

-- The slot where the loop stops, or the first free one: `from` is the index of the list's head.
pub record Place (from key : ℕ) (sources : List GamepadSource) (position : ℕ) : Type 0 where
  pub before : List GamepadSource
  pub here : GamepadSource
  pub after : List GamepadSource
  pub whole : sources ≡ before ++ here ∷ after
  pub at_here : position ≡ from + length before
  pub none_before : Absent key before
  pub own_or_free : (uses key here ≡ true) ⊎ ((here.in_use ≡ false) × Absent key after)

-- What the second result says, of a search that does not find the source.
FreeAnswer : ℕ → ℕ → List GamepadSource → Option ℕ → Option ℕ → Type 0
FreeAnswer from key sources (some k) answer = answer ≡ some k
FreeAnswer from key sources none answer =
    ((answer ≡ none) × All (λ src. src.in_use ≡ true) sources)
    ⊎ ((position : ℕ) × (answer ≡ some position) × Place from key sources position)

SearchAnswer : ℕ → ℕ → List GamepadSource → Option ℕ → Option ℕ × Option ℕ → Type 0
SearchAnswer from key sources free answer =
    ((position : ℕ) × (answer.0 ≡ some position) × Place from key sources position)
    ⊎ ((answer.0 ≡ none) × Absent key sources × FreeAnswer from key sources free answer.1)

later :
    (from key position : ℕ) (src : GamepadSource) (sources : List GamepadSource)
    → uses key src ≡ false
    → Place (from + 1) key sources position
    → Place from key (src ∷ sources) position
unfolding Absent
later from key position src sources e p = record {
  before = src ∷ p.before;
  here = p.here;
  after = p.after;
  whole = ap (λ t. src ∷ t) p.whole;
  at_here = omega (arith, p.at_here);
  none_before = (e, p.none_before);
  own_or_free = p.own_or_free;
}

stopped :
    (from key : ℕ) (src : GamepadSource) (sources : List GamepadSource)
    → uses key src ≡ true
    → Place from key (src ∷ sources) from
unfolding Absent
stopped from key src sources e = record {
  before = [];
  here = src;
  after = sources;
  whole = refl;
  at_here = omega arith;
  none_before = tt;
  own_or_free = inl e;
}

took :
    (from key : ℕ) (src : GamepadSource) (sources : List GamepadSource)
    → src.in_use ≡ false
    → Absent key sources
    → Place from key (src ∷ sources) from
unfolding Absent
took from key src sources e h = record {
  before = [];
  here = src;
  after = sources;
  whole = refl;
  at_here = omega arith;
  none_before = tt;
  own_or_free = inr (e, h);
}

-- A slot that holds a source, or one that is free after another, leaves the free slot as it was.
free_same :
    (from key : ℕ) (free : Option ℕ) (src : GamepadSource) (sources : List GamepadSource)
    (answer : Option ℕ)
    → uses key src ≡ false
    → src.in_use ≡ true
    → FreeAnswer (from + 1) key sources free answer
    → FreeAnswer from key (src ∷ sources) free answer
unfolding FreeAnswer
free_same from key (some k) src sources answer e u h = h
free_same from key none src sources answer e u (inl h) = inl (h.0, (u, h.1))
free_same from key none src sources answer e u (inr h) =
    inr (h.0, h.1, later from key h.0 src sources e h.2)

free_found :
    (from key : ℕ) (free : Option ℕ) (src : GamepadSource) (sources : List GamepadSource)
    (answer : Option ℕ)
    → src.in_use ≡ false
    → Absent key sources
    → FreeAnswer (from + 1) key sources (elim free [ none ↦ some from | some k ↦ some k ]) answer
    → FreeAnswer from key (src ∷ sources) free answer
unfolding FreeAnswer
free_found from key (some k) src sources answer u a h = h
free_found from key none src sources answer u a h = inr (from, h, took from key src sources u a)

search_later :
    (from key : ℕ) (free : Option ℕ) (src : GamepadSource) (sources : List GamepadSource)
    (answer : Option ℕ × Option ℕ)
    → uses key src ≡ false
    → SearchAnswer
        (from + 1)
        key
        sources
        (if src.in_use then free else elim free [ none ↦ some from | some k ↦ some k ])
        answer
    → SearchAnswer from key (src ∷ sources) free answer
unfolding SearchAnswer Absent
search_later from key free src sources answer e (inl h) =
    inl (h.0, h.1, later from key h.0 src sources e h.2)
search_later from key free src sources answer e (inr h) = inr (
  h.0,
  (e, h.1),
  elim (Bool-cases src.in_use) [
    | inl u ↦ free_same from key free src sources answer.1 e u (rw u at h.2)
    | inr u ↦ free_found from key free src sources answer.1 u h.1 (rw u at h.2)
  ],
)

search_own :
    (from key : ℕ) (free : Option ℕ) (src : GamepadSource) (sources : List GamepadSource)
    → uses key src ≡ true
    → search_slot from key free (src ∷ sources) ≡ (some from, free)
unfolding search_slot
search_own from key free src sources e = rw e

search_other :
    (from key : ℕ) (free : Option ℕ) (src : GamepadSource) (sources : List GamepadSource)
    → uses key src ≡ false
    → search_slot from key free (src ∷ sources)
      ≡ search_slot
          (from + 1)
          key
          (if src.in_use then free else elim free [ none ↦ some from | some k ↦ some k ])
          sources
unfolding search_slot
search_other from key free src sources e = rw e

search_none :
    (from key : ℕ) (free : Option ℕ) → SearchAnswer from key [] free (search_slot from key free [])
unfolding search_slot SearchAnswer FreeAnswer Absent
search_none from key none = inr (refl, tt, inl (refl, tt))
search_none from key (some k) = inr (refl, tt, refl)

answer_own :
    (from key : ℕ) (free : Option ℕ) (src : GamepadSource) (sources : List GamepadSource)
    → uses key src ≡ true
    → SearchAnswer from key (src ∷ sources) free (some from, free)
unfolding SearchAnswer
answer_own from key free src sources own = inl (from, refl, stopped from key src sources own)

search_slot_lem :
    (from key : ℕ) (free : Option ℕ) (sources : List GamepadSource)
    → SearchAnswer from key sources free (search_slot from key free sources)
search_slot_lem from key free [] = search_none from key free
search_slot_lem from key free (src ∷ sources) = elim (Bool-cases (uses key src)) [
  | inl own ↦
      rw (search_own from key free src sources own) (answer_own from key free src sources own)
  | inr other ↦
      let first_free : Option ℕ =
        if src.in_use then free else elim free [ none ↦ some from | some k ↦ some k ] in
      rw (search_other from key free src sources other) (
        search_later from key free src sources _ other
          (search_slot_lem (from + 1) key first_free sources))
]

-- Either the slot chosen for a source splits the table, or the table is full of other sources.
pub chosen_slot_lem :
    (key : ℕ) (sources : List GamepadSource)
    → ((position : ℕ) × (chosen_slot key sources ≡ some position) × Place 0 key sources position)
      ⊎ ((chosen_slot key sources ≡ none)
          × Absent key sources
          × All (λ src. src.in_use ≡ true) sources)
unfolding chosen_slot SearchAnswer FreeAnswer
chosen_slot_lem key sources = elim (search_slot_lem 0 key none sources) [
  | inl found ↦ inl (found.0, rw (chosen_slot, found.1), found.2)
  | inr missing ↦ elim missing.2 [
    | inl full ↦ inr (rw (chosen_slot, missing.0) full.0, missing.1, full.1)
    | inr free ↦ inl (free.0, rw (chosen_slot, missing.0) free.1, free.2)
  ]
]
