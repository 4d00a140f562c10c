-- ===== src/PadInput/Swap.antt =====
-- The search of the button map, and its two kinds of change: a slot that no button had, and two
-- buttons that swap.
use capture2cloud.Base.{
  ℕ, zero, suc, ◌+◌, ◌<◌, ◌≡◌, ◌≢◌, refl, sym, ap, ◌∙◌, ◌⊎◌, inl, inr, arith, Bool, true, false,
  ◌==◌, if◌then◌else◌, List, [], ◌∷◌, none, some, Bool-cases, set, length, length-set,
  get_or-set_self, get_or-set_ne, All, ==_iff,
}
use capture2cloud.PadInput.{index_from}
use capture2cloud.PadInput.Seen.{at_button, Distinct}

-- The search for a slot's button.
pub index_from_lem :
    (i : ℕ) (slots : List ℕ) (v : ℕ)
    → ((index_from i slots v ≡ none) × ((k : ℕ) → k < length slots → at_button slots k ≢ v))
      ⊎ ((k : ℕ) × (index_from i slots v ≡ some (i + k))
          × (k < length slots)
          × (at_button slots k ≡ v))
index_from_lem i [] v = inl (refl, λ k h _. absurd (omega arith))
index_from_lem i (s ∷ slots) v = elim (Bool-cases (s == v)) [
  | inl same ↦
      let here : some i ≡ some (i + 0) = ap some (omega arith) in
      inr (0, rw same here, omega arith, (==_iff s v).0 same)
  | inr other ↦ elim (index_from_lem (i + 1) slots v) [
    | inl missing ↦ inl (rw other missing.0, nowhere other missing.1)
    | inr found ↦
        let there : some (i + 1 + found.0) ≡ some (i + suc found.0) = ap some (omega arith) in
        inr (suc found.0, rw other (found.1 ∙ there), omega (arith, found.2), found.3)
  ]
]
  where
    nowhere :
        (s == v) ≡ false
        → ((k : ℕ) → k < length slots → at_button slots k ≢ v)
        → (k : ℕ) → k < length (s ∷ slots)
        → at_button (s ∷ slots) k ≢ v
    nowhere other h zero lt e = ground (arith, other, e)
    nowhere other h (suc k) lt e = h k (omega arith) e

-- The button whose old slot a button has afterwards.
pub swapped : ℕ → ℕ → ℕ → ℕ
swapped p d i = if i == d then p else if i == p then d else i

pub swapped_inj : (p d i j : ℕ) → swapped p d i ≡ swapped p d j → i ≡ j
unfolding swapped
swapped_inj p d i j e = ground arith

pub at_button-set :
    (slots : List ℕ) (i v j : ℕ)
    → i < length slots
    → at_button (set slots i v) j ≡ (if j == i then v else at_button slots j)
at_button-set slots i v j h = elim (Bool-cases (j == i)) [
  | inl same ↦ let e : j ≡ i = (==_iff j i).0 same in rw (same, e) (get_or-set_self slots i v 0 h)
  | inr other ↦ rw other (get_or-set_ne slots i j v 0 (λ e. ground (arith, other, e)))
]

-- Where another button had the slot, the two swap.
pub at_button-swap :
    (slots : List ℕ) (p d v i : ℕ)
    → p < length slots
    → d < length slots
    → at_button slots d ≡ v
    → at_button (set (set slots p v) d (at_button slots p)) i ≡ at_button slots (swapped p d i)
unfolding swapped
at_button-swap slots p d v i hp hd e =
    at_button-set (set slots p v) d (at_button slots p) i (rw (length-set slots p v) hd)
    ∙ ap (λ t. if i == d then at_button slots p else t) (at_button-set slots p v i hp)
    ∙ rw (← e) (pushed (i == d) (i == p))
  where
    pushed :
        (a b : Bool)
        → (if a then at_button slots p else if b then at_button slots d else at_button slots i)
          ≡ at_button slots (if a then p else if b then d else i)
    pushed true b = refl
    pushed false true = refl
    pushed false false = refl

pub Distinct-renamed :
    (old new : List ℕ) (σ : ℕ → ℕ)
    → Distinct old
    → length new ≡ length old
    → ((i j : ℕ) → σ i ≡ σ j → i ≡ j)
    → ((i : ℕ) → i < length old → σ i < length old)
    → ((i : ℕ) → at_button new i ≡ at_button old (σ i))
    → Distinct new
unfolding Distinct
Distinct-renamed old new σ h len inj inside e i j p q same = inj i j (
    h (σ i) (σ j) (inside i (omega (arith, len, p))) (inside j (omega (arith, len, q)))
      (sym (e i) ∙ same ∙ e j))

pub Distinct-fresh :
    (old : List ℕ) (p v : ℕ)
    → Distinct old
    → p < length old
    → ((k : ℕ) → k < length old → at_button old k ≢ v)
    → Distinct (set old p v)
unfolding Distinct
Distinct-fresh old p v h hp fresh i j li lj same =
    let ni : i < length old = rw (← length-set old p v) li in
    let nj : j < length old = rw (← length-set old p v) lj in
    let ei = at_button-set old p v i hp in
    let ej = at_button-set old p v j hp in
    let both = sym ei ∙ same ∙ ej in
    elim (Bool-cases (i == p)) [
      | inl a ↦ elim (Bool-cases (j == p)) [
        | inl b ↦ (==_iff i p).0 a ∙ sym ((==_iff j p).0 b)
        | inr b ↦ absurd (fresh j nj (sym (rw (a, b) at both)))
      ]
      | inr a ↦ elim (Bool-cases (j == p)) [
        | inl b ↦ absurd (fresh i ni (rw (a, b) at both))
        | inr b ↦ h i j ni nj (rw (a, b) at both)
      ]
    ]

pub All-at_button :
    (P : ℕ → Type 0) (slots : List ℕ) (i : ℕ)
    → All P slots
    → i < length slots
    → P (at_button slots i)
All-at_button P [] i h lt = absurd (omega arith)
All-at_button P (s ∷ slots) zero h lt = h.0
All-at_button P (s ∷ slots) (suc i) h lt = All-at_button P slots i h.1 (omega arith)

pub swapped_inside : (p d n i : ℕ) → p < n → d < n → i < n → swapped p d i < n
unfolding swapped
swapped_inside p d n i hp hd hi = ground arith

pub swapped_self : (p d : ℕ) → swapped p d p ≡ d
unfolding swapped
swapped_self p d = ground arith
