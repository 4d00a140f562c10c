-- ===== src/PadInput/Seen.antt =====
-- The bits of `seen`: a map that the loop of `input_config_sanitize` passes has no slot twice.
use capture2cloud.Base.{
  ℕ, zero, suc, ◌*◌, ◌/◌, ◌%◌, ◌^◌, ◌<◌, ◌≡◌, ◌≢◌, refl, sym, ap, ◌∙◌, inl, inr, arith, true, false,
  ◌==◌, List, [], ◌∷◌, Bool-cases, bit_or, bit_and, bit_and_flag, bit_or_bit, ◌<<◌, get_or, length,
  All, ==_iff,
}
use native.Mathlib.Nat.{one-le-pow, mul-div_right}
use capture2cloud.PadInput.{among, map_is_good, bindable_slot}

abbrev pub at_button : List ℕ → ℕ → ℕ
at_button slots i = get_or slots i 0

-- No two buttons have the same slot.
unfoldable pub Distinct : List ℕ → Type 0
Distinct slots =
    (i j : ℕ) → i < length slots → j < length slots → at_button slots i ≡ at_button slots j → i ≡ j

abbrev bit : ℕ → ℕ → ℕ
bit k a = a / 2 ^ k % 2

-- What the loop has found of a map that it passes: bindable slots, none of them seen before.
abbrev Passed : ℕ → ℕ → Type 0
Passed seen slot = (bindable_slot slot ≡ true) × (bit slot seen ≡ 0)

factor_zero : (x m : ℕ) → 0 < m → x * m ≡ 0 → x ≡ 0
factor_zero zero m p h = refl
factor_zero (suc x) m p h = absurd (ground (arith, h))

bit_of_power : (k : ℕ) → bit k (1 << k) ≡ 1
bit_of_power k =
    let m = one-le-pow k 2 (omega arith) in
    let turned : (1 << k) ≡ 2 ^ k * 1 = omega arith in rw (turned, mul-div_right 1 m)

clear_bit : (a k : ℕ) → bit_and a (1 << k) ≡ 0 → bit k a ≡ 0
clear_bit a k e =
    let one : 1 * 2 ^ k ≡ 2 ^ k = omega arith in
    factor_zero (bit k a) (2 ^ k) (one-le-pow k 2 (omega arith))
      (sym (bit_and_flag k a) ∙ rw one at e)

good_step :
    (seen slot : ℕ) (slots : List ℕ)
    → map_is_good seen (slot ∷ slots) ≡ true
    → Passed seen slot × (map_is_good (bit_or seen (1 << slot)) slots ≡ true)
unfolding map_is_good
good_step seen slot slots h = elim (Bool-cases (bindable_slot slot)) [
  | inr bad ↦ absurd (false_true (rw bad at h))
  | inl ok ↦ elim (Bool-cases (bit_and seen (1 << slot) == 0)) [
    | inr bad ↦ absurd (false_true (rw (ok, bad) at h))
    | inl new ↦
        ((ok, clear_bit seen slot ((==_iff (bit_and seen (1 << slot)) 0).0 new)), rw (ok, new) at h)
  ]
]
  where
    false_true : ¬ (false ≡ true)
    false_true e = ground (arith, e)

DistinctList : List ℕ → Type 0
DistinctList [] = Unit
DistinctList (s ∷ slots) = (among slots s ≡ false) × DistinctList slots

other_slot : (t slot : ℕ) → bit t (1 << slot) ≡ 0 → (t == slot) ≡ false
other_slot t slot h = elim (Bool-cases (t == slot)) [
  | inr differ ↦ differ
  | inl same ↦
      let e : t ≡ slot = (==_iff t slot).0 same in
      absurd (omega (arith, bit_of_power slot, rw e at h))
]

Passed-rest :
    (seen slot : ℕ) (slots : List ℕ)
    → All (Passed (bit_or seen (1 << slot))) slots
    → All (Passed seen) slots × (among slots slot ≡ false)
Passed-rest seen slot [] h = (tt, refl)
Passed-rest seen slot (t ∷ slots) h =
    let rest = Passed-rest seen slot slots h.1 in
    let either = bit_or_bit t seen (1 << slot) in
    let none_here : (bit t seen ≡ 0) × (bit t (1 << slot) ≡ 0) =
      (omega (arith, either, h.0.1), omega (arith, either, h.0.1)) in
    let other : (t == slot) ≡ false = other_slot t slot none_here.1 in
    (((h.0.0, none_here.0), rest.0), rw (other, rest.1))

good_lem :
    (seen : ℕ) (slots : List ℕ)
    → map_is_good seen slots ≡ true
    → All (Passed seen) slots × DistinctList slots
unfolding DistinctList
good_lem seen [] h = (tt, tt)
good_lem seen (slot ∷ slots) h =
    let step = good_step seen slot slots h in
    let rest = good_lem (bit_or seen (1 << slot)) slots step.1 in
    let tail = Passed-rest seen slot slots rest.0 in ((step.0, tail.0), (tail.1, rest.1))

among-at_button :
    (slots : List ℕ) (i : ℕ) → i < length slots → among slots (at_button slots i) ≡ true
among-at_button [] i h = absurd (omega arith)
among-at_button (s ∷ slots) zero h = ground arith
among-at_button (s ∷ slots) (suc i) h = ground (arith, among-at_button slots i (omega arith))

head_differs :
    (s i : ℕ) (slots : List ℕ) → among slots s ≡ false → i < length slots → s ≢ at_button slots i
head_differs s i slots h lt e = ground (arith, among-at_button slots i lt, rw e at h)

DistinctList-Distinct : (slots : List ℕ) → DistinctList slots → Distinct slots
unfolding DistinctList Distinct
DistinctList-Distinct [] h i j p q e = absurd (omega arith)
DistinctList-Distinct (s ∷ slots) h zero zero p q e = refl
DistinctList-Distinct (s ∷ slots) h zero (suc j) p q e =
    absurd (head_differs s j slots h.0 (omega arith) e)
DistinctList-Distinct (s ∷ slots) h (suc i) zero p q e =
    absurd (head_differs s i slots h.0 (omega arith) (sym e))
DistinctList-Distinct (s ∷ slots) h (suc i) (suc j) p q e =
    ap suc (DistinctList-Distinct slots h.1 i j (omega arith) (omega arith) e)

-- A map of bindable slots, no two the same.
pub record IsBinding (slots : List ℕ) : Type 0 where
  pub distinct : Distinct slots
  pub bindable : All (λ s. bindable_slot s ≡ true) slots

Passed-bindable :
    (seen : ℕ) (slots : List ℕ) → All (Passed seen) slots → All (λ s. bindable_slot s ≡ true) slots
Passed-bindable seen [] h = tt
Passed-bindable seen (s ∷ slots) h = (h.0.0, Passed-bindable seen slots h.1)

-- A map that the loop passes, whatever bits it starts with, has bindable slots only, no two the
-- same.
pub good-IsBinding : (seen : ℕ) (slots : List ℕ) → map_is_good seen slots ≡ true → IsBinding slots
good-IsBinding seen slots h =
    let both = good_lem seen slots h in
    record {
      distinct = DistinctList-Distinct slots both.1;
      bindable = Passed-bindable seen slots both.0;
    }
