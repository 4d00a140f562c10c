-- ===== src/WebAuth/Equality.antt =====
-- The comparison without early return decides equality.
use capture2cloud.Base.{
  ℕ, ◌≡◌, refl, ap₂, ◌↔◌, arith, List, [], ◌∷◌, true, ◌==◌, ==_iff, if◌then◌else◌, bit_or, bit_xor,
  bit_or_none, bit_xor_same, bit_xor_self, bit_xor-lt, length, All, IsByte, u8,
}
use capture2cloud.WebAuth.{differences, secure_equals}

-- No difference at the end means none before, and equal strings of one length.
differences_none :
    (diff : ℕ) (a b : List ℕ)
    → All IsByte a
    → All IsByte b
    → length a ≡ length b
    → differences diff a b ≡ 0
    → (diff ≡ 0) × (a ≡ b)
unfolding differences
differences_none diff [] [] p q e h = (h, refl)
differences_none diff [] (y ∷ b) p q e h = absurd (omega arith)
differences_none diff (x ∷ a) [] p q e h = absurd (omega arith)
differences_none diff (x ∷ a) (y ∷ b) p q e h =
    let rest = differences_none (bit_or diff (u8 (bit_xor x y))) a b p.1 q.1 (omega arith) h in
    let both = bit_or_none diff (u8 (bit_xor x y)) rest.0 in
    let small = bit_xor-lt 8 x y p.0 q.0 in
    (both.0, ap₂ ◌∷◌ (bit_xor_same x y (omega (arith, both.1, small))) rest.1)

differences_start : (diff : ℕ) (a b : List ℕ) → differences diff a b ≡ 0 → diff ≡ 0
unfolding differences
differences_start diff [] b h = h
differences_start diff (x ∷ a) [] h = h
differences_start diff (x ∷ a) (y ∷ b) h =
    (bit_or_none diff (u8 (bit_xor x y))
      (differences_start (bit_or diff (u8 (bit_xor x y))) a b h)).0

differences_self : (a : List ℕ) → differences 0 a a ≡ 0
unfolding differences
differences_self [] = refl
differences_self (x ∷ a) = let e = bit_xor_self x in rw e (differences_self a)

abbrev start_of : List ℕ → List ℕ → ℕ
start_of a b = if length a == length b then 0 else 1

same_length : (a b : List ℕ) → start_of a b ≡ 0 → length a ≡ length b
same_length a b h = ground (arith, h)

-- Two strings pass the comparison exactly when they are equal.
pub secure_equals_iff :
    (a b : List ℕ) → All IsByte a → All IsByte b → (secure_equals a b ≡ true) ↔ (a ≡ b)
unfolding secure_equals
secure_equals_iff a b p q =
    let start = start_of a b in
    (
      λ h.
          let none_left = (==_iff (differences start a b) 0).0 h in
          let len = same_length a b (differences_start start a b none_left) in
          (differences_none start a b p q len none_left).1,
      λ e. rw (← e) (same_string a),
    )
  where
    same_string : (s : List ℕ) → (differences (start_of s s) s s == 0) ≡ true
    same_string s = rw ((==_iff (length s) (length s)).1 refl, differences_self s)
