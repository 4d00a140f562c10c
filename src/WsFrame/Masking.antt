-- ===== src/WsFrame/Masking.antt =====
-- The unmasking loop of `ws_take_frame`, against masking as the protocol defines it.
use mathlib.Core.List.{append_assoc}
use capture2cloud.Base.{
  ℕ, zero, suc, ◌+◌, ◌%◌, ◌≤◌, ◌<◌, List, [], ◌∷◌, ◌++◌, ◌≡◌, refl, ap, ap₂, ◌∙◌, sym, arith,
  bit_and, bit_xor, bit_xor_twice, bit_and_low, set, length, length-set, length-append,
  get_or-append_left, get_or-append_here, set-append_here, ◌⊎◌, get_or-set_ne,
}
use capture2cloud.WsFrame.{byte, unmask}

-- The `i`-th byte of a payload is combined with byte `i mod 4` of the key.
abbrev pub masked_from : ℕ → List ℕ → List ℕ → List ℕ
masked_from i key [] = []
masked_from i key (x ∷ xs) = bit_xor x (byte key (i % 4)) ∷ masked_from (i + 1) key xs

pub masked_twice : (i : ℕ) (key xs : List ℕ) → masked_from i key (masked_from i key xs) ≡ xs
masked_twice i key [] = refl
masked_twice i key (x ∷ xs) =
    ap₂ ◌∷◌ (bit_xor_twice x (byte key (i % 4))) (masked_twice (i + 1) key xs)

pub length-masked_from : (i : ℕ) (key xs : List ℕ) → length (masked_from i key xs) ≡ length xs
length-masked_from i key [] = refl
length-masked_from i key (x ∷ xs) = ap suc (length-masked_from (i + 1) key xs)

-- What one round writes, where the key stands in the buffer at `mask`, before the payload at `at`.
round-append :
    (key : List ℕ) (i mask at x : ℕ) (front rest : List ℕ)
    → length front ≡ at + i
    → mask + 4 ≤ at
    → ((k : ℕ) → k < 4 → byte front (mask + k) ≡ byte key k)
    → set (front ++ x ∷ rest) (at + i) (
        bit_xor (byte (front ++ x ∷ rest) (at + i)) (byte (front ++ x ∷ rest) (mask + bit_and i 3)))
      ≡ front ++ bit_xor x (byte key (i % 4)) ∷ rest
round-append key i mask at x front rest e below stored =
    rw
      (
        ← e,
        get_or-append_here front rest x 0,
        set-append_here front rest x _,
        bit_and_low 2 i,
        get_or-append_left front (x ∷ rest) (mask + i % 4) 0 (omega arith),
        stored (i % 4) (omega arith),
      )
      refl

pub unmask-append :
    (key : List ℕ) (i mask at : ℕ) (front xs rest : List ℕ)
    → length front ≡ at + i
    → mask + 4 ≤ at
    → ((k : ℕ) → k < 4 → byte front (mask + k) ≡ byte key k)
    → unmask (length xs) i mask at (front ++ (xs ++ rest)) ≡ front ++ (masked_from i key xs ++ rest)
unfolding unmask
unmask-append key i mask at front [] rest e below stored = refl
unmask-append key i mask at front (x ∷ xs) rest e below stored =
    let v = bit_xor x (byte key (i % 4)) in
    let onward =
      unmask-append key (i + 1) mask at (front ++ v ∷ []) xs rest
        (omega (arith, length-append front (v ∷ []))) below
        (λ k h. get_or-append_left front (v ∷ []) (mask + k) 0 (omega arith) ∙ stored k h) in
    ap (unmask (length xs) (i + 1) mask at) (
      round-append key i mask at x front (xs ++ rest) e below stored
      ∙ sym (append_assoc front (v ∷ []) (xs ++ rest)))
    ∙ onward
    ∙ append_assoc front (v ∷ []) (masked_from (i + 1) key xs ++ rest)

pub length-unmask : (n i mask at : ℕ) (buf : List ℕ) → length (unmask n i mask at buf) ≡ length buf
unfolding unmask
length-unmask zero i mask at buf = refl
length-unmask (suc n) i mask at buf = length-unmask n (i + 1) mask at _ ∙ length-set buf (at + i) _

-- The loop writes only the `n` bytes from `at + i` on.
pub unmask_outside :
    (n i mask at j : ℕ) (buf : List ℕ)
    → (j < at + i) ⊎ (at + i + n ≤ j)
    → byte (unmask n i mask at buf) j ≡ byte buf j
unfolding unmask
unmask_outside zero i mask at j buf h = refl
unmask_outside (suc n) i mask at j buf h =
    unmask_outside n (i + 1) mask at j _ (omega arith)
    ∙ get_or-set_ne buf (at + i) j _ 0 (omega arith)
