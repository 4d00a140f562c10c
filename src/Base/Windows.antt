-- ===== src/Base/Windows.antt =====
-- A window of a list: the `len` elements from the place `off`, as C code keeps bytes in a buffer.
use Prim.Native.Nat.{ℕ, zero, suc, ◌+◌, ◌≤◌}
use mathlib.Core.Path.{◌≡◌, refl, ap}
use mathlib.Core.List.{List, [], ◌∷◌, ◌++◌}
use native.Mathlib.Nat.{zero-add, suc-add}
use native.Mathlib.Omega.{arith}
use capture2cloud.Base.Lists.{length, take, drop}

module _ {ℓ} {A : Type ℓ} where
  pub take-append_more :
      (xs ys : List A) (n : ℕ) → take (length xs + n) (xs ++ ys) ≡ xs ++ take n ys
  take-append_more [] ys n = rw zero-add
  take-append_more (x ∷ xs) ys n = rw suc-add (ap (λ t. x ∷ t) (take-append_more xs ys n))

  pub drop-drop : (n k : ℕ) (xs : List A) → drop (n + k) xs ≡ drop k (drop n xs)
  drop-drop zero k xs = rw zero-add
  drop-drop (suc n) zero [] = rw suc-add
  drop-drop (suc n) (suc k) [] = rw suc-add
  drop-drop (suc n) k (x ∷ xs) = rw suc-add (drop-drop n k xs)

  pub drop-take : (n k : ℕ) (xs : List A) → drop n (take (n + k) xs) ≡ take k (drop n xs)
  drop-take zero k xs = rw zero-add
  drop-take (suc n) zero [] = rw suc-add
  drop-take (suc n) (suc k) [] = rw suc-add
  drop-take (suc n) k (x ∷ xs) = rw suc-add (drop-take n k xs)

  -- The window stays as it is where the list goes on, and where its end is replaced.
  pub window-append :
      (off len : ℕ) (xs ys : List A)
      → off + len ≤ length xs
      → take len (drop off (xs ++ ys)) ≡ take len (drop off xs)
  window-append zero zero xs ys h = refl
  window-append zero (suc len) [] ys h = absurd (omega arith)
  window-append zero (suc len) (x ∷ xs) ys h =
      ap (λ t. x ∷ t) (window-append zero len xs ys (omega arith))
  window-append (suc off) len [] ys h = absurd (omega arith)
  window-append (suc off) len (x ∷ xs) ys h = window-append off len xs ys (omega arith)

  pub drop-take-append :
      (off len : ℕ) (xs ys : List A)
      → off + len ≤ length xs
      → drop off (take (off + len) xs ++ ys) ≡ take len (drop off xs) ++ ys
  drop-take-append zero len xs ys h = rw zero-add
  drop-take-append (suc off) len [] ys h = absurd (omega arith)
  drop-take-append (suc off) len (x ∷ xs) ys h =
      rw suc-add (drop-take-append off len xs ys (omega arith))
