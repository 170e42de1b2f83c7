-- ===== src/Base/Slices.antt =====
-- Slices of a sequence: how `take` and `drop` compose.
use Prim.Native.Nat.{ℕ, zero, suc, ◌+◌, ◌-◌, ◌≤◌, min}
use mathlib.Core.Path.{◌≡◌, sym, ap, ◌∙◌}
use mathlib.Core.List.{List, [], ◌∷◌, ◌++◌}
use native.Mathlib.Omega.{arith}
use encfs.Base.Lists.{length, take, drop, length-take, length-drop, take_all, drop_all}

module _ {ℓ} {A : Type ℓ} where
  -- The `n` elements from place `i` on, as far as there are any.
  abbrev pub slice : ℕ → ℕ → List A → List A
  slice i n xs = take n (drop i xs)

  pub drop-drop : (m n : ℕ) (xs : List A) → drop m (drop n xs) ≡ drop (n + m) xs
  drop-drop m zero xs = ap (λ (k : ℕ). drop k xs) (omega arith)
  drop-drop m (suc n) [] = drop_all m [] (omega arith) ∙ sym (drop_all (suc n + m) [] (omega arith))
  drop-drop m (suc n) (x ∷ xs) =
      let next : suc (n + m) ≡ suc n + m = omega arith in
      drop-drop m n xs ∙ ap (λ (k : ℕ). drop k (x ∷ xs)) next

  pub take-take : (m n : ℕ) (xs : List A) → take m (take n xs) ≡ take (min m n) xs
  take-take zero n xs = let none : 0 ≡ min 0 n = omega arith in ap (λ (k : ℕ). take k xs) none
  take-take (suc m) zero xs =
      let none : 0 ≡ min (suc m) 0 = omega arith in ap (λ (k : ℕ). take k xs) none
  take-take (suc m) (suc n) [] = sym (take_all (min (suc m) (suc n)) [] (omega arith))
  take-take (suc m) (suc n) (x ∷ xs) =
      let next : suc (min m n) ≡ min (suc m) (suc n) = omega arith in
      ap (◌∷◌ x) (take-take m n xs) ∙ ap (λ (k : ℕ). take k (x ∷ xs)) next

  pub drop-take : (m n : ℕ) (xs : List A) → drop m (take n xs) ≡ take (n - m) (drop m xs)
  drop-take zero n xs = ap (λ (k : ℕ). take k xs) (omega arith)
  drop-take (suc m) zero xs =
      let none : 0 ≡ 0 - suc m = omega arith in ap (λ (k : ℕ). take k (drop (suc m) xs)) none
  drop-take (suc m) (suc n) [] = sym (take_all (suc n - suc m) [] (omega arith))
  drop-take (suc m) (suc n) (x ∷ xs) =
      drop-take m n xs ∙ ap (λ (k : ℕ). take k (drop m xs)) (omega arith)

  pub take-add : (m n : ℕ) (xs : List A) → take (m + n) xs ≡ take m xs ++ take n (drop m xs)
  take-add zero n xs = ap (λ (k : ℕ). take k xs) (omega arith)
  take-add (suc m) n [] = take_all (suc m + n) [] (omega arith) ∙ sym (take_all n [] (omega arith))
  take-add (suc m) n (x ∷ xs) =
      let next : suc m + n ≡ suc (m + n) = omega arith in
      ap (λ (k : ℕ). take k (x ∷ xs)) next ∙ ap (◌∷◌ x) (take-add m n xs)

  -- A slice of a slice that stays within it.
  pub slice-slice :
      (i n j m : ℕ) (xs : List A) → j + m ≤ n → slice j m (slice i n xs) ≡ slice (i + j) m xs
  slice-slice i n j m xs h =
      ap (take m) (drop-take j n (drop i xs))
      ∙ take-take m (n - j) (drop j (drop i xs))
      ∙ ap (λ (k : ℕ). take k (drop j (drop i xs))) (omega arith)
      ∙ ap (take m) (drop-drop j i xs)

  -- Two slices that meet.
  pub slice-add :
      (i m n : ℕ) (xs : List A) → slice i (m + n) xs ≡ slice i m xs ++ slice (i + m) n xs
  slice-add i m n xs =
      take-add m n (drop i xs)
      ∙ ap (λ (t : List A). take m (drop i xs) ++ take n t) (drop-drop m i xs)

  pub length-slice : (i n : ℕ) (xs : List A) → length (slice i n xs) ≡ min n (length xs - i)
  length-slice i n xs = length-take n (drop i xs) ∙ ap (min n) (length-drop i xs)

  -- Behind the end there is nothing, and a slice that reaches the end is as long as it likes.
  pub slice_nil : (i n : ℕ) (xs : List A) → length xs ≤ i → slice i n xs ≡ []
  slice_nil i n xs h = ap (take n) (drop_all i xs h) ∙ take_all n [] (omega arith)

  pub slice_all :
      (i m n : ℕ) (xs : List A)
      → length xs ≤ i + m
      → length xs ≤ i + n
      → slice i m xs ≡ slice i n xs
  slice_all i m n xs h k =
      take_all m (drop i xs) (omega (arith, length-drop i xs))
      ∙ sym (take_all n (drop i xs) (omega (arith, length-drop i xs)))
