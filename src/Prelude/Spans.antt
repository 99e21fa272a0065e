-- ===== src/Prelude/Spans.antt =====
-- How cutting, resizing and overwriting a list act on the part of it between two positions.
use Prim.Native.Nat.{ℕ, zero, suc, ◌+◌, ◌-◌, ◌≤◌}
use mathlib.Core.Path.{◌≡◌, refl, sym, ◌∙◌, ap}
use mathlib.Core.List.{List, [], ◌∷◌, ◌++◌}
use native.Mathlib.Omega.{arith}
use netb.Prelude.Lists.{length, take, drop, overwrite, slice}

suc_add : (a b : ℕ) → suc a + b ≡ suc (a + b)
suc_add a b = omega arith

zero_add : (n : ℕ) → 0 + n ≡ n
zero_add n = omega arith

suc_sub : (a b : ℕ) → suc a - suc b ≡ a - b
suc_sub a b = omega arith

module _ {ℓ} {A : Type ℓ} where
  pub take-overwrite :
      (bs : List A) (w : ℕ) (p : List A)
      → w + length p ≤ length bs
      → take (w + length p) (overwrite bs w p) ≡ take w bs ++ p
  take-overwrite [] zero [] h = refl
  take-overwrite [] zero (y ∷ p) h = absurd (omega arith)
  take-overwrite [] (suc w) p h = absurd (omega arith)
  take-overwrite (x ∷ bs) zero [] h = refl
  take-overwrite (x ∷ bs) zero (y ∷ p) h =
      rw zero_add (ap (λ t. y ∷ t) (rw zero_add at (take-overwrite bs zero p (omega arith))))
  take-overwrite (x ∷ bs) (suc w) p h =
      rw suc_add (ap (λ t. x ∷ t) (take-overwrite bs w p (omega arith)))

  pub drop-append : (i : ℕ) (xs ys : List A) → i ≤ length xs → drop i (xs ++ ys) ≡ drop i xs ++ ys
  drop-append zero xs ys h = refl
  drop-append (suc i) [] ys h = absurd (omega arith)
  drop-append (suc i) (x ∷ xs) ys h = drop-append i xs ys (omega arith)

  pub take-append : (n : ℕ) (xs ys : List A) → n ≡ length xs → take n (xs ++ ys) ≡ xs
  take-append zero [] ys h = refl
  take-append zero (x ∷ xs) ys h = absurd (omega arith)
  take-append (suc n) [] ys h = absurd (omega arith)
  take-append (suc n) (x ∷ xs) ys h = ap (λ t. x ∷ t) (take-append n xs ys (omega arith))

  pub drop-append_all : (n : ℕ) (xs ys : List A) → n ≡ length xs → drop n (xs ++ ys) ≡ ys
  drop-append_all zero [] ys h = refl
  drop-append_all zero (x ∷ xs) ys h = absurd (omega arith)
  drop-append_all (suc n) [] ys h = absurd (omega arith)
  drop-append_all (suc n) (x ∷ xs) ys h = drop-append_all n xs ys (omega arith)

  pub drop-nil : (n : ℕ) → drop {A = A} n [] ≡ []
  drop-nil zero = refl
  drop-nil (suc n) = refl

  drop-nil_any : (n m : ℕ) → drop {A = A} n [] ≡ drop {A = A} m []
  drop-nil_any n m = drop-nil n ∙ sym (drop-nil m)

  pub drop-drop : (n i : ℕ) (xs : List A) → drop n (drop i xs) ≡ drop (i + n) xs
  drop-drop n zero xs = ap (λ k. drop k xs) (omega arith)
  drop-drop n (suc i) [] = drop-nil_any n (suc i + n)
  drop-drop n (suc i) (x ∷ xs) = rw suc_add (drop-drop n i xs)

  pub take-append_le : (n : ℕ) (xs ys : List A) → n ≤ length xs → take n (xs ++ ys) ≡ take n xs
  take-append_le zero xs ys h = refl
  take-append_le (suc n) [] ys h = absurd (omega arith)
  take-append_le (suc n) (x ∷ xs) ys h = ap (λ t. x ∷ t) (take-append_le n xs ys (omega arith))

  pub take-take : (n m : ℕ) (xs : List A) → n ≤ m → take n (take m xs) ≡ take n xs
  take-take zero m xs h = refl
  take-take (suc n) zero xs h = absurd (omega arith)
  take-take (suc n) (suc m) [] h = refl
  take-take (suc n) (suc m) (x ∷ xs) h = ap (λ t. x ∷ t) (take-take n m xs (omega arith))

  pub take-drop-take :
      (n r w : ℕ) (xs : List A) → r + n ≤ w → take n (drop r (take w xs)) ≡ slice xs r n
  take-drop-take n zero w xs h = take-take n w xs (omega arith)
  take-drop-take n (suc r) zero xs h = absurd (omega arith)
  take-drop-take n (suc r) (suc w) [] h = refl
  take-drop-take n (suc r) (suc w) (x ∷ xs) h = take-drop-take n r w xs (omega arith)

  pub take-overwrite_in :
      (w : ℕ) (xs : List A) (i : ℕ) (p : List A)
      → take w (overwrite xs i p) ≡ overwrite (take w xs) i p
  take-overwrite_in zero [] i p = refl
  take-overwrite_in zero (x ∷ xs) i p = refl
  take-overwrite_in (suc w) [] i p = refl
  take-overwrite_in (suc w) (x ∷ xs) zero [] = refl
  take-overwrite_in (suc w) (x ∷ xs) zero (y ∷ p) = ap (λ t. y ∷ t) (take-overwrite_in w xs zero p)
  take-overwrite_in (suc w) (x ∷ xs) (suc i) p = ap (λ t. x ∷ t) (take-overwrite_in w xs i p)

  pub drop-overwrite :
      (o : ℕ) (xs : List A) (k : ℕ) (p : List A)
      → drop o (overwrite xs (o + k) p) ≡ overwrite (drop o xs) k p
  drop-overwrite zero xs k p = ap (λ i. overwrite xs i p) (omega arith)
  drop-overwrite (suc o) [] k p = refl
  drop-overwrite (suc o) (x ∷ xs) k p = rw suc_add (drop-overwrite o xs k p)

  pub take-append_ge :
      (n : ℕ) (xs ys : List A) → length xs ≤ n → take n (xs ++ ys) ≡ xs ++ take (n - length xs) ys
  take-append_ge n [] ys h = ap (λ k. take k ys) (omega arith)
  take-append_ge zero (x ∷ xs) ys h = absurd (omega arith)
  take-append_ge (suc n) (x ∷ xs) ys h =
      rw suc_sub (ap (λ t. x ∷ t) (take-append_ge n xs ys (omega arith)))

  pub take_all : (n : ℕ) (xs : List A) → length xs ≤ n → take n xs ≡ xs
  take_all zero [] h = refl
  take_all zero (x ∷ xs) h = absurd (omega arith)
  take_all (suc n) [] h = refl
  take_all (suc n) (x ∷ xs) h = ap (λ t. x ∷ t) (take_all n xs (omega arith))

  pub take-append-drop : (n : ℕ) (xs : List A) → take n xs ++ drop n xs ≡ xs
  take-append-drop zero xs = refl
  take-append-drop (suc n) [] = refl
  take-append-drop (suc n) (x ∷ xs) = ap (λ t. x ∷ t) (take-append-drop n xs)
