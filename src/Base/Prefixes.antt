-- ===== src/Base/Prefixes.antt =====
-- The first entries of a list and the rest, by native numbers.
use Prim.Native.Nat.{ℕ, zero, suc, ◌+◌, ◌-◌, ◌≤◌}
use mathlib.Core.Path.{◌≡◌, refl, ap, ◌∙◌}
use mathlib.Core.List.{List, [], ◌∷◌, ◌++◌}
use native.Mathlib.Omega.{arith}
use hftalgorithms.Base.Lists.{length}

suc_sum : (n k : ℕ) → suc n + k ≡ suc (n + k)
suc_sum n k = omega arith

module _ {ℓ} {A : Type ℓ} where
  unfoldable pub take : ℕ → List A → List A
  take zero xs = []
  take (suc n) [] = []
  take (suc n) (x ∷ xs) = x ∷ take n xs

  unfoldable pub drop : ℕ → List A → List A
  drop zero xs = xs
  drop (suc n) [] = []
  drop (suc n) (x ∷ xs) = drop n xs

  abbrev pub concat : List (List A) → List A
  concat [] = []
  concat (xs ∷ xss) = xs ++ concat xss

  take-nil : (n : ℕ) → take n [] ≡ []
  unfolding take
  take-nil zero = refl
  take-nil (suc n) = refl

  drop-nil : (n : ℕ) → drop n [] ≡ []
  unfolding drop
  drop-nil zero = refl
  drop-nil (suc n) = refl

  pub take-append : (xs ys : List A) → take (length xs) (xs ++ ys) ≡ xs
  unfolding take
  take-append [] ys = refl
  take-append (x ∷ xs) ys = ap (λ zs. x ∷ zs) (take-append xs ys)

  pub drop-append : (xs ys : List A) → drop (length xs) (xs ++ ys) ≡ ys
  unfolding drop
  drop-append [] ys = refl
  drop-append (x ∷ xs) ys = drop-append xs ys

  pub take_all : (n : ℕ) (xs : List A) → length xs ≤ n → take n xs ≡ xs
  unfolding take
  take_all zero [] h = refl
  take_all zero (x ∷ xs) h = ground (arith, h)
  take_all (suc n) [] h = refl
  take_all (suc n) (x ∷ xs) h = ap (λ zs. x ∷ zs) (take_all n xs (omega (arith, h)))

  pub take_within : (n : ℕ) (xs ys : List A) → n ≤ length xs → take n (xs ++ ys) ≡ take n xs
  unfolding take
  take_within zero xs ys h = refl
  take_within (suc n) [] ys h = ground (arith, h)
  take_within (suc n) (x ∷ xs) ys h = ap (λ zs. x ∷ zs) (take_within n xs ys (omega (arith, h)))

  pub drop_within : (n : ℕ) (xs ys : List A) → n ≤ length xs → drop n (xs ++ ys) ≡ drop n xs ++ ys
  unfolding drop
  drop_within zero xs ys h = refl
  drop_within (suc n) [] ys h = ground (arith, h)
  drop_within (suc n) (x ∷ xs) ys h = drop_within n xs ys (omega (arith, h))

  pub take_beyond :
      (n : ℕ) (xs ys : List A) → length xs ≤ n → take n (xs ++ ys) ≡ xs ++ take (n - length xs) ys
  unfolding take
  take_beyond n [] ys h = ground arith
  take_beyond zero (x ∷ xs) ys h = ground (arith, h)
  take_beyond (suc n) (x ∷ xs) ys h = ground (arith, take_beyond n xs ys)

  pub drop_beyond :
      (n : ℕ) (xs ys : List A) → length xs ≤ n → drop n (xs ++ ys) ≡ drop (n - length xs) ys
  unfolding drop
  drop_beyond n [] ys h = ground arith
  drop_beyond zero (x ∷ xs) ys h = ground (arith, h)
  drop_beyond (suc n) (x ∷ xs) ys h = ground (arith, drop_beyond n xs ys)

  pub length-drop : (n : ℕ) (xs : List A) → length (drop n xs) ≡ length xs - n
  unfolding drop
  length-drop zero xs = ground arith
  length-drop (suc n) [] = ground arith
  length-drop (suc n) (x ∷ xs) = ground (arith, length-drop n xs)

  pub take-drop :
      (n k : ℕ) (xs : List A) → n ≤ k → take n xs ++ take (k - n) (drop n xs) ≡ take k xs
  unfolding take drop
  take-drop zero k xs h = ground arith
  take-drop (suc n) zero xs h = ground (arith, h)
  take-drop (suc n) (suc k) [] h = ground (arith, take-nil (suc k - suc n))
  take-drop (suc n) (suc k) (x ∷ xs) h = ground (arith, take-drop n k xs)

  pub drop-drop : (n k : ℕ) (xs : List A) → n ≤ k → drop (k - n) (drop n xs) ≡ drop k xs
  unfolding drop
  drop-drop zero k xs h = ground arith
  drop-drop (suc n) zero xs h = ground (arith, h)
  drop-drop (suc n) (suc k) [] h = ground (arith, drop-nil (suc k - suc n))
  drop-drop (suc n) (suc k) (x ∷ xs) h = ground (arith, drop-drop n k xs)

  pub drop-sum : (n k : ℕ) (xs : List A) → drop (n + k) xs ≡ drop k (drop n xs)
  unfolding drop
  drop-sum zero k xs = ground arith
  drop-sum (suc n) k [] = ground (arith, drop-nil (suc n + k), drop-nil k)
  drop-sum (suc n) k (x ∷ xs) = ap (λ j. drop j (x ∷ xs)) (suc_sum n k) ∙ drop-sum n k xs
