-- ===== src/Common/Sums.antt =====
-- Sums and counts over a list, membership in lists without repeats, and the last entry of a key.
use Prim.Native.Nat.{ℕ, suc, ◌+◌, ◌*◌, ◌≤◌}
use mathlib.Core.Path.{◌≡◌, refl}
use mathlib.Core.Bool.{Bool, false, not, ◌&&◌, ◌||◌}
use mathlib.Core.List.{List, [], ◌∷◌}
use native.Mathlib.Omega.{arith}
use orbit_mind_living_q_core.Common.Tests.{if◌then◌else◌}
use orbit_mind_living_q_core.Common.Equality.{string_eq}
use orbit_mind_living_q_core.Common.Lists.{length, keep, All}

-- Python's `sum(f(x) for x in xs)` on numbers.
abbrev pub sum_of {ℓ} : {A : Type ℓ} → (A → ℕ) → List A → ℕ
sum_of f [] = 0
sum_of f (x ∷ xs) = f x + sum_of f xs

-- The number of elements that pass the test.
abbrev pub count {ℓ} : {A : Type ℓ} → (A → Bool) → List A → ℕ
count p [] = 0
count p (x ∷ xs) = let rest = count p xs in if p x then suc rest else rest

module _ {ℓ} {A : Type ℓ} where
  pub sum_of-scale : (f : A → ℕ) (w : ℕ) (xs : List A) → sum_of (λ x. f x * w) xs ≡ sum_of f xs * w
  sum_of-scale f w [] = omega arith
  sum_of-scale f w (x ∷ xs) = omega (arith, sum_of-scale f w xs)

  pub sum_of-keep :
      (f : A → ℕ) (p : A → Bool) (xs : List A)
      → sum_of f (keep p xs) ≡ sum_of (λ x. if p x then f x else 0) xs
  sum_of-keep f p [] = refl
  sum_of-keep f p (x ∷ xs) = ground (arith, sum_of-keep f p xs)

  pub sum_of-keep-le : (f : A → ℕ) (p : A → Bool) (xs : List A) → sum_of f (keep p xs) ≤ sum_of f xs
  sum_of-keep-le f p [] = omega arith
  sum_of-keep-le f p (x ∷ xs) = ground (arith, sum_of-keep-le f p xs)

  pub count-not : (p : A → Bool) (xs : List A) → count p xs + count (λ x. not (p x)) xs ≡ length xs
  count-not p [] = omega arith
  count-not p (x ∷ xs) = ground (arith, count-not p xs)

  pub count-cong :
      (p q : A → Bool) (xs : List A) → All (λ x. p x ≡ q x) xs → count p xs ≡ count q xs
  count-cong p q [] h = refl
  count-cong p q (x ∷ xs) (e, h) = ground (arith, count-cong p q xs h)

  -- Two tests that never pass together.
  pub count-or :
      (p q : A → Bool)
      → ((x : A) → p x && q x ≡ false)
      → (xs : List A) → count (λ x. p x || q x) xs ≡ count p xs + count q xs
  count-or p q apart [] = omega arith
  count-or p q apart (x ∷ xs) = ground (arith, apart x, count-or p q apart xs)
