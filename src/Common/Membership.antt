-- ===== src/Common/Membership.antt =====
-- Membership, lists without repeats, and what sorting leaves of both.
use Prim.Native.Nat.{ℕ, suc, ◌+◌, ◌≤◌}
use mathlib.Core.Path.{◌≡◌, refl, ap}
use mathlib.Core.Bool.{Bool, true, false, ◌&&◌, ◌||◌}
use mathlib.Core.List.{List, [], ◌∷◌}
use mathlib.Core.Logic.{inl, inr}
use native.Mathlib.Omega.{arith}
use orbit_mind_living_q_core.Common.Tests.{if◌then◌else◌, Bool-cases}
use orbit_mind_living_q_core.Common.Equality.{HasEq, ◌==◌}
use orbit_mind_living_q_core.Common.Lists.{length, keep, any, All, contains, to_set, is_unique}
use orbit_mind_living_q_core.Common.Sorting.{insert_sorted, sorted_by}
use orbit_mind_living_q_core.Common.Sums.{sum_of, count, count-or, count-cong}

module _ {ℓ} {A : Type ℓ} where
  -- Sorting and whatever is summed or counted.
  insert_sorted-sum :
      (le : A → A → Bool) (f : A → ℕ) (x : A) (ys : List A)
      → sum_of f (insert_sorted le x ys) ≡ f x + sum_of f ys
  insert_sorted-sum le f x [] = refl
  insert_sorted-sum le f x (y ∷ ys) = ground (arith, insert_sorted-sum le f x ys)

  pub sum_of-sorted :
      (le : A → A → Bool) (f : A → ℕ) (xs : List A) → sum_of f (sorted_by le xs) ≡ sum_of f xs
  sum_of-sorted le f [] = refl
  sum_of-sorted le f (x ∷ xs) =
      ground (arith, insert_sorted-sum le f x (sorted_by le xs), sum_of-sorted le f xs)

  insert_sorted-count :
      (le : A → A → Bool) (p : A → Bool) (x : A) (ys : List A)
      → count p (insert_sorted le x ys) ≡ (if p x then 1 else 0) + count p ys
  insert_sorted-count le p x [] = ground arith
  insert_sorted-count le p x (y ∷ ys) = ground (arith, insert_sorted-count le p x ys)

  pub count-sorted :
      (le : A → A → Bool) (p : A → Bool) (xs : List A) → count p (sorted_by le xs) ≡ count p xs
  count-sorted le p [] = refl
  count-sorted le p (x ∷ xs) =
      ground (arith, insert_sorted-count le p x (sorted_by le xs), count-sorted le p xs)

  insert_sorted-length :
      (le : A → A → Bool) (x : A) (ys : List A) → length (insert_sorted le x ys) ≡ suc (length ys)
  insert_sorted-length le x [] = refl
  insert_sorted-length le x (y ∷ ys) = ground (arith, insert_sorted-length le x ys)

  pub length-sorted : (le : A → A → Bool) (xs : List A) → length (sorted_by le xs) ≡ length xs
  length-sorted le [] = refl
  length-sorted le (x ∷ xs) =
      ground (arith, insert_sorted-length le x (sorted_by le xs), length-sorted le xs)

  insert_sorted-any :
      (le : A → A → Bool) (p : A → Bool) (x : A) (ys : List A)
      → any p (insert_sorted le x ys) ≡ (p x || any p ys)
  insert_sorted-any le p x [] = refl
  insert_sorted-any le p x (y ∷ ys) = ground (arith, insert_sorted-any le p x ys)

  pub any-keep : (p q : A → Bool) (xs : List A) → any p xs ≡ false → any p (keep q xs) ≡ false
  any-keep p q [] h = refl
  any-keep p q (x ∷ xs) h = ground (arith, any-keep p q xs)

  pub any-sorted :
      (le : A → A → Bool) (p : A → Bool) (xs : List A) → any p (sorted_by le xs) ≡ any p xs
  any-sorted le p [] = refl
  any-sorted le p (x ∷ xs) =
      ground (arith, insert_sorted-any le p x (sorted_by le xs), any-sorted le p xs)

module _ {ℓ} {A : Type ℓ} ⦃e : HasEq A⦄ where
  eq_sym : (a b : A) → (a == b) ≡ (b == a)
  eq_sym a b = ground arith

  insert_sorted_unique :
      (le : A → A → Bool) (x : A) (ys : List A)
      → contains x ys ≡ false
      → is_unique ys ≡ true
      → is_unique (insert_sorted le x ys) ≡ true
  insert_sorted_unique le x [] h u = refl
  insert_sorted_unique le x (y ∷ ys) h u =
      ground
        (arith, eq_sym x y, insert_sorted-any le (λ z. z == y) x ys, insert_sorted_unique le x ys)

  pub sorted_by_unique :
      (le : A → A → Bool) (xs : List A) → is_unique xs ≡ true → is_unique (sorted_by le xs) ≡ true
  sorted_by_unique le [] u = refl
  sorted_by_unique le (x ∷ xs) u =
      let tail = sorted_by_unique le xs (ground arith) in
      insert_sorted_unique le x (sorted_by le xs) (ground (arith, any-sorted le (λ z. z == x) xs))
        tail

  pub contains-sorted :
      (le : A → A → Bool) (a : A) (xs : List A) → contains a (sorted_by le xs) ≡ contains a xs
  contains-sorted le a xs = any-sorted le (λ z. z == a) xs

  pub contains-to_set : (a : A) (xs : List A) → contains a (to_set xs) ≡ contains a xs
  contains-to_set a [] = refl
  contains-to_set a (x ∷ xs) = elim (Bool-cases (x == a)) [
    | inl same ↦ let here : x ≡ a = ground arith in rw here (ground (arith, contains-to_set a xs))
    | inr other ↦ ground (arith, contains-to_set a xs)
  ]

  pub to_set_unique : (xs : List A) → is_unique (to_set xs) ≡ true
  to_set_unique [] = refl
  to_set_unique (x ∷ xs) = ground (arith, contains-to_set x xs, to_set_unique xs)

  pub to_set-le : (xs : List A) → length (to_set xs) ≤ length xs
  to_set-le [] = omega arith
  to_set-le (x ∷ xs) = ground (arith, to_set-le xs)

  -- `len(xs) == len(set(xs))` says that nothing repeats.
  pub unique_of_length : (xs : List A) → length xs ≡ length (to_set xs) → is_unique xs ≡ true
  unique_of_length [] h = refl
  unique_of_length (x ∷ xs) h =
      ground (arith, to_set-le xs, contains-to_set x xs, unique_of_length xs)

  pub to_set-eq : (xs : List A) → is_unique xs ≡ true → to_set xs ≡ xs
  to_set-eq [] u = refl
  to_set-eq (x ∷ xs) u = ground (arith, contains-to_set x xs, to_set-eq xs)

  -- One element of a list without repeats.
  count-one :
      (p : A → Bool) (a : A) (xs : List A)
      → is_unique xs ≡ true
      → count (λ x. p x && (a == x)) xs ≡ (if p a && contains a xs then 1 else 0)
  count-one p a [] u = ground arith
  count-one p a (x ∷ xs) u = elim (Bool-cases (a == x)) [
    | inl same ↦
        let here : a ≡ x = ground arith in
        ground (arith, count-one p a xs, eq_sym a x, ap p here, ap (λ z. contains z xs) here)
    | inr other ↦ ground (arith, eq_sym a x, count-one p a xs)
  ]

  -- `x` is `y` or among `ys`, and not both.
  apart :
      (p : A → Bool) (y : A) (ys : List A)
      → contains y ys ≡ false
      → (x : A) → ((p x && (y == x)) && (p x && contains x ys)) ≡ false
  apart p y ys h x = elim (Bool-cases (y == x)) [
    | inl same ↦ let here : y ≡ x = ground arith in ground (arith, ap (λ z. contains z ys) here)
    | inr other ↦ ground arith
  ]

  spread :
      (p : A → Bool) (y : A) (ys xs : List A)
      → All (λ x. (p x && contains x (y ∷ ys)) ≡ ((p x && (y == x)) || (p x && contains x ys))) xs
  spread p y ys [] = tt
  spread p y ys (x ∷ xs) = (ground arith, spread p y ys xs)

  -- Counting the elements of `xs` in `ys`, or those of `ys` in `xs`, is the same.
  pub count-swap :
      (p : A → Bool) (xs ys : List A)
      → is_unique xs ≡ true
      → is_unique ys ≡ true
      → count (λ x. p x && contains x ys) xs ≡ count (λ y. p y && contains y xs) ys
  count-swap p [] [] u v = refl
  count-swap p (x ∷ xs) [] u v = let rest = count-swap p xs [] (ground arith) v in ground arith
  count-swap p xs (y ∷ ys) u v =
      let split = count-cong _ _ xs (spread p y ys xs) in
      let sum =
        count-or (λ x. p x && (y == x)) (λ x. p x && contains x ys) (apart p y ys (ground arith))
          xs in
      let rest = count-swap p xs ys u (ground arith) in let one = count-one p y xs u in ground arith
