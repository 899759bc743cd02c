-- ===== src/Common/Lists.antt =====
-- Lists measured by native numbers, and the Boolean searches of Python's `any`, `all` and `in`.
use Prim.Native.Nat.{ℕ, suc, ◌+◌}
use mathlib.Core.Path.{◌≡◌, refl}
use mathlib.Core.Bool.{Bool, true, false, not, ◌&&◌, ◌||◌}
use mathlib.Core.List.{List, [], ◌∷◌, ◌++◌}
use mathlib.Core.Logic.{◌↔◌}
use native.Mathlib.Omega.{arith}
use orbit_mind_living_q_core.Common.Tests.{if◌then◌else◌}
use orbit_mind_living_q_core.Common.Equality.{HasEq, ◌==◌}

module _ {ℓ} {A : Type ℓ} where
  abbrev pub length : List A → ℕ
  length [] = 0
  length (x ∷ xs) = suc (length xs)

  pub length-append : (xs ys : List A) → length (xs ++ ys) ≡ length xs + length ys
  length-append [] ys = omega arith
  length-append (x ∷ xs) ys = omega (arith, length-append xs ys)

  abbrev pub any : (A → Bool) → List A → Bool
  any p [] = false
  any p (x ∷ xs) = p x || any p xs

  abbrev pub all : (A → Bool) → List A → Bool
  all p [] = true
  all p (x ∷ xs) = p x && all p xs

-- The elements that pass the test, in order.
abbrev pub keep {ℓ} : {A : Type ℓ} → (A → Bool) → List A → List A
keep p [] = []
keep p (x ∷ xs) = let rest = keep p xs in if p x then x ∷ rest else rest

-- A predicate on every element.
abbrev pub All {ℓ κ} : {A : Type ℓ} → (A → Type κ) → List A → Type κ
All P [] = Unit
All P (x ∷ xs) = P x × All P xs

-- A search that finds nothing, read through a decision of the test.
pub any-false_iff {ℓ κ} :
    {A : Type ℓ} (p : A → Bool) (P : A → Type κ)
    → ((x : A) → (p x ≡ false) ↔ P x)
    → (xs : List A) → (any p xs ≡ false) ↔ All P xs
any-false_iff p P h [] = (λ _. tt, λ _. refl)
any-false_iff p P h (x ∷ xs) =
    let first = h x in
    let rest = any-false_iff p P h xs in
    (
      λ e. (first.0 (ground arith), rest.0 (ground arith)),
      λ a. ground (arith, first.1 a.0, rest.1 a.1),
    )

abbrev pub contains {ℓ} : {A : Type ℓ} ⦃e : HasEq A⦄ → A → List A → Bool
contains a = any (λ x. x == a)

-- The set of a list: each value once.
abbrev pub to_set {ℓ} : {A : Type ℓ} ⦃e : HasEq A⦄ → List A → List A
to_set [] = []
to_set (x ∷ xs) = let rest = to_set xs in if contains x rest then rest else x ∷ rest

-- No value occurs twice.
abbrev pub is_unique {ℓ} : {A : Type ℓ} ⦃e : HasEq A⦄ → List A → Bool
is_unique [] = true
is_unique (x ∷ xs) = not (contains x xs) && is_unique xs
