-- ===== src/Common/Sorting.antt =====
-- Python's `sorted` as a stable insertion sort by a Boolean order, the order of texts, and what a
-- reordering leaves alone.
use Prim.Native.Nat.{ℕ}
use Prim.Native.Char.{code}
use Prim.Native.String.{String}
use mathlib.Core.HLevel.{hedberg}
use mathlib.Core.List.Perm
use mathlib.Core.List.{List, [], ◌∷◌, Perm, Permᴰ}
use mathlib.Core.Bool.{Bool, true, false}
use mathlib.Core.Logic.{inl, inr, ∥∥₁_elim}
use mathlib.Core.Path.{◌≡◌, refl, ap, ◌∙◌}
use native.Mathlib.Omega.{arith}
use orbit_mind_living_q_core.Common.Tests.{ltb, if◌then◌else◌, Bool-cases}
use orbit_mind_living_q_core.Common.Equality.{Bool-discrete}
use orbit_mind_living_q_core.Common.Lists.{any}

abbrev pub codes : String → List ℕ
codes String.[] = []
codes (String.◌∷◌ c s) = code c ∷ codes s

-- Texts are compared code point by code point.
abbrev pub lex_leb : List ℕ → List ℕ → Bool
lex_leb [] _ = true
lex_leb (x ∷ xs) [] = false
lex_leb (x ∷ xs) (y ∷ ys) =
    let rest = lex_leb xs ys in if ltb x y then true else if ltb y x then false else rest

abbrev pub str_leb : String → String → Bool
str_leb s t = lex_leb (codes s) (codes t)

module _ {ℓ} {A : Type ℓ} (le : A → A → Bool) where
  abbrev pub insert_sorted : A → List A → List A
  insert_sorted x [] = x ∷ []
  insert_sorted x (y ∷ ys) =
      let rest = insert_sorted x ys in if le x y then x ∷ y ∷ ys else y ∷ rest

  abbrev pub sorted_by : List A → List A
  sorted_by [] = []
  sorted_by (x ∷ xs) = insert_sorted x (sorted_by xs)

  insert_sorted-perm : (x : A) (ys : List A) → Perm (insert_sorted x ys) (x ∷ ys)
  insert_sorted-perm x [] = Perm.refl _
  insert_sorted-perm x (y ∷ ys) = elim (Bool-cases (le x y)) [
    | inl e ↦ rw e (Perm.refl _)
    | inr e ↦ rw e (Perm.trans (Perm.cons y (insert_sorted-perm x ys)) (Perm.swap x y ys))
  ]

  -- Sorting loses nothing and adds nothing.
  pub sorted_by-perm : (xs : List A) → Perm (sorted_by xs) xs
  sorted_by-perm [] = Perm.refl _
  sorted_by-perm (x ∷ xs) =
      Perm.trans (insert_sorted-perm x (sorted_by xs)) (Perm.cons x (sorted_by-perm xs))

any-permᴰ {ℓ} : {A : Type ℓ} (p : A → Bool) {xs ys : List A} → Permᴰ xs ys → any p xs ≡ any p ys
any-permᴰ p Permᴰ.nil = refl
any-permᴰ p (Permᴰ.cons e h) = ground (arith, ap p e, any-permᴰ p h)
any-permᴰ p (Permᴰ.swap e f) = ground (arith, ap p e, ap p f)
any-permᴰ p (Permᴰ.trans h k) = any-permᴰ p h ∙ any-permᴰ p k

pub any-perm {ℓ} : {A : Type ℓ} (p : A → Bool) {xs ys : List A} → Perm xs ys → any p xs ≡ any p ys
any-perm p h = ∥∥₁_elim h (hedberg Bool-discrete _ _) (any-permᴰ p)
