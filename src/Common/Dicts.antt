-- ===== src/Common/Dicts.antt =====
-- Python's dict as an association list in insertion order, and `deque(maxlen=...)`.
use mathlib.Core.Path.{◌≡◌, refl}
use Prim.Native.Nat.{ℕ, suc, ◌≤◌}
use Prim.Native.String.{String}
use mathlib.Core.Bool.{Bool, true}
use mathlib.Core.List.{List, [], ◌∷◌, ◌++◌}
use mathlib.Core.Option.{Option, none, some}
use native.Mathlib.Omega.{arith}
use mathlib.Core.Logic.{inl, inr}
use orbit_mind_living_q_core.Common.Tests.{if◌then◌else◌, leb, Bool-cases}
use orbit_mind_living_q_core.Common.Equality.{string_eq, ◌==◌, ◌!=◌}
use orbit_mind_living_q_core.Common.Lists.{length, keep}

abbrev pub Dict {ℓ} : Type ℓ → Type ℓ
Dict A = List (String × A)

module _ {ℓ} {A : Type ℓ} where
  unfoldable pub get : String → Dict A → Option A
  get k [] = none
  get k ((j, a) ∷ d) = if j == k then some a else get k d

  -- `d.pop(k, None)`, for the dict alone.
  unfoldable pub remove : String → Dict A → Dict A
  remove k d = keep (λ e. e.0 != k) d

  -- `d[k] = a` for a key that is not there.
  unfoldable pub add : String → A → Dict A → Dict A
  add k a d = d ++ (k, a) ∷ []

  -- `d[k] = a` for a key that is there.
  unfoldable pub put : String → A → Dict A → Dict A
  put k a [] = []
  put k a ((j, b) ∷ d) = if j == k then (j, a) ∷ d else (j, b) ∷ put k a d

  pub get-put : (k : String) (a b : A) (d : Dict A) → get k d ≡ some b → get k (put k a d) ≡ some a
  unfolding get put
  get-put k a b [] h = cc
  get-put k a b ((j, c) ∷ d) h = ground (arith, get-put k a b d)

  -- The last `n` elements.
  unfoldable pub keep_last : ℕ → List A → List A
  keep_last n [] = []
  keep_last n (x ∷ xs) =
      let rest = keep_last n xs in if leb (suc (length xs)) n then x ∷ xs else rest

  pub keep_last-length : (n : ℕ) (xs : List A) → length (keep_last n xs) ≤ n
  unfolding keep_last
  keep_last-length n [] = omega arith
  keep_last-length n (x ∷ xs) = ground (arith, keep_last-length n xs)

  pub length-keep : (p : A → Bool) (xs : List A) → length (keep p xs) ≤ length xs
  length-keep p [] = omega arith
  length-keep p (x ∷ xs) = ground (arith, length-keep p xs)

  pub keep-keep-length :
      (p q : A → Bool) (xs : List A) → length (keep p (keep q xs)) ≤ length (keep p xs)
  keep-keep-length p q [] = omega arith
  keep-keep-length p q (x ∷ xs) = ground (arith, keep-keep-length p q xs)

  pub keep-append : (p : A → Bool) (xs ys : List A) → keep p (xs ++ ys) ≡ keep p xs ++ keep p ys
  keep-append p [] ys = refl
  keep-append p (x ∷ xs) ys = ground (arith, keep-append p xs ys)

  pub remove-add : (k : String) (a : A) (d : Dict A) → get k d ≡ none → remove k (add k a d) ≡ d
  unfolding get remove add
  remove-add k a [] h = ground arith
  remove-add k a ((j, b) ∷ d) h = ground (arith, remove-add k a d)

  pub get-add : (k : String) (a : A) (d : Dict A) → get k d ≡ none → get k (add k a d) ≡ some a
  unfolding get add
  get-add k a [] h = ground arith
  get-add k a ((j, b) ∷ d) h = ground (arith, get-add k a d)

  pub get-remove : (k : String) (d : Dict A) → get k (remove k d) ≡ none
  unfolding get remove
  get-remove k [] = refl
  get-remove k ((j, b) ∷ d) = ground (arith, get-remove k d)

  -- A key that is not there is not there after a filter.
  pub get-keep-none :
      (k : String) (p : String × A → Bool) (d : Dict A) → get k d ≡ none → get k (keep p d) ≡ none
  unfolding get
  get-keep-none k p [] h = refl
  get-keep-none k p ((j, b) ∷ d) h = ground (arith, get-keep-none k p d)

  -- The entry of a key stays if the filter keeps it.
  pub get-keep-some :
      (k : String) (p : String × A → Bool) (a : A) (d : Dict A)
      → get k d ≡ some a
      → p (k, a) ≡ true
      → get k (keep p d) ≡ some a
  unfolding get
  get-keep-some k p a [] h e = cc
  get-keep-some k p a ((j, b) ∷ d) h e = elim (Bool-cases (j == k)) [
    | inl same ↦
        let found : b ≡ a = ground arith in
        let here : j ≡ k = ground arith in rw (found, here) (ground arith)
    | inr other ↦ ground (arith, get-keep-some k p a d)
  ]
