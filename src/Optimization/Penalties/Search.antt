-- ===== src/Optimization/Penalties/Search.antt =====
-- src/orbitmind/optimization/penalties.py: the exhaustive search visits every assignment and ends with
-- the least energies.
use orbit_mind_living_q_core.Common.{
  ℕ, zero, suc, ◌≡◌, refl, inl, inr, ap, ◌∙◌, subst, Bool, true, false, Option, none, some, List,
  [], ◌∷◌, ◌++◌, map, ◌==◌, nat_eq, length, any, All, ok, >>=-eq-ok, Bool-cases, Option-cases, ℤ,
  ◌≤ℤ◌, ltb_ℤ, arith,
}
use orbit_mind_living_q_core.Optimization.Models.{QuboModel}
use orbit_mind_living_q_core.Optimization.Evaluation.{
  BitChar, zero_bit, one_bit, other_char, is_other,
}
use orbit_mind_living_q_core.Optimization.Qubo.{qubo_energy}
use orbit_mind_living_q_core.Optimization.Penalties.{
  all_bits, Bests, lower, update, search_energies,
}

-- The bit strings of a length.
abbrev pub IsAssignment : ℕ → List BitChar → Type 0
IsAssignment n bits = (length bits ≡ n) × (any is_other bits ≡ false)

All-map :
    {A B : Type 0} (P : B → Type 0) (f : A → B) (xs : List A)
    → All (λ x. P (f x)) xs
    → All P (map f xs)
All-map P f [] h = tt
All-map P f (x ∷ xs) (h, hs) = (h, All-map P f xs hs)

All-prefix : {A : Type 0} (P : A → Type 0) (xs ys : List A) → All P (xs ++ ys) → All P xs
All-prefix P [] ys h = tt
All-prefix P (x ∷ xs) ys (h, hs) = (h, All-prefix P xs ys hs)

All-suffix : {A : Type 0} (P : A → Type 0) (xs ys : List A) → All P (xs ++ ys) → All P ys
All-suffix P [] ys h = h
All-suffix P (x ∷ xs) ys (h, hs) = All-suffix P xs ys hs

All-unmap :
    {A B : Type 0} (P : B → Type 0) (f : A → B) (xs : List A)
    → All P (map f xs)
    → All (λ x. P (f x)) xs
All-unmap P f [] h = tt
All-unmap P f (x ∷ xs) (h, hs) = (h, All-unmap P f xs hs)

-- What holds of every enumerated string holds of every assignment.
pub all_bits-complete :
    (P : List BitChar → Type 0) (n : ℕ) (bits : List BitChar)
    → All P (all_bits n)
    → IsAssignment n bits
    → P bits
unfolding all_bits
all_bits-complete P zero [] (h, _) a = h
all_bits-complete P zero (b ∷ bits) h (len, binary) = absurd (ground arith)
all_bits-complete P (suc n) [] h (len, binary) = absurd (ground arith)
all_bits-complete P (suc n) (zero_bit ∷ bits) h (len, binary) =
    all_bits-complete (λ bits. P (zero_bit ∷ bits)) n bits
      (All-unmap P (λ bits. zero_bit ∷ bits) (all_bits n) (All-prefix P _ _ h))
      (omega arith, binary)
all_bits-complete P (suc n) (one_bit ∷ bits) h (len, binary) =
    all_bits-complete (λ bits. P (one_bit ∷ bits)) n bits
      (All-unmap P (λ bits. one_bit ∷ bits) (all_bits n)
        (All-suffix P (map (λ bits. zero_bit ∷ bits) (all_bits n)) _ h))
      (omega arith, binary)
all_bits-complete P (suc n) (other_char ∷ bits) h (len, binary) = absurd (ground arith)

All-join : {A : Type 0} (P : A → Type 0) (xs ys : List A) → All P xs → All P ys → All P (xs ++ ys)
All-join P [] ys h k = k
All-join P (x ∷ xs) ys (h, hs) k = (h, All-join P xs ys hs k)

All-mono :
    {A : Type 0} (P Q : A → Type 0) (xs : List A) → ((x : A) → P x → Q x) → All P xs → All Q xs
All-mono P Q [] f h = tt
All-mono P Q (x ∷ xs) f (h, hs) = (f x h, All-mono P Q xs f hs)

-- Every enumerated string is an assignment.
pub all_bits-IsAssignment : (n : ℕ) → All (IsAssignment n) (all_bits n)
unfolding all_bits
all_bits-IsAssignment zero = ((refl, refl), tt)
all_bits-IsAssignment (suc n) =
    let longer =
      All-mono (IsAssignment n) (λ bits. (suc (length bits) ≡ suc n) × (any is_other bits ≡ false))
        (all_bits n) (λ bits h. (ap suc h.0, h.1)) (all_bits-IsAssignment n) in
    All-join (IsAssignment (suc n)) _ _
      (All-map (IsAssignment (suc n)) (λ bits. zero_bit ∷ bits) (all_bits n) longer)
      (All-map (IsAssignment (suc n)) (λ bits. one_bit ∷ bits) (all_bits n) longer)

-- The best is known, and at most the given energy.
abbrev pub IsReached : ℤ → Option ℤ → Type 0
IsReached energy best = (m : ℤ) × (best ≡ some m) × (m ≤ℤ energy)

lower-IsReached : (best : Option ℤ) (energy : ℤ) → IsReached energy (lower best energy)
lower-IsReached none energy = (energy, refl, omega arith)
lower-IsReached (some m) energy = elim (Bool-cases (ltb_ℤ energy m)) [
  | inl e ↦ (energy, rw e refl, omega arith)
  | inr e ↦ (m, rw e refl, ground arith)
]

lower_mono : (best : Option ℤ) (new old : ℤ) → IsReached old best → IsReached old (lower best new)
lower_mono best new old (m, e, le) = elim (Bool-cases (ltb_ℤ new m)) [
  | inl less ↦ (new, rw (e, less) refl, ground arith)
  | inr more ↦ (m, rw (e, more) refl, le)
]

update_mono :
    (b : Bool) (new old : ℤ) (bests : Bests)
    → IsReached old bests.best_infeasible
    → IsReached old (update b new bests).best_infeasible
update_mono true new old bests h = h
update_mono false new old bests h = lower_mono bests.best_infeasible new old h

search_mono :
    (q : QuboModel) (violations : List BitChar → ℕ) (rest : List (List BitChar)) (old : ℤ)
    (bests last : Bests)
    → search_energies q violations rest bests ≡ ok last
    → IsReached old bests.best_infeasible
    → IsReached old last.best_infeasible
unfolding search_energies
search_mono q violations [] old bests last h r =
    let same : bests ≡ last = ground arith in subst (λ b. IsReached old b.best_infeasible) same r
search_mono q violations (bits ∷ rest) old bests last h r =
    let (energy, call, next) = >>=-eq-ok (qubo_energy q bits) _ h in
    search_mono q violations rest old (update (violations bits == 0) energy bests) last next
      (update_mono (violations bits == 0) energy old bests r)

-- No assignment with a violation lies below the best of those.
pub search-infeasible :
    (q : QuboModel) (violations : List BitChar → ℕ) (rest : List (List BitChar))
    (bests last : Bests)
    → search_energies q violations rest bests ≡ ok last
    → All
        (λ bits.
          (violations bits == 0) ≡ false
          → (energy : ℤ) → qubo_energy q bits ≡ ok energy
          → IsReached energy last.best_infeasible)
        rest
unfolding search_energies
search-infeasible q violations [] bests last h = tt
search-infeasible q violations (bits ∷ rest) bests last h =
    let (energy, call, next) = >>=-eq-ok (qubo_energy q bits) _ h in
    (
      λ bad own is_own.
          let same : energy ≡ own = ground arith in
          let start : IsReached energy
              (update (violations bits == 0) energy bests).best_infeasible =
            rw bad (lower-IsReached bests.best_infeasible energy) in
          subst (λ e. IsReached e last.best_infeasible) same
            (search_mono q violations rest energy (update (violations bits == 0) energy bests) last
              next start),
      search-infeasible q violations rest (update (violations bits == 0) energy bests) last next,
    )

-- An assignment among those visited, without a violation, that has the energy.
abbrev pub IsAttained : QuboModel → (List BitChar → ℕ) → (List BitChar → Type 0) → ℤ → Type 0
IsAttained q violations P energy =
    (bits : List BitChar) × P bits
    × ((violations bits == 0) ≡ true)
    × (qubo_energy q bits ≡ ok energy)

update-IsAttained :
    (q : QuboModel) (violations : List BitChar → ℕ) (P : List BitChar → Type 0)
    (bits : List BitChar) (energy : ℤ) (bests : Bests)
    → P bits
    → qubo_energy q bits ≡ ok energy
    → ((m : ℤ) → bests.best_feasible ≡ some m → IsAttained q violations P m)
    → (m : ℤ) → (update (violations bits == 0) energy bests).best_feasible ≡ some m
    → IsAttained q violations P m
update-IsAttained q violations P bits energy bests h is_energy before m found =
    elim (Bool-cases (violations bits == 0)) [
      | inl good ↦
          let now : lower bests.best_feasible energy ≡ some m = rw good at found in
          elim (Option-cases bests.best_feasible) [
            | inl e ↦
                let same : energy ≡ m = ground arith in (bits, h, good, is_energy ∙ ap ok same)
            | inr (old, e) ↦ elim (Bool-cases (ltb_ℤ energy old)) [
              | inl less ↦
                  let same : energy ≡ m = ground arith in (bits, h, good, is_energy ∙ ap ok same)
              | inr more ↦ let same : old ≡ m = ground arith in before m (e ∙ ap some same)
            ]
          ]
      | inr bad ↦ before m (rw bad at found)
    ]

-- The best of the assignments without a violation is one of theirs.
pub search-IsAttained :
    (q : QuboModel) (violations : List BitChar → ℕ) (P : List BitChar → Type 0)
    (rest : List (List BitChar)) (bests last : Bests)
    → search_energies q violations rest bests ≡ ok last
    → All P rest
    → ((m : ℤ) → bests.best_feasible ≡ some m → IsAttained q violations P m)
    → (m : ℤ) → last.best_feasible ≡ some m
    → IsAttained q violations P m
unfolding search_energies
search-IsAttained q violations P [] bests last h all before m found =
    let same : bests ≡ last = ground arith in before m (ap (λ b. b.best_feasible) same ∙ found)
search-IsAttained q violations P (bits ∷ rest) bests last h (first, all) before m found =
    let (energy, call, next) = >>=-eq-ok (qubo_energy q bits) _ h in
    search-IsAttained q violations P rest (update (violations bits == 0) energy bests) last next all
      (update-IsAttained q violations P bits energy bests first call before) m found
