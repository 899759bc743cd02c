-- ===== src/Optimization/Qubo/Terms.antt =====
-- src/orbitmind/optimization/qubo.py: what the loops over the linear and the quadratic terms add to an
-- energy, read through a test `X` that says which opportunities an assignment selects.
use orbit_mind_living_q_core.Common.{
  ℕ, suc, ◌+◌, ◌*◌, ◌≡◌, refl, ap, inl, inr, String, Bool, true, false, ◌&&◌, some, List, [], ◌∷◌,
  map, ltb, if◌then◌else◌, ◌==◌, string_eq, nat_eq, length, All, contains, is_unique, ok, >>=-eq-ok,
  Bool-cases, Option-cases, Dict, get, ℤ, pos, pos_part, neg_part, ◌+ℤ◌, times_bit, +ℤ_parts,
  sum_of, count, arith,
}
use orbit_mind_living_q_core.Optimization.Models.{SchedulingConflict}
use orbit_mind_living_q_core.Optimization.Evaluation.{BitChar, is_one, decode}
use orbit_mind_living_q_core.Optimization.Qubo.{
  enumerate_from, linear_coefficient, linear_terms, add_coefficient, index_at, quadratic_terms,
  bit_at, add_linear, add_quadratic,
}

decode-subset :
    (id : String) (ids : List String) (bits : List BitChar)
    → contains id ids ≡ false
    → contains id (decode ids bits) ≡ false
unfolding decode
decode-subset id [] bits h = refl
decode-subset id (j ∷ ids) [] h = refl
decode-subset id (j ∷ ids) (b ∷ bits) h = ground (arith, decode-subset id ids bits)

decode-other :
    (id j : String) (ids : List String) (b : BitChar) (bits : List BitChar)
    → contains id ids ≡ false
    → contains j ids ≡ true
    → contains j (decode (id ∷ ids) (b ∷ bits)) ≡ contains j (decode ids bits)
unfolding decode
decode-other id j ids b bits h m = elim (Bool-cases (id == j)) [
  | inl same ↦ let here : id ≡ j = ground arith in ground (arith, ap (λ z. contains z ids) here)
  | inr other ↦ ground arith
]

-- The bit at the index of an opportunity says whether it is selected.
abbrev pub IsRead : (String → Bool) → List Bool → Dict ℕ → Type 0
IsRead X x index = All (λ (e : String × ℕ). bit_at x e.1 ≡ X e.0) index

pub enumerate_from-IsRead :
    (X : String → Bool) (x : List Bool) (k : ℕ) (ids : List String) (bits : List BitChar)
    → ((i j : ℕ) → i ≡ k + j → bit_at x i ≡ bit_at (map is_one bits) j)
    → length bits ≡ length ids
    → is_unique ids ≡ true
    → ((id : String) → contains id ids ≡ true → X id ≡ contains id (decode ids bits))
    → IsRead X x (enumerate_from k ids)
unfolding enumerate_from decode bit_at
enumerate_from-IsRead X x k [] bits shift e u agree = tt
enumerate_from-IsRead X x k (id ∷ ids) [] shift e u agree = absurd (ground arith)
enumerate_from-IsRead X x k (id ∷ ids) (b ∷ bits) shift e u agree = (
  ground (arith, shift k 0, agree id, decode-subset id ids bits),
  enumerate_from-IsRead X x (suc k) ids bits (λ i j h. ground (arith, shift i (suc j)))
      (ground arith) (ground arith) (λ j m. ground (arith, agree j, decode-other id j ids b bits)),
)

times_suc : (a b : ℕ) → a * suc b ≡ a + a * b
times_suc a b = omega arith

pub add_linear-parts :
    (value : String → ℕ) (penalty : ℕ) (mandatory : List String) (X : String → Bool) (x : List Bool)
    (k : ℕ) (ids : List String) (energy : ℤ)
    → IsRead X x (enumerate_from k ids)
    → let total =
        add_linear x energy (linear_terms value penalty mandatory (enumerate_from k ids)) in
      pos_part total
        + neg_part energy
        + (sum_of (λ id. if X id then value id else 0) ids
            + penalty * count (λ id. X id && contains id mandatory) ids)
      ≡ neg_part total + pos_part energy
unfolding enumerate_from linear_terms add_linear
add_linear-parts value penalty mandatory X x k [] energy h = omega arith
add_linear-parts value penalty mandatory X x k (id ∷ ids) energy (e, h) =
    let coeff = linear_coefficient (value id) penalty (contains id mandatory) in
    let skipped = add_linear-parts value penalty mandatory X x (suc k) ids energy h in
    let added =
      add_linear-parts value penalty mandatory X x (suc k) ids
        (energy +ℤ times_bit coeff (bit_at x k)) h in
    let sum = +ℤ_parts energy (times_bit coeff (bit_at x k)) in
    let once = times_suc penalty (count (λ id. X id && contains id mandatory) ids) in ground arith

-- A further start of the energy goes into the end of it.
add_quadratic-shift :
    (x : List Bool) (a b : ℤ) (terms : List ((ℕ × ℕ) × ℤ))
    → pos_part (add_quadratic x a terms)
        + neg_part (add_quadratic x b terms)
        + pos_part b
        + neg_part a
      ≡ neg_part (add_quadratic x a terms)
        + pos_part (add_quadratic x b terms)
        + neg_part b
        + pos_part a
unfolding add_quadratic
add_quadratic-shift x a b [] = omega arith
add_quadratic-shift x a b ((k, c) ∷ terms) =
    let bit = times_bit (times_bit c (bit_at x k.0)) (bit_at x k.1) in
    let rest = add_quadratic-shift x (a +ℤ bit) (b +ℤ bit) terms in
    let first = +ℤ_parts a bit in let second = +ℤ_parts b bit in ground arith

add_quadratic-add :
    (x : List Bool) (key : ℕ × ℕ) (penalty : ℕ) (energy : ℤ) (terms : List ((ℕ × ℕ) × ℤ))
    → pos_part (add_quadratic x energy (add_coefficient key penalty terms))
        + neg_part (add_quadratic x energy terms)
      ≡ neg_part (add_quadratic x energy (add_coefficient key penalty terms))
        + pos_part (add_quadratic x energy terms)
        + (if bit_at x key.0 && bit_at x key.1 then penalty else 0)
unfolding add_quadratic add_coefficient
add_quadratic-add x key penalty energy [] =
    let sum =
      +ℤ_parts energy (times_bit (times_bit (pos penalty) (bit_at x key.0)) (bit_at x key.1)) in
    ground arith
add_quadratic-add x key penalty energy ((k, c) ∷ terms) =
    let of_bits = λ (c : ℤ). times_bit (times_bit c (bit_at x k.0)) (bit_at x k.1) in
    elim (Bool-cases (k.0 == key.0 && k.1 == key.1)) [
      | inl same ↦
          let first : bit_at x k.0 ≡ bit_at x key.0 = ap (bit_at x) (ground arith) in
          let second : bit_at x k.1 ≡ bit_at x key.1 = ap (bit_at x) (ground arith) in
          let more = +ℤ_parts c (pos penalty) in
          let old = +ℤ_parts energy (of_bits c) in
          let new = +ℤ_parts energy (of_bits (c +ℤ pos penalty)) in
          let rest =
            add_quadratic-shift x (energy +ℤ of_bits (c +ℤ pos penalty)) (energy +ℤ of_bits c)
              terms in
          ground arith
      | inr other ↦
          let rest = add_quadratic-add x key penalty (energy +ℤ of_bits c) terms in ground arith
    ]

-- The opportunities of a conflict that are both selected.
abbrev pub hits : (String → Bool) → SchedulingConflict → Bool
hits X c = X c.opportunity_a && X c.opportunity_b

pub IsRead-get :
    (X : String → Bool) (x : List Bool) (id : String) (i : ℕ) (index : Dict ℕ)
    → IsRead X x index
    → get id index ≡ some i
    → bit_at x i ≡ X id
unfolding get
IsRead-get X x id i [] h e = cc
IsRead-get X x id i ((j, k) ∷ index) (first, h) e = elim (Bool-cases (j == id)) [
  | inl same ↦
      let here : j ≡ id = ground arith in
      let found : k ≡ i = ground arith in ground (arith, ap X here, ap (bit_at x) found)
  | inr other ↦ ground (arith, IsRead-get X x id i index h)
]

IsRead-index_at :
    (X : String → Bool) (x : List Bool) (id : String) (i : ℕ) (index : Dict ℕ)
    → IsRead X x index
    → index_at id index ≡ ok i
    → bit_at x i ≡ X id
unfolding index_at
IsRead-index_at X x id i index h e = elim (Option-cases (get id index)) [
  | inl none_there ↦ ground arith
  | inr (j, found) ↦
      let same : j ≡ i = ground arith in
      ground (arith, IsRead-get X x id j index h, ap (bit_at x) same)
]

ordered-bits :
    (x : List Bool) (i j : ℕ)
    → let key : ℕ × ℕ = if ltb i j then (i, j) else (j, i) in
      (bit_at x key.0 && bit_at x key.1) ≡ (bit_at x i && bit_at x j)
ordered-bits x i j = elim (Bool-cases (ltb i j)) [
  | inl less ↦ rw less refl
  | inr other ↦ rw other (ground arith)
]

-- The loop over the conflicts adds the penalty once for each that is hit.
pub quadratic_terms-parts :
    (X : String → Bool) (x : List Bool) (index : Dict ℕ) (penalty : ℕ)
    (cs : List SchedulingConflict) (energy : ℤ) (terms last : List ((ℕ × ℕ) × ℤ))
    → IsRead X x index
    → quadratic_terms index penalty cs terms ≡ ok last
    → pos_part (add_quadratic x energy last) + neg_part (add_quadratic x energy terms)
      ≡ neg_part (add_quadratic x energy last)
        + pos_part (add_quadratic x energy terms)
        + penalty * count (hits X) cs
unfolding quadratic_terms
quadratic_terms-parts X x index penalty [] energy terms last h e = ground arith
quadratic_terms-parts X x index penalty (c ∷ cs) energy terms last h e =
    let (i, at_a, e_a) = >>=-eq-ok (index_at c.opportunity_a index) _ e in
    let (j, at_b, e_b) = >>=-eq-ok (index_at c.opportunity_b index) _ e_a in
    let key : ℕ × ℕ = if ltb i j then (i, j) else (j, i) in
    let read_a = IsRead-index_at X x c.opportunity_a i index h at_a in
    let read_b = IsRead-index_at X x c.opportunity_b j index h at_b in
    let once = add_quadratic-add x key penalty energy terms in
    let rest =
      quadratic_terms-parts X x index penalty cs energy (add_coefficient key penalty terms) last h
        e_b in
    let more = times_suc penalty (count (hits X) cs) in
    let both = ordered-bits x i j in ground arith
