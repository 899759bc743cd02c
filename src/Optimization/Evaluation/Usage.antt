-- ===== src/Optimization/Evaluation/Usage.antt =====
-- src/orbitmind/optimization/evaluation.py: the totals per satellite and per target, and when none is
-- above its limit.
use orbit_mind_living_q_core.Common.{
  ℕ, ◌+◌, ◌≤◌, ◌≡◌, refl, ap, ◌∙◌, sym, suc, ◌↔◌, inl, inr, String, Bool, true, false, ◌||◌, Option,
  none, some, List, [], ◌∷◌, map, ltb, if◌then◌else◌, ◌==◌, string_eq, nat_eq, length, any,
  contains, is_unique, Bool-cases, sum_of, sorted_by, any-sorted, eq_self, Dict, arith,
}
use orbit_mind_living_q_core.Optimization.Models.{ConstraintKind, ConstraintViolation}
use orbit_mind_living_q_core.Optimization.Evaluation.{
  excess, accumulate, totals, above_limit, entry_leb,
}

-- What the ids of a key use together.
abbrev pub usage : (String → String) → (String → ℕ) → List String → String → ℕ
usage key amount ids k = sum_of (λ id. if key id == k then amount id else 0) ids

abbrev entries_of : String → Dict ℕ → ℕ
entries_of k d = sum_of (λ (e : String × ℕ). if e.0 == k then e.1 else 0) d

abbrev keys : Dict ℕ → List String
keys d = map (λ (e : String × ℕ). e.0) d

accumulate-entries :
    (j k : String) (a : ℕ) (d : Dict ℕ)
    → entries_of k (accumulate j a d) ≡ entries_of k d + (if j == k then a else 0)
unfolding accumulate
accumulate-entries j k a [] = ground arith
accumulate-entries j k a ((i, n) ∷ d) = elim (Bool-cases (i == j)) [
  | inl same ↦ let here : i ≡ j = ground arith in ground (arith, ap (λ i. i == k) here)
  | inr other ↦ ground (arith, accumulate-entries j k a d)
]

accumulate-keys :
    (i j : String) (a : ℕ) (d : Dict ℕ)
    → contains i (keys (accumulate j a d)) ≡ (contains i (keys d) || (j == i))
unfolding accumulate
accumulate-keys i j a [] = ground arith
accumulate-keys i j a ((k, n) ∷ d) = elim (Bool-cases (k == j)) [
  | inl same ↦ let here : k ≡ j = ground arith in ground (arith, ap (λ k. k == i) here)
  | inr other ↦ ground (arith, accumulate-keys i j a d)
]

accumulate_unique :
    (j : String) (a : ℕ) (d : Dict ℕ)
    → is_unique (keys d) ≡ true
    → is_unique (keys (accumulate j a d)) ≡ true
unfolding accumulate
accumulate_unique j a [] u = refl
accumulate_unique j a ((k, n) ∷ d) u =
    ground (arith, accumulate_unique j a d, accumulate-keys k j a d)

module _ (key : String → String) (amount : String → ℕ) where
  totals-entries :
      (ids : List String) (d : Dict ℕ) (k : String)
      → entries_of k (totals key amount ids d) ≡ entries_of k d + usage key amount ids k
  unfolding totals
  totals-entries [] d k = omega arith
  totals-entries (id ∷ ids) d k =
      let rest = totals-entries ids (accumulate (key id) (amount id) d) k in
      let first = accumulate-entries (key id) k (amount id) d in omega arith

  totals_unique :
      (ids : List String) (d : Dict ℕ)
      → is_unique (keys d) ≡ true
      → is_unique (keys (totals key amount ids d)) ≡ true
  unfolding totals
  totals_unique [] d u = u
  totals_unique (id ∷ ids) d u =
      totals_unique ids (accumulate (key id) (amount id) d)
        (accumulate_unique (key id) (amount id) d u)

-- The test of an entry.
abbrev is_over : Option ℕ → ℕ → Bool
is_over none used = false
is_over (some most) used = ltb most used

abbrev is_above : (String → Option ℕ) → String × ℕ → Bool
is_above limit e = is_over (limit e.0) e.1

excess-length :
    (kind : ConstraintKind) (limit : Option ℕ) (used : ℕ) (rest : List ConstraintViolation)
    → length (excess kind limit used rest)
      ≡ (if is_over limit used then suc (length rest) else length rest)
excess-length kind none used rest = refl
excess-length kind (some most) used rest = ground arith

above_limit-any :
    (kind : ConstraintKind) (limit : String → Option ℕ) (d : Dict ℕ)
    → (length (above_limit kind limit d) ≡ 0) ↔ (any (is_above limit) d ≡ false)
unfolding above_limit
above_limit-any kind limit [] = (λ e. refl, λ e. refl)
above_limit-any kind limit ((k, used) ∷ d) =
    let (to, from) = above_limit-any kind limit d in
    let first = excess-length kind (limit k) used (above_limit kind limit d) in
    (λ h. ground arith, λ h. ground arith)

-- Each key with a limit stays within it.
abbrev pub IsWithinLimits : (String → Option ℕ) → (String → ℕ) → Type 0
IsWithinLimits limit total = (k : String) (most : ℕ) → limit k ≡ some most → total k ≤ most

unused : (k : String) (d : Dict ℕ) → contains k (keys d) ≡ false → entries_of k d ≡ 0
unused k [] h = refl
unused k ((j, n) ∷ d) h = ground (arith, unused k d)

not_over :
    (limit : Option ℕ) (used most : ℕ)
    → limit ≡ some most
    → is_over limit used ≡ false
    → used ≤ most
not_over none used most e h = cc
not_over (some m) used most e h = let same : m ≡ most = ground arith in ground arith

none_above :
    (limit : String → Option ℕ) (d : Dict ℕ)
    → is_unique (keys d) ≡ true
    → any (is_above limit) d ≡ false
    → IsWithinLimits limit (λ k. entries_of k d)
none_above limit [] u h k most e = omega arith
none_above limit ((j, n) ∷ d) u h k most e = elim (Bool-cases (j == k)) [
  | inl same ↦
      let here : j ≡ k = ground arith in
      let small = not_over (limit j) n most (ap limit here ∙ e) (ground arith) in
      let gone : contains k (keys d) ≡ false = ground (arith, ap (λ z. contains z (keys d)) here) in
      ground (arith, unused k d gone)
  | inr other ↦ let rest = none_above limit d (ground arith) (ground arith) k most e in ground arith
]

over_limit :
    (limit : Option ℕ) (used : ℕ)
    → ((most : ℕ) → limit ≡ some most → used ≤ most)
    → is_over limit used ≡ false
over_limit none used h = refl
over_limit (some m) used h = let le = h m refl in ground arith

within_entries :
    (limit : String → Option ℕ) (d : Dict ℕ)
    → IsWithinLimits limit (λ k. entries_of k d)
    → any (is_above limit) d ≡ false
within_entries limit [] h = refl
within_entries limit ((j, n) ∷ d) h =
    let rest = within_entries limit d (λ k most e. ground (arith, h k most e)) in
    let first = over_limit (limit j) n (λ most e. ground (arith, h j most e, eq_self j)) in
    ground arith

-- No violation among the totals: every key with a limit uses at most that much.
pub above_limit_iff :
    (kind : ConstraintKind) (limit : String → Option ℕ) (key : String → String)
    (amount : String → ℕ) (ids : List String)
    → (length (above_limit kind limit (sorted_by entry_leb (totals key amount ids []))) ≡ 0)
      ↔ IsWithinLimits limit (usage key amount ids)
above_limit_iff kind limit key amount ids =
    let d = totals key amount ids [] in
    let (to, from) = above_limit-any kind limit (sorted_by entry_leb d) in
    let order = any-sorted entry_leb (is_above limit) d in
    (
      λ h k most e.
          let inside =
            none_above limit d (totals_unique key amount ids [] refl) (sym order ∙ to h) k most e in
          let total = totals-entries key amount ids [] k in omega arith,
      λ h. from (
          order
          ∙ within_entries limit d (λ k most e.
            let total = totals-entries key amount ids [] k in let le = h k most e in omega arith)),
    )
