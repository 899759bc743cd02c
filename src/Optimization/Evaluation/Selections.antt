-- ===== src/Optimization/Evaluation/Selections.antt =====
-- src/orbitmind/optimization/evaluation.py: an evaluation reads a selection by its variables alone.
use orbit_mind_living_q_core.Common.{
  ◌≡◌, refl, ap, inl, inr, String, Bool, true, ◌&&◌, List, [], ◌∷◌, ◌==◌, string_eq, keep, contains,
  to_set, Bool-cases, contains-to_set, arith,
}
use orbit_mind_living_q_core.Optimization.Evaluation.{
  Evaluator, chosen, evaluate, decode, bitstring,
}

pub contains-keep :
    (f : String → Bool) (id : String) (ids : List String)
    → contains id (keep f ids) ≡ (contains id ids && f id)
contains-keep f id [] = refl
contains-keep f id (j ∷ ids) = elim (Bool-cases (j == id)) [
  | inl same ↦ let here : j ≡ id = ground arith in ground (arith, ap f here, contains-keep f id ids)
  | inr other ↦ ground (arith, contains-keep f id ids)
]

keep-cong :
    (f g : String → Bool) (ids : List String)
    → ((id : String) → contains id ids ≡ true → f id ≡ g id)
    → keep f ids ≡ keep g ids
keep-cong f g [] h = refl
keep-cong f g (id ∷ ids) h =
    let first = h id (ground arith) in
    let rest = keep-cong f g ids (λ j k. h j (ground arith)) in ground arith

-- Selections with the same variables are the same to the evaluator.
pub chosen-cong :
    (ev : Evaluator) (selected other : List String)
    → ((id : String) → contains id ev.order ≡ true → contains id selected ≡ contains id other)
    → chosen ev selected ≡ chosen ev other
unfolding chosen
chosen-cong ev selected other h =
    keep-cong (λ id. contains id selected) (λ id. contains id other) (to_set ev.order)
      (λ id k. h id (ground (arith, contains-to_set id ev.order)))

pub evaluate-cong :
    (ev : Evaluator) (selected other : List String)
    → ((id : String) → contains id ev.order ≡ true → contains id selected ≡ contains id other)
    → evaluate ev selected ≡ evaluate ev other
unfolding evaluate
evaluate-cong ev selected other h = rw (chosen-cong ev selected other h) refl

-- Decoding takes the variables of the selection, in their order.
decode-bitstring :
    (selected order : List String)
    → decode order (bitstring selected order) ≡ keep (λ id. contains id selected) order
unfolding decode bitstring
decode-bitstring selected [] = refl
decode-bitstring selected (id ∷ ids) = elim (Bool-cases (contains id selected)) [
  | inl e ↦ rw e (ap (λ js. id ∷ js) (decode-bitstring selected ids))
  | inr e ↦ rw e (decode-bitstring selected ids)
]

-- A bit string written from a selection reads back as the same variables to the evaluator.
pub chosen-bitstring :
    (ev : Evaluator) (selected : List String)
    → chosen ev (decode ev.order (bitstring selected ev.order)) ≡ chosen ev selected
chosen-bitstring ev selected = rw (decode-bitstring selected ev.order) (
    chosen-cong ev (keep (λ id. contains id selected) ev.order) selected
      (λ id k. ground (arith, contains-keep (λ id. contains id selected) id ev.order)))
