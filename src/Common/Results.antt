-- ===== src/Common/Results.antt =====
-- Exceptions as values.
use mathlib.Core.Path.{◌≡◌, refl}
use mathlib.Core.Bool.{Bool, true, false}

-- What a call that may raise leaves: its value, or the exception.
pub data Result (E A : Type 0) : Type 0 where
  err : E → Result E A
  ok : A → Result E A

infixl 5 ◌>>=◌ ◌>>◌
abbrev pub ◌>>=◌ : {E A B : Type 0} → Result E A → (A → Result E B) → Result E B
err raised >>= next = err raised
ok value >>= next = next value

abbrev pub ◌>>◌ : {E B : Type 0} → Result E (Unit {0}) → Result E B → Result E B
first >> second = first >>= λ _. second

-- `if test: raise e`.
abbrev pub raise_if : {E : Type 0} → Bool → E → Result E (Unit {0})
raise_if false raised = ok tt
raise_if true raised = err raised

-- A sequence that succeeds did so by a value of its first call.
pub >>=-eq-ok :
    {E A B : Type 0} (call : Result E A) (next : A → Result E B) {last : B}
    → (call >>= next) ≡ ok last
    → (value : A) × (call ≡ ok value) × (next value ≡ ok last)
>>=-eq-ok (err raised) next done = cc
>>=-eq-ok (ok value) next done = (value, refl, done)
