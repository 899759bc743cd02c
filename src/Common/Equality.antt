-- ===== src/Common/Equality.antt =====
-- Python's `==` on the values that the program only compares: one operator for every type with
-- a decidable equality.
use Prim.Native.Nat.{ℕ}
use Prim.Native.String.{String}
use mathlib.Core.Path.{◌≡◌, refl}
use mathlib.Core.Logic.{◌↔◌}
use mathlib.Core.Bool.{Bool, true, false, not}
use native.Mathlib.Decide.{ℕ_discrete}
use native.Mathlib.Omega.{arith}
use text.Mathlib.Text.{◌==◌ as str_eq}
use text.Mathlib.TextEquality.{eq_iff}

pub ne_of_str_eq : (s t : String) → str_eq s t ≡ false → ¬ (s ≡ t)
ne_of_str_eq s t h p = ground (arith, eq_iff s t)

abbrev pub dec_of_str_eq : (s t : String) (b : Bool) → str_eq s t ≡ b → Dec (s ≡ t)
dec_of_str_eq s t true h = yes ((eq_iff s t).0 h)
dec_of_str_eq s t false h = no (ne_of_str_eq s t h)

unfoldable pub String-discrete : Discrete String
String-discrete s t = dec_of_str_eq s t (str_eq s t) refl

pub record HasEq {ℓ} (A : Type ℓ) : Type ℓ where
  pub discrete : Discrete A

infix 50 ◌==◌ ◌!=◌
abbrev pub ◌==◌ {ℓ} : {A : Type ℓ} ⦃e : HasEq A⦄ → A → A → Bool
◌==◌ ⦃e⦄ a b = elim (e.discrete a b) [ yes _ ↦ true | no _ ↦ false ]

abbrev pub ◌!=◌ {ℓ} : {A : Type ℓ} ⦃e : HasEq A⦄ → A → A → Bool
a != b = not (a == b)

instance abbrev pub nat_eq : HasEq ℕ
nat_eq = record { discrete = ℕ_discrete }

instance abbrev pub string_eq : HasEq String
string_eq = record { discrete = String-discrete }

unfoldable pub Bool-discrete : Discrete Bool
Bool-discrete = hlevel

instance abbrev pub bool_eq : HasEq Bool
bool_eq = record { discrete = Bool-discrete }

module _ {ℓ} {A : Type ℓ} ⦃e : HasEq A⦄ where
  pub eq_iff_path : (a b : A) → ((a == b) ≡ true) ↔ (a ≡ b)
  eq_iff_path a b = ground arith

  pub eq_self : (a : A) → (a == a) ≡ true
  eq_self a = (eq_iff_path a a).1 refl
