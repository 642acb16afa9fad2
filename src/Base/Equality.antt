-- ===== src/Base/Equality.antt =====
-- Decidable equality as an interface, for the key types of the program's maps.
use Prim.Native.Nat.{ℕ}
use Prim.Native.String.{String}
use mathlib.Core.Path.{◌≡◌, refl}
use mathlib.Core.Logic.{◌↔◌}
use mathlib.Core.Bool.{Bool, true}
use composable_dra_driver.Base.Int.{ℤ, int_beq, int_beq_iff}
use composable_dra_driver.Base.Tests.{nat_beq, nat_beq_iff}
use text.Mathlib.TextEquality.{eq_iff}
use text.Mathlib.Text.{◌==◌ as same_text}

-- Go's == on a type of keys.
pub record Eq {ℓ} (Key : Type ℓ) : Type ℓ where
  pub equals : Key → Key → Bool
  pub equals_iff : (this that : Key) → (equals this that ≡ true) ↔ (this ≡ that)

instance abbrev pub int_eq : Eq ℤ
int_eq = record { equals = int_beq; equals_iff = int_beq_iff }

instance abbrev pub string_eq : Eq String
string_eq = record { equals = same_text; equals_iff = eq_iff }

instance abbrev pub nat_eq : Eq ℕ
nat_eq = record { equals = nat_beq; equals_iff = nat_beq_iff }

infix 50 ◌==◌
abbrev pub ◌==◌ {ℓ} : {Key : Type ℓ} ⦃test : Eq Key⦄ → Key → Key → Bool
◌==◌ ⦃test⦄ this that = test.equals this that

pub eq_refl {ℓ} : {A : Type ℓ} ⦃e : Eq A⦄ (a : A) → (a == a) ≡ true
eq_refl ⦃e⦄ a = (e.equals_iff a a).1 refl
