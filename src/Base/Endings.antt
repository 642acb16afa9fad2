-- ===== src/Base/Endings.antt =====
-- Postconditions of outcomes: a value with a property or an error, and never a panic.
use mathlib.Core.Path.{◌≡◌, refl, subst}
use mathlib.Core.Logic.{◌≢◌}
use composable_dra_driver.Base.Go.{
  Error, Outcome, ok, err, panic, Action, continue, ◌>>=◌, and_then, ok_inj,
}

pub data Post {ℓ κ} {A : Type ℓ} (P : A → Type κ) : Outcome A → Type (ℓ ⊔ κ) where
  returns : {a : A} → P a → Post P (ok a)
  throws : (e : Error) → Post P (err e)

-- Whatever the state, the action ends so.
abbrev pub Runs {ℓ κ μ} : {S : Type ℓ} {A : Type κ} → (A → Type μ) → Action S A → Type (ℓ ⊔ κ ⊔ μ)
Runs {S} P act = (s : S) → Post P (act s).0

pub of_ok {ℓ κ} : {A : Type ℓ} {P : A → Type κ} {r : Outcome A} {a : A} → Post P r → r ≡ ok a → P a
of_ok {P} (returns h) e = subst P (ok_inj e) h
of_ok (throws f) e = cc

pub Post-ne-panic {ℓ κ} : {A : Type ℓ} {P : A → Type κ} {r : Outcome A} → Post P r → r ≢ panic
Post-ne-panic (returns h) e = cc
Post-ne-panic (throws f) e = cc

pub and_then-Post {ℓ κ μ ν} :
    {A : Type ℓ} {B : Type κ} {P : A → Type μ} {Q : B → Type ν} {r : Outcome A} {f : A → Outcome B}
    → Post P r
    → ((a : A) → P a → Post Q (f a))
    → Post Q (and_then r f)
and_then-Post (returns {a} h) k = k a h
and_then-Post (throws e) k = throws e

pub continue-Post {ℓ κ μ ν ξ} :
    {S : Type ℓ} {A : Type κ} {B : Type μ} {P : A → Type ν} {Q : B → Type ξ} (f : A → Action S B)
    (s : S) {r : Outcome A}
    → Post P r
    → ((a : A) → P a → Runs Q (f a))
    → Post Q (continue r f s).0
continue-Post f s (returns {a} h) k = k a h s
continue-Post f s (throws e) k = throws e

pub >>=-Runs {ℓ κ μ ν ξ} :
    {S : Type ℓ} {A : Type κ} {B : Type μ} {P : A → Type ν} {Q : B → Type ξ} (m : Action S A)
    (f : A → Action S B)
    → Runs P m
    → ((a : A) → P a → Runs Q (f a))
    → Runs Q (m >>= f)
>>=-Runs m f h k s = continue-Post f (m s).1 (h s) k

pub weaken {ℓ κ μ} :
    {A : Type ℓ} {P : A → Type κ} {Q : A → Type μ} {r : Outcome A}
    → ((a : A) → P a → Q a)
    → Post P r
    → Post Q r
weaken g (returns {a} h) = returns (g a h)
weaken g (throws e) = throws e

-- A value that comes back has the property. Nothing is said of an error or of a panic.
pub data Yields {ℓ κ} {A : Type ℓ} (P : A → Type κ) : Outcome A → Type (ℓ ⊔ κ) where
  yields : {a : A} → P a → Yields P (ok a)
  fails : (e : Error) → Yields P (err e)
  stops : Yields P panic

pub and_then-Yields {ℓ κ μ ν} :
    {A : Type ℓ} {B : Type κ} {P : A → Type μ} {Q : B → Type ν} {r : Outcome A} {f : A → Outcome B}
    → Yields P r
    → ((a : A) → P a → Yields Q (f a))
    → Yields Q (and_then r f)
and_then-Yields (yields {a} h) k = k a h
and_then-Yields (fails e) k = fails e
and_then-Yields stops k = stops

pub continue-Yields {ℓ κ μ ν ξ} :
    {S : Type ℓ} {A : Type κ} {B : Type μ} {P : A → Type ν} {Q : B → Type ξ} (f : A → Action S B)
    (s : S) {r : Outcome A}
    → Yields P r
    → ((a : A) → P a → (s : S) → Yields Q (f a s).0)
    → Yields Q (continue r f s).0
continue-Yields f s (yields {a} h) k = k a h s
continue-Yields f s (fails e) k = fails e
continue-Yields f s stops k = stops

-- Whatever comes back is what comes back.
pub yields_itself {ℓ} : {A : Type ℓ} (r : Outcome A) → Yields (λ a. r ≡ ok a) r
yields_itself (ok a) = yields refl
yields_itself (err e) = fails e
yields_itself panic = stops

pub add-Yields {ℓ κ μ} :
    {A : Type ℓ} {P : A → Type κ} {Q : A → Type μ} {r : Outcome A}
    → Post P r
    → Yields Q r
    → Post (λ a. P a × Q a) r
add-Yields (returns h) (yields k) = returns (h, k)
add-Yields (throws e) k = throws e

pub weaken-Yields {ℓ κ μ} :
    {A : Type ℓ} {P : A → Type κ} {Q : A → Type μ} {r : Outcome A}
    → ((a : A) → P a → Q a)
    → Yields P r
    → Yields Q r
weaken-Yields g (yields {a} h) = yields (g a h)
weaken-Yields g (fails e) = fails e
weaken-Yields g stops = stops
