-- ===== src/Base/Go.antt =====
-- Go's results: a value, an error, or a panic; and actions that carry a state past all three.
use Prim.Native.String.{String}
use mathlib.Core.Path.{◌≡◌, refl, ap, fun_ext, ◌∙◌}

-- An error is its message.
abbrev pub Error : Type 0
Error = String

pub data Outcome {ℓ} (A : Type ℓ) : Type ℓ where
  ok : A → Outcome A
  err : Error → Outcome A
  panic : Outcome A

abbrev pub Action {ℓ κ} : Type ℓ → Type κ → Type (ℓ ⊔ κ)
Action S A = S → Outcome A × S

abbrev pub pure {ℓ κ} : {S : Type ℓ} {A : Type κ} → A → Action S A
pure a s = (ok a, s)

abbrev pub fail {ℓ κ} : {S : Type ℓ} {A : Type κ} → Error → Action S A
fail e s = (err e, s)

abbrev pub crash {ℓ κ} : {S : Type ℓ} {A : Type κ} → Action S A
crash s = (panic, s)

abbrev pub lift {ℓ κ} : {S : Type ℓ} {A : Type κ} → Outcome A → Action S A
lift r s = (r, s)

module _ {ℓ κ μ} {S : Type ℓ} {A : Type κ} {B : Type μ} where
  abbrev pub continue : Outcome A → (A → Action S B) → Action S B
  continue (ok a) f s = f a s
  continue (err e) f s = (err e, s)
  continue panic f s = (panic, s)

  infixl 5 ◌>>=◌ ◌>>◌
  abbrev pub ◌>>=◌ : Action S A → (A → Action S B) → Action S B
  ◌>>=◌ m f s = let (r, s') = m s in continue r f s'

  abbrev pub ◌>>◌ : Action S A → Action S B → Action S B
  m >> n = m >>= λ _. n

module _ {ℓ κ μ ν} {S : Type ℓ} {A : Type κ} {B : Type μ} {C : Type ν} where
  continue_assoc :
      (f : A → Action S B) (g : B → Action S C) (r : Outcome A) (s : S)
      → (continue r f >>= g) s ≡ continue r (λ a. f a >>= g) s
  continue_assoc f g (ok a) s = refl
  continue_assoc f g (err e) s = refl
  continue_assoc f g panic s = refl

  pub bind_assoc :
      (m : Action S A) (f : A → Action S B) (g : B → Action S C)
      → (m >>= f >>= g) ≡ (m >>= λ a. f a >>= g)
  bind_assoc m f g = fun_ext λ s. let (r, s') = m s in continue_assoc f g r s'

abbrev pub value_or {ℓ} : {A : Type ℓ} → A → Outcome A → A
value_or a (ok b) = b
value_or a (err e) = a
value_or a panic = a

pub ok_inj {ℓ} : {A : Type ℓ} {a b : A} → ok a ≡ ok b → a ≡ b
ok_inj {a} h = ap (value_or a) h

-- The rest of a function after a call whose error is returned.
abbrev pub and_then {ℓ κ} : {A : Type ℓ} {B : Type κ} → Outcome A → (A → Outcome B) → Outcome B
and_then (ok a) f = f a
and_then (err e) f = err e
and_then panic f = panic

-- A function that ends with another one.
pub and_then_assoc {ℓ κ μ} :
    {A : Type ℓ} {B : Type κ} {C : Type μ} (r : Outcome A) (f : A → Outcome B) (g : B → Outcome C)
    → and_then r (λ a. and_then (f a) g) ≡ and_then (and_then r f) g
and_then_assoc (ok a) f g = refl
and_then_assoc (err e) f g = refl
and_then_assoc panic f g = refl

pub and_then-ok {ℓ κ} :
    {A : Type ℓ} {B : Type κ} (r : Outcome A) (f : A → Outcome B) {b : B}
    → and_then r f ≡ ok b
    → (a : A) × (r ≡ ok a) × (f a ≡ ok b)
and_then-ok (ok a) f h = (a, refl, h)
and_then-ok (err e) f h = cc
and_then-ok panic f h = cc

pub continue-ok {ℓ κ μ} :
    {S : Type ℓ} {A : Type κ} {B : Type μ} (r : Outcome A) (f : A → Action S B) (s : S) {b : B}
    → (continue r f s).0 ≡ ok b
    → (a : A) × (r ≡ ok a) × ((f a s).0 ≡ ok b)
continue-ok (ok a) f s h = (a, refl, h)
continue-ok (err e) f s h = cc
continue-ok panic f s h = cc

module _ {ℓ κ μ} {S : Type ℓ} {A : Type κ} {B : Type μ} where
  continue-ok_at :
      (r : Outcome A) (f : A → Action S B) (s : S) {b : B} {t : S}
      → continue r f s ≡ (ok b, t)
      → (a : A) × (r ≡ ok a) × (f a s ≡ (ok b, t))
  continue-ok_at (ok a) f s h = (a, refl, h)
  continue-ok_at (err e) f s h = cc (ap (λ (o : Outcome B × S). o.0) h)
  continue-ok_at panic f s h = cc (ap (λ (o : Outcome B × S). o.0) h)

  -- Where an action and what follows it succeed, both do.
  pub >>=-ok :
      (m : Action S A) (f : A → Action S B) (s : S) {b : B} {t : S}
      → (m >>= f) s ≡ (ok b, t)
      → (a : A) × ((m s).0 ≡ ok a) × (f a (m s).1 ≡ (ok b, t))
  >>=-ok m f s h = continue-ok_at (m s).0 f (m s).1 h

  continue-err :
      (r : Outcome A) (f : A → Action S B) (s : S) (e : Error)
      → r ≡ err e
      → continue r f s ≡ (err e, s)
  continue-err r f s e h = rw h refl

  pub >>=-err :
      (m : Action S A) (f : A → Action S B) (s : S) (e : Error)
      → (m s).0 ≡ err e
      → (m >>= f) s ≡ (err e, (m s).1)
  >>=-err m f s e h = continue-err (m s).0 f (m s).1 e h

-- An action leaves a part of the state as it is.
pub record Keeps {ℓ κ ν} {S : Type ℓ} {A : Type κ} {V : Type ν} (view : S → V) (m : Action S A)
    : Type (ℓ ⊔ ν) where
  pub kept : (s : S) → view (m s).1 ≡ view s

module _ {ℓ κ μ ν} {S : Type ℓ} {A : Type κ} {B : Type μ} {V : Type ν} (view : S → V) where
  continue-kept :
      (r : Outcome A) (f : A → Action S B)
      → ((a : A) → Keeps view (f a))
      → (s : S) → view (continue r f s).1 ≡ view s
  continue-kept (ok a) f k s = (k a).kept s
  continue-kept (err e) f k s = refl
  continue-kept panic f k s = refl

  pub >>=-Keeps :
      (m : Action S A) (f : A → Action S B)
      → Keeps view m
      → ((a : A) → Keeps view (f a))
      → Keeps view (m >>= f)
  >>=-Keeps m f h k = record { kept = λ s. continue-kept (m s).0 f k (m s).1 ∙ h.kept s }
