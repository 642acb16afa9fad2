-- ===== src/Base/Dict.antt =====
-- Go maps: association lists whose keys are distinct. A map that is nil reads as an empty one.
use composable_dra_driver.Base.Tests.{if◌then◌else◌, Bool-cases}
use composable_dra_driver.Base.Equality.{Eq, ◌==◌, eq_refl}
use composable_dra_driver.Base.Lists.{All}
use mathlib.Core.Path.{◌≡◌, refl, subst, ◌∙◌}
use mathlib.Core.Logic.{◌≢◌, inl, inr}
use mathlib.Core.Bool.{Bool, true, false}
use mathlib.Core.Option.{Option, none, some}
use mathlib.Core.List.{List, [], ◌∷◌}
use native.Mathlib.Omega.{arith}

abbrev pub Dict {ℓ κ} : Type ℓ → Type κ → Type (ℓ ⊔ κ)
Dict K V = List (K × V)

abbrev pub is_some {ℓ} : {A : Type ℓ} → Option A → Bool
is_some none = false
is_some (some v) = true

module _ {ℓ κ} {K : Type ℓ} {V : Type κ} ⦃e : Eq K⦄ where
  -- The value, ok := m[wanted] of Go.
  unfoldable pub lookup : K → Dict K V → Option V
  lookup wanted [] = none
  lookup wanted ((key, value) ∷ rest) = if key == wanted then some value else lookup wanted rest

  -- m[key] = value: the entry stays where it is, and a new one comes last.
  unfoldable pub insert : K → V → Dict K V → Dict K V
  insert key value [] = (key, value) ∷ []
  insert key value ((here, old) ∷ rest) =
      let below = insert key value rest in
      if here == key then (key, value) ∷ rest else (here, old) ∷ below

  -- delete(m, gone)
  unfoldable pub remove : K → Dict K V → Dict K V
  remove gone [] = []
  remove gone ((key, value) ∷ rest) =
      let below = remove gone rest in if key == gone then below else (key, value) ∷ below

  -- _, exists := m[k]
  abbrev pub contains : K → Dict K V → Bool
  contains k m = is_some (lookup k m)

  -- A read after a write sees the write at its key, and the map as it was elsewhere.
  pub lookup-insert :
      (key wanted : K) (value : V) (m : Dict K V)
      → lookup wanted (insert key value m) ≡ (if key == wanted then some value else lookup wanted m)
  unfolding lookup insert
  lookup-insert key wanted value [] = refl
  lookup-insert key wanted value ((here, old) ∷ rest) = ground (
    arith,
    lookup-insert key wanted value rest,
    e.equals_iff here wanted,
    e.equals_iff here key,
    e.equals_iff key wanted,
  )

  pub lookup-insert_self :
      (key : K) (value : V) (m : Dict K V) → lookup key (insert key value m) ≡ some value
  lookup-insert_self key value m = lookup-insert key key value m ∙ rw (eq_refl key)

  pub lookup-insert_ne :
      (k j : K) (v : V) (m : Dict K V) → k ≢ j → lookup j (insert k v m) ≡ lookup j m
  lookup-insert_ne k j v m h = ground (arith, lookup-insert k j v m, e.equals_iff k j)

  -- The keys are distinct, as in every Go map.
  abbrev pub Distinct : Dict K V → Type (ℓ ⊔ κ)
  Distinct [] = Unit
  Distinct ((k, v) ∷ m) = (lookup k m ≡ none) × Distinct m

  pub lookup-head : (k : K) (v : V) (m : Dict K V) → lookup k ((k, v) ∷ m) ≡ some v
  unfolding lookup
  lookup-head k v m = rw (eq_refl k)

  pub lookup-tail :
      (k : K) (v : V) (m : Dict K V) (j : K) (w : V)
      → lookup k m ≡ none
      → lookup j m ≡ some w
      → lookup j ((k, v) ∷ m) ≡ some w
  unfolding lookup
  lookup-tail k v m j w d p = ground (arith, e.equals_iff k j)

  pub insert-Distinct : (k : K) (v : V) (m : Dict K V) → Distinct m → Distinct (insert k v m)
  unfolding lookup insert
  insert-Distinct k v [] d = (refl, tt)
  insert-Distinct k v ((j, w) ∷ m) d =
      ground (
        arith,
        e.equals_iff j k,
        e.equals_iff k j,
        insert-Distinct k v m d.1,
        lookup-insert k j v m,
      )

-- m[k] of a map of Booleans, where a missing key reads as false.
abbrev pub flag_of : Option Bool → Bool
flag_of none = false
flag_of (some b) = b

abbrev pub flag {ℓ} : {K : Type ℓ} ⦃e : Eq K⦄ → K → Dict K Bool → Bool
flag k m = flag_of (lookup k m)

module _ {ℓ κ μ} {K : Type ℓ} {V : Type κ} ⦃e : Eq K⦄ (P : K × V → Type μ) where
  -- What holds of each key with its value holds of every entry.
  pub All-of_lookup :
      (m : Dict K V) → Distinct m → ((k : K) (v : V) → lookup k m ≡ some v → P (k, v)) → All P m
  All-of_lookup [] d h = tt
  All-of_lookup ((k, v) ∷ m) d h = (
    h k v (lookup-head k v m),
    All-of_lookup m d.1 (λ j w p. h j w (lookup-tail k v m j w d.0 p)),
  )

-- A flag that is down after another is raised was down before, and is not the raised one.
pub flag-raise {ℓ} :
    {K : Type ℓ} ⦃e : Eq K⦄ (k d : K) (m : Dict K Bool)
    → flag d (insert k true m) ≡ false
    → (flag d m ≡ false) × (d ≢ k)
flag-raise ⦃e⦄ k d m h = ground (arith, lookup-insert k d true m, e.equals_iff k d)

pub flag-raise_self {ℓ} :
    {K : Type ℓ} ⦃e : Eq K⦄ (k : K) (m : Dict K Bool) → flag k (insert k true m) ≡ true
flag-raise_self k m = simp lookup-insert_self

module _ {ℓ κ μ} {K : Type ℓ} {V : Type κ} ⦃e : Eq K⦄ (P : K × V → Type μ) where
  pub All-insert : (k : K) (v : V) (m : Dict K V) → P (k, v) → All P m → All P (insert k v m)
  unfolding insert
  All-insert k v [] p h = (p, tt)
  All-insert k v ((j, w) ∷ m) p h = elim (Bool-cases (j == k)) [
    | inl same ↦ rw same (p, h.1)
    | inr other ↦ rw other (h.0, All-insert k v m p h.1)
  ]

entry_eq {ℓ κ} :
    {K : Type ℓ} {V : Type κ} {j k : K} {w v : V}
    → j ≡ k
    → some w ≡ some v
    → ◌≡◌ {A = K × V} (j, w) (k, v)
entry_eq a b = cc

module _ {ℓ κ μ} {K : Type ℓ} {V : Type κ} ⦃e : Eq K⦄ (P : K × V → Type μ) where
  -- What holds of every entry holds of what is found.
  pub All-lookup : (k : K) (v : V) (m : Dict K V) → lookup k m ≡ some v → All P m → P (k, v)
  unfolding lookup
  All-lookup k v [] h all = cc h
  All-lookup k v ((j, w) ∷ m) h all = elim (Bool-cases (j == k)) [
    | inl same ↦ subst P (entry_eq ((e.equals_iff j k).0 same) (rw same at h)) all.0
    | inr other ↦ All-lookup k v m (rw other at h) all.1
  ]
