-- ===== src/Base/Order.antt =====
-- The order in which `range` goes through a map. Go leaves it open, so the code's loops over maps
-- take it as an argument; what the language promises is that each entry comes once.
use mathlib.Core.Path.{◌≡◌, refl, sym, subst, ◌∙◌}
use mathlib.Core.Logic.{◌↔◌}
use mathlib.Core.List.{List, Permᴰ}
use mathlib.Core.List
use mathlib.Core.List.Permᴰ
use native.Mathlib.Omega.{arith}
use composable_dra_driver.Base.Equality.{Eq}
use composable_dra_driver.Base.Lists.{All}
use composable_dra_driver.Base.Dict.{Dict, lookup, Distinct}

abbrev pub Range : Type 1
Range = (K V : Type 0) → Dict K V → Dict K V

pub record IsOrder (range : Range) : Type 1 where
  pub once : (K V : Type 0) (m : Dict K V) → Permᴰ m (range K V m)

-- The order of the list that stands for the map.
abbrev pub in_order : Range
in_order K V m = m

module _ {ℓ κ} {K : Type ℓ} {V : Type κ} ⦃e : Eq K⦄ where
  -- Entries in another order make the same map.
  abbrev SameMap : Dict K V → Dict K V → Type (ℓ ⊔ κ)
  SameMap m n = Distinct n × ((k : K) → lookup k m ≡ lookup k n)

  perm-SameMap : {m n : Dict K V} → Permᴰ m n → Distinct m → SameMap m n
  unfolding lookup
  perm-SameMap Permᴰ.nil d = (tt, λ k. refl)
  perm-SameMap (Permᴰ.cons {a} {b} {l₁} {l₂} p r) d =
      let rest = perm-SameMap r d.1 in
      ((ground (arith, rest.1 a.0), rest.0), λ k. ground (arith, rest.1 k))
  perm-SameMap (Permᴰ.swap {a} {b} p q) d = (
    ground (arith, e.equals_iff a.0 b.0, e.equals_iff b.0 a.0),
    λ k. ground (arith, e.equals_iff a.0 k, e.equals_iff b.0 k, e.equals_iff b.0 a.0),
  )
  perm-SameMap (Permᴰ.trans p q) d =
      let first = perm-SameMap p d in
      let second = perm-SameMap q first.0 in (second.0, λ k. first.1 k ∙ second.1 k)

module _ {K V : Type 0} ⦃e : Eq K⦄ {range : Range} (order : IsOrder range) (m : Dict K V) where
  pub range-Distinct : Distinct m → Distinct (range K V m)
  range-Distinct d = (perm-SameMap (order.once K V m) d).0

  pub lookup-range : Distinct m → (k : K) → lookup k (range K V m) ≡ lookup k m
  lookup-range d k = sym ((perm-SameMap (order.once K V m) d).1 k)

-- What holds of every member holds of every member in another order.
pub All-perm : {A : Type 0} (P : A → Type 0) {xs ys : List A} → Permᴰ xs ys → All P xs ↔ All P ys
All-perm P Permᴰ.nil = (λ h. h, λ h. h)
All-perm P (Permᴰ.cons {a} {b} {l₁} {l₂} p r) =
    let (there, back) = All-perm P r in
    (λ h. (subst P p h.0, there h.1), λ h. (subst P (sym p) h.0, back h.1))
All-perm P (Permᴰ.swap p q) = (
  λ h. (subst P q h.1.0, (subst P p h.0, h.1.1)),
  λ h. (subst P (sym p) h.1.0, (subst P (sym q) h.0, h.1.1)),
)
All-perm P (Permᴰ.trans p q) =
    let (there, back) = All-perm P p in
    let (on, off) = All-perm P q in (λ h. on (there h), λ h. back (off h))

pub All-range :
    {K V : Type 0} {range : Range} (order : IsOrder range) (P : K × V → Type 0) (m : Dict K V)
    → All P m
    → All P (range K V m)
All-range {K} {V} order P m h = (All-perm P (order.once K V m)).0 h

pub in_order-IsOrder : IsOrder in_order
in_order-IsOrder = record { once = λ K V m. Permᴰ.refl m }

-- An order other than the list's, for tests: the last entry first.
abbrev pub backwards : Range
backwards K V m = List.reverse m

pub backwards-IsOrder : IsOrder backwards
backwards-IsOrder = record { once = λ K V m. Permᴰ.symm (Permᴰ.reverse m) }
