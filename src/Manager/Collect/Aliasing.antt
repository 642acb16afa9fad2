-- ===== src/Manager/Collect/Aliasing.antt =====
-- pkg/manager/manager.go: limits that are set in a copy show in no other list.
use composable_dra_driver.Base.{
  ℕ, ◌<◌, String, none, some, List, [], All, ok, err, panic, Outcome, continue, ◌≡◌, ◌≢◌, refl, sym,
  subst, ◌∙◌, arith, string_eq, inl, inr, Option-cases,
}
use composable_dra_driver.Base.Dict.{lookup, Distinct, All-of_lookup}
use composable_dra_driver.Base.Order.{Range, IsOrder, range-Distinct, lookup-range}
use composable_dra_driver.Manager.Types.{DeviceList}
use composable_dra_driver.Manager.Fetch.{Limit}
use composable_dra_driver.Manager.Collect.{deep_copy, set_limits}
use composable_dra_driver.Manager.Collect.Spread.{lookup-deep_copy}
use composable_dra_driver.Manager.Collect.Shared.{
  Store, Pointers, copy_pointers, deep_copy_pointers, equip,
}
use composable_dra_driver.Manager.Collect.Writing.{
  pointed, unpointed, fields, Mirrors, write_limits-Mirrors,
}
use composable_dra_driver.Manager.Collect.Copying.{
  Wanted, Points, Stands, IsOwn, SameBelow, IsOld, chosen, IsCopied, copy_pointers-IsCopied,
}

-- All devices of the list are in use.
abbrev pub AreUsed : Store → Pointers → Type 0
AreUsed s p = (k : String) (a : ℕ) → lookup k p ≡ some a → a < s.next

module _ {range : Range} (order : IsOrder range) (p : Pointers) (distinct : Distinct p) (s : Store)
    (used : AreUsed s p) (f : Wanted) (stands : Stands s p f) where
  entries : All (IsOld s.next s f) (range String ℕ p)
  entries =
      All-of_lookup (IsOld s.next s f) (range String ℕ p) (range-Distinct order p distinct) λ k a e.
        let here = sym (lookup-range order p distinct k) ∙ e in
        (used k a here, pointed s (lookup k p) (f k) a (stands k) here)

  all_chosen : (j : String) → chosen (range String ℕ p) f (λ k. none) j ≡ f j
  all_chosen j = elim (Option-cases (lookup j p)) [
    | inl absent ↦
        rw (lookup-range order p distinct j, absent)
          (sym (unpointed s (lookup j p) (f j) (stands j) absent))
    | inr (a, there) ↦ rw (lookup-range order p distinct j, there) refl
  ]

  nothing-Stands : Stands s [] (λ k. none)
  unfolding lookup
  nothing-Stands k = tt

  nothing-IsOwn : IsOwn s.next s []
  unfolding lookup
  nothing-IsOwn = record { apart = λ k j a e q. cc e; within = λ k a e. cc e }

  pub deep_copy_pointers-IsCopied : IsCopied s.next s f (deep_copy_pointers range p s)
  unfolding deep_copy_pointers
  deep_copy_pointers-IsCopied =
      let done =
        copy_pointers-IsCopied s.next f (range String ℕ p) [] s (λ k. none) entries nothing-Stands
          nothing-IsOwn (omega arith) in
      record {
        copy = done.copy;
        made = done.made;
        stands = λ j.
            subst (Points (copy_pointers (range String ℕ p) [] s).1 (lookup j done.copy))
              (all_chosen j) (done.stands j);
        own = done.own;
        same = done.same;
        grown = done.grown;
      }

-- What equipping a machine comes to, against the values that it should have.
abbrev pub Equips : Store → Outcome DeviceList → Outcome Pointers × Store → Type 0
Equips s (ok devices) out =
    (own : Pointers) × (out.0 ≡ ok own)
    × Stands out.1 own (fields devices)
    × SameBelow s.next s out.1
Equips s (err e) out = out.0 ≡ err e
Equips s panic out = out.0 ≡ panic

module _ {range : Range} (order : IsOrder range) (p : Pointers) (devices : DeviceList)
    (limits : List (String × Limit)) (s : Store) where
  own_is_new :
      (q : Pointers) (t : Store) (b : ℕ)
      → IsOwn s.next t q
      → b < s.next
      → (k : String) → lookup k q ≢ some b
  own_is_new q t b own low k e = absurd (ground (arith, (own.within k b e).0))

  Mirrors-Equips :
      (q : Pointers) (t : Store) (r : Outcome DeviceList) (out : Outcome (Unit {0}) × Store)
      → SameBelow s.next s t
      → IsOwn s.next t q
      → Mirrors t q r out
      → Equips s r (continue out.0 (λ u k. (ok q, k)) out.1)
  Mirrors-Equips q t (ok devices') out same own (well, stands, (next, kept)) =
      rw well (q, refl, stands, λ b low. kept b (own_is_new q t b own low) ∙ same b low)
  Mirrors-Equips q t (err e) out same own h = rw h refl
  Mirrors-Equips q t panic out same own h = rw h refl

  pub same_fields :
      (q : Pointers) (t : Store)
      → Distinct devices
      → Stands t q (fields devices)
      → Stands t q (fields (deep_copy range devices))
  same_fields q t distinct stands k =
      subst (Points t (lookup k q)) (sym (lookup-deep_copy order devices k distinct)) (stands k)

  -- A list of devices in use is copied and the limits are set through the pointers of the copy. That
  -- ends as it does with the devices as values: the copy has the devices with their limits, and every
  -- device that was in use before, such as those of the fabric's list and of other machines, is as it
  -- was.
  pub equip-Equips :
      Distinct p
      → Distinct devices
      → AreUsed s p
      → Stands s p (fields devices)
      → Equips s (set_limits limits (deep_copy range devices)) (equip range p limits s)
  unfolding equip
  equip-Equips dp dd used stands =
      let done = deep_copy_pointers-IsCopied order p dp s used (fields devices) stands in
      let t = (deep_copy_pointers range p s).1 in
      rw done.made (
        Mirrors-Equips done.copy t (set_limits limits (deep_copy range devices)) _ done.same
          done.own
          (write_limits-Mirrors s.next done.copy limits (deep_copy range devices) t done.own
            (same_fields done.copy t dd done.stands)))
