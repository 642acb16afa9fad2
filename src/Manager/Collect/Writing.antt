-- ===== src/Manager/Collect/Writing.antt =====
-- pkg/manager/manager.go: limits that are set through pointers, against devices as values.
use composable_dra_driver.Base.{
  ℕ, String, ◌||◌, Option, none, some, List, [], ◌∷◌, ok, err, panic, Outcome, continue, ◌≡◌, ◌≢◌,
  refl, ap, sym, subst, ◌∙◌, arith, ◌==◌, string_eq, Bool-cases, inl, inr, Option-cases,
}
use composable_dra_driver.Base.Dict.{lookup, insert, is_some, lookup-insert}
use composable_dra_driver.Manager.Types.{Device, DeviceList}
use composable_dra_driver.Manager.Fetch.{Limit, or_else}
use composable_dra_driver.Manager.Collect.{set_limit, set_limits}
use composable_dra_driver.Manager.Collect.Shared.{
  Store, Pointers, put, write_limit, write_limits, store,
}
use composable_dra_driver.Manager.Collect.Copying.{
  Wanted, Points, Stands, IsOwn, Points-frame, put_self, put_ne, load-ok,
}

module _ (s : Store) where
  pub pointed :
      (o : Option ℕ) (v : Option Device) (a : ℕ)
      → Points s o v
      → o ≡ some a
      → (d : Device) × (v ≡ some d) × (s.cell a ≡ some d)
  pointed none v a h e = cc e
  pointed (some b) none a h e = absurd h
  pointed (some b) (some d) a h e = (d, refl, cc)

  pub unpointed : (o : Option ℕ) (v : Option Device) → Points s o v → o ≡ none → v ≡ none
  unpointed none none h e = refl
  unpointed none (some d) h e = absurd h
  unpointed (some b) v h e = cc e

abbrev pub fields : DeviceList → Wanted
fields devices k = lookup k devices

-- Nothing is new, and what has changed is a device of the list.
abbrev pub SameOutside : Pointers → Store → Store → Type 0
SameOutside p s t =
    (t.next ≡ s.next) × ((b : ℕ) → ((k : String) → lookup k p ≢ some b) → t.cell b ≡ s.cell b)

-- The writes mirror what the limits make of the devices as values: they end alike, the list has the
-- devices with their limits, and nothing else in the store has changed.
abbrev pub Mirrors : Store → Pointers → Outcome DeviceList → Outcome (Unit {0}) × Store → Type 0
Mirrors s p (ok devices) out =
    (out.0 ≡ ok tt) × Stands out.1 p (fields devices) × SameOutside p s out.1
Mirrors s p (err e) out = out.0 ≡ err e
Mirrors s p panic out = out.0 ≡ panic

module _ (n : ℕ) (p : Pointers) where
  abbrev with_limit : Limit → Device → Device
  with_limit l d = record d {
    min_device_count = or_else l.min d.min_device_count;
    max_device_count = or_else l.max d.max_device_count;
  }

  abbrev written : ℕ → Device → Store → Store
  written a d s = record s { cell = put a d s.cell }

  written-Stands :
      (k : String) (a : ℕ) (d : Device) (s : Store) (devices : DeviceList)
      → IsOwn n s p
      → lookup k p ≡ some a
      → Stands s p (fields devices)
      → Stands (written a d s) p (fields (insert k d devices))
  written-Stands k a d s devices own here stands j = elim (Bool-cases (k == j)) [
    | inl same ↦
        let there : lookup j p ≡ some a =
          ap (λ (i : String). lookup i p) (sym ((string_eq.equals_iff k j).0 same)) ∙ here in
        rw (lookup-insert k j d devices, same, there) (put_self a d s.cell)
    | inr other ↦
        rw (lookup-insert k j d devices, other)
          (Points-frame s (written a d s) (lookup j p) (lookup j devices)
            (λ b e. put_ne a b d s.cell (λ q.
              absurd
                (ground (arith, own.apart k j a here (e ∙ ap some q), string_eq.equals_iff k j))))
            (stands j))
  ]

  write_limits-cons :
      (k : String) (l : Limit) (rest : List (String × Limit)) (a : ℕ) (d : Device) (s : Store)
      → lookup k p ≡ some a
      → s.cell a ≡ some d
      → write_limits ((k, l) ∷ rest) p s ≡ write_limits rest p (written a (with_limit l d) s)
  unfolding write_limits write_limit
  write_limits-cons k l rest a d s here c = rw here (
      ap
        (λ (r : Outcome Device × Store).
          let out = continue r.0 (λ d. store a (with_limit l d)) r.1 in
          continue out.0 (λ u. write_limits rest p) out.1)
        (load-ok a d s c))

  Mirrors-after :
      (s t : Store) (r : Outcome DeviceList) (out : Outcome (Unit {0}) × Store)
      → SameOutside p s t
      → Mirrors t p r out
      → Mirrors s p r out
  Mirrors-after s t (ok devices) out (next, same) (well, stands, (next', kept)) =
      (well, stands, (next' ∙ next, λ b free. kept b free ∙ same b free))
  Mirrors-after s t (err e) out same h = h
  Mirrors-after s t panic out same h = h

  written-IsOwn : (a : ℕ) (d : Device) (s : Store) → IsOwn n s p → IsOwn n (written a d s) p
  written-IsOwn a d s own = record { apart = own.apart; within = own.within }

  pub write_limits-Mirrors :
      (ls : List (String × Limit)) (devices : DeviceList) (s : Store)
      → IsOwn n s p
      → Stands s p (fields devices)
      → Mirrors s p (set_limits ls devices) (write_limits ls p s)
  unfolding set_limits write_limits set_limit write_limit
  write_limits-Mirrors [] devices s own stands = (refl, stands, (refl, λ b free. refl))
  write_limits-Mirrors ((k, l) ∷ rest) devices s own stands = elim (Option-cases (lookup k p)) [
    | inl absent ↦
        let none_there = unpointed s (lookup k p) (lookup k devices) (stands k) absent in
        elim (Bool-cases (is_some l.min || is_some l.max)) [
          | inl set ↦ rw (absent, none_there, set) refl
          | inr unset ↦
              rw (absent, none_there, unset) (write_limits-Mirrors rest devices s own stands)
        ]
    | inr (a, here) ↦
        let (d, there, c) = pointed s (lookup k p) (lookup k devices) a (stands k) here in
        let t = written a (with_limit l d) s in
        let rest_done =
          write_limits-Mirrors rest (insert k (with_limit l d) devices) t
            (written-IsOwn a (with_limit l d) s own)
            (written-Stands k a (with_limit l d) s devices own here stands) in
        rw there (
          subst (Mirrors s p (set_limits rest (insert k (with_limit l d) devices)))
            (sym (write_limits-cons k l rest a d s here c))
            (Mirrors-after s t (set_limits rest (insert k (with_limit l d) devices)) _
              (
                refl,
                λ b free. put_ne a b (with_limit l d) s.cell (λ q. free k (here ∙ ap some (sym q))),
              )
              rest_done))
  ]
