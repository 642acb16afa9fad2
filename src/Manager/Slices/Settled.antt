-- ===== src/Manager/Slices/Settled.antt =====
-- pkg/manager/manager.go: one job of manageCDIResourceSlices, and when it has nothing to do.
use composable_dra_driver.Base.{
  ℕ, ℤ, pos, String, Bool, true, false, some, ok, Outcome, ◌≡◌, refl, ap, ◌∙◌, ◌≢◌, ◌⊎◌, inl, inr,
  Bool-cases, Option-cases, string_eq, int_eq,
}
use composable_dra_driver.Base.Dict.{Dict, lookup, contains, Distinct}
use composable_dra_driver.Base.Order.{Range}
use composable_dra_driver.Manager.Types.{DriverResources, Resources, Settings}
use composable_dra_driver.Manager.Pools.{put_pool}
use composable_dra_driver.Manager.Pools.View.{
  view, view-put_pool_ne, refresh-size, contains-put_pool, lookup-put_pool_ne, put_pool-Distinct,
}
use composable_dra_driver.Manager.Pools.Update.{
  update_pool-refines, update_pool_same, update_pool_cases, fresh,
}
use composable_dra_driver.Manager.Slices.{update_device}
use composable_dra_driver.Manager.Slices.Jobs.{Job, driver_of, pool_of}

contains-some :
    {V : Type 0} (k : String) (s : Dict String V)
    → contains k s ≡ true
    → (v : V) × (lookup k s ≡ some v)
contains-some k s h = elim (Option-cases (lookup k s)) [ inl e ↦ cc | inr (v, e) ↦ (v, e) ]

-- The driver of the job is not managed, or its pool advertises as many devices as are available.
abbrev pub Advertised : Resources → Job → Type 0
Advertised s j =
    (contains (driver_of j) s ≡ false)
    ⊎ ((n : ℕ) × (g : ℤ) × (view (driver_of j) (pool_of j) s ≡ some (n, g))
        × (pos n ≡ j.device.available_device_count))

module _ (range : Range) (m : Settings) (j : Job) (s : Resources) where
  abbrev pub done : Outcome Bool × Resources
  done = update_device range m j.fabric_id j.device s

  -- The cases of one job: nothing changes, or one pool of its driver is new.
  pub update_device_cases :
      (done ≡ (ok false, s))
      ⊎ ((r : DriverResources) × (g : ℤ) × (lookup (driver_of j) s ≡ some r)
          × (done ≡ (
            ok true,
            put_pool
                (driver_of j)
                (pool_of j)
                (fresh range m (pool_of j) j.device j.fabric_id g)
                r
                s,
          )))
  unfolding update_device
  update_device_cases = elim (Bool-cases (contains (driver_of j) s)) [
    | inl known ↦
        let (r, e) = contains-some (driver_of j) s known in
        rw known (elim (update_pool_cases range m (pool_of j) j.device j.fabric_id s r e) [
          | inl same ↦ inl same
          | inr (g, new) ↦ inr (r, g, e, new)
        ])
    | inr unknown ↦ rw unknown (inl refl)
  ]

  -- A job that is advertised already changes nothing.
  pub update_device_idle : Advertised s j → done ≡ (ok false, s)
  unfolding update_device
  update_device_idle (inl unknown) = rw unknown refl
  update_device_idle (inr (n, g, seen, same)) = elim (Bool-cases (contains (driver_of j) s)) [
    | inl known ↦
        let (r, e) = contains-some (driver_of j) s known in
        rw known (update_pool_same range m (pool_of j) j.device j.fabric_id s r n g e seen same)
    | inr unknown ↦ rw unknown refl
  ]

  -- No driver comes or goes.
  pub update_device_keeps : (d : String) → contains d done.1 ≡ contains d s
  update_device_keeps d = elim update_device_cases [
    | inl same ↦ rw same refl
    | inr (r, g, known, new) ↦ rw new (contains-put_pool (driver_of j) (pool_of j) _ r s d known)
  ]

  pub update_device-Distinct : Distinct s → Distinct done.1
  update_device-Distinct h = elim update_device_cases [
    | inl same ↦ rw same h
    | inr (r, g, known, new) ↦ rw new (put_pool-Distinct (driver_of j) (pool_of j) _ r s h)
  ]

  -- A job ends without an error or a panic.
  pub update_device_total : (b : Bool) × (done ≡ (ok b, done.1))
  update_device_total = elim update_device_cases [
    | inl same ↦ (false, rw same refl)
    | inr (r, g, known, new) ↦ (true, rw new refl)
  ]

  -- A driver whose resources changed is the job's, and the job says so.
  pub update_device_reports :
      (d : String) → (done.0 ≡ ok false) ⊎ (d ≢ driver_of j) → lookup d done.1 ≡ lookup d s
  update_device_reports d (inl quiet) = elim update_device_cases [
    | inl same ↦ rw same refl
    | inr (r, g, known, new) ↦ cc (ap (λ (o : Outcome Bool × Resources). o.0) new)
  ]
  update_device_reports d (inr other) = elim update_device_cases [
    | inl same ↦ rw same refl
    | inr (r, g, known, new) ↦ rw new (lookup-put_pool_ne (driver_of j) (pool_of j) _ r s d other)
  ]

  -- After a job with a count that is not negative its pool advertises the count.
  pub update_device_settles :
      (n : ℕ) → pos n ≡ j.device.available_device_count → Advertised done.1 j
  unfolding update_device
  update_device_settles n e = elim (Bool-cases (contains (driver_of j) s)) [
    | inl known ↦
        let (r, found) = contains-some (driver_of j) s known in
        let all = update_pool-refines range m (pool_of j) j.device j.fabric_id s r found in
        rw known (
          inr (
            _,
            _,
            all.1,
            refresh-size j.device.available_device_count (view (driver_of j) (pool_of j) s) n e,
          ))
    | inr unknown ↦ rw unknown (inl unknown)
  ]

  -- A job leaves what it does not touch advertised.
  pub update_device_frame : (i : Job) → pool_of i ≢ pool_of j → Advertised s i → Advertised done.1 i
  update_device_frame i apart (inl unknown) = inl (update_device_keeps (driver_of i) ∙ unknown)
  update_device_frame i apart (inr (n, g, seen, same)) = elim update_device_cases [
    | inl idle ↦ rw idle (inr (n, g, seen, same))
    | inr (r, h, known, new) ↦ rw new (
        inr (
          n,
          g,
          view-put_pool_ne (driver_of j) (pool_of j) _ r s (driver_of i) (pool_of i) known
                (inr apart)
              ∙ seen,
          same,
        ))
  ]
