-- ===== src/Manager/Pools/Update.antt =====
-- pkg/manager/manager.go: updatePool, for one pool and for the others.
use composable_dra_driver.Base.{
  ℕ, ℤ, pos, negsuc, pos_part, incr_int64, int_beq, int_beq_iff, String, Bool, true, false, Option,
  none, some, List, [], ◌∷◌, length, ◌≡◌, refl, ap, sym, ◌∙◌, ◌≢◌, ◌⊎◌, inl, inr, Outcome, ok,
  panic, Bool-cases, string_eq,
}
use composable_dra_driver.Base.Dict.{lookup, contains}
use composable_dra_driver.Base.Order.{Range}
use composable_dra_driver.Manager.Types.{Device, Slice, Pool, DriverResources, Resources, Settings}
use composable_dra_driver.Manager.Pools.{
  pool_or_zero, generate_pool, put_pool, renew_pool, update_pool,
}
use composable_dra_driver.Manager.Pools.Shape.{generate_pool-devices}
use composable_dra_driver.Manager.Pools.View.{
  size_of_slices, pool_view, view, refresh, refresh_negative, next_generation, view-put_pool_self,
  view-known, size_or, generation_or, found_pool, found_pool-put_pool_self, found_pool-put_pool_ne,
  contains-put_pool,
}

module _ (range : Range) (m : Settings) (name : String) (device : Device) (fabric_id : ℤ) where
  view_generated :
      (generation : ℤ)
      → pool_view (some (generate_pool range m device fabric_id generation))
        ≡ some (pos_part device.available_device_count, generation)
  unfolding generate_pool
  view_generated generation =
      ap (λ (n : ℕ). some (n, generation))
        (generate_pool-devices range m device fabric_id generation).1

  -- The result of `update_pool`, from what was advertised before.
  abbrev Refreshes : Resources → Outcome Bool × Resources → Type 0
  Refreshes resources out =
      let next = refresh device.available_device_count (view device.driver_name name resources) in
      (out.0 ≡ ok next.1) × (view device.driver_name name out.1 ≡ some next.0)

  abbrev pub fresh : ℤ → Pool
  fresh generation = generate_pool range m device fabric_id generation

  renew_pool-refines :
      (resources : Resources) (r : DriverResources) (p : Pool) (slices : List Slice)
      → lookup device.driver_name resources ≡ some r
      → view device.driver_name name resources ≡ size_of_slices p slices
      → Refreshes resources (renew_pool range m name device fabric_id p r slices resources)
  unfolding renew_pool
  renew_pool-refines resources r p [] known before = rw before (
    refl,
    view-put_pool_self device.driver_name name (fresh (pos 1)) r resources ∙ view_generated (pos 1),
  )
  renew_pool-refines resources r p (slice ∷ rest) known before =
      elim (Bool-cases (int_beq (pos (length slice.devices)) device.available_device_count)) [
        | inl same ↦ rw (before, same) (refl, before)
        | inr changed ↦
            let g = incr_int64 p.generation in
            rw (before, changed)
              (
                refl,
                view-put_pool_self device.driver_name name (fresh g) r resources ∙ view_generated g,
              )
      ]

  update_pool-Refreshes :
      (resources : Resources) (r : DriverResources)
      → lookup device.driver_name resources ≡ some r
      → Refreshes resources (update_pool range m name device fabric_id resources)
  unfolding update_pool
  update_pool-Refreshes resources r known =
      let p = pool_or_zero (lookup name r.pools) in
      rw (known, update_pool)
        (renew_pool-refines resources r p p.slices known
          (view-known device.driver_name name resources r known))

  -- For a driver that is known and a device whose count is negative, every update says that the pool
  -- changed, and leaves it with no device and a new generation.
  pub update_pool_negative :
      (k : ℕ) (resources : Resources) (r : DriverResources)
      → device.available_device_count ≡ negsuc k
      → lookup device.driver_name resources ≡ some r
      → let out = update_pool range m name device fabric_id resources in
        (out.0 ≡ ok true)
        × (view device.driver_name name out.1
            ≡ some (0, next_generation (view device.driver_name name resources)))
  update_pool_negative k resources r negative known =
      let (answer, seen) = update_pool-Refreshes resources r known in
      let spec =
        ap (λ c. refresh c (view device.driver_name name resources)) negative
        ∙ refresh_negative k (view device.driver_name name resources) in
      (answer ∙ ap (λ n. ok n.1) spec, seen ∙ ap (λ n. some n.0) spec)

  -- A driver with no entry is a nil pointer: the update panics, and nothing changes.
  pub update_pool_unknown :
      (resources : Resources)
      → lookup device.driver_name resources ≡ none
      → update_pool range m name device fabric_id resources ≡ (panic, resources)
  unfolding update_pool
  update_pool_unknown resources unknown = rw (unknown, update_pool) refl

  abbrev pub Outcomes : Resources → DriverResources → Outcome Bool × Resources → Type 0
  Outcomes resources r out =
      (out ≡ (ok false, resources))
      ⊎ ((g : ℤ) × (out ≡ (ok true, put_pool device.driver_name name (fresh g) r resources)))

  renew_pool_same :
      (resources : Resources) (r : DriverResources) (p : Pool) (slices : List Slice) (n : ℕ) (g : ℤ)
      → size_of_slices p slices ≡ some (n, g)
      → pos n ≡ device.available_device_count
      → renew_pool range m name device fabric_id p r slices resources ≡ (ok false, resources)
  unfolding renew_pool
  renew_pool_same resources r p [] n g seen same = cc
  renew_pool_same resources r p (slice ∷ rest) n g seen same = rw (
    ap (λ (o : Option (ℕ × ℤ)). pos (size_or n o)) seen ∙ same,
    (int_beq_iff _ device.available_device_count).1 refl,
  )

  -- A pool that advertises what is available is left alone.
  pub update_pool_same :
      (resources : Resources) (r : DriverResources) (n : ℕ) (g : ℤ)
      → lookup device.driver_name resources ≡ some r
      → view device.driver_name name resources ≡ some (n, g)
      → pos n ≡ device.available_device_count
      → update_pool range m name device fabric_id resources ≡ (ok false, resources)
  unfolding update_pool
  update_pool_same resources r n g known seen same =
      let p = pool_or_zero (lookup name r.pools) in
      rw (known, update_pool)
        (renew_pool_same resources r p p.slices n g
          (sym (view-known device.driver_name name resources r known) ∙ seen) same)

  renew_pool_cases :
      (resources : Resources) (r : DriverResources) (p : Pool) (slices : List Slice)
      → Outcomes resources r (renew_pool range m name device fabric_id p r slices resources)
  unfolding renew_pool
  renew_pool_cases resources r p [] = inr (pos 1, refl)
  renew_pool_cases resources r p (slice ∷ rest) =
      elim (Bool-cases (int_beq (pos (length slice.devices)) device.available_device_count)) [
        | inl same ↦ rw same (inl refl)
        | inr changed ↦ rw changed (inr (incr_int64 p.generation, refl))
      ]

  -- An update changes nothing, or puts one new pool and says so.
  pub update_pool_cases :
      (resources : Resources) (r : DriverResources)
      → lookup device.driver_name resources ≡ some r
      → Outcomes resources r (update_pool range m name device fabric_id resources)
  unfolding update_pool
  update_pool_cases resources r known =
      let p = pool_or_zero (lookup name r.pools) in
      rw (known, update_pool) (renew_pool_cases resources r p p.slices)

  -- The generation that is put is the one that is seen.
  generation_is :
      (resources : Resources) (r : DriverResources) (g : ℤ) {out : Outcome Bool × Resources}
      {next : ℕ × ℤ}
      → out ≡ (ok true, put_pool device.driver_name name (fresh g) r resources)
      → view device.driver_name name out.1 ≡ some next
      → g ≡ next.1
  generation_is resources r g {out} {next} new seen =
      let shown =
        sym (view_generated g)
        ∙ sym (view-put_pool_self device.driver_name name (fresh g) r resources)
        ∙ sym (ap (λ (o : Outcome Bool × Resources). view device.driver_name name o.1) new)
        ∙ seen in
      ap (λ (o : Option (ℕ × ℤ)). generation_or g o) shown

  -- For a driver that is known, `update_pool` does what the specification says to what the pool
  -- advertises, and reports whether it changed; where it did not, nothing changes at all, and where it
  -- did, the pool is the one that is generated for the device; every other pool is left as it was, and
  -- no driver comes or goes.
  pub update_pool-refines :
      (resources : Resources) (r : DriverResources)
      → lookup device.driver_name resources ≡ some r
      → let out = update_pool range m name device fabric_id resources in
        let next = refresh device.available_device_count (view device.driver_name name resources) in
        (out.0 ≡ ok next.1)
        × (view device.driver_name name out.1 ≡ some next.0)
        × ((out ≡ (ok false, resources))
            ⊎ ((out.0 ≡ ok true)
                × (found_pool device.driver_name name out.1 ≡ some (fresh next.0.1))))
        × ((d n : String)
            → (d ≢ device.driver_name) ⊎ (n ≢ name)
            → found_pool d n out.1 ≡ found_pool d n resources)
        × ((d : String) → contains d out.1 ≡ contains d resources)
  update_pool-refines resources r known =
      let out = update_pool range m name device fabric_id resources in
      let (answer, seen) = update_pool-Refreshes resources r known in
      elim (update_pool_cases resources r known) [
        | inl same ↦ (
          answer,
          seen,
          inl same,
          (λ d n h. ap (λ (o : Outcome Bool × Resources). found_pool d n o.1) same),
          λ d. ap (λ (o : Outcome Bool × Resources). contains d o.1) same,
        )
        | inr (g, new) ↦ (
          answer,
          seen,
          inr (
            ap (λ (o : Outcome Bool × Resources). o.0) new,
            ap (λ (o : Outcome Bool × Resources). found_pool device.driver_name name o.1) new
                ∙ found_pool-put_pool_self device.driver_name name (fresh g) r resources
                ∙ ap (λ h. some (fresh h)) (generation_is resources r g new seen),
          ),
          (λ d n h.
              ap (λ (o : Outcome Bool × Resources). found_pool d n o.1) new
              ∙ found_pool-put_pool_ne device.driver_name name (fresh g) r resources d n known h),
          λ d.
              ap (λ (o : Outcome Bool × Resources). contains d o.1) new
              ∙ contains-put_pool device.driver_name name (fresh g) r resources d known,
        )
      ]
