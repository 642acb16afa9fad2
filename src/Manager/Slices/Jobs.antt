-- ===== src/Manager/Slices/Jobs.antt =====
-- pkg/manager/manager.go: the pools that manageCDIResourceSlices brings up to date, as a list of
-- jobs: the devices of the first machine of each fabric.
use composable_dra_driver.Base.{
  ℤ, String, Bool, true, Option, none, some, List, [], ◌∷◌, ◌++◌, Action, ◌≡◌, refl, ap, sym, ◌∙◌,
  inl, inr, Bool-cases, bind_assoc, ◌>>=◌, string_eq, int_eq, if◌then◌else◌, pure,
}
use composable_dra_driver.Base.Dict.{Dict, insert, flag}
use composable_dra_driver.Base.Order.{Range}
use composable_dra_driver.Manager.Types.{Device, Machine, Resources, Settings}
use composable_dra_driver.Manager.Pools.{pool_name}
use composable_dra_driver.Manager.Slices.{
  Progress, mark, update_device, update_devices, update_fabric, update_machines,
}

pub record Job : Type 0 where
  pub device : Device
  pub fabric_id : ℤ

abbrev pub driver_of : Job → String
driver_of j = j.device.driver_name

abbrev pub pool_of : Job → String
pool_of j = pool_name j.device.k8s_device_name j.fabric_id

unfoldable pub device_jobs : ℤ → List (String × Device) → List Job
device_jobs fabric_id [] = []
device_jobs fabric_id ((model, device) ∷ rest) =
    record { device = device; fabric_id = fabric_id } ∷ device_jobs fabric_id rest

unfoldable pub found_after : Option ℤ → Dict ℤ Bool → Dict ℤ Bool
found_after none found = found
found_after (some f) found = if flag f found then found else insert f true found

unfoldable pub all_found : List Machine → Dict ℤ Bool → Dict ℤ Bool
unfolding found_after
all_found [] found = found
all_found (machine ∷ rest) found = all_found rest (found_after machine.fabric_id found)

module _ (range : Range) where
  unfoldable pub fabric_jobs : Option ℤ → Machine → Dict ℤ Bool → List Job
  fabric_jobs none machine found = []
  fabric_jobs (some f) machine found =
      if flag f found then [] else device_jobs f (range String Device machine.device_list)

  -- The jobs of the machines whose fabric is not found yet.
  unfoldable pub jobs : List Machine → Dict ℤ Bool → List Job
  unfolding fabric_jobs
  jobs [] found = []
  jobs (machine ∷ rest) found =
      fabric_jobs machine.fabric_id machine found ++ jobs rest (found_after machine.fabric_id found)

module _ (range : Range) (m : Settings) where
  -- The jobs one after the other, with the drivers to tell.
  unfoldable pub run_jobs : List Job → Dict String Bool → Action Resources (Dict String Bool)
  run_jobs [] need = pure need
  run_jobs (j ∷ js) need = do
    updated ← update_device range m j.fabric_id j.device
    run_jobs js (mark updated (driver_of j) need)

  update_devices-run_jobs :
      (f : ℤ) (entries : List (String × Device)) (need : Dict String Bool)
      → update_devices range m f entries need ≡ run_jobs (device_jobs f entries) need
  unfolding update_devices device_jobs run_jobs
  update_devices-run_jobs f [] need = refl
  update_devices-run_jobs f ((model, device) ∷ rest) need =
      ap
        (λ (k : Dict String Bool → Action Resources (Dict String Bool)).
          update_device range m f device >>= λ updated. k (mark updated device.driver_name need))
        (λ i need'. update_devices-run_jobs f rest need' i)

  run_jobs-append :
      (xs ys : List Job) (need : Dict String Bool)
      → run_jobs (xs ++ ys) need ≡ (run_jobs xs need >>= run_jobs ys)
  unfolding run_jobs
  run_jobs-append [] ys need = refl
  run_jobs-append (j ∷ js) ys need =
      ap
        (λ (k : Bool → Action Resources (Dict String Bool)).
          update_device range m j.fabric_id j.device >>= k)
        (λ i updated. run_jobs-append js ys (mark updated (driver_of j) need) i)
      ∙ sym (
          bind_assoc (update_device range m j.fabric_id j.device)
            (λ updated. run_jobs js (mark updated (driver_of j) need)) (run_jobs ys))

  update_fabric-run_jobs :
      (o : Option ℤ) (machine : Machine) (p : Progress)
      → update_fabric range m o machine p ≡ (
          run_jobs (fabric_jobs range o machine p.fabric_found) p.need_update >>= λ need.
          pure (record { need_update = need; fabric_found = found_after o p.fabric_found }))
  unfolding update_fabric fabric_jobs found_after run_jobs
  update_fabric-run_jobs none machine p = refl
  update_fabric-run_jobs (some f) machine p = elim (Bool-cases (flag f p.fabric_found)) [
    | inl old ↦ rw old refl
    | inr new ↦ rw (new, update_devices-run_jobs) refl
  ]

  pub update_machines-run_jobs :
      (machines : List Machine) (p : Progress)
      → update_machines range m machines p ≡ (
          run_jobs (jobs range machines p.fabric_found) p.need_update >>= λ need.
          pure (record { need_update = need; fabric_found = all_found machines p.fabric_found }))
  unfolding update_machines jobs all_found run_jobs
  update_machines-run_jobs [] p = refl
  update_machines-run_jobs (machine ∷ rest) p =
      let found = found_after machine.fabric_id p.fabric_found in
      let first =
        run_jobs (fabric_jobs range machine.fabric_id machine p.fabric_found) p.need_update in
      let finish : Dict String Bool → Action Resources Progress =
        λ need. pure (record { need_update = need; fabric_found = all_found rest found }) in
      rw (update_fabric-run_jobs, run_jobs-append)
        (bind_assoc first (λ need. pure (record { need_update = need; fabric_found = found }))
            (update_machines range m rest)
          ∙ ap (λ (k : Dict String Bool → Action Resources Progress). first >>= k)
              (λ i need.
                update_machines-run_jobs rest (record { need_update = need; fabric_found = found })
                  i)
          ∙ sym (bind_assoc first (run_jobs (jobs range rest found)) finish))
