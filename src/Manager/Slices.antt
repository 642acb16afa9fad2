-- ===== src/Manager/Slices.antt =====
-- pkg/manager/manager.go: manageCDIResourceSlices. One machine of each fabric has its devices' pools
-- brought up to date; then each driver with an updated pool is handed to its controller.
pub mod Jobs
pub mod Settled
pub mod Scan
pub mod Apart
pub mod Rescan
pub mod Made
pub mod Publish
pub mod Reorder
pub mod Runs
use composable_dra_driver.Base.{
  ℕ, ℤ, String, Bool, true, false, Option, none, some, List, [], ◌∷◌, ◌++◌, ok, panic, Action, pure,
  continue, ◌>>=◌, ◌>>◌, string_eq, int_eq, if◌then◌else◌,
}
use composable_dra_driver.Base.Dict.{Dict, lookup, insert, contains, flag}
use composable_dra_driver.Base.Order.{Range}
use composable_dra_driver.Manager.Types.{Device, Machine, DriverResources, Resources, Settings}
use composable_dra_driver.Manager.Pools.{pool_name, update_pool}

-- A running resourceslice.Controller, of which the manager knows the driver.
pub record Controller : Type 0 where
  pub driver : String

abbrev pub Controllers : Type 0
Controllers = Dict String Controller

-- What the controllers were told, oldest first: Controller.Update copies what it is given.
abbrev pub Published : Type 0
Published = List (String × DriverResources)

pub record Publishing : Type 0 where
  pub resources : Resources
  pub published : Published

-- needUpdate and fabricFound.
pub record Progress : Type 0 where
  pub need_update : Dict String Bool
  pub fabric_found : Dict ℤ Bool

abbrev pub mark : Bool → String → Dict String Bool → Dict String Bool
mark true driver need = insert driver true need
mark false driver need = need

-- c.Update(driverResources), where a missing controller is a nil pointer.
unfoldable pub send : Option Controller → String → DriverResources → Action Published (Unit {0})
send none driver r published = (panic, published)
send (some c) driver r published = (ok tt, published ++ (driver, r) ∷ [])

unfoldable pub publish_driver :
    Dict String Bool → Controllers → String × DriverResources → Action Published (Unit {0})
unfolding send
publish_driver need controllers (driver, r) published =
    if flag driver need
    then send (lookup driver controllers) driver r published
    else (ok tt, published)

unfoldable pub publish :
    Dict String Bool → Controllers → List (String × DriverResources) → Action Published (Unit {0})
unfolding publish_driver
publish need controllers [] = pure tt
publish need controllers (entry ∷ rest) = do
  publish_driver need controllers entry
  publish need controllers rest

module _ (range : Range) (m : Settings) where
  -- A device whose driver has no entry is passed over.
  unfoldable pub update_device : ℤ → Device → Action Resources Bool
  update_device fabric_id device resources =
      if contains device.driver_name resources
      then update_pool range m (pool_name device.k8s_device_name fabric_id) device fabric_id
          resources
      else (ok false, resources)

  unfoldable pub update_devices :
      ℤ → List (String × Device) → Dict String Bool → Action Resources (Dict String Bool)
  unfolding update_device
  update_devices fabric_id [] need = pure need
  update_devices fabric_id ((model, device) ∷ rest) need = do
    updated ← update_device fabric_id device
    update_devices fabric_id rest (mark updated device.driver_name need)

  unfoldable pub update_fabric : Option ℤ → Machine → Progress → Action Resources Progress
  unfolding update_devices
  update_fabric none machine p = pure p
  update_fabric (some fabric_id) machine p = if flag fabric_id p.fabric_found then pure p else (do
    need ← update_devices fabric_id (range String Device machine.device_list) p.need_update
    pure (record { need_update = need; fabric_found = insert fabric_id true p.fabric_found }))

  unfoldable pub update_machines : List Machine → Progress → Action Resources Progress
  unfolding update_fabric
  update_machines [] p = pure p
  update_machines (machine ∷ rest) p = do
    p' ← update_fabric machine.fabric_id machine p
    update_machines rest p'

  unfoldable pub manage_slices : Controllers → List Machine → Action Publishing (Unit {0})
  unfolding update_machines publish
  manage_slices controllers machines s =
      let (r, resources) =
        update_machines machines (record { need_update = []; fabric_found = [] }) s.resources in
      continue r
        (λ p s'.
          let (r', published) =
            publish p.need_update controllers (range String DriverResources s'.resources)
              s'.published in
          (r', record s' { published = published }))
        (record s { resources = resources })
