-- ===== src/Manager/Pools.antt =====
-- pkg/manager/manager.go: generatePool and updatePool, which keep one pool of one driver.
pub mod Names
pub mod Shape
pub mod Contents
pub mod View
pub mod Update
use composable_dra_driver.Base.{
  ℕ, zero, suc, ◌+◌, ℤ, pos, pos_part, incr_int64, int_beq, String, Bool, true, false, Option, none,
  some, List, [], ◌∷◌, length, ok, panic, Action, string_eq, if◌then◌else◌,
}
use composable_dra_driver.Base.Dict.{Dict, lookup, insert}
use composable_dra_driver.Base.Order.{Range}
use composable_dra_driver.Base.Text.{◌⧺◌, itoa}
use composable_dra_driver.Manager.Types.{
  Device, ResourceDevice, Slice, Pool, DriverResources, Resources, Settings,
}

-- The zero value of resourceslice.Pool, which a missing key reads as.
abbrev pub zero_pool : Pool
zero_pool = record { node_selector = []; slices = []; generation = pos 0 }

abbrev pub pool_or_zero : Option Pool → Pool
pool_or_zero none = zero_pool
pool_or_zero (some p) = p

-- Go through the attributes and copy each into the device's own map.
unfoldable pub copy_attributes : Dict String String → Dict String String → Dict String String
copy_attributes [] done = done
copy_attributes ((key, value) ∷ rest) done = copy_attributes rest (insert key value done)

-- The name of the pool of a device on a fabric.
unfoldable pub pool_name : String → ℤ → String
pool_name k8s_device_name fabric_id = k8s_device_name ⧺ "-fabric" ⧺ itoa fabric_id

-- namedDriverResources[driver].Pools[name] = pool
unfoldable pub put_pool : String → String → Pool → DriverResources → Resources → Resources
put_pool driver name pool r resources =
    insert driver (record r { pools = insert name pool r.pools }) resources

module _ (range : Range) where
  unfoldable pub resource_device : Device → ℕ → ResourceDevice
  unfolding copy_attributes
  resource_device device i = record {
    name = device.k8s_device_name ⧺ "-" ⧺ itoa (pos i);
    attributes = copy_attributes (range String String device.dra_attributes) [];
    binds_to_node = true;
    binding_conditions = "FabricDeviceReady" ∷ [];
    binding_failure_conditions = "FabricDeviceReschedule" ∷ "FabricDeviceFailed" ∷ [];
  }

  -- The loop from `i`, with the rounds that are left.
  unfoldable pub resource_devices : Device → ℕ → ℕ → List ResourceDevice
  unfolding resource_device
  resource_devices device i zero = []
  resource_devices device i (suc rounds) =
      resource_device device i ∷ resource_devices device (i + 1) rounds

  -- A negative count gives no round.
  unfoldable pub generate_pool : Settings → Device → ℤ → ℤ → Pool
  unfolding resource_devices
  generate_pool m device fabric_id generation = record {
    node_selector =
        (record { key = m.label_prefix ⧺ "/" ⧺ device.k8s_device_name; values = "true" ∷ [] }
          ∷ record { key = m.label_prefix ⧺ "/" ⧺ "fabric"; values = itoa fabric_id ∷ [] }
          ∷ [])
        ∷ [];
    slices =
        record { devices = resource_devices device 0 (pos_part device.available_device_count) }
        ∷ [];
    generation = generation;
  }

  -- The branches of updatePool, by the slices of the pool that is there.
  unfoldable pub renew_pool :
      Settings → String → Device → ℤ → Pool → DriverResources → List Slice → Action Resources Bool
  unfolding generate_pool put_pool
  renew_pool m name device fabric_id pool r [] resources = (
    ok true,
    put_pool device.driver_name name (generate_pool m device fabric_id (pos 1)) r resources,
  )
  renew_pool m name device fabric_id pool r (slice ∷ _) resources =
      if int_beq (pos (length slice.devices)) device.available_device_count
      then (ok false, resources)
      else (
        ok true,
        put_pool device.driver_name name
            (generate_pool m device fabric_id (incr_int64 pool.generation)) r resources,
      )

  -- A driver with no entry is a nil pointer, and the read of its pools panics.
  unfoldable pub update_pool : Settings → String → Device → ℤ → Action Resources Bool
  unfolding renew_pool
  update_pool m name device fabric_id resources = elim (lookup device.driver_name resources) [
    | none ↦ (panic, resources)
    | some r ↦
        let pool = pool_or_zero (lookup name r.pools) in
        renew_pool m name device fabric_id pool r pool.slices resources
  ]
