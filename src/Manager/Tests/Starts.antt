-- ===== src/Manager/Tests/Starts.antt =====
-- Runs of the start, the scans after it and the cleanup of pkg/manager/manager.go at concrete inputs.
use composable_dra_driver.Base.{
  pos, String, none, some, List, [], ◌∷◌, ◌++◌, ok, ◌≡◌, refl, arith, string_eq, int_eq,
  if◌then◌else◌,
}
use composable_dra_driver.Base.Dict.{lookup, insert, Distinct}
use composable_dra_driver.Base.Order.{in_order, in_order-IsOrder}
use composable_dra_driver.Manager.Types.{Machine, Resources}
use composable_dra_driver.Manager.Pools.{generate_pool}
use composable_dra_driver.Manager.Slices.{Publishing, Controllers, manage_slices}
use composable_dra_driver.Base.Order.{Range, IsOrder}
use composable_dra_driver.Manager.Slices.Runs.{latest, or_before, scanned, begun}
use composable_dra_driver.Config.Types.{DeviceInfo}
use composable_dra_driver.KubeUtils.Discovery.{DiscoveryClient, is_dra_enabled}
use composable_dra_driver.Manager.Start.{
  stop, delete, Starter, Lister, cleanup_resource_slices, init_driver_resources,
  start_resource_slice_controller,
}
use composable_dra_driver.Manager.Start.Drivers.{no_pools, has_driver, init_driver_resources_lem}
use composable_dra_driver.Manager.Start.Scans.{at_start, scans_after_start}
use composable_dra_driver.Manager.Start.Cleaning.{
  CanClean, stops, deletes, cleanup_resource_slices_lem,
}
use composable_dra_driver.Manager.Tests.{gpu, machines, settings, controllers}

abbrev info : String → DeviceInfo
info driver = record {
  index = pos 1;
  cdi_model_name = "A100";
  dra_attributes = ("productName", "A100") ∷ [];
  driver_name = driver;
  k8s_device_name = "nvidia-a100";
  cannot_coexist_with = [];
}

abbrev infos : List DeviceInfo
infos = info "gpu.nvidia.com" ∷ info "nic.acme.com" ∷ info "gpu.nvidia.com" ∷ []

-- An API server that has resource slices.
abbrev with_slices : DiscoveryClient
with_slices version = ok ("deviceclasses" ∷ "resourceslices" ∷ [])

abbrev all_start : Starter
all_start driver = none

two_started :
    start_resource_slice_controller in_order with_slices all_start (init_driver_resources infos)
    ≡ ok (
        ("gpu.nvidia.com", record { driver = "gpu.nvidia.com" })
        ∷ ("nic.acme.com", record { driver = "nic.acme.com" })
        ∷ [])
unfolding start_resource_slice_controller init_driver_resources is_dra_enabled insert lookup
two_started = refl

infos-Distinct : Distinct (init_driver_resources infos)
infos-Distinct = (init_driver_resources_lem infos).0

abbrev own_pool : Resources
own_pool =
    (
      "gpu.nvidia.com",
      record { pools = ("a100-fabric1", generate_pool in_order settings gpu (pos 1) (pos 1)) ∷ [] },
    )
    ∷ []

-- Two slices of the driver, one in a pool that another program made.
abbrev two_slices : Lister
two_slices driver =
    ok (
      record { name = "s1"; pool = "a100-fabric1" } ∷ record { name = "s2"; pool = "foreign" } ∷ [])

cleans : CanClean two_slices own_pool controllers
unfolding lookup
cleans = (
  (
    record { pools = ("a100-fabric1", generate_pool in_order settings gpu (pos 1) (pos 1)) ∷ [] },
    refl,
  ),
  (λ e. ground arith),
  tt,
)

cleanup_resource_slices_example :
    cleanup_resource_slices in_order two_slices own_pool controllers []
    ≡ (ok tt, stops controllers ++ deletes two_slices own_pool controllers)
cleanup_resource_slices_example =
    cleanup_resource_slices_lem in_order two_slices own_pool controllers [] cleans

-- The foreign slice stays.
one_deleted :
    cleanup_resource_slices in_order two_slices own_pool controllers []
    ≡ (ok tt, stop "gpu.nvidia.com" ∷ delete "s1" ∷ [])
unfolding cleanup_resource_slices lookup
one_deleted = refl

-- The controllers that `two_started` starts, and a scan with them.
abbrev two_controllers : Controllers
two_controllers =
    ("gpu.nvidia.com", record { driver = "gpu.nvidia.com" })
    ∷ ("nic.acme.com", record { driver = "nic.acme.com" })
    ∷ []

abbrev after_scan : Publishing
after_scan = (manage_slices in_order settings two_controllers machines (at_start infos)).1

scans_after_start_example :
    ((other : Range) (another : IsOrder other) (found : List Machine)
      → (manage_slices other settings two_controllers found after_scan).0 ≡ ok tt)
    × ((d : String)
        → lookup d after_scan.resources
          ≡ or_before
              (latest d after_scan.published)
              (if has_driver d infos then some no_pools else none))
scans_after_start_example =
    scans_after_start in_order-IsOrder with_slices all_start infos settings two_started
      (scanned in_order-IsOrder machines begun)
