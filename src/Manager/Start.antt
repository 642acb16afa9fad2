-- ===== src/Manager/Start.antt =====
-- pkg/manager/manager.go: the start and the end of the manager.
pub mod Drivers
pub mod Cleaning
pub mod Owned
pub mod Scans
use composable_dra_driver.Base.{
  String, Bool, true, false, Option, none, some, List, [], ◌∷◌, ◌++◌, Outcome, ok, err, panic,
  Error, Action, pure, continue, ◌>>=◌, ◌>>◌, and_then, ◌==◌, string_eq, if◌then◌else◌,
}
use composable_dra_driver.Base.Dict.{Dict, lookup, insert, flag, contains}
use composable_dra_driver.Base.Order.{Range}
use composable_dra_driver.Config.Types.{DeviceInfo, Config}
use composable_dra_driver.Config.Checks.{Validation, Reading, get_device_infos, get_label_prefix}
use composable_dra_driver.KubeUtils.Objects.{ConfigMap}
use composable_dra_driver.Manager.Types.{DriverResources, Resources, Pool, Settings}
use composable_dra_driver.Manager.Slices.{Controller, Controllers}
use composable_dra_driver.KubeUtils.Discovery.{DiscoveryClient, is_dra_enabled}

-- What StartCDIManager reads of the ConfigMap, where there is one, and keeps for the scans.
unfoldable pub read_settings :
    Validation → Reading → Config → Outcome (Option ConfigMap) → Outcome Settings
read_settings v reading cfg (err e) = err e
read_settings v reading cfg panic = panic
read_settings v reading cfg (ok none) = ok (record {
  device_infos = [];
  label_prefix = "";
  options = record { use_capi_bmh = cfg.use_capi_bmh; use_cm = cfg.use_cm };
})
read_settings v reading cfg (ok (some cm)) = and_then (get_device_infos v reading cm) λ infos.
    and_then (get_label_prefix v cm) λ prefix. ok (record {
      device_infos = infos;
      label_prefix = prefix;
      options = record { use_capi_bmh = cfg.use_capi_bmh; use_cm = cfg.use_cm };
    })

unfoldable pub init_drivers : List DeviceInfo → Dict String Bool → Resources → Resources
init_drivers [] found result = result
init_drivers (info ∷ rest) found result =
    let skipped = init_drivers rest found result in
    let added =
      init_drivers rest (insert info.driver_name true found)
        (insert info.driver_name (record { pools = [] }) result) in
    if flag info.driver_name found then skipped else added

unfoldable pub init_driver_resources : List DeviceInfo → Resources
unfolding init_drivers
init_driver_resources infos = init_drivers infos [] []

-- resourceslice.StartController's answer, by the driver: nil, or an error.
abbrev pub Starter : Type 0
Starter = String → Option Error

unfoldable pub start_controllers :
    Starter → List (String × DriverResources) → Controllers → Outcome Controllers
start_controllers start [] controllers = ok controllers
start_controllers start ((driver, r) ∷ rest) controllers = elim (start driver) [
  | none ↦ start_controllers start rest (insert driver (record { driver = driver }) controllers)
  | some e ↦ err e
]

unfoldable pub start_resource_slice_controller :
    Range → DiscoveryClient → Starter → Resources → Outcome Controllers
unfolding start_controllers
start_resource_slice_controller range client start resources =
    and_then (is_dra_enabled client) λ enabled.
      if enabled
      then start_controllers start (range String DriverResources resources) []
      else err "not enabled feature gate of Dynamic Resource Allocation"

-- A published ResourceSlice, as the API server lists it.
pub record PublishedSlice : Type 0 where
  pub name : String
  pub pool : String

-- The calls that the cleanup makes, oldest first.
pub data Cleanup : Type 0 where
  stop : String → Cleanup
  delete : String → Cleanup

abbrev pub Cleanups : Type 0
Cleanups = List Cleanup

unfoldable pub stop_controllers : List (String × Controller) → Cleanups → Cleanups
stop_controllers [] calls = calls
stop_controllers ((driver, c) ∷ rest) calls = stop_controllers rest (calls ++ stop driver ∷ [])

-- Slices whose pool is not ours stay. A delete that fails is logged, and the loop goes on.
unfoldable pub delete_slices : Dict String Pool → List PublishedSlice → Cleanups → Cleanups
delete_slices pools [] calls = calls
delete_slices pools (s ∷ rest) calls =
    delete_slices pools rest (if contains s.pool pools then calls ++ delete s.name ∷ [] else calls)

-- The API server's list of the slices of a driver with no node, or an error.
abbrev pub Lister : Type 0
Lister = String → Outcome (List PublishedSlice)

abbrev delete_pools : Option DriverResources → List PublishedSlice → Action Cleanups (Unit {0})
delete_pools none slices calls = (panic, calls)
delete_pools (some r) slices calls = (ok tt, delete_slices r.pools slices calls)

abbrev delete_listed :
    Option DriverResources → Outcome (List PublishedSlice) → Action Cleanups (Unit {0})
delete_listed r (err e) calls = (ok tt, calls)
delete_listed r panic calls = (panic, calls)
delete_listed r (ok slices) calls = delete_pools r slices calls

unfoldable pub delete_drivers :
    Lister → Resources → List (String × Controller) → Action Cleanups (Unit {0})
unfolding delete_slices
delete_drivers list resources [] = pure tt
delete_drivers list resources ((driver, c) ∷ rest) = do
  delete_listed (lookup driver resources) (list driver)
  delete_drivers list resources rest

unfoldable pub cleanup_resource_slices :
    Range → Lister → Resources → Controllers → Action Cleanups (Unit {0})
unfolding stop_controllers delete_drivers
cleanup_resource_slices range list resources controllers calls =
    delete_drivers list resources (range String Controller controllers)
      (stop_controllers (range String Controller controllers) calls)
