-- ===== src/Manager/Start/Scans.antt =====
-- pkg/manager/manager.go: the scans after a start, as StartCDIManager runs them.
use composable_dra_driver.Base.{
  String, ap, List, [], none, ok, ◌≡◌, refl, ◌∙◌, if◌then◌else◌, some, string_eq,
}
use composable_dra_driver.Base.Dict.{lookup}
use composable_dra_driver.Base.Order.{Range, IsOrder}
use composable_dra_driver.Config.Types.{DeviceInfo}
use composable_dra_driver.KubeUtils.Discovery.{DiscoveryClient}
use composable_dra_driver.Manager.Types.{Machine, Settings}
use composable_dra_driver.Manager.Slices.{Controllers, Publishing, manage_slices}
use composable_dra_driver.Manager.Slices.Runs.{Reached, latest, or_before, manage_slices-IsCurrent}
use composable_dra_driver.Manager.Start.{
  Starter, init_driver_resources, start_resource_slice_controller,
}
use composable_dra_driver.Manager.Start.Drivers.{
  has_driver, no_pools, init_driver_resources_lem, start_resource_slice_controller-HasControllers,
}

-- The manager before its first scan.
abbrev pub at_start : List DeviceInfo → Publishing
at_start infos = record { resources = init_driver_resources infos; published = [] }

-- If the controllers of the entries' drivers could be started, then in every state that the scans
-- reach, whatever they find, a scan publishes without error or panic, and a driver has what its
-- controller was told last: no pool if it was told nothing and is a driver of an entry, and
-- nothing at all if it is not.
pub scans_after_start :
    {range : Range} (order : IsOrder range) (client : DiscoveryClient) (start : Starter)
    (infos : List DeviceInfo) (m : Settings) {controllers : Controllers} {s : Publishing}
    → start_resource_slice_controller range client start (init_driver_resources infos)
      ≡ ok controllers
    → Reached m controllers (at_start infos) s
    → ((other : Range) (another : IsOrder other) (machines : List Machine)
        → (manage_slices other m controllers machines s).0 ≡ ok tt)
      × ((d : String)
          → lookup d s.resources
            ≡ or_before (latest d s.published) (if has_driver d infos then some no_pools else none))
scans_after_start order client start infos m {controllers} {s} started reached =
    let (distinct, found) = init_driver_resources_lem infos in
    let has =
      start_resource_slice_controller-HasControllers order client start
        (init_driver_resources infos) controllers distinct started in
    let (i, total) =
      manage_slices-IsCurrent m controllers (at_start infos) s distinct has refl reached in
    (total, λ d. i.current d ∙ ap (or_before (latest d s.published)) (found d))
