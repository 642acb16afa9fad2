-- ===== src/Manager/Start/Drivers.antt =====
-- pkg/manager/manager.go: the drivers that initDriverResources sets up, and their controllers.
use composable_dra_driver.Base.{
  String, Bool, true, false, ◌||◌, ◌&&◌, not, none, some, List, [], ◌∷◌, ◌⊎◌, ok, and_then-ok,
  ok_inj, ◌≡◌, refl, ap, sym, ◌∙◌, arith, Bool-cases, Option-cases, inl, inr, ◌==◌, string_eq,
  if◌then◌else◌,
}
use composable_dra_driver.Base.Dict.{
  Dict, lookup, insert, flag, Distinct, insert-Distinct, lookup-insert,
}
use composable_dra_driver.Base.Order.{Range, IsOrder, lookup-range}
use composable_dra_driver.Config.Types.{DeviceInfo}
use composable_dra_driver.Manager.Types.{DriverResources, Resources}
use composable_dra_driver.Manager.Slices.{Controller, Controllers}
use composable_dra_driver.Manager.Slices.Rescan.{HasControllers}
use composable_dra_driver.KubeUtils.Discovery.{DiscoveryClient, is_dra_enabled}
use composable_dra_driver.Manager.Start.{
  init_drivers, init_driver_resources, Starter, start_controllers, start_resource_slice_controller,
}

abbrev pub no_pools : DriverResources
no_pools = record { pools = [] }

-- Some entry is of the driver.
abbrev pub has_driver : String → List DeviceInfo → Bool
has_driver driver [] = false
has_driver driver (info ∷ rest) = info.driver_name == driver || has_driver driver rest

init_drivers-lookup :
    (infos : List DeviceInfo) (found : Dict String Bool) (result : Resources) (driver : String)
    → lookup driver (init_drivers infos found result) ≡ (
        if has_driver driver infos && not (flag driver found)
        then some no_pools
        else lookup driver result)
unfolding init_drivers
init_drivers-lookup [] found result driver = refl
init_drivers-lookup (info ∷ rest) found result driver = ground (
  arith,
  init_drivers-lookup rest found result driver,
  init_drivers-lookup rest (insert info.driver_name true found)
      (insert info.driver_name no_pools result) driver,
  lookup-insert info.driver_name driver true found,
  lookup-insert info.driver_name driver no_pools result,
  string_eq.equals_iff info.driver_name driver,
)

init_drivers-Distinct :
    (infos : List DeviceInfo) (found : Dict String Bool) (result : Resources)
    → Distinct result
    → Distinct (init_drivers infos found result)
unfolding init_drivers
init_drivers-Distinct [] found result d = d
init_drivers-Distinct (info ∷ rest) found result d =
    elim (Bool-cases (flag info.driver_name found)) [
      | inl old ↦ rw old (init_drivers-Distinct rest found result d)
      | inr new ↦
          rw new
            (init_drivers-Distinct rest _ _ (insert-Distinct info.driver_name no_pools result d))
    ]

-- The drivers of the entries, each once and with no pool, are the drivers that are set up.
pub init_driver_resources_lem :
    (infos : List DeviceInfo)
    → Distinct (init_driver_resources infos)
      × ((driver : String)
          → lookup driver (init_driver_resources infos)
            ≡ (if has_driver driver infos then some no_pools else none))
unfolding init_driver_resources lookup
init_driver_resources_lem infos = (
  init_drivers-Distinct infos [] [] tt,
  λ driver. ground (arith, init_drivers-lookup infos [] [] driver),
)

-- A driver of an entry to come, or of a controller that is there.
abbrev Starts : List (String × DriverResources) → Controllers → String → Type 0
Starts entries controllers driver =
    ((r : DriverResources) × (lookup driver entries ≡ some r))
    ⊎ ((c : Controller) × (lookup driver controllers ≡ some c))

Starts-next :
    (d : String) (r : DriverResources) (rest : List (String × DriverResources))
    (controllers : Controllers) (driver : String)
    → Starts ((d, r) ∷ rest) controllers driver
    → Starts rest (insert d (record { driver = d }) controllers) driver
unfolding lookup
Starts-next d r rest controllers driver h = elim (Bool-cases (d == driver)) [
  | inl same ↦
      inr (
        record { driver = d },
        lookup-insert d driver (record { driver = d }) controllers ∙ rw same,
      )
  | inr other ↦
      let stays = lookup-insert d driver (record { driver = d }) controllers ∙ rw other in
      elim h [ inl (q, e) ↦ inl (q, rw other at e) | inr (c, e) ↦ inr (c, stays ∙ e) ]
]

start_controllers-lookup :
    (start : Starter) (entries : List (String × DriverResources))
    (controllers started : Controllers) (driver : String)
    → start_controllers start entries controllers ≡ ok started
    → Starts entries controllers driver
    → (c : Controller) × (lookup driver started ≡ some c)
unfolding start_controllers lookup
start_controllers-lookup start [] controllers started driver e (inl (r, p)) = cc
start_controllers-lookup start [] controllers started driver e (inr (c, p)) =
    (c, ap (lookup driver) (sym (ok_inj e)) ∙ p)
start_controllers-lookup start ((d, r) ∷ rest) controllers started driver e h =
    elim (Option-cases (start d)) [
      | inl well ↦
          start_controllers-lookup start rest (insert d (record { driver = d }) controllers) started
            driver (rw (well, start_controllers) at e) (Starts-next d r rest controllers driver h)
      | inr (failed, p) ↦ cc (rw (p, start_controllers) at e)
    ]

-- If the controllers could be started for distinct drivers, every driver has one.
pub start_resource_slice_controller-HasControllers :
    {range : Range} (order : IsOrder range) (client : DiscoveryClient) (start : Starter)
    (resources : Resources) (controllers : Controllers)
    → Distinct resources
    → start_resource_slice_controller range client start resources ≡ ok controllers
    → HasControllers controllers resources
unfolding start_resource_slice_controller
start_resource_slice_controller-HasControllers {range} order client start resources controllers d e
      driver r p =
    let (enabled, _, rest) = and_then-ok (is_dra_enabled client) _ e in
    elim (Bool-cases enabled) [
      | inl on ↦
          start_controllers-lookup start (range String DriverResources resources) [] controllers
            driver (rw on at rest) (inl (r, lookup-range order resources d driver ∙ p))
      | inr off ↦ cc (rw off at rest)
    ]
