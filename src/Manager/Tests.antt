-- ===== src/Manager/Tests.antt =====
-- Runs of pkg/manager/manager.go at concrete inputs, and the theorems about it at those inputs.
pub mod Starts
use composable_dra_driver.Base.{
  ℕ, pos, negsuc, String, true, false, none, some, List, [], ◌∷◌, ◌++◌, ok, ◌≡◌, refl, sym, ap, ◌∙◌,
  ◌⊎◌, ◌<◌, map, length, get_elem?, ◌≢◌, inl, inr, arith, string_eq, int_eq, All, if◌then◌else◌,
}
use composable_dra_driver.Base.Dict.{Dict, lookup, insert, contains, Distinct}
use composable_dra_driver.Base.Order.{in_order, in_order-IsOrder, backwards, backwards-IsOrder}
use composable_dra_driver.Base.Text.{itoa}
use composable_dra_driver.Manager.Types.{
  Device, ResourceDevice, DeviceList, Machine, Settings, Resources, DriverResources,
}
use composable_dra_driver.Manager.Pools.{
  update_pool, pool_name, generate_pool, resource_device, resource_devices,
}
use composable_dra_driver.Manager.Pools.Names.{pool_name_inj}
use composable_dra_driver.Manager.Pools.Contents.{IsDeviceOf, IsPoolOf, generate_pool-IsPoolOf}
use composable_dra_driver.Manager.Pools.View.{view, found_pool, refresh, next_generation}
use composable_dra_driver.Manager.Pools.Update.{update_pool-refines, update_pool_negative}
use composable_dra_driver.Manager.Slices.{Publishing, Published, Controllers, manage_slices}
use composable_dra_driver.Manager.Slices.Jobs.{jobs}
use composable_dra_driver.Manager.Slices.Settled.{Advertised}
use composable_dra_driver.Manager.Slices.Apart.{IsValidList}
use composable_dra_driver.Base.Order.{Range, IsOrder}
use composable_dra_driver.KubeUtils.Objects.{Node}
use composable_dra_driver.Manager.Labels.{label_node}
use composable_dra_driver.Manager.Labels.Desired.{after, wanted, label_node_lem}
use composable_dra_driver.Manager.Slices.Runs.{
  latest, or_before, IsCurrent, manage_slices-IsCurrent, scanned, begun,
}
use composable_dra_driver.Config.Types.{DeviceInfo}
use composable_dra_driver.KubeUtils.Discovery.{DiscoveryClient, is_dra_enabled}
use composable_dra_driver.Manager.Start.{
  stop, delete, Starter, Lister, cleanup_resource_slices, init_driver_resources,
  start_resource_slice_controller,
}
use composable_dra_driver.Manager.Start.Drivers.{
  no_pools, has_driver, init_driver_resources_lem, start_resource_slice_controller-HasControllers,
}
use composable_dra_driver.Manager.Start.Scans.{at_start, scans_after_start}
use composable_dra_driver.Manager.Start.Cleaning.{
  CanClean, stops, deletes, cleanup_resource_slices_lem,
}
use composable_dra_driver.Manager.Slices.Rescan.{
  HasControllers, manage_slices_rescan, manage_slices_advertises, manage_slices_reports,
}

abbrev pub gpu : Device
gpu = record {
  k8s_device_name = "nvidia-a100";
  driver_name = "gpu.nvidia.com";
  dra_attributes = ("productName", "A100") ∷ [];
  available_device_count = pos 2;
  min_device_count = none;
  max_device_count = none;
}

abbrev nic : Device
nic = record gpu { k8s_device_name = "acme-nic"; available_device_count = pos 1 }

abbrev devices : DeviceList
devices = ("A100", gpu) ∷ ("NIC", nic) ∷ []

abbrev pub machine : String → ℕ → Machine
machine name f = record {
  node_name = name;
  machine_uuid = name;
  fabric_id = some (pos f);
  device_list = devices;
  node_group_uuid = "";
}

abbrev pub machines : List Machine
machines = machine "a" 1 ∷ machine "b" 2 ∷ machine "c" 1 ∷ []

abbrev pub settings : Settings
settings = record {
  device_infos = [];
  label_prefix = "cohdi.com";
  options = record { use_capi_bmh = false; use_cm = true };
}

abbrev pub start : Publishing
start = record { resources = ("gpu.nvidia.com", record { pools = [] }) ∷ []; published = [] }

abbrev pub controllers : Controllers
controllers = ("gpu.nvidia.com", record { driver = "gpu.nvidia.com" }) ∷ []

start-Distinct : Distinct start.resources
unfolding lookup
start-Distinct = (refl, tt)

start-HasControllers : HasControllers controllers start.resources
unfolding lookup
start-HasControllers d r p = (record { driver = "gpu.nvidia.com" }, ground arith)

devices_cases :
    (k : String) (d : Device)
    → lookup k devices ≡ some d
    → ((k ≡ "A100") × (d ≡ gpu)) ⊎ ((k ≡ "NIC") × (d ≡ nic))
unfolding lookup
devices_cases k d p = ground (arith, string_eq.equals_iff "A100" k, string_eq.equals_iff "NIC" k)

names_differ : ◌≢◌ {A = String} "nvidia-a100" "acme-nic"
names_differ e = ground (arith, string_eq.equals_iff "nvidia-a100" "acme-nic")

devices-IsValidList : IsValidList devices
unfolding lookup
devices-IsValidList = record {
  distinct = (refl, (refl, tt));
  names = λ k j d e p q h. elim (devices_cases k d p) [
    | inl (a, b) ↦ elim (devices_cases j e q) [
      | inl (a', b') ↦ a ∙ sym a'
      | inr (a', b') ↦ absurd (
          names_differ (
            sym (ap (λ (x : Device). x.k8s_device_name) b)
            ∙ h
            ∙ ap (λ (x : Device). x.k8s_device_name) b'))
    ]
    | inr (a, b) ↦ elim (devices_cases j e q) [
      | inl (a', b') ↦ absurd (
          names_differ (
            sym (ap (λ (x : Device). x.k8s_device_name) b')
            ∙ sym h
            ∙ ap (λ (x : Device). x.k8s_device_name) b))
      | inr (a', b') ↦ a ∙ sym a'
    ]
  ];
  counted = λ k d p. elim (devices_cases k d p) [
    | inl (a, b) ↦ (2, sym (ap (λ (x : Device). x.available_device_count) b))
    | inr (a, b) ↦ (1, sym (ap (λ (x : Device). x.available_device_count) b))
  ];
}

machines-IsValidList : All (λ machine. IsValidList machine.device_list) machines
machines-IsValidList = (devices-IsValidList, (devices-IsValidList, (devices-IsValidList, tt)))

manage_slices_rescan_example :
    let s = (manage_slices in_order settings controllers machines start).1 in
    manage_slices backwards settings controllers machines s ≡ (ok tt, s)
manage_slices_rescan_example =
    manage_slices_rescan in_order-IsOrder backwards-IsOrder settings controllers machines start
      start-Distinct start-HasControllers machines-IsValidList

manage_slices_reports_example :
    let out = manage_slices in_order settings controllers machines start in
    (new : Published) × (out.1.published ≡ start.published ++ new)
    × Distinct new
    × ((d : String)
        → (lookup d new ≡ none → lookup d out.1.resources ≡ lookup d start.resources)
          × ((r : DriverResources) → lookup d new ≡ some r → lookup d out.1.resources ≡ some r))
manage_slices_reports_example =
    manage_slices_reports in_order-IsOrder settings controllers machines start start-Distinct
      start-HasControllers

no_pools_known : lookup "gpu.nvidia.com" start.resources ≡ some (record { pools = [] })
unfolding lookup
no_pools_known = refl

update_pool-refines_example :
    let out = update_pool in_order settings "p" gpu (pos 1) start.resources in
    let next = refresh (pos 2) (view "gpu.nvidia.com" "p" start.resources) in
    (out.0 ≡ ok next.1)
    × (view "gpu.nvidia.com" "p" out.1 ≡ some next.0)
    × ((out ≡ (ok false, start.resources))
        ⊎ ((out.0 ≡ ok true)
            × (found_pool "gpu.nvidia.com" "p" out.1
                ≡ some (generate_pool in_order settings gpu (pos 1) next.0.1))))
    × ((d n : String)
        → (d ≢ "gpu.nvidia.com") ⊎ (n ≢ "p")
        → found_pool d n out.1 ≡ found_pool d n start.resources)
    × ((d : String) → contains d out.1 ≡ contains d start.resources)
update_pool-refines_example =
    update_pool-refines in_order settings "p" gpu (pos 1) start.resources (record { pools = [] })
      no_pools_known

pool_name_inj_example : ◌≡◌ {A = String} "a" "a" × (pos 1 ≡ pos 1)
pool_name_inj_example = pool_name_inj "a" "a" (pos 1) (pos 1) refl

gpu-Distinct : Distinct gpu.dra_attributes
unfolding lookup
gpu-Distinct = (refl, tt)

generate_pool-IsPoolOf_example :
    let p = generate_pool in_order settings gpu (pos 7) (pos 1) in
    IsPoolOf settings.label_prefix gpu.k8s_device_name gpu.dra_attributes (pos 7) 2 p
    × (p.generation ≡ pos 1)
    × ((i j : ℕ) (d e : ResourceDevice)
        → IsDeviceOf gpu.k8s_device_name gpu.dra_attributes i d
        → IsDeviceOf gpu.k8s_device_name gpu.dra_attributes j e
        → d.name ≡ e.name
        → i ≡ j)
generate_pool-IsPoolOf_example =
    generate_pool-IsPoolOf in_order-IsOrder settings gpu (pos 7) (pos 1) gpu-Distinct

-- The second scan of three machines on two fabrics tells no controller, after the first told one.
scans_run :
    let first = manage_slices in_order settings controllers machines start in
    let second = manage_slices in_order settings controllers machines first.1 in
    (map (λ e. e.0) first.1.published ≡ "gpu.nvidia.com" ∷ [])
    × (map (λ e. e.0) second.1.published ≡ "gpu.nvidia.com" ∷ [])
    × (view "gpu.nvidia.com" (pool_name "acme-nic" (pos 2)) second.1.resources ≡ some (1, pos 1))
unfolding manage_slices update_pool pool_name lookup insert view itoa
scans_run = (refl, refl, refl)

abbrev first_scan : Publishing
first_scan = (manage_slices in_order settings controllers machines start).1

manage_slices-IsCurrent_example :
    IsCurrent controllers start first_scan
    × ((range : Range) (order : IsOrder range) (others : List Machine)
        → (manage_slices range settings controllers others first_scan).0 ≡ ok tt)
manage_slices-IsCurrent_example =
    manage_slices-IsCurrent settings controllers start first_scan start-Distinct
      start-HasControllers refl (scanned in_order-IsOrder machines begun)

abbrev node : Node
node = record { name = "a"; provider_id = "p"; labels = some (("zone", "z") ∷ []) }

label_node_lem_example :
    (d : Dict String String) × (label_node in_order settings (machine "a" 1) node
      ≡ ok (record node { labels = some d }))
    × ((key : String)
        → lookup key d
          ≡ after (wanted in_order settings (machine "a" 1)) key (lookup key (("zone", "z") ∷ [])))
label_node_lem_example =
    label_node_lem in_order settings (machine "a" 1) node (("zone", "z") ∷ []) refl

abbrev less_than_none : Device
less_than_none = record gpu { available_device_count = negsuc 0 }

update_pool_negative_example :
    let out = update_pool in_order settings "p" less_than_none (pos 1) start.resources in
    (out.0 ≡ ok true)
    × (view "gpu.nvidia.com" "p" out.1
        ≡ some (0, next_generation (view "gpu.nvidia.com" "p" start.resources)))
update_pool_negative_example =
    update_pool_negative in_order settings "p" less_than_none (pos 1) 0 start.resources
      (record { pools = [] }) refl no_pools_known
