-- ===== src/Manager/Collect/Whole.antt =====
-- pkg/manager/manager.go: the machines that a scan collects.
use composable_dra_driver.Base.{
  ℕ, pos, String, Bool, true, false, Option, none, some, List, [], ◌∷◌, All, Outcome, and_then,
  Runs, Post, continue-Post, returns, throws, ◌≡◌, refl, ap, sym, ◌∙◌, string_eq, int_eq,
  Option-cases, inl, inr,
}
use composable_dra_driver.Base.Dict.{Dict}
use composable_dra_driver.Base.Order.{Range, IsOrder}
use composable_dra_driver.Config.Types.{DeviceInfo}
use composable_dra_driver.Client.Types.{CdiApi, FmMachineList, CmNodeGroup, CmNodeGroupInfo}
use composable_dra_driver.Manager.Types.{Device, DeviceList, Machine, Settings}
use composable_dra_driver.Manager.Slices.Apart.{IsValidList}
use composable_dra_driver.Manager.Fetch.{Caches, get_fabric_id}
use composable_dra_driver.Manager.Fetch.Safe.{
  Any, IsAnswering, get_machine_list-Any, get_node_groups-Any, get_node_group_info-Any,
}
use composable_dra_driver.Manager.Fetch.Readable.{AreReadable, get_machine_uuids-Ends}
use composable_dra_driver.Manager.Collect.{
  build_machines, get_group_infos, get_all_group_infos, add_devices, some_uuids, collect_machines,
}
use composable_dra_driver.Manager.Collect.Devices.{info_of, Shows, Lists}
use composable_dra_driver.Manager.Collect.Spread.{HasFabric, IsEquipped}
use composable_dra_driver.Manager.Collect.Fabrics.{get_fabrics-AreLists, copy_found-IsEquipped}
use composable_dra_driver.Manager.Collect.Limiting.{add_limits-IsEquipped}

-- No two models have the same device name, as the check of the ConfigMap demands.
abbrev pub HasUniqueNames : List DeviceInfo → Type 0
HasUniqueNames infos =
    (k j : String) (a b : DeviceInfo)
    → info_of k infos ≡ some a
    → info_of j infos ≡ some b
    → a.k8s_device_name ≡ b.k8s_device_name
    → k ≡ j

some_device_inj : {a b : Device} → some a ≡ some b → b ≡ a
some_device_inj h = cc

-- A device of a list, with its entry.
Shows-device :
    (o : Option DeviceInfo) (found : Option Device) (d : Device)
    → Shows o none found
    → found ≡ some d
    → (i : DeviceInfo) × (o ≡ some i)
      × (d.k8s_device_name ≡ i.k8s_device_name)
      × ((n : ℕ) × (pos n ≡ d.available_device_count))
Shows-device none found d h e = cc
Shows-device (some i) found d (d', p, made) e =
    let same = some_device_inj (sym p ∙ e) in
    let (n, q, le) = made.counted in
    (
      i,
      refl,
      ap (λ (x : Device). x.k8s_device_name) same ∙ made.named,
      (n, sym (ap (λ (x : Device). x.available_device_count) same ∙ q)),
    )

pub Lists-IsValidList :
    (infos : List DeviceInfo) (devices : DeviceList)
    → HasUniqueNames infos
    → Lists infos devices
    → IsValidList devices
Lists-IsValidList infos devices unique l = record {
  distinct = l.distinct;
  names = λ k j d e p q same.
      let (a, pa, na, ca) = Shows-device (info_of k infos) _ d (l.shows k) p in
      let (b, pb, nb, cb) = Shows-device (info_of j infos) _ e (l.shows j) q in
      unique k j a b pa pb (sym na ∙ same ∙ nb);
  counted = λ k d p. (Shows-device (info_of k infos) _ d (l.shows k) p).3;
}

pub build_machines-HasFabric :
    (list : FmMachineList) (use_cm : Bool) (infos : List CmNodeGroupInfo)
    (entries : List (String × String))
    → All HasFabric (build_machines list use_cm infos entries)
unfolding build_machines
build_machines-HasFabric list use_cm infos [] = tt
build_machines-HasFabric list use_cm infos ((node_name, muuid) ∷ rest) =
    elim (Option-cases (get_fabric_id list muuid)) [
      | inl absent ↦ rw (absent, build_machines) (build_machines-HasFabric list use_cm infos rest)
      | inr (f, e) ↦
          rw (e, build_machines) ((f, refl), build_machines-HasFabric list use_cm infos rest)
    ]

module _ {S : Type 0} {range : Range} (order : IsOrder range) (api : CdiApi S)
    (answering : IsAnswering api) (m : Settings) where
  some_uuids-Post :
      {r : Outcome (Dict String String)} → Post Any r → Post Any (and_then r (some_uuids range api))
  some_uuids-Post (returns {a = []} h) = throws _
  some_uuids-Post (returns {a = e ∷ rest} h) = returns tt
  some_uuids-Post (throws e) = throws e

  get_group_infos-Any : (groups : List CmNodeGroup) → Runs Any (get_group_infos range api groups)
  unfolding get_group_infos
  get_group_infos-Any [] s = returns tt
  get_group_infos-Any (group ∷ rest) s =
      continue-Post _ _ (get_node_group_info-Any api answering group s)
        λ info h s'. continue-Post _ _ (get_group_infos-Any rest s') λ infos k s''. returns tt

  get_all_group_infos-Any : (use_cm : Bool) → Runs Any (get_all_group_infos range api use_cm)
  unfolding get_all_group_infos
  get_all_group_infos-Any false s = returns tt
  get_all_group_infos-Any true s =
      continue-Post _ _ (get_node_groups-Any api answering s)
        λ groups h. get_group_infos-Any groups.node_groups

  add_devices-IsEquipped :
      (machines : List Machine)
      → All HasFabric machines
      → Runs (All (IsEquipped order m.device_infos)) (add_devices range api m machines)
  unfolding add_devices
  add_devices-IsEquipped [] h s = throws _
  add_devices-IsEquipped (machine ∷ rest) h s =
      continue-Post _ _
        (get_fabrics-AreLists range api answering m.device_infos (machine ∷ rest) []
          (record { distinct = tt; lists = tt }) h s)
        λ found (lists, grows, knows) s'.
          continue-Post _ _
            (copy_found-IsEquipped range api answering m.device_infos order (machine ∷ rest) found
              lists knows)
            λ machines equipped.
              add_limits-IsEquipped m.device_infos order api answering m.options.use_cm machines
                equipped

  -- The collection ends with an error or with machines, never with a panic; each machine has a fabric
  -- id and a device list that has, for each model of the entries, a device made from its last entry,
  -- and no others.
  pub collect_machines-IsEquipped :
      {U : Type 0} (caches : Caches U)
      → AreReadable m.options.use_capi_bmh caches
      → Runs (All (IsEquipped order m.device_infos)) (collect_machines range api m caches)
  unfolding collect_machines
  collect_machines-IsEquipped caches readable s =
      continue-Post _ _
        (some_uuids-Post (get_machine_uuids-Ends m.options.use_capi_bmh caches readable))
        λ muuids h s. continue-Post _ _ (get_machine_list-Any api answering s) λ list h s.
          continue-Post _ _ (get_all_group_infos-Any m.options.use_cm s) λ infos h.
            add_devices-IsEquipped _
              (build_machines-HasFabric list m.options.use_cm infos (range String String muuids))
