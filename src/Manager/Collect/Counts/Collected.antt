-- ===== src/Manager/Collect/Counts/Collected.antt =====
-- pkg/manager/manager.go: the counts of the machines that a scan collects.
use composable_dra_driver.Base.{
  ℤ, String, Bool, some, List, [], ◌∷◌, All, Runs, ◌≡◌, refl, sym, subst, Yields, fails,
  continue-Yields, yields_itself, add-Yields, weaken-Yields, Option-cases, inl, inr, string_eq,
  int_eq, and_then,
}
use composable_dra_driver.Base.Order.{Range, IsOrder, All-range}
use composable_dra_driver.Client.Types.{CdiApi, FmMachineList, CmNodeGroupInfo}
use composable_dra_driver.Manager.Types.{DeviceList, Machine, Settings}
use composable_dra_driver.Manager.Fetch.{Caches, get_machine_uuids, get_machine_list, get_fabric_id}
use composable_dra_driver.Manager.Fetch.Safe.{IsAnswering}
use composable_dra_driver.Manager.Fetch.Readable.{AreReadable}
use composable_dra_driver.Manager.Fetch.Reporting.{IsReporting}
use composable_dra_driver.Manager.Collect.{
  build_machines, get_all_group_infos, add_devices, some_uuids, collect_machines,
}
use composable_dra_driver.Manager.Collect.Spread.{HasFabric, IsEquipped}
use composable_dra_driver.Manager.Collect.Whole.{
  build_machines-HasFabric, collect_machines-IsEquipped,
}
use composable_dra_driver.Manager.Collect.Counts.{
  Identity, identities, asked_of, IsCounted, HasCounts,
}
use composable_dra_driver.Manager.Collect.Counts.Asked.{get_fabrics-AreAsked}
use composable_dra_driver.Manager.Collect.Counts.Limited.{
  AreCounted, copy_fabrics-AreCounted, add_limits-AreCounted,
}

-- Each machine has the counts that are reported for the first of the machines on its fabric.
abbrev pub AreReported : (String → String → ℤ) → List Machine → Type 0
AreReported count machines = All (HasCounts count (identities machines)) machines

AreCounted-AreReported :
    (count : String → String → ℤ) (ids : List Identity) (machines : List Machine)
    → AreCounted count ids machines
    → AreReported count machines
AreCounted-AreReported count ids machines (h, same) =
    subst (λ i. All (HasCounts count i) machines) (sym same) h

-- The machines are built without devices.
build_machines-HasCounts :
    (count : String → String → ℤ) (ids : List Identity) (list : FmMachineList) (use_cm : Bool)
    (infos : List CmNodeGroupInfo) (entries : List (String × String))
    → All (HasCounts count ids) (build_machines list use_cm infos entries)
unfolding build_machines
build_machines-HasCounts count ids list use_cm infos [] = tt
build_machines-HasCounts count ids list use_cm infos ((node_name, muuid) ∷ rest) =
    elim (Option-cases (get_fabric_id list muuid)) [
      | inl absent ↦
          rw (absent, build_machines) (build_machines-HasCounts count ids list use_cm infos rest)
      | inr (f, e) ↦
          rw (e, build_machines) (tt, build_machines-HasCounts count ids list use_cm infos rest)
    ]

module _ {S : Type 0} {range : Range} (order : IsOrder range) (api : CdiApi S)
    (count : String → String → ℤ) (reporting : IsReporting api count) (m : Settings) where
  add_devices-AreCounted :
      (ids : List Identity) (machines : List Machine)
      → AreCounted count ids machines
      → All HasFabric machines
      → (s : S) → Yields (AreCounted count ids) (add_devices range api m machines s).0
  unfolding add_devices
  add_devices-AreCounted ids [] k h s = fails _
  add_devices-AreCounted ids (machine ∷ rest) (k, same) h s =
      continue-Yields _ _
        (get_fabrics-AreAsked range api count reporting ids m.device_infos (machine ∷ rest) [] h
          (λ f c. subst (λ i. asked_of f i ≡ asked_of f (identities (machine ∷ rest))) same refl) tt
          s)
        λ found asked s'.
          continue-Yields _ _
            (copy_fabrics-AreCounted count ids order (range ℤ DeviceList found) (machine ∷ rest)
              (All-range order (λ e. All (IsCounted count ids (some e.0)) e.1) found asked)
              (k, same))
            λ machines counted.
              add_limits-AreCounted count ids order api m.options.use_cm machines counted

  collect_machines-AreCounted :
      {U : Type 0} (caches : Caches U) (s : S)
      → Yields (AreReported count) (collect_machines range api m caches s).0
  unfolding collect_machines
  collect_machines-AreCounted caches s =
      continue-Yields _ _
        (yields_itself
          (and_then (get_machine_uuids m.options.use_capi_bmh caches) (some_uuids range api)))
        λ muuids e s. continue-Yields _ _ (yields_itself (get_machine_list api s).0) λ list e s.
          continue-Yields _ _ (yields_itself (get_all_group_infos range api m.options.use_cm s).0)
            λ infos e s.
              let machines =
                build_machines list m.options.use_cm infos (range String String muuids) in
              weaken-Yields (AreCounted-AreReported count (identities machines)) (
                add_devices-AreCounted (identities machines) machines
                  (
                    build_machines-HasCounts count (identities machines) list m.options.use_cm infos
                        (range String String muuids),
                    refl,
                  )
                  (build_machines-HasFabric list m.options.use_cm infos
                    (range String String muuids))
                  s)

  -- Where the caches can be read, the CDI components answer and report for each machine and model one
  -- number of free devices, the collection ends with an error or with machines, never with a panic.
  -- Each machine has a fabric id and a device list that has, for each model of the entries, a device
  -- made from its last entry, and no others; the number of free devices of each device is the one that
  -- is reported for the first of the machines on the fabric.
  pub collect_machines-AreReported :
      {U : Type 0} (caches : Caches U)
      → IsAnswering api
      → AreReadable m.options.use_capi_bmh caches
      → Runs
          (λ machines. All (IsEquipped order m.device_infos) machines × AreReported count machines)
          (collect_machines range api m caches)
  collect_machines-AreReported caches answering readable s =
      add-Yields (collect_machines-IsEquipped order api answering m caches readable s)
        (collect_machines-AreCounted caches s)
