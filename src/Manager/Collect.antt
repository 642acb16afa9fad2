-- ===== src/Manager/Collect.antt =====
-- pkg/manager/manager.go: the reading part of startCheckResourcePoolLoop, which builds the machines
-- of a scan. A pointer is `Option`, and reading through nil is a panic.
pub mod Shared
pub mod Counts
pub mod Copying
pub mod Writing
pub mod Aliasing
pub mod Pointed
pub mod Housed
pub mod Stepping
pub mod Equipped
pub mod Loops
mod Tests
pub mod Devices
pub mod Spread
pub mod Fabrics
pub mod Limiting
pub mod Whole
use composable_dra_driver.Base.{
  ℤ, String, Bool, true, false, ◌||◌, Option, none, some, List, [], ◌∷◌, Outcome, ok, err, panic,
  Action, pure, fail, lift, ◌>>=◌, and_then, ◌==◌, int_beq, string_eq, int_eq, if◌then◌else◌,
}
use composable_dra_driver.Base.Dict.{Dict, lookup, insert, contains, is_some}
use composable_dra_driver.Base.Order.{Range}
use composable_dra_driver.Config.Types.{DeviceInfo}
use composable_dra_driver.Client.Types.{FmMachineList, CmNodeGroup, CmNodeGroupInfo, CdiApi}
use composable_dra_driver.Manager.Types.{Device, DeviceList, Machine, Settings}
use composable_dra_driver.Manager.Fetch.{
  Caches, Limit, or_else, get_machine_uuids, get_machine_list, get_available_nums, get_node_groups,
  get_node_group_info, get_min_max_nums, get_fabric_id,
}

-- slices.Contains
unfoldable pub has_item : String → List String → Bool
has_item x [] = false
has_item x (y ∷ ys) = y == x || has_item x ys

-- foundInNodeGroup[muuid]: the last group that has the machine, and "" where none has.
unfoldable pub node_group_of : String → List CmNodeGroupInfo → String → String
unfolding has_item
node_group_of muuid [] found = found
node_group_of muuid (info ∷ rest) found =
    node_group_of muuid rest (if has_item muuid info.machine_ids then info.uuid else found)

-- The machines with a fabric id. `infos` is empty where the cluster manager is not used.
unfoldable pub build_machines :
    FmMachineList → Bool → List CmNodeGroupInfo → List (String × String) → List Machine
unfolding node_group_of
build_machines list use_cm infos [] = []
build_machines list use_cm infos ((node_name, muuid) ∷ rest) =
    let others = build_machines list use_cm infos rest in
    elim (get_fabric_id list muuid) [
      | none ↦ others
      | some f ↦
          record {
            node_name = node_name;
            machine_uuid = muuid;
            fabric_id = some f;
            device_list = [];
            node_group_uuid = if use_cm then node_group_of muuid infos "" else "";
          }
          ∷ others
    ]

-- DeviceList.DeepCopy: a new map with a copy of each device.
unfoldable pub copy_entries : List (String × Device) → DeviceList → DeviceList
copy_entries [] out = out
copy_entries ((model, device) ∷ rest) out = copy_entries rest (insert model device out)

unfoldable pub deep_copy : Range → DeviceList → DeviceList
unfolding copy_entries
deep_copy range devices = copy_entries (range String Device devices) []

-- Copy the list of a fabric into one machine, if it is of the fabric.
unfoldable pub copy_to_machine : Range → ℤ → DeviceList → Machine → Outcome Machine
unfolding deep_copy
copy_to_machine range fabric_id devices machine = elim machine.fabric_id [
  | none ↦ panic
  | some f ↦
      if int_beq f fabric_id
      then ok (record machine { device_list = deep_copy range devices })
      else ok machine
]

-- A loop that may change each machine in its place.
unfoldable pub each_machine : (Machine → Outcome Machine) → List Machine → Outcome (List Machine)
each_machine f [] = ok []
each_machine f (machine ∷ rest) =
    and_then (f machine) λ machine'. and_then (each_machine f rest) λ rest'. ok (machine' ∷ rest')

unfoldable pub copy_fabrics : Range → List (ℤ × DeviceList) → List Machine → Outcome (List Machine)
unfolding copy_to_machine each_machine
copy_fabrics range [] machines = ok machines
copy_fabrics range ((f, devices) ∷ rest) machines =
    and_then (each_machine (copy_to_machine range f devices) machines)
      λ machines'. copy_fabrics range rest machines'

-- Limits are set through the pointer of a device: a model that the list lacks is a nil pointer.
unfoldable pub set_limit : Limit → Option Device → Outcome (Option Device)
set_limit l none = if is_some l.min || is_some l.max then panic else ok none
set_limit l (some d) = ok (
    some (record d {
      min_device_count = or_else l.min d.min_device_count;
      max_device_count = or_else l.max d.max_device_count;
    }))

abbrev pub put_back : String → Option Device → DeviceList → DeviceList
put_back model none devices = devices
put_back model (some d) devices = insert model d devices

unfoldable pub set_limits : List (String × Limit) → DeviceList → Outcome DeviceList
unfolding set_limit
set_limits [] devices = ok devices
set_limits ((model, l) ∷ rest) devices =
    and_then (set_limit l (lookup model devices)) λ d. set_limits rest (put_back model d devices)

abbrev pub Limits : Type 0
Limits = Dict String Limit

unfoldable pub limit_machine : Range → String → Limits → Machine → Outcome Machine
unfolding set_limits
limit_machine range group limits machine =
    if machine.node_group_uuid == group
    then (and_then (set_limits (range String Limit limits) machine.device_list)
        λ devices. ok (record machine { device_list = devices }))
    else ok machine

unfoldable pub limit_groups : Range → List (String × Limits) → List Machine → Outcome (List Machine)
unfolding limit_machine each_machine
limit_groups range [] machines = ok machines
limit_groups range ((group, limits) ∷ rest) machines =
    and_then (each_machine (limit_machine range group limits) machines)
      λ machines'. limit_groups range rest machines'

module _ {S : Type 0} (range : Range) (api : CdiApi S) where
  unfoldable pub get_group_infos : List CmNodeGroup → Action S (List CmNodeGroupInfo)
  get_group_infos [] = pure []
  get_group_infos (group ∷ rest) = do
    info ← get_node_group_info api group
    infos ← get_group_infos rest
    pure (info ∷ infos)

  unfoldable pub get_all_group_infos : Bool → Action S (List CmNodeGroupInfo)
  unfolding get_group_infos
  get_all_group_infos false = pure []
  get_all_group_infos true = do groups ← get_node_groups api; get_group_infos groups.node_groups

  -- The free devices of each model, asked for one machine.
  unfoldable pub get_devices : String → List DeviceInfo → DeviceList → Action S DeviceList
  get_devices muuid [] devices = pure devices
  get_devices muuid (info ∷ rest) devices = do
    n ← get_available_nums api muuid info.cdi_model_name
    get_devices muuid rest (
        insert info.cdi_model_name
          (record {
            k8s_device_name = info.k8s_device_name;
            driver_name = info.driver_name;
            dra_attributes = info.dra_attributes;
            available_device_count = n;
            min_device_count = none;
            max_device_count = none;
          })
          devices)

  -- One round of the loop over the machines: a fabric is asked for once.
  unfoldable pub get_fabric :
      List DeviceInfo → Machine → Option ℤ → Dict ℤ DeviceList → Action S (Dict ℤ DeviceList)
  unfolding get_devices
  get_fabric infos machine none found = lift panic
  get_fabric infos machine (some f) found =
      if contains f found
      then pure found
      else (do devices ← get_devices machine.machine_uuid infos []; pure (insert f devices found))

  unfoldable pub get_fabrics :
      List DeviceInfo → List Machine → Dict ℤ DeviceList → Action S (Dict ℤ DeviceList)
  unfolding get_fabric
  get_fabrics infos [] found = pure found
  get_fabrics infos (machine ∷ rest) found = do
    found' ← get_fabric infos machine machine.fabric_id found
    get_fabrics infos rest found'

  unfoldable pub get_limits : String → List (String × Device) → Limits → Action S Limits
  get_limits muuid [] limits = pure limits
  get_limits muuid ((model, device) ∷ rest) limits = do
    l ← get_min_max_nums api muuid model
    get_limits muuid rest (insert model l limits)

  unfoldable pub get_group_limits : Machine → Dict String Limits → Action S (Dict String Limits)
  unfolding get_limits
  get_group_limits machine found =
      if machine.node_group_uuid == "" || contains machine.node_group_uuid found
      then pure found
      else (do
        limits ← get_limits machine.machine_uuid (range String Device machine.device_list) []
        pure (insert machine.node_group_uuid limits found))

  unfoldable pub get_all_limits : List Machine → Dict String Limits → Action S (Dict String Limits)
  unfolding get_group_limits
  get_all_limits [] found = pure found
  get_all_limits (machine ∷ rest) found = do
    found' ← get_group_limits machine found
    get_all_limits rest found'

  unfoldable pub add_limits : Bool → List Machine → Action S (List Machine)
  unfolding get_all_limits limit_groups
  add_limits false machines = pure machines
  add_limits true machines = do
    found ← get_all_limits machines []
    lift (limit_groups range (range String Limits found) machines)

  -- From the machines with their fabrics to the machines with their devices.
  unfoldable pub add_devices : Settings → List Machine → Action S (List Machine)
  unfolding get_fabrics copy_fabrics add_limits
  add_devices m [] = fail "no machine is found to process"
  add_devices m (machine ∷ rest) = do
    found ← get_fabrics m.device_infos (machine ∷ rest) []
    machines ← lift (copy_fabrics range (range ℤ DeviceList found) (machine ∷ rest))
    add_limits m.options.use_cm machines

  abbrev some_uuids : Dict String String → Outcome (Dict String String)
  some_uuids [] = err "no machine uuid is found"
  some_uuids muuids = ok muuids

  unfoldable pub collect_machines : {U : Type 0} → Settings → Caches U → Action S (List Machine)
  unfolding get_all_group_infos build_machines add_devices
  collect_machines m caches = do
    muuids ← lift (and_then (get_machine_uuids m.options.use_capi_bmh caches) some_uuids)
    list ← get_machine_list api
    infos ← get_all_group_infos m.options.use_cm
    add_devices m (build_machines list m.options.use_cm infos (range String String muuids))
