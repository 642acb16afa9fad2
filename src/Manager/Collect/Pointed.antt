-- ===== src/Manager/Collect/Pointed.antt =====
-- pkg/manager/manager.go: the machines with their lists of pointers, and the two loops of
-- startCheckResourcePoolLoop that copy the lists of the fabrics and set the limits of the groups.
use composable_dra_driver.Base.{
  ℤ, String, Option, none, some, List, [], ◌∷◌, panic, Action, pure, lift, ◌>>=◌, ◌>>◌, int_beq,
  ◌==◌, int_eq, string_eq, if◌then◌else◌,
}
use composable_dra_driver.Base.Order.{Range}
use composable_dra_driver.Manager.Types.{DeviceList, Machine}
use composable_dra_driver.Manager.Fetch.{Limit}
use composable_dra_driver.Manager.Collect.{Limits}
use composable_dra_driver.Manager.Collect.Shared.{Store, Pointers, deep_copy_pointers, write_limits}

-- A machine with the list that its deviceList is.
pub record Pointed : Type 0 where
  pub node_name : String
  pub machine_uuid : String
  pub fabric_id : Option ℤ
  pub device_list : Pointers
  pub node_group_uuid : String

-- The machine with the devices that its pointers lead to.
abbrev pub with_devices : Pointed → DeviceList → Machine
with_devices machine devices = record {
  node_name = machine.node_name;
  machine_uuid = machine.machine_uuid;
  fabric_id = machine.fabric_id;
  device_list = devices;
  node_group_uuid = machine.node_group_uuid;
}

unfoldable pub copy_to_pointed : Range → ℤ → Pointers → Pointed → Action Store Pointed
unfolding deep_copy_pointers
copy_to_pointed range fabric_id devices machine = elim machine.fabric_id [
  | none ↦ lift panic
  | some f ↦
      if int_beq f fabric_id
      then (do own ← deep_copy_pointers range devices; pure (record machine { device_list = own }))
      else pure machine
]

-- A loop over the machines.
unfoldable pub each_pointed :
    (Pointed → Action Store Pointed) → List Pointed → Action Store (List Pointed)
each_pointed f [] = pure []
each_pointed f (machine ∷ rest) = do
  machine' ← f machine
  rest' ← each_pointed f rest
  pure (machine' ∷ rest')

unfoldable pub copy_fabric_pointers :
    Range → List (ℤ × Pointers) → List Pointed → Action Store (List Pointed)
unfolding copy_to_pointed each_pointed
copy_fabric_pointers range [] machines = pure machines
copy_fabric_pointers range ((f, devices) ∷ rest) machines = do
  machines' ← each_pointed (copy_to_pointed range f devices) machines
  copy_fabric_pointers range rest machines'

unfoldable pub limit_pointed : Range → String → Limits → Pointed → Action Store Pointed
unfolding write_limits
limit_pointed range group limits machine =
    if machine.node_group_uuid == group
    then (do write_limits (range String Limit limits) machine.device_list; pure machine)
    else pure machine

unfoldable pub limit_group_pointers :
    Range → List (String × Limits) → List Pointed → Action Store (List Pointed)
unfolding limit_pointed each_pointed
limit_group_pointers range [] machines = pure machines
limit_group_pointers range ((group, limits) ∷ rest) machines = do
  machines' ← each_pointed (limit_pointed range group limits) machines
  limit_group_pointers range rest machines'

-- Both loops, as they come one after the other where the cluster manager is used.
unfoldable pub equip_machines :
    Range
    → List (ℤ × Pointers)
    → List (String × Limits)
    → List Pointed
    → Action Store (List Pointed)
unfolding copy_fabric_pointers limit_group_pointers
equip_machines range fabrics groups machines = do
  machines' ← copy_fabric_pointers range fabrics machines
  limit_group_pointers range groups machines'
