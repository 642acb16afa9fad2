-- ===== src/Manager/Collect/Tests.antt =====
-- Runs of pkg/manager/manager.go over shared devices at concrete inputs.
use composable_dra_driver.Base.{
  pos, map, and_then, int_eq, String, none, some, List, [], ◌∷◌, ◌≡◌, ◌==◌, refl, arith, nat_beq,
  string_eq, Bool-cases, inl, inr, if◌then◌else◌,
}
use composable_dra_driver.Base.Dict.{lookup, insert, Distinct}
use composable_dra_driver.Base.Order.{in_order, in_order-IsOrder}
use composable_dra_driver.Manager.Types.{Device, DeviceList, Machine}
use composable_dra_driver.Manager.Fetch.{Limit}
use composable_dra_driver.Manager.Collect.{copy_fabrics, limit_groups}
use composable_dra_driver.Manager.Collect.Pointed.{
  Pointed, with_devices, equip_machines, copy_fabric_pointers, copy_to_pointed, each_pointed,
  limit_group_pointers, limit_pointed,
}
use composable_dra_driver.Manager.Collect.Housed.{Holds, AreHoused}
use composable_dra_driver.Manager.Collect.Equipped.{AreBacked}
use composable_dra_driver.Manager.Collect.Loops.{Ends, equip_machines-Ends}
use composable_dra_driver.Manager.Collect.Shared.{
  deep_copy_pointers, copy_pointers, write_limits, write_limit,
}
use composable_dra_driver.Manager.Collect.Shared.{Store, Pointers, equip}
use composable_dra_driver.Manager.Collect.Copying.{Stands}
use composable_dra_driver.Manager.Collect.Writing.{fields}
use composable_dra_driver.Manager.Collect.Aliasing.{AreUsed}

abbrev gpu : Device
gpu = record {
  k8s_device_name = "nvidia-a100";
  driver_name = "gpu.nvidia.com";
  dra_attributes = ("productName", "A100") ∷ [];
  available_device_count = pos 2;
  min_device_count = none;
  max_device_count = none;
}

abbrev devices : DeviceList
devices = ("A100", gpu) ∷ []

-- The fabric's list, with its device at address 0.
abbrev pointers : Pointers
pointers = ("A100", 0) ∷ []

abbrev one_device : Store
one_device = record { next = 1; cell = λ a. if nat_beq a 0 then some gpu else none }

abbrev limits : List (String × Limit)
limits = ("A100", record { min = some (pos 1); max = none }) ∷ []

pointers-Distinct : Distinct pointers
unfolding lookup
pointers-Distinct = (refl, tt)

devices-Distinct : Distinct devices
unfolding lookup
devices-Distinct = (refl, tt)

pointers-AreUsed : AreUsed one_device pointers
unfolding lookup
pointers-AreUsed k a e = ground arith

pointers-Stands : Stands one_device pointers (fields devices)
unfolding lookup
pointers-Stands k = elim (Bool-cases ("A100" == k)) [
  | inl same ↦ rw same refl
  | inr other ↦ rw other tt
]

-- The fabric's device has no limit afterwards, and the copy's has.
unlimited : (equip in_order pointers limits one_device).1.cell 0 ≡ some gpu
unfolding equip lookup insert
unlimited = refl

limited :
    (equip in_order pointers limits one_device).1.cell 1
    ≡ some (record gpu { min_device_count = some (pos 1) })
unfolding equip lookup insert
limited = refl

-- Two machines of the fabric, one in a node group.
abbrev fabric_machine : String → String → Pointed
fabric_machine name group = record {
  node_name = name;
  machine_uuid = name;
  fabric_id = some (pos 1);
  device_list = [];
  node_group_uuid = group;
}

abbrev two_machines : List Pointed
two_machines = fabric_machine "m1" "g1" ∷ fabric_machine "m2" "" ∷ []

abbrev without_devices : Pointed → Machine
without_devices machine = with_devices machine []

abbrev two_values : List Machine
two_values = map without_devices two_machines

nothing-Holds :
    (machine : Pointed)
    → machine.device_list ≡ []
    → Holds 1 one_device machine (without_devices machine)
unfolding lookup
nothing-Holds machine e = record {
  devices = [];
  equal = refl;
  stands = rw e (λ k. tt);
  own = rw e (record { apart = λ k j a p q. cc p; within = λ k a p. cc p });
}

two-AreHoused : AreHoused 1 one_device two_machines two_values
unfolding lookup
two-AreHoused = (
  nothing-Holds (fabric_machine "m1" "g1") refl,
  (λ a e r. cc e.1),
  (nothing-Holds (fabric_machine "m2" "") refl, (λ a e r. r), tt),
)

one-AreBacked : AreBacked 1 one_device ((pos 1, pointers) ∷ []) ((pos 1, devices) ∷ [])
one-AreBacked = (
  refl,
  pointers-Distinct,
  devices-Distinct,
  record { used = pointers-AreUsed; stands = pointers-Stands },
  tt,
)

equip_machines-Ends_example :
    Ends 1 one_device
      (and_then
        (copy_fabrics in_order ((pos 1, devices) ∷ []) two_values)
        (limit_groups in_order (("g1", limits) ∷ [])))
      (equip_machines in_order
        ((pos 1, pointers) ∷ [])
        (("g1", limits) ∷ [])
        two_machines
        one_device)
equip_machines-Ends_example =
    equip_machines-Ends 1 in_order-IsOrder ((pos 1, pointers) ∷ []) ((pos 1, devices) ∷ [])
      (("g1", limits) ∷ []) two_machines two_values one_device (omega arith) one-AreBacked
      two-AreHoused

-- Only the device of the machine in the group has a limit.
two_copies :
    let s =
      (equip_machines in_order
        ((pos 1, pointers) ∷ [])
        (("g1", limits) ∷ [])
        two_machines
        one_device).1 in
    (s.cell 0 ≡ some gpu)
    × (s.cell 1 ≡ some (record gpu { min_device_count = some (pos 1) }))
    × (s.cell 2 ≡ some gpu)
unfolding equip_machines copy_fabric_pointers copy_to_pointed each_pointed limit_group_pointers
    limit_pointed deep_copy_pointers copy_pointers write_limits write_limit lookup insert
two_copies = (refl, refl, refl)
