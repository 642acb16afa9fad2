-- ===== src/Manager/Collect/Spread.antt =====
-- pkg/manager/manager.go: each fabric is asked for once, and its list goes to all its machines.
use composable_dra_driver.Base.{
  ℤ, String, true, false, Option, none, some, List, [], ◌∷◌, All, All-mono, Outcome, Post,
  and_then-Post, returns, ◌≡◌, refl, ◌∙◌, arith, string_eq, int_eq, int_beq, int_beq_iff,
  Bool-cases, ◌⊎◌, inl, inr,
}
use composable_dra_driver.Base.Dict.{
  Dict, lookup, insert, contains, Distinct, insert-Distinct, lookup-insert,
}
use composable_dra_driver.Base.Order.{Range, IsOrder, lookup-range, range-Distinct}
use composable_dra_driver.Config.Types.{DeviceInfo}
use composable_dra_driver.Manager.Types.{Device, DeviceList, Machine}
use composable_dra_driver.Manager.Collect.{
  copy_entries, deep_copy, copy_to_machine, each_machine, copy_fabrics,
}
use composable_dra_driver.Manager.Collect.Devices.{Lists}

-- The machine has a fabric id.
abbrev pub HasFabric : Machine → Type 0
HasFabric machine = (f : ℤ) × (machine.fabric_id ≡ some f)

pub each_machine-Post :
    (P Q : Machine → Type 0) (f : Machine → Outcome Machine) (machines : List Machine)
    → ((machine : Machine) → P machine → Post Q (f machine))
    → All P machines
    → Post (All Q) (each_machine f machines)
unfolding each_machine
each_machine-Post P Q f [] k h = returns tt
each_machine-Post P Q f (machine ∷ rest) k h =
    and_then-Post (k machine h.0)
      λ m q. and_then-Post (each_machine-Post P Q f rest k h.1) λ ms qs. returns (q, qs)

-- A copy of a list is the same map.
later_found : Option Device → Option Device → Option Device
later_found none before = before
later_found (some d) before = some d

lookup-copy_entries :
    (entries : List (String × Device)) (out : DeviceList) (model : String)
    → Distinct entries
    → lookup model (copy_entries entries out)
      ≡ later_found (lookup model entries) (lookup model out)
unfolding copy_entries lookup later_found
lookup-copy_entries [] out model d = refl
lookup-copy_entries ((k, device) ∷ rest) out model d = ground (
  arith,
  lookup-copy_entries rest (insert k device out) model d.1,
  lookup-insert k model device out,
  string_eq.equals_iff k model,
)

copy_entries-Distinct :
    (entries : List (String × Device)) (out : DeviceList)
    → Distinct out
    → Distinct (copy_entries entries out)
unfolding copy_entries
copy_entries-Distinct [] out d = d
copy_entries-Distinct ((k, device) ∷ rest) out d =
    copy_entries-Distinct rest (insert k device out) (insert-Distinct k device out d)

later_found-none : (o : Option Device) → later_found o none ≡ o
unfolding later_found
later_found-none none = refl
later_found-none (some d) = refl

contains_tail :
    (f g : ℤ) (devices : DeviceList) (rest : Dict ℤ DeviceList)
    → int_beq f g ≡ false
    → contains f ((g, devices) ∷ rest) ≡ true
    → contains f rest ≡ true
unfolding lookup
contains_tail f g devices rest other h = ground (arith, int_beq_iff f g, int_beq_iff g f)

module _ {range : Range} (order : IsOrder range) where
  -- The copy has, under every model, a device with the same fields.
  pub lookup-deep_copy :
      (devices : DeviceList) (model : String)
      → Distinct devices
      → lookup model (deep_copy range devices) ≡ lookup model devices
  unfolding deep_copy lookup
  lookup-deep_copy devices model d =
      lookup-copy_entries (range String Device devices) [] model (range-Distinct order devices d)
      ∙ later_found-none (lookup model (range String Device devices))
      ∙ lookup-range order devices d model

  deep_copy-Lists :
      (infos : List DeviceInfo) (devices : DeviceList)
      → Lists infos devices
      → Lists infos (deep_copy range devices)
  unfolding deep_copy
  deep_copy-Lists infos devices l = record {
    distinct = copy_entries-Distinct (range String Device devices) [] tt;
    shows = λ model. rw (lookup-deep_copy devices model l.distinct) (l.shows model);
  }

  module _ (infos : List DeviceInfo) where
    -- The machine has its list, or its fabric is still to come.
    abbrev pub Pending : List (ℤ × DeviceList) → Machine → Type 0
    Pending entries machine =
        (f : ℤ) × (machine.fabric_id ≡ some f)
        × (Lists infos machine.device_list ⊎ (contains f entries ≡ true))

    -- Every machine has a fabric and its own list.
    abbrev pub IsEquipped : Machine → Type 0
    IsEquipped machine = HasFabric machine × Lists infos machine.device_list

    copy_to_machine-Pending :
        (g : ℤ) (devices : DeviceList) (rest : List (ℤ × DeviceList)) (machine : Machine)
        → Lists infos devices
        → Pending ((g, devices) ∷ rest) machine
        → Post (Pending rest) (copy_to_machine range g devices machine)
    unfolding copy_to_machine lookup
    copy_to_machine-Pending g devices rest machine l (f, e, h) = elim (Bool-cases (int_beq f g)) [
      | inl same ↦
          rw (e, copy_to_machine, same) (returns (f, e, inl (deep_copy-Lists infos devices l)))
      | inr other ↦
          rw (e, copy_to_machine, other)
            (returns (
              f,
              e,
              elim h [ inl own ↦ inl own | inr c ↦ inr (contains_tail f g devices rest other c) ],
            ))
    ]

    pub copy_fabrics-IsEquipped :
        (entries : List (ℤ × DeviceList)) (machines : List Machine)
        → All (λ e. Lists infos e.1) entries
        → All (Pending entries) machines
        → Post (All IsEquipped) (copy_fabrics range entries machines)
    unfolding copy_fabrics lookup
    copy_fabrics-IsEquipped [] machines l h = returns (
        All-mono (Pending []) IsEquipped machines
          (λ machine (f, e, h). ((f, e), elim h [ inl own ↦ own | inr c ↦ cc c ])) h)
    copy_fabrics-IsEquipped ((g, devices) ∷ rest) machines l h =
        and_then-Post
          (each_machine-Post (Pending ((g, devices) ∷ rest)) (Pending rest) _ machines
            (λ machine. copy_to_machine-Pending g devices rest machine l.0) h)
          λ machines' h'. copy_fabrics-IsEquipped rest machines' l.1 h'
