-- ===== src/Manager/Collect/Counts.antt =====
-- pkg/manager/manager.go: the numbers of free devices, from the answers for one machine of a fabric to
-- the lists of all its machines.

pub mod Limited
pub mod Asked
pub mod Collected
mod Tests
use composable_dra_driver.Base.{
  ℤ, String, Bool, false, Option, none, some, List, [], ◌∷◌, All, ◌≡◌, ◌==◌, refl, sym, ◌∙◌, subst,
  arith, string_eq, int_eq, if◌then◌else◌, Outcome, Yields, yields, and_then-Yields, Bool-cases,
  inl, inr,
}
use mathlib.Core.Option
use composable_dra_driver.Base.Dict.{Dict, lookup, insert, All-insert}
use composable_dra_driver.Manager.Types.{Device, DeviceList, Machine}
use composable_dra_driver.Manager.Collect.{copy_entries, each_machine}

-- The uuid and the fabric of a machine.
abbrev pub Identity : Type 0
Identity = String × Option ℤ

abbrev pub identity : Machine → Identity
identity machine = (machine.machine_uuid, machine.fabric_id)

abbrev pub identities : List Machine → List Identity
identities [] = []
identities (machine ∷ rest) = identity machine ∷ identities rest

abbrev pub is_on : ℤ → Option ℤ → Bool
is_on f none = false
is_on f (some g) = g == f

-- The machine that a fabric is asked for: the first that is on it.
abbrev pub asked_of : ℤ → List Identity → Option String
asked_of f [] = none
asked_of f ((uuid, fabric) ∷ rest) = if is_on f fabric then some uuid else asked_of f rest

-- What is reported of a model for the machines of a fabric.
abbrev pub reported : (String → String → ℤ) → List Identity → Option ℤ → String → Option ℤ
reported count ids none model = none
reported count ids (some f) model = Option.map (λ uuid. count uuid model) (asked_of f ids)

module _ (count : String → String → ℤ) (ids : List Identity) where
  abbrev pub IsCounted : Option ℤ → String × Device → Type 0
  IsCounted fabric e = reported count ids fabric e.0 ≡ some e.1.available_device_count

  -- Every device of the machine has the number that is reported for its fabric.
  abbrev pub HasCounts : Machine → Type 0
  HasCounts machine = All (IsCounted machine.fabric_id) machine.device_list

  pub copy_entries-IsCounted :
      (fabric : Option ℤ) (entries : List (String × Device)) (out : DeviceList)
      → All (IsCounted fabric) entries
      → All (IsCounted fabric) out
      → All (IsCounted fabric) (copy_entries entries out)
  unfolding copy_entries
  copy_entries-IsCounted fabric [] out h k = k
  copy_entries-IsCounted fabric ((model, device) ∷ rest) out h k =
      copy_entries-IsCounted fabric rest (insert model device out) h.1
        (All-insert (IsCounted fabric) model device out h.0 k)

  -- A step that keeps the machine it is given, and its counts.
  abbrev pub Keeps : Machine → Machine → Type 0
  Keeps before after = HasCounts after × (identity after ≡ identity before)

  pub each_machine-Keeps :
      (f : Machine → Outcome Machine) (machines : List Machine)
      → ((machine : Machine) → HasCounts machine → Yields (Keeps machine) (f machine))
      → All HasCounts machines
      → Yields
          (λ out. All HasCounts out × (identities out ≡ identities machines))
          (each_machine f machines)
  unfolding each_machine
  each_machine-Keeps f [] k h = yields (tt, refl)
  each_machine-Keeps f (machine ∷ rest) k h = and_then-Yields (k machine h.0) λ m (c, e).
      and_then-Yields (each_machine-Keeps f rest k h.1) λ ms (cs, es). yields ((c, cs), cc)
