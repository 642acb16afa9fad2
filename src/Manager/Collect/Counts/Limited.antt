-- ===== src/Manager/Collect/Counts/Limited.antt =====
-- pkg/manager/manager.go: the loops that copy the lists and set the bounds leave the counts.
use composable_dra_driver.Base.{
  ℤ, String, Bool, true, false, ok, panic, ◌||◌, if◌then◌else◌, Option, none, some, List, [], ◌∷◌,
  All, ◌≡◌, refl, sym, ◌∙◌, subst, ap, Yields, yields, stops, and_then-Yields, continue-Yields,
  yields_itself, Bool-cases, Option-cases, inl, inr, string_eq, int_eq, int_beq, int_beq_iff, ◌==◌,
}
use composable_dra_driver.Base.Dict.{is_some, lookup, insert, All-insert, All-lookup}
use composable_dra_driver.Base.Order.{Range, IsOrder, All-range}
use composable_dra_driver.Client.Types.{CdiApi}
use composable_dra_driver.Manager.Types.{Device, DeviceList, Machine}
use composable_dra_driver.Manager.Fetch.{Limit}
use composable_dra_driver.Manager.Collect.{
  Limits, deep_copy, copy_to_machine, copy_fabrics, set_limit, set_limits, limit_machine,
  limit_groups, get_all_limits, add_limits,
}
use composable_dra_driver.Manager.Collect.Counts.{
  Identity, identities, IsCounted, HasCounts, Keeps, copy_entries-IsCounted, each_machine-Keeps,
}

-- No device is made by a limit.
set_limit-none : (l : Limit) → Yields (λ d. d ≡ none) (set_limit l none)
unfolding set_limit
set_limit-none l = elim (Bool-cases (is_some l.min || is_some l.max)) [
  | inl bounded ↦ rw bounded stops
  | inr free ↦ rw free (yields refl)
]

copy_to_machine-on :
    (range : Range) (f g : ℤ) (devices : DeviceList) (machine : Machine)
    → machine.fabric_id ≡ some g
    → copy_to_machine range f devices machine ≡ (
        if int_beq g f
        then ok (record machine { device_list = deep_copy range devices })
        else ok machine)
unfolding copy_to_machine
copy_to_machine-on range f g devices machine e = simp (e, copy_to_machine)

copy_to_machine-off :
    (range : Range) (f : ℤ) (devices : DeviceList) (machine : Machine)
    → machine.fabric_id ≡ none
    → copy_to_machine range f devices machine ≡ panic
unfolding copy_to_machine
copy_to_machine-off range f devices machine e = simp (e, copy_to_machine)

module _ (count : String → String → ℤ) (ids : List Identity) where
  set_limits-IsCounted :
      (fabric : Option ℤ) (limits : List (String × Limit)) (devices : DeviceList)
      → All (IsCounted count ids fabric) devices
      → Yields (All (IsCounted count ids fabric)) (set_limits limits devices)
  unfolding set_limits set_limit
  set_limits-IsCounted fabric [] devices h = yields h
  set_limits-IsCounted fabric ((model, l) ∷ rest) devices h =
      elim (Option-cases (lookup model devices)) [
        | inl absent ↦ rw absent (
            and_then-Yields (set_limit-none l)
              λ d e. rw e (set_limits-IsCounted fabric rest devices h))
        | inr (d, e) ↦ rw e (
            set_limits-IsCounted fabric rest (insert model _ devices) (
              All-insert (IsCounted count ids fabric) model _ devices
                (All-lookup (IsCounted count ids fabric) model d devices e h) h))
      ]

  -- The machines are those that were given, with the counts that are reported.
  abbrev pub AreCounted : List Machine → Type 0
  AreCounted machines = All (HasCounts count ids) machines × (identities machines ≡ ids)

  module _ {range : Range} (order : IsOrder range) where
    copy_to_machine-Keeps :
        (f : ℤ) (devices : DeviceList) (machine : Machine)
        → All (IsCounted count ids (some f)) devices
        → HasCounts count ids machine
        → Yields (Keeps count ids machine) (copy_to_machine range f devices machine)
    unfolding deep_copy
    copy_to_machine-Keeps f devices machine h own = elim (Option-cases machine.fabric_id) [
      | inl absent ↦ rw (copy_to_machine-off range f devices machine absent) stops
      | inr (g, e) ↦ elim (Bool-cases (int_beq g f)) [
        | inl same ↦
            rw (copy_to_machine-on range f g devices machine e, same)
              (yields (
                subst (λ o. All (IsCounted count ids o) (deep_copy range devices))
                    (ap some (sym ((int_beq_iff g f).0 same)) ∙ sym e)
                    (copy_entries-IsCounted count ids (some f) (range String Device devices) []
                      (All-range order (IsCounted count ids (some f)) devices h) tt),
                refl,
              ))
        | inr other ↦
            rw (copy_to_machine-on range f g devices machine e, other) (yields (own, refl))
      ]
    ]

    pub copy_fabrics-AreCounted :
        (found : List (ℤ × DeviceList)) (machines : List Machine)
        → All (λ e. All (IsCounted count ids (some e.0)) e.1) found
        → AreCounted machines
        → Yields AreCounted (copy_fabrics range found machines)
    unfolding copy_fabrics
    copy_fabrics-AreCounted [] machines h k = yields k
    copy_fabrics-AreCounted ((f, devices) ∷ rest) machines h (k, same) =
        and_then-Yields
          (each_machine-Keeps count ids _ machines
            (λ machine. copy_to_machine-Keeps f devices machine h.0) k)
          λ machines' (k', same'). copy_fabrics-AreCounted rest machines' h.1 (k', same' ∙ same)

    limit_machine-Keeps :
        (group : String) (limits : Limits) (machine : Machine)
        → HasCounts count ids machine
        → Yields (Keeps count ids machine) (limit_machine range group limits machine)
    unfolding limit_machine
    limit_machine-Keeps group limits machine h =
        elim (Bool-cases (machine.node_group_uuid == group)) [
          | inl ours ↦ rw ours (
              and_then-Yields
                (set_limits-IsCounted machine.fabric_id (range String Limit limits)
                  machine.device_list h)
                λ devices h'. yields (h', refl))
          | inr other ↦ rw other (yields (h, refl))
        ]

    limit_groups-AreCounted :
        (groups : List (String × Limits)) (machines : List Machine)
        → AreCounted machines
        → Yields AreCounted (limit_groups range groups machines)
    unfolding limit_groups
    limit_groups-AreCounted [] machines k = yields k
    limit_groups-AreCounted ((group, limits) ∷ rest) machines (k, same) =
        and_then-Yields
          (each_machine-Keeps count ids _ machines (limit_machine-Keeps group limits) k)
          λ machines' (k', same'). limit_groups-AreCounted rest machines' (k', same' ∙ same)

    pub add_limits-AreCounted :
        {S : Type 0} (api : CdiApi S) (use_cm : Bool) (machines : List Machine)
        → AreCounted machines
        → (s : S) → Yields AreCounted (add_limits range api use_cm machines s).0
    unfolding add_limits
    add_limits-AreCounted api false machines k s = yields k
    add_limits-AreCounted api true machines k s =
        continue-Yields _ _ (yields_itself (get_all_limits range api machines [] s).0)
          λ found e s'. limit_groups-AreCounted (range String Limits found) machines k
