-- ===== src/Manager/Collect/Limiting.antt =====
-- pkg/manager/manager.go: the bounds of a node group's devices go to the machines of the group.
use composable_dra_driver.Base.{
  subst, String, Bool, true, false, ◌||◌, Option, none, some, List, [], ◌∷◌, All, Runs, Post,
  continue-Post, and_then-Post, returns, ◌≡◌, refl, sym, string_eq, ◌==◌, Bool-cases, inl, inr,
}
use composable_dra_driver.Base.Dict.{
  Dict, lookup, insert, contains, insert-Distinct, lookup-insert, lookup-insert_self, All-insert,
  All-of_lookup,
}
use composable_dra_driver.Base.Order.{Range, IsOrder, All-range}
use composable_dra_driver.Config.Types.{DeviceInfo}
use composable_dra_driver.Client.Types.{CdiApi}
use composable_dra_driver.Manager.Types.{Device, DeviceList, Machine}
use composable_dra_driver.Manager.Fetch.{Limit, or_else}
use composable_dra_driver.Manager.Fetch.Safe.{IsAnswering, get_min_max_nums-Any}
use composable_dra_driver.Manager.Collect.{
  Limits, set_limit, set_limits, limit_machine, limit_groups, get_limits, get_group_limits,
  get_all_limits, add_limits,
}
use composable_dra_driver.Manager.Collect.Devices.{info_of, Shows, IsMadeFrom, Lists}
use composable_dra_driver.Manager.Collect.Spread.{IsEquipped, each_machine-Post}

-- What is found under a model comes from an entry.
Shows-some :
    (o : Option DeviceInfo) (found : Option Device) (d : Device)
    → Shows o none found
    → found ≡ some d
    → (i : DeviceInfo) × (o ≡ some i)
Shows-some none found d h e = cc
Shows-some (some i) found d h e = (i, refl)

module _ (infos : List DeviceInfo) where
  -- The model has an entry.
  abbrev pub IsKnown : {A : Type 0} → String × A → Type 0
  IsKnown e = (i : DeviceInfo) × (info_of e.0 infos ≡ some i)

  -- A device keeps what it was made from when its bounds are set.
  Lists-set :
      (devices : DeviceList) (model : String) (i : DeviceInfo) (d : Device)
      → Lists infos devices
      → info_of model infos ≡ some i
      → IsMadeFrom i d
      → Lists infos (insert model d devices)
  Lists-set devices model i d l known made = record {
    distinct = insert-Distinct model d devices l.distinct;
    shows = λ other. elim (Bool-cases (model == other)) [
      | inl same ↦
          subst (λ o. Shows (info_of o infos) none (lookup o (insert model d devices)))
            ((string_eq.equals_iff model other).0 same)
            (subst (λ o. Shows o none (lookup model (insert model d devices))) (sym known)
              (d, lookup-insert_self model d devices, made))
      | inr apart ↦ rw (lookup-insert model other d devices, apart) (l.shows other)
    ];
  }

  set_limits-Lists :
      (limits : List (String × Limit)) (devices : DeviceList)
      → All IsKnown limits
      → Lists infos devices
      → Post (Lists infos) (set_limits limits devices)
  unfolding set_limits set_limit
  set_limits-Lists [] devices known l = returns l
  set_limits-Lists ((model, limit) ∷ rest) devices ((i, k), known) l =
      let (d, e, made) = subst (λ o. Shows o none (lookup model devices)) k (l.shows model) in
      rw e (
        set_limits-Lists rest
          (insert model
            (record d {
              min_device_count = or_else limit.min d.min_device_count;
              max_device_count = or_else limit.max d.max_device_count;
            })
            devices)
          known
          (Lists-set devices model i _ l k (record {
            named = made.named;
            driven = made.driven;
            attributed = made.attributed;
            counted = made.counted;
          })))

  module _ {range : Range} (order : IsOrder range) where
    limit_machine-IsEquipped :
        (group : String) (limits : Limits) (machine : Machine)
        → All IsKnown limits
        → IsEquipped order infos machine
        → Post (IsEquipped order infos) (limit_machine range group limits machine)
    unfolding limit_machine
    limit_machine-IsEquipped group limits machine known (f, l) =
        elim (Bool-cases (machine.node_group_uuid == group)) [
          | inl ours ↦ rw ours (
              and_then-Post
                (set_limits-Lists (range String Limit limits) machine.device_list
                  (All-range order IsKnown limits known) l)
                λ devices l'. returns (f, l'))
          | inr other ↦ rw other (returns (f, l))
        ]

    pub limit_groups-IsEquipped :
        (groups : List (String × Limits)) (machines : List Machine)
        → All (λ e. All IsKnown e.1) groups
        → All (IsEquipped order infos) machines
        → Post (All (IsEquipped order infos)) (limit_groups range groups machines)
    unfolding limit_groups
    limit_groups-IsEquipped [] machines known h = returns h
    limit_groups-IsEquipped ((group, limits) ∷ rest) machines known h =
        and_then-Post
          (each_machine-Post (IsEquipped order infos) (IsEquipped order infos) _ machines
            (λ machine. limit_machine-IsEquipped group limits machine known.0) h)
          λ machines' h'. limit_groups-IsEquipped rest machines' known.1 h'

    -- Every device of a list has an entry.
    Lists-IsKnown :
        (devices : DeviceList) → Lists infos devices → All IsKnown (range String Device devices)
    Lists-IsKnown devices l = All-range order IsKnown devices (
        All-of_lookup IsKnown devices l.distinct
          λ model d e. Shows-some (info_of model infos) _ d (l.shows model) e)

    module _ {S : Type 0} (api : CdiApi S) (answering : IsAnswering api) where
      get_limits-IsKnown :
          (muuid : String) (devices : List (String × Device)) (limits : Limits)
          → All IsKnown devices
          → All IsKnown limits
          → Runs (All IsKnown) (get_limits range api muuid devices limits)
      unfolding get_limits
      get_limits-IsKnown muuid [] limits known h s = returns h
      get_limits-IsKnown muuid ((model, device) ∷ rest) limits known h s =
          continue-Post _ _ (get_min_max_nums-Any api answering muuid model s) λ l any.
            get_limits-IsKnown muuid rest (insert model l limits) known.1
              (All-insert IsKnown model l limits known.0 h)

      get_group_limits-IsKnown :
          (machine : Machine) (found : Dict String Limits)
          → IsEquipped order infos machine
          → All (λ e. All IsKnown e.1) found
          → Runs (All (λ e. All IsKnown e.1)) (get_group_limits range api machine found)
      unfolding get_group_limits
      get_group_limits-IsKnown machine found (f, l) h s =
          elim (Bool-cases
            (machine.node_group_uuid == "" || contains machine.node_group_uuid found)) [
              | inl skip ↦ rw skip (returns h)
              | inr ask ↦ rw ask (
                  continue-Post _ _
                    (get_limits-IsKnown machine.machine_uuid
                      (range String Device machine.device_list) []
                      (Lists-IsKnown machine.device_list l) tt s)
                    λ limits known s'. returns (
                      All-insert (λ e. All IsKnown e.1) machine.node_group_uuid limits found known
                        h))
            ]

      get_all_limits-IsKnown :
          (machines : List Machine) (found : Dict String Limits)
          → All (IsEquipped order infos) machines
          → All (λ e. All IsKnown e.1) found
          → Runs (All (λ e. All IsKnown e.1)) (get_all_limits range api machines found)
      unfolding get_all_limits
      get_all_limits-IsKnown [] found m h s = returns h
      get_all_limits-IsKnown (machine ∷ rest) found m h s =
          continue-Post _ _ (get_group_limits-IsKnown machine found m.0 h s)
            λ found' h'. get_all_limits-IsKnown rest found' m.1 h'

      -- Setting the bounds neither fails by itself nor panics, and the lists stay those of the
      -- entries.
      pub add_limits-IsEquipped :
          (use_cm : Bool) (machines : List Machine)
          → All (IsEquipped order infos) machines
          → Runs (All (IsEquipped order infos)) (add_limits range api use_cm machines)
      unfolding add_limits
      add_limits-IsEquipped false machines h s = returns h
      add_limits-IsEquipped true machines h s =
          continue-Post _ _ (get_all_limits-IsKnown machines [] h tt s) λ found known s'.
            limit_groups-IsEquipped (range String Limits found) machines
              (All-range order (λ e. All IsKnown e.1) found known) h
