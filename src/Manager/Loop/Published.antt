-- ===== src/Manager/Loop/Published.antt =====
-- pkg/manager/manager.go: from the machines that a scan collects to the pools that it leaves behind.
use mathlib.Core.Option
use composable_dra_driver.Manager.Types.{Pool}
use composable_dra_driver.Manager.Pools.View.{size_or, pool_view, found_pool, view-found_pool}
use composable_dra_driver.Manager.Pools.Names.{pool_name_inj}
use composable_dra_driver.Manager.Pools.Contents.{IsPoolOf}
use composable_dra_driver.Manager.Slices.Made.{AreMade}
use composable_dra_driver.Manager.Collect.Whole.{HasUniqueNames}
use composable_dra_driver.Base.{
  ℕ, ℤ, pos, String, Bool, true, false, Option, none, some, List, [], ◌∷◌, All, All-append_left,
  All-append_right, ◌≡◌, refl, sym, ◌∙◌, ap, ap₂, subst, inl, inr, Bool-cases, arith, string_eq,
  int_eq, ◌==◌, if◌then◌else◌, Option-cases,
}
use composable_dra_driver.Base.Dict.{Dict, lookup, contains, flag, All-lookup, lookup-insert}
use composable_dra_driver.Base.Order.{Range, IsOrder, lookup-range}
use composable_dra_driver.Config.Types.{DeviceInfo}
use composable_dra_driver.Manager.Types.{Device, Machine, Resources}
use composable_dra_driver.Manager.Pools.{pool_name}
use composable_dra_driver.Manager.Slices.Jobs.{Job, device_jobs, found_after, fabric_jobs, jobs}
use composable_dra_driver.Manager.Slices.Settled.{Advertised}
use composable_dra_driver.Manager.Collect.Devices.{info_of, Shows, IsMadeFrom}
use composable_dra_driver.Manager.Collect.Spread.{IsEquipped}
use composable_dra_driver.Manager.Pools.View.{view}
use composable_dra_driver.Manager.Collect.Counts.{identities, is_on, asked_of}

All-device_jobs :
    (P : Job → Type 0) (f : ℤ) (entries : List (String × Device))
    → All P (device_jobs f entries)
    → All (λ (e : String × Device). P (record { device = e.1; fabric_id = f })) entries
unfolding device_jobs
All-device_jobs P f [] h = tt
All-device_jobs P f ((model, device) ∷ rest) h = (h.0, All-device_jobs P f rest h.1)

flag-found_after :
    (f g : ℤ) (found : Dict ℤ Bool)
    → g == f ≡ false
    → flag f found ≡ false
    → flag f (found_after (some g) found) ≡ false
unfolding found_after
flag-found_after f g found other down = elim (Bool-cases (flag g found)) [
  | inl old ↦ rw old down
  | inr new ↦ rw new (ground (arith, lookup-insert g f true found))
]

-- The free devices of a model that the first machine on a fabric has.
abbrev pub free_of : String → Machine → Option ℤ
free_of model machine =
    Option.map (λ (d : Device). d.available_device_count) (lookup model machine.device_list)

abbrev pub free_on : ℤ → String → List Machine → Option ℤ
free_on f model [] = none
free_on f model (machine ∷ rest) =
    if is_on f machine.fabric_id then free_of model machine else free_on f model rest

-- The first machine on a fabric, with what holds of it and of the jobs that are its devices.
record First (range : Range) (Q : Machine → Type 0) (P : Job → Type 0) (f : ℤ)
    (free : String → Option ℤ) : Type 0 where
  machine : Machine
  has : Q machine
  each : All P (device_jobs f (range String Device machine.device_list))
  frees : (model : String) → free model ≡ free_of model machine

module _ (range : Range) {Q : Machine → Type 0} {P : Job → Type 0} (f : ℤ) (uuid : String) where
  -- One machine: it is on the fabric, or the others have the first.
  step :
      (machine : Machine) (found : Dict ℤ Bool) (o : Option ℤ) (later : Option String)
      (free : String → Option ℤ)
      → (if is_on f o then some machine.machine_uuid else later) ≡ some uuid
      → flag f found ≡ false
      → Q machine
      → All P (fabric_jobs range o machine found)
      → (later ≡ some uuid → flag f (found_after o found) ≡ false → First range Q P f free)
      → First range Q P f (λ model. if is_on f o then free_of model machine else free model)
  unfolding fabric_jobs found_after
  step machine found none later free asked down has here others = others asked down
  step machine found (some g) later free asked down has here others = elim (Bool-cases (g == f)) [
    | inl same ↦
        let g_is = (int_eq.equals_iff g f).0 same in
        record {
          machine = machine;
          has = has;
          each =
              subst (λ x. All P (device_jobs x (range String Device machine.device_list))) g_is
                (rw (subst (λ x. flag x found ≡ false) (sym g_is) down) at here);
          frees = λ model. rw same refl;
        }
    | inr other ↦
        let first = others (rw other at asked) (flag-found_after f g found other down) in
        record {
          machine = first.machine;
          has = first.has;
          each = first.each;
          frees = λ model. rw other (first.frees model);
        }
  ]

  jobs-First :
      (machines : List Machine) (found : Dict ℤ Bool)
      → asked_of f (identities machines) ≡ some uuid
      → flag f found ≡ false
      → All Q machines
      → All P (jobs range machines found)
      → First range Q P f (λ model. free_on f model machines)
  unfolding jobs
  jobs-First [] found e down h all = cc e
  jobs-First (machine ∷ rest) found e down h all =
      step machine found machine.fabric_id (asked_of f (identities rest))
        (λ model. free_on f model rest) e down h.0
        (All-append_left P (fabric_jobs range machine.fabric_id machine found) _ all)
        λ e' down'.
          jobs-First rest (found_after machine.fabric_id found) e' down' h.1
            (All-append_right P (fabric_jobs range machine.fabric_id machine found) _ all)

-- The driver has the pool of the entry on the fabric, with a number of devices.
abbrev pub Publishes : Resources → String → DeviceInfo → ℤ → ℕ → Type 0
Publishes s prefix i f count =
    (p : Pool) × (found_pool i.driver_name (pool_name i.k8s_device_name f) s ≡ some p)
    × IsPoolOf prefix i.k8s_device_name i.dra_attributes f count p

-- What a pool of a known shape advertises is the number of its devices.
pool_view-IsPoolOf :
    {prefix name : String} {attributes : Dict String String} {f : ℤ} {k n : ℕ} {g : ℤ} (p : Pool)
    → IsPoolOf prefix name attributes f k p
    → pool_view (some p) ≡ some (n, g)
    → k ≡ n
pool_view-IsPoolOf {k} {n} {g} p h e =
    let seen = rw h.sliced at e in sym h.counted ∙ ap (λ (o : Option (ℕ × ℤ)). size_or n o) seen

same_entry :
    (infos : List DeviceInfo) (a b : String) (i j : DeviceInfo)
    → a ≡ b
    → info_of a infos ≡ some i
    → info_of b infos ≡ some j
    → i ≡ j
same_entry infos a b i j e p q = cc

module _ {range : Range} (order : IsOrder range) (infos : List DeviceInfo) (prefix : String)
    (s : Resources) (unique : HasUniqueNames infos) (made : AreMade infos prefix s) where
  -- A pool that is seen is the entry's own.
  Publishes-seen :
      (model : String) (i : DeviceInfo) (f : ℤ) (n : ℕ) (g : ℤ)
      → info_of model infos ≡ some i
      → view i.driver_name (pool_name i.k8s_device_name f) s ≡ some (n, g)
      → Publishes s prefix i f n
  Publishes-seen model i f n g known seen =
      let there = sym (view-found_pool i.driver_name (pool_name i.k8s_device_name f) s) ∙ seen in
      elim (Option-cases (found_pool i.driver_name (pool_name i.k8s_device_name f) s)) [
        | inl absent ↦ cc (rw absent at there)
        | inr (p, e) ↦
            let for = made i.driver_name (pool_name i.k8s_device_name f) p e in
            let (names, fabrics) =
              pool_name_inj i.k8s_device_name for.entry.k8s_device_name f for.fabric_id for.named in
            let entry =
              same_entry infos for.model model for.entry i
                (unique for.model model for.entry i for.known known (sym names)) for.known known in
            let own =
              subst
                (λ (x : DeviceInfo × ℤ).
                  IsPoolOf prefix x.0.k8s_device_name x.0.dra_attributes x.1 for.count p)
                (ap₂ (λ (a : DeviceInfo) (b : ℤ). (a, b)) entry (sym fabrics)) for.contents in
            (
              p,
              e,
              subst (λ k. IsPoolOf prefix i.k8s_device_name i.dra_attributes f k p)
                  (pool_view-IsPoolOf p own (rw e at there)) own,
            )
      ]

  -- A device of an entry that is advertised has the entry's pool.
  Advertised-Publishes :
      (model : String) (i : DeviceInfo) (d : Device) (f : ℤ)
      → info_of model infos ≡ some i
      → contains i.driver_name s ≡ true
      → IsMadeFrom i d
      → Advertised s (record { device = d; fabric_id = f })
      → (n : ℕ) × (pos n ≡ d.available_device_count) × Publishes s prefix i f n
  Advertised-Publishes model i d f known managed from (inl unmanaged) =
      cc (ap (λ x. contains x s) from.driven, unmanaged, managed)
  Advertised-Publishes model i d f known managed from (inr (n, g, seen, count)) = (
    n,
    count,
    Publishes-seen model i f n g known (
        subst (λ (x : String × String). view x.0 (pool_name x.1 f) s ≡ some (n, g))
          (ap₂ (λ (a b : String). (a, b)) from.driven from.named) seen),
  )

  pub machines-Publishes :
      (machines : List Machine) (f : ℤ) (uuid model : String) (i : DeviceInfo)
      → All (IsEquipped order infos) machines
      → All (Advertised s) (jobs range machines [])
      → asked_of f (identities machines) ≡ some uuid
      → info_of model infos ≡ some i
      → contains i.driver_name s ≡ true
      → (n : ℕ) × (free_on f model machines ≡ some (pos n)) × Publishes s prefix i f n
  unfolding lookup
  machines-Publishes machines f uuid model i equipped advertised asked known managed =
      let first =
        jobs-First range {Q = IsEquipped order infos} {P = Advertised s} f uuid machines [] asked
          refl equipped advertised in
      let l = first.has.1 in
      let (d, found, from) =
        subst (λ o. Shows o none (lookup model first.machine.device_list)) known (l.shows model) in
      let (n, count, publishes) = Advertised-Publishes model i d f known managed from (
        All-lookup (λ (e : String × Device). Advertised s (record { device = e.1; fabric_id = f }))
          model d (range String Device first.machine.device_list)
          (lookup-range order first.machine.device_list l.distinct model ∙ found)
          (All-device_jobs (Advertised s) f (range String Device first.machine.device_list)
            first.each)) in
      (
        n,
        first.frees model
            ∙ ap (Option.map (λ (d : Device). d.available_device_count)) found
            ∙ ap some (sym count),
        publishes,
      )
