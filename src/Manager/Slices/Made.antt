-- ===== src/Manager/Slices/Made.antt =====
-- pkg/manager/manager.go: where the pools that manageCDIResourceSlices keeps come from.
use composable_dra_driver.Base.{
  ℕ, ℤ, pos_part, String, Bool, false, Option, none, some, List, [], ◌∷◌, All, All-append, Outcome,
  ◌≡◌, refl, ap, ap₂, sym, ◌≢◌, subst, ◌∙◌, ◌⊎◌, inl, inr, Bool-cases, true≢false, string_eq,
  int_eq, ◌==◌,
}
use composable_dra_driver.Base.Dict.{Dict, lookup, Distinct, flag, All-of_lookup}
use composable_dra_driver.Base.Order.{Range, IsOrder, All-range}
use composable_dra_driver.Config.Types.{DeviceInfo}
use composable_dra_driver.Manager.Types.{
  Device, Machine, Pool, DriverResources, Resources, Settings,
}
use composable_dra_driver.Manager.Pools.{pool_name, put_pool}
use composable_dra_driver.Manager.Pools.View.{
  found_pool, found_pool-put_pool_self, found_pool-put_pool_ne,
}
use composable_dra_driver.Manager.Pools.Update.{fresh}
use composable_dra_driver.Manager.Pools.Contents.{IsPoolOf, generate_pool-IsPoolOf}
use composable_dra_driver.Manager.Slices.{Controllers, Publishing, mark, manage_slices}
use composable_dra_driver.Manager.Slices.Jobs.{
  run_jobs, Job, driver_of, pool_of, device_jobs, fabric_jobs, found_after, jobs,
}
use composable_dra_driver.Manager.Slices.Settled.{done, update_device_cases}
use composable_dra_driver.Manager.Slices.Scan.{after, run_jobs-cons}
use composable_dra_driver.Manager.Slices.Rescan.{HasControllers, manage_slices_done}
use composable_dra_driver.Manager.Collect.Devices.{info_of, Shows, IsMadeFrom, Lists}
use composable_dra_driver.Manager.Collect.Spread.{IsEquipped}

-- The attributes of each entry, a Go map, have distinct keys.
abbrev pub HaveMaps : List DeviceInfo → Type 0
HaveMaps infos =
    (model : String) (i : DeviceInfo) → info_of model infos ≡ some i → Distinct i.dra_attributes

-- The device is made from the last entry of some model.
abbrev pub HasEntry : List DeviceInfo → Device → Type 0
HasEntry infos d =
    (model : String) × (i : DeviceInfo) × (info_of model infos ≡ some i) × IsMadeFrom i d

-- The pool is the one of the last entry of some model on some fabric.
pub record IsPoolFor (infos : List DeviceInfo) (prefix driver name : String) (p : Pool)
    : Type 0 where
  pub model : String
  pub entry : DeviceInfo
  pub fabric_id : ℤ
  pub count : ℕ
  pub known : info_of model infos ≡ some entry
  pub driven : driver ≡ entry.driver_name
  pub named : name ≡ pool_name entry.k8s_device_name fabric_id
  pub contents : IsPoolOf prefix entry.k8s_device_name entry.dra_attributes fabric_id count p

-- Every pool is one of an entry on a fabric.
abbrev pub AreMade : List DeviceInfo → String → Resources → Type 0
AreMade infos prefix s =
    (driver name : String) (p : Pool)
    → found_pool driver name s ≡ some p
    → IsPoolFor infos prefix driver name p

some_pool_inj : {a b : Pool} → some a ≡ some b → a ≡ b
some_pool_inj h = cc

string_apart : (a b : String) → a == b ≡ false → a ≢ b
string_apart a b h e = true≢false (sym ((string_eq.equals_iff a b).1 e) ∙ h)

module _ {range : Range} (order : IsOrder range) (m : Settings) (infos : List DeviceInfo)
    (maps : HaveMaps infos) where
  fresh-IsPoolFor :
      (j : Job) (g : ℤ)
      → HasEntry infos j.device
      → IsPoolFor infos m.label_prefix
          (driver_of j)
          (pool_of j)
          (fresh range m (pool_of j) j.device j.fabric_id g)
  fresh-IsPoolFor j g (model, i, known, made) =
      let distinct = subst Distinct (sym made.attributed) (maps model i known) in
      record {
        model = model;
        entry = i;
        fabric_id = j.fabric_id;
        count = pos_part j.device.available_device_count;
        known = known;
        driven = made.driven;
        named = ap (λ n. pool_name n j.fabric_id) made.named;
        contents =
            subst
              (λ (x : String × Dict String String).
                IsPoolOf m.label_prefix x.0 x.1 j.fabric_id
                  (pos_part j.device.available_device_count)
                  (fresh range m (pool_of j) j.device j.fabric_id g))
              (ap₂ (λ (n : String) (a : Dict String String). (n, a)) made.named made.attributed)
              (generate_pool-IsPoolOf order m j.device j.fabric_id g distinct).0;
      }

  put-AreMade :
      (j : Job) (g : ℤ) (r : DriverResources) (s : Resources)
      → lookup (driver_of j) s ≡ some r
      → HasEntry infos j.device
      → AreMade infos m.label_prefix s
      → AreMade infos m.label_prefix (
          put_pool (driver_of j) (pool_of j) (fresh range m (pool_of j) j.device j.fabric_id g) r s)
  put-AreMade j g r s known entry made driver name p e =
      let new = fresh range m (pool_of j) j.device j.fabric_id g in
      let elsewhere = λ (h : (driver ≢ driver_of j) ⊎ (name ≢ pool_of j)).
        made driver name p (
          sym (found_pool-put_pool_ne (driver_of j) (pool_of j) new r s driver name known h) ∙ e) in
      elim (Bool-cases (driver == driver_of j)) [
        | inr other ↦ elsewhere (inl (string_apart driver (driver_of j) other))
        | inl same ↦ elim (Bool-cases (name == pool_of j)) [
          | inr other ↦ elsewhere (inr (string_apart name (pool_of j) other))
          | inl alike ↦
              let d_is = sym ((string_eq.equals_iff driver (driver_of j)).0 same) in
              let n_is = sym ((string_eq.equals_iff name (pool_of j)).0 alike) in
              let found =
                subst
                  (λ (x : String × String).
                    found_pool x.0 x.1 (put_pool (driver_of j) (pool_of j) new r s) ≡ some p)
                  (ap₂ (λ (a b : String). (a, b)) (sym d_is) (sym n_is)) e in
              subst (λ (x : String × String). IsPoolFor infos m.label_prefix x.0 x.1 p)
                (ap₂ (λ (a b : String). (a, b)) d_is n_is)
                (subst (IsPoolFor infos m.label_prefix (driver_of j) (pool_of j))
                  (some_pool_inj
                    (sym (found_pool-put_pool_self (driver_of j) (pool_of j) new r s) ∙ found))
                  (fresh-IsPoolFor j g entry))
        ]
      ]

  update_device-AreMade :
      (j : Job) (s : Resources)
      → HasEntry infos j.device
      → AreMade infos m.label_prefix s
      → AreMade infos m.label_prefix (done range m j s).1
  update_device-AreMade j s entry made = elim (update_device_cases range m j s) [
    | inl same ↦ rw same made
    | inr (r, g, known, new) ↦ rw new (put-AreMade j g r s known entry made)
  ]

  run_jobs-AreMade :
      (js : List Job) (need : Dict String Bool) (s : Resources)
      → All (λ j. HasEntry infos j.device) js
      → AreMade infos m.label_prefix s
      → AreMade infos m.label_prefix (after range m js need s)
  run_jobs-AreMade [] need s h made = unfold run_jobs in made
  run_jobs-AreMade (j ∷ js) need s h made =
      let (b, _, step, e) = run_jobs-cons range m j js need s in
      rw e (
        run_jobs-AreMade js (mark b (driver_of j) need) (done range m j s).1 h.1
          (update_device-AreMade j s h.0 made))

  -- The jobs are about devices of the machines.
  device_jobs-HasEntry :
      (f : ℤ) (entries : List (String × Device))
      → All (λ e. HasEntry infos e.1) entries
      → All (λ j. HasEntry infos j.device) (device_jobs f entries)
  unfolding device_jobs
  device_jobs-HasEntry f [] h = tt
  device_jobs-HasEntry f (e ∷ rest) h = (h.0, device_jobs-HasEntry f rest h.1)

  Shows-HasEntry :
      (model : String) (o : Option DeviceInfo) (found : Option Device) (d : Device)
      → info_of model infos ≡ o
      → Shows o none found
      → found ≡ some d
      → HasEntry infos d
  Shows-HasEntry model none found d known h e = cc
  Shows-HasEntry model (some i) found d known (d', p, made) e =
      (model, i, known, subst (IsMadeFrom i) (cc) made)

  Lists-HasEntry :
      (devices : List (String × Device))
      → Lists infos devices
      → All (λ (e : String × Device). HasEntry infos e.1) (range String Device devices)
  Lists-HasEntry devices l =
      All-range order (λ (e : String × Device). HasEntry infos e.1) devices
        (All-of_lookup (λ (e : String × Device). HasEntry infos e.1) devices l.distinct
          λ model d e. Shows-HasEntry model (info_of model infos) _ d refl (l.shows model) e)

  fabric_jobs-HasEntry :
      (f : Option ℤ) (machine : Machine) (found : Dict ℤ Bool)
      → Lists infos machine.device_list
      → All (λ j. HasEntry infos j.device) (fabric_jobs range f machine found)
  unfolding fabric_jobs
  fabric_jobs-HasEntry none machine found l = tt
  fabric_jobs-HasEntry (some f) machine found l = elim (Bool-cases (flag f found)) [
    | inl old ↦ rw old tt
    | inr new ↦ rw new (
        device_jobs-HasEntry f (range String Device machine.device_list)
          (Lists-HasEntry machine.device_list l))
  ]

  jobs-HasEntry :
      (machines : List Machine) (found : Dict ℤ Bool)
      → All (IsEquipped order infos) machines
      → All (λ j. HasEntry infos j.device) (jobs range machines found)
  unfolding jobs
  jobs-HasEntry [] found h = tt
  jobs-HasEntry (machine ∷ rest) found h =
      All-append (λ j. HasEntry infos j.device) (fabric_jobs range machine.fabric_id machine found)
        _ (fabric_jobs-HasEntry machine.fabric_id machine found h.0.1)
        (jobs-HasEntry rest (found_after machine.fabric_id found) h.1)

  -- The call puts only pools of entries.
  pub manage_slices-AreMade :
      (controllers : Controllers) (machines : List Machine) (s : Publishing)
      → Distinct s.resources
      → HasControllers controllers s.resources
      → All (IsEquipped order infos) machines
      → AreMade infos m.label_prefix s.resources
      → AreMade infos m.label_prefix (manage_slices range m controllers machines s).1.resources
  manage_slices-AreMade controllers machines s distinct has equipped made =
      let (need, _, e) = manage_slices_done order m controllers machines s distinct has in
      subst
        (λ (out : Outcome (Unit {0}) × Publishing). AreMade infos m.label_prefix out.1.resources)
        (sym e)
        (run_jobs-AreMade (jobs range machines []) [] s.resources
          (jobs-HasEntry machines [] equipped) made)
