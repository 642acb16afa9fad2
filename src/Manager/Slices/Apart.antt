-- ===== src/Manager/Slices/Apart.antt =====
-- pkg/manager/manager.go: why the jobs of manageCDIResourceSlices are about different pools: the
-- device names of a machine differ, and each fabric is taken once.
use composable_dra_driver.Base.{
  ℕ, ℤ, pos, String, Bool, true, false, Option, none, some, List, [], ◌∷◌, ◌++◌, All, All-append,
  All-mono, ◌≡◌, refl, ap, sym, ◌∙◌, ◌≢◌, Bool-cases, inl, inr, string_eq, int_eq, true≢false,
}
use composable_dra_driver.Base.Dict.{
  Dict, lookup, insert, flag, flag-raise, flag-raise_self, lookup-head, lookup-tail, Distinct,
  All-of_lookup,
}
use composable_dra_driver.Base.Order.{Range, IsOrder, range-Distinct, lookup-range}
use composable_dra_driver.Manager.Types.{Device, DeviceList, Machine}
use composable_dra_driver.Manager.Pools.Names.{pool_name_inj}
use composable_dra_driver.Manager.Slices.Jobs.{
  Job, pool_of, device_jobs, fabric_jobs, found_after, jobs,
}
use composable_dra_driver.Manager.Slices.Scan.{Apart, IsCounted}

-- A device list whose devices have different names and counts that are not negative.
pub record IsValidList (devices : DeviceList) : Type 0 where
  pub distinct : Distinct devices
  pub names :
      (k j : String) (d e : Device)
      → lookup k devices ≡ some d
      → lookup j devices ≡ some e
      → d.k8s_device_name ≡ e.k8s_device_name
      → k ≡ j
  pub counted :
      (k : String) (d : Device)
      → lookup k devices ≡ some d
      → (n : ℕ) × (pos n ≡ d.available_device_count)

device_jobs-IsCounted :
    (f : ℤ) (entries : DeviceList)
    → All (λ e. (n : ℕ) × (pos n ≡ e.1.available_device_count)) entries
    → All IsCounted (device_jobs f entries)
unfolding device_jobs
device_jobs-IsCounted f [] h = tt
device_jobs-IsCounted f ((k, d) ∷ rest) h = (h.0, device_jobs-IsCounted f rest h.1)

-- A name that no entry has is in no job.
device_jobs-other :
    (f : ℤ) (j : Job) (entries : DeviceList)
    → All (λ e. e.1.k8s_device_name ≢ j.device.k8s_device_name) entries
    → All (λ i. pool_of i ≢ pool_of j) (device_jobs f entries)
unfolding device_jobs
device_jobs-other f j [] h = tt
device_jobs-other f j ((k, d) ∷ rest) h =
    (λ e. h.0 (pool_name_inj _ _ _ _ e).0, device_jobs-other f j rest h.1)

IsValidList-tail :
    (k : String) (d : Device) (rest : DeviceList) → IsValidList ((k, d) ∷ rest) → IsValidList rest
IsValidList-tail k d rest v =
    let deeper : (j : String) (e : Device)
        → lookup j rest ≡ some e
        → lookup j ((k, d) ∷ rest) ≡ some e =
      λ j e. lookup-tail k d rest j e v.distinct.0 in
    record {
      distinct = v.distinct.1;
      names = λ i j e g p q. v.names i j e g (deeper i e p) (deeper j g q);
      counted = λ j e p. v.counted j e (deeper j e p);
    }

-- The head's name is in no entry of the tail.
names-tail :
    (k : String) (d : Device) (rest : DeviceList)
    → IsValidList ((k, d) ∷ rest)
    → All (λ e. e.1.k8s_device_name ≢ d.k8s_device_name) rest
names-tail k d rest v = All-of_lookup _ rest v.distinct.1 λ j e p q.
    absent j e p
      (v.names j k e d (lookup-tail k d rest j e v.distinct.0 p) (lookup-head k d rest) q)
  where
    absent : (j : String) (e : Device) → lookup j rest ≡ some e → j ≡ k → ⊥
    absent j e p q = cc (v.distinct.0, ap (λ (i : String). lookup i rest) q)

device_jobs-Apart :
    (f : ℤ) (entries : DeviceList) → IsValidList entries → Apart (device_jobs f entries)
unfolding device_jobs
device_jobs-Apart f [] v = tt
device_jobs-Apart f ((k, d) ∷ rest) v = (
  device_jobs-other f (record { device = d; fabric_id = f }) rest (names-tail k d rest v),
  device_jobs-Apart f rest (IsValidList-tail k d rest v),
)

-- The jobs of one fabric.
device_jobs-fabric :
    (f : ℤ) (entries : DeviceList) → All (λ j. j.fabric_id ≡ f) (device_jobs f entries)
unfolding device_jobs
device_jobs-fabric f [] = tt
device_jobs-fabric f ((k, d) ∷ rest) = (refl, device_jobs-fabric f rest)

-- Jobs of fabrics that are not found yet.
abbrev AllNew : Dict ℤ Bool → List Job → Type 0
AllNew found = All (λ j. flag j.fabric_id found ≡ false)

flag-found_after :
    (o : Option ℤ) (found : Dict ℤ Bool) (f : ℤ)
    → flag f (found_after o found) ≡ false
    → flag f found ≡ false
unfolding found_after
flag-found_after none found f h = h
flag-found_after (some g) found f h = elim (Bool-cases (flag g found)) [
  | inl old ↦ rw old at h
  | inr new ↦ let h' = rw new at h in (flag-raise g f found h').0
]

fabric_jobs-AllNew :
    (range : Range) (o : Option ℤ) (machine : Machine) (found : Dict ℤ Bool)
    → AllNew found (fabric_jobs range o machine found)
unfolding fabric_jobs
fabric_jobs-AllNew range none machine found = tt
fabric_jobs-AllNew range (some f) machine found = elim (Bool-cases (flag f found)) [
  | inl old ↦ rw old tt
  | inr new ↦ rw new (
      All-mono _ _ (device_jobs f (range String Device machine.device_list))
        (λ j e. ap (λ (g : ℤ). flag g found) e ∙ new)
        (device_jobs-fabric f (range String Device machine.device_list)))
]

-- The fabric of a job is found from then on.
fabric_jobs_found :
    (range : Range) (o : Option ℤ) (machine : Machine) (found : Dict ℤ Bool)
    → All (λ j. flag j.fabric_id (found_after o found) ≡ true) (fabric_jobs range o machine found)
unfolding fabric_jobs found_after
fabric_jobs_found range none machine found = tt
fabric_jobs_found range (some f) machine found = elim (Bool-cases (flag f found)) [
  | inl old ↦ rw old tt
  | inr new ↦ rw new (
      All-mono _ _ (device_jobs f (range String Device machine.device_list))
        (λ j e. ap (λ (g : ℤ). flag g (insert f true found)) e ∙ flag-raise_self f found)
        (device_jobs-fabric f (range String Device machine.device_list)))
]

jobs-AllNew :
    (range : Range) (machines : List Machine) (found : Dict ℤ Bool)
    → AllNew found (jobs range machines found)
unfolding jobs
jobs-AllNew range [] found = tt
jobs-AllNew range (machine ∷ rest) found =
    All-append _ (fabric_jobs range machine.fabric_id machine found) _
      (fabric_jobs-AllNew range machine.fabric_id machine found)
      (All-mono _ _ (jobs range rest (found_after machine.fabric_id found))
        (λ j h. flag-found_after machine.fabric_id found j.fabric_id h)
        (jobs-AllNew range rest (found_after machine.fabric_id found)))

Apart-append :
    (found : Dict ℤ Bool) (xs ys : List Job)
    → Apart xs
    → Apart ys
    → All (λ j. flag j.fabric_id found ≡ true) xs
    → AllNew found ys
    → Apart (xs ++ ys)
Apart-append found [] ys ax ay old new = ay
Apart-append found (x ∷ xs) ys ax ay old new = (
  All-append _ xs ys ax.0 (All-mono _ _ ys (λ y h e. fabrics y h (pool_name_inj _ _ _ _ e).1) new),
  Apart-append found xs ys ax.1 ay old.1 new,
)
  where
    fabrics : (y : Job) → flag y.fabric_id found ≡ false → y.fabric_id ≡ x.fabric_id → ⊥
    fabrics y h e = true≢false (sym old.0 ∙ ap (λ (g : ℤ). flag g found) (sym e) ∙ h)

module _ {range : Range} (order : IsOrder range) where
  range-IsValidList :
      (devices : DeviceList) → IsValidList devices → IsValidList (range String Device devices)
  range-IsValidList devices v =
      let same = lookup-range order devices v.distinct in
      record {
        distinct = range-Distinct order devices v.distinct;
        names = λ k j d e p q r. v.names k j d e (sym (same k) ∙ p) (sym (same j) ∙ q) r;
        counted = λ k d p. v.counted k d (sym (same k) ∙ p);
      }

  fabric_jobs-Apart :
      (o : Option ℤ) (machine : Machine) (found : Dict ℤ Bool)
      → IsValidList machine.device_list
      → Apart (fabric_jobs range o machine found)
        × All IsCounted (fabric_jobs range o machine found)
  unfolding fabric_jobs
  fabric_jobs-Apart none machine found v = (tt, tt)
  fabric_jobs-Apart (some f) machine found v =
      let devices = range String Device machine.device_list in
      let v' = range-IsValidList machine.device_list v in
      elim (Bool-cases (flag f found)) [
        | inl old ↦ rw old (tt, tt)
        | inr new ↦ rw new (
          device_jobs-Apart f devices v',
          device_jobs-IsCounted f devices (All-of_lookup _ devices v'.distinct v'.counted),
        )
      ]

  -- The jobs of machines with valid lists are about different pools, with counts.
  pub jobs-Apart :
      (machines : List Machine) (found : Dict ℤ Bool)
      → All (λ machine. IsValidList machine.device_list) machines
      → Apart (jobs range machines found) × All IsCounted (jobs range machines found)
  unfolding jobs
  jobs-Apart [] found v = (tt, tt)
  jobs-Apart (machine ∷ rest) found v =
      let here = fabric_jobs-Apart machine.fabric_id machine found v.0 in
      let found' = found_after machine.fabric_id found in
      let there = jobs-Apart rest found' v.1 in
      (
        Apart-append found' (fabric_jobs range machine.fabric_id machine found)
            (jobs range rest found') here.0 there.0
            (fabric_jobs_found range machine.fabric_id machine found)
            (jobs-AllNew range rest found'),
        All-append _ (fabric_jobs range machine.fabric_id machine found) _ here.1 there.1,
      )
