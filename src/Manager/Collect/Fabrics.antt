-- ===== src/Manager/Collect/Fabrics.antt =====
-- pkg/manager/manager.go: the lists of the fabrics, and the machines that have theirs.
use composable_dra_driver.Base.{
  ℤ, subst, true, ◌||◌, some, List, [], ◌∷◌, All, All-mono, Runs, Post, continue-Post, weaken,
  returns, ◌≡◌, ap, sym, ◌∙◌, arith, string_eq, int_eq, int_beq_iff, ◌==◌, Bool-cases, inl, inr,
}
use composable_dra_driver.Base.Dict.{
  Dict, insert, contains, Distinct, insert-Distinct, lookup-insert, All-insert, is_some,
}
use composable_dra_driver.Base.Order.{Range, IsOrder, All-range, lookup-range}
use composable_dra_driver.Config.Types.{DeviceInfo}
use composable_dra_driver.Client.Types.{CdiApi}
use composable_dra_driver.Manager.Types.{DeviceList, Machine}
use composable_dra_driver.Manager.Fetch.Safe.{IsAnswering}
use composable_dra_driver.Manager.Collect.{get_fabric, get_fabrics, copy_fabrics}
use composable_dra_driver.Manager.Collect.Devices.{Lists, get_devices-Lists}
use composable_dra_driver.Manager.Collect.Spread.{HasFabric, IsEquipped, copy_fabrics-IsEquipped}

-- Each fabric that is found has the list of the entries.
pub record AreLists (infos : List DeviceInfo) (found : Dict ℤ DeviceList) : Type 0 where
  pub distinct : Distinct found
  pub lists : All (λ e. Lists infos e.1) found

abbrev pub Grows : Dict ℤ DeviceList → Dict ℤ DeviceList → Type 0
Grows a b = (f : ℤ) → contains f a ≡ true → contains f b ≡ true

abbrev pub Knows : Dict ℤ DeviceList → Machine → Type 0
Knows found machine = (f : ℤ) × (machine.fabric_id ≡ some f) × (contains f found ≡ true)

pub contains-insert :
    (f g : ℤ) (devices : DeviceList) (found : Dict ℤ DeviceList)
    → contains g (insert f devices found) ≡ (f == g || contains g found)
contains-insert f g devices found = ground (arith, lookup-insert f g devices found)

module _ {S : Type 0} (range : Range) (api : CdiApi S) (answering : IsAnswering api)
    (infos : List DeviceInfo) where
  get_fabric-AreLists :
      (machine : Machine) (f : ℤ) (found : Dict ℤ DeviceList)
      → AreLists infos found
      → Runs
          (λ out. AreLists infos out × Grows found out × (contains f out ≡ true))
          (get_fabric range api infos machine (some f) found)
  unfolding get_fabric
  get_fabric-AreLists machine f found l s = elim (Bool-cases (contains f found)) [
    | inl old ↦ rw old (returns (l, (λ g h. h), old))
    | inr new ↦ rw new (
        continue-Post _ _ (get_devices-Lists range api answering machine.machine_uuid infos s)
          λ devices made s'. returns (
            record {
              distinct = insert-Distinct f devices found l.distinct;
              lists = All-insert (λ e. Lists infos e.1) f devices found made l.lists;
            },
            (λ g h. ground (arith, contains-insert f g devices found)),
            ground (arith, contains-insert f f devices found, int_beq_iff f f),
          ))
  ]

  pub get_fabrics-AreLists :
      (machines : List Machine) (found : Dict ℤ DeviceList)
      → AreLists infos found
      → All HasFabric machines
      → Runs
          (λ out. AreLists infos out × Grows found out × All (Knows out) machines)
          (get_fabrics range api infos machines found)
  unfolding get_fabrics
  get_fabrics-AreLists [] found l h s = returns (l, (λ g c. c), tt)
  get_fabrics-AreLists (machine ∷ rest) found l ((f, e), h) s =
      let here =
        subst
          (λ o.
            Runs (λ out. AreLists infos out × Grows found out × (contains f out ≡ true))
              (get_fabric range api infos machine o found))
          (sym e) (get_fabric-AreLists machine f found l) in
      continue-Post _ _ (here s) λ found' (l', grows, known) s'.
        weaken
          (λ out (l'', grows', there).
            (l'', (λ g c. grows' g (grows g c)), ((f, e, grows' f known), there)))
          (get_fabrics-AreLists rest found' l' h s')

  -- The machines with a fabric get their lists.
  pub copy_found-IsEquipped :
      (order : IsOrder range) (machines : List Machine) (found : Dict ℤ DeviceList)
      → AreLists infos found
      → All (Knows found) machines
      → Post (All (IsEquipped order infos)) (copy_fabrics range (range ℤ DeviceList found) machines)
  copy_found-IsEquipped order machines found l h =
      copy_fabrics-IsEquipped order infos (range ℤ DeviceList found) machines
        (All-range order (λ e. Lists infos e.1) found l.lists)
        (All-mono (Knows found) _ machines
          (λ machine (f, e, c).
            (f, e, inr (ap is_some (lookup-range order found l.distinct f) ∙ c)))
          h)
