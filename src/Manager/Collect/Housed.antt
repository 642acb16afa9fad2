-- ===== src/Manager/Collect/Housed.antt =====
-- pkg/manager/manager.go: the machines of a scan own their devices, and a loop over them keeps that.
use composable_dra_driver.Base.{
  ℕ, ◌≤◌, ◌<◌, String, some, string_eq, List, [], ◌∷◌, Outcome, ok, err, panic, ◌≡◌, ◌⊎◌, inl, inr,
  arith,
}
use composable_dra_driver.Base.Dict.{lookup}
use composable_dra_driver.Manager.Types.{DeviceList, Machine}
use composable_dra_driver.Manager.Collect.Shared.{Store, Pointers}
use composable_dra_driver.Manager.Collect.Copying.{Stands, IsOwn, Points-frame}
use composable_dra_driver.Manager.Collect.Writing.{fields}
use composable_dra_driver.Manager.Collect.Pointed.{Pointed, with_devices}

-- The list has a device at the address.
abbrev pub Has : Pointers → ℕ → Type 0
Has p a = (k : String) × (lookup k p ≡ some a)

abbrev pub HaveAny : List Pointed → ℕ → Type 0
HaveAny [] a = ⊥
HaveAny (machine ∷ rest) a = Has machine.device_list a ⊎ HaveAny rest a

-- A machine's pointers are its own, from `n` on, and lead to the devices of the machine as a value.
pub record Holds (n : ℕ) (s : Store) (machine : Pointed) (value : Machine) : Type 0 where
  pub devices : DeviceList
  pub equal : value ≡ with_devices machine devices
  pub stands : Stands s machine.device_list (fields devices)
  pub own : IsOwn n s machine.device_list

abbrev pub AreHoused : ℕ → Store → List Pointed → List Machine → Type 0
AreHoused n s [] [] = Unit
AreHoused n s [] (value ∷ values) = ⊥
AreHoused n s (machine ∷ rest) [] = ⊥
AreHoused n s (machine ∷ rest) (value ∷ values) =
    Holds n s machine value
    × ((a : ℕ) → Has machine.device_list a → HaveAny rest a → ⊥)
    × AreHoused n s rest values

-- From one store to another only devices at addresses with `P` have changed, and none is given up.
pub record Changes (P : ℕ → Type 0) (s t : Store) : Type 0 where
  pub grown : s.next ≤ t.next
  pub same : (a : ℕ) → a < s.next → (P a → ⊥) → t.cell a ≡ s.cell a

-- A machine after a step against its value: its addresses are those it had, or new ones.
abbrev pub Steps : ℕ → Store → Pointed → Outcome Machine → Outcome Pointed × Store → Type 0
Steps n s machine (ok value) out =
    (machine' : Pointed) × (out.0 ≡ ok machine')
    × Holds n out.1 machine' value
    × Changes (Has machine.device_list) s out.1
    × ((a : ℕ) → Has machine'.device_list a → Has machine.device_list a ⊎ (s.next ≤ a))
Steps n s machine (err e) out = out.0 ≡ err e
Steps n s machine panic out = out.0 ≡ panic

-- And so for a list of machines.
abbrev pub AllStep :
    ℕ → Store → List Pointed → Outcome (List Machine) → Outcome (List Pointed) × Store → Type 0
AllStep n s machines (ok values) out =
    (machines' : List Pointed) × (out.0 ≡ ok machines')
    × AreHoused n out.1 machines' values
    × Changes (HaveAny machines) s out.1
    × ((a : ℕ) → HaveAny machines' a → HaveAny machines a ⊎ (s.next ≤ a))
AllStep n s machines (err e) out = out.0 ≡ err e
AllStep n s machines panic out = out.0 ≡ panic

module _ (n : ℕ) where
  pub Holds-frame :
      (s t : Store) (machine : Pointed) (value : Machine)
      → ((a : ℕ) → Has machine.device_list a → t.cell a ≡ s.cell a)
      → s.next ≤ t.next
      → Holds n s machine value
      → Holds n t machine value
  Holds-frame s t machine value same grown h = record {
    devices = h.devices;
    equal = h.equal;
    stands = λ k.
        Points-frame s t (lookup k machine.device_list) (lookup k h.devices) (λ a e. same a (k, e))
          (h.stands k);
    own = record {
      apart = h.own.apart;
      within = λ k a e. ((h.own.within k a e).0, omega (arith, (h.own.within k a e).1, grown));
    };
  }

  pub AreHoused-frame :
      (s t : Store) (machines : List Pointed) (values : List Machine)
      → ((a : ℕ) → HaveAny machines a → t.cell a ≡ s.cell a)
      → s.next ≤ t.next
      → AreHoused n s machines values
      → AreHoused n t machines values
  AreHoused-frame s t [] [] same grown h = h
  AreHoused-frame s t [] (value ∷ values) same grown h = h
  AreHoused-frame s t (machine ∷ rest) [] same grown h = h
  AreHoused-frame s t (machine ∷ rest) (value ∷ values) same grown (h, apart, more) = (
    Holds-frame s t machine value (λ a e. same a (inl e)) grown h,
    apart,
    AreHoused-frame s t rest values (λ a e. same a (inr e)) grown more,
  )

  -- The addresses of the machines are in use, from `n` on.
  pub used :
      (s : Store) (machines : List Pointed) (values : List Machine) (a : ℕ)
      → AreHoused n s machines values
      → HaveAny machines a
      → (n ≤ a) × (a < s.next)
  used s [] values a h e = absurd e
  used s (machine ∷ rest) [] a h e = absurd h
  used s (machine ∷ rest) (value ∷ values) a (h, apart, more) (inl (k, e)) = h.own.within k a e
  used s (machine ∷ rest) (value ∷ values) a (h, apart, more) (inr e) = used s rest values a more e
