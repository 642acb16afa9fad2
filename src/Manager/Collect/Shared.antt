-- ===== src/Manager/Collect/Shared.antt =====
-- pkg/manager/manager.go: device lists as maps of pointers. DeepCopy and the setting of limits go
-- through a store, where two lists may share a device.
use composable_dra_driver.Base.{
  ℕ, suc, String, ◌||◌, Option, none, some, List, [], ◌∷◌, ok, panic, Action, pure, crash, ◌>>=◌,
  ◌>>◌, nat_beq, string_eq, if◌then◌else◌,
}
use composable_dra_driver.Base.Dict.{Dict, lookup, insert, is_some}
use composable_dra_driver.Base.Order.{Range}
use composable_dra_driver.Manager.Types.{Device}
use composable_dra_driver.Manager.Fetch.{Limit, or_else}

-- The devices by their addresses, of which the first `next` are in use.
pub record Store : Type 0 where
  pub next : ℕ
  pub cell : ℕ → Option Device

-- map[string]*device
abbrev pub Pointers : Type 0
Pointers = Dict String ℕ

abbrev pub put : ℕ → Device → (ℕ → Option Device) → ℕ → Option Device
put a d cell b = if nat_beq a b then some d else cell b

abbrev pub load : ℕ → Action Store Device
load a s = elim (s.cell a) [ some d ↦ (ok d, s) | none ↦ (panic, s) ]

abbrev pub store : ℕ → Device → Action Store (Unit {0})
store a d s = (ok tt, record s { cell = put a d s.cell })

-- new(device), with the device that is written to it at once.
abbrev pub allocate : Device → Action Store ℕ
allocate d s = (ok s.next, record { next = suc s.next; cell = put s.next d s.cell })

unfoldable pub copy_pointers : List (String × ℕ) → Pointers → Action Store Pointers
copy_pointers [] out = pure out
copy_pointers ((model, in_device) ∷ rest) out = do
  d ← load in_device
  new_device ← allocate d
  copy_pointers rest (insert model new_device out)

-- deviceList.DeepCopy
unfoldable pub deep_copy_pointers : Range → Pointers → Action Store Pointers
unfolding copy_pointers
deep_copy_pointers range pointers = copy_pointers (range String ℕ pointers) []

-- machine.deviceList[model].minDeviceCount = limit.min, and so for the maximum, each where it is set.
unfoldable pub write_limit : Limit → Option ℕ → Action Store (Unit {0})
write_limit l none = if is_some l.min || is_some l.max then crash else pure tt
write_limit l (some a) = do
  d ← load a
  store a (record d {
    min_device_count = or_else l.min d.min_device_count;
    max_device_count = or_else l.max d.max_device_count;
  })

unfoldable pub write_limits : List (String × Limit) → Pointers → Action Store (Unit {0})
unfolding write_limit
write_limits [] pointers = pure tt
write_limits ((model, l) ∷ rest) pointers = do
  write_limit l (lookup model pointers)
  write_limits rest pointers

-- What the loops do to one machine: a copy of the fabric's list, and the limits of its group in it.
unfoldable pub equip : Range → Pointers → List (String × Limit) → Action Store Pointers
unfolding deep_copy_pointers write_limits
equip range pointers limits = do
  own ← deep_copy_pointers range pointers
  write_limits limits own
  pure own
