-- ===== src/Manager/Start/Cleaning.antt =====
-- pkg/manager/manager.go: what cleanupResourceSlices deletes.
use mathlib.Core.List.{append_assoc, append-nil}
use composable_dra_driver.Base.{
  String, Option, some, List, [], ◌∷◌, ◌++◌, ok, err, panic, Outcome, ◌≢◌, ◌≡◌, refl, ap, sym, ◌∙◌,
  Bool-cases, inl, inr, string_eq, if◌then◌else◌,
}
use composable_dra_driver.Base.Dict.{Dict, lookup, contains}
use composable_dra_driver.Base.Order.{Range}
use composable_dra_driver.Manager.Types.{Pool, DriverResources, Resources}
use composable_dra_driver.Manager.Slices.{Controller, Controllers}
use composable_dra_driver.Manager.Start.{
  PublishedSlice, delete_listed, stop, delete, Cleanups, Lister, stop_controllers, delete_slices,
  delete_drivers, cleanup_resource_slices,
}

-- The deletes of one driver: its listed slices whose pool is among its own.
abbrev pub own_slices : Dict String Pool → List PublishedSlice → Cleanups
own_slices pools [] = []
own_slices pools (s ∷ rest) =
    if contains s.pool pools then delete s.name ∷ own_slices pools rest else own_slices pools rest

abbrev pub listed : Option DriverResources → Outcome (List PublishedSlice) → Cleanups
listed (some r) (ok slices) = own_slices r.pools slices
listed _ _ = []

-- The calls that the cleanup should make.
abbrev pub stops : List (String × Controller) → Cleanups
stops [] = []
stops ((driver, c) ∷ rest) = stop driver ∷ stops rest

abbrev pub deletes : Lister → Resources → List (String × Controller) → Cleanups
deletes list resources [] = []
deletes list resources ((driver, c) ∷ rest) =
    listed (lookup driver resources) (list driver) ++ deletes list resources rest

stop_controllers-stops :
    (entries : List (String × Controller)) (calls : Cleanups)
    → stop_controllers entries calls ≡ calls ++ stops entries
unfolding stop_controllers
stop_controllers-stops [] calls = sym (append-nil calls)
stop_controllers-stops ((driver, c) ∷ rest) calls =
    stop_controllers-stops rest (calls ++ stop driver ∷ [])
    ∙ append_assoc calls (stop driver ∷ []) (stops rest)

delete_slices-own :
    (pools : Dict String Pool) (slices : List PublishedSlice) (calls : Cleanups)
    → delete_slices pools slices calls ≡ calls ++ own_slices pools slices
unfolding delete_slices
delete_slices-own pools [] calls = sym (append-nil calls)
delete_slices-own pools (s ∷ rest) calls = elim (Bool-cases (contains s.pool pools)) [
  | inl ours ↦ rw ours (
      delete_slices-own pools rest (calls ++ delete s.name ∷ [])
      ∙ append_assoc calls (delete s.name ∷ []) (own_slices pools rest))
  | inr other ↦ rw other (delete_slices-own pools rest calls)
]

-- Every driver has its resources, and listing its slices does not panic.
abbrev pub CanClean : Lister → Resources → List (String × Controller) → Type 0
CanClean list resources [] = Unit
CanClean list resources ((driver, c) ∷ rest) =
    ((r : DriverResources) × (lookup driver resources ≡ some r))
    × (list driver ≢ panic)
    × CanClean list resources rest

delete_listed-listed :
    (r : DriverResources) (answer : Outcome (List PublishedSlice)) (calls : Cleanups)
    → answer ≢ panic
    → delete_listed (some r) answer calls ≡ (ok tt, calls ++ listed (some r) answer)
delete_listed-listed r (ok slices) calls h =
    ap (λ (c : Cleanups). (ok tt, c)) (delete_slices-own r.pools slices calls)
delete_listed-listed r (err e) calls h = ap (λ (c : Cleanups). (ok tt, c)) (sym (append-nil calls))
delete_listed-listed r panic calls h = absurd (h refl)

delete_drivers-deletes :
    (list : Lister) (resources : Resources) (entries : List (String × Controller))
    (calls : Cleanups)
    → CanClean list resources entries
    → delete_drivers list resources entries calls ≡ (ok tt, calls ++ deletes list resources entries)
unfolding delete_drivers
delete_drivers-deletes list resources [] calls h =
    ap (λ (c : Cleanups). (ok tt, c)) (sym (append-nil calls))
delete_drivers-deletes list resources ((driver, c) ∷ rest) calls h =
    let (r, e) = h.0 in
    let here = listed (some r) (list driver) in
    rw (e, delete_listed-listed r (list driver) calls h.1)
      (delete_drivers-deletes list resources rest (calls ++ here) h.2
        ∙ ap (λ (c : Cleanups). (ok tt, c)) (append_assoc calls here (deletes list resources rest)))

-- Where every driver has its resources and no listing panics, the cleanup stops every controller
-- and then deletes, driver by driver, the listed slices whose pool is one of the driver's own, and no
-- others; a driver whose slices cannot be listed is passed over.
pub cleanup_resource_slices_lem :
    (range : Range) (list : Lister) (resources : Resources) (controllers : Controllers)
    (calls : Cleanups)
    → CanClean list resources (range String Controller controllers)
    → cleanup_resource_slices range list resources controllers calls ≡ (
      ok tt,
      calls
          ++ stops (range String Controller controllers)
          ++ deletes list resources (range String Controller controllers),
    )
unfolding cleanup_resource_slices
cleanup_resource_slices_lem range list resources controllers calls h =
    rw (stop_controllers-stops (range String Controller controllers) calls)
      (delete_drivers-deletes list resources (range String Controller controllers) _ h)
