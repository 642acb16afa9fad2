-- ===== src/Manager/Start/Owned.antt =====
-- pkg/manager/manager.go: the controllers that startResourceSliceController starts are of drivers
-- that are managed, so the cleanup finds their resources.
use composable_dra_driver.Base.{
  String, true, some, List, [], ◌∷◌, ok, panic, ok_inj, and_then-ok, All, ◌≡◌, ◌≢◌, refl, ap, sym,
  subst, ◌∙◌, ◌==◌, string_eq, Bool-cases, Option-cases, inl, inr,
}
use composable_dra_driver.Base.Dict.{
  lookup, insert, contains, is_some, Distinct, insert-Distinct, lookup-insert, All-of_lookup,
}
use composable_dra_driver.Base.Order.{Range, IsOrder, range-Distinct, lookup-range}
use composable_dra_driver.KubeUtils.Discovery.{DiscoveryClient, is_dra_enabled}
use composable_dra_driver.Manager.Types.{DriverResources, Resources}
use composable_dra_driver.Manager.Slices.{Controller, Controllers}
use composable_dra_driver.Manager.Start.{
  Starter, Lister, start_controllers, start_resource_slice_controller,
}
use composable_dra_driver.Manager.Start.Cleaning.{CanClean}

abbrev pub Managed : Resources → String → Type 0
Managed resources d = contains d resources ≡ true

-- The controllers are of distinct drivers that are managed.
pub record AreOwned (resources : Resources) (controllers : Controllers) : Type 0 where
  pub distinct : Distinct controllers
  pub owned : (d : String) (c : Controller) → lookup d controllers ≡ some c → Managed resources d

AreOwned-insert :
    (resources : Resources) (controllers : Controllers) (d : String) (c : Controller)
    → Managed resources d
    → AreOwned resources controllers
    → AreOwned resources (insert d c controllers)
AreOwned-insert resources controllers d c m o = record {
  distinct = insert-Distinct d c controllers o.distinct;
  owned = λ j k p. elim (Bool-cases (d == j)) [
    | inl same ↦ subst (Managed resources) ((string_eq.equals_iff d j).0 same) m
    | inr other ↦ o.owned j k (sym (lookup-insert d j c controllers ∙ rw other refl) ∙ p)
  ];
}

start_controllers-AreOwned :
    (resources : Resources) (start : Starter) (entries : List (String × DriverResources))
    (controllers : Controllers) {started : Controllers}
    → All (λ e. Managed resources e.0) entries
    → AreOwned resources controllers
    → start_controllers start entries controllers ≡ ok started
    → AreOwned resources started
unfolding start_controllers
start_controllers-AreOwned resources start [] controllers h o e =
    subst (AreOwned resources) (ok_inj e) o
start_controllers-AreOwned resources start ((d, r) ∷ rest) controllers (m, h) o e =
    elim (Option-cases (start d)) [
      | inl well ↦
          start_controllers-AreOwned resources start rest
            (insert d (record { driver = d }) controllers) h
            (AreOwned-insert resources controllers d (record { driver = d }) m o)
            (rw (well, start_controllers) at e)
      | inr (failed, p) ↦ cc (rw (p, start_controllers) at e)
    ]

none_yet : (resources : Resources) → AreOwned resources []
unfolding lookup
none_yet resources = record { distinct = tt; owned = λ d c p. cc p }

pub start_resource_slice_controller-AreOwned :
    {range : Range} (order : IsOrder range) (client : DiscoveryClient) (start : Starter)
    (resources : Resources) (controllers : Controllers)
    → Distinct resources
    → start_resource_slice_controller range client start resources ≡ ok controllers
    → AreOwned resources controllers
unfolding start_resource_slice_controller
start_resource_slice_controller-AreOwned {range} order client start resources controllers d e =
    let (enabled, _, rest) = and_then-ok (is_dra_enabled client) _ e in
    elim (Bool-cases enabled) [
      | inl on ↦
          start_controllers-AreOwned resources start (range String DriverResources resources) []
            (All-of_lookup _ (range String DriverResources resources)
              (range-Distinct order resources d)
              λ k v p.
                cc
                  (ap (is_some {A = DriverResources}) (sym (lookup-range order resources d k) ∙ p)))
            (none_yet resources) (rw on at rest)
      | inr off ↦ cc (rw off at rest)
    ]

Managed-some :
    (d : String) (resources : Resources)
    → Managed resources d
    → (r : DriverResources) × (lookup d resources ≡ some r)
Managed-some d resources m = elim (Option-cases (lookup d resources)) [
  | inl absent ↦ cc
  | inr found ↦ found
]

All-CanClean :
    (list : Lister) (resources : Resources) (entries : List (String × Controller))
    → ((d : String) → list d ≢ panic)
    → All (λ e. Managed resources e.0) entries
    → CanClean list resources entries
All-CanClean list resources [] listed h = tt
All-CanClean list resources ((d, c) ∷ rest) listed (m, h) =
    (Managed-some d resources m, listed d, All-CanClean list resources rest listed h)

-- While the drivers stay the same, the cleanup can be made.
pub AreOwned-CanClean :
    {range : Range} (order : IsOrder range) (list : Lister) (before after : Resources)
    (controllers : Controllers)
    → ((d : String) → list d ≢ panic)
    → ((d : String) → contains d after ≡ contains d before)
    → AreOwned before controllers
    → CanClean list after (range String Controller controllers)
AreOwned-CanClean {range} order list before after controllers listed same o =
    All-CanClean list after (range String Controller controllers) listed (
      All-of_lookup _ (range String Controller controllers)
        (range-Distinct order controllers o.distinct)
        λ d c p. same d ∙ o.owned d c (sym (lookup-range order controllers o.distinct d) ∙ p))
