-- ===== src/Manager/Collect/Counts/Asked.antt =====
-- pkg/manager/manager.go: the lists that are asked for, one for each fabric.
use composable_dra_driver.Base.{
  ℤ, String, false, some, List, [], ◌∷◌, All, ◌≡◌, sym, ◌∙◌, ap, subst, eq_refl, Yields, yields,
  continue-Yields, Bool-cases, inl, inr, string_eq, int_eq, ◌==◌, arith,
}
use composable_dra_driver.Base.Dict.{Dict, insert, contains, All-insert}
use composable_dra_driver.Base.Order.{Range}
use composable_dra_driver.Config.Types.{DeviceInfo}
use composable_dra_driver.Client.Types.{CdiApi}
use composable_dra_driver.Manager.Types.{DeviceList, Machine}
use composable_dra_driver.Manager.Fetch.Reporting.{IsReporting, get_available_nums-Yields}
use composable_dra_driver.Manager.Collect.{get_devices, get_fabric, get_fabrics}
use composable_dra_driver.Manager.Collect.Spread.{HasFabric}
use composable_dra_driver.Manager.Collect.Fabrics.{contains-insert}
use composable_dra_driver.Manager.Collect.Counts.{Identity, identities, asked_of, IsCounted}

asked_of-first :
    (machine : Machine) (rest : List Machine) (f : ℤ)
    → machine.fabric_id ≡ some f
    → asked_of f (identities (machine ∷ rest)) ≡ some machine.machine_uuid
asked_of-first machine rest f e = simp (e, eq_refl f)

asked_of-other :
    (machine : Machine) (rest : List Machine) (f g : ℤ)
    → machine.fabric_id ≡ some f
    → f == g ≡ false
    → asked_of g (identities (machine ∷ rest)) ≡ asked_of g (identities rest)
asked_of-other machine rest f g e other = simp (e, other)

absent_before :
    (f g : ℤ) (devices : DeviceList) (found : Dict ℤ DeviceList)
    → contains g (insert f devices found) ≡ false
    → (f == g ≡ false) × (contains g found ≡ false)
absent_before f g devices found c = ground (arith, contains-insert f g devices found)

module _ {S : Type 0} (range : Range) (api : CdiApi S) (count : String → String → ℤ)
    (reporting : IsReporting api count) where
  module _ (ids : List Identity) where
    -- The fabrics that were found have the counts of the machine that each was asked for.
    abbrev pub AreAsked : Dict ℤ DeviceList → Type 0
    AreAsked found = All (λ e. All (IsCounted count ids (some e.0)) e.1) found

    get_devices-IsCounted :
        (f : ℤ) (muuid : String) (infos : List DeviceInfo) (devices : DeviceList)
        → asked_of f ids ≡ some muuid
        → All (IsCounted count ids (some f)) devices
        → (s : S)
        → Yields
            (All (IsCounted count ids (some f)))
            (get_devices range api muuid infos devices s).0
    unfolding get_devices
    get_devices-IsCounted f muuid [] devices first h s = yields h
    get_devices-IsCounted f muuid (info ∷ rest) devices first h s =
        continue-Yields _ _
          (get_available_nums-Yields api count reporting muuid info.cdi_model_name s)
          λ n e. get_devices-IsCounted f muuid rest _ first (
            All-insert (IsCounted count ids (some f)) info.cdi_model_name _ devices
              (rw first (ap some (sym e))) h)

    -- A fabric that is not found yet is asked of the machines that are left.
    abbrev pub AreLeft : List Machine → Dict ℤ DeviceList → Type 0
    AreLeft machines found =
        (f : ℤ) → contains f found ≡ false → asked_of f ids ≡ asked_of f (identities machines)

    get_fabric-AreAsked :
        (infos : List DeviceInfo) (machine : Machine) (rest : List Machine) (f : ℤ)
        (found : Dict ℤ DeviceList)
        → machine.fabric_id ≡ some f
        → AreLeft (machine ∷ rest) found
        → AreAsked found
        → (s : S)
        → Yields
            (λ out. AreAsked out × AreLeft rest out)
            (get_fabric range api infos machine (some f) found s).0
    unfolding get_fabric
    get_fabric-AreAsked infos machine rest f found e left h s =
        elim (Bool-cases (contains f found)) [
          | inl old ↦
              rw old
                (yields (h, λ g c. left g c ∙ asked_of-other machine rest f g e (ground arith)))
          | inr new ↦ rw new (
              continue-Yields _ _
                (get_devices-IsCounted f machine.machine_uuid infos []
                  (left f new ∙ asked_of-first machine rest f e) tt s)
                λ devices k s'. yields (
                  All-insert (λ e. All (IsCounted count ids (some e.0)) e.1) f devices found k h,
                  λ g c.
                      let (other, before) = absent_before f g devices found c in
                      left g before ∙ asked_of-other machine rest f g e other,
                ))
        ]

    pub get_fabrics-AreAsked :
        (infos : List DeviceInfo) (machines : List Machine) (found : Dict ℤ DeviceList)
        → All HasFabric machines
        → AreLeft machines found
        → AreAsked found
        → (s : S) → Yields AreAsked (get_fabrics range api infos machines found s).0
    unfolding get_fabrics
    get_fabrics-AreAsked infos [] found fabrics left h s = yields h
    get_fabrics-AreAsked infos (machine ∷ rest) found ((f, e), fabrics) left h s =
        let here =
          subst
            (λ o.
              Yields (λ out. AreAsked out × AreLeft rest out)
                (get_fabric range api infos machine o found s).0)
            (sym e) (get_fabric-AreAsked infos machine rest f found e left h s) in
        continue-Yields _ _ here
          λ found' (h', left'). get_fabrics-AreAsked infos rest found' fabrics left' h'
