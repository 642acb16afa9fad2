-- ===== src/Manager/Collect/Devices.antt =====
-- pkg/manager/manager.go: the device list of a fabric, against the entries of the ConfigMap.
use composable_dra_driver.Base.{
  String, Bool, true, false, Option, none, some, List, [], ◌∷◌, Runs, >>=-Runs, weaken, returns,
  ◌≡◌, refl, ◌∙◌, string_eq, ◌==◌, if◌then◌else◌,
}
use composable_dra_driver.Base.Dict.{lookup, insert, Distinct, insert-Distinct, lookup-insert}
use composable_dra_driver.Base.Order.{Range}
use composable_dra_driver.Config.Types.{DeviceInfo}
use composable_dra_driver.Client.Types.{CdiApi}
use composable_dra_driver.Manager.Types.{Device, DeviceList}
use composable_dra_driver.Manager.Fetch.Safe.{IsAnswering, IsCount, get_available_nums-IsCount}
use composable_dra_driver.Manager.Fetch.{get_available_nums}
use composable_dra_driver.Manager.Collect.{get_devices}

-- The last entry of a model.
abbrev pub later : Option DeviceInfo → Option DeviceInfo → Option DeviceInfo
later none first = first
later (some i) first = some i

abbrev pub info_of : String → List DeviceInfo → Option DeviceInfo
info_of model [] = none
info_of model (i ∷ rest) =
    later (info_of model rest) (if i.cdi_model_name == model then some i else none)

-- The device is made from the entry, with a count that may be kept; its bounds are free.
pub record IsMadeFrom (i : DeviceInfo) (d : Device) : Type 0 where
  pub named : d.k8s_device_name ≡ i.k8s_device_name
  pub driven : d.driver_name ≡ i.driver_name
  pub attributed : d.dra_attributes ≡ i.dra_attributes
  pub counted : IsCount d.available_device_count

-- What is found under a model, for its entry, over what was there before.
abbrev pub Shows : Option DeviceInfo → Option Device → Option Device → Type 0
Shows none before found = found ≡ before
Shows (some i) before found = (d : Device) × (found ≡ some d) × IsMadeFrom i d

-- The list has one device for each model of the entries, made from its last entry, and no others.
pub record Lists (infos : List DeviceInfo) (devices : DeviceList) : Type 0 where
  pub distinct : Distinct devices
  pub shows : (model : String) → Shows (info_of model infos) none (lookup model devices)

Shows-later :
    (o : Option DeviceInfo) (test : Bool) (i : DeviceInfo) (d : Device)
    (before between found : Option Device)
    → IsMadeFrom i d
    → between ≡ (if test then some d else before)
    → Shows o between found
    → Shows (later o (if test then some i else none)) before found
Shows-later none true i d before between found made e h = (d, h ∙ e, made)
Shows-later none false i d before between found made e h = h ∙ e
Shows-later (some j) test i d before between found made e h = h

module _ {S : Type 0} (range : Range) (api : CdiApi S) (answering : IsAnswering api)
    (muuid : String) where
  -- What the loop makes of a list that is there.
  abbrev Extends : List DeviceInfo → DeviceList → DeviceList → Type 0
  Extends infos before devices =
      Distinct devices
      × ((model : String)
          → Shows (info_of model infos) (lookup model before) (lookup model devices))

  get_devices-Extends :
      (infos : List DeviceInfo) (before : DeviceList)
      → Distinct before
      → Runs (Extends infos before) (get_devices range api muuid infos before)
  unfolding get_devices
  get_devices-Extends [] before d s = returns (d, λ model. refl)
  get_devices-Extends (i ∷ rest) before d s =
      (>>=-Runs (get_available_nums api muuid i.cdi_model_name) _
          (get_available_nums-IsCount api answering muuid i.cdi_model_name)
          λ n count s'.
            let device : Device = record {
              k8s_device_name = i.k8s_device_name;
              driver_name = i.driver_name;
              dra_attributes = i.dra_attributes;
              available_device_count = n;
              min_device_count = none;
              max_device_count = none;
            } in
            let made : IsMadeFrom i device = record {
              named = refl;
              driven = refl;
              attributed = refl;
              counted = count;
            } in
            weaken
              (λ devices (distinct, h). (
                distinct,
                λ model.
                    Shows-later (info_of model rest) (i.cdi_model_name == model) i device _ _ _ made
                      (lookup-insert i.cdi_model_name model device before) (h model),
              ))
              (get_devices-Extends rest (insert i.cdi_model_name device before)
                (insert-Distinct i.cdi_model_name device before d) s'))
        s

  pub get_devices-Lists :
      (infos : List DeviceInfo) → Runs (Lists infos) (get_devices range api muuid infos [])
  unfolding lookup
  get_devices-Lists infos s =
      weaken (λ devices (d, h). record { distinct = d; shows = h })
        (get_devices-Extends infos [] tt s)
