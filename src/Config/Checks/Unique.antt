-- ===== src/Config/Checks/Unique.antt =====
-- pkg/config/config.go: what `unique=K8sDeviceName` of DeviceInfoList asks of the entries.
use composable_dra_driver.Base.{
  String, Bool, Option, none, some, List, [], ◌∷◌, All, ok, and_then-ok, ok_inj, ◌≡◌, ◌≢◌, refl,
  subst, inl, inr, Option-cases, string_eq,
}
use composable_dra_driver.Base.Dict.{Dict, lookup}
use composable_dra_driver.Config.Types.{DeviceInfo}
use composable_dra_driver.Config.Checks.{
  device_info_key, Field, Validation, Reading, checked, registered, get_device_infos,
}
use composable_dra_driver.KubeUtils.Objects.{ConfigMap}

-- No two entries have the same device name.
abbrev pub AreUnique : List DeviceInfo → Type 0
AreUnique [] = Unit
AreUnique (i ∷ rest) = All (λ j. j.k8s_device_name ≢ i.k8s_device_name) rest × AreUnique rest

-- go-playground/validator: where validate.Struct finds no fault, the tag `unique=K8sDeviceName` holds.
abbrev pub IsStrict : Reading → Type 0
IsStrict reading =
    (checks : Dict String (Field → Bool)) (infos : List DeviceInfo)
    → reading.struct checks infos ≡ none
    → AreUnique infos

checked-ok :
    (o : Option String) (infos found : List DeviceInfo)
    → checked o infos ≡ ok found
    → (o ≡ none) × (infos ≡ found)
checked-ok none infos found e = (refl, ok_inj e)
checked-ok (some f) infos found e = cc e

pub get_device_infos-AreUnique :
    (v : Validation) (reading : Reading) (cm : ConfigMap) (infos : List DeviceInfo)
    → IsStrict reading
    → get_device_infos v reading cm ≡ ok infos
    → AreUnique infos
unfolding get_device_infos
get_device_infos-AreUnique v reading cm infos strict e = elim (Option-cases cm.entries) [
  | inl absent ↦ cc (rw (absent, get_device_infos) at e)
  | inr (entries, there) ↦ elim (Option-cases (lookup device_info_key entries)) [
    | inl missing ↦ cc (rw (there, missing, get_device_infos) at e)
    | inr (text, found) ↦
        let (all, _, rest) =
          and_then-ok (reading.unmarshal text)
            (λ infos. checked (reading.struct (registered v) infos) infos)
            (rw (there, found, get_device_infos) at e) in
        let (faultless, same) = checked-ok (reading.struct (registered v) all) all infos rest in
        subst AreUnique same (strict (registered v) all faultless)
  ]
]
