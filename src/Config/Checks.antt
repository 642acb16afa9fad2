-- ===== src/Config/Checks.antt =====
-- pkg/config/config.go: what is read from the ConfigMap, and its checks.
pub mod Unique
pub mod Accepted
use composable_dra_driver.Base.{
  ℕ, suc, zero, ltb, String, Bool, true, false, Option, none, some, List, [], ◌∷◌, ◌++◌, Outcome,
  ok, err, panic, Error, and_then, if◌then◌else◌, string_eq,
}
use composable_dra_driver.Base.Dict.{Dict, lookup, contains}
use composable_dra_driver.Base.Text.{◌⧺◌, byte_length}
use composable_dra_driver.KubeUtils.Objects.{ConfigMap}
use composable_dra_driver.Config.Types.{DeviceInfo}

abbrev pub device_info_key : String
device_info_key = "device-info"

abbrev pub label_prefix_key : String
label_prefix_key = "label-prefix"

-- apimachinery's validation: the complaints about a text.
pub record Validation : Type 0 where
  pub is_dns1123_label : String → List String
  pub is_dns1123_subdomain : String → List String
  pub is_qualified_name : String → List String

-- The value of a field as the validator hands it over: a text, a map of texts, or a value of
-- another type, which is named.
pub data Field : Type 0 where
  text : String → Field
  texts : Dict String String → Field
  other : String → Field

-- yaml.Unmarshal into the list, and validate.Struct with the checks that are registered by name: nil,
-- or an error.
pub record Reading : Type 0 where
  pub unmarshal : String → Outcome (List DeviceInfo)
  pub struct : Dict String (Field → Bool) → List DeviceInfo → Option Error

-- reflect's String of a field: the text itself, and a description of another value.
abbrev field_text : Field → String
field_text (text t) = t
field_text (texts m) = "<map[string]string Value>"
field_text (other t) = "<" ⧺ t ⧺ " Value>"

abbrev no_complaint : List String → Bool
no_complaint [] = true
no_complaint (e ∷ rest) = false

unfoldable pub validate_dns_label : Validation → Field → Bool
validate_dns_label v field = no_complaint (v.is_dns1123_label (field_text field))

unfoldable pub validate_dns_subdomain : Validation → Field → Bool
validate_dns_subdomain v field = no_complaint (v.is_dns1123_subdomain (field_text field))

unfoldable pub is_qualified_name : Validation → Field → Bool
is_qualified_name v field = no_complaint (v.is_qualified_name (field_text field))

unfoldable pub has_product_name : Field → Bool
has_product_name (texts m) = contains "productName" m
has_product_name _ = false

abbrev pub registered : Validation → Dict String (Field → Bool)
registered v =
    ("is-dns", validate_dns_label v)
    ∷ ("is-dnsSubdomain", validate_dns_subdomain v)
    ∷ ("is-qualifiedName", is_qualified_name v)
    ∷ ("has-productName", has_product_name)
    ∷ []

abbrev pub checked : Option Error → List DeviceInfo → Outcome (List DeviceInfo)
checked none infos = ok infos
checked (some e) infos = err e

unfoldable pub get_device_infos : Validation → Reading → ConfigMap → Outcome (List DeviceInfo)
get_device_infos v reading cm = elim cm.entries [
  | none ↦ err "configmap data is nil"
  | some entries ↦ elim (lookup device_info_key entries) [
    | none ↦ err "configmap device-info is nil"
    | some found ↦
        and_then (reading.unmarshal found)
          λ infos. checked (reading.struct (registered v) infos) infos
  ]
]

-- The complaints about a label prefix.
abbrev pub prefix_complaints : Validation → String → List String
prefix_complaints v prefix =
    v.is_dns1123_subdomain prefix
    ++ (if ltb 100 (byte_length prefix) then "label-prefix length exceeds 100B" ∷ [] else [])

unfoldable pub get_label_prefix : Validation → ConfigMap → Outcome String
get_label_prefix v cm = elim cm.entries [
  | none ↦ err "configmap data is nil"
  | some entries ↦ elim (lookup label_prefix_key entries) [
    | none ↦ err "configmap label-prefix is nil"
    | some prefix ↦
        if no_complaint (prefix_complaints v prefix)
        then ok prefix
        else err "label-prefix validation error"
  ]
]
