-- ===== src/Config/Tests.antt =====
-- Runs of pkg/config/config.go at concrete inputs.
use composable_dra_driver.Base.{
  ℕ, ◌+◌, ◌%◌, ◌<◌, arith, ◌≤◌, String, true, false, some, [], ◌∷◌, ok, err, ◌≡◌, ◌↔◌, refl,
  string_eq, none,
}
use composable_dra_driver.Config.Random.{Intn, Draws, random_string, random_string-Draws}
use composable_dra_driver.Base.Dict.{Dict, lookup}
use composable_dra_driver.Base.Text.{byte_length}
use composable_dra_driver.KubeUtils.Objects.{ConfigMap}
use composable_dra_driver.Config.Checks.{
  Validation, Reading, texts, text, get_device_infos, get_label_prefix, has_product_name,
}
use composable_dra_driver.Config.Checks.Accepted.{get_label_prefix-ok}

-- A validation that finds no fault.
abbrev lenient : Validation
lenient = record {
  is_dns1123_label = λ t. [];
  is_dns1123_subdomain = λ t. [];
  is_qualified_name = λ t. [];
}

abbrev entries : Dict String String
entries = ("label-prefix", "cohdi.com") ∷ []

abbrev config_map : ConfigMap
config_map = record { entries = some entries }

get_label_prefix-ok_example : (get_label_prefix lenient config_map ≡ ok "cohdi.com") ↔ (
    (lookup "label-prefix" entries ≡ some "cohdi.com")
    × (lenient.is_dns1123_subdomain "cohdi.com" ≡ [])
    × (byte_length "cohdi.com" ≤ 100))
get_label_prefix-ok_example = get_label_prefix-ok lenient config_map entries "cohdi.com" refl

prefix_read : get_label_prefix lenient config_map ≡ ok "cohdi.com"
unfolding get_label_prefix lookup byte_length
prefix_read = refl

-- A reading that finds no entry and no fault.
abbrev reading : Reading
reading = record { unmarshal = λ t. ok []; struct = λ checks infos. none }

no_device_info : get_device_infos lenient reading config_map ≡ err "configmap device-info is nil"
unfolding get_device_infos lookup
no_device_info = refl

names_product : has_product_name (texts (("productName", "A100") ∷ [])) ≡ true
unfolding has_product_name lookup
names_product = refl

text_names_none : has_product_name (text "A100") ≡ false
unfolding has_product_name
text_names_none = refl

-- A source of random numbers that counts.
abbrev counting : Intn ℕ
counting k s = (s % 9, s + 1)

counting_small : (s : ℕ) → (counting 9 s).0 < 9
counting_small s = omega arith

random_string-Draws_example : Draws 6 (random_string counting 6 4)
random_string-Draws_example = random_string-Draws counting counting_small 6 4

six_digits : (random_string counting 6 4).0 ≡ ok "567891"
unfolding random_string
six_digits = refl
