-- ===== src/Config/Checks/Accepted.antt =====
-- pkg/config/config.go: which contents of the ConfigMap are accepted.
use composable_dra_driver.Base.{
  ◌≤◌, ltb, String, Bool, true, false, some, List, [], ◌∷◌, ◌++◌, ok, ◌≡◌, ◌↔◌, arith, Option-cases,
  inl, inr, if◌then◌else◌, string_eq,
}
use composable_dra_driver.Base.Dict.{Dict, lookup}
use composable_dra_driver.Base.Text.{byte_length}
use composable_dra_driver.KubeUtils.Objects.{ConfigMap}
use composable_dra_driver.Config.Checks.{
  label_prefix_key, Validation, no_complaint, prefix_complaints, get_label_prefix,
}

no_complaint_with :
    (xs : List String) (long : Bool) (complaint : String)
    → (no_complaint (xs ++ (if long then complaint ∷ [] else [])) ≡ true)
      ↔ ((xs ≡ []) × (long ≡ false))
no_complaint_with [] true complaint = ground arith
no_complaint_with [] false complaint = ground arith
no_complaint_with (x ∷ xs) long complaint = ground arith

prefix_complaints_iff :
    (v : Validation) (prefix : String)
    → (no_complaint (prefix_complaints v prefix) ≡ true)
      ↔ ((v.is_dns1123_subdomain prefix ≡ []) × (byte_length prefix ≤ 100))
prefix_complaints_iff v prefix =
    let both = no_complaint_with (v.is_dns1123_subdomain prefix) (ltb 100 (byte_length prefix)) _ in
    (λ h. ((both.0 h).0, ground (arith, (both.0 h).1)), λ h. both.1 (h.0, ground (arith, h.1)))

-- Of a ConfigMap with data a label prefix is read exactly if it is there, it is a DNS subdomain,
-- and it has at most a hundred bytes.
pub get_label_prefix-ok :
    (v : Validation) (cm : ConfigMap) (entries : Dict String String) (prefix : String)
    → cm.entries ≡ some entries
    → (get_label_prefix v cm ≡ ok prefix) ↔ (
        (lookup label_prefix_key entries ≡ some prefix)
        × (v.is_dns1123_subdomain prefix ≡ [])
        × (byte_length prefix ≤ 100))
unfolding get_label_prefix
get_label_prefix-ok v cm entries prefix e = elim (Option-cases (lookup label_prefix_key entries)) [
  | inl missing ↦ ground (arith, e, missing)
  | inr (found, p) ↦ ground (arith, e, p, prefix_complaints_iff v found)
]
