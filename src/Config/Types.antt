-- ===== src/Config/Types.antt =====
-- pkg/config/config.go: the settings of the command line and the entries of the ConfigMap.
use composable_dra_driver.Base.{String, Bool, List, ℤ}
use composable_dra_driver.Base.Dict.{Dict}

-- One entry of the ConfigMap's device-info.
pub record DeviceInfo : Type 0 where
  pub index : ℤ
  pub cdi_model_name : String
  pub dra_attributes : Dict String String
  pub driver_name : String
  pub k8s_device_name : String
  pub cannot_coexist_with : List ℤ

-- Nanoseconds stand for a time.Duration.
pub record Config : Type 0 where
  pub log_level : ℤ
  pub scan_interval : ℤ
  pub tenant_id : String
  pub cluster_id : String
  pub cdi_endpoint : String
  pub use_capi_bmh : Bool
  pub use_cm : Bool
