-- ===== src/Manager/Types.antt =====
-- pkg/manager/manager.go: the manager's data, and the ResourceSlice objects that it builds.
use composable_dra_driver.Base.{String, Bool, List, Option, ℤ}
use composable_dra_driver.Base.Dict.{Dict}
use composable_dra_driver.Config.Types.{DeviceInfo}

pub record CdiOptions : Type 0 where
  pub use_capi_bmh : Bool
  pub use_cm : Bool

pub record Device : Type 0 where
  pub k8s_device_name : String
  pub driver_name : String
  pub dra_attributes : Dict String String
  pub available_device_count : ℤ
  pub min_device_count : Option ℤ
  pub max_device_count : Option ℤ

abbrev pub DeviceList : Type 0
DeviceList = Dict String Device

pub record Machine : Type 0 where
  pub node_name : String
  pub machine_uuid : String
  pub fabric_id : Option ℤ
  pub device_list : DeviceList
  pub node_group_uuid : String

-- The fields of a resourceapi.Device that the driver sets.
pub record ResourceDevice : Type 0 where
  pub name : String
  pub attributes : Dict String String
  pub binds_to_node : Bool
  pub binding_conditions : List String
  pub binding_failure_conditions : List String

-- A requirement `key in values`: the driver uses no other operator.
pub record NodeSelectorRequirement : Type 0 where
  pub key : String
  pub values : List String

pub record Slice : Type 0 where
  pub devices : List ResourceDevice

-- The selector is a list of terms, each a list of requirements; nil is the empty list.
pub record Pool : Type 0 where
  pub node_selector : List (List NodeSelectorRequirement)
  pub slices : List Slice
  pub generation : ℤ

pub record DriverResources : Type 0 where
  pub pools : Dict String Pool

-- namedDriverResources
abbrev pub Resources : Type 0
Resources = Dict String DriverResources

-- What a CDIManager keeps besides `Resources`: it is set once, by StartCDIManager.
pub record Settings : Type 0 where
  pub device_infos : List DeviceInfo
  pub label_prefix : String
  pub options : CdiOptions
