-- ===== src/Client/Types.antt =====
-- pkg/client/types.go: the answers of the CDI components.
use composable_dra_driver.Base.{String, List, Option, ℤ, Action}

pub record ImToken : Type 0 where
  pub access_token : String
  pub expires_in : ℤ

pub record FmMachine : Type 0 where
  pub fabric_id : Option ℤ
  pub machine_uuid : String

pub record FmMachines : Type 0 where
  pub machines : List FmMachine

pub record FmMachineList : Type 0 where
  pub content : FmMachines

pub record FmAvailableReservedResources : Type 0 where
  pub fabric_id : ℤ
  pub reserved_resource_num : ℤ

pub record CmNodeGroup : Type 0 where
  pub uuid : String
  pub name : String

pub record CmNodeGroups : Type 0 where
  pub node_groups : List CmNodeGroup

pub record CmNodeGroupInfo : Type 0 where
  pub uuid : String
  pub name : String
  pub machine_ids : List String

pub record Condition : Type 0 where
  pub column : String
  pub operator : String
  pub value : String

pub record CmExpression : Type 0 where
  pub conditions : List Condition

pub record CmSelector : Type 0 where
  pub expression : CmExpression

pub record CmResSpec : Type 0 where
  pub kind : String
  pub selector : CmSelector
  pub min_res_spec_count : Option ℤ
  pub max_res_spec_count : Option ℤ

pub record CmMachine : Type 0 where
  pub uuid : String
  pub name : String
  pub res_specs : List CmResSpec

pub record CmCluster : Type 0 where
  pub cluster_uuid : String
  pub machine : CmMachine

pub record CmTenant : Type 0 where
  pub tenant_uuid : String
  pub cluster : CmCluster

pub record CmNodeDetails : Type 0 where
  pub content : CmTenant

-- The calls of a CDIClient, as the manager sees them: `S` is the state behind them (the token that
-- is cached, the network, the source of random numbers). The first text is the request's id.
pub record CdiApi (S : Type 0) : Type 0 where
  pub request_id : S → String × S
  pub get_fm_machine_list : String → Action S FmMachineList
  pub get_fm_available_reserved_resources :
      String → String → String → Action S FmAvailableReservedResources
  pub get_cm_node_groups : String → Action S CmNodeGroups
  pub get_cm_node_group_info : String → CmNodeGroup → Action S CmNodeGroupInfo
  pub get_cm_node_details : String → String → Action S CmNodeDetails
