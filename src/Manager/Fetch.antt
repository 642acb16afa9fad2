-- ===== src/Manager/Fetch.antt =====
-- pkg/manager/manager.go: what the manager asks of the caches and of the CDI components.
pub mod Uuids
pub mod Hosts
pub mod Limits
pub mod Safe
pub mod Reporting
pub mod Answers
pub mod Readable
pub mod Tests
use composable_dra_driver.Base.{
  ℤ, pos, ltb_ℤ, String, Bool, ◌&&◌, Option, none, some, List, [], ◌∷◌, Outcome, ok, err, panic,
  Error, Action, and_then, ◌==◌, string_eq, if◌then◌else◌,
}
use composable_dra_driver.Base.Dict.{Dict, insert}
use composable_dra_driver.Base.Text.{◌⧺◌}
use composable_dra_driver.KubeUtils.Objects.{Node}
use composable_dra_driver.KubeUtils.Caches.{Indexer, Accessors}
use composable_dra_driver.KubeUtils.Lookup.{
  list_provider_ids, find_node_name_by_provider_id, find_machine_uuid_by_provider_id,
}
use composable_dra_driver.Client.Context.{
  RequestContext, with_request_id, get_request_id_from_context,
}
use composable_dra_driver.Client.Types.{
  FmMachine, FmMachineList, FmAvailableReservedResources, CmNodeGroup, CmNodeGroups,
  CmNodeGroupInfo, CmNodeDetails, CmResSpec, Condition, CdiApi,
}

-- What the manager's KubeControllers hold: `lister` is what the node lister returns, and there is
-- an index of bare-metal hosts only where their informer was made.
pub record Caches (U : Type 0) : Type 0 where
  pub lister : Outcome (List Node)
  pub nodes : Indexer U
  pub bare_metal_hosts : Option (Indexer U)
  pub fields : Accessors U

module _ {U : Type 0} (use_capi_bmh : Bool) (caches : Caches U) where
  unfoldable pub machine_uuid_of : String → Outcome String
  machine_uuid_of provider_id =
      if use_capi_bmh
      then find_machine_uuid_by_provider_id caches.fields caches.bare_metal_hosts provider_id
      else ok provider_id

  -- One round of the loop: an id with no node, or with no machine, is passed over.
  unfoldable pub add_machine_uuid : String → Dict String String → Outcome (Dict String String)
  unfolding machine_uuid_of
  add_machine_uuid provider_id uuids =
      and_then (find_node_name_by_provider_id caches.nodes provider_id) λ node_name.
        if node_name == ""
        then ok uuids
        else and_then (machine_uuid_of provider_id) λ uuid.
          if use_capi_bmh && uuid == "" then ok uuids else ok (insert node_name uuid uuids)

  unfoldable pub add_machine_uuids : List String → Dict String String → Outcome (Dict String String)
  unfolding add_machine_uuid
  add_machine_uuids [] uuids = ok uuids
  add_machine_uuids (provider_id ∷ rest) uuids =
      and_then (add_machine_uuid provider_id uuids) λ uuids'. add_machine_uuids rest uuids'

  unfoldable pub get_machine_uuids : Outcome (Dict String String)
  unfolding add_machine_uuids
  get_machine_uuids =
      and_then (list_provider_ids caches.lister) λ provider_ids. add_machine_uuids provider_ids []

-- The error of a call is replaced by the manager's own, which carries the request's id.
abbrev report {ℓ} : {A : Type ℓ} → Error → Outcome A → Outcome A
report message (ok a) = ok a
report message (err e) = err message
report message panic = panic

module _ {S : Type 0} (api : CdiApi S) where
  -- A call with a new request id.
  abbrev request {ℓ} : {A : Type ℓ} → String → (String → Action S A) → Action S A
  request failed call s =
      let (id, s') = api.request_id s in
      let ctx = with_request_id id none in
      let (r, s'') = call id s' in
      (report (failed ⧺ ", requestID=" ⧺ get_request_id_from_context ctx) r, s'')

  unfoldable pub get_machine_list : Action S FmMachineList
  get_machine_list = request "FM machine list API failed" api.get_fm_machine_list

  abbrev bounded : RequestContext → Outcome FmAvailableReservedResources → Outcome ℤ
  bounded ctx (ok a) =
      if ltb_ℤ (pos 128) a.reserved_resource_num
      then err (
          "FM available reserved resources exceeds 128, requestID="
          ⧺ get_request_id_from_context ctx)
      else ok a.reserved_resource_num
  bounded ctx (err e) =
      err
        ("FM available reserved resources API failed, requestID=" ⧺ get_request_id_from_context ctx)
  bounded ctx panic = panic

  unfoldable pub get_available_nums : String → String → Action S ℤ
  get_available_nums muuid model s =
      let (id, s') = api.request_id s in
      let (r, s'') = api.get_fm_available_reserved_resources id muuid model s' in
      (bounded (with_request_id id none) r, s'')

  unfoldable pub get_node_groups : Action S CmNodeGroups
  get_node_groups = request "CM node groups API failed" api.get_cm_node_groups

  unfoldable pub get_node_group_info : CmNodeGroup → Action S CmNodeGroupInfo
  get_node_group_info group =
      request "CM node group info API failed" (λ id. api.get_cm_node_group_info id group)

-- The minimum and the maximum that were found so far.
pub record Limit : Type 0 where
  pub min : Option ℤ
  pub max : Option ℤ

abbrev pub or_else : Option ℤ → Option ℤ → Option ℤ
or_else none old = old
or_else (some n) old = some n

unfoldable pub names_model : String → Condition → Bool
names_model model c = c.column == "model" && c.operator == "eq" && c.value == model

unfoldable pub limit_of_conditions : String → CmResSpec → List Condition → Limit → Limit
unfolding names_model
limit_of_conditions model spec [] l = l
limit_of_conditions model spec (c ∷ rest) l = limit_of_conditions model spec rest (
    if names_model model c
    then record {
      min = or_else spec.min_res_spec_count l.min;
      max = or_else spec.max_res_spec_count l.max;
    }
    else l)

unfoldable pub limit_of_specs : String → List CmResSpec → Limit → Limit
unfolding limit_of_conditions
limit_of_specs model [] l = l
limit_of_specs model (spec ∷ rest) l =
    limit_of_specs model rest (limit_of_conditions model spec spec.selector.expression.conditions l)

abbrev limits_in : String → Outcome CmNodeDetails → Outcome Limit
limits_in model (ok d) =
    ok
      (limit_of_specs model d.content.cluster.machine.res_specs (record { min = none; max = none }))
limits_in model (err e) = err e
limits_in model panic = panic

module _ {S : Type 0} (api : CdiApi S) where
  unfoldable pub get_min_max_nums : String → String → Action S Limit
  unfolding limit_of_specs
  get_min_max_nums muuid model s =
      let (r, s') =
        request api "CM node details API failed" (λ id. api.get_cm_node_details id muuid) s in
      (limits_in model r, s')

-- The fabric of the first machine with the uuid.
unfoldable pub fabric_in : List FmMachine → String → Option ℤ
fabric_in [] muuid = none
fabric_in (machine ∷ rest) muuid =
    if machine.machine_uuid == muuid then machine.fabric_id else fabric_in rest muuid

unfoldable pub get_fabric_id : FmMachineList → String → Option ℤ
unfolding fabric_in
get_fabric_id list muuid = fabric_in list.content.machines muuid
