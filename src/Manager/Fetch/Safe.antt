-- ===== src/Manager/Fetch/Safe.antt =====
-- pkg/manager/manager.go: what the fetch functions end with, over CDI components that answer.
use composable_dra_driver.Base.{
  ℕ, none, ◌≤◌, ℤ, pos, ltb_ℤ, String, Outcome, Runs, Post, returns, throws, ◌≡◌, arith, Bool-cases,
  inl, inr,
}
use composable_dra_driver.Client.Context.{RequestContext, with_request_id}
use composable_dra_driver.Client.Types.{
  FmAvailableReservedResources, CmNodeGroup, CmNodeDetails, CdiApi,
}
use composable_dra_driver.Manager.Fetch.{
  report, get_machine_list, bounded, get_available_nums, get_node_groups, get_node_group_info,
  limits_in, get_min_max_nums,
}

abbrev pub Any {ℓ} : {A : Type ℓ} → A → Type 0
Any a = Unit

-- The calls of the client answer or fail, and no number of free devices is negative.
pub record IsAnswering {S : Type 0} (api : CdiApi S) : Type 0 where
  pub machine_list : (id : String) → Runs Any (api.get_fm_machine_list id)
  pub available :
      (id muuid model : String)
      → Runs
          (λ a. (n : ℕ) × (a.reserved_resource_num ≡ pos n))
          (api.get_fm_available_reserved_resources id muuid model)
  pub node_groups : (id : String) → Runs Any (api.get_cm_node_groups id)
  pub node_group_info : (id : String) (g : CmNodeGroup) → Runs Any (api.get_cm_node_group_info id g)
  pub node_details : (id muuid : String) → Runs Any (api.get_cm_node_details id muuid)

report-Post {ℓ} :
    {A : Type ℓ} {P : A → Type 0} {r : Outcome A} (message : String)
    → Post P r
    → Post P (report message r)
report-Post message (returns h) = returns h
report-Post message (throws e) = throws message

-- A count that may be kept.
abbrev pub IsCount : ℤ → Type 0
IsCount z = (n : ℕ) × (z ≡ pos n) × (n ≤ 128)

limits_in-Any :
    (model : String) {r : Outcome CmNodeDetails} → Post Any r → Post Any (limits_in model r)
limits_in-Any model (returns h) = returns tt
limits_in-Any model (throws e) = throws e

module _ {S : Type 0} (api : CdiApi S) (answering : IsAnswering api) where
  bounded-IsCount :
      (ctx : RequestContext) {r : Outcome FmAvailableReservedResources}
      → Post (λ a. (n : ℕ) × (a.reserved_resource_num ≡ pos n)) r
      → Post IsCount (bounded api ctx r)
  bounded-IsCount ctx (returns {a} (n, e)) =
      elim (Bool-cases (ltb_ℤ (pos 128) a.reserved_resource_num)) [
        | inl more ↦ rw more (throws _)
        | inr fits ↦ rw fits (returns (n, e, ground arith))
      ]
  bounded-IsCount ctx (throws e) = throws _

  pub get_machine_list-Any : Runs Any (get_machine_list api)
  unfolding get_machine_list
  get_machine_list-Any s = report-Post _ (answering.machine_list _ _)

  pub get_available_nums-IsCount :
      (muuid model : String) → Runs IsCount (get_available_nums api muuid model)
  unfolding get_available_nums
  get_available_nums-IsCount muuid model s =
      bounded-IsCount (with_request_id (api.request_id s).0 none)
        (answering.available _ muuid model _)

  pub get_node_groups-Any : Runs Any (get_node_groups api)
  unfolding get_node_groups
  get_node_groups-Any s = report-Post _ (answering.node_groups _ _)

  pub get_node_group_info-Any : (group : CmNodeGroup) → Runs Any (get_node_group_info api group)
  unfolding get_node_group_info
  get_node_group_info-Any group s = report-Post _ (answering.node_group_info _ group _)

  pub get_min_max_nums-Any : (muuid model : String) → Runs Any (get_min_max_nums api muuid model)
  unfolding get_min_max_nums
  get_min_max_nums-Any muuid model s =
      limits_in-Any model (report-Post _ (answering.node_details _ muuid _))
