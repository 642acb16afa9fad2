-- ===== src/KubeUtils/Discovery.antt =====
-- pkg/kube_utils/kube_utils.go: which resources the API server has, and the start of the informers.
pub mod Informers
use composable_dra_driver.Base.{
  String, Bool, true, false, Option, none, some, List, [], ◌∷◌, ◌++◌, Outcome, ok, err, panic,
  Error, Action, ◌==◌, string_eq, if◌then◌else◌, continue,
}
use composable_dra_driver.Base.Text.{◌⧺◌}

abbrev metal3_api_group : String
metal3_api_group = "metal3.io"

abbrev metal3_api_version : String
metal3_api_version = "v1alpha1"

abbrev bare_metal_host_resource_name : String
bare_metal_host_resource_name = "baremetalhosts"

abbrev dra_api_group : String
dra_api_group = "resource.k8s.io"

abbrev dra_api_version : String
dra_api_version = "v1"

abbrev resource_slice_resource_name : String
resource_slice_resource_name = "resourceslices"

-- client-go's discovery client: the names of the resources of a group and version. A parameter.
abbrev pub DiscoveryClient : Type 0
DiscoveryClient = String → Outcome (List String)

unfoldable pub has_resource : String → List String → Bool
has_resource name [] = false
has_resource name (r ∷ rest) = if r == name then true else has_resource name rest

unfoldable pub group_version_has_resource : DiscoveryClient → String → String → Outcome Bool
unfolding has_resource
group_version_has_resource client group_version name = elim (client group_version) [
  | ok resources ↦ ok (has_resource name resources)
  | err e ↦ err e
  | panic ↦ panic
]

abbrev or_false : Outcome Bool → Outcome Bool
or_false (err e) = ok false
or_false r = r

unfoldable pub is_dra_enabled : DiscoveryClient → Outcome Bool
unfolding group_version_has_resource
is_dra_enabled client = or_false (
    group_version_has_resource client (dra_api_group ⧺ "/" ⧺ dra_api_version)
      resource_slice_resource_name)

pub data Informer : Type 0 where
  nodes config_maps secrets bare_metal_hosts : Informer

pub record KubeControllers : Type 0 where
  pub node_informer : Informer
  pub config_map_informer : Informer
  pub secret_informer : Informer
  pub bmh_informer : Option Informer
  pub bmh_available : Bool

-- What client-go answers to AddIndexers: nil, or an error.
pub record Indexing : Type 0 where
  pub add_node_indexers : Option Error
  pub add_bmh_indexers : Option Error

abbrev pub kube_controllers_of : Option Informer → Bool → KubeControllers
kube_controllers_of bmh available = record {
  node_informer = nodes;
  config_map_informer = config_maps;
  secret_informer = secrets;
  bmh_informer = bmh;
  bmh_available = available;
}

-- The informer that the branch `if useCapiBmh` leaves behind. Its `bmhAvailable` is declared in the
-- branch, by `:=`, and ends with it.
unfoldable pub bmh_informer_of : Indexing → Outcome Bool → Outcome (Option Informer)
bmh_informer_of indexing (err e) = err e
bmh_informer_of indexing panic = panic
bmh_informer_of indexing (ok false) = ok none
bmh_informer_of indexing (ok true) = elim indexing.add_bmh_indexers [
  | none ↦ ok (some bare_metal_hosts)
  | some e ↦ err e
]

abbrev created : Bool → Outcome (Option Informer) → Outcome KubeControllers
created available (ok bmh) = ok (kube_controllers_of bmh available)
created available (err e) = err e
created available panic = panic

-- The outer `bmhAvailable` is declared and not assigned.
unfoldable pub create_kube_controllers : DiscoveryClient → Indexing → Bool → Outcome KubeControllers
unfolding bmh_informer_of group_version_has_resource
create_kube_controllers client indexing use_capi_bmh = elim indexing.add_node_indexers [
  | some e ↦ err e
  | none ↦
      let bmh_available = false in
      created bmh_available (
        if use_capi_bmh
        then bmh_informer_of indexing (
            group_version_has_resource client (metal3_api_group ⧺ "/" ⧺ metal3_api_version)
              bare_metal_host_resource_name)
        else ok none)
]

-- The calls of client-go that Run makes.
pub data Call : Type 0 where
  start_core start_bmh : Call
  wait_for : List Informer → Call

abbrev sync_bmh : Bool → Option Informer → Outcome (List Informer)
sync_bmh false bmh = ok []
sync_bmh true none = panic
sync_bmh true (some i) = ok (i ∷ [])

abbrev await : (List Informer → Bool) → List Informer → Action (List Call) (Unit {0})
await synced informers calls = (
  if synced informers then ok tt else err "syncing caches failed",
  calls ++ wait_for informers ∷ [],
)

-- `synced` is what cache.WaitForCacheSync answers for these informers.
unfoldable pub run : (List Informer → Bool) → KubeControllers → Action (List Call) (Unit {0})
run synced kc calls =
    continue (sync_bmh kc.bmh_available kc.bmh_informer)
      (λ bmh. await synced (kc.node_informer ∷ kc.config_map_informer ∷ kc.secret_informer ∷ bmh))
      (calls ++ start_core ∷ start_bmh ∷ [])
