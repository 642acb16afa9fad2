-- ===== src/KubeUtils/Tests.antt =====
-- Runs of pkg/kube_utils/kube_utils.go at concrete inputs.
use composable_dra_driver.Base.{Bool, true, false, none, some, List, [], ◌∷◌, ok, ◌≡◌, refl}
use composable_dra_driver.KubeUtils.Discovery.{
  DiscoveryClient, Indexing, KubeControllers, create_kube_controllers, run, start_core, start_bmh,
  wait_for, nodes, config_maps, secrets, bare_metal_hosts, Informer,
}
use composable_dra_driver.KubeUtils.Discovery.Informers.{run-create_kube_controllers}

abbrev indexing : Indexing
indexing = record { add_node_indexers = none; add_bmh_indexers = none }

-- An API server with bare-metal hosts, and one without.
abbrev with_hosts : DiscoveryClient
with_hosts version = ok ("baremetalhosts" ∷ [])

abbrev without_hosts : DiscoveryClient
without_hosts version = ok ("firmwareschemas" ∷ [])

abbrev with_bmh : KubeControllers
with_bmh = record {
  node_informer = nodes;
  config_map_informer = config_maps;
  secret_informer = secrets;
  bmh_informer = some bare_metal_hosts;
  bmh_available = false;
}

hosts_created : create_kube_controllers with_hosts indexing true ≡ ok with_bmh
unfolding create_kube_controllers
hosts_created = refl

abbrev all_synced : List Informer → Bool
all_synced informers = true

-- The informer of bare-metal hosts is there, and its cache is not waited for.
run-create_kube_controllers_example :
    run all_synced with_bmh []
    ≡ (ok tt, start_core ∷ start_bmh ∷ wait_for (nodes ∷ config_maps ∷ secrets ∷ []) ∷ [])
run-create_kube_controllers_example =
    run-create_kube_controllers with_hosts indexing true all_synced [] hosts_created
