-- ===== src/KubeUtils/Discovery/Informers.antt =====
-- pkg/kube_utils/kube_utils.go: which caches the driver waits for.
use mathlib.Core.List.{append_assoc}
use composable_dra_driver.Base.{
  Bool, false, List, [], ◌∷◌, ◌++◌, ok, err, ◌≡◌, ap, arith, if◌then◌else◌, string_eq,
}
use composable_dra_driver.KubeUtils.Discovery.{
  DiscoveryClient, Indexing, KubeControllers, create_kube_controllers, run, Call, start_core,
  start_bmh, wait_for, nodes, config_maps, secrets, Informer,
}

-- Whatever is asked for and found, the controllers that are created say that there are no
-- bare-metal hosts: the flag that is set is another one, of the inner block.
create_kube_controllers_fields :
    (client : DiscoveryClient) (indexing : Indexing) (use_capi_bmh : Bool) {kc : KubeControllers}
    → create_kube_controllers client indexing use_capi_bmh ≡ ok kc
    → (kc.bmh_available ≡ false)
      × (kc.node_informer ≡ nodes)
      × (kc.config_map_informer ≡ config_maps)
      × (kc.secret_informer ≡ secrets)
unfolding create_kube_controllers
create_kube_controllers_fields client indexing use_capi_bmh e = ground arith

-- The controllers that are created start both factories and wait for the caches of nodes, config
-- maps and secrets, and never for that of the bare-metal hosts, also where it is used; they fail
-- exactly if those three do not sync.
pub run-create_kube_controllers :
    (client : DiscoveryClient) (indexing : Indexing) (use_capi_bmh : Bool)
    (synced : List Informer → Bool) (calls : List Call) {kc : KubeControllers}
    → create_kube_controllers client indexing use_capi_bmh ≡ ok kc
    → run synced kc calls ≡ (
      if synced (nodes ∷ config_maps ∷ secrets ∷ []) then ok tt else err "syncing caches failed",
      calls ++ start_core ∷ start_bmh ∷ wait_for (nodes ∷ config_maps ∷ secrets ∷ []) ∷ [],
    )
unfolding run
run-create_kube_controllers client indexing use_capi_bmh synced calls {kc} e =
    let f = create_kube_controllers_fields client indexing use_capi_bmh e in
    rw (f.0, f.1, f.2, f.3)
      (ap
        (λ (c : List Call). (
          (if synced (nodes ∷ config_maps ∷ secrets ∷ [])
              then ok tt
              else err "syncing caches failed"),
          c,
        ))
        (append_assoc calls (start_core ∷ start_bmh ∷ [])
          (wait_for (nodes ∷ config_maps ∷ secrets ∷ []) ∷ [])))
