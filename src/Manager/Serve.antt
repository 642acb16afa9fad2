-- ===== src/Manager/Serve.antt =====
-- pkg/manager/manager.go: StartCDIManager, from the clients to the cleanup; and NewClientConfig of
-- pkg/kube_utils/kube_utils.go, with which it begins.
pub mod Turns
pub mod Advertised
pub mod Made
pub mod Published
pub mod Tests
pub mod Cleaned
pub mod Prepared
pub mod Networked
use composable_dra_driver.Base.{
  ℕ, ◌*◌, Bool, String, Option, none, some, List, [], ◌∷◌, Outcome, ok, err, panic, Error, Action,
  pure, lift, ◌>>=◌, ◌>>◌, and_then, map,
}
use mathlib.Core.Option
use composable_dra_driver.Base.Order.{Range}
use composable_dra_driver.Config.Types.{Config}
use composable_dra_driver.Client.Token.{secret_key}
use composable_dra_driver.Config.Checks.{Validation, Reading}
use composable_dra_driver.KubeUtils.Objects.{Node, Object}
use composable_dra_driver.KubeUtils.Caches.{Indexer, Accessors, get_config_map, get_secret}
use composable_dra_driver.KubeUtils.Discovery.{
  DiscoveryClient, Indexing, KubeControllers, Informer, Call, create_kube_controllers, run,
}
use composable_dra_driver.Client.Types.{CdiApi}
use composable_dra_driver.Client.Calls.{CdiClient}
use composable_dra_driver.Client.Build.{build_cdi_client}
use composable_dra_driver.Manager.Types.{Resources, Settings}
use composable_dra_driver.Manager.Slices.{Controllers}
use composable_dra_driver.Manager.Fetch.{Caches}
use composable_dra_driver.Manager.Labels.{Answer}
use composable_dra_driver.Manager.Loop.{World, check_resource_pool}
use composable_dra_driver.Manager.Start.{
  Starter, Lister, Cleanups, read_settings, init_driver_resources, start_resource_slice_controller,
  cleanup_resource_slices,
}

-- A rest.Config: its Timeout, in nanoseconds, and the rest, which the driver does not read.
pub record RestConfig (K : Type 0) : Type 0 where
  pub others : K
  pub timeout : ℕ

abbrev kube_client_time_out : ℕ
kube_client_time_out = 30 * 1000000000

-- client-go's rest.InClusterConfig, clientcmd.BuildConfigFromFlags of a path, and the path of the
-- local configuration, which homedir and filepath make up.
pub record Access (K : Type 0) : Type 0 where
  pub in_cluster_config : Outcome (RestConfig K)
  pub build_config_from_flags : String → Outcome (RestConfig K)
  pub kube_config_path : String

abbrev or_local : {K : Type 0} → Access K → Outcome (RestConfig K) → Outcome (RestConfig K)
or_local access (err e) = access.build_config_from_flags access.kube_config_path
or_local access r = r

unfoldable pub new_client_config : {K : Type 0} → Access K → Outcome (RestConfig K)
new_client_config access =
    and_then (or_local access access.in_cluster_config)
      λ config. ok (record config { timeout = kube_client_time_out })

abbrev pub config_map_name : String
config_map_name = "composable-dra/composable-dra-dds"

-- What StartCDIManager meets: how clients are made, the answers of the API server, the caches of
-- config maps and secrets once they are synced, the parsers, and the calls of the CDI components that
-- a client makes.
pub record Cluster (K U S : Type 0) : Type 1 where
  pub access : Access K
  pub new_core_client : RestConfig K → Option Error
  pub new_bmh_client : RestConfig K → Option Error
  pub new_discovery_client : RestConfig K → Outcome DiscoveryClient
  pub indexing : Indexing
  pub synced : List Informer → Bool
  pub config_maps : Indexer U
  pub secrets : Indexer U
  pub validation : Validation
  pub reading : Reading
  pub api : CdiClient × String → CdiApi S
  pub starter : Starter
  pub lister : Lister
  pub range : Range

-- One turn of the loop: what the caches hold then, how the API server answers to updates of nodes,
-- and the order of iteration.
pub record Turn (U : Type 0) : Type 1 where
  pub lister : Outcome (List Node)
  pub nodes : Indexer U
  pub hosts : Indexer U
  pub fields : Accessors U
  pub answer : Answer
  pub range : Range

-- The caches of a turn: there is an index of bare-metal hosts where there is an informer of them.
abbrev pub caches_of : {U : Type 0} → KubeControllers → Turn U → Caches U
caches_of kc turn = record {
  lister = turn.lister;
  nodes = turn.nodes;
  bare_metal_hosts = Option.map (λ i. turn.hosts) kc.bmh_informer;
  fields = turn.fields;
}

-- What the manager changes: the informers, what the scans change, and the cleanup.
pub record Process (S : Type 0) : Type 0 where
  pub calls : List Call
  pub world : World S
  pub cleanups : Cleanups

-- What the loop and the cleanup use of the manager.
pub record Manager (S : Type 0) : Type 0 where
  pub kube_controllers : KubeControllers
  pub cdi_api : CdiApi S
  pub settings : Settings
  pub controllers : Controllers

-- The error that a constructor returns, or nil.
abbrev unless_error {ℓ} : {A : Type ℓ} → Option Error → Outcome A → Outcome A
unless_error none next = next
unless_error (some e) next = err e

module _ {S : Type 0} where
  abbrev pub on_calls {ℓ} : {A : Type ℓ} → Action (List Call) A → Action (Process S) A
  on_calls act p = let (r, calls) = act p.calls in (r, record p { calls = calls })

  abbrev pub on_world {ℓ} : {A : Type ℓ} → Action (World S) A → Action (Process S) A
  on_world act p = let (r, world) = act p.world in (r, record p { world = world })

  -- The map of resources that the manager is built with.
  abbrev pub set_resources : Resources → Action (Process S) (Unit {0})
  set_resources resources p = (
    ok tt,
    record p {
      world = record p.world { publishing = record p.world.publishing { resources = resources } };
    },
  )

module _ {K U S : Type 0} (cluster : Cluster K U S) (cfg : Config) where
  -- The clients of the API server, and the controllers of its caches.
  unfoldable pub connect : Outcome (DiscoveryClient × KubeControllers)
  unfolding new_client_config create_kube_controllers
  connect = and_then (new_client_config cluster.access) λ kconfig.
      unless_error (cluster.new_core_client kconfig) (
        unless_error (cluster.new_bmh_client kconfig) (
          and_then (cluster.new_discovery_client kconfig) λ client.
            and_then (create_kube_controllers client cluster.indexing cfg.use_capi_bmh)
              λ kc. ok (client, kc)))

  -- The client of the CDI components and the settings, from the secret and the ConfigMap.
  unfoldable pub configure : Outcome ((CdiClient × String) × Settings)
  unfolding build_cdi_client get_secret get_config_map read_settings
  configure = and_then (build_cdi_client cfg (get_secret cluster.secrets secret_key)) λ cdi_client.
      and_then
        (read_settings cluster.validation cluster.reading cfg
          (get_config_map cluster.config_maps config_map_name))
        λ m. ok (cdi_client, m)

  unfoldable pub start_manager :
      DiscoveryClient → KubeControllers → CdiClient × String → Settings → Outcome (Manager S)
  unfolding start_resource_slice_controller init_driver_resources
  start_manager client kc cdi_client m =
      and_then
        (start_resource_slice_controller cluster.range client cluster.starter
          (init_driver_resources m.device_infos))
        λ controllers. ok (record {
          kube_controllers = kc;
          cdi_api = cluster.api cdi_client;
          settings = m;
          controllers = controllers;
        })

  -- StartCDIManager up to the defer: the manager with its controllers.
  unfoldable pub prepare : Action (Process S) (Manager S)
  unfolding connect run configure init_driver_resources start_manager
  prepare = do
    (client, kc) ← lift connect
    on_calls (run cluster.synced kc)
    (cdi_client, m) ← lift configure
    set_resources (init_driver_resources m.device_infos)
    lift (start_manager client kc cdi_client m)

-- An error of a scan is logged, and the loop goes on; a panic goes through it.
abbrev logged : Outcome (Unit {0}) → Outcome (Unit {0})
logged (err e) = ok tt
logged r = r

-- A deferred call comes last whatever happened, and its panic is the function's.
abbrev pub deferred : Outcome (Unit {0}) → Outcome (Unit {0}) → Outcome (Unit {0})
deferred r panic = panic
deferred r (ok u) = r
deferred r (err e) = r

module _ {U S : Type 0} (m : Manager S) where
  unfoldable pub one_turn : Turn U → Action (World S) (Unit {0})
  unfolding check_resource_pool
  one_turn turn world =
      let (r, after) =
        check_resource_pool turn.range m.cdi_api (caches_of m.kube_controllers turn) turn.answer
          m.settings m.controllers world in
      (logged r, after)

  -- wait.Until, for as many turns as come before the stop channel is closed.
  unfoldable pub loop : List (Turn U) → Action (World S) (Unit {0})
  unfolding one_turn
  loop [] = pure tt
  loop (turn ∷ rest) = do one_turn turn; loop rest

  -- The loop, and the deferred cleanup with the resources that are there then.
  unfoldable pub serve : Range → Lister → List (Turn U) → Action (Process S) (Unit {0})
  unfolding loop cleanup_resource_slices
  serve range list turns p =
      let (r, world) = loop turns p.world in
      let (r', cleanups) =
        cleanup_resource_slices range list world.publishing.resources m.controllers p.cleanups in
      (deferred r r', record p { world = world; cleanups = cleanups })

unfoldable pub start_cdi_manager :
    {K U S : Type 0} → Cluster K U S → Config → List (Turn U) → Action (Process S) (Unit {0})
unfolding prepare serve
start_cdi_manager cluster cfg turns = do
  m ← prepare cluster cfg
  serve m cluster.range cluster.lister turns
