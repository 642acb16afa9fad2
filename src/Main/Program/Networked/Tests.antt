-- ===== src/Main/Program/Networked/Tests.antt =====
-- A run of the whole program with the client over a network.
use composable_dra_driver.Base.{
  pos, false, Option, none, [], ◌∷◌, ok, Error, returns, ◌≡◌, refl, string_eq,
}
use composable_dra_driver.Base.Dict.{lookup, insert}
use composable_dra_driver.Base.Order.{in_order, in_order-IsOrder}
use composable_dra_driver.Base.Text.{byte_length}
use composable_dra_driver.Config.Checks.{get_device_infos, get_label_prefix}
use composable_dra_driver.KubeUtils.Discovery.{kube_controllers_of, is_dra_enabled}
use composable_dra_driver.Client.Token.{Session}
use composable_dra_driver.Client.Calls.{CdiClient, cdi_api}
use composable_dra_driver.Client.Build.{cached_im_token_source}
use composable_dra_driver.Client.Tests.{codec, echo}
use composable_dra_driver.Manager.Fetch.Tests.{
  counting, counting-Reads, codec-IsDecoding, no_entries, fixed_id,
}
use composable_dra_driver.Manager.Loop.Tests.{one_model, can_scan}
use composable_dra_driver.Manager.Serve.{Cluster, Process, Manager, prepare}
use composable_dra_driver.Manager.Serve.Cleaned.{cleaned}
use composable_dra_driver.Manager.Serve.Networked.{
  Surroundings, AreSound, with_client, with_client-IsAnswering,
}
use composable_dra_driver.Manager.Serve.Tests.{config, cluster, turn, lists, two_slices}
use composable_dra_driver.Main.Program.{over}
use composable_dra_driver.Main.Program.Tests.{Prepared, stops}
use composable_dra_driver.Main.Program.Networked.{exits_over_network}

abbrev echoing : Surroundings (Unit {0})
echoing = record {
  network = λ certificate. echo;
  json = counting;
  codec = codec;
  secret = no_entries;
  request_id = fixed_id;
  clock = λ s. pos 0;
}

echoing-AreSound : AreSound echoing
echoing-AreSound = record {
  replying = λ certificate id req s. returns (returns (counting-Reads req.path));
  decoding = codec-IsDecoding;
  secrets = λ s. returns tt;
}

abbrev client : CdiClient
client = record {
  host = config.cdi_endpoint;
  tenant_id = config.tenant_id;
  cluster_id = config.cluster_id;
}

-- The same cluster, for a manager with a session.
abbrev with_session : Cluster (Unit {0}) (Unit {0}) (Session (Unit {0}))
with_session = record {
  access = cluster.access;
  new_core_client = cluster.new_core_client;
  new_bmh_client = cluster.new_bmh_client;
  new_discovery_client = cluster.new_discovery_client;
  indexing = cluster.indexing;
  synced = cluster.synced;
  config_maps = cluster.config_maps;
  secrets = cluster.secrets;
  validation = cluster.validation;
  reading = cluster.reading;
  api = λ c.
      cdi_api echo counting in_order
        (cached_im_token_source echo counting codec c.0 no_entries fixed_id (λ s. pos 0)) c.0
        fixed_id;
  starter = cluster.starter;
  lister = cluster.lister;
  range = in_order;
}

abbrev idle : Process (Session (Unit {0}))
idle = record {
  calls = [];
  world = record {
    cdi = record { token = none; behind = tt };
    publishing = record { resources = []; published = [] };
    updates = [];
  };
  cleanups = [];
}

abbrev manager : Manager (Session (Unit {0}))
manager = record {
  kube_controllers = kube_controllers_of none false;
  cdi_api = (with_client echoing with_session).api (client, "");
  settings = one_model;
  controllers = ("gpu.nvidia.com", record { driver = "gpu.nvidia.com" }) ∷ [];
}

abbrev prepared : Process (Session (Unit {0}))
prepared = (prepare (with_client echoing with_session) config idle).1

prepared_well : prepare (with_client echoing with_session) config idle ≡ (ok manager, prepared)
unfolding prepare lookup insert byte_length get_device_infos get_label_prefix is_dra_enabled
prepared_well = refl

abbrev networked : Prepared (Session (Unit {0}))
networked = record {
  cluster = with_client echoing with_session;
  start = idle;
  manager = manager;
  prepared = prepared;
  well = prepared_well;
  order = in_order-IsOrder;
  listed = lists;
  answering = with_client-IsAnswering echoing with_session echoing-AreSound (client, "");
  turn = turn;
  can = (in_order-IsOrder, can_scan);
}

exits_over_network_example :
    (◌≡◌ {A = Option Error} none none)
    × ((stops networked).0.stage
        ≡ over (ok tt) (cleaned in_order two_slices manager (turn ∷ []) prepared))
exits_over_network_example =
    exits_over_network echoing with_session config idle in_order-IsOrder lists none manager prepared
      echoing-AreSound (stops networked).1 (stops networked).2 prepared_well
      ((in_order-IsOrder, can_scan), tt)
