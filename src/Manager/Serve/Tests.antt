-- ===== src/Manager/Serve/Tests.antt =====
-- Runs of StartCDIManager of pkg/manager/manager.go at concrete inputs.
use composable_dra_driver.Base.{
  ℕ, Bool-cases, inl, inr, subst, ◌==◌, Option, List, pos, String, true, false, none, some, [], ◌∷◌,
  Outcome, ok, err, Error, ◌≡◌, ◌≢◌, refl, string_eq,
}
use composable_dra_driver.Base.Dict.{lookup, insert, Distinct}
use composable_dra_driver.Base.Order.{in_order, in_order-IsOrder}
use composable_dra_driver.Base.Text.{byte_length}
use composable_dra_driver.Config.Types.{Config, DeviceInfo}
use composable_dra_driver.Config.Checks.{Validation, Reading, get_device_infos, get_label_prefix}
use composable_dra_driver.KubeUtils.Objects.{Object, config_map, secret}
use composable_dra_driver.KubeUtils.Caches.{Indexer}
use composable_dra_driver.KubeUtils.Discovery.{DiscoveryClient, kube_controllers_of, is_dra_enabled}
use composable_dra_driver.Manager.Start.{Lister}
use composable_dra_driver.Manager.Loop.Tests.{
  found, collected, a100, one_model, three_free, three_free-IsAnswering, one_node, accepting,
  can_scan,
}
use composable_dra_driver.Manager.Serve.{
  Cluster, Turn, Process, Manager, prepare, start_cdi_manager, one_turn, loop,
}
use composable_dra_driver.Manager.Serve.Published.{prepare-Publishes}
use composable_dra_driver.Manager.Loop.Published.{Publishes, free_on}
use composable_dra_driver.Manager.Slices.Made.{HaveMaps}
use composable_dra_driver.Config.Checks.Unique.{AreUnique, IsStrict}
use composable_dra_driver.Manager.Serve.Cleaned.{cleaned, start_cdi_manager-cleaned}

abbrev lenient : Validation
lenient = record {
  is_dns1123_label = λ t. [];
  is_dns1123_subdomain = λ t. [];
  is_qualified_name = λ t. [];
}

-- A reader that finds the entry of one model, and a check that lets one entry pass.
abbrev at_most_one : List DeviceInfo → Option Error
at_most_one [] = none
at_most_one (i ∷ []) = none
at_most_one (i ∷ j ∷ rest) = some "more than one entry"

abbrev one_entry : Reading
one_entry = record { unmarshal = λ t. ok (a100 ∷ []); struct = λ checks infos. at_most_one infos }

at_most_one-AreUnique : (infos : List DeviceInfo) → at_most_one infos ≡ none → AreUnique infos
at_most_one-AreUnique [] e = tt
at_most_one-AreUnique (i ∷ []) e = (tt, tt)
at_most_one-AreUnique (i ∷ j ∷ rest) e = cc e

one_entry-IsStrict : IsStrict one_entry
one_entry-IsStrict checks infos e = at_most_one-AreUnique infos e

abbrev pub config : Config
config = record {
  log_level = pos 0;
  scan_interval = pos 60000000000;
  tenant_id = "00000000-0000-0000-0000-000000000001";
  cluster_id = "00000000-0000-0000-0000-000000000002";
  cdi_endpoint = "cdi.example.com";
  use_capi_bmh = false;
  use_cm = true;
}

abbrev holding : Object (Unit {0}) → Indexer (Unit {0})
holding o = record { get_by_key = λ key. ok (some o); by_index = λ name key. ok [] }

abbrev with_slices : DiscoveryClient
with_slices version = ok ("deviceclasses" ∷ "resourceslices" ∷ [])

-- One slice in the pool of the model, and one in a pool of another program.
abbrev pub two_slices : Lister
two_slices driver = ok (
    record { name = "s1"; pool = "nvidia-a100-fabric1" }
    ∷ record { name = "s2"; pool = "foreign" }
    ∷ [])

-- An API server outside of which the driver runs.
abbrev pub cluster : Cluster (Unit {0}) (Unit {0}) (Unit {0})
cluster = record {
  access = record {
    in_cluster_config = err "not in a cluster";
    build_config_from_flags = λ path. ok (record { others = tt; timeout = 0 });
    kube_config_path = "/root/.kube/config";
  };
  new_core_client = λ kconfig. none;
  new_bmh_client = λ kconfig. none;
  new_discovery_client = λ kconfig. ok with_slices;
  indexing = record { add_node_indexers = none; add_bmh_indexers = none };
  synced = λ informers. true;
  config_maps = holding (
      config_map (record {
        entries = some (("device-info", "- index: 1") ∷ ("label-prefix", "cohdi.com") ∷ []);
      }));
  secrets = holding (secret (record { entries = none }));
  validation = lenient;
  reading = one_entry;
  api = λ client. three_free;
  starter = λ driver. none;
  lister = two_slices;
  range = in_order;
}

abbrev pub idle : Process (Unit {0})
idle = record {
  calls = [];
  world = record { cdi = tt; publishing = record { resources = []; published = [] }; updates = [] };
  cleanups = [];
}

abbrev pub turn : Turn (Unit {0})
turn = record {
  lister = one_node.lister;
  nodes = one_node.nodes;
  hosts = one_node.nodes;
  fields = one_node.fields;
  answer = accepting;
  range = in_order;
}

abbrev pub manager : Manager (Unit {0})
manager = record {
  kube_controllers = kube_controllers_of none false;
  cdi_api = three_free;
  settings = one_model;
  controllers = ("gpu.nvidia.com", record { driver = "gpu.nvidia.com" }) ∷ [];
}

abbrev pub prepared : Process (Unit {0})
prepared = (prepare cluster config idle).1

pub prepared_well : prepare cluster config idle ≡ (ok manager, prepared)
unfolding prepare lookup insert byte_length get_device_infos get_label_prefix is_dra_enabled
prepared_well = refl

pub lists : (d : String) → cluster.lister d ≢ Outcome.panic
lists d e = cc

start_cdi_manager-cleaned_example :
    start_cdi_manager cluster config (turn ∷ turn ∷ []) idle
    ≡ (ok tt, cleaned in_order two_slices manager (turn ∷ turn ∷ []) prepared)
start_cdi_manager-cleaned_example =
    start_cdi_manager-cleaned cluster config in_order-IsOrder lists (turn ∷ turn ∷ []) idle manager
      prepared three_free-IsAnswering prepared_well
      ((in_order-IsOrder, can_scan), ((in_order-IsOrder, can_scan), tt))

a100-Distinct : Distinct a100.dra_attributes
unfolding lookup
a100-Distinct = (refl, tt)

some_info_inj : {a b : DeviceInfo} → some a ≡ some b → a ≡ b
some_info_inj h = cc

one_entry-HaveMaps : HaveMaps (a100 ∷ [])
one_entry-HaveMaps model i e = elim (Bool-cases ("A100" == model)) [
  | inl same ↦
      subst (λ (x : DeviceInfo). Distinct x.dra_attributes)
        (some_info_inj {a = a100} {b = i} (rw same at e)) a100-Distinct
  | inr other ↦ cc (rw other at e)
]

prepare-Publishes_example :
    (n : ℕ) × (free_on (pos 1) "A100" found ≡ some (pos n))
    × Publishes
        (one_turn manager turn (loop manager (turn ∷ []) prepared.world).1).1.publishing.resources
        manager.settings.label_prefix
        a100
        (pos 1)
        n
prepare-Publishes_example =
    prepare-Publishes cluster config one_entry-IsStrict in_order-IsOrder idle manager prepared
      three_free-IsAnswering (turn ∷ []) turn found (pos 1) "uuid-1" "A100" a100 prepared_well
      one_entry-HaveMaps ((in_order-IsOrder, can_scan), tt) (in_order-IsOrder, can_scan) collected
      refl refl

three_found : free_on (pos 1) "A100" found ≡ some (pos 3)
unfolding lookup
three_found = refl

-- An API server without the resources.
abbrev pub bare : Cluster (Unit {0}) (Unit {0}) (Unit {0})
bare = record cluster { new_discovery_client = λ kconfig. ok (λ version. ok []) }

pub refused :
    (prepare bare config idle).0 ≡ err "not enabled feature gate of Dynamic Resource Allocation"
unfolding prepare lookup insert byte_length get_device_infos get_label_prefix is_dra_enabled
refused = refl
