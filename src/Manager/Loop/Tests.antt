-- ===== src/Manager/Loop/Tests.antt =====
-- Runs of one scan of pkg/manager/manager.go at concrete inputs.
use composable_dra_driver.Base.{
  pos, String, true, false, none, some, List, [], ◌∷◌, ok, ◌≡◌, refl, sym, ◌∙◌, arith, string_eq,
  int_eq, All, Post, returns,
}
use composable_dra_driver.Base.Dict.{lookup, insert}
use composable_dra_driver.Base.Order.{in_order, in_order-IsOrder}
use composable_dra_driver.Base.Text.{split, last_part}
use composable_dra_driver.Config.Types.{DeviceInfo}
use composable_dra_driver.Client.Types.{CdiApi}
use composable_dra_driver.KubeUtils.Objects.{Node, node}
use composable_dra_driver.KubeUtils.Caches.{normalized_provider_string, get_node}
use composable_dra_driver.Manager.Types.{Machine, Settings}
use composable_dra_driver.Manager.Slices.{Controllers}
use composable_dra_driver.Manager.Slices.Jobs.{jobs}
use composable_dra_driver.Manager.Slices.Settled.{Advertised}
use composable_dra_driver.KubeUtils.Lookup.{list_provider_ids, find_node_name_by_provider_id}
use composable_dra_driver.Manager.Fetch.{
  Caches, get_machine_uuids, get_machine_list, get_node_groups, get_fabric_id, get_available_nums,
}
use composable_dra_driver.Manager.Fetch.Safe.{Any, IsAnswering}
use composable_dra_driver.Manager.Fetch.Readable.{AreReadable}
use composable_dra_driver.Manager.Collect.{collect_machines}
use composable_dra_driver.Manager.Collect.Devices.{info_of}
use composable_dra_driver.Manager.Collect.Whole.{HasUniqueNames}
use composable_dra_driver.Manager.Labels.{Answer}
use composable_dra_driver.Manager.Labels.Safe.{AreLabelled}
use composable_dra_driver.Manager.Loop.{World, check_resource_pool}
use composable_dra_driver.Manager.Loop.Safe.{
  CanScan, IsRunning, SameDrivers, check_resource_pool-Any, check_resource_pool-advertises,
}

abbrev pub a100 : DeviceInfo
a100 = record {
  index = pos 1;
  cdi_model_name = "A100";
  dra_attributes = ("productName", "A100") ∷ [];
  driver_name = "gpu.nvidia.com";
  k8s_device_name = "nvidia-a100";
  cannot_coexist_with = [];
}

abbrev pub one_model : Settings
one_model = record {
  device_infos = a100 ∷ [];
  label_prefix = "cohdi.com";
  options = record { use_capi_bmh = false; use_cm = true };
}

-- CDI components with one machine, in no node group, and three free devices.
abbrev pub three_free : CdiApi (Unit {0})
three_free = record {
  request_id = λ s. ("id", s);
  get_fm_machine_list = λ id s. (
    ok (record {
      content = record {
        machines = record { fabric_id = some (pos 1); machine_uuid = "uuid-1" } ∷ [];
      };
    }),
    s,
  );
  get_fm_available_reserved_resources =
      λ id muuid model s. (ok (record { fabric_id = pos 1; reserved_resource_num = pos 3 }), s);
  get_cm_node_groups = λ id s. (ok (record { node_groups = [] }), s);
  get_cm_node_group_info =
      λ id group s. (ok (record { uuid = group.uuid; name = group.name; machine_ids = [] }), s);
  get_cm_node_details = λ id muuid s. (
    ok (record {
      content = record {
        tenant_uuid = "";
        cluster = record {
          cluster_uuid = "";
          machine = record { uuid = muuid; name = ""; res_specs = [] };
        };
      };
    }),
    s,
  );
}

pub three_free-IsAnswering : IsAnswering three_free
three_free-IsAnswering = record {
  machine_list = λ id s. returns tt;
  available = λ id muuid model s. returns (3, refl);
  node_groups = λ id s. returns tt;
  node_group_info = λ id g s. returns tt;
  node_details = λ id muuid s. returns tt;
}

abbrev pub worker : Node
worker = record { name = "worker"; provider_id = "metal3://ns/uuid-1"; labels = some [] }

abbrev pub one_node : Caches (Unit {0})
one_node = record {
  lister = ok (worker ∷ []);
  nodes = record {
    get_by_key = λ key. ok (some (node worker));
    by_index = λ name key. ok (node worker ∷ []);
  };
  bare_metal_hosts = none;
  fields = record { nested_string = λ u path. ok none; nested_map = λ u path. ok none };
}

pub one_node-AreReadable : AreReadable false one_node
one_node-AreReadable = record {
  lister = returns tt;
  nodes = λ name key. returns tt;
  hosts = λ e. cc;
  fields = λ u path. returns tt;
}

pub one_node-AreLabelled : AreLabelled one_node.nodes
unfolding get_node
one_node-AreLabelled name = returns ([], refl)

abbrev pub accepting : Answer
accepting before n = none

abbrev gpu_controller : Controllers
gpu_controller = ("gpu.nvidia.com", record { driver = "gpu.nvidia.com" }) ∷ []

abbrev fresh_world : World (Unit {0})
fresh_world = record {
  cdi = tt;
  publishing = record {
    resources = ("gpu.nvidia.com", record { pools = [] }) ∷ [];
    published = [];
  };
  updates = [];
}

pub can_scan : CanScan false one_node
can_scan = record { readable = one_node-AreReadable; labelled = one_node-AreLabelled }

fresh-IsRunning : IsRunning gpu_controller fresh_world.publishing
unfolding lookup
fresh-IsRunning = ((refl, tt), λ d r p. (record { driver = "gpu.nvidia.com" }, ground arith))

check_resource_pool-Any_example :
    let out =
      check_resource_pool in_order three_free one_node accepting one_model gpu_controller
        fresh_world in
    Post Any out.0
    × IsRunning gpu_controller out.1.publishing
    × SameDrivers fresh_world.publishing out.1.publishing
check_resource_pool-Any_example =
    check_resource_pool-Any in_order-IsOrder three_free one_node accepting one_model gpu_controller
      three_free-IsAnswering can_scan fresh_world fresh-IsRunning

abbrev pub found : List Machine
found =
    record {
      node_name = "worker";
      machine_uuid = "uuid-1";
      fabric_id = some (pos 1);
      device_list =
          (
            "A100",
            record {
              k8s_device_name = "nvidia-a100";
              driver_name = "gpu.nvidia.com";
              dra_attributes = ("productName", "A100") ∷ [];
              available_device_count = pos 3;
              min_device_count = none;
              max_device_count = none;
            },
          )
          ∷ [];
      node_group_uuid = "";
    }
    ∷ []

pub collected : (collect_machines in_order three_free one_model one_node tt).0 ≡ ok found
unfolding collect_machines get_machine_uuids list_provider_ids find_node_name_by_provider_id
    get_machine_list get_node_groups get_fabric_id get_available_nums normalized_provider_string
    split last_part insert lookup
collected = refl

model_is : (k : String) (a : DeviceInfo) → info_of k (a100 ∷ []) ≡ some a → k ≡ "A100"
model_is k a e = ground (arith, string_eq.equals_iff "A100" k)

one_model-HasUniqueNames : HasUniqueNames one_model.device_infos
one_model-HasUniqueNames k j a b p q same = model_is k a p ∙ sym (model_is j b q)

check_resource_pool-advertises_example :
    let out =
      check_resource_pool in_order three_free one_node accepting one_model gpu_controller
        fresh_world in
    All (Advertised out.1.publishing.resources) (jobs in_order found [])
check_resource_pool-advertises_example =
    check_resource_pool-advertises in_order-IsOrder three_free one_node accepting one_model
      gpu_controller three_free-IsAnswering can_scan fresh_world fresh-IsRunning found
      one_model-HasUniqueNames collected
