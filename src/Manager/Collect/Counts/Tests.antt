-- ===== src/Manager/Collect/Counts/Tests.antt =====
-- Runs of pkg/manager/manager.go over two machines of one fabric, at a concrete input.
use composable_dra_driver.Base.{
  ℕ, ℤ, pos, map, All, and_then, Bool-cases, inl, inr, Post, String, false, none, some, List, [],
  ◌∷◌, ok, ◌≡◌, ◌==◌, refl, string_eq, int_eq, if◌then◌else◌, returns,
}
use composable_dra_driver.Base.Dict.{lookup, insert}
use composable_dra_driver.Base.Order.{in_order, in_order-IsOrder}
use composable_dra_driver.Base.Text.{split, last_part}
use composable_dra_driver.Client.Types.{CdiApi}
use composable_dra_driver.KubeUtils.Objects.{Node, node}
use composable_dra_driver.KubeUtils.Caches.{normalized_provider_string}
use composable_dra_driver.KubeUtils.Lookup.{list_provider_ids, find_node_name_by_provider_id}
use composable_dra_driver.Manager.Types.{Device, Machine, Settings}
use composable_dra_driver.Manager.Fetch.{
  Caches, get_machine_uuids, get_machine_list, get_fabric_id, get_available_nums,
}
use composable_dra_driver.Manager.Fetch.Safe.{IsAnswering}
use composable_dra_driver.Manager.Fetch.Readable.{AreReadable}
use composable_dra_driver.Manager.Fetch.Reporting.{IsReporting}
use composable_dra_driver.Manager.Collect.{collect_machines}
use composable_dra_driver.Manager.Collect.Spread.{IsEquipped}
use composable_dra_driver.Manager.Collect.Counts.Collected.{
  AreReported, collect_machines-AreReported,
}

abbrev free : String → String → ℤ
free muuid model = if muuid == "uuid-1" then pos 3 else pos 5

abbrev only_a100 : Settings
only_a100 = record {
  device_infos =
      record {
        index = pos 1;
        cdi_model_name = "A100";
        dra_attributes = ("productName", "A100") ∷ [];
        driver_name = "gpu.nvidia.com";
        k8s_device_name = "nvidia-a100";
        cannot_coexist_with = [];
      }
      ∷ [];
  label_prefix = "cohdi.com";
  options = record { use_capi_bmh = false; use_cm = false };
}

-- Two machines on fabric 1, with another number of free devices for each.
abbrev two_on_fabric : CdiApi (Unit {0})
two_on_fabric = record {
  request_id = λ s. ("id", s);
  get_fm_machine_list = λ id s. (
    ok (record {
      content = record {
        machines =
            record { fabric_id = some (pos 1); machine_uuid = "uuid-1" }
            ∷ record { fabric_id = some (pos 1); machine_uuid = "uuid-2" }
            ∷ [];
      };
    }),
    s,
  );
  get_fm_available_reserved_resources = λ id muuid model s.
      (ok (record { fabric_id = pos 1; reserved_resource_num = free muuid model }), s);
  get_cm_node_groups = λ id s. (ok (record { node_groups = [] }), s);
  get_cm_node_group_info =
      λ id group s. (ok (record { uuid = group.uuid; name = group.name; machine_ids = [] }), s);
  get_cm_node_details = λ id muuid s. (
    ok (record {
      content = record {
        tenant_uuid = "";
        cluster = record {
          cluster_uuid = "";
          machine = record { uuid = muuid; name = ""; res_specs = [] };
        };
      };
    }),
    s,
  );
}

free-natural : (muuid model : String) → (n : ℕ) × (free muuid model ≡ pos n)
free-natural muuid model = elim (Bool-cases (muuid == "uuid-1")) [
  | inl first ↦ (3, rw first refl)
  | inr other ↦ (5, rw other refl)
]

two_on_fabric-IsAnswering : IsAnswering two_on_fabric
two_on_fabric-IsAnswering = record {
  machine_list = λ id s. returns tt;
  available = λ id muuid model s. returns (free-natural muuid model);
  node_groups = λ id s. returns tt;
  node_group_info = λ id g s. returns tt;
  node_details = λ id muuid s. returns tt;
}

two_on_fabric-IsReporting : IsReporting two_on_fabric free
two_on_fabric-IsReporting id muuid model s = returns refl

abbrev first_worker : Node
first_worker = record { name = "w1"; provider_id = "metal3://ns/uuid-1"; labels = some [] }

abbrev second_worker : Node
second_worker = record { name = "w2"; provider_id = "metal3://ns/uuid-2"; labels = some [] }

abbrev two_nodes : Caches (Unit {0})
two_nodes = record {
  lister = ok (first_worker ∷ second_worker ∷ []);
  nodes = record {
    get_by_key = λ key. ok none;
    by_index =
        λ name key. ok ((if key == "uuid-2" then node second_worker else node first_worker) ∷ []);
  };
  bare_metal_hosts = none;
  fields = record { nested_string = λ u path. ok none; nested_map = λ u path. ok none };
}

two_nodes-AreReadable : AreReadable false two_nodes
two_nodes-AreReadable = record {
  lister = returns tt;
  nodes = λ name key. returns tt;
  hosts = λ e. cc;
  fields = λ u path. returns tt;
}

collect_machines-AreReported_example :
    Post
      (λ machines.
        All (IsEquipped in_order-IsOrder only_a100.device_infos) machines
        × AreReported free machines)
      (collect_machines in_order two_on_fabric only_a100 two_nodes tt).0
collect_machines-AreReported_example =
    collect_machines-AreReported in_order-IsOrder two_on_fabric free two_on_fabric-IsReporting
      only_a100 two_nodes two_on_fabric-IsAnswering two_nodes-AreReadable tt

-- Both machines have the count of the first.
counts : List Machine → List (List ℤ)
counts machines =
    map (λ m. map (λ (e : String × Device). e.1.available_device_count) m.device_list) machines

both_have_three :
    and_then
      (collect_machines in_order two_on_fabric only_a100 two_nodes tt).0
      (λ ms. ok (counts ms))
    ≡ ok ((pos 3 ∷ []) ∷ (pos 3 ∷ []) ∷ [])
unfolding collect_machines get_machine_uuids list_provider_ids find_node_name_by_provider_id
    get_machine_list get_fabric_id get_available_nums normalized_provider_string split last_part
    insert lookup counts
both_have_three = refl
