-- ===== src/Manager/Fetch/Tests.antt =====
-- Runs of getMachineUUIDs at concrete inputs.
use composable_dra_driver.Base.{
  ℤ, pos, String, Bool, true, false, Option, some, none, List, [], ◌∷◌, ok, ◌≡◌, refl, All, ◌==◌,
  ◌≢◌, string_eq, arith, if◌then◌else◌,
}
use composable_dra_driver.KubeUtils.Objects.{Node, text}
use composable_dra_driver.KubeUtils.Caches.{
  Accessors, normalized_provider_string, index_node_by_provider_id,
}
use composable_dra_driver.Base.Text.{split, last_part}
use composable_dra_driver.Base.Dict.{insert, lookup}
use composable_dra_driver.Client.Types.{CmResSpec, CmNodeDetails, CdiApi}
use composable_dra_driver.Manager.Fetch.{
  Caches, get_machine_uuids, Limit, names_model, limit_of_conditions, limit_of_specs,
  get_min_max_nums,
}
use composable_dra_driver.Base.{Outcome, returns, throws}
use composable_dra_driver.Base.Order.{in_order}
use composable_dra_driver.KubeUtils.Objects.{Secret}
use composable_dra_driver.Client.Calls.{Json, cdi_api}
use composable_dra_driver.Client.Calls.Replying.{Reads}
use composable_dra_driver.Client.Build.{cached_im_token_source}
use composable_dra_driver.Client.Build.Issuing.{IsDecoding}
use composable_dra_driver.Client.Tests.{codec, json, echo, cdi_client}
use composable_dra_driver.Manager.Fetch.Safe.{IsAnswering}
use composable_dra_driver.Manager.Fetch.Answers.{cdi_api-IsAnswering}
use composable_dra_driver.Manager.Fetch.Limits.{IsLast, get_min_max_nums-IsLast}
use composable_dra_driver.Manager.Loop.Tests.{three_free}
use composable_dra_driver.Manager.Fetch.Hosts.{
  Host, AreIndexed, indexed_hosts, machine_with, by_host, get_machine_uuids-by_host,
}
use composable_dra_driver.Manager.Fetch.Uuids.{
  IsCached, IsAlone, indexed, by_provider_id, get_machine_uuids-by_provider_id,
}

-- A node of a provider, and one without.
abbrev worker : Node
worker = record { name = "worker"; provider_id = "metal3://ns/uuid-1"; labels = none }

abbrev bare : Node
bare = record { name = "bare"; provider_id = ""; labels = none }

abbrev nodes : List Node
nodes = worker ∷ bare ∷ []

abbrev caches : Caches (Unit {0})
caches = record {
  lister = ok nodes;
  nodes = record {
    get_by_key = λ key. ok none;
    by_index = λ name key. ok (indexed (Unit {0}) key nodes);
  };
  bare_metal_hosts = none;
  fields = record { nested_string = λ u path. ok none; nested_map = λ u path. ok none };
}

caches-IsCached : IsCached caches nodes
caches-IsCached = record { listed = refl; found = λ key. refl }

named : (n : Node) → (n.name == "") ≡ false → n.name ≢ ""
named n h e = ground (arith, string_eq.equals_iff n.name "")

nodes-IsAlone : All (IsAlone (Unit {0}) nodes) nodes
unfolding normalized_provider_string split last_part index_node_by_provider_id
nodes-IsAlone = ((named worker refl, λ h. refl), ((named bare refl, λ h. absurd (h refl)), tt))

get_machine_uuids-by_provider_id_example :
    get_machine_uuids false caches ≡ ok (by_provider_id nodes [])
get_machine_uuids-by_provider_id_example =
    get_machine_uuids-by_provider_id caches nodes caches-IsCached nodes-IsAlone

one_machine : by_provider_id nodes [] ≡ ("worker", "uuid-1") ∷ []
unfolding normalized_provider_string split last_part insert
one_machine = refl

-- Two hosts, of which one is the worker's and names the machine m-1.
abbrev hosts : List (Bool × Host)
hosts =
    (false, record { uid = "uuid-2"; machine = "m-2" })
    ∷ (true, record { uid = "uuid-1"; machine = "m-1" })
    ∷ []

abbrev host_fields : Accessors Bool
host_fields = record {
  nested_string = λ u path. ok (some (if u then "uuid-1" else "uuid-2"));
  nested_map = λ u path.
      ok (some (some (("cluster-manager.cdi.io/machine", text (if u then "m-1" else "m-2")) ∷ [])));
}

abbrev with_hosts : Caches Bool
with_hosts = record {
  lister = ok nodes;
  nodes = record {
    get_by_key = λ key. ok none;
    by_index = λ name key. ok (indexed Bool key nodes);
  };
  bare_metal_hosts = some (record {
    get_by_key = λ key. ok none;
    by_index = λ name key. ok (indexed_hosts host_fields key hosts);
  });
  fields = host_fields;
}

uid_ne : (a b : String) → (a == b) ≡ false → a ≢ b
uid_ne a b h e = ground (arith, string_eq.equals_iff a b)

with_hosts-AreIndexed : AreIndexed with_hosts hosts
unfolding lookup
with_hosts-AreIndexed = record {
  indexer = record {
    get_by_key = λ key. ok none;
    by_index = λ name key. ok (indexed_hosts host_fields key hosts);
  };
  there = refl;
  found = λ key. refl;
  known = (
    record {
      annotations = ("cluster-manager.cdi.io/machine", text "m-2") ∷ [];
      identified = refl;
      named = uid_ne "uuid-2" "" refl;
      annotated = refl;
      machine = refl;
    },
    (
      record {
        annotations = ("cluster-manager.cdi.io/machine", text "m-1") ∷ [];
        identified = refl;
        named = uid_ne "uuid-1" "" refl;
        annotated = refl;
        machine = refl;
      },
      tt,
    ),
  );
  apart = ((uid_ne "uuid-1" "uuid-2" refl, tt), (tt, tt));
}

hosted_nodes-IsAlone : All (IsAlone Bool nodes) nodes
unfolding normalized_provider_string split last_part index_node_by_provider_id
hosted_nodes-IsAlone =
    ((named worker refl, λ h. refl), ((named bare refl, λ h. absurd (h refl)), tt))

with_hosts-IsCached : IsCached with_hosts nodes
with_hosts-IsCached = record { listed = refl; found = λ key. refl }

get_machine_uuids-by_host_example :
    get_machine_uuids true with_hosts ≡ ok (by_host (machine_with hosts) nodes [])
get_machine_uuids-by_host_example =
    get_machine_uuids-by_host with_hosts nodes hosts with_hosts-IsCached with_hosts-AreIndexed
      hosted_nodes-IsAlone

host_named : by_host (machine_with hosts) nodes [] ≡ ("worker", "m-1") ∷ []
unfolding normalized_provider_string split last_part insert
host_named = refl

-- The specs of a machine: two bounds for the model, none for another, and a new maximum for it.
abbrev spec_for : String → Option ℤ → Option ℤ → CmResSpec
spec_for model min max = record {
  kind = "gpu";
  selector = record {
    expression = record {
      conditions = record { column = "model"; operator = "eq"; value = model } ∷ [];
    };
  };
  min_res_spec_count = min;
  max_res_spec_count = max;
}

abbrev details : CmNodeDetails
details = record {
  content = record {
    tenant_uuid = "";
    cluster = record {
      cluster_uuid = "";
      machine = record {
        uuid = "uuid-1";
        name = "";
        res_specs =
            spec_for "A100" (some (pos 1)) (some (pos 2))
            ∷ spec_for "H100" (some (pos 7)) (some (pos 8))
            ∷ spec_for "A100" none (some (pos 4))
            ∷ [];
      };
    };
  };
}

abbrev with_specs : CdiApi (Unit {0})
with_specs = record three_free { get_cm_node_details = λ id muuid s. (ok details, s) }

get_min_max_nums-IsLast_example :
    (l : Limit) × ((get_min_max_nums with_specs "uuid-1" "A100" tt).0 ≡ ok l)
    × IsLast
        (λ spec. spec.min_res_spec_count)
        "A100"
        details.content.cluster.machine.res_specs
        l.min
    × IsLast
        (λ spec. spec.max_res_spec_count)
        "A100"
        details.content.cluster.machine.res_specs
        l.max
get_min_max_nums-IsLast_example = get_min_max_nums-IsLast with_specs "uuid-1" "A100" tt details refl

last_bounds :
    (get_min_max_nums with_specs "uuid-1" "A100" tt).0
    ≡ ok (record { min = some (pos 1); max = some (pos 4) })
unfolding get_min_max_nums limit_of_specs limit_of_conditions names_model
last_bounds = refl

-- A network that echoes paths, each of which reads as three free devices.
abbrev pub counting : Json
counting = record json {
  available = λ t. ok (record { fabric_id = pos 1; reserved_resource_num = pos 3 });
}

pub counting-Reads : (t : String) → Reads counting t
counting-Reads t = record {
  im_token = throws _;
  machine_list = throws _;
  available = returns (3, refl);
  node_groups = returns tt;
  node_group_info = throws _;
  node_details = throws _;
}

pub codec-IsDecoding : IsDecoding codec
codec-IsDecoding = record { decodes = λ t. returns tt; expires = λ t. returns tt }

abbrev pub no_entries : Unit {0} → Outcome Secret
no_entries s = ok (record { entries = none })

abbrev pub fixed_id : Unit {0} → String × Unit {0}
fixed_id s = ("111111", s)

cdi_api-IsAnswering_example : IsAnswering (
    cdi_api echo counting in_order
      (cached_im_token_source echo counting codec cdi_client no_entries fixed_id (λ s. pos 0))
      cdi_client
      fixed_id)
cdi_api-IsAnswering_example =
    cdi_api-IsAnswering echo counting in_order codec cdi_client no_entries fixed_id (λ s. pos 0)
      (λ id req s. returns (returns (counting-Reads req.path))) codec-IsDecoding (λ s. returns tt)
