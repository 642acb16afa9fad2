-- ===== src/KubeUtils/Lookup/Readable.antt =====
-- pkg/kube_utils/kube_utils.go: the lookups end with an answer or an error where the indexes do.
use composable_dra_driver.Base.{
  string_eq, String, Option, none, some, List, [], ◌∷◌, Outcome, Post, returns, throws,
}
use composable_dra_driver.Base.Dict.{lookup}
use composable_dra_driver.KubeUtils.Objects.{
  Node, Object, node, config_map, secret, unstructured, unknown, Value, text, other,
}
use composable_dra_driver.KubeUtils.Caches.{Indexer, Accessors}
use composable_dra_driver.KubeUtils.Lookup.{
  node_name_of, name_among, name_in, find_node_name_by_provider_id, annotation_text, machine_in,
  machine_of, machine_among, machine_from, find_machine_uuid_by_provider_id, list_provider_ids,
  machine_annotation,
}

abbrev pub Ends {ℓ} : {A : Type ℓ} → Outcome A → Type ℓ
Ends r = Post (λ a. Unit {0}) r

-- The reads of an index do not panic.
abbrev pub IsReadable : {U : Type 0} → Indexer U → Type 0
IsReadable indexer = (name key : String) → Ends (indexer.by_index name key)

module _ {U : Type 0} where
  node_name_of-Ends : (o : Object U) → Ends (node_name_of o)
  node_name_of-Ends (node n) = returns tt
  node_name_of-Ends (config_map c) = throws _
  node_name_of-Ends (secret c) = throws _
  node_name_of-Ends (unstructured c) = throws _
  node_name_of-Ends (unknown c) = throws _

  name_among-Ends : (objects : List (Object U)) → Ends (name_among objects)
  name_among-Ends [] = returns tt
  name_among-Ends (o ∷ []) = node_name_of-Ends o
  name_among-Ends (o ∷ p ∷ rest) = throws _

  name_in-Ends : {r : Outcome (List (Object U))} → Ends r → Ends (name_in r)
  name_in-Ends (returns {a = objects} h) = name_among-Ends objects
  name_in-Ends (throws e) = returns tt

  pub find_node_name_by_provider_id-Ends :
      (indexer : Indexer U) (provider_id : String)
      → IsReadable indexer
      → Ends (find_node_name_by_provider_id indexer provider_id)
  unfolding find_node_name_by_provider_id
  find_node_name_by_provider_id-Ends indexer provider_id h = name_in-Ends (h _ provider_id)

annotation_text-Ends : (v : Option Value) → Ends (annotation_text v)
annotation_text-Ends none = returns tt
annotation_text-Ends (some (text t)) = returns tt
annotation_text-Ends (some (other t)) = throws _

machine_in-Ends :
    {r : Outcome (Option (Option (List (String × Value))))} → Ends r → Ends (machine_in r)
machine_in-Ends (returns {a = none} h) = returns tt
machine_in-Ends (returns {a = some none} h) = returns tt
machine_in-Ends (returns {a = some (some annotations)} h) =
    annotation_text-Ends (lookup machine_annotation annotations)
machine_in-Ends (throws e) = throws e

module _ {U : Type 0} (fields : Accessors U)
    (readable : (u : U) (path : List String) → Ends (fields.nested_map u path)) where
  machine_of-Ends : (o : Object U) → Ends (machine_of fields o)
  machine_of-Ends (unstructured u) = machine_in-Ends (readable u _)
  machine_of-Ends (node n) = throws _
  machine_of-Ends (config_map c) = throws _
  machine_of-Ends (secret c) = throws _
  machine_of-Ends (unknown c) = throws _

  machine_among-Ends : (objects : List (Object U)) → Ends (machine_among fields objects)
  machine_among-Ends [] = returns tt
  machine_among-Ends (o ∷ []) = machine_of-Ends o
  machine_among-Ends (o ∷ p ∷ rest) = throws _

  machine_from-Ends : {r : Outcome (List (Object U))} → Ends r → Ends (machine_from fields r)
  machine_from-Ends (returns {a = objects} h) = machine_among-Ends objects
  machine_from-Ends (throws e) = throws e

  pub find_machine_uuid_by_provider_id-Ends :
      (indexer : Indexer U) (provider_id : String)
      → IsReadable indexer
      → Ends (find_machine_uuid_by_provider_id fields (some indexer) provider_id)
  unfolding find_machine_uuid_by_provider_id
  find_machine_uuid_by_provider_id-Ends indexer provider_id h = machine_from-Ends (h _ provider_id)

pub list_provider_ids-Ends :
    {nodes : Outcome (List Node)} → Ends nodes → Ends (list_provider_ids nodes)
unfolding list_provider_ids
list_provider_ids-Ends (returns h) = returns tt
list_provider_ids-Ends (throws e) = throws e
