-- ===== src/KubeUtils/Lookup.antt =====
-- pkg/kube_utils/kube_utils.go: from provider ids to node names and machine uuids.
pub mod Readable
use composable_dra_driver.Base.{
  ℕ, pos, String, Option, none, some, List, [], ◌∷◌, length, Outcome, ok, err, panic, ◌==◌,
  string_eq, if◌then◌else◌,
}
use composable_dra_driver.Base.Dict.{lookup}
use composable_dra_driver.Base.Text.{◌⧺◌, itoa}
use composable_dra_driver.KubeUtils.Objects.{
  Node, Object, node, unstructured, type_name, Value, text, other,
}
use composable_dra_driver.KubeUtils.Caches.{
  Indexer, Accessors, normalized_provider_string, node_provider_id_index, bmh_provider_id_index,
}

abbrev pub machine_annotation : String
machine_annotation = "cluster-manager.cdi.io/machine"

-- The loop of ListProviderIDs. A node with no provider id is passed over.
unfoldable pub provider_ids : List Node → List String
unfolding normalized_provider_string
provider_ids [] = []
provider_ids (n ∷ rest) =
    let others = provider_ids rest in
    if n.provider_id == "" then others else normalized_provider_string n.provider_id ∷ others

-- `nodes` is what the lister returns.
unfoldable pub list_provider_ids : Outcome (List Node) → Outcome (List String)
unfolding provider_ids
list_provider_ids (ok nodes) = ok (provider_ids nodes)
list_provider_ids (err e) = err e
list_provider_ids panic = panic

abbrev pub too_many : ℕ → String
too_many n = "internal error; expected len==1, got " ⧺ itoa (pos n)

module _ {U : Type 0} where
  abbrev node_name_of : Object U → Outcome String
  node_name_of (node n) = ok n.name
  node_name_of o = err ("internal error; unexpected type " ⧺ type_name o)

  abbrev name_among : List (Object U) → Outcome String
  name_among [] = ok ""
  name_among (o ∷ []) = node_name_of o
  name_among (o ∷ p ∷ rest) = err (too_many (length (o ∷ p ∷ rest)))

  -- An error of the index reads as no node.
  abbrev name_in : Outcome (List (Object U)) → Outcome String
  name_in (err e) = ok ""
  name_in panic = panic
  name_in (ok objects) = name_among objects

  unfoldable pub find_node_name_by_provider_id : Indexer U → String → Outcome String
  find_node_name_by_provider_id indexer provider_id =
      name_in (indexer.by_index node_provider_id_index provider_id)

-- The annotation's value, which must be a text.
abbrev annotation_text : Option Value → Outcome String
annotation_text none = ok ""
annotation_text (some (text t)) = ok t
annotation_text (some (other t)) = err ("internal error; unexpected type " ⧺ t)

abbrev machine_in : Outcome (Option (Option (List (String × Value)))) → Outcome String
machine_in (err e) = err e
machine_in panic = panic
machine_in (ok none) = ok ""
machine_in (ok (some none)) = ok ""
machine_in (ok (some (some annotations))) = annotation_text (lookup machine_annotation annotations)

module _ {U : Type 0} (fields : Accessors U) where
  abbrev machine_of : Object U → Outcome String
  machine_of (unstructured u) = machine_in (fields.nested_map u ("metadata" ∷ "annotations" ∷ []))
  machine_of o = err ("internal error; unexpected type " ⧺ type_name o)

  abbrev machine_among : List (Object U) → Outcome String
  machine_among [] = ok ""
  machine_among (o ∷ []) = machine_of o
  machine_among (o ∷ p ∷ rest) = err (too_many (length (o ∷ p ∷ rest)))

  abbrev machine_from : Outcome (List (Object U)) → Outcome String
  machine_from (err e) = err e
  machine_from panic = panic
  machine_from (ok objects) = machine_among objects

  -- With no informer for bare-metal hosts the call is one of a nil interface.
  unfoldable pub find_machine_uuid_by_provider_id : Option (Indexer U) → String → Outcome String
  find_machine_uuid_by_provider_id none provider_id = panic
  find_machine_uuid_by_provider_id (some indexer) provider_id =
      machine_from (indexer.by_index bmh_provider_id_index provider_id)
