-- ===== src/KubeUtils/Caches.antt =====
-- pkg/kube_utils/kube_utils.go: reads by key, and the functions that the indexes are built from.
use composable_dra_driver.Base.{
  String, Option, none, some, List, [], ◌∷◌, Outcome, ok, err, panic, ◌==◌, string_eq,
  if◌then◌else◌,
}
use composable_dra_driver.Base.Text.{◌⧺◌, split, last_part}
use composable_dra_driver.KubeUtils.Objects.{
  Node, ConfigMap, Secret, Object, node, config_map, secret, unstructured, type_name, Value,
}

abbrev pub node_provider_id_index : String
node_provider_id_index = "nodeProviderIDIndex"

abbrev pub bmh_provider_id_index : String
bmh_provider_id_index = "bmhProviderIDIndex"

-- client-go's cache.Indexer: a parameter.
pub record Indexer (U : Type 0) : Type 0 where
  pub get_by_key : String → Outcome (Option (Object U))
  pub by_index : String → String → Outcome (List (Object U))

-- apimachinery's accessors of nested fields. `ok none` is a field that is not found; an annotation
-- map that is found may be nil.
pub record Accessors (U : Type 0) : Type 0 where
  pub nested_string : U → List String → Outcome (Option String)
  pub nested_map : U → List String → Outcome (Option (Option (List (String × Value))))

unfoldable pub normalized_provider_string : String → String
normalized_provider_string s = last_part (split "/" s)

abbrev uid_key : Outcome (Option String) → List String
uid_key (ok (some uid)) = if uid == "" then [] else uid ∷ []
uid_key _ = []

module _ {U : Type 0} where
  abbrev as_node : Object U → Outcome (Option Node)
  as_node (node n) = ok (some n)
  as_node o = err ("unexpected type " ⧺ type_name o)

  abbrev as_config_map : Object U → Outcome (Option ConfigMap)
  as_config_map (config_map c) = ok (some c)
  as_config_map o = err ("unexpected type " ⧺ type_name o)

  abbrev as_secret : Object U → Outcome Secret
  as_secret (secret s) = ok s
  as_secret o = err ("unexpected type " ⧺ type_name o)

  abbrev from_cache {ℓ} :
      {A : Type ℓ}
      → String
      → Outcome A
      → (Object U → Outcome A)
      → Outcome (Option (Object U))
      → Outcome A
  from_cache failed missing convert (err e) = err (failed ⧺ e)
  from_cache failed missing convert panic = panic
  from_cache failed missing convert (ok none) = missing
  from_cache failed missing convert (ok (some o)) = convert o

  -- `none` is the nil node that is returned with a nil error. A deep copy is the same value.
  unfoldable pub get_node : Indexer U → String → Outcome (Option Node)
  get_node indexer name =
      from_cache "failed to get node: " (ok none) as_node (indexer.get_by_key name)

  unfoldable pub get_config_map : Indexer U → String → Outcome (Option ConfigMap)
  get_config_map indexer key =
      from_cache "failed to get configmap: " (ok none) as_config_map (indexer.get_by_key key)

  unfoldable pub get_secret : Indexer U → String → Outcome Secret
  get_secret indexer key =
      from_cache "failed to get secret: " (err ("not exists secret: " ⧺ key)) as_secret
        (indexer.get_by_key key)

  unfoldable pub index_node_by_provider_id : Object U → List String
  unfolding normalized_provider_string
  index_node_by_provider_id (node n) =
      if n.provider_id == "" then [] else normalized_provider_string n.provider_id ∷ []
  index_node_by_provider_id _ = []

  unfoldable pub index_bmh_by_provider_id : Accessors U → Object U → List String
  index_bmh_by_provider_id fields (unstructured u) =
      uid_key (fields.nested_string u ("metadata" ∷ "uid" ∷ []))
  index_bmh_by_provider_id fields _ = []
