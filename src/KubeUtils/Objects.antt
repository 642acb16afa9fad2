-- ===== src/KubeUtils/Objects.antt =====
-- The Kubernetes objects that the driver reads, with the fields that it uses. What an informer
-- stores is an interface value, so an object of another type can be met.
use composable_dra_driver.Base.{String, Option}
use composable_dra_driver.Base.Dict.{Dict}

-- corev1.Node. A nil map of labels is `none`.
pub record Node : Type 0 where
  pub name : String
  pub provider_id : String
  pub labels : Option (Dict String String)

-- corev1.ConfigMap and corev1.Secret: their data, which is nil where it is `none`.
pub record ConfigMap : Type 0 where
  pub entries : Option (Dict String String)

pub record Secret : Type 0 where
  pub entries : Option (Dict String String)

-- A value of an unstructured map: a text, or another type that is named.
pub data Value : Type 0 where
  text : String → Value
  other : String → Value

-- `U` stands for the content of an unstructured.Unstructured.
pub data Object (U : Type 0) : Type 0 where
  node : Node → Object U
  config_map : ConfigMap → Object U
  secret : Secret → Object U
  unstructured : U → Object U
  unknown : String → Object U

-- The type that `%T` prints.
unfoldable pub type_name : {U : Type 0} → Object U → String
type_name (node n) = "*v1.Node"
type_name (config_map c) = "*v1.ConfigMap"
type_name (secret s) = "*v1.Secret"
type_name (unstructured u) = "*unstructured.Unstructured"
type_name (unknown t) = t
