-- ===== src/Manager/Labels/Safe.antt =====
-- pkg/manager/manager.go: manageCDINodeLabel over nodes that have labels.
use composable_dra_driver.Base.{
  String, Option, none, some, List, [], ◌∷◌, Outcome, Runs, Post, returns, throws, continue-Post,
  ◌≡◌, Error,
}
use composable_dra_driver.Base.Dict.{Dict}
use composable_dra_driver.Base.Order.{Range}
use composable_dra_driver.KubeUtils.Objects.{Node}
use composable_dra_driver.KubeUtils.Caches.{Indexer, get_node}
use composable_dra_driver.Manager.Types.{Machine, Settings}
use composable_dra_driver.Manager.Fetch.Safe.{Any}
use composable_dra_driver.Manager.Labels.{Answer, sent, label_found, manage_node_label}
use composable_dra_driver.Manager.Labels.Desired.{label_node_lem}

-- A read of a node that ends, and where a node that is found has a map of labels, as every node of
-- an API server has.
abbrev pub IsLabelled : Option Node → Type 0
IsLabelled none = Unit
IsLabelled (some node) = (d : Dict String String) × (node.labels ≡ some d)

abbrev pub AreLabelled : {U : Type 0} → Indexer U → Type 0
AreLabelled indexer = (name : String) → Post IsLabelled (get_node indexer name)

module _ (range : Range) (m : Settings) {U : Type 0} (indexer : Indexer U) (answer : Answer) where
  sent-Any : (o : Option Error) (node : Node) → Runs Any (sent o node)
  sent-Any none node s = returns tt
  sent-Any (some e) node s = throws e

  label_found-Any :
      (machine : Machine) {r : Outcome (Option Node)}
      → Post IsLabelled r
      → Runs Any (label_found range m indexer answer machine r)
  label_found-Any machine (returns {a = none} h) s = returns tt
  label_found-Any machine (returns {a = some node} (d, e)) s =
      let (d', p, q) = label_node_lem range m machine node d e in rw p (sent-Any (answer s _) _ s)
  label_found-Any machine (throws e) s = throws e

  pub manage_node_label-Any :
      (machines : List Machine)
      → AreLabelled indexer
      → Runs Any (manage_node_label range m indexer answer machines)
  unfolding manage_node_label
  manage_node_label-Any [] h s = returns tt
  manage_node_label-Any (machine ∷ rest) h s =
      continue-Post _ _ (label_found-Any machine (h machine.node_name) s)
        λ u k. manage_node_label-Any rest h
