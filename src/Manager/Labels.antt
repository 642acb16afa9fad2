-- ===== src/Manager/Labels.antt =====
-- pkg/manager/manager.go: manageCDINodeLabel. A map that is nil reads as empty, and a write to it
-- panics.
pub mod Desired
pub mod Safe
use composable_dra_driver.Base.{
  ℤ, String, Option, none, some, List, [], ◌∷◌, ◌++◌, Outcome, ok, err, panic, Error, Action, pure,
  ◌>>◌, and_then, ◌==◌, string_eq, if◌then◌else◌,
}
use composable_dra_driver.Base.Dict.{Dict, lookup, insert}
use composable_dra_driver.Base.Order.{Range}
use composable_dra_driver.Base.Text.{◌⧺◌, itoa}
use composable_dra_driver.KubeUtils.Objects.{Node}
use composable_dra_driver.KubeUtils.Caches.{Indexer, get_node}
use composable_dra_driver.Manager.Types.{Device, Machine, Settings}

abbrev pub Labels : Type 0
Labels = Option (Dict String String)

abbrev pub text_of : Option String → String
text_of none = ""
text_of (some v) = v

abbrev pub label : String → Labels → String
label key none = ""
label key (some d) = text_of (lookup key d)

abbrev pub write_label : String → String → Labels → Outcome Labels
write_label key value none = panic
write_label key value (some d) = ok (some (insert key value d))

-- A label is written if it has another value.
unfoldable pub change_label : String → String → Labels → Outcome Labels
change_label key value labels =
    if label key labels == value then ok labels else write_label key value labels

-- A bound that is not known is written as "0".
unfoldable pub bound_label : String → Option ℤ → Labels → Outcome Labels
unfolding change_label
bound_label key none labels = write_label key "0" labels
bound_label key (some n) labels = change_label key (itoa n) labels

abbrev pub fabric_key : Settings → String
fabric_key m = m.label_prefix ⧺ "/" ⧺ "fabric"

abbrev pub max_key : Settings → Device → String
max_key m device = m.label_prefix ⧺ "/" ⧺ device.k8s_device_name ⧺ "-size-max"

abbrev pub min_key : Settings → Device → String
min_key m device = m.label_prefix ⧺ "/" ⧺ device.k8s_device_name ⧺ "-size-min"

unfoldable pub fabric_label : Settings → Option ℤ → Labels → Outcome Labels
unfolding change_label
fabric_label m none labels = ok labels
fabric_label m (some f) labels = change_label (fabric_key m) (itoa f) labels

unfoldable pub device_labels : Settings → List (String × Device) → Labels → Outcome Labels
unfolding bound_label
device_labels m [] labels = ok labels
device_labels m ((model, device) ∷ rest) labels =
    and_then (bound_label (max_key m device) device.max_device_count labels) λ l.
      and_then (bound_label (min_key m device) device.min_device_count l)
        λ l'. device_labels m rest l'

-- The API server's answer to an update, after the updates that it has taken: nil, or an error.
abbrev pub Answer : Type 0
Answer = List Node → Node → Option Error

abbrev sent : Option Error → Node → Action (List Node) (Unit {0})
sent none node updates = (ok tt, updates ++ node ∷ [])
sent (some e) node updates = (err e, updates)

module _ (range : Range) (m : Settings) where
  unfoldable pub label_node : Machine → Node → Outcome Node
  unfolding fabric_label device_labels
  label_node machine node = and_then (fabric_label m machine.fabric_id node.labels) λ l.
      and_then
        (if m.options.use_cm
          then device_labels m (range String Device machine.device_list) l
          else ok l)
        λ l'. ok (record node { labels = l' })

  module _ {U : Type 0} (indexer : Indexer U) (answer : Answer) where
    abbrev update_node : Outcome Node → Action (List Node) (Unit {0})
    update_node (ok node) updates = sent (answer updates node) node updates
    update_node (err e) updates = (err e, updates)
    update_node panic updates = (panic, updates)

    abbrev label_found : Machine → Outcome (Option Node) → Action (List Node) (Unit {0})
    label_found machine (ok none) updates = (ok tt, updates)
    label_found machine (ok (some node)) updates = update_node (label_node machine node) updates
    label_found machine (err e) updates = (err e, updates)
    label_found machine panic updates = (panic, updates)

    unfoldable pub manage_node_label : List Machine → Action (List Node) (Unit {0})
    unfolding label_node
    manage_node_label [] = pure tt
    manage_node_label (machine ∷ rest) = do
      label_found machine (get_node indexer machine.node_name)
      manage_node_label rest
