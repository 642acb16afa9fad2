-- ===== src/Manager/Fetch/Uuids.antt =====
-- pkg/manager/manager.go: getMachineUUIDs over an index of the nodes.
use composable_dra_driver.Base.{
  String, Bool, false, ◌||◌, List, [], ◌∷◌, All, ok, ◌≡◌, ◌≢◌, refl, sym, ◌∙◌, arith, Bool-cases,
  inl, inr, true≢false, ◌==◌, string_eq, if◌then◌else◌,
}
use composable_dra_driver.Base.Dict.{Dict, insert}
use composable_dra_driver.KubeUtils.Objects.{Node, Object, node}
use composable_dra_driver.KubeUtils.Caches.{
  node_provider_id_index, normalized_provider_string, index_node_by_provider_id,
}
use composable_dra_driver.KubeUtils.Lookup.{
  provider_ids, list_provider_ids, find_node_name_by_provider_id,
}
use composable_dra_driver.Manager.Fetch.{
  Caches, machine_uuid_of, add_machine_uuid, add_machine_uuids, get_machine_uuids,
}

abbrev pub among : String → List String → Bool
among key [] = false
among key (k ∷ rest) = k == key || among key rest

-- The nodes that an index by the keys of `index_node_by_provider_id` has under a key.
abbrev pub indexed : (U : Type 0) → String → List Node → List (Object U)
indexed U key [] = []
indexed U key (n ∷ rest) =
    let others = indexed U key rest in
    if among key (index_node_by_provider_id {U = U} (node n)) then node n ∷ others else others

-- The lister lists the nodes, and the index is the one that the informer keeps of them.
pub record IsCached {U : Type 0} (caches : Caches U) (nodes : List Node) : Type 0 where
  pub listed : caches.lister ≡ ok nodes
  pub found :
      (key : String) → caches.nodes.by_index node_provider_id_index key ≡ ok (indexed U key nodes)

-- The node has a name, and its provider id, if it has one, is no other node's.
abbrev pub IsAlone : (U : Type 0) → List Node → Node → Type 0
IsAlone U nodes n =
    (n.name ≢ "")
    × (n.provider_id ≢ ""
        → indexed U (normalized_provider_string n.provider_id) nodes ≡ node n ∷ [])

-- The nodes that have a provider id, each with the last part of it, written one after the other.
abbrev pub by_provider_id : List Node → Dict String String → Dict String String
by_provider_id [] uuids = uuids
by_provider_id (n ∷ rest) uuids = by_provider_id rest (
    if n.provider_id == ""
    then uuids
    else insert n.name (normalized_provider_string n.provider_id) uuids)

pub string_ne : (a b : String) → a ≢ b → (a == b) ≡ false
string_ne a b h = ground (arith, string_eq.equals_iff a b)

module _ {U : Type 0} (caches : Caches U) (nodes : List Node) (cached : IsCached caches nodes) where
  add_machine_uuid_alone :
      (n : Node) (uuids : Dict String String)
      → IsAlone U nodes n
      → n.provider_id ≢ ""
      → add_machine_uuid false caches (normalized_provider_string n.provider_id) uuids
        ≡ ok (insert n.name (normalized_provider_string n.provider_id) uuids)
  unfolding add_machine_uuid find_node_name_by_provider_id machine_uuid_of
  add_machine_uuid_alone n uuids alone has =
      rw (cached.found (normalized_provider_string n.provider_id), alone.1 has)
        (rw (string_ne n.name "" alone.0) refl)

  add_machine_uuids_alone :
      (rest : List Node) (uuids : Dict String String)
      → All (IsAlone U nodes) rest
      → add_machine_uuids false caches (provider_ids rest) uuids ≡ ok (by_provider_id rest uuids)
  unfolding add_machine_uuids provider_ids
  add_machine_uuids_alone [] uuids h = refl
  add_machine_uuids_alone (n ∷ rest) uuids h = elim (Bool-cases (n.provider_id == "")) [
    | inl without ↦ rw without (add_machine_uuids_alone rest uuids h.1)
    | inr has ↦
        rw
          (
            has,
            add_machine_uuid_alone n uuids h.0
                (λ e. true≢false (sym ((string_eq.equals_iff n.provider_id "").1 e) ∙ has)),
          )
          (add_machine_uuids_alone rest _ h.1)
  ]

  -- Where bare-metal hosts are not used, the lister and the index hold the same nodes, every node has
  -- a name and no two share the last part of a provider id, the machines are the nodes that have a
  -- provider id, each with its last part.
  pub get_machine_uuids-by_provider_id :
      All (IsAlone U nodes) nodes → get_machine_uuids false caches ≡ ok (by_provider_id nodes [])
  unfolding get_machine_uuids list_provider_ids
  get_machine_uuids-by_provider_id h = rw (cached.listed) (add_machine_uuids_alone nodes [] h)
