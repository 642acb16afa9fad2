-- ===== src/Manager/Fetch/Hosts.antt =====
-- pkg/manager/manager.go: getMachineUUIDs where bare-metal hosts name the machines.
use composable_dra_driver.Base.{
  String, Bool, true, false, ◌||◌, arith, subst, Option, none, some, List, [], ◌∷◌, All, ok, ◌≡◌,
  ◌≢◌, refl, sym, ◌∙◌, Bool-cases, inl, inr, true≢false, ◌==◌, string_eq, if◌then◌else◌,
}
use composable_dra_driver.Base.Dict.{Dict, insert, lookup}
use composable_dra_driver.KubeUtils.Objects.{Node, Object, unstructured, Value, text}
use composable_dra_driver.KubeUtils.Caches.{
  Indexer, Accessors, index_bmh_by_provider_id, bmh_provider_id_index, normalized_provider_string,
}
use composable_dra_driver.KubeUtils.Lookup.{
  provider_ids, list_provider_ids, find_node_name_by_provider_id, find_machine_uuid_by_provider_id,
  machine_annotation,
}
use composable_dra_driver.Manager.Fetch.{
  Caches, machine_uuid_of, add_machine_uuid, add_machine_uuids, get_machine_uuids,
}
use composable_dra_driver.Manager.Fetch.Uuids.{among, IsCached, IsAlone, string_ne}

-- The machine that a host with a key names, or none where no host has the key.
abbrev pub Hosts : Type 0
Hosts = String → Option String

-- One host with the key, whose annotation names the machine; or no host.
abbrev pub HasHost : {U : Type 0} → Caches U → Indexer U → String → Option String → Type 0
HasHost caches indexer key none = indexer.by_index bmh_provider_id_index key ≡ ok []
HasHost {U} caches indexer key (some machine) =
    (u : U) × (annotations : List (String × Value)) × (indexer.by_index bmh_provider_id_index key
      ≡ ok (unstructured u ∷ []))
    × (caches.fields.nested_map u ("metadata" ∷ "annotations" ∷ []) ≡ ok (some (some annotations)))
    × (lookup machine_annotation annotations ≡ some (text machine))

-- There is an index of the hosts, and it has them.
pub record AreHosted {U : Type 0} (caches : Caches U) (hosts : Hosts) : Type 0 where
  pub indexer : Indexer U
  pub there : caches.bare_metal_hosts ≡ some indexer
  pub host : (key : String) → HasHost caches indexer key (hosts key)

or_false : (b : Bool) → b || false ≡ b
or_false b = ground arith

abbrev named_by : Option String → String
named_by none = ""
named_by (some machine) = machine

-- The nodes with a provider id whose host names a machine, each with the machine.
abbrev pub by_host : Hosts → List Node → Dict String String → Dict String String
by_host hosts [] uuids = uuids
by_host hosts (n ∷ rest) uuids = by_host hosts rest (
    let machine = named_by (hosts (normalized_provider_string n.provider_id)) in
    if n.provider_id == ""
    then uuids
    else if machine == ""
    then uuids
    else insert n.name machine uuids)

module _ {U : Type 0} (caches : Caches U) (nodes : List Node) (cached : IsCached caches nodes)
    (hosts : Hosts) (hosted : AreHosted caches hosts) where
  machine_from_host :
      (key : String) (machine : Option String)
      → HasHost caches hosted.indexer key machine
      → find_machine_uuid_by_provider_id caches.fields caches.bare_metal_hosts key
        ≡ ok (named_by machine)
  unfolding find_machine_uuid_by_provider_id
  machine_from_host key none h = rw (hosted.there, h) refl
  machine_from_host key (some machine) (u, annotations, found, read, named) =
      rw (hosted.there, found) (rw read (rw named refl))

  add_machine_uuid_hosted :
      (n : Node) (uuids : Dict String String)
      → IsAlone U nodes n
      → n.provider_id ≢ ""
      → let key = normalized_provider_string n.provider_id in
        add_machine_uuid true caches key uuids
        ≡ ok (
            if named_by (hosts key) == ""
            then uuids
            else insert n.name (named_by (hosts key)) uuids)
  unfolding add_machine_uuid find_node_name_by_provider_id machine_uuid_of
  add_machine_uuid_hosted n uuids alone has =
      let key = normalized_provider_string n.provider_id in
      rw (cached.found key, alone.1 has)
        (rw (string_ne n.name "" alone.0) (
          rw (machine_from_host key (hosts key) (hosted.host key))
            (elim (Bool-cases (named_by (hosts key) == "")) [
              | inl unnamed ↦ rw unnamed refl
              | inr named ↦ rw named refl
            ])))

  add_machine_uuids_hosted :
      (rest : List Node) (uuids : Dict String String)
      → All (IsAlone U nodes) rest
      → add_machine_uuids true caches (provider_ids rest) uuids ≡ ok (by_host hosts rest uuids)
  unfolding add_machine_uuids provider_ids
  add_machine_uuids_hosted [] uuids h = refl
  add_machine_uuids_hosted (n ∷ rest) uuids h = elim (Bool-cases (n.provider_id == "")) [
    | inl without ↦ rw without (add_machine_uuids_hosted rest uuids h.1)
    | inr has ↦
        rw
          (
            has,
            add_machine_uuid_hosted n uuids h.0
                (λ e. true≢false (sym ((string_eq.equals_iff n.provider_id "").1 e) ∙ has)),
          )
          (add_machine_uuids_hosted rest _ h.1)
  ]

  machines_from_hosts :
      All (IsAlone U nodes) nodes → get_machine_uuids true caches ≡ ok (by_host hosts nodes [])
  unfolding get_machine_uuids list_provider_ids
  machines_from_hosts h = rw (cached.listed) (add_machine_uuids_hosted nodes [] h)

-- A bare-metal host: its uid, and the machine that its annotation names.
pub record Host : Type 0 where
  pub uid : String
  pub machine : String

-- The object is the host's.
pub record IsHost {U : Type 0} (fields : Accessors U) (e : U × Host) : Type 0 where
  pub annotations : List (String × Value)
  pub identified : fields.nested_string e.0 ("metadata" ∷ "uid" ∷ []) ≡ ok (some e.1.uid)
  pub named : e.1.uid ≢ ""
  pub annotated :
      fields.nested_map e.0 ("metadata" ∷ "annotations" ∷ []) ≡ ok (some (some annotations))
  pub machine : lookup machine_annotation annotations ≡ some (text e.1.machine)

-- No two hosts share a uid.
abbrev pub AreApart : {U : Type 0} → List (U × Host) → Type 0
AreApart [] = Unit
AreApart (e ∷ rest) = All (λ other. other.1.uid ≢ e.1.uid) rest × AreApart rest

-- The hosts that an index by the keys of `index_bmh_by_provider_id` has under a key.
abbrev pub indexed_hosts : {U : Type 0} → Accessors U → String → List (U × Host) → List (Object U)
indexed_hosts fields key [] = []
indexed_hosts fields key (e ∷ rest) =
    let others = indexed_hosts fields key rest in
    if among key (index_bmh_by_provider_id fields (unstructured e.0))
    then unstructured e.0 ∷ others
    else others

-- The machine of the host with a uid.
abbrev pub machine_with : {U : Type 0} → List (U × Host) → Hosts
machine_with [] uid = none
machine_with (e ∷ rest) uid = if e.1.uid == uid then some e.1.machine else machine_with rest uid

-- The informer's index has the hosts, each under its key.
pub record AreIndexed {U : Type 0} (caches : Caches U) (hosts : List (U × Host)) : Type 0 where
  pub indexer : Indexer U
  pub there : caches.bare_metal_hosts ≡ some indexer
  pub found :
      (key : String)
      → indexer.by_index bmh_provider_id_index key ≡ ok (indexed_hosts caches.fields key hosts)
  pub known : All (IsHost caches.fields) hosts
  pub apart : AreApart hosts

module _ {U : Type 0} (fields : Accessors U) (key : String) where
  among-IsHost :
      (e : U × Host)
      → IsHost fields e
      → among key (index_bmh_by_provider_id fields (unstructured e.0)) ≡ (e.1.uid == key)
  unfolding index_bmh_by_provider_id
  among-IsHost e h = rw h.identified (rw (string_ne e.1.uid "" h.named) (or_false (e.1.uid == key)))

  indexed_hosts_none :
      (hosts : List (U × Host))
      → All (IsHost fields) hosts
      → All (λ e. e.1.uid ≢ key) hosts
      → indexed_hosts fields key hosts ≡ []
  indexed_hosts_none [] known others = refl
  indexed_hosts_none (e ∷ rest) known others =
      rw (among-IsHost e known.0 ∙ string_ne e.1.uid key others.0)
        (indexed_hosts_none rest known.1 others.1)

-- Under each key stands the host with that uid, and no other.
AreIndexed-HasHost :
    {U : Type 0} (caches : Caches U) (indexer : Indexer U) (key : String) (hosts : List (U × Host))
    → indexer.by_index bmh_provider_id_index key ≡ ok (indexed_hosts caches.fields key hosts)
    → All (IsHost caches.fields) hosts
    → AreApart hosts
    → HasHost caches indexer key (machine_with hosts key)
AreIndexed-HasHost caches indexer key [] found known apart = found
AreIndexed-HasHost caches indexer key (e ∷ rest) found known apart =
    elim (Bool-cases (e.1.uid == key)) [
      | inl same ↦
          let alone = indexed_hosts_none caches.fields key rest known.1 (
            subst (λ k. All (λ other. other.1.uid ≢ k) rest)
              ((string_eq.equals_iff e.1.uid key).0 same) apart.0) in
          rw same (
            e.0,
            known.0.annotations,
            (rw (among-IsHost caches.fields key e known.0 ∙ same, alone) at found),
            known.0.annotated,
            known.0.machine,
          )
      | inr other ↦ rw other (
          AreIndexed-HasHost caches indexer key rest
            (rw (among-IsHost caches.fields key e known.0 ∙ other) at found) known.1 apart.1)
    ]

-- Where bare-metal hosts are used, the lister and the index hold the same nodes, every node has a
-- name, no two share the last part of a provider id, the index of the hosts is the one by their uids,
-- none of which is empty and no two of which are the same, and each host is annotated with a machine,
-- the machines are the nodes with a provider id whose last part is the uid of a host that names
-- a machine, each with that machine.
pub get_machine_uuids-by_host :
    {U : Type 0} (caches : Caches U) (nodes : List Node) (hosts : List (U × Host))
    → IsCached caches nodes
    → AreIndexed caches hosts
    → All (IsAlone U nodes) nodes
    → get_machine_uuids true caches ≡ ok (by_host (machine_with hosts) nodes [])
get_machine_uuids-by_host caches nodes hosts cached indexed alone =
    machines_from_hosts caches nodes cached (machine_with hosts)
      (record {
        indexer = indexed.indexer;
        there = indexed.there;
        host = λ key.
            AreIndexed-HasHost caches indexed.indexer key hosts (indexed.found key) indexed.known
              indexed.apart;
      })
      alone
