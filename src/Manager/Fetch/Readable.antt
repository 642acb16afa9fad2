-- ===== src/Manager/Fetch/Readable.antt =====
-- pkg/manager/manager.go: getMachineUUIDs over caches that can be read.
use composable_dra_driver.Base.{
  String, Bool, true, false, ◌&&◌, some, List, [], ◌∷◌, Outcome, returns, and_then-Post, ◌≡◌, ◌==◌,
  string_eq, if◌then◌else◌, Bool-cases, inl, inr,
}
use composable_dra_driver.Base.Dict.{Dict}
use composable_dra_driver.KubeUtils.Caches.{Indexer}
use composable_dra_driver.KubeUtils.Lookup.Readable.{
  Ends, IsReadable, find_node_name_by_provider_id-Ends, find_machine_uuid_by_provider_id-Ends,
  list_provider_ids-Ends,
}
use composable_dra_driver.Manager.Fetch.{
  Caches, machine_uuid_of, add_machine_uuid, add_machine_uuids, get_machine_uuids,
}

-- The reads end, and where bare-metal hosts are used there is an index of them.
pub record AreReadable {U : Type 0} (use_capi_bmh : Bool) (caches : Caches U) : Type 0 where
  pub lister : Ends caches.lister
  pub nodes : IsReadable caches.nodes
  pub hosts :
      use_capi_bmh ≡ true
      → (indexer : Indexer U) × (caches.bare_metal_hosts ≡ some indexer) × IsReadable indexer
  pub fields : (u : U) (path : List String) → Ends (caches.fields.nested_map u path)

module _ {U : Type 0} (use_capi_bmh : Bool) (caches : Caches U)
    (readable : AreReadable use_capi_bmh caches) where
  machine_uuid_of-Ends :
      (provider_id : String) → Ends (machine_uuid_of use_capi_bmh caches provider_id)
  unfolding machine_uuid_of
  machine_uuid_of-Ends provider_id = elim (Bool-cases use_capi_bmh) [
    | inl on ↦
        let (indexer, there, h) = readable.hosts on in
        rw (on, there)
          (find_machine_uuid_by_provider_id-Ends caches.fields readable.fields indexer provider_id
            h)
    | inr off ↦ rw off (returns tt)
  ]

  if-Ends {ℓ} :
      {A : Type ℓ} (b : Bool) {r s : Outcome A} → Ends r → Ends s → Ends (if b then r else s)
  if-Ends true h k = h
  if-Ends false h k = k

  add_machine_uuid-Ends :
      (provider_id : String) (uuids : Dict String String)
      → Ends (add_machine_uuid use_capi_bmh caches provider_id uuids)
  unfolding add_machine_uuid
  add_machine_uuid-Ends provider_id uuids =
      and_then-Post (find_node_name_by_provider_id-Ends caches.nodes provider_id readable.nodes)
        λ name h. if-Ends (name == "") (returns tt) (
          and_then-Post (machine_uuid_of-Ends provider_id)
            λ uuid k. if-Ends (use_capi_bmh && uuid == "") (returns tt) (returns tt))

  add_machine_uuids-Ends :
      (ids : List String) (uuids : Dict String String)
      → Ends (add_machine_uuids use_capi_bmh caches ids uuids)
  unfolding add_machine_uuids
  add_machine_uuids-Ends [] uuids = returns tt
  add_machine_uuids-Ends (id ∷ rest) uuids =
      and_then-Post (add_machine_uuid-Ends id uuids) λ uuids' h. add_machine_uuids-Ends rest uuids'

  pub get_machine_uuids-Ends : Ends (get_machine_uuids use_capi_bmh caches)
  unfolding get_machine_uuids
  get_machine_uuids-Ends =
      and_then-Post (list_provider_ids-Ends readable.lister) λ ids h. add_machine_uuids-Ends ids []
