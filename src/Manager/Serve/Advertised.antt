-- ===== src/Manager/Serve/Advertised.antt =====
-- pkg/manager/manager.go: what the pools advertise after any turn of the loop of StartCDIManager.
use composable_dra_driver.Base.{
  String, Option, none, some, List, [], ◌∷◌, All, Outcome, ok, err, panic, ok_inj, and_then,
  and_then-ok, lift, >>=-ok, ◌≡◌, ◌≢◌, ap, sym, subst, ◌∙◌, ◌⊎◌, inl, inr, Option-cases, Bool-cases,
  ◌==◌, string_eq,
}
use composable_dra_driver.Base.Order.{IsOrder}
use composable_dra_driver.Config.Types.{DeviceInfo, Config}
use composable_dra_driver.Client.Token.{secret_key}
use composable_dra_driver.Config.Checks.{Validation, Reading, get_device_infos, get_label_prefix}
use composable_dra_driver.Config.Checks.Unique.{AreUnique, IsStrict, get_device_infos-AreUnique}
use composable_dra_driver.KubeUtils.Objects.{ConfigMap}
use composable_dra_driver.KubeUtils.Caches.{get_config_map, get_secret}
use composable_dra_driver.KubeUtils.Discovery.{DiscoveryClient, KubeControllers, run}
use composable_dra_driver.Client.Calls.{CdiClient}
use composable_dra_driver.Client.Build.{build_cdi_client}
use composable_dra_driver.Manager.Types.{Machine, Settings}
use composable_dra_driver.Manager.Slices.Jobs.{jobs}
use composable_dra_driver.Manager.Slices.Settled.{Advertised}
use composable_dra_driver.Manager.Fetch.Safe.{IsAnswering}
use composable_dra_driver.Manager.Collect.{collect_machines}
use composable_dra_driver.Manager.Collect.Devices.{info_of}
use composable_dra_driver.Manager.Collect.Whole.{HasUniqueNames}
use composable_dra_driver.Manager.Loop.Safe.{check_resource_pool-advertises}
use composable_dra_driver.Manager.Start.{
  read_settings, init_driver_resources, start_resource_slice_controller,
}
use composable_dra_driver.Manager.Serve.{
  config_map_name, Cluster, Turn, Process, Manager, caches_of, connect, configure, start_manager,
  on_calls, prepare, one_turn, loop,
}
use composable_dra_driver.Manager.Serve.Turns.{CanTurn, loop-GoesOn}
use composable_dra_driver.Manager.Serve.Cleaned.{prepare-IsPrepared}

abbrev pub IsAmong : DeviceInfo → List DeviceInfo → Type 0
IsAmong a [] = ⊥
IsAmong a (i ∷ rest) = (a ≡ i) ⊎ IsAmong a rest

later_entry :
    (k : String) (i : DeviceInfo) (rest : List DeviceInfo) (a : DeviceInfo)
    → info_of k (i ∷ rest) ≡ some a
    → (info_of k rest ≡ some a) ⊎ ((a ≡ i) × (i.cdi_model_name ≡ k))
later_entry k i rest a e = elim (Option-cases (info_of k rest)) [
  | inr (b, there) ↦ inl (there ∙ (rw there at e))
  | inl absent ↦ elim (Bool-cases (i.cdi_model_name == k)) [
    | inl same ↦ inr (cc (rw (absent, same) at e), (string_eq.equals_iff i.cdi_model_name k).0 same)
    | inr other ↦ cc (rw (absent, other) at e)
  ]
]

-- The entry of a model is among the entries, and of the model.
pub info_of-IsAmong :
    (k : String) (infos : List DeviceInfo) (a : DeviceInfo)
    → info_of k infos ≡ some a
    → (a.cdi_model_name ≡ k) × IsAmong a infos
info_of-IsAmong k [] a e = cc e
info_of-IsAmong k (i ∷ rest) a e = elim (later_entry k i rest a e) [
  | inl there ↦ let (model, among) = info_of-IsAmong k rest a there in (model, inr among)
  | inr (same, model) ↦ (ap (λ (x : DeviceInfo). x.cdi_model_name) same ∙ model, inl same)
]

differs :
    (name : String) (infos : List DeviceInfo) (a : DeviceInfo)
    → All (λ j. j.k8s_device_name ≢ name) infos
    → IsAmong a infos
    → a.k8s_device_name ≢ name
differs name [] a h among = absurd among
differs name (i ∷ rest) a h (inl same) =
    subst (λ (x : DeviceInfo). x.k8s_device_name ≢ name) (sym same) h.0
differs name (i ∷ rest) a h (inr among) = differs name rest a h.1 among

one_entry :
    (infos : List DeviceInfo) (a b : DeviceInfo)
    → AreUnique infos
    → IsAmong a infos
    → IsAmong b infos
    → a.k8s_device_name ≡ b.k8s_device_name
    → a ≡ b
one_entry [] a b u p q e = absurd p
one_entry (i ∷ rest) a b u (inl p) (inl q) e = p ∙ sym q
one_entry (i ∷ rest) a b u (inl p) (inr q) e =
    absurd (
      differs i.k8s_device_name rest b u.0 q (sym e ∙ ap (λ (x : DeviceInfo). x.k8s_device_name) p))
one_entry (i ∷ rest) a b u (inr p) (inl q) e =
    absurd
      (differs i.k8s_device_name rest a u.0 p (e ∙ ap (λ (x : DeviceInfo). x.k8s_device_name) q))
one_entry (i ∷ rest) a b u (inr p) (inr q) e = one_entry rest a b u.1 p q e

pub AreUnique-HasUniqueNames : (infos : List DeviceInfo) → AreUnique infos → HasUniqueNames infos
AreUnique-HasUniqueNames infos u k j a b p q e =
    let (ka, among_a) = info_of-IsAmong k infos a p in
    let (jb, among_b) = info_of-IsAmong j infos b q in
    sym ka
    ∙ ap (λ (x : DeviceInfo). x.cdi_model_name) (one_entry infos a b u among_a among_b e)
    ∙ jb

read_settings-AreUnique :
    (v : Validation) (reading : Reading) (cfg : Config) (cm : Outcome (Option ConfigMap))
    (m : Settings)
    → IsStrict reading
    → read_settings v reading cfg cm ≡ ok m
    → AreUnique m.device_infos
unfolding read_settings
read_settings-AreUnique v reading cfg (err e) m strict h = cc h
read_settings-AreUnique v reading cfg panic m strict h = cc h
read_settings-AreUnique v reading cfg (ok none) m strict h =
    subst (λ (s : Settings). AreUnique s.device_infos) (ok_inj h) tt
read_settings-AreUnique v reading cfg (ok (some cm)) m strict h =
    let (infos, found, rest) = and_then-ok (get_device_infos v reading cm) _ h in
    let (prefix, _, last) = and_then-ok (get_label_prefix v cm) _ rest in
    subst (λ (s : Settings). AreUnique s.device_infos) (ok_inj last)
      (get_device_infos-AreUnique v reading cm infos strict found)

module _ {K U S : Type 0} (cluster : Cluster K U S) (cfg : Config)
    (strict : IsStrict cluster.reading) where
  configure-AreUnique :
      (cdi_client : CdiClient × String) (m : Settings)
      → configure cluster cfg ≡ ok (cdi_client, m)
      → AreUnique m.device_infos
  unfolding configure
  configure-AreUnique cdi_client m e =
      let cm = get_config_map cluster.config_maps config_map_name in
      let read = read_settings cluster.validation cluster.reading cfg cm in
      let (client, _, rest) =
        and_then-ok (build_cdi_client cfg (get_secret cluster.secrets secret_key))
          (λ c. and_then read λ s. ok (c, s)) e in
      let (s, found, last) = and_then-ok read (λ s. ok (client, s)) rest in
      subst (λ (s : Settings). AreUnique s.device_infos)
        (ap (λ (c : (CdiClient × String) × Settings). c.1) (ok_inj last))
        (read_settings-AreUnique cluster.validation cluster.reading cfg cm s strict found)

  pub start_manager-settings :
      (client : DiscoveryClient) (kc : KubeControllers) (cdi_client : CdiClient × String)
      (settings : Settings) (m : Manager S)
      → start_manager cluster cfg client kc cdi_client settings ≡ ok m
      → settings ≡ m.settings
  unfolding start_manager
  start_manager-settings client kc cdi_client settings m h =
      let (controllers, _, rest) =
        and_then-ok
          (start_resource_slice_controller cluster.range client cluster.starter
            (init_driver_resources settings.device_infos))
          _ h in
      ap (λ (m : Manager S). m.settings) (ok_inj rest)

  pub prepare-AreUnique :
      (p : Process S) (m : Manager S) (q : Process S)
      → prepare cluster cfg p ≡ (ok m, q)
      → AreUnique m.settings.device_infos
  unfolding prepare
  prepare-AreUnique p m q e =
      let ((client, kc), _, e1) = >>=-ok (lift (connect cluster cfg)) _ p e in
      let (u, _, e2) = >>=-ok (on_calls (run cluster.synced kc)) _ p e1 in
      let ((cdi_client, s), read, e3) = >>=-ok (lift (configure cluster cfg)) _ _ e2 in
      subst (λ (s : Settings). AreUnique s.device_infos)
        (start_manager-settings client kc cdi_client s m
          (ap (λ (o : Outcome (Manager S) × Process S). o.0) e3))
        (configure-AreUnique cdi_client s read)

  -- If the manager could be prepared with a validator that keeps to the tags, the CDI components
  -- answer, and every turn finds what it needs, then after any turns, whatever errors they met, a turn
  -- that collects machines leaves the pool of every device of the first machine of each fabric
  -- whose driver is managed with exactly the devices that are available, whatever comes of the labels.
  pub prepare-advertises :
      (order : IsOrder cluster.range) (p : Process S) (m : Manager S) (q : Process S)
      (answering : IsAnswering m.cdi_api) (turns : List (Turn U)) (turn : Turn U)
      (machines : List Machine)
      → prepare cluster cfg p ≡ (ok m, q)
      → All (CanTurn m) turns
      → CanTurn m turn
      → let w = (loop m turns q.world).1 in
        (collect_machines turn.range m.cdi_api m.settings
            (caches_of m.kube_controllers turn)
            w.cdi).0
          ≡ ok machines
        → All
            (Advertised (one_turn m turn (loop m turns q.world).1).1.publishing.resources)
            (jobs turn.range machines [])
  unfolding one_turn
  prepare-advertises order p m q answering turns turn machines e all (each, can) collected =
      let prepared = prepare-IsPrepared cluster cfg order p m q e in
      let (well, running, same) = loop-GoesOn m answering turns q.world all prepared.running in
      check_resource_pool-advertises each m.cdi_api (caches_of m.kube_controllers turn) turn.answer
        m.settings m.controllers answering can (loop m turns q.world).1 running machines
        (AreUnique-HasUniqueNames m.settings.device_infos (prepare-AreUnique p m q e)) collected
