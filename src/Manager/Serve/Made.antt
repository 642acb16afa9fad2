-- ===== src/Manager/Serve/Made.antt =====
-- pkg/manager/manager.go: the pools and the drivers over the turns of the loop of StartCDIManager.
use composable_dra_driver.Base.{
  String, true, some, List, [], ◌∷◌, All, Outcome, ok, lift, >>=-ok, ◌≡◌, refl, ap, sym, ◌∙◌, inl,
  inr, Bool-cases, arith, string_eq,
}
use composable_dra_driver.Base.Dict.{lookup, contains, is_some}
use composable_dra_driver.Config.Types.{DeviceInfo, Config}
use composable_dra_driver.Config.Checks.Unique.{IsStrict}
use composable_dra_driver.KubeUtils.Discovery.{run}
use composable_dra_driver.Manager.Types.{Settings}
use composable_dra_driver.Manager.Pools.View.{found_pool}
use composable_dra_driver.Manager.Slices.Made.{HaveMaps, AreMade}
use composable_dra_driver.Manager.Collect.Devices.{info_of}
use composable_dra_driver.Manager.Fetch.Safe.{IsAnswering}
use composable_dra_driver.Manager.Loop.{World}
use composable_dra_driver.Manager.Loop.Safe.{IsRunning}
use composable_dra_driver.Manager.Loop.Made.{check_resource_pool-AreMade}
use composable_dra_driver.Manager.Start.{init_driver_resources}
use composable_dra_driver.Manager.Start.Drivers.{has_driver, init_driver_resources_lem}
use composable_dra_driver.Manager.Serve.{
  Cluster, Turn, Process, Manager, caches_of, connect, configure, on_calls, prepare, one_turn, loop,
}
use composable_dra_driver.Manager.Serve.Turns.{CanTurn, one_turn-GoesOn}
use composable_dra_driver.Manager.Serve.Advertised.{
  IsAmong, info_of-IsAmong, start_manager-settings,
}

-- Some entry is of the driver of an entry.
has_driver-IsAmong :
    (i : DeviceInfo) (infos : List DeviceInfo)
    → IsAmong i infos
    → has_driver i.driver_name infos ≡ true
has_driver-IsAmong i [] among = absurd among
has_driver-IsAmong i (j ∷ rest) (inl same) = ground (
  arith,
  string_eq.equals_iff j.driver_name i.driver_name,
  ap (λ (x : DeviceInfo). x.driver_name) same,
)
has_driver-IsAmong i (j ∷ rest) (inr among) = ground (arith, has_driver-IsAmong i rest among)

-- At the start there is no pool, and every driver of an entry.
pub start-AreMade :
    (infos : List DeviceInfo) (prefix : String) → AreMade infos prefix (init_driver_resources infos)
unfolding found_pool lookup
start-AreMade infos prefix driver name p e =
    let shape = (init_driver_resources_lem infos).1 driver in
    elim (Bool-cases (has_driver driver infos)) [
      | inl there ↦ cc (rw (shape, there) at e)
      | inr absent ↦ cc (rw (shape, absent) at e)
    ]

pub start_contains :
    (infos : List DeviceInfo) (model : String) (i : DeviceInfo)
    → info_of model infos ≡ some i
    → contains i.driver_name (init_driver_resources infos) ≡ true
start_contains infos model i known =
    let there = has_driver-IsAmong i infos (info_of-IsAmong model infos i known).1 in
    ap is_some ((init_driver_resources_lem infos).1 i.driver_name) ∙ rw there refl

module _ {K U S : Type 0} (cluster : Cluster K U S) (cfg : Config)
    (strict : IsStrict cluster.reading) where
  -- The manager starts with the drivers of its entries.
  pub prepare-resources :
      (p : Process S) (m : Manager S) (q : Process S)
      → prepare cluster cfg p ≡ (ok m, q)
      → q.world.publishing.resources ≡ init_driver_resources m.settings.device_infos
  unfolding prepare
  prepare-resources p m q e =
      let ((client, kc), _, e1) = >>=-ok (lift (connect cluster cfg)) _ p e in
      let (u, _, e2) = >>=-ok (on_calls (run cluster.synced kc)) _ p e1 in
      let ((cdi_client, s), _, e3) = >>=-ok (lift (configure cluster cfg)) _ _ e2 in
      sym (ap (λ (o : Outcome (Manager S) × Process S). o.1.world.publishing.resources) e3)
      ∙ ap (λ (s : Settings). init_driver_resources s.device_infos)
          (start_manager-settings cluster cfg strict client kc cdi_client s m
            (ap (λ (o : Outcome (Manager S) × Process S). o.0) e3))

abbrev pub AllMade : {S : Type 0} → Manager S → World S → Type 0
AllMade m w = AreMade m.settings.device_infos m.settings.label_prefix w.publishing.resources

module _ {U S : Type 0} (m : Manager S) (answering : IsAnswering m.cdi_api)
    (maps : HaveMaps m.settings.device_infos) where
  pub one_turn-AreMade :
      (turn : Turn U) (w : World S)
      → CanTurn m turn
      → IsRunning m.controllers w.publishing
      → AllMade m w
      → AllMade m (one_turn m turn w).1
  unfolding one_turn
  one_turn-AreMade turn w (order, can) running made =
      check_resource_pool-AreMade order m.cdi_api (caches_of m.kube_controllers turn) turn.answer
        m.settings m.controllers maps w answering can running made

  pub loop-AreMade :
      (turns : List (Turn U)) (w : World S)
      → All (CanTurn m) turns
      → IsRunning m.controllers w.publishing
      → AllMade m w
      → AllMade m (loop m turns w).1
  unfolding loop
  loop-AreMade [] w h running made = made
  loop-AreMade (turn ∷ rest) w (h, more) running made =
      let (well, still, same) = one_turn-GoesOn m answering turn w h running in
      rw well (
        loop-AreMade rest (one_turn m turn w).1 more still (one_turn-AreMade turn w h running made))
