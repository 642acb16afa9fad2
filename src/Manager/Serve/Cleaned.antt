-- ===== src/Manager/Serve/Cleaned.antt =====
-- pkg/manager/manager.go: StartCDIManager once its controllers are started: the loop, and then the
-- cleanup of what it published.
use composable_dra_driver.Base.{
  String, List, ◌++◌, All, Outcome, ok, panic, ok_inj, and_then-ok, string_eq, lift, >>=-ok, ◌≡◌,
  ◌≢◌, refl, ap, sym, subst,
}
use composable_dra_driver.Base.Dict.{Distinct}
use composable_dra_driver.Base.Order.{Range, IsOrder}
use composable_dra_driver.Config.Types.{Config}
use composable_dra_driver.KubeUtils.Discovery.{DiscoveryClient, run, KubeControllers}
use composable_dra_driver.Client.Calls.{CdiClient}
use composable_dra_driver.Manager.Types.{Resources, Settings}
use composable_dra_driver.Manager.Slices.{Controller, Controllers}
use composable_dra_driver.Manager.Slices.Rescan.{HasControllers}
use composable_dra_driver.Manager.Fetch.Safe.{IsAnswering}
use composable_dra_driver.Manager.Loop.{World}
use composable_dra_driver.Manager.Loop.Safe.{IsRunning}
use composable_dra_driver.Manager.Start.{
  Lister, init_driver_resources, start_resource_slice_controller,
}
use composable_dra_driver.Manager.Start.Drivers.{
  init_driver_resources_lem, start_resource_slice_controller-HasControllers,
}
use composable_dra_driver.Manager.Start.Owned.{
  AreOwned, start_resource_slice_controller-AreOwned, AreOwned-CanClean,
}
use composable_dra_driver.Manager.Start.Cleaning.{stops, deletes, cleanup_resource_slices_lem}
use composable_dra_driver.Manager.Serve.{
  Cluster, Turn, Process, Manager, connect, configure, start_manager, on_calls, prepare, loop,
  serve, start_cdi_manager,
}
use composable_dra_driver.Manager.Serve.Turns.{CanTurn, loop-GoesOn}

-- What the loop begins with: the drivers of the settings, each with its controller, and no
-- controllers of others.
pub record IsPrepared {S : Type 0} (m : Manager S) (p : Process S) : Type 0 where
  pub running : IsRunning m.controllers p.world.publishing
  pub owned : AreOwned p.world.publishing.resources m.controllers

module _ {K U S : Type 0} (cluster : Cluster K U S) (cfg : Config)
    (order : IsOrder cluster.range) where
  start_manager-IsPrepared :
      (client : DiscoveryClient) (kc : KubeControllers) (cdi_client : CdiClient × String)
      (settings : Settings) (m : Manager S) (p : Process S)
      → p.world.publishing.resources ≡ init_driver_resources settings.device_infos
      → start_manager cluster cfg client kc cdi_client settings ≡ ok m
      → IsPrepared m p
  unfolding start_manager
  start_manager-IsPrepared client kc cdi_client settings m p e h =
      let (controllers, started, rest) =
        and_then-ok
          (start_resource_slice_controller cluster.range client cluster.starter
            (init_driver_resources settings.device_infos))
          _ h in
      let distinct = (init_driver_resources_lem settings.device_infos).0 in
      let same : controllers ≡ m.controllers =
        ap (λ (m : Manager S). m.controllers) (ok_inj rest) in
      let (running, owned) =
        subst
          (λ (c : Controllers).
            IsRunning c p.world.publishing × AreOwned p.world.publishing.resources c)
          same
          (subst
            (λ (r : Resources).
              (Distinct r × HasControllers controllers r) × AreOwned r controllers)
            (sym e)
            (
              (
                distinct,
                start_resource_slice_controller-HasControllers order client cluster.starter _
                    controllers distinct started,
              ),
              start_resource_slice_controller-AreOwned order client cluster.starter _ controllers
                  distinct started,
            )) in
      record { running = running; owned = owned }

  pub prepare-IsPrepared :
      (p : Process S) (m : Manager S) (q : Process S)
      → prepare cluster cfg p ≡ (ok m, q)
      → IsPrepared m q
  unfolding prepare
  prepare-IsPrepared p m q e =
      let ((client, kc), _, e1) = >>=-ok (lift (connect cluster cfg)) _ p e in
      let (u, _, e2) = >>=-ok (on_calls (run cluster.synced kc)) _ p e1 in
      let ((cdi_client, s), _, e3) = >>=-ok (lift (configure cluster cfg)) _ _ e2 in
      start_manager-IsPrepared client kc cdi_client s m q
        (sym (ap (λ (o : Outcome (Manager S) × Process S). o.1.world.publishing.resources) e3))
        (ap (λ (o : Outcome (Manager S) × Process S). o.0) e3)

module _ {U S : Type 0} (range : Range) (list : Lister) (m : Manager S) (turns : List (Turn U))
    (p : Process S) where
  abbrev pub world_after : World S
  world_after = (loop m turns p.world).1

  -- The process after the loop and the cleanup of all that the controllers published.
  abbrev pub cleaned : Process S
  cleaned = record p {
    world = world_after;
    cleanups =
        p.cleanups
        ++ stops (range String Controller m.controllers)
        ++ deletes list world_after.publishing.resources (range String Controller m.controllers);
  }

module _ {U S : Type 0} {range : Range} (order : IsOrder range) (list : Lister)
    (listed : (d : String) → list d ≢ panic) (m : Manager S) (answering : IsAnswering m.cdi_api)
    (turns : List (Turn U)) (p : Process S) where
  abbrev last : World S
  last = world_after range list m turns p

  serve-cleaned :
      All (CanTurn m) turns
      → IsPrepared m p
      → serve m range list turns p ≡ (ok tt, cleaned range list m turns p)
  unfolding serve
  serve-cleaned can prepared =
      let (well, running, same) = loop-GoesOn m answering turns p.world can prepared.running in
      let done =
        cleanup_resource_slices_lem range list last.publishing.resources m.controllers p.cleanups (
          AreOwned-CanClean order list p.world.publishing.resources last.publishing.resources
            m.controllers listed same prepared.owned) in
      rw (well, done) refl

-- If the manager could be prepared, every turn finds what it needs, the CDI components answer and no
-- listing of slices panics, StartCDIManager ends without an error or a panic, whatever errors its scans met; last,
-- it has stopped every controller and then asked, driver by driver, to delete the listed slices of the
-- pools that the driver has after the last scan, and no others.
pub start_cdi_manager-cleaned :
    {K U S : Type 0} (cluster : Cluster K U S) (cfg : Config) (order : IsOrder cluster.range)
    (listed : (d : String) → cluster.lister d ≢ panic) (turns : List (Turn U)) (p : Process S)
    (m : Manager S) (q : Process S) (answering : IsAnswering m.cdi_api)
    → prepare cluster cfg p ≡ (ok m, q)
    → All (CanTurn m) turns
    → start_cdi_manager cluster cfg turns p
      ≡ (ok tt, cleaned cluster.range cluster.lister m turns q)
unfolding start_cdi_manager
start_cdi_manager-cleaned cluster cfg order listed turns p m q answering e can = rw e (
    serve-cleaned order cluster.lister listed m answering turns q can
      (prepare-IsPrepared cluster cfg order p m q e))
