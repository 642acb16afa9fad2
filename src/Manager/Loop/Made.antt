-- ===== src/Manager/Loop/Made.antt =====
-- pkg/manager/manager.go: where the pools come from that scans leave.
use composable_dra_driver.Base.{List, All, Outcome, Post, returns, throws, ◌≡◌, refl, sym, subst}
use composable_dra_driver.Base.Order.{Range, IsOrder}
use composable_dra_driver.Client.Types.{CdiApi}
use composable_dra_driver.Manager.Types.{Machine, Settings}
use composable_dra_driver.Manager.Slices.{Controllers}
use composable_dra_driver.Manager.Slices.Rescan.{manage_slices_total}
use composable_dra_driver.Manager.Slices.Made.{HaveMaps, AreMade, manage_slices-AreMade}
use composable_dra_driver.Manager.Fetch.{Caches}
use composable_dra_driver.Manager.Fetch.Safe.{IsAnswering}
use composable_dra_driver.Manager.Collect.{collect_machines}
use composable_dra_driver.Manager.Collect.Spread.{IsEquipped}
use composable_dra_driver.Manager.Collect.Whole.{collect_machines-IsEquipped}
use composable_dra_driver.Manager.Labels.{Answer}
use composable_dra_driver.Manager.Loop.{World, check_resource_pool}
use composable_dra_driver.Manager.Loop.Safe.{CanScan, IsRunning, scan_collected, scan_failed}

module _ {S U : Type 0} {range : Range} (order : IsOrder range) (api : CdiApi S) (caches : Caches U)
    (answer : Answer) (m : Settings) (controllers : Controllers)
    (maps : HaveMaps m.device_infos) where
  scan-AreMade :
      (w : World S) {r : Outcome (List Machine)} (s : S)
      → IsRunning controllers w.publishing
      → AreMade m.device_infos m.label_prefix w.publishing.resources
      → collect_machines range api m caches w.cdi ≡ (r, s)
      → Post (All (IsEquipped order m.device_infos)) r
      → AreMade m.device_infos m.label_prefix
          (check_resource_pool range api caches answer m controllers w).1.publishing.resources
  scan-AreMade w s (distinct, has) made e (returns {a = machines} h) =
      subst
        (λ (out : Outcome (Unit {0}) × World S).
          AreMade m.device_infos m.label_prefix out.1.publishing.resources)
        (sym (
          scan_collected order api caches answer m controllers w machines s e
            (manage_slices_total order m controllers machines w.publishing distinct has).0))
        (manage_slices-AreMade order m m.device_infos maps controllers machines w.publishing
          distinct has h made)
  scan-AreMade w s running made e (throws f) =
      subst
        (λ (out : Outcome (Unit {0}) × World S).
          AreMade m.device_infos m.label_prefix out.1.publishing.resources)
        (sym (scan_failed order api caches answer m controllers w f s e)) made

  -- A scan leaves only pools of entries.
  pub check_resource_pool-AreMade :
      (w : World S)
      → IsAnswering api
      → CanScan m.options.use_capi_bmh caches
      → IsRunning controllers w.publishing
      → AreMade m.device_infos m.label_prefix w.publishing.resources
      → AreMade m.device_infos m.label_prefix
          (check_resource_pool range api caches answer m controllers w).1.publishing.resources
  check_resource_pool-AreMade w answering can running made =
      scan-AreMade w _ running made refl
        (collect_machines-IsEquipped order api answering m caches can.readable w.cdi)
