-- ===== src/Manager/Loop/Safe.antt =====
-- pkg/manager/manager.go: what a whole scan ends with, and what it leaves.
use composable_dra_driver.Base.{
  Bool, String, List, [], All, All-mono, Outcome, ok, err, Action, of_ok, Post, returns, throws,
  ◌≡◌, refl, ap, sym, subst, Error, string_eq,
}
use composable_dra_driver.Base.Dict.{Distinct, contains}
use composable_dra_driver.Base.Order.{Range, IsOrder}
use composable_dra_driver.Client.Types.{CdiApi}
use composable_dra_driver.Manager.Types.{Machine, Settings}
use composable_dra_driver.Manager.Slices.{Controllers, Publishing, manage_slices}
use composable_dra_driver.Manager.Slices.Jobs.{jobs}
use composable_dra_driver.Manager.Slices.Settled.{Advertised}
use composable_dra_driver.Manager.Slices.Rescan.{
  HasControllers, manage_slices_total, manage_slices_advertises, manage_slices_keeps,
}
use composable_dra_driver.Manager.Fetch.{Caches}
use composable_dra_driver.Manager.Fetch.Safe.{Any, IsAnswering}
use composable_dra_driver.Manager.Fetch.Readable.{AreReadable}
use composable_dra_driver.Manager.Collect.{collect_machines}
use composable_dra_driver.Manager.Collect.Spread.{IsEquipped}
use composable_dra_driver.Manager.Collect.Whole.{
  HasUniqueNames, Lists-IsValidList, collect_machines-IsEquipped,
}
use composable_dra_driver.Manager.Labels.{Answer, manage_node_label}
use composable_dra_driver.Manager.Labels.Safe.{AreLabelled, manage_node_label-Any}
use composable_dra_driver.Manager.Loop.{World, check_resource_pool}

-- What a scan needs of the caches.
pub record CanScan {U : Type 0} (use_capi_bmh : Bool) (caches : Caches U) : Type 0 where
  pub readable : AreReadable use_capi_bmh caches
  pub labelled : AreLabelled caches.nodes

-- The same drivers are managed.
abbrev pub SameDrivers : Publishing → Publishing → Type 0
SameDrivers before after = (d : String) → contains d after.resources ≡ contains d before.resources

-- The drivers are distinct and have their controllers.
abbrev pub IsRunning : Controllers → Publishing → Type 0
IsRunning controllers p = Distinct p.resources × HasControllers controllers p.resources

module _ {S U : Type 0} {range : Range} (order : IsOrder range) (api : CdiApi S) (caches : Caches U)
    (answer : Answer) (m : Settings) (controllers : Controllers) where
  abbrev scan : Action (World S) (Unit {0})
  scan = check_resource_pool range api caches answer m controllers

  -- Where machines were collected, the scan publishes their devices and then labels their nodes.
  pub scan_collected :
      (w : World S) (machines : List Machine) (s : S)
      → collect_machines range api m caches w.cdi ≡ (ok machines, s)
      → (manage_slices range m controllers machines w.publishing).0 ≡ ok tt
      → let labelled = manage_node_label range m caches.nodes answer machines w.updates in
        scan w ≡ (
          labelled.0,
          record {
            cdi = s;
            publishing = (manage_slices range m controllers machines w.publishing).1;
            updates = labelled.1;
          },
        )
  unfolding check_resource_pool
  scan_collected w machines s e p = rw (e, p) refl

  -- Where the collection failed nothing else is done.
  pub scan_failed :
      (w : World S) (e : Error) (s : S)
      → collect_machines range api m caches w.cdi ≡ (err e, s)
      → scan w ≡ (err e, record w { cdi = s })
  unfolding check_resource_pool
  scan_failed w e s p = rw p refl

  abbrev IsSafe : World S → Outcome (Unit {0}) × World S → Type 0
  IsSafe w out =
      Post Any out.0
      × IsRunning controllers out.1.publishing
      × SameDrivers w.publishing out.1.publishing

  scan-IsSafe :
      (w : World S) {r : Outcome (List Machine)} (s : S)
      → CanScan m.options.use_capi_bmh caches
      → IsRunning controllers w.publishing
      → collect_machines range api m caches w.cdi ≡ (r, s)
      → Post (All (IsEquipped order m.device_infos)) r
      → IsSafe w (scan w)
  scan-IsSafe w s can (distinct, has) e (returns {a = machines} h) =
      let (well, kept, held) =
        manage_slices_total order m controllers machines w.publishing distinct has in
      subst (IsSafe w) (sym (scan_collected w machines s e well)) (
        manage_node_label-Any range m caches.nodes answer machines can.labelled w.updates,
        (kept, held),
        manage_slices_keeps order m controllers machines w.publishing distinct has,
      )
  scan-IsSafe w s can running e (throws f) =
      subst (IsSafe w) (sym (scan_failed w f s e)) (throws f, running, λ d. refl)

  module _ (answering : IsAnswering api) (can : CanScan m.options.use_capi_bmh caches) (w : World S)
      (running : IsRunning controllers w.publishing) where
    -- Where the caches can be read, every node found has labels, and the CDI components answer, a
    -- scan of a manager whose drivers are distinct and have controllers ends with or without an
    -- error, never with a panic; it leaves the drivers distinct and with their controllers, and none
    -- comes or goes.
    pub check_resource_pool-Any :
        Post Any (scan w).0
        × IsRunning controllers (scan w).1.publishing
        × SameDrivers w.publishing (scan w).1.publishing
    check_resource_pool-Any =
        scan-IsSafe w _ can running refl
          (collect_machines-IsEquipped order api answering m caches can.readable w.cdi)

    -- If besides no two models share a device name, and the scan collects machines, then after it,
    -- whatever comes of the labels, the pool of every device of the first machine of each fabric, if
    -- its driver is managed, advertises as many devices as are available.
    pub check_resource_pool-advertises :
        (machines : List Machine)
        → HasUniqueNames m.device_infos
        → (collect_machines range api m caches w.cdi).0 ≡ ok machines
        → All (Advertised (scan w).1.publishing.resources) (jobs range machines [])
    check_resource_pool-advertises machines unique e =
        let equipped =
          of_ok (collect_machines-IsEquipped order api answering m caches can.readable w.cdi) e in
        let done =
          manage_slices_advertises order m controllers machines w.publishing running.0 running.1 (
            All-mono (IsEquipped order m.device_infos) _ machines
              (λ machine h. Lists-IsValidList m.device_infos machine.device_list unique h.1)
              equipped) in
        subst
          (λ (out : Outcome (Unit {0}) × World S).
            All (Advertised out.1.publishing.resources) (jobs range machines []))
          (sym (
            scan_collected w machines _
              (ap
                (λ (r : Outcome (List Machine)). (r, (collect_machines range api m caches w.cdi).1))
                e)
              (manage_slices_total order m controllers machines w.publishing running.0
                running.1).0))
          done.1
