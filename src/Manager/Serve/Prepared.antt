-- ===== src/Manager/Serve/Prepared.antt =====
-- pkg/manager/manager.go: how StartCDIManager ends before its loop, or enters it.
use composable_dra_driver.Base.{
  List, Outcome, err, Error, Action, lift, ◌>>=◌, >>=-err, >>=-Keeps, Keeps, ◌≡◌, refl, ap, ◌∙◌,
}
use composable_dra_driver.Config.Types.{Config}
use composable_dra_driver.KubeUtils.Objects.{Node}
use composable_dra_driver.KubeUtils.Discovery.{run}
use composable_dra_driver.Manager.Slices.{Published}
use composable_dra_driver.Manager.Start.{Cleanups, init_driver_resources}
use composable_dra_driver.Manager.Serve.{
  Cluster, Turn, Process, connect, configure, start_manager, on_calls, set_resources, prepare,
  start_cdi_manager,
}

-- What others see of a process: the state behind the CDI client, the updates of nodes, what the
-- controllers were told and the calls of the cleanup.
abbrev pub seen : {S : Type 0} → Process S → S × List Node × Published × Cleanups
seen p = (p.world.cdi, p.world.updates, p.world.publishing.published, p.cleanups)

module _ {S : Type 0} where
  lifted {ℓ} :
      {A : Type ℓ} {B : Type 0} (r : Outcome A) {f : A → Action (Process S) B}
      → ((a : A) → Keeps seen (f a))
      → Keeps seen (lift r >>= f)
  lifted r {f} k = >>=-Keeps seen (lift r) f (record { kept = λ s. refl }) k

module _ {K U S : Type 0} (cluster : Cluster K U S) (cfg : Config) where
  prepare-Keeps : Keeps seen (prepare cluster cfg)
  unfolding prepare
  prepare-Keeps = lifted (connect cluster cfg) λ connected.
      >>=-Keeps seen (on_calls (run cluster.synced connected.1)) _ (record { kept = λ s. refl })
        λ u. lifted (configure cluster cfg) λ configured.
          >>=-Keeps seen (set_resources (init_driver_resources configured.1.device_infos))
            (λ u.
              lift (start_manager cluster cfg connected.0 connected.1 configured.0 configured.1))
            (record { kept = λ s. refl }) λ u. record { kept = λ s. refl }

  -- Where the manager cannot be prepared, StartCDIManager returns that error: no CDI component was
  -- called, no node updated, no controller told anything and nothing cleaned up.
  pub start_cdi_manager-failed :
      (turns : List (Turn U)) (p : Process S) (e : Error)
      → (prepare cluster cfg p).0 ≡ err e
      → ((start_cdi_manager cluster cfg turns p).0 ≡ err e)
        × (seen (start_cdi_manager cluster cfg turns p).1 ≡ seen p)
  unfolding start_cdi_manager
  start_cdi_manager-failed turns p e h =
      let fails = >>=-err (prepare cluster cfg) _ p e h in
      (
        ap (λ (o : Outcome (Unit {0}) × Process S). o.0) fails,
        ap (λ (o : Outcome (Unit {0}) × Process S). seen o.1) fails ∙ prepare-Keeps.kept p,
      )
