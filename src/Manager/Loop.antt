-- ===== src/Manager/Loop.antt =====
-- pkg/manager/manager.go: startCheckResourcePoolLoop, one scan of the fabrics.
pub mod Safe
pub mod Made
pub mod Published
pub mod Tests
use composable_dra_driver.Base.{List, Action, ◌>>=◌, ◌>>◌}
use composable_dra_driver.Base.Order.{Range}
use composable_dra_driver.KubeUtils.Objects.{Node}
use composable_dra_driver.Client.Types.{CdiApi}
use composable_dra_driver.Manager.Types.{Settings}
use composable_dra_driver.Manager.Slices.{Controllers, Publishing, manage_slices}
use composable_dra_driver.Manager.Fetch.{Caches}
use composable_dra_driver.Manager.Collect.{collect_machines}
use composable_dra_driver.Manager.Labels.{Answer, manage_node_label}

-- What a scan changes: the state behind the CDI client, the pools with what was published of them,
-- and the nodes that were updated.
pub record World (S : Type 0) : Type 0 where
  pub cdi : S
  pub publishing : Publishing
  pub updates : List Node

module _ {S : Type 0} where
  abbrev pub on_cdi {ℓ} : {A : Type ℓ} → Action S A → Action (World S) A
  on_cdi act w = let (r, s) = act w.cdi in (r, record w { cdi = s })

  abbrev pub on_publishing {ℓ} : {A : Type ℓ} → Action Publishing A → Action (World S) A
  on_publishing act w = let (r, p) = act w.publishing in (r, record w { publishing = p })

  abbrev pub on_updates {ℓ} : {A : Type ℓ} → Action (List Node) A → Action (World S) A
  on_updates act w = let (r, u) = act w.updates in (r, record w { updates = u })

  module _ (range : Range) (api : CdiApi S) {U : Type 0} (caches : Caches U) (answer : Answer) where
    unfoldable pub check_resource_pool : Settings → Controllers → Action (World S) (Unit {0})
    unfolding collect_machines manage_slices manage_node_label
    check_resource_pool m controllers = do
      machines ← on_cdi (collect_machines range api m caches)
      on_publishing (manage_slices range m controllers machines)
      on_updates (manage_node_label range m caches.nodes answer machines)
