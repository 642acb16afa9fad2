-- ===== src/Manager/Serve/Published.antt =====
-- pkg/manager/manager.go: the pools after any turn of the loop of StartCDIManager.
use composable_dra_driver.Base.{
  ℕ, ℤ, pos, String, some, List, All, string_eq, ok, of_ok, ◌≡◌, sym, ◌∙◌, ap, subst,
}
use composable_dra_driver.Base.Dict.{contains}
use composable_dra_driver.Base.Order.{IsOrder}
use composable_dra_driver.Config.Types.{DeviceInfo, Config}
use composable_dra_driver.Config.Checks.Unique.{IsStrict}
use composable_dra_driver.Manager.Types.{Machine, Resources}
use composable_dra_driver.Manager.Fetch.Safe.{IsAnswering}
use composable_dra_driver.Manager.Slices.Made.{HaveMaps, AreMade}
use composable_dra_driver.Manager.Collect.{collect_machines}
use composable_dra_driver.Manager.Collect.Devices.{info_of}
use composable_dra_driver.Manager.Collect.Whole.{collect_machines-IsEquipped}
use composable_dra_driver.Manager.Collect.Counts.{identities, asked_of}
use composable_dra_driver.Manager.Loop.Published.{Publishes, free_on, machines-Publishes}
use composable_dra_driver.Manager.Serve.{
  Cluster, Turn, Process, Manager, caches_of, prepare, one_turn, loop,
}
use composable_dra_driver.Manager.Serve.Turns.{CanTurn, one_turn-GoesOn, loop-GoesOn}
use composable_dra_driver.Manager.Serve.Cleaned.{prepare-IsPrepared}
use composable_dra_driver.Manager.Serve.Advertised.{
  prepare-advertises, prepare-AreUnique, AreUnique-HasUniqueNames,
}
use composable_dra_driver.Manager.Serve.Made.{
  AllMade, start-AreMade, start_contains, prepare-resources, one_turn-AreMade, loop-AreMade,
}

-- If the manager could be prepared with a validator that keeps to the tags, the attributes of each
-- entry of the ConfigMap have distinct keys, the CDI components answer, and every turn finds what it
-- needs, then after any turns, whatever errors they met, a turn that collects machines leaves, whatever
-- comes of the labels, for each fabric of a machine and the last entry of each model of the ConfigMap,
-- the pool of both under the driver of the entry. It has as many devices as the first of the machines
-- on the fabric has free of the model, numbered from 0 and named after the entry, each with the
-- entry's attributes and the three binding conditions, and it is for the nodes with the labels of the
-- entry and the fabric.
pub prepare-Publishes :
    {K U S : Type 0} (cluster : Cluster K U S) (cfg : Config) (strict : IsStrict cluster.reading)
    (order : IsOrder cluster.range) (p : Process S) (m : Manager S) (q : Process S)
    (answering : IsAnswering m.cdi_api) (turns : List (Turn U)) (turn : Turn U)
    (machines : List Machine) (f : ℤ) (uuid model : String) (i : DeviceInfo)
    → prepare cluster cfg p ≡ (ok m, q)
    → HaveMaps m.settings.device_infos
    → All (CanTurn m) turns
    → CanTurn m turn
    → let w = (loop m turns q.world).1 in
      (collect_machines turn.range m.cdi_api m.settings (caches_of m.kube_controllers turn) w.cdi).0
        ≡ ok machines
      → asked_of f (identities machines) ≡ some uuid
      → info_of model m.settings.device_infos ≡ some i
      → (n : ℕ) × (free_on f model machines ≡ some (pos n))
        × Publishes (one_turn m turn w).1.publishing.resources m.settings.label_prefix i f n
prepare-Publishes cluster cfg strict order p m q answering turns turn machines f uuid model i e maps
      all (each, can) collected asked known =
    let w = (loop m turns q.world).1 in
    let infos = m.settings.device_infos in
    let start = prepare-resources cluster cfg strict p m q e in
    let running = (prepare-IsPrepared cluster cfg order p m q e).running in
    let (_, still, same) = loop-GoesOn m answering turns q.world all running in
    let (_, _, kept) = one_turn-GoesOn m answering turn w (each, can) still in
    let begun : AllMade m q.world =
      subst (AreMade infos m.settings.label_prefix) (sym start)
        (start-AreMade infos m.settings.label_prefix) in
    let made =
      one_turn-AreMade m answering maps turn w (each, can) still
        (loop-AreMade m answering maps turns q.world all running begun) in
    machines-Publishes each infos m.settings.label_prefix _
      (AreUnique-HasUniqueNames infos (prepare-AreUnique cluster cfg strict p m q e)) made machines
      f uuid model i
      (of_ok
        (collect_machines-IsEquipped each m.cdi_api answering m.settings
          (caches_of m.kube_controllers turn) can.readable w.cdi)
        collected)
      (prepare-advertises cluster cfg strict order p m q answering turns turn machines e all
        (each, can) collected)
      asked known
      (kept i.driver_name
        ∙ same i.driver_name
        ∙ ap (λ (s : Resources). contains i.driver_name s) start
        ∙ start_contains infos model i known)
