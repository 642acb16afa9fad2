-- ===== src/Main/Program/Networked.antt =====
-- main.go with pkg/manager and pkg/client: what has been done when the process ends, where the manager
-- asks the CDI components through the client.
mod Tests
use composable_dra_driver.Base.{String, Option, none, List, All, ok, panic, Error, ◌≡◌, ◌≢◌}
use composable_dra_driver.Base.Order.{IsOrder}
use composable_dra_driver.Config.Types.{Config}
use composable_dra_driver.Client.Token.{Session}
use composable_dra_driver.Manager.Serve.{Cluster, Turn, Process, Manager, prepare}
use composable_dra_driver.Manager.Serve.Turns.{CanTurn}
use composable_dra_driver.Manager.Serve.Cleaned.{cleaned}
use composable_dra_driver.Manager.Serve.Networked.{
  Surroundings, AreSound, with_client, prepare-IsAnswering, with_client-IsAnswering,
}
use composable_dra_driver.Main.Shutdown.{ended}
use composable_dra_driver.Main.Program.{over, Program, ProgramRuns}
use composable_dra_driver.Main.Program.Exits.{exits_cleaned}

-- The whole program with the client over a network: if the manager can be prepared, every request ends
-- with an error or with a response whose body can be read and counts no devices below zero, the secret
-- can be read, the decoders of tokens do not panic, every turn that is made finds what it needs and no
-- listing of slices panics, then whatever the interleaving, when the Action has ended it returned nil,
-- StartCDIManager ended without error, and after the last turn it stopped every controller and asked to
-- delete exactly the listed slices of the pools that the drivers have then.
pub exits_over_network :
    {K U S : Type 0} (w : Surroundings S) (cluster : Cluster K U (Session S)) (cfg : Config)
    (start : Process (Session S)) (order : IsOrder cluster.range)
    (listed : (d : String) → cluster.lister d ≢ panic) {turns : List (Turn U)}
    {p : Program (Session S)} (x : Option Error) (m : Manager (Session S)) (q : Process (Session S))
    → AreSound w
    → ProgramRuns (with_client w cluster) cfg start turns p
    → p.app.main ≡ ended x
    → prepare (with_client w cluster) cfg start ≡ (ok m, q)
    → All (CanTurn m) turns
    → (x ≡ none) × (p.stage ≡ over (ok tt) (cleaned cluster.range cluster.lister m turns q))
exits_over_network w cluster cfg start order listed x m q sound run e ready can =
    exits_cleaned (with_client w cluster) cfg start order listed x m q run e ready
      (prepare-IsAnswering (with_client w cluster) cfg start m q
        (with_client-IsAnswering w cluster sound) ready)
      can
