-- ===== src/Main/Program.antt =====
-- main.go with pkg/manager/manager.go: the whole program. The goroutine of StartCDIManager runs
-- beside the Action: it prepares, makes turns until the context is canceled, cleans up and sends.
pub mod Refines
pub mod Follows
pub mod Linked
pub mod Exits
pub mod Networked
pub mod Tests
use composable_dra_driver.Base.{
  String, Bool, true, false, Option, none, some, List, [], ◌∷◌, ◌++◌, Outcome, ok, err, panic,
  Error, ◌≡◌,
}
use composable_dra_driver.Config.Types.{Config}
use composable_dra_driver.Manager.Start.{cleanup_resource_slices}
use composable_dra_driver.Manager.Serve.{
  Cluster, Turn, Process, Manager, prepare, one_turn, deferred,
}
use composable_dra_driver.Main.Shutdown.{App, started, notify, send_result, Inside}

-- Where the goroutine is: before it has prepared the manager, between two turns, or past the deferred
-- cleanup, with what StartCDIManager ended with. A panic has then ended the process.
pub data Stage (S : Type 0) : Type 0 where
  preparing : Process S → Stage S
  looping : Manager S → Process S → Stage S
  over : Outcome (Unit {0}) → Process S → Stage S

pub record Program (S : Type 0) : Type 0 where
  pub app : App
  pub stage : Stage S

unfoldable pub program : {S : Type 0} → Process S → Program S
unfolding started
program world = record { app = started; stage = preparing world }

-- What a panic leaves running: nothing.
abbrev pub Lives : {S : Type 0} → Stage S → Type 0
Lives (over panic world) = ⊥
Lives stage = Unit

-- A value or an error goes to the channel.
unfoldable pub send_outcome : Outcome (Unit {0}) → App → App
unfolding send_result
send_outcome (ok u) a = send_result none a
send_outcome (err e) a = send_result (some e) a
send_outcome panic a = a

abbrev pub settle : {S : Type 0} → Stage S → App → App
settle (over r world) a = send_outcome r a
settle stage a = a

-- The goroutine comes to a stage.
abbrev pub come_to : {S : Type 0} → Stage S → Program S → Program S
come_to stage p = record { app = settle stage p.app; stage = stage }

module _ {K U S : Type 0} (cluster : Cluster K U S) (cfg : Config) where
  unfoldable pub after_prepare : Outcome (Manager S) × Process S → Stage S
  after_prepare (ok m, world) = looping m world
  after_prepare (err e, world) = over (err e) world
  after_prepare (panic, world) = over panic world

  -- The end of the loop: the deferred cleanup.
  unfoldable pub clean_up : Manager S → Outcome (Unit {0}) → Process S → Stage S
  unfolding cleanup_resource_slices
  clean_up m r p =
      let (r', cleanups) =
        cleanup_resource_slices cluster.range cluster.lister p.world.publishing.resources
          m.controllers p.cleanups in
      over (deferred r r') (record p { cleanups = cleanups })

  abbrev go_on : Manager S → Outcome (Unit {0}) → Process S → Stage S
  go_on m (ok u) p = looping m p
  go_on m (err e) p = clean_up m (err e) p
  go_on m panic p = clean_up m panic p

  unfoldable pub after_turn : Manager S → Turn U → Process S → Stage S
  unfolding one_turn clean_up
  after_turn m turn p =
      let (r, world) = one_turn m turn p.world in go_on m r (record p { world = world })

  -- The interleavings, with the turns that the loop made. wait.Until looks at the context before
  -- each turn.
  pub data ProgramRuns (start : Process S) : List (Turn U) → Program S → Type 1 where
    begins : ProgramRuns start [] (program start)
    signal :
        {turns : List (Turn U)} {p : Program S} (s : String)
        → ProgramRuns start turns p
        → Lives p.stage
        → ProgramRuns start turns (record p { app = notify s p.app })
    main_moves :
        {turns : List (Turn U)} {p : Program S} {a : App}
        → ProgramRuns start turns p
        → Lives p.stage
        → Inside p.app a
        → ProgramRuns start turns (record p { app = a })
    prepares :
        {turns : List (Turn U)} {p : Program S} (world : Process S)
        → ProgramRuns start turns p
        → p.stage ≡ preparing world
        → ProgramRuns start turns (come_to (after_prepare (prepare cluster cfg world)) p)
    turns_over :
        {turns : List (Turn U)} {p : Program S} (m : Manager S) (world : Process S) (turn : Turn U)
        → ProgramRuns start turns p
        → p.stage ≡ looping m world
        → p.app.canceled ≡ false
        → ProgramRuns start (turns ++ turn ∷ []) (come_to (after_turn m turn world) p)
    leaves_loop :
        {turns : List (Turn U)} {p : Program S} (m : Manager S) (world : Process S)
        → ProgramRuns start turns p
        → p.stage ≡ looping m world
        → p.app.canceled ≡ true
        → ProgramRuns start turns (come_to (clean_up m (ok tt) world) p)
