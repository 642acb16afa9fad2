-- ===== src/Main/Program/Tests.antt =====
-- ProgramRuns of main.go with pkg/manager/manager.go at concrete inputs.
use composable_dra_driver.Base.{
  String, panic, ◌≢◌, Option, none, some, [], ◌∷◌, ok, err, Error, ◌≡◌, refl, ap, sym, subst,
  string_eq,
}
use composable_dra_driver.Base.Order.{IsOrder, in_order, in_order-IsOrder}
use composable_dra_driver.Manager.Loop.Tests.{three_free-IsAnswering, can_scan}
use composable_dra_driver.Manager.Serve.{Cluster, Manager, Process, Turn, prepare, one_turn}
use composable_dra_driver.Manager.Fetch.Safe.{IsAnswering}
use composable_dra_driver.Manager.Serve.Turns.{CanTurn, one_turn-GoesOn}
use composable_dra_driver.Manager.Serve.Cleaned.{cleaned, prepare-IsPrepared}
use composable_dra_driver.Manager.Serve.Prepared.{seen}
use composable_dra_driver.Manager.Serve.Tests.{
  config, cluster, idle, turn, manager, prepared, prepared_well, lists, two_slices, bare, refused,
}
use composable_dra_driver.Main.Shutdown.{
  App, started, notify, fail_with, send_result, selecting, ended, takes_error,
}
use composable_dra_driver.Main.Program.{
  Lives, looping, over, Program, program, send_outcome, come_to, after_prepare, after_turn,
  ProgramRuns, begins, signal, main_moves, prepares, turns_over,
}
use composable_dra_driver.Main.Program.Exits.{exits_cleaned, exits_failed, can_stop}

-- A manager that is prepared, and a turn.
pub record Prepared (S : Type 0) : Type 1 where
  pub cluster : Cluster (Unit {0}) (Unit {0}) S
  pub start : Process S
  pub manager : Manager S
  pub prepared : Process S
  pub well : prepare cluster config start ≡ (ok manager, prepared)
  pub order : IsOrder cluster.range
  pub listed : (d : String) → cluster.lister d ≢ panic
  pub answering : IsAnswering manager.cdi_api
  pub turn : Turn (Unit {0})
  pub can : CanTurn manager turn

module _ {S : Type 0} (k : Prepared S) where
  -- The manager is prepared.
  abbrev ready : Program S
  ready =
      come_to (after_prepare k.cluster config (prepare k.cluster config k.start)) (program k.start)

  ready_run : ProgramRuns k.cluster config k.start [] ready
  unfolding program
  ready_run = prepares k.start begins refl

  ready_looping : ready.stage ≡ looping k.manager k.prepared
  unfolding after_prepare
  ready_looping = rw k.well refl

  -- One turn.
  turned_well : (one_turn k.manager k.turn k.prepared.world).0 ≡ ok tt
  turned_well =
      (one_turn-GoesOn k.manager k.answering k.turn k.prepared.world k.can
        (prepare-IsPrepared k.cluster config k.order k.start k.manager k.prepared k.well).running).0

  abbrev scanned : Process S
  scanned = record k.prepared { world = (one_turn k.manager k.turn k.prepared.world).1 }

  abbrev scanning : Program S
  scanning = come_to (after_turn k.cluster config k.manager k.turn k.prepared) ready

  scanning_looping : scanning.stage ≡ looping k.manager scanned
  unfolding after_turn
  scanning_looping = rw turned_well refl

  ready_app : ready.app ≡ started
  unfolding after_prepare program
  ready_app = rw k.well refl

  scanning_app : scanning.app ≡ started
  unfolding after_turn
  scanning_app = rw turned_well ready_app

  scanning_run : ProgramRuns k.cluster config k.start (k.turn ∷ []) scanning
  unfolding started
  scanning_run =
      turns_over k.manager k.prepared k.turn ready_run ready_looping
        (ap (λ (a : App). a.canceled) ready_app)

  -- SIGTERM arrives.
  abbrev pending : Program S
  pending = record scanning { app = notify "terminated" scanning.app }

  pending_run : ProgramRuns k.cluster config k.start (k.turn ∷ []) pending
  pending_run = signal "terminated" scanning_run (subst Lives (sym scanning_looping) tt)

  pending_selecting : pending.app.main ≡ selecting
  unfolding notify started
  pending_selecting = ap (λ (a : App). a.main) scanning_app

  pending_sigs : pending.app.sigs ≡ some "terminated"
  unfolding notify started
  pending_sigs = ap (λ (a : App). (notify "terminated" a).sigs) scanning_app

  -- The Action ends.
  pub stops :
      (p' : Program S) × ProgramRuns k.cluster config k.start (k.turn ∷ []) p'
      × (p'.app.main ≡ ended none)
  stops =
      can_stop k.cluster config k.start k.order k.listed "terminated" k.manager scanned pending_run
        pending_selecting pending_sigs scanning_looping k.answering (k.can, tt)

-- Beside an API server, with CDI components that answer.
abbrev plain : Prepared (Unit {0})
plain = record {
  cluster = cluster;
  start = idle;
  manager = manager;
  prepared = prepared;
  well = prepared_well;
  order = in_order-IsOrder;
  listed = lists;
  answering = three_free-IsAnswering;
  turn = turn;
  can = (in_order-IsOrder, can_scan);
}

can_stop_example :
    (p' : Program (Unit {0})) × ProgramRuns cluster config idle (turn ∷ []) p'
    × (p'.app.main ≡ ended none)
can_stop_example =
    can_stop cluster config idle in_order-IsOrder lists "terminated" manager (scanned plain)
      (pending_run plain) (pending_selecting plain) (pending_sigs plain) (scanning_looping plain)
      three_free-IsAnswering ((in_order-IsOrder, can_scan), tt)

exits_cleaned_example :
    (◌≡◌ {A = Option Error} none none)
    × ((stops plain).0.stage
        ≡ over (ok tt) (cleaned in_order two_slices manager (turn ∷ []) prepared))
exits_cleaned_example =
    exits_cleaned cluster config idle in_order-IsOrder lists none manager prepared (stops plain).1
      (stops plain).2 prepared_well three_free-IsAnswering ((in_order-IsOrder, can_scan), tt)

abbrev unavailable : Error
unavailable = "not enabled feature gate of Dynamic Resource Allocation"

-- The program beside an API server without the resources.
abbrev broken : Program (Unit {0})
broken = come_to (after_prepare bare config (prepare bare config idle)) (program idle)

abbrev reported : Program (Unit {0})
reported = record broken { app = fail_with (some unavailable) broken.app }

broken_run : ProgramRuns bare config idle [] broken
unfolding program
broken_run = prepares idle begins refl

broken_over : broken.stage ≡ over (err unavailable) (prepare bare config idle).1
unfolding after_prepare
broken_over = rw refused refl

broken_selecting : broken.app.main ≡ selecting
unfolding after_prepare program started send_outcome send_result
broken_selecting = rw refused refl

broken_sent : broken.app.err_chan ≡ some (some unavailable)
unfolding after_prepare program started send_outcome send_result
broken_sent = rw refused refl

reported_run : ProgramRuns bare config idle [] reported
reported_run =
    main_moves broken_run (subst Lives (sym broken_over) tt)
      (takes_error (some unavailable) broken_selecting broken_sent)

reported_ended : reported.app.main ≡ ended (some unavailable)
unfolding fail_with
reported_ended = refl

exits_failed_example :
    (w : Process (Unit {0})) × (reported.stage ≡ over (err unavailable) w)
    × (seen w ≡ seen idle)
    × ((e' : Error) → some unavailable ≡ some e' → e' ≡ unavailable)
exits_failed_example =
    exits_failed bare config idle (some unavailable) unavailable reported_run reported_ended refused
