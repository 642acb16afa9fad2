-- ===== src/Main/Program/Exits.antt =====
-- main.go with pkg/manager/manager.go: what has been done when the process ends.
use composable_dra_driver.Base.{
  String, Option, none, some, List, All, Outcome, ok, err, panic, Error, ◌≡◌, ◌≢◌, refl, ap, sym,
  subst, ◌∙◌,
}
use composable_dra_driver.Base.Order.{IsOrder}
use composable_dra_driver.Config.Types.{Config}
use composable_dra_driver.Manager.Fetch.Safe.{IsAnswering}
use composable_dra_driver.Manager.Start.{cleanup_resource_slices}
use composable_dra_driver.Manager.Serve.{
  Cluster, Turn, Process, Manager, prepare, start_cdi_manager,
}
use composable_dra_driver.Manager.Serve.Turns.{CanTurn}
use composable_dra_driver.Manager.Serve.Cleaned.{cleaned, start_cdi_manager-cleaned}
use composable_dra_driver.Manager.Serve.Prepared.{seen, start_cdi_manager-failed}
use composable_dra_driver.Main.Shutdown.{
  Goroutine, returned, selecting, waiting, ended, shut_down, drain, takes_signal, takes_end,
}
use composable_dra_driver.Main.Shutdown.Orderly.{Run-ended}
use composable_dra_driver.Main.Program.{
  Stage, preparing, looping, over, Program, Lives, send_outcome, settle, clean_up, ProgramRuns,
  main_moves, leaves_loop,
}
use composable_dra_driver.Main.Program.Refines.{Did, ProgramRuns-Did, clean_up-Did}
use composable_dra_driver.Main.Program.Follows.{Going, ProgramRuns-Follows}
use composable_dra_driver.Main.Program.Linked.{told, IsLinked, ProgramRuns-IsLinked}

module _ {S : Type 0} {p : Program S} where
  returned_nil :
      {w : Process S} (x : Option Error)
      → IsLinked p.app p.stage
      → p.app.main ≡ ended x
      → p.stage ≡ over (ok tt) w
      → x ≡ none
  returned_nil none l e at = refl
  returned_nil (some f) l e at = cc (l.action f e, ap told at)

  returned_error :
      {w : Process S} (f e : Error)
      → IsLinked p.app p.stage
      → p.app.main ≡ ended (some f)
      → p.stage ≡ over (err e) w
      → f ≡ e
  returned_error f e l h at = cc (l.action f h, ap told at)

module _ {K U S : Type 0} (cluster : Cluster K U S) (cfg : Config) (start : Process S) where
  -- The stage of a goroutine that has returned.
  over_of :
      (stage : Stage S) (g : Goroutine)
      → Going stage g
      → g ≡ returned
      → (r : Outcome (Unit {0})) × (w : Process S) × (stage ≡ over r w)
  over_of (preparing w) g going e = cc (going, e)
  over_of (looping m w) g going e = cc (going, e)
  over_of (over r w) g going e = (r, w, refl)

  -- When the Action has ended, StartCDIManager has ended as it does over the turns that were made.
  pub ended_over :
      {turns : List (Turn U)} {p : Program S} (x : Option Error)
      → ProgramRuns cluster cfg start turns p
      → p.app.main ≡ ended x
      → (r : Outcome (Unit {0})) × (w : Process S) × (p.stage ≡ over r w)
        × (start_cdi_manager cluster cfg turns start ≡ (r, w))
  ended_over {turns} {p} x run e =
      let f = ProgramRuns-Follows cluster cfg run in
      let (r, w, at) = over_of p.stage p.app.manager f.going (Run-ended x f.run e).0 in
      (r, w, at, subst (Did cluster cfg start turns) at (ProgramRuns-Did cluster cfg start run))

  looping-Lives : {m : Manager S} {w : Process S} {t : Stage S} → t ≡ looping m w → Lives t
  looping-Lives e = subst Lives (sym e) tt

  -- The Action takes the end of the manager that it waits for.
  drained :
      {turns : List (Turn U)} {p : Program S}
      → ProgramRuns cluster cfg start turns p
      → p.app.main ≡ waiting
      → p.app.err_chan ≡ some none
      → Lives p.stage
      → (p' : Program S) × ProgramRuns cluster cfg start turns p' × (p'.app.main ≡ ended none)
  unfolding drain
  drained run at sent lives = (_, main_moves run lives (takes_end none at sent), refl)

  module _ (order : IsOrder cluster.range) (listed : (d : String) → cluster.lister d ≢ panic) where
    -- If the manager can be prepared, the CDI components answer, every turn that is made finds what it
    -- needs and no listing of slices panics, then whatever the interleaving of signals, turns and the Action, when the
    -- Action has ended it returned nil, StartCDIManager ended without error, and after the last turn it
    -- stopped every controller and asked to delete exactly the listed slices of the pools that the
    -- drivers have then.
    pub exits_cleaned :
        {turns : List (Turn U)} {p : Program S} (x : Option Error) (m : Manager S) (q : Process S)
        → ProgramRuns cluster cfg start turns p
        → p.app.main ≡ ended x
        → prepare cluster cfg start ≡ (ok m, q)
        → IsAnswering m.cdi_api
        → All (CanTurn m) turns
        → (x ≡ none) × (p.stage ≡ over (ok tt) (cleaned cluster.range cluster.lister m turns q))
    exits_cleaned {turns} {p} x m q run e ready answering can =
        let (r, w, at, did) = ended_over x run e in
        let done =
          start_cdi_manager-cleaned cluster cfg order listed turns start m q answering ready can in
        let same : p.stage ≡ over (ok tt) (cleaned cluster.range cluster.lister m turns q) =
          at ∙ ap (λ (o : Outcome (Unit {0}) × Process S). over o.0 o.1) (sym did ∙ done) in
        (returned_nil x (ProgramRuns-IsLinked cluster cfg start run) e same, same)

    clean_up_ok :
        (turns : List (Turn U)) (m : Manager S) (w : Process S)
        → Did cluster cfg start turns (looping m w)
        → IsAnswering m.cdi_api
        → All (CanTurn m) turns
        → (w' : Process S) × (clean_up cluster cfg m (ok tt) w ≡ over (ok tt) w')
    unfolding clean_up
    clean_up_ok turns m w (q, world, ready, looped, same) answering can =
        let did = clean_up-Did cluster cfg start m w turns (q, world, ready, looped, same) in
        let done =
          start_cdi_manager-cleaned cluster cfg order listed turns start m q answering ready can in
        let cleanups =
          (cleanup_resource_slices cluster.range cluster.lister w.world.publishing.resources
            m.controllers w.cleanups).1 in
        let w' : Process S = record w { cleanups = cleanups } in
        (
          w',
          ap (λ (r : Outcome (Unit {0})). over r w')
              (ap (λ (o : Outcome (Unit {0}) × Process S). o.0) (sym did ∙ done)),
        )

    -- A signal that is pending while the loop waits can end the program: there is a run without another
    -- turn in which the Action returns nil.
    pub can_stop :
        {turns : List (Turn U)} {p : Program S} (s : String) (m : Manager S) (w : Process S)
        → ProgramRuns cluster cfg start turns p
        → p.app.main ≡ selecting
        → p.app.sigs ≡ some s
        → p.stage ≡ looping m w
        → IsAnswering m.cdi_api
        → All (CanTurn m) turns
        → (p' : Program S) × ProgramRuns cluster cfg start turns p' × (p'.app.main ≡ ended none)
    unfolding shut_down send_outcome
    can_stop {turns} {p} s m w run at pending looped answering can =
        let told_run = main_moves run (looping-Lives looped) (takes_signal s at pending) in
        let left = leaves_loop m w told_run looped refl in
        let (w', ends) =
          clean_up_ok turns m w
            (subst (Did cluster cfg start turns) looped (ProgramRuns-Did cluster cfg start run))
            answering can in
        drained left (ap (λ (t : Stage S). (settle t (shut_down s p.app)).main) ends)
          (ap (λ (t : Stage S). (settle t (shut_down s p.app)).err_chan) ends)
          (subst Lives (sym ends) tt)

  -- If the manager cannot be prepared, then when the Action has ended StartCDIManager has returned that
  -- error, no CDI component was called, no node updated, no controller told anything and nothing cleaned up; an
  -- error that the Action returns is that one.
  pub exits_failed :
      {turns : List (Turn U)} {p : Program S} (x : Option Error) (e : Error)
      → ProgramRuns cluster cfg start turns p
      → p.app.main ≡ ended x
      → (prepare cluster cfg start).0 ≡ err e
      → (w : Process S) × (p.stage ≡ over (err e) w)
        × (seen w ≡ seen start)
        × ((e' : Error) → x ≡ some e' → e' ≡ e)
  exits_failed {turns} {p} x e run h failed =
      let (r, w, at, did) = ended_over x run h in
      let (fails, same) = start_cdi_manager-failed cluster cfg turns start e failed in
      let ended_so : p.stage ≡ over (err e) w =
        at
        ∙ ap (λ r. over r w) (sym (ap (λ (o : Outcome (Unit {0}) × Process S). o.0) did) ∙ fails) in
      (
        w,
        ended_so,
        sym (ap (λ (o : Outcome (Unit {0}) × Process S). seen o.1) did) ∙ same,
        (λ e' k.
            returned_error e' e (ProgramRuns-IsLinked cluster cfg start run) (h ∙ ap ended k)
              ended_so),
      )
