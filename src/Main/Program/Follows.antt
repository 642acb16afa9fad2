-- ===== src/Main/Program/Follows.antt =====
-- main.go with pkg/manager/manager.go: the goroutine keeps to what the Action assumes of it.
use composable_dra_driver.Base.{
  ℕ, suc, Bool, true, none, some, List, Outcome, ok, err, panic, ◌≡◌, refl, sym, subst,
}
use composable_dra_driver.Config.Types.{Config}
use composable_dra_driver.Manager.Serve.{Cluster, Turn, Process, Manager, deferred}
use composable_dra_driver.Main.Shutdown.{
  Goroutine, running, returned, App, started, notify, send_result, shut_down, drain, fail_with,
  signal_arrives, manager_returns, Inside, takes_signal, takes_error, takes_end, Run, here, outside,
  inside,
}
use composable_dra_driver.Main.Program.{
  Stage, preparing, looping, over, Program, program, send_outcome, come_to, after_prepare, clean_up,
  go_on, after_turn, ProgramRuns, begins, signal, main_moves, prepares, turns_over, leaves_loop,
}

-- The goroutine has returned where it is past the cleanup without a panic.
abbrev pub Going : {S : Type 0} → Stage S → Goroutine → Type 0
Going (preparing w) g = g ≡ running
Going (looping m w) g = g ≡ running
Going (over panic w) g = g ≡ running
Going (over r w) g = g ≡ returned

pub record Follows {S : Type 0} (p : Program S) : Type 0 where
  pub steps : ℕ
  pub run : Run started steps p.app
  pub going : Going p.stage p.app.manager

manager_kept : {a b : App} → Inside a b → b.manager ≡ a.manager
unfolding shut_down drain fail_with
manager_kept (takes_signal s at arrived) = refl
manager_kept (takes_error r at result) = refl
manager_kept (takes_end r at result) = refl

-- A stage that the goroutine may come to: it ends with nil only where the context is canceled.
abbrev MayEnd : {S : Type 0} → Bool → Stage S → Type 0
MayEnd canceled (over (ok u) w) = canceled ≡ true
MayEnd canceled stage = Unit

come_to-Follows :
    {S : Type 0} (stage : Stage S) (p : Program S)
    → Follows p
    → p.app.manager ≡ running
    → MayEnd p.app.canceled stage
    → Follows (come_to stage p)
unfolding send_outcome send_result
come_to-Follows (preparing w) p f runs may = record { steps = f.steps; run = f.run; going = runs }
come_to-Follows (looping m w) p f runs may = record { steps = f.steps; run = f.run; going = runs }
come_to-Follows (over (ok u) w) p f runs may = record {
  steps = f.steps;
  run = outside f.run (manager_returns none runs (λ e. may));
  going = refl;
}
come_to-Follows (over (err e) w) p f runs may = record {
  steps = f.steps;
  run = outside f.run (manager_returns (some e) runs (λ h. cc h));
  going = refl;
}
come_to-Follows (over panic w) p f runs may = record { steps = f.steps; run = f.run; going = runs }

module _ {K U S : Type 0} (cluster : Cluster K U S) (cfg : Config) where
  prepared_may :
      (canceled : Bool) (o : Outcome (Manager S) × Process S)
      → MayEnd canceled (after_prepare cluster cfg o)
  unfolding after_prepare
  prepared_may canceled (ok m, w) = tt
  prepared_may canceled (err e, w) = tt
  prepared_may canceled (panic, w) = tt

  deferred_may :
      (canceled : Bool) (r r' : Outcome (Unit {0})) (w : Process S)
      → (r ≡ ok tt → canceled ≡ true)
      → MayEnd canceled (over (deferred r r') w)
  deferred_may canceled r panic w h = tt
  deferred_may canceled (ok u) (ok u') w h = h refl
  deferred_may canceled (err e) (ok u') w h = tt
  deferred_may canceled panic (ok u') w h = tt
  deferred_may canceled (ok u) (err e') w h = h refl
  deferred_may canceled (err e) (err e') w h = tt
  deferred_may canceled panic (err e') w h = tt

  clean_up_may :
      (canceled : Bool) (m : Manager S) (r : Outcome (Unit {0})) (w : Process S)
      → (r ≡ ok tt → canceled ≡ true)
      → MayEnd canceled (clean_up cluster cfg m r w)
  unfolding clean_up
  clean_up_may canceled m r w h = deferred_may canceled r _ _ h

  go_on_may :
      (canceled : Bool) (m : Manager S) (r : Outcome (Unit {0})) (w : Process S)
      → MayEnd canceled (go_on cluster cfg m r w)
  go_on_may canceled m (ok u) w = tt
  go_on_may canceled m (err e) w = clean_up_may canceled m (err e) w (λ h. cc h)
  go_on_may canceled m panic w = clean_up_may canceled m panic w (λ h. cc h)

  after_turn_may :
      (canceled : Bool) (m : Manager S) (turn : Turn U) (w : Process S)
      → MayEnd canceled (after_turn cluster cfg m turn w)
  unfolding after_turn
  after_turn_may canceled m turn w = go_on_may canceled m _ _

  at_stage :
      {p : Program S} (stage : Stage S) → Follows p → p.stage ≡ stage → Going stage p.app.manager
  at_stage {p} stage f at = subst (λ (s : Stage S). Going s p.app.manager) at f.going

  pub ProgramRuns-Follows :
      {start : Process S} {turns : List (Turn U)} {p : Program S}
      → ProgramRuns cluster cfg start turns p
      → Follows p
  unfolding program notify
  ProgramRuns-Follows begins = record { steps = 0; run = here; going = refl }
  ProgramRuns-Follows (signal s run lives) =
      let f = ProgramRuns-Follows run in
      record { steps = f.steps; run = outside f.run (signal_arrives s); going = f.going }
  ProgramRuns-Follows (main_moves {p} {a} run lives step) =
      let f = ProgramRuns-Follows run in
      record {
        steps = suc f.steps;
        run = inside f.run step;
        going = subst (Going p.stage) (sym (manager_kept step)) f.going;
      }
  ProgramRuns-Follows (prepares {p} world run at) =
      let f = ProgramRuns-Follows run in
      come_to-Follows _ p f (at_stage (preparing world) f at) (prepared_may p.app.canceled _)
  ProgramRuns-Follows (turns_over {p} m world turn run at going) =
      let f = ProgramRuns-Follows run in
      come_to-Follows _ p f (at_stage (looping m world) f at)
        (after_turn_may p.app.canceled m turn world)
  ProgramRuns-Follows (leaves_loop {p} m world run at told) =
      let f = ProgramRuns-Follows run in
      come_to-Follows _ p f (at_stage (looping m world) f at)
        (clean_up_may p.app.canceled m (ok tt) world (λ e. told))
