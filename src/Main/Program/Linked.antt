-- ===== src/Main/Program/Linked.antt =====
-- main.go with pkg/manager/manager.go: what passes from the goroutine to the Action.
use composable_dra_driver.Base.{Option, none, some, List, ok, err, panic, Error, ◌≡◌, ap, subst}
use composable_dra_driver.Config.Types.{Config}
use composable_dra_driver.Manager.Serve.{Cluster, Turn, Process}
use composable_dra_driver.Main.Shutdown.{
  ended, App, started, notify, send_result, shut_down, drain, fail_with, Inside, takes_signal,
  takes_error, takes_end,
}
use composable_dra_driver.Main.Program.{
  Stage, preparing, looping, over, Program, program, send_outcome, come_to, ProgramRuns, begins,
  signal, main_moves, prepares, turns_over, leaves_loop,
}

-- What the goroutine has sent, or will not send.
abbrev pub told : {S : Type 0} → Stage S → Option (Option Error)
told (over (ok u) w) = some none
told (over (err e) w) = some (some e)
told stage = none

-- The channel and the end of the Action have what the goroutine sent.
pub record IsLinked {S : Type 0} (a : App) (stage : Stage S) : Type 0 where
  pub channel : (x : Option Error) → a.err_chan ≡ some x → told stage ≡ some x
  pub action : (e : Error) → a.main ≡ ended (some e) → told stage ≡ some (some e)

ended_inj : {r r' : Option Error} → ended r ≡ ended r' → r ≡ r'
ended_inj e = cc

Inside-IsLinked :
    {S : Type 0} {a b : App} {stage : Stage S} → IsLinked a stage → Inside a b → IsLinked b stage
unfolding shut_down drain fail_with
Inside-IsLinked l (takes_signal s at arrived) = record { channel = l.channel; action = λ e h. cc h }
Inside-IsLinked {stage} l (takes_error r at result) = record {
  channel = λ x h. cc h;
  action =
      λ e h. subst (λ (r : Option Error). told stage ≡ some r) (ended_inj h) (l.channel r result);
}
Inside-IsLinked l (takes_end r at result) = record { channel = λ x h. cc h; action = λ e h. cc h }

come_to-IsLinked :
    {S : Type 0} (stage : Stage S) (p : Program S)
    → IsLinked p.app p.stage
    → told p.stage ≡ none
    → IsLinked (come_to stage p).app stage
unfolding send_outcome send_result
come_to-IsLinked (preparing w) p l before = record {
  channel = λ x h. cc (before, l.channel x h);
  action = λ e h. cc (before, l.action e h);
}
come_to-IsLinked (looping m w) p l before = record {
  channel = λ x h. cc (before, l.channel x h);
  action = λ e h. cc (before, l.action e h);
}
come_to-IsLinked (over (ok u) w) p l before = record {
  channel = λ x h. h;
  action = λ e h. cc (before, l.action e h);
}
come_to-IsLinked (over (err e) w) p l before = record {
  channel = λ x h. h;
  action = λ e' h. cc (before, l.action e' h);
}
come_to-IsLinked (over panic w) p l before = record {
  channel = λ x h. cc (before, l.channel x h);
  action = λ e h. cc (before, l.action e h);
}

module _ {K U S : Type 0} (cluster : Cluster K U S) (cfg : Config) (start : Process S) where
  pub ProgramRuns-IsLinked :
      {turns : List (Turn U)} {p : Program S}
      → ProgramRuns cluster cfg start turns p
      → IsLinked p.app p.stage
  unfolding program notify started
  ProgramRuns-IsLinked begins = record { channel = λ x h. cc h; action = λ e h. cc h }
  ProgramRuns-IsLinked (signal s run lives) =
      let l = ProgramRuns-IsLinked run in record { channel = l.channel; action = l.action }
  ProgramRuns-IsLinked (main_moves run lives step) = Inside-IsLinked (ProgramRuns-IsLinked run) step
  ProgramRuns-IsLinked (prepares {p} w run at) =
      come_to-IsLinked _ p (ProgramRuns-IsLinked run) (ap told at)
  ProgramRuns-IsLinked (turns_over {p} m w turn run at going) =
      come_to-IsLinked _ p (ProgramRuns-IsLinked run) (ap told at)
  ProgramRuns-IsLinked (leaves_loop {p} m w run at canceled) =
      come_to-IsLinked _ p (ProgramRuns-IsLinked run) (ap told at)
