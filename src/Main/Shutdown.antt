-- ===== src/Main/Shutdown.antt =====
-- main.go: the app's Action, from the start of the manager to the end of the process. The main
-- goroutine, the manager's and the signals run interleaved.
pub mod Orderly
use composable_dra_driver.Base.{
  ℕ, String, Bool, true, false, Option, none, some, List, [], ◌∷◌, ◌++◌, Error, ◌≡◌,
}

-- Whether the goroutine of StartCDIManager has returned.
pub data Goroutine : Type 0 where
  running returned : Goroutine

-- Where the main goroutine is: at the select, at the wait for the manager after a signal, or past
-- the Action, which returned nil or an error.
pub data Phase : Type 0 where
  selecting waiting : Phase
  ended : Option Error → Phase

-- The messages of the Action.
pub data Message : Type 0 where
  signal_received : String → Message
  exited_with_error : Error → Message
  failed_start : Option Error → Message

-- `sigs` and `errChan` have room for one value each.
pub record App : Type 0 where
  pub sigs : Option String
  pub err_chan : Option (Option Error)
  pub canceled : Bool
  pub manager : Goroutine
  pub main : Phase
  pub log : List Message

unfoldable pub started : App
started = record {
  sigs = none;
  err_chan = none;
  canceled = false;
  manager = running;
  main = selecting;
  log = [];
}

abbrev or_new : Option String → String → Option String
or_new none s = some s
or_new (some old) s = some old

-- signal.Notify does not block: a signal that finds the channel full is dropped.
unfoldable pub notify : String → App → App
notify s a = record a { sigs = or_new a.sigs s }

-- errChan <- manager.StartCDIManager(ctx, config)
unfoldable pub send_result : Option Error → App → App
send_result r a = record a { manager = returned; err_chan = some r }

-- case s := <-sigs
unfoldable pub shut_down : String → App → App
shut_down s a = record a {
  sigs = none;
  canceled = true;
  main = waiting;
  log = a.log ++ signal_received s ∷ [];
}

abbrev failure : Option Error → List Message
failure none = []
failure (some e) = exited_with_error e ∷ []

-- if err := <-errChan, after a signal: the Action returns nil, and its deferred call cancels again.
unfoldable pub drain : Option Error → App → App
drain r a = record a {
  err_chan = none;
  canceled = true;
  main = ended none;
  log = a.log ++ failure r;
}

-- case err := <-errChan
unfoldable pub fail_with : Option Error → App → App
fail_with r a = record a {
  err_chan = none;
  canceled = true;
  main = ended r;
  log = a.log ++ failed_start r ∷ [];
}

-- A step of the manager's goroutine or from outside. The manager returns nil only once its loop has
-- ended, which it does when the context is canceled.
pub data Outside (a : App) : App → Type 0 where
  signal_arrives : (s : String) → Outside a (notify s a)
  manager_returns :
      (r : Option Error)
      → a.manager ≡ running
      → (r ≡ none → a.canceled ≡ true)
      → Outside a (send_result r a)

-- A step of the main goroutine.
pub data Inside (a : App) : App → Type 0 where
  takes_signal : (s : String) → a.main ≡ selecting → a.sigs ≡ some s → Inside a (shut_down s a)
  takes_error :
      (r : Option Error) → a.main ≡ selecting → a.err_chan ≡ some r → Inside a (fail_with r a)
  takes_end : (r : Option Error) → a.main ≡ waiting → a.err_chan ≡ some r → Inside a (drain r a)

-- The interleavings of both, with the number of the main goroutine's steps.
pub data Run (a : App) : ℕ → App → Type 0 where
  here : Run a 0 a
  outside : {n : ℕ} {b c : App} → Run a n b → Outside b c → Run a n c
  inside : {n : ℕ} {b c : App} → Run a n b → Inside b c → Run a (ℕ.suc n) c

-- main: the status with which the process ends.
unfoldable pub exit_status : Option Error → ℕ
exit_status none = 0
exit_status (some e) = 1
