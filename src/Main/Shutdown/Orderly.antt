-- ===== src/Main/Shutdown/Orderly.antt =====
-- main.go: the Action ends after the manager.
use composable_dra_driver.Base.{
  ℕ, String, Bool, true, false, Option, none, some, List, [], ◌∷◌, ◌++◌, Error, ◌≡◌, refl, ap,
  subst, ◌⊎◌, inl, inr,
}
use composable_dra_driver.Main.Shutdown.{
  Goroutine, running, returned, Phase, selecting, waiting, ended, Message, signal_received,
  failed_start, failure, App, started, notify, send_result, shut_down, drain, fail_with, Outside,
  signal_arrives, manager_returns, Inside, takes_signal, takes_error, takes_end, Run, here, outside,
  inside,
}

-- What was canceled and said, by where the main goroutine is.
abbrev pub Said : Phase → Bool → List Message → Type 0
Said selecting canceled log = (canceled ≡ false) × (log ≡ [])
Said waiting canceled log = (canceled ≡ true) × ((s : String) × (log ≡ signal_received s ∷ []))
Said (ended none) canceled log =
    (canceled ≡ true) × ((s : String) × (r : Option Error) × (log ≡ signal_received s ∷ failure r))
Said (ended (some e)) canceled log = (canceled ≡ true) × (log ≡ failed_start (some e) ∷ [])

-- What the manager sent: nothing while it runs, its result until the main goroutine takes it. Before
-- the context is canceled it is an error.
abbrev pub Sent : Phase → Goroutine → Option (Option Error) → Type 0
Sent (ended r) running result = ⊥
Sent (ended r) returned result = Unit
Sent main running result = result ≡ none
Sent selecting returned result = (e : Error) × (result ≡ some (some e))
Sent waiting returned result = (r : Option Error) × (result ≡ some r)

pub record IsOrderly (a : App) : Type 0 where
  pub said : Said a.main a.canceled a.log
  pub sent : Sent a.main a.manager a.err_chan

started-IsOrderly : IsOrderly started
unfolding started
started-IsOrderly = record { said = (refl, refl); sent = refl }

result_sent :
    (main : Phase) (old : Option (Option Error)) (canceled : Bool) (log : List Message)
    (r : Option Error)
    → Said main canceled log
    → Sent main running old
    → (r ≡ none → canceled ≡ true)
    → Sent main returned (some r)
result_sent selecting old canceled log none said sent told = cc (said.0, told refl)
result_sent selecting old canceled log (some e) said sent told = (e, refl)
result_sent waiting old canceled log r said sent told = (r, refl)
result_sent (ended r') old canceled log r said sent told = absurd sent

wait_sent :
    (g : Goroutine) (result : Option (Option Error))
    → Sent selecting g result
    → Sent waiting g result
wait_sent running result h = h
wait_sent returned result (e, h) = (some e, h)

fail_ends :
    (g : Goroutine) (result : Option (Option Error)) (canceled : Bool) (log : List Message)
    (r : Option Error)
    → Said selecting canceled log
    → Sent selecting g result
    → result ≡ some r
    → Said (ended r) true (log ++ failed_start r ∷ []) × Sent (ended r) g none
fail_ends running result canceled log r said sent e = cc (sent, e)
fail_ends returned result canceled log none said (f, sent) e = cc (sent, e)
fail_ends returned result canceled log (some f) said sent e =
    ((refl, ap (λ (l : List Message). l ++ failed_start (some f) ∷ []) said.1), tt)

end_ends :
    (g : Goroutine) (result : Option (Option Error)) (canceled : Bool) (log : List Message)
    (r : Option Error)
    → Said waiting canceled log
    → Sent waiting g result
    → result ≡ some r
    → Said (ended none) true (log ++ failure r) × Sent (ended none) g none
end_ends running result canceled log r said sent e = cc (sent, e)
end_ends returned result canceled log r (c, (s, l)) sent e =
    ((refl, (s, r, ap (λ (l : List Message). l ++ failure r) l)), tt)

Outside-IsOrderly : {a b : App} → IsOrderly a → Outside a b → IsOrderly b
unfolding notify send_result
Outside-IsOrderly o (signal_arrives s) = record { said = o.said; sent = o.sent }
Outside-IsOrderly {a} o (manager_returns r still told) = record {
  said = o.said;
  sent =
      result_sent a.main a.err_chan a.canceled a.log r o.said
        (subst (λ (g : Goroutine). Sent a.main g a.err_chan) still o.sent) told;
}

-- What is known at a place of the main goroutine.
Said-at : {a : App} (main : Phase) → IsOrderly a → a.main ≡ main → Said main a.canceled a.log
Said-at {a} main o e = subst (λ (p : Phase). Said p a.canceled a.log) e o.said

Sent-at : {a : App} (main : Phase) → IsOrderly a → a.main ≡ main → Sent main a.manager a.err_chan
Sent-at {a} main o e = subst (λ (p : Phase). Sent p a.manager a.err_chan) e o.sent

Inside-IsOrderly : {a b : App} → IsOrderly a → Inside a b → IsOrderly b
unfolding shut_down drain fail_with
Inside-IsOrderly {a} o (takes_signal s at_select arrived) = record {
  said = (
    refl,
    (s, ap (λ (l : List Message). l ++ signal_received s ∷ []) (Said-at selecting o at_select).1),
  );
  sent = wait_sent a.manager a.err_chan (Sent-at selecting o at_select);
}
Inside-IsOrderly {a} o (takes_error r at_select result) =
    let (said, sent) =
      fail_ends a.manager a.err_chan a.canceled a.log r (Said-at selecting o at_select)
        (Sent-at selecting o at_select) result in
    record { said = said; sent = sent }
Inside-IsOrderly {a} o (takes_end r at_wait result) =
    let (said, sent) =
      end_ends a.manager a.err_chan a.canceled a.log r (Said-at waiting o at_wait)
        (Sent-at waiting o at_wait) result in
    record { said = said; sent = sent }

Run-IsOrderly : {n : ℕ} {a : App} → Run started n a → IsOrderly a
Run-IsOrderly here = started-IsOrderly
Run-IsOrderly (outside run step) = Outside-IsOrderly (Run-IsOrderly run) step
Run-IsOrderly (inside run step) = Inside-IsOrderly (Run-IsOrderly run) step

ended_returned :
    (r : Option Error) (g : Goroutine) (result : Option (Option Error))
    → Sent (ended r) g result
    → g ≡ returned
ended_returned r running result h = absurd h
ended_returned r returned result h = refl

-- Whatever the interleaving, when the Action has ended StartCDIManager has returned and the context
-- is canceled. The Action returned nil only after a signal, which it logged first, and then whether
-- the manager failed; it returned an error only where no signal was taken and the manager failed
-- with that error, which is all that it logged.
pub Run-ended :
    {n : ℕ} {a : App} (r : Option Error)
    → Run started n a
    → a.main ≡ ended r
    → (a.manager ≡ returned) × Said (ended r) a.canceled a.log
Run-ended {a} r run e =
    let o = Run-IsOrderly run in
    (ended_returned r a.manager a.err_chan (Sent-at (ended r) o e), Said-at (ended r) o e)

can_step :
    (a : App) (main : Phase)
    → a.main ≡ main
    → Sent main returned a.err_chan
    → ((r : Option Error) × (a.main ≡ ended r)) ⊎ ((b : App) × Inside a b)
can_step a selecting e (f, sent) = inr (_, takes_error (some f) e sent)
can_step a waiting e (r, sent) = inr (_, takes_end r e sent)
can_step a (ended r) e sent = inl (r, e)

-- No deadlock: once the manager has returned, the main goroutine has ended or has a step to make.
Run-progress :
    {n : ℕ} {a : App}
    → Run started n a
    → a.manager ≡ returned
    → ((r : Option Error) × (a.main ≡ ended r)) ⊎ ((b : App) × Inside a b)
Run-progress {a} run e =
    can_step a a.main refl
      (subst (λ (g : Goroutine). Sent a.main g a.err_chan) e (Run-IsOrderly run).sent)
