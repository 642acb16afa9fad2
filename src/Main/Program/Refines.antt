-- ===== src/Main/Program/Refines.antt =====
-- main.go with pkg/manager/manager.go: the whole program runs as its two parts do.
use composable_dra_driver.Base.{
  continue, pure, List, [], ◌∷◌, ◌++◌, Outcome, ok, err, panic, >>=-ok, ◌≡◌, refl, ap, sym, subst,
  ◌∙◌,
}
use composable_dra_driver.Config.Types.{Config}
use composable_dra_driver.Manager.Loop.{World}
use composable_dra_driver.Manager.Serve.{
  Cluster, Turn, Process, Manager, prepare, one_turn, loop, serve, start_cdi_manager,
}
use composable_dra_driver.Main.Program.{
  Stage, preparing, looping, over, Program, program, after_prepare, clean_up, go_on, after_turn,
  ProgramRuns, begins, signal, main_moves, prepares, turns_over, leaves_loop,
}

then_nothing :
    {S : Type 0} (o : Outcome (Unit {0}) × S) → continue o.0 (λ (u : Unit {0}). pure tt) o.1 ≡ o
then_nothing (ok u, s) = refl
then_nothing (err e, s) = refl
then_nothing (panic, s) = refl

abbrev pub IsEmpty {ℓ} : {A : Type ℓ} → List A → Type 0
IsEmpty [] = Unit
IsEmpty (a ∷ rest) = ⊥

module _ {U S : Type 0} (m : Manager S) where
  -- One turn more at the end of the loop.
  loop-snoc :
      (turns : List (Turn U)) (turn : Turn U) (w after : World S)
      → loop m turns w ≡ (ok tt, after)
      → loop m (turns ++ turn ∷ []) w ≡ one_turn m turn after
  unfolding loop
  loop-snoc [] turn w after e =
      then_nothing (one_turn m turn w)
      ∙ ap (λ (o : Outcome (Unit {0}) × World S). one_turn m turn o.1) e
  loop-snoc (t ∷ rest) turn w after e =
      let (u, first, e') = >>=-ok (one_turn m t) (λ u. loop m rest) w e in
      rw first (loop-snoc rest turn (one_turn m t w).1 after e')

module _ {K U S : Type 0} (cluster : Cluster K U S) (cfg : Config) (start : Process S) where
  -- What the goroutine has done by a stage, in terms of what StartCDIManager does.
  abbrev pub Did : List (Turn U) → Stage S → Type 0
  Did turns (preparing w) = (w ≡ start) × IsEmpty turns
  Did turns (looping m w) =
      (q : Process S) × (world : World S) × (prepare cluster cfg start ≡ (ok m, q))
      × (loop m turns q.world ≡ (ok tt, world))
      × (w ≡ record q { world = world })
  Did turns (over r w) = start_cdi_manager cluster cfg turns start ≡ (r, w)

  prepared :
      (o : Outcome (Manager S) × Process S)
      → prepare cluster cfg start ≡ o
      → Did [] (after_prepare cluster cfg o)
  unfolding after_prepare loop start_cdi_manager
  prepared (ok m, q) e = (q, q.world, e, refl, refl)
  prepared (err x, q) e = rw e refl
  prepared (panic, q) e = rw e refl

  -- The cleanup after a loop that ended with `r`.
  cleaned_up :
      (m : Manager S) (q : Process S) (turns : List (Turn U)) (r : Outcome (Unit {0}))
      (world : World S)
      → prepare cluster cfg start ≡ (ok m, q)
      → loop m turns q.world ≡ (r, world)
      → Did turns (clean_up cluster cfg m r (record q { world = world }))
  unfolding clean_up start_cdi_manager serve
  cleaned_up m q turns r world e l = rw e (rw l refl)

  turned :
      (m : Manager S) (q : Process S) (turns : List (Turn U)) (o : Outcome (Unit {0}) × World S)
      → prepare cluster cfg start ≡ (ok m, q)
      → loop m turns q.world ≡ o
      → Did turns (go_on cluster cfg m o.0 (record q { world = o.1 }))
  turned m q turns (ok u, world) e l = (q, world, e, l, refl)
  turned m q turns (err x, world) e l = cleaned_up m q turns (err x) world e l
  turned m q turns (panic, world) e l = cleaned_up m q turns panic world e l

  after_turn-Did :
      (m : Manager S) (w : Process S) (turn : Turn U) (turns : List (Turn U))
      → Did turns (looping m w)
      → Did (turns ++ turn ∷ []) (after_turn cluster cfg m turn w)
  unfolding after_turn
  after_turn-Did m w turn turns (q, world, e, l, same) =
      subst (λ (w : Process S). Did (turns ++ turn ∷ []) (after_turn cluster cfg m turn w))
        (sym same)
        (turned m q (turns ++ turn ∷ []) (one_turn m turn world) e
          (loop-snoc m turns turn q.world world l))

  pub clean_up-Did :
      (m : Manager S) (w : Process S) (turns : List (Turn U))
      → Did turns (looping m w)
      → Did turns (clean_up cluster cfg m (ok tt) w)
  clean_up-Did m w turns (q, world, e, l, same) =
      subst (λ (w : Process S). Did turns (clean_up cluster cfg m (ok tt) w)) (sym same)
        (cleaned_up m q turns (ok tt) world e l)

  after_prepare-Did :
      (w : Process S) (turns : List (Turn U))
      → Did turns (preparing w)
      → Did turns (after_prepare cluster cfg (prepare cluster cfg w))
  after_prepare-Did w [] (same, none_yet) = rw same (prepared (prepare cluster cfg start) refl)
  after_prepare-Did w (turn ∷ turns) (same, none_yet) = absurd none_yet

  pub ProgramRuns-Did :
      {turns : List (Turn U)} {p : Program S}
      → ProgramRuns cluster cfg start turns p
      → Did turns p.stage
  unfolding program
  ProgramRuns-Did begins = (refl, tt)
  ProgramRuns-Did (signal s run lives) = ProgramRuns-Did run
  ProgramRuns-Did (main_moves run lives step) = ProgramRuns-Did run
  ProgramRuns-Did {turns} (prepares world run at) =
      after_prepare-Did world turns (subst (Did turns) at (ProgramRuns-Did run))
  ProgramRuns-Did (turns_over {turns} m world turn run at going) =
      after_turn-Did m world turn turns (subst (Did turns) at (ProgramRuns-Did run))
  ProgramRuns-Did {turns} (leaves_loop m world run at told) =
      clean_up-Did m world turns (subst (Did turns) at (ProgramRuns-Did run))
