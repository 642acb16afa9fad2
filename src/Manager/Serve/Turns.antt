-- ===== src/Manager/Serve/Turns.antt =====
-- pkg/manager/manager.go: the loop of StartCDIManager, for any number of scans.
use composable_dra_driver.Base.{
  List, [], ◌∷◌, All, Outcome, ok, Post, returns, throws, ◌≡◌, refl, ◌∙◌,
}
use composable_dra_driver.Base.Order.{IsOrder}
use composable_dra_driver.Manager.Fetch.Safe.{Any, IsAnswering}
use composable_dra_driver.Manager.Loop.{World}
use composable_dra_driver.Manager.Loop.Safe.{
  CanScan, IsRunning, SameDrivers, check_resource_pool-Any,
}
use composable_dra_driver.Manager.Serve.{Turn, Manager, caches_of, logged, one_turn, loop}

-- An action of the loop ends well, whatever its scans met, and leaves what the next one needs.
abbrev pub GoesOn : {S : Type 0} → Manager S → World S → Outcome (Unit {0}) × World S → Type 0
GoesOn m w out =
    (out.0 ≡ ok tt)
    × IsRunning m.controllers out.1.publishing
    × SameDrivers w.publishing out.1.publishing

logged-ok : {r : Outcome (Unit {0})} → Post Any r → logged r ≡ ok tt
logged-ok (returns h) = refl
logged-ok (throws e) = refl

-- Each entry of a map comes once in a turn, and its scan finds what it needs.
abbrev pub CanTurn : {U S : Type 0} → Manager S → Turn U → Type 1
CanTurn m turn =
    IsOrder turn.range × CanScan m.settings.options.use_capi_bmh (caches_of m.kube_controllers turn)

module _ {U S : Type 0} (m : Manager S) (answering : IsAnswering m.cdi_api) where
  pub one_turn-GoesOn :
      (turn : Turn U) (w : World S)
      → CanTurn m turn
      → IsRunning m.controllers w.publishing
      → GoesOn m w (one_turn m turn w)
  unfolding one_turn
  one_turn-GoesOn turn w (order, can) running =
      let (ends, still, same) =
        check_resource_pool-Any order m.cdi_api (caches_of m.kube_controllers turn) turn.answer
          m.settings m.controllers answering can w running in
      (logged-ok ends, still, same)

  pub loop-GoesOn :
      (turns : List (Turn U)) (w : World S)
      → All (CanTurn m) turns
      → IsRunning m.controllers w.publishing
      → GoesOn m w (loop m turns w)
  unfolding loop
  loop-GoesOn [] w h running = (refl, running, λ d. refl)
  loop-GoesOn (turn ∷ rest) w (h, more) running =
      let (well, still, same) = one_turn-GoesOn turn w h running in
      let (end, left, kept) = loop-GoesOn rest (one_turn m turn w).1 more still in
      rw well (end, left, λ d. kept d ∙ same d)
