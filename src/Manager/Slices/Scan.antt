-- ===== src/Manager/Slices/Scan.antt =====
-- pkg/manager/manager.go: the jobs of manageCDIResourceSlices one after the other.
use composable_dra_driver.Base.{
  ℕ, pos, String, Bool, true, false, List, [], ◌∷◌, All, ok, Outcome, ◌≡◌, refl, ap, sym, ◌∙◌, ◌≢◌,
  ◌⊎◌, inl, inr, ok_inj, subst, continue, string_eq, int_eq,
}
use composable_dra_driver.Base.Dict.{Dict, lookup, contains, flag, Distinct, flag-raise}
use composable_dra_driver.Base.Order.{Range}
use composable_dra_driver.Manager.Types.{Settings, Resources}
use composable_dra_driver.Manager.Slices.{mark}
use composable_dra_driver.Manager.Slices.Jobs.{Job, driver_of, pool_of, run_jobs}
use composable_dra_driver.Manager.Slices.Settled.{
  Advertised, done, update_device_idle, update_device_keeps, update_device-Distinct,
  update_device_total, update_device_reports, update_device_settles, update_device_frame,
}

-- The jobs are about different pools.
abbrev pub Apart : List Job → Type 0
Apart [] = Unit
Apart (j ∷ js) = All (λ i. pool_of i ≢ pool_of j) js × Apart js

-- The count of the job is not negative.
abbrev pub IsCounted : Job → Type 0
IsCounted j = (n : ℕ) × (pos n ≡ j.device.available_device_count)

flag-mark :
    (b : Bool) (driver : String) (need : Dict String Bool) (d : String)
    → flag d (mark b driver need) ≡ false
    → (flag d need ≡ false) × ((b ≡ false) ⊎ (d ≢ driver))
flag-mark false driver need d h = (h, inl refl)
flag-mark true driver need d h = let (down, other) = flag-raise driver d need h in (down, inr other)

module _ (range : Range) (m : Settings) where
  abbrev pub after : List Job → Dict String Bool → Resources → Resources
  after js need s = (run_jobs range m js need s).1

  -- What one step leaves for the others.
  pub run_jobs-cons :
      (j : Job) (js : List Job) (need : Dict String Bool) (s : Resources)
      → (b : Bool) × ((done range m j s).0 ≡ ok b)
        × (run_jobs range m (j ∷ js) need s
            ≡ run_jobs range m js (mark b (driver_of j) need) (done range m j s).1)
        × (after (j ∷ js) need s ≡ after js (mark b (driver_of j) need) (done range m j s).1)
  unfolding run_jobs
  run_jobs-cons j js need s =
      let (b, e) = update_device_total range m j s in
      let step =
        ap
          (λ (r : Outcome Bool × Resources).
            continue r.0 (λ b'. run_jobs range m js (mark b' (driver_of j) need)) r.1)
          e in
      (
        b,
        ap (λ (o : Outcome Bool × Resources). o.0) e,
        step,
        ap (λ (o : Outcome (Dict String Bool) × Resources). o.1) step,
      )

  pub run_jobs_total :
      (js : List Job) (need : Dict String Bool) (s : Resources)
      → (need' : Dict String Bool) × (run_jobs range m js need s ≡ (ok need', after js need s))
  run_jobs_total [] need s = (need, unfold run_jobs in refl)
  run_jobs_total (j ∷ js) need s =
      let (b, _, step, e) = run_jobs-cons j js need s in
      let (need', rest) = run_jobs_total js (mark b (driver_of j) need) (done range m j s).1 in
      (need', rw (step, e) rest)

  -- Where every pool advertises what is available, nothing changes.
  pub run_jobs_idle :
      (js : List Job) (need : Dict String Bool) (s : Resources)
      → All (Advertised s) js
      → run_jobs range m js need s ≡ (ok need, s)
  unfolding run_jobs
  run_jobs_idle [] need s h = refl
  run_jobs_idle (j ∷ js) need s h =
      rw (update_device_idle range m j s h.0) (run_jobs_idle js need s h.1)

  run_jobs_frame :
      (i : Job) (js : List Job) (need : Dict String Bool) (s : Resources)
      → All (λ j. pool_of j ≢ pool_of i) js
      → Advertised s i
      → Advertised (after js need s) i
  run_jobs_frame i [] need s h a = unfold run_jobs in a
  run_jobs_frame i (j ∷ js) need s h a =
      let (b, _, step, e) = run_jobs-cons j js need s in
      rw e (
        run_jobs_frame i js (mark b (driver_of j) need) (done range m j s).1 h.1
          (update_device_frame range m j s i (λ p. h.0 (sym p)) a))

  -- Jobs about different pools leave every pool advertising what is available.
  pub run_jobs_settles :
      (js : List Job) (need : Dict String Bool) (s : Resources)
      → Apart js
      → All IsCounted js
      → All (Advertised (after js need s)) js
  run_jobs_settles [] need s a c = tt
  run_jobs_settles (j ∷ js) need s a c =
      let (b, _, step, e) = run_jobs-cons j js need s in
      let need' = mark b (driver_of j) need in
      let s' = (done range m j s).1 in
      subst (λ (t : Resources). All (Advertised t) (j ∷ js)) (sym e)
        (
          run_jobs_frame j js need' s' a.0 (update_device_settles range m j s c.0.0 c.0.1),
          run_jobs_settles js need' s' a.1 c.1,
        )

  pub run_jobs_keeps :
      (js : List Job) (need : Dict String Bool) (s : Resources) (d : String)
      → contains d (after js need s) ≡ contains d s
  run_jobs_keeps [] need s d = unfold run_jobs in refl
  run_jobs_keeps (j ∷ js) need s d =
      let (b, _, step, e) = run_jobs-cons j js need s in
      rw e (
        run_jobs_keeps js (mark b (driver_of j) need) (done range m j s).1 d
        ∙ update_device_keeps range m j s d)

  pub run_jobs-Distinct :
      (js : List Job) (need : Dict String Bool) (s : Resources)
      → Distinct s
      → Distinct (after js need s)
  run_jobs-Distinct [] need s h = unfold run_jobs in h
  run_jobs-Distinct (j ∷ js) need s h =
      let (b, _, step, e) = run_jobs-cons j js need s in
      rw e (
        run_jobs-Distinct js (mark b (driver_of j) need) (done range m j s).1
          (update_device-Distinct range m j s h))

  -- A driver that is not reported has the resources that it had.
  pub run_jobs_reports :
      (js : List Job) (need need' : Dict String Bool) (s : Resources) (d : String)
      → (run_jobs range m js need s).0 ≡ ok need'
      → flag d need' ≡ false
      → (flag d need ≡ false) × (lookup d (after js need s) ≡ lookup d s)
  unfolding run_jobs
  run_jobs_reports [] need need' s d e h =
      (subst (λ (n : Dict String Bool). flag d n ≡ false) (sym (ok_inj e)) h, refl)
  run_jobs_reports (j ∷ js) need need' s d e h =
      let (b, told, step, e') = run_jobs-cons j js need s in
      let s' = (done range m j s).1 in
      let rest =
        run_jobs_reports js (mark b (driver_of j) need) need' s' d
          (ap (λ (o : Outcome (Dict String Bool) × Resources). o.0) (sym step) ∙ e) h in
      let (unmarked, why) = flag-mark b (driver_of j) need d rest.0 in
      (
        unmarked,
        rw e' (
            rest.1
            ∙ update_device_reports range m j s d
                (elim why [ inl q ↦ inl (told ∙ ap ok q) | inr other ↦ inr other ])),
      )
