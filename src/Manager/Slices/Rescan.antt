-- ===== src/Manager/Slices/Rescan.antt =====
-- pkg/manager/manager.go: what one call of manageCDIResourceSlices reaches, and what the next does.
use composable_dra_driver.Base.{
  String, Bool, none, some, List, [], ◌++◌, All, ok, Outcome, ◌≡◌, refl, ap, sym, subst, ◌∙◌,
  string_eq, Bool-cases, inl, inr, Option-cases,
}
use composable_dra_driver.Base.Dict.{Dict, lookup, flag, Distinct, All-of_lookup, is_some, contains}
use composable_dra_driver.Base.Order.{Range, IsOrder, range-Distinct, lookup-range}
use composable_dra_driver.Manager.Types.{Machine, DriverResources, Resources, Settings}
use composable_dra_driver.Manager.Slices.{
  Controller, Controllers, Published, Publishing, publish, manage_slices,
}
use composable_dra_driver.Manager.Slices.Jobs.{Job, jobs, run_jobs, update_machines-run_jobs}
use composable_dra_driver.Manager.Slices.Settled.{Advertised}
use composable_dra_driver.Manager.Slices.Scan.{
  run_jobs_total, run_jobs_idle, run_jobs_settles, run_jobs_keeps, run_jobs-Distinct,
  run_jobs_reports,
}
use composable_dra_driver.Manager.Slices.Publish.{
  flagged, publish-flagged, publish_none, lookup-flagged, flagged-Distinct, Covered,
}
use composable_dra_driver.Manager.Slices.Reorder.{jobs_reordered}
use composable_dra_driver.Manager.Slices.Apart.{IsValidList, jobs-Apart}

-- Every driver that is managed has a controller, as after startResourceSliceController.
abbrev pub HasControllers : Controllers → Resources → Type 0
HasControllers controllers s =
    (d : String) (r : DriverResources)
    → lookup d s ≡ some r
    → (c : Controller) × (lookup d controllers ≡ some c)

module _ {range : Range} (order : IsOrder range) (m : Settings) (controllers : Controllers)
    (machines : List Machine) (s : Publishing) where
  abbrev pub result : Outcome (Unit {0}) × Publishing
  result = manage_slices range m controllers machines s

  abbrev pub scan_jobs : List Job
  scan_jobs = jobs range machines []

  -- The call, once the jobs have run.
  manage_slices_ran :
      (need : Dict String Bool) (after : Resources)
      → run_jobs range m scan_jobs [] s.resources ≡ (ok need, after)
      → result ≡ (
          let (r, published) =
            publish need controllers (range String DriverResources after) s.published in
          (r, record { resources = after; published = published }))
  unfolding manage_slices
  manage_slices_ran need after e = rw (update_machines-run_jobs, e) refl

  -- Where every pool advertises what is available, the call changes and publishes nothing.
  pub manage_slices_quiet : All (Advertised s.resources) scan_jobs → result ≡ (ok tt, s)
  manage_slices_quiet h =
      rw (manage_slices_ran [] s.resources (run_jobs_idle range m scan_jobs [] s.resources h))
        (rw (publish_none controllers (range String DriverResources s.resources) s.published) refl)

  -- The resources and the flags after the jobs.
  abbrev pub ran : Outcome (Dict String Bool) × Resources
  ran = run_jobs range m scan_jobs [] s.resources

  ran_keeps : (d : String) → lookup d ran.1 ≡ none → lookup d s.resources ≡ none
  ran_keeps d e = elim (Option-cases (lookup d s.resources)) [
    | inl absent ↦ absent
    | inr (r, p) ↦
        cc (ap (is_some {A = DriverResources}) p, run_jobs_keeps range m scan_jobs [] s.resources d)
  ]

  module _ (distinct : Distinct s.resources) (has : HasControllers controllers s.resources) where
    known :
        (driver : String) (r : DriverResources)
        → lookup driver ran.1 ≡ some r
        → (c : Controller) × (lookup driver controllers ≡ some c)
    known driver r p = elim (Option-cases (lookup driver s.resources)) [
      | inl absent ↦ cc (
        ap (is_some {A = DriverResources}) absent,
        run_jobs_keeps range m scan_jobs [] s.resources driver,
      )
      | inr (old, e) ↦ has driver old e
    ]

    ran-range : (d : String) → lookup d (range String DriverResources ran.1) ≡ lookup d ran.1
    ran-range =
        lookup-range order ran.1 (run_jobs-Distinct range m scan_jobs [] s.resources distinct)

    -- The drivers are the same after the jobs, so each has its controller.
    covered : Covered controllers (range String DriverResources ran.1)
    covered =
        All-of_lookup _ (range String DriverResources ran.1)
          (range-Distinct order ran.1 (run_jobs-Distinct range m scan_jobs [] s.resources distinct))
          λ driver r p. known driver r (sym (ran-range driver) ∙ p)

    -- What the call comes to: the resources after the jobs, and the flagged drivers told.
    pub manage_slices_done :
        (need : Dict String Bool) × (ran.0 ≡ ok need)
        × (result ≡ (
          ok tt,
          record {
            resources = ran.1;
            published = s.published ++ flagged need (range String DriverResources ran.1);
          },
        ))
    manage_slices_done =
        let (need, e) = run_jobs_total range m scan_jobs [] s.resources in
        (
          need,
          ap (λ (o : Outcome (Dict String Bool) × Resources). o.0) e,
          manage_slices_ran need ran.1 e
              ∙ ap
                  (λ (o : Outcome (Unit {0}) × Published).
                    (o.0, record { resources = ran.1; published = o.1 }))
                  (publish-flagged need controllers _ s.published covered),
        )

    -- The call ends well, and leaves the drivers distinct and with their controllers.
    pub manage_slices_total :
        (result.0 ≡ ok tt)
        × Distinct result.1.resources
        × HasControllers controllers result.1.resources
    manage_slices_total =
        let (need, _, e) = manage_slices_done in
        subst
          (λ (out : Outcome (Unit {0}) × Publishing).
            (out.0 ≡ ok tt) × Distinct out.1.resources × HasControllers controllers out.1.resources)
          (sym e) (refl, run_jobs-Distinct range m scan_jobs [] s.resources distinct, known)

    -- No driver comes or goes.
    pub manage_slices_keeps : (d : String) → contains d result.1.resources ≡ contains d s.resources
    manage_slices_keeps d =
        let (need, _, e) = manage_slices_done in
        ap (λ (out : Outcome (Unit {0}) × Publishing). contains d out.1.resources) e
        ∙ run_jobs_keeps range m scan_jobs [] s.resources d

    -- Where the drivers are distinct and each has a controller, and on each machine the device names
    -- are distinct and the counts are not negative, the call ends well, and the pool of every device
    -- of the first machine of each fabric, if its driver is managed, advertises as many devices as are
    -- available.
    pub manage_slices_advertises :
        All (λ machine. IsValidList machine.device_list) machines
        → (result.0 ≡ ok tt) × All (Advertised result.1.resources) scan_jobs
    manage_slices_advertises valid =
        let (need, _, e) = manage_slices_done in
        let (apart, counted) = jobs-Apart order machines [] valid in
        subst
          (λ (out : Outcome (Unit {0}) × Publishing).
            (out.0 ≡ ok tt) × All (Advertised out.1.resources) scan_jobs)
          (sym e) (refl, run_jobs_settles range m scan_jobs [] s.resources apart counted)

    told :
        (need : Dict String Bool) (d : String)
        → ran.0 ≡ ok need
        → let new = flagged need (range String DriverResources ran.1) in
          (lookup d new ≡ none → lookup d ran.1 ≡ lookup d s.resources)
          × ((r : DriverResources) → lookup d new ≡ some r → lookup d ran.1 ≡ some r)
    told need d e = elim (Bool-cases (flag d need)) [
      | inl on ↦
          let seen =
            lookup-flagged need (range String DriverResources ran.1) d ∙ rw on (ran-range d) in
          (λ p. let gone = sym seen ∙ p in gone ∙ sym (ran_keeps d gone), λ r p. sym seen ∙ p)
      | inr off ↦
          let unseen = lookup-flagged need (range String DriverResources ran.1) d in
          (
            λ p. (run_jobs_reports range m scan_jobs [] need s.resources d e off).1,
            λ r p. cc (unseen, off, p),
          )
    ]

    -- Where the drivers are distinct and each has a controller, what the call publishes of a driver,
    -- each at most once, is what the driver has afterwards, and a driver of which it publishes nothing
    -- has what it had.
    pub manage_slices_reports :
        (new : Published) × (result.1.published ≡ s.published ++ new)
        × Distinct new
        × ((d : String)
            → (lookup d new ≡ none → lookup d result.1.resources ≡ lookup d s.resources)
              × ((r : DriverResources)
                  → lookup d new ≡ some r
                  → lookup d result.1.resources ≡ some r))
    manage_slices_reports =
        let (need, flags, e) = manage_slices_done in
        subst
          (λ (out : Outcome (Unit {0}) × Publishing).
            (new : Published) × (out.1.published ≡ s.published ++ new)
            × Distinct new
            × ((d : String)
                → (lookup d new ≡ none → lookup d out.1.resources ≡ lookup d s.resources)
                  × ((r : DriverResources)
                      → lookup d new ≡ some r
                      → lookup d out.1.resources ≡ some r)))
          (sym e)
          (
            flagged need (range String DriverResources ran.1),
            refl,
            flagged-Distinct need _ (
                range-Distinct order ran.1
                  (run_jobs-Distinct range m scan_jobs [] s.resources distinct)),
            λ d. told need d flags,
          )

-- After a call, a second call with the same machines changes and publishes nothing, whatever the
-- orders of map iteration of the two. The drivers are distinct and each has a controller; on each
-- machine the device names are distinct and the counts are not negative.
pub manage_slices_rescan :
    {range other : Range} (order : IsOrder range) (another : IsOrder other) (m : Settings)
    (controllers : Controllers) (machines : List Machine) (s : Publishing)
    → Distinct s.resources
    → HasControllers controllers s.resources
    → All (λ machine. IsValidList machine.device_list) machines
    → let s' = (manage_slices range m controllers machines s).1 in
      manage_slices other m controllers machines s' ≡ (ok tt, s')
manage_slices_rescan order another m controllers machines s distinct has valid =
    manage_slices_quiet another m controllers machines _ (
      jobs_reordered _ order another machines []
        (manage_slices_advertises order m controllers machines s distinct has valid).1)
