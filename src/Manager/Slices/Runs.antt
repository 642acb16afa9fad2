-- ===== src/Manager/Slices/Runs.antt =====
-- pkg/manager/manager.go: any run of calls of manageCDIResourceSlices, from the start on.
use composable_dra_driver.Base.{
  String, Option, none, some, List, [], ◌∷◌, ◌++◌, ok, ◌≡◌, refl, ap, sym, ◌∙◌, string_eq, ◌==◌,
  if◌then◌else◌, Option-cases, Bool-cases, inl, inr,
}
use composable_dra_driver.Base.Dict.{lookup, Distinct}
use composable_dra_driver.Base.Order.{Range, IsOrder}
use composable_dra_driver.Manager.Types.{Machine, DriverResources, Settings}
use composable_dra_driver.Manager.Slices.{Controllers, Published, Publishing, manage_slices}
use composable_dra_driver.Manager.Slices.Rescan.{
  HasControllers, manage_slices_total, manage_slices_reports,
}

-- What a driver's controller was told last.
abbrev pub or_before : Option DriverResources → Option DriverResources → Option DriverResources
or_before none before = before
or_before (some r) before = some r

abbrev pub latest : String → Published → Option DriverResources
latest d [] = none
latest d ((driver, r) ∷ rest) = or_before (latest d rest) (if driver == d then some r else none)

-- The states that calls reach, each with its own machines and order of iteration.
pub data Reached (m : Settings) (controllers : Controllers) (begin : Publishing)
    : Publishing → Type 1 where
  begun : Reached m controllers begin begin
  scanned :
      {range : Range} (order : IsOrder range) (machines : List Machine) {s : Publishing}
      → Reached m controllers begin s
      → Reached m controllers begin (manage_slices range m controllers machines s).1

-- The drivers are distinct and have their controllers, and what a controller was told last is what
-- its driver has; one that was told nothing has what it had at the start.
pub record IsCurrent (controllers : Controllers) (begin s : Publishing) : Type 0 where
  pub distinct : Distinct s.resources
  pub has : HasControllers controllers s.resources
  pub current :
      (d : String)
      → lookup d s.resources ≡ or_before (latest d s.published) (lookup d begin.resources)

or_before_assoc :
    (a b c : Option DriverResources) → or_before (or_before a b) c ≡ or_before a (or_before b c)
or_before_assoc none b c = refl
or_before_assoc (some r) b c = refl

or_before-none : (a : Option DriverResources) → or_before a none ≡ a
or_before-none none = refl
or_before-none (some r) = refl

latest-append :
    (xs ys : Published) (d : String) → latest d (xs ++ ys) ≡ or_before (latest d ys) (latest d xs)
latest-append [] ys d = sym (or_before-none (latest d ys))
latest-append ((driver, r) ∷ rest) ys d =
    ap (λ o. or_before o (if driver == d then some r else none)) (latest-append rest ys d)
    ∙ or_before_assoc (latest d ys) (latest d rest) _

latest-lookup : (new : Published) (d : String) → Distinct new → latest d new ≡ lookup d new
unfolding lookup
latest-lookup [] d h = refl
latest-lookup ((driver, r) ∷ rest) d h = elim (Bool-cases (driver == d)) [
  | inl same ↦ rw same (
      ap (λ o. or_before o (some r))
        (latest-lookup rest d h.1
          ∙ ap (λ k. lookup k rest) (sym ((string_eq.equals_iff driver d).0 same))
          ∙ h.0))
  | inr other ↦ rw other (or_before-none (latest d rest) ∙ latest-lookup rest d h.1)
]

-- What is current stays so, if what is published besides is what the driver has.
current_after :
    (published : Published) (before : Option DriverResources) {after : Published}
    {now old : Option DriverResources} (d : String) (new : Published)
    → after ≡ published ++ new
    → Distinct new
    → (lookup d new ≡ none → now ≡ old)
      × ((r : DriverResources) → lookup d new ≡ some r → now ≡ some r)
    → old ≡ or_before (latest d published) before
    → now ≡ or_before (latest d after) before
current_after published before d new p apart q current =
    let told =
      ap (latest d) p
      ∙ latest-append published new d
      ∙ ap (λ o. or_before o (latest d published)) (latest-lookup new d apart) in
    elim (Option-cases (lookup d new)) [
      | inl nothing ↦
          q.0 nothing
          ∙ current
          ∙ ap (λ o. or_before o before)
              (sym (told ∙ ap (λ o. or_before o (latest d published)) nothing))
      | inr (r, e) ↦
          q.1 r e
          ∙ ap (λ o. or_before o before) (sym (told ∙ ap (λ o. or_before o (latest d published)) e))
    ]

scanned-IsCurrent :
    {range : Range} (order : IsOrder range) (m : Settings) (controllers : Controllers)
    (machines : List Machine) (begin s : Publishing)
    → IsCurrent controllers begin s
    → IsCurrent controllers begin (manage_slices range m controllers machines s).1
scanned-IsCurrent order m controllers machines begin s i =
    let (_, distinct, has) = manage_slices_total order m controllers machines s i.distinct i.has in
    let (new, p, apart, q) =
      manage_slices_reports order m controllers machines s i.distinct i.has in
    record {
      distinct = distinct;
      has = has;
      current = λ d.
          current_after s.published (lookup d begin.resources) d new p apart (q d) (i.current d);
    }

Reached-IsCurrent :
    (m : Settings) (controllers : Controllers) (begin s : Publishing)
    → Distinct begin.resources
    → HasControllers controllers begin.resources
    → begin.published ≡ []
    → Reached m controllers begin s
    → IsCurrent controllers begin s
Reached-IsCurrent m controllers begin s distinct has nothing begun = record {
  distinct = distinct;
  has = has;
  current = λ d. rw nothing refl;
}
Reached-IsCurrent m controllers begin s distinct has nothing
      (scanned order machines {s = s'} before) =
    scanned-IsCurrent order m controllers machines begin s'
      (Reached-IsCurrent m controllers begin s' distinct has nothing before)

-- Whatever machines the scans find, in every state that they reach from the start the drivers are
-- distinct and have their controllers, what each controller was told last is what its driver has (a
-- driver of which nothing was told has what it had at the start), and the next call ends without
-- error or panic. At the start the drivers are distinct, each has a controller, and nothing is told.
pub manage_slices-IsCurrent :
    (m : Settings) (controllers : Controllers) (begin s : Publishing)
    → Distinct begin.resources
    → HasControllers controllers begin.resources
    → begin.published ≡ []
    → Reached m controllers begin s
    → IsCurrent controllers begin s
      × ((range : Range) (order : IsOrder range) (machines : List Machine)
          → (manage_slices range m controllers machines s).0 ≡ ok tt)
manage_slices-IsCurrent m controllers begin s distinct has nothing reached =
    let i = Reached-IsCurrent m controllers begin s distinct has nothing reached in
    (
      i,
      λ range order machines.
          (manage_slices_total order m controllers machines s i.distinct i.has).0,
    )
