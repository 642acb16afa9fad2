-- ===== src/Manager/Slices/Publish.antt =====
-- pkg/manager/manager.go: the last loop of manageCDIResourceSlices, which tells the controllers.
use mathlib.Core.List.{append_assoc, append-nil}
use composable_dra_driver.Base.{
  String, Bool, none, some, List, [], ◌∷◌, ◌++◌, All, ok, ◌≡◌, refl, ap, sym, ◌∙◌, arith,
  Bool-cases, inl, inr, string_eq, if◌then◌else◌,
}
use composable_dra_driver.Base.Dict.{Dict, lookup, flag, Distinct}
use composable_dra_driver.Manager.Types.{DriverResources}
use composable_dra_driver.Manager.Slices.{Controllers, Controller, Published, publish}

-- The entries whose driver is flagged, in the order of the loop.
pub flagged : Dict String Bool → List (String × DriverResources) → Published
flagged need [] = []
flagged need ((driver, r) ∷ rest) =
    let others = flagged need rest in if flag driver need then (driver, r) ∷ others else others

-- Every driver of the list has a controller.
abbrev pub Covered : Controllers → List (String × DriverResources) → Type 0
Covered controllers = All (λ e. (c : Controller) × (lookup e.0 controllers ≡ some c))

-- With a controller for every driver the loop appends the flagged entries and ends well.
pub publish-flagged :
    (need : Dict String Bool) (controllers : Controllers)
    (entries : List (String × DriverResources)) (published : Published)
    → Covered controllers entries
    → publish need controllers entries published ≡ (ok tt, published ++ flagged need entries)
unfolding publish flagged
publish-flagged need controllers [] published h =
    ap (λ (p : Published). (ok tt, p)) (sym (append-nil published))
publish-flagged need controllers ((driver, r) ∷ rest) published h =
    elim (Bool-cases (flag driver need)) [
      | inl on ↦
          rw (on, h.0.1)
            (publish-flagged need controllers rest (published ++ (driver, r) ∷ []) h.1
              ∙ ap (λ (p : Published). (ok tt, p))
                  (append_assoc published ((driver, r) ∷ []) (flagged need rest)))
      | inr off ↦ rw off (publish-flagged need controllers rest published h.1)
    ]

-- Nothing is flagged: the controllers are left alone, whatever they are.
pub publish_none :
    (controllers : Controllers) (entries : List (String × DriverResources)) (published : Published)
    → publish [] controllers entries published ≡ (ok tt, published)
unfolding publish lookup
publish_none controllers [] published = refl
publish_none controllers ((driver, r) ∷ rest) published = publish_none controllers rest published

-- A flagged driver is in the list of what is published, with its resources.
pub lookup-flagged :
    (need : Dict String Bool) (entries : List (String × DriverResources)) (d : String)
    → lookup d (flagged need entries) ≡ (if flag d need then lookup d entries else none)
unfolding flagged lookup
lookup-flagged need [] d = ground arith
lookup-flagged need ((driver, r) ∷ rest) d =
    ground (arith, lookup-flagged need rest d, string_eq.equals_iff driver d)

-- No driver is published twice.
pub flagged-Distinct :
    (need : Dict String Bool) (entries : List (String × DriverResources))
    → Distinct entries
    → Distinct (flagged need entries)
unfolding flagged
flagged-Distinct need [] d = tt
flagged-Distinct need ((driver, r) ∷ rest) d = elim (Bool-cases (flag driver need)) [
  | inl on ↦ rw on (lookup-flagged need rest driver ∙ rw on d.0, flagged-Distinct need rest d.1)
  | inr off ↦ rw off (flagged-Distinct need rest d.1)
]
