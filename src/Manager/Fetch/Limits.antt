-- ===== src/Manager/Fetch/Limits.antt =====
-- pkg/manager/manager.go: which bounds getMinMaxNums takes from a machine's specs.
use composable_dra_driver.Base.{
  String, Bool, true, false, ◌||◌, Option, none, some, List, [], ◌∷◌, ◌++◌, All, ok, ◌≡◌, ◌⊎◌, inl,
  inr, refl, ap, sym, ◌∙◌, true≢false, Bool-cases, Option-cases, if◌then◌else◌, ℤ,
}
use composable_dra_driver.Client.Types.{CmResSpec, CmNodeDetails, Condition, CdiApi}
use composable_dra_driver.Manager.Fetch.{
  Limit, or_else, names_model, limit_of_conditions, limit_of_specs, get_min_max_nums,
}

-- Some condition names the model.
abbrev any_names : String → List Condition → Bool
any_names model [] = false
any_names model (c ∷ rest) = names_model model c || any_names model rest

abbrev is_for : String → CmResSpec → Bool
is_for model spec = any_names model spec.selector.expression.conditions

-- One of the two bounds of a spec.
abbrev Bound : Type 0
Bound = CmResSpec → Option ℤ

-- A spec for the model that leaves the bound out, or a spec for another.
abbrev IsSilent : Bound → String → CmResSpec → Type 0
IsSilent bound model spec = is_for model spec ≡ true → bound spec ≡ none

-- The last spec for the model that gives the bound gives this one.
abbrev Gives : Bound → String → List CmResSpec → ℤ → Type 0
Gives bound model specs n =
    (before : List CmResSpec) × (spec : CmResSpec) × (after : List CmResSpec) × (specs
      ≡ before ++ (spec ∷ after))
    × (is_for model spec ≡ true)
    × (bound spec ≡ some n)
    × All (IsSilent bound model) after

-- What the last spec for the model that gives the bound gives; where there is none, what was found before.
abbrev IsLastOr : Bound → String → Option ℤ → List CmResSpec → Option ℤ → Type 0
IsLastOr bound model start specs found =
    ((found ≡ start) × All (IsSilent bound model) specs)
    ⊎ ((n : ℤ) × (found ≡ some n) × Gives bound model specs n)

abbrev pub IsLast : Bound → String → List CmResSpec → Option ℤ → Type 0
IsLast bound model = IsLastOr bound model none

abbrev overwritten : CmResSpec → Limit → Limit
overwritten spec l = record {
  min = or_else spec.min_res_spec_count l.min;
  max = or_else spec.max_res_spec_count l.max;
}

or_else_twice : (new old : Option ℤ) → or_else new (or_else new old) ≡ or_else new old
or_else_twice none old = refl
or_else_twice (some n) old = refl

limit_of_conditions_lem :
    (model : String) (spec : CmResSpec) (cs : List Condition) (l : Limit)
    → limit_of_conditions model spec cs l ≡ (if any_names model cs then overwritten spec l else l)
unfolding limit_of_conditions
limit_of_conditions_lem model spec [] l = refl
limit_of_conditions_lem model spec (c ∷ rest) l = elim (Bool-cases (names_model model c)) [
  | inl named ↦
      rw (named, limit_of_conditions_lem model spec rest (overwritten spec l))
        (elim (Bool-cases (any_names model rest)) [
          | inl again ↦
              rw
                (
                  again,
                  or_else_twice spec.min_res_spec_count l.min,
                  or_else_twice spec.max_res_spec_count l.max,
                )
                refl
          | inr once ↦ rw once refl
        ])
  | inr other ↦ rw other (limit_of_conditions_lem model spec rest l)
]

module _ (bound : Bound) (part : Limit → Option ℤ)
    (overwrites : (spec : CmResSpec) (l : Limit)
      → part (overwritten spec l) ≡ or_else (bound spec) (part l))
    (model : String) where
  -- One spec more in front of those that were read.
  one_more :
      (spec : CmResSpec) (specs : List CmResSpec) (l : Limit) (found : Option ℤ) (b : Bool)
      → is_for model spec ≡ b
      → IsLastOr bound model (part (if b then overwritten spec l else l)) specs found
      → IsLastOr bound model (part l) (spec ∷ specs) found
  one_more spec specs l found b for
        (inr (n, e, (before, last, after, split, named, gives, silent))) =
      inr (n, e, (spec ∷ before, last, after, ap (λ s. spec ∷ s) split, named, gives, silent))
  one_more spec specs l found false for (inl (e, silent)) =
      inl (e, ((λ h. absurd (true≢false (sym h ∙ for))), silent))
  one_more spec specs l found true for (inl (e, silent)) =
      let after = e ∙ overwrites spec l in
      elim (Option-cases (bound spec)) [
        | inl without ↦ inl (after ∙ ap (λ o. or_else o (part l)) without, ((λ h. without), silent))
        | inr (n, gives) ↦ inr (
          n,
          after ∙ ap (λ o. or_else o (part l)) gives,
          ([], spec, specs, refl, for, gives, silent),
        )
      ]

  limit_of_specs-last :
      (specs : List CmResSpec) (l : Limit)
      → IsLastOr bound model (part l) specs (part (limit_of_specs model specs l))
  unfolding limit_of_specs
  limit_of_specs-last [] l = inl (refl, tt)
  limit_of_specs-last (spec ∷ rest) l =
      rw (limit_of_conditions_lem model spec spec.selector.expression.conditions l)
        (one_more spec rest l _ (is_for model spec) refl (limit_of_specs-last rest _))

module _ {S : Type 0} (api : CdiApi S) where
  -- Where the node's details are read, getMinMaxNums returns a limit. Its minimum is that of the
  -- last spec for the model that has a minimum, and its maximum that of the last one that has a
  -- maximum; a bound that no spec for the model has is left out.
  pub get_min_max_nums-IsLast :
      (muuid model : String) (s : S) (d : CmNodeDetails)
      → (api.get_cm_node_details (api.request_id s).0 muuid (api.request_id s).1).0 ≡ ok d
      → let specs = d.content.cluster.machine.res_specs in
        (l : Limit) × ((get_min_max_nums api muuid model s).0 ≡ ok l)
        × IsLast (λ spec. spec.min_res_spec_count) model specs l.min
        × IsLast (λ spec. spec.max_res_spec_count) model specs l.max
  unfolding get_min_max_nums
  get_min_max_nums-IsLast muuid model s d read =
      let specs = d.content.cluster.machine.res_specs in
      let start : Limit = record { min = none; max = none } in
      (
        limit_of_specs model specs start,
        rw read refl,
        limit_of_specs-last (λ spec. spec.min_res_spec_count) (λ l. l.min) (λ spec l. refl) model
            specs start,
        limit_of_specs-last (λ spec. spec.max_res_spec_count) (λ l. l.max) (λ spec l. refl) model
            specs start,
      )
