-- ===== src/Manager/Fetch/Reporting.antt =====
-- pkg/manager/manager.go, getAvailableNums: the number that the component reports.
use composable_dra_driver.Base.{
  ℤ, pos, ltb_ℤ, String, none, Outcome, Runs, Post, returns, throws, ◌≡◌, Yields, yields, fails,
  Bool-cases, inl, inr,
}
use composable_dra_driver.Client.Context.{RequestContext, with_request_id}
use composable_dra_driver.Client.Types.{CdiApi, FmAvailableReservedResources}
use composable_dra_driver.Manager.Fetch.{bounded, get_available_nums}

-- The component reports, for each machine and model, the number of free devices that `count` has.
abbrev pub IsReporting : {S : Type 0} → CdiApi S → (String → String → ℤ) → Type 0
IsReporting api count =
    (id muuid model : String)
    → Runs (λ a. a.reserved_resource_num ≡ count muuid model)
        (api.get_fm_available_reserved_resources id muuid model)

module _ {S : Type 0} (api : CdiApi S) (count : String → String → ℤ)
    (reporting : IsReporting api count) where
  bounded-Yields :
      (ctx : RequestContext) (z : ℤ) {r : Outcome FmAvailableReservedResources}
      → Post (λ a. a.reserved_resource_num ≡ z) r
      → Yields (λ n. n ≡ z) (bounded api ctx r)
  bounded-Yields ctx z (returns {a} e) =
      elim (Bool-cases (ltb_ℤ (pos 128) a.reserved_resource_num)) [
        | inl more ↦ rw more (fails _)
        | inr fits ↦ rw fits (yields e)
      ]
  bounded-Yields ctx z (throws e) = fails _

  pub get_available_nums-Yields :
      (muuid model : String) (s : S)
      → Yields (λ n. n ≡ count muuid model) (get_available_nums api muuid model s).0
  unfolding get_available_nums
  get_available_nums-Yields muuid model s =
      bounded-Yields (with_request_id (api.request_id s).0 none) (count muuid model)
        (reporting _ muuid model _)
