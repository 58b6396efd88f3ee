-- ===== src/Store/Pipeline/Answered.antt =====
-- planExactWork loses no positive of the aggregate providers.
use mathlib.Core.List.{Memᴰ}
use text.Mathlib.TextEquality.{eq_iff}
use patch_board.Common.{
  String, true, false, Option, none, some, List, [], ◌∷◌, Bool-cases, inl, inr, ◌⊎◌, ◌≡◌, refl,
  arith,
}
use patch_board.Common.Text.{str_eq, to_lower}
use patch_board.Common.Dict.{Dict, lookup, contains}
use patch_board.Common.Sort.{mem-sort_by}
use patch_board.Store.Model.{StoreProviderObservation}
use patch_board.Store.Inventory.{StorePackagedAppFamily}
use patch_board.Store.Pipeline.Sanitize.{family_key, product_like_families_by_pfn}
use patch_board.Store.Pipeline.Plan.{positive_aggregate_observations_without_exact_target}
use patch_board.Store.Pipeline.Work.{
  Planning, PlanningContext, planned_families, if_known, PlanInput, planning_context, planning_of,
  plan_exact_work, finished_plan,
}
use patch_board.Store.Pipeline.Handled.{IsReused, Handled, planning_of-Handled}

module _ (key : String) (family : StorePackagedAppFamily) where
  planned-family :
      (by_pfn : Dict StorePackagedAppFamily) (keys : List String)
      → contains key keys ≡ true
      → lookup key by_pfn ≡ some family
      → Memᴰ family (planned_families by_pfn keys)
  unfolding planned_families contains
  planned-family by_pfn [] h found = ground arith
  planned-family by_pfn (j ∷ keys) h found = elim (Bool-cases (str_eq j key)) [
    | inl t ↦ rw ((eq_iff j key).0 t, found) (Memᴰ.head refl)
    | inr f ↦
        known-later (lookup j by_pfn) (planned_families by_pfn keys)
          (planned-family by_pfn keys (ground arith) found)
  ]
    where
      known-later :
          (known : Option StorePackagedAppFamily) (families : List StorePackagedAppFamily)
          → Memᴰ family families
          → Memᴰ family (if_known known families)
      known-later none families m = m
      known-later (some other) families m = Memᴰ.tail m

  finished-Handled :
      (context : PlanningContext) (p : Planning)
      → lookup key context.by_pfn ≡ some family
      → Handled key family p
      → (Memᴰ family (finished_plan context p).families
          × (contains key (finished_plan context p).state_check_pfns ≡ true))
        ⊎ IsReused family (finished_plan context p).mapping_reuse_run
  unfolding finished_plan
  finished-Handled context p found (inl (h, k)) = inl (
    mem-sort_by family_key (planned_families context.by_pfn p.planned)
        (planned-family context.by_pfn p.planned h found),
    k,
  )
  finished-Handled context p found (inr h) = inr h

-- In a scan that is not deep, let a healthy positive of the scan's user, without an exact target of its
-- own, be about a family that is in scope. Then the plan asks the exact
-- providers for the family and has its state checked, or the run of reused mappings offers an update
-- with a target for the family.
pub plan_exact_work-answers :
    (input : PlanInput) (o : StoreProviderObservation) (family : StorePackagedAppFamily)
    → input.deep_exact_scan ≡ false
    → Memᴰ o (positive_aggregate_observations_without_exact_target input.scan input.aggregate_runs)
    → lookup
        (to_lower o.identity.package_family_name)
        (product_like_families_by_pfn input.scan input.families)
      ≡ some family
    → (Memᴰ family (plan_exact_work input).families
        × (contains
              (to_lower o.identity.package_family_name)
              (plan_exact_work input).state_check_pfns
            ≡ true))
      ⊎ IsReused family (plan_exact_work input).mapping_reuse_run
unfolding plan_exact_work planning_context
plan_exact_work-answers input o family shallow listed found =
    let key = to_lower o.identity.package_family_name in
    let context = planning_context input in
    rw (shallow) (
      finished-Handled key family context (planning_of input context) found
        (planning_of-Handled key family context input o listed refl found))
