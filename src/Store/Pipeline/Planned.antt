-- ===== src/Store/Pipeline/Planned.antt =====
-- What planExactWork plans: the reused mappings are sound evidence of the scan.
use patch_board.Common.{
  Bool, true, not, ◌||◌, Option, none, some, [], fold_left, fold_left-keeps, if-cases, ◌≡◌, refl,
  ◌∙◌, String,
}
use patch_board.Common.Text.{to_lower}
use patch_board.Common.Dict.{Dict, lookup, contains, AllValues, lookup_AllValues}
use patch_board.Store.Model.{
  StoreScanGeneration, VerifiedStoreIdentityMapping, StoreProviderObservation,
}
use patch_board.Store.Inventory.{StorePackagedAppFamily}
use patch_board.Store.Snapshot.{StoreCatalogProviderRun, StoreScanSnapshot}
use patch_board.Store.Snapshot.Validated.{IsWellFormed}
use patch_board.Store.Pipeline.Sanitize.{
  in_scope, family_key, is_verified, product_like_families_by_pfn,
}
use patch_board.Store.Pipeline.Identities.{lookup_identity, AllEntries, lookup_identity-AllEntries}
use patch_board.Store.Pipeline.Plan.{
  StoreExactWorkPlan, empty_plan, positive_aggregate_observations_without_exact_target,
  aggregate_coverage_incomplete, aggregate_positive_hint_requires_exact_sweep,
  aggregate_negative_requires_exact_sweep,
}
use patch_board.Store.Pipeline.Reuse.{reusable_store_mappings}
use patch_board.Store.Pipeline.Work.{
  Planning, check_state, PlanningContext, plan_positive, plan_family, plan_observation, sweep,
  sweep_auto_updates, cover_mappings, values, store_family_auto_update_enabled, is_there, PlanInput,
  planning_context, planning_of, plan_exact_work, finished_plan, deep_plan,
}
use patch_board.Store.Pipeline.Reused.{
  InScope, WasVerified, SoundReuse, by_pfn-InScope, reusable-WasVerified,
  append_mapping_reuse-IsSound,
}

abbrev reuse_run : Planning → Option StoreCatalogProviderRun
reuse_run p = p.plan.mapping_reuse_run

-- The sweeps plan checks, and leave the run of reused mappings alone.
check_state-reuse : (key : String) (p : Planning) → reuse_run (check_state key p) ≡ reuse_run p
unfolding check_state
check_state-reuse key p = refl

sweep-reuse :
    (wanted : Bool) (by_pfn : Dict StorePackagedAppFamily) (p : Planning)
    → reuse_run (sweep wanted by_pfn p) ≡ reuse_run p
unfolding sweep
sweep-reuse wanted by_pfn p =
    if-cases (λ (q : Planning). reuse_run q ≡ reuse_run p) (not wanted) p _ (λ e. refl)
      (λ e.
        fold_left-keeps (λ q f. check_state (family_key f) q)
          (λ (q : Planning). reuse_run q ≡ reuse_run p) p (values by_pfn)
          (λ q f listed h. check_state-reuse (family_key f) q ∙ h) refl)

sweep_auto_updates-reuse :
    (wanted : Bool) (auto_update : Dict Bool) (by_pfn : Dict StorePackagedAppFamily) (p : Planning)
    → reuse_run (sweep_auto_updates wanted auto_update by_pfn p) ≡ reuse_run p
unfolding sweep_auto_updates
sweep_auto_updates-reuse wanted auto_update by_pfn p =
    let Same : Planning → Type 0 = λ q. reuse_run q ≡ reuse_run p in
    if-cases Same (not wanted) p _ (λ e. refl)
      (λ e.
        fold_left-keeps _ Same p (values by_pfn)
          (λ q f listed h.
            if-cases Same (not (store_family_auto_update_enabled auto_update f.identity)) q
              (check_state (family_key f) q) (λ k. h) (λ k. check_state-reuse (family_key f) q ∙ h))
          refl)

cover_mappings-reuse :
    (wanted : Bool) (context : PlanningContext) (p : Planning)
    → reuse_run (cover_mappings wanted context.reusable context.by_pfn p) ≡ reuse_run p
unfolding cover_mappings
cover_mappings-reuse wanted context p =
    let Same : Planning → Type 0 = λ q. reuse_run q ≡ reuse_run p in
    if-cases Same (not wanted) p _ (λ e. refl)
      (λ e.
        fold_left-keeps _ Same p context.by_pfn
          (λ q f listed h.
            if-cases Same
              (is_there (lookup_identity f.1.identity context.reusable) || contains f.0 q.planned) q
              _ (λ k. h) (λ k. h))
          refl)

-- What the context of a plan is to satisfy: its families are in scope, and its mappings were verified.
pub record IsGoodContext (old : StoreScanGeneration) (context : PlanningContext) : Type 0 where
  pub families : AllValues (InScope context.scan) context.by_pfn
  pub mappings : AllEntries (WasVerified old) context.reusable

module _ (old : StoreScanGeneration) (context : PlanningContext)
    (good : IsGoodContext old context) where
  abbrev Sound : Planning → Type 0
  Sound p = SoundReuse context.scan old (reuse_run p)

  plan_positive-Sound :
      (o : StoreProviderObservation) (family : StorePackagedAppFamily)
      (found : Option VerifiedStoreIdentityMapping) (p : Planning)
      → in_scope context.scan family ≡ true
      → ((m : VerifiedStoreIdentityMapping) → found ≡ some m → is_verified old m ≡ true)
      → Sound p
      → Sound (plan_positive context o family found p)
  unfolding plan_positive check_state
  plan_positive-Sound o family none p i v h = h
  plan_positive-Sound o family (some mapping) p i v h =
      append_mapping_reuse-IsSound context.scan old p.plan.mapping_reuse_run family mapping o i
        (v mapping refl) h

  plan_family-Sound :
      (o : StoreProviderObservation) (found : Option StorePackagedAppFamily) (p : Planning)
      → ((f : StorePackagedAppFamily) → found ≡ some f → in_scope context.scan f ≡ true)
      → Sound p
      → Sound (plan_family context o found p)
  unfolding plan_family
  plan_family-Sound o none p i h = h
  plan_family-Sound o (some family) p i h =
      plan_positive-Sound o family (lookup_identity family.identity context.reusable) p
        (i family refl)
        (λ m e.
          (lookup_identity-AllEntries (WasVerified old) family.identity context.reusable
            good.mappings e).2)
        h

  plan_observation-Sound :
      (p : Planning) (o : StoreProviderObservation) → Sound p → Sound (plan_observation context p o)
  unfolding plan_observation
  plan_observation-Sound p o h =
      plan_family-Sound o (lookup (to_lower o.identity.package_family_name) context.by_pfn) p
        (λ f e.
          lookup_AllValues (InScope context.scan) (to_lower o.identity.package_family_name)
            context.by_pfn good.families e)
        h

  abbrev observed : PlanInput → Planning
  observed input =
      fold_left (plan_observation context) (record { planned = []; plan = empty_plan })
        (positive_aggregate_observations_without_exact_target input.scan input.aggregate_runs)

  planning_of-Sound : (input : PlanInput) → Sound (planning_of input context)
  unfolding planning_of
  planning_of-Sound input =
      let start =
        fold_left-keeps (plan_observation context) Sound
          (record { planned = []; plan = empty_plan })
          (positive_aggregate_observations_without_exact_target input.scan input.aggregate_runs)
          (λ p o listed h. plan_observation-Sound p o h) tt in
      rw
        (
          cover_mappings-reuse input.ensure_mapping_coverage context _,
          sweep_auto_updates-reuse (aggregate_coverage_incomplete input.aggregate_runs)
              input.auto_update context.by_pfn _,
          sweep-reuse
              (aggregate_positive_hint_requires_exact_sweep input.aggregate_runs
                || aggregate_negative_requires_exact_sweep input.aggregate_runs)
              context.by_pfn (observed input),
        )
        start

-- A previous snapshot that is well formed, which the validation makes sure of, or none.
abbrev pub GoodPrevious : Option StoreScanSnapshot → Type 0
GoodPrevious none = Unit
GoodPrevious (some s) = IsWellFormed s

planning_context-IsGood :
    (input : PlanInput) (previous : Option StoreScanSnapshot)
    → GoodPrevious previous
    → (old : StoreScanGeneration) × IsGoodContext old
        (planning_context (record input { previous = previous }))
unfolding planning_context reusable_store_mappings
planning_context-IsGood input none good =
    (input.scan, record { families = by_pfn-InScope input.scan input.families; mappings = tt })
planning_context-IsGood input (some s) good = (
  s.scan,
  record {
    families = by_pfn-InScope input.scan input.families;
    mappings =
        reusable-WasVerified s (product_like_families_by_pfn input.scan input.families)
          input.scan.started_at input.exact_provider_version good;
  },
)

-- The reused run of a plan, if there is one, is sound evidence of the scan.
pub plan_exact_work-SoundReuse :
    (input : PlanInput)
    → GoodPrevious input.previous
    → SoundReuse input.scan input.scan (plan_exact_work input).mapping_reuse_run
unfolding plan_exact_work deep_plan finished_plan planning_context
plan_exact_work-SoundReuse input good =
    let (old, context) = planning_context-IsGood input input.previous good in
    if-cases
      (λ (plan : StoreExactWorkPlan). SoundReuse input.scan input.scan plan.mapping_reuse_run)
      input.deep_exact_scan (deep_plan input.scan input.families)
      (finished_plan (planning_context input) (planning_of input (planning_context input)))
      (λ e. tt) (λ e. planning_of-Sound old (planning_context input) context input)
