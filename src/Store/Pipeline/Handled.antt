-- ===== src/Store/Pipeline/Handled.antt =====
-- The loops of planExactWork, and a family that they have handled.
use mathlib.Core.List.{Memᴰ}
use text.Mathlib.TextPositions.{eq_refl}
use patch_board.Common.{
  Bool, String, true, not, ◌||◌, Option, none, some, List, [], fold_left-keeps, fold_left-reaches,
  mem-append_left, mem-append_last, if-cases, inl, inr, ◌⊎◌, ◌≡◌, refl, ◌∙◌, arith, some_inj,
}
use patch_board.Common.Text.{to_lower}
use patch_board.Common.Dict.{Dict, lookup, contains, add, contains-add}
use patch_board.Store.Model.{
  StoreScanGeneration, ExactStoreUpdateTarget, VerifiedStoreIdentityMapping,
  StoreProviderObservation,
}
use patch_board.Store.Inventory.{StorePackagedAppFamily}
use patch_board.Store.Snapshot.{StoreCatalogProviderRun}
use patch_board.Store.Pipeline.Sanitize.{family_key}
use patch_board.Store.Pipeline.Identities.{lookup_identity}
use patch_board.Store.Pipeline.Plan.{
  positive_aggregate_observations_without_exact_target, aggregate_coverage_incomplete,
  aggregate_positive_hint_requires_exact_sweep, aggregate_negative_requires_exact_sweep, empty_plan,
}
use patch_board.Store.Pipeline.Reuse.{
  started_reuse, reused_observation, append_mapping_reuse_observation, reused_target,
}
use patch_board.Store.Pipeline.Work.{
  Planning, check_state, PlanningContext, counted_rejection, plan_positive, plan_family,
  plan_observation, sweep, sweep_auto_updates, cover_mappings, values,
  store_family_auto_update_enabled, is_there, PlanInput, planning_of,
}

-- The run of reused mappings has an offer with a target for the family.
pub record IsReused (family : StorePackagedAppFamily) (found : Option StoreCatalogProviderRun)
    : Type 0 where
  pub run : StoreCatalogProviderRun
  pub made : found ≡ some run
  pub offer : StoreProviderObservation
  pub listed : Memᴰ offer run.observations
  pub whose : offer.identity ≡ family.identity
  pub target : ExactStoreUpdateTarget
  pub carried : offer.target ≡ some target
  pub aimed : target.identity ≡ family.identity

module _ (key : String) (family : StorePackagedAppFamily) where
  -- The key is planned, and its state is to be checked.
  abbrev pub IsChecked : Planning → Type 0
  IsChecked p = (contains key p.planned ≡ true) × (contains key p.plan.state_check_pfns ≡ true)

  -- The key is checked, or the family has its target from a mapping.
  abbrev pub Handled : Planning → Type 0
  Handled p = IsChecked p ⊎ IsReused family p.plan.mapping_reuse_run

  contains-add_later :
      (j : String) (keys : List String)
      → contains key keys ≡ true
      → contains key (add j keys) ≡ true
  contains-add_later j keys h = contains-add j key keys ∙ ground arith

  check_state-Handled : (j : String) (p : Planning) → Handled p → Handled (check_state j p)
  unfolding check_state
  check_state-Handled j p (inl (h, k)) =
      inl (contains-add_later j p.planned h, contains-add_later j p.plan.state_check_pfns k)
  check_state-Handled j p (inr h) = inr h

  contains-add_now : (keys : List String) → contains key (add key keys) ≡ true
  contains-add_now keys = contains-add key key keys ∙ ground (arith, eq_refl key)

  check_state-now : (p : Planning) → Handled (check_state key p)
  unfolding check_state
  check_state-now p = inl (contains-add_now p.planned, contains-add_now p.plan.state_check_pfns)

  reuse-kept :
      (scan : StoreScanGeneration) (found : Option StoreCatalogProviderRun)
      (other : StorePackagedAppFamily) (mapping : VerifiedStoreIdentityMapping)
      (o : StoreProviderObservation)
      → IsReused family found
      → IsReused family (some (append_mapping_reuse_observation scan found other mapping o))
  unfolding append_mapping_reuse_observation started_reuse
  reuse-kept scan none other mapping o h =
      let made : Option.none ≡ some h.run = h.made in absurd (ground arith)
  reuse-kept scan (some run) other mapping o h = record {
    run = append_mapping_reuse_observation scan (some run) other mapping o;
    made = refl;
    offer = h.offer;
    listed = mem-append_left run.observations _ (rw (some_inj run h.run h.made) h.listed);
    whose = h.whose;
    target = h.target;
    carried = h.carried;
    aimed = h.aimed;
  }

  reuse-now :
      (scan : StoreScanGeneration) (found : Option StoreCatalogProviderRun)
      (mapping : VerifiedStoreIdentityMapping) (o : StoreProviderObservation)
      → IsReused family (some (append_mapping_reuse_observation scan found family mapping o))
  unfolding append_mapping_reuse_observation reused_observation reused_target
  reuse-now scan found mapping o = record {
    run = append_mapping_reuse_observation scan found family mapping o;
    made = refl;
    offer = reused_observation scan family mapping o;
    listed = mem-append_last _ _;
    whose = refl;
    target = reused_target family mapping o;
    carried = refl;
    aimed = refl;
  }

  module _ (context : PlanningContext) where
    plan_positive-Handled :
        (o : StoreProviderObservation) (other : StorePackagedAppFamily)
        (found : Option VerifiedStoreIdentityMapping) (p : Planning)
        → Handled p
        → Handled (plan_positive context o other found p)
    unfolding plan_positive
    plan_positive-Handled o other none p h =
        check_state-Handled (to_lower o.identity.package_family_name) (counted_rejection context p)
          h
    plan_positive-Handled o other (some mapping) p (inl h) = inl h
    plan_positive-Handled o other (some mapping) p (inr h) =
        inr (reuse-kept context.scan p.plan.mapping_reuse_run other mapping o h)

    plan_family-Handled :
        (o : StoreProviderObservation) (found : Option StorePackagedAppFamily) (p : Planning)
        → Handled p
        → Handled (plan_family context o found p)
    unfolding plan_family
    plan_family-Handled o none p h = h
    plan_family-Handled o (some other) p h = plan_positive-Handled o other _ p h

    positive-now :
        (o : StoreProviderObservation) (found : Option VerifiedStoreIdentityMapping) (p : Planning)
        → to_lower o.identity.package_family_name ≡ key
        → Handled (plan_positive context o family found p)
    unfolding plan_positive
    positive-now o none p e = rw (e) (check_state-now (counted_rejection context p))
    positive-now o (some mapping) p e =
        inr (reuse-now context.scan p.plan.mapping_reuse_run mapping o)

    observation-now :
        (o : StoreProviderObservation) (p : Planning)
        → to_lower o.identity.package_family_name ≡ key
        → lookup key context.by_pfn ≡ some family
        → Handled (plan_observation context p o)
    unfolding plan_observation plan_family
    observation-now o p e found =
        rw (e, found) (positive-now o (lookup_identity family.identity context.reusable) p e)

    sweep-Handled :
        (wanted : Bool) (p : Planning) → Handled p → Handled (sweep wanted context.by_pfn p)
    unfolding sweep
    sweep-Handled wanted p h =
        if-cases Handled (not wanted) p _ (λ e. h)
          (λ e.
            fold_left-keeps _ Handled p (values context.by_pfn)
              (λ q f listed k. check_state-Handled (family_key f) q k) h)

    sweep_auto_updates-Handled :
        (wanted : Bool) (auto_update : Dict Bool) (p : Planning)
        → Handled p
        → Handled (sweep_auto_updates wanted auto_update context.by_pfn p)
    unfolding sweep_auto_updates
    sweep_auto_updates-Handled wanted auto_update p h =
        if-cases Handled (not wanted) p _ (λ e. h)
          (λ e.
            fold_left-keeps _ Handled p (values context.by_pfn)
              (λ q f listed k.
                if-cases Handled (not (store_family_auto_update_enabled auto_update f.identity)) q
                  (check_state (family_key f) q) (λ l. k)
                  (λ l. check_state-Handled (family_key f) q k))
              h)

    also_planned :
        (j : String) (p : Planning) → Handled p → Handled (record p { planned = add j p.planned })
    also_planned j p (inl (h, k)) = inl (contains-add_later j p.planned h, k)
    also_planned j p (inr h) = inr h

    cover_mappings-Handled :
        (wanted : Bool) (p : Planning)
        → Handled p
        → Handled (cover_mappings wanted context.reusable context.by_pfn p)
    unfolding cover_mappings
    cover_mappings-Handled wanted p h =
        if-cases Handled (not wanted) p _ (λ e. h)
          (λ e.
            fold_left-keeps _ Handled p context.by_pfn
              (λ q f listed k.
                if-cases Handled
                  (is_there (lookup_identity f.1.identity context.reusable)
                    || contains f.0 q.planned)
                  q (record q { planned = add f.0 q.planned }) (λ l. k) (λ l. also_planned f.0 q k))
              h)

    plan_observation-Handled :
        (p : Planning) (o : StoreProviderObservation)
        → Handled p
        → Handled (plan_observation context p o)
    unfolding plan_observation
    plan_observation-Handled p o h = plan_family-Handled o _ p h

    -- Once a positive of the family is among those that the loop sees, the family is handled.
    pub planning_of-Handled :
        (input : PlanInput) (o : StoreProviderObservation)
        → Memᴰ o
            (positive_aggregate_observations_without_exact_target input.scan input.aggregate_runs)
        → to_lower o.identity.package_family_name ≡ key
        → lookup key context.by_pfn ≡ some family
        → Handled (planning_of input context)
    unfolding planning_of
    planning_of-Handled input o listed e found =
        cover_mappings-Handled input.ensure_mapping_coverage _ (
          sweep_auto_updates-Handled (aggregate_coverage_incomplete input.aggregate_runs)
            input.auto_update _
            (sweep-Handled
              (aggregate_positive_hint_requires_exact_sweep input.aggregate_runs
                || aggregate_negative_requires_exact_sweep input.aggregate_runs)
              _
              (fold_left-reaches (plan_observation context) Handled
                (record { planned = []; plan = empty_plan })
                (positive_aggregate_observations_without_exact_target input.scan
                  input.aggregate_runs)
                listed (λ p. observation-now o p e found)
                (λ p other h. plan_observation-Handled p other h))))
