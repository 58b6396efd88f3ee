-- ===== src/Store/Pipeline/Work.antt =====
-- internal/updater/store_scan_pipeline.go, planExactWork: the loops, in their order. Go ranges over its
-- maps in an unspecified order, and sorts the planned families in the end.
use patch_board.Common.{
  suc, String, Bool, true, false, not, ◌||◌, Option, none, some, List, [], ◌∷◌, map, fold_left,
  keep, length, if◌then◌else◌,
}
use patch_board.Common.Text.{to_lower}
use patch_board.Common.Dict.{Dict, contains, add, lookup}
use patch_board.Common.Sort.{sort_by}
use patch_board.Packages.Model.{canonical_store_auto_update_key}
use patch_board.Store.Model.{
  StoreInstalledIdentity, resolved, StoreScanGeneration, VerifiedStoreIdentityMapping,
  StoreProviderObservation,
}
use patch_board.Store.Inventory.{StorePackagedAppFamily}
use patch_board.Store.Snapshot.{StoreCatalogProviderRun, StoreScanSnapshot}
use patch_board.Store.Pipeline.Sanitize.{in_scope, family_key, product_like_families_by_pfn}
use patch_board.Store.Pipeline.Identities.{IdentityMap, lookup_identity}
use patch_board.Store.Pipeline.Plan.{
  aggregate_coverage_incomplete, aggregate_positive_hint_requires_exact_sweep,
  aggregate_negative_requires_exact_sweep, positive_aggregate_observations_without_exact_target,
  StoreExactWorkPlan, empty_plan,
}
use patch_board.Store.Pipeline.Reuse.{reusable_store_mappings, append_mapping_reuse_observation}

-- `state.AutoUpdatePackages`, where a missing key is false.
abbrev is_on : Option Bool → Bool
is_on none = false
is_on (some on) = on

unfoldable pub store_family_auto_update_enabled : Dict Bool → StoreInstalledIdentity → Bool
unfolding resolved lookup canonical_store_auto_update_key
store_family_auto_update_enabled auto_update identity =
    if not (resolved identity)
    then false
    else is_on (
        lookup (canonical_store_auto_update_key identity.user_sid identity.package_family_name)
          auto_update)

-- `planned` and `plan`.
pub record Planning : Type 0 where
  pub planned : List String
  pub plan : StoreExactWorkPlan

-- The family is checked, together with its state.
unfoldable pub check_state : String → Planning → Planning
unfolding add
check_state key p = record p {
  planned = add key p.planned;
  plan = record p.plan { state_check_pfns = add key p.plan.state_check_pfns };
}

-- What the loops read.
pub record PlanningContext : Type 0 where
  pub scan : StoreScanGeneration
  pub by_pfn : Dict StorePackagedAppFamily
  pub reusable : IdentityMap VerifiedStoreIdentityMapping
  pub previous_found : Bool

abbrev pub counted_rejection : PlanningContext → Planning → Planning
counted_rejection context p = record p {
  plan = record p.plan {
    mappings_rejected =
        if context.previous_found then suc p.plan.mappings_rejected else p.plan.mappings_rejected;
  };
}

-- A positive of a family that is known: its target comes from a mapping, or the family is checked.
unfoldable pub plan_positive :
    PlanningContext
    → StoreProviderObservation
    → StorePackagedAppFamily
    → Option VerifiedStoreIdentityMapping
    → Planning
    → Planning
unfolding append_mapping_reuse_observation check_state
plan_positive context o family (some mapping) p = record p {
  plan = record p.plan {
    mappings_reused = suc p.plan.mappings_reused;
    mapping_reuse_run =
        some
          (append_mapping_reuse_observation context.scan p.plan.mapping_reuse_run family mapping o);
  };
}
plan_positive context o family none p =
    check_state (to_lower o.identity.package_family_name) (counted_rejection context p)

unfoldable pub plan_family :
    PlanningContext → StoreProviderObservation → Option StorePackagedAppFamily → Planning → Planning
unfolding plan_positive lookup_identity
plan_family context o none p = p
plan_family context o (some family) p =
    plan_positive context o family (lookup_identity family.identity context.reusable) p

-- One round of the loop over the positives that need a target.
unfoldable pub plan_observation : PlanningContext → Planning → StoreProviderObservation → Planning
unfolding plan_family lookup
plan_observation context p o =
    plan_family context o (lookup (to_lower o.identity.package_family_name) context.by_pfn) p

abbrev pub values : Dict StorePackagedAppFamily → List StorePackagedAppFamily
values by_pfn = map (λ (e : String × StorePackagedAppFamily). e.1) by_pfn

-- The loop over all families, when a hint or a "no update" cannot be trusted.
unfoldable pub sweep : Bool → Dict StorePackagedAppFamily → Planning → Planning
unfolding fold_left check_state
sweep wanted by_pfn p =
    if not wanted then p else fold_left (λ q f. check_state (family_key f) q) p (values by_pfn)

-- The loop over the families with automatic updates, when the aggregate evidence is incomplete.
unfoldable pub sweep_auto_updates :
    Bool → Dict Bool → Dict StorePackagedAppFamily → Planning → Planning
unfolding fold_left check_state store_family_auto_update_enabled
sweep_auto_updates wanted auto_update by_pfn p =
    if not wanted
    then p
    else fold_left
        (λ q f.
          if not (store_family_auto_update_enabled auto_update f.identity)
          then q
          else check_state (family_key f) q)
        p (values by_pfn)

abbrev pub is_there : {A : Type 0} → Option A → Bool
is_there none = false
is_there (some a) = true

-- The loop that gives every family a mapping.
unfoldable pub cover_mappings :
    Bool
    → IdentityMap VerifiedStoreIdentityMapping
    → Dict StorePackagedAppFamily
    → Planning
    → Planning
unfolding fold_left add contains lookup_identity
cover_mappings wanted reusable by_pfn p =
    if not wanted
    then p
    else fold_left
        (λ q (e : String × StorePackagedAppFamily).
          if is_there (lookup_identity e.1.identity reusable) || contains e.0 q.planned
          then q
          else record q { planned = add e.0 q.planned })
        p by_pfn

-- The families of the keys that are planned.
abbrev pub if_known :
    Option StorePackagedAppFamily → List StorePackagedAppFamily → List StorePackagedAppFamily
if_known none families = families
if_known (some family) families = family ∷ families

unfoldable pub planned_families :
    Dict StorePackagedAppFamily → List String → List StorePackagedAppFamily
unfolding lookup
planned_families by_pfn [] = []
planned_families by_pfn (key ∷ keys) =
    let rest = planned_families by_pfn keys in if_known (lookup key by_pfn) rest

-- Every family that is in scope is checked.
unfoldable pub deep_plan : StoreScanGeneration → List StorePackagedAppFamily → StoreExactWorkPlan
unfolding keep fold_left add resolved
deep_plan scan families =
    let in_scope_families = keep (in_scope scan) families in
    record empty_plan {
      families = in_scope_families;
      state_check_pfns = fold_left (λ keys f. add (family_key f) keys) [] in_scope_families;
    }

-- The arguments of planExactWork. `auto_update` stands for the state that planningState loads.
pub record PlanInput : Type 0 where
  pub deep_exact_scan : Bool
  pub scan : StoreScanGeneration
  pub families : List StorePackagedAppFamily
  pub aggregate_runs : List StoreCatalogProviderRun
  pub previous : Option StoreScanSnapshot
  pub exact_provider_version : String
  pub ensure_mapping_coverage : Bool
  pub auto_update : Dict Bool

unfoldable pub planning_context : PlanInput → PlanningContext
unfolding product_like_families_by_pfn reusable_store_mappings
planning_context input =
    let by_pfn = product_like_families_by_pfn input.scan input.families in
    record {
      scan = input.scan;
      by_pfn = by_pfn;
      reusable =
          reusable_store_mappings input.previous by_pfn input.scan.started_at
            input.exact_provider_version;
      previous_found = is_there input.previous;
    }

-- The loops of planExactWork, in their order.
unfoldable pub planning_of : PlanInput → PlanningContext → Planning
unfolding fold_left plan_observation sweep sweep_auto_updates cover_mappings
    positive_aggregate_observations_without_exact_target aggregate_coverage_incomplete
    aggregate_positive_hint_requires_exact_sweep aggregate_negative_requires_exact_sweep
planning_of input context =
    cover_mappings input.ensure_mapping_coverage context.reusable context.by_pfn (
      sweep_auto_updates (aggregate_coverage_incomplete input.aggregate_runs) input.auto_update
        context.by_pfn
        (sweep
          (aggregate_positive_hint_requires_exact_sweep input.aggregate_runs
            || aggregate_negative_requires_exact_sweep input.aggregate_runs)
          context.by_pfn
          (fold_left (plan_observation context) (record { planned = []; plan = empty_plan })
            (positive_aggregate_observations_without_exact_target input.scan
              input.aggregate_runs))))

unfoldable pub finished_plan : PlanningContext → Planning → StoreExactWorkPlan
unfolding planned_families sort_by
finished_plan context p = record p.plan {
  families = sort_by family_key (planned_families context.by_pfn p.planned);
  mappings_refreshed = length (sort_by family_key (planned_families context.by_pfn p.planned));
}

unfoldable pub plan_exact_work : PlanInput → StoreExactWorkPlan
unfolding deep_plan planning_context planning_of finished_plan
plan_exact_work input =
    if input.deep_exact_scan
    then deep_plan input.scan input.families
    else finished_plan (planning_context input) (planning_of input (planning_context input))
