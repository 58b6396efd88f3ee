-- ===== src/Store/Pipeline/Plan.antt =====
-- internal/updater/store_scan_pipeline.go: what planExactWork reads off the runs of the aggregate
-- providers, and the plan that it makes.
use mathlib.Core.List.{◌++◌ as append}
use patch_board.Common.{
  ℕ, String, Bool, true, false, not, ◌&&◌, Option, none, List, [], ◌∷◌, any, keep,
}
use patch_board.Common.Text.{str_eq}
use patch_board.Store.Model.{
  StoreScanGeneration, provider_key, StoreProviderHealth, is_healthy, unsupported, exact_for,
  StoreProviderObservation,
}
use patch_board.Store.Evidence.Kept.{is_positive, is_negative}
use patch_board.Store.Inventory.{StorePackagedAppFamily}
use patch_board.Store.Snapshot.{StoreCatalogProviderRun, has_exact_target}
use patch_board.Store.Pipeline.Status.{store_catalog_provider_required}

unfoldable pub aggregate_coverage_incomplete : List StoreCatalogProviderRun → Bool
unfolding any store_catalog_provider_required
aggregate_coverage_incomplete =
    any (λ run. store_catalog_provider_required run.provider && not (is_healthy run.health))

abbrev is_unsupported : StoreProviderHealth → Bool
is_unsupported unsupported = true
is_unsupported _ = false

abbrev is_updates_run : StoreCatalogProviderRun → Bool
is_updates_run run = str_eq (provider_key run.provider) "store-cli-updates"

unfoldable pub aggregate_positive_hint_requires_exact_sweep : List StoreCatalogProviderRun → Bool
unfolding any provider_key
aggregate_positive_hint_requires_exact_sweep =
    any (λ run. run.positive_update_hint && is_updates_run run && not (is_unsupported run.health))

unfoldable pub aggregate_negative_requires_exact_sweep : List StoreCatalogProviderRun → Bool
unfolding any provider_key
aggregate_negative_requires_exact_sweep = any (λ run.
    is_updates_run run
    && is_healthy run.health
    && any (λ o. is_healthy o.health && is_negative o.kind) run.observations)

-- A healthy positive of the scan that has no exact target of its own.
unfoldable pub needs_target : StoreScanGeneration → StoreProviderObservation → Bool
unfolding exact_for
needs_target scan o =
    str_eq o.scan_id scan.scan_id
    && str_eq o.identity.user_sid scan.user_sid
    && is_positive o.kind
    && is_healthy o.health
    && not (has_exact_target o.identity o.target)

unfoldable pub positive_aggregate_observations_without_exact_target :
    StoreScanGeneration → List StoreCatalogProviderRun → List StoreProviderObservation
unfolding keep needs_target
positive_aggregate_observations_without_exact_target scan [] = []
positive_aggregate_observations_without_exact_target scan (run ∷ runs) =
    append (keep (needs_target scan) run.observations)
      (positive_aggregate_observations_without_exact_target scan runs)

pub record StoreExactWorkPlan : Type 0 where
  pub families : List StorePackagedAppFamily
  pub state_check_pfns : List String
  pub mapping_reuse_run : Option StoreCatalogProviderRun
  pub mappings_reused : ℕ
  pub mappings_refreshed : ℕ
  pub mappings_rejected : ℕ

abbrev pub empty_plan : StoreExactWorkPlan
empty_plan = record {
  families = [];
  state_check_pfns = [];
  mapping_reuse_run = none;
  mappings_reused = 0;
  mappings_refreshed = 0;
  mappings_rejected = 0;
}
