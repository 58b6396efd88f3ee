-- ===== src/Store/Pipeline/Providers.antt =====
-- internal/updater/store_scan_pipeline.go: planCatalogProviders, and the runs of all providers in
-- StoreScanPipeline.Run. What the providers answer is a part of the pipeline.
use mathlib.Core.List.{◌++◌ as append}
use patch_board.Common.{
  ℕ, String, Bool, false, not, Option, none, some, List, [], ◌∷◌, map, is_empty, if◌then◌else◌,
  fold_left,
}
use patch_board.Common.Dict.{Dict}
use patch_board.Store.Model.{
  StoreScanGeneration, StoreScanCompletionStatus, StoreProviderIdentity, unsupported,
  VerifiedStoreIdentityMapping,
}
use patch_board.Store.Inventory.{StorePackagedAppFamily, StorePackagedAppInventory}
use patch_board.Store.Snapshot.{StoreCatalogProviderRun, StoreScanSnapshot}
use patch_board.Store.Pipeline.Settle.{ProviderAnswer, run_catalog_providers}
use patch_board.Store.Pipeline.Plan.{StoreExactWorkPlan}
use patch_board.Store.Pipeline.Work.{PlanInput, plan_exact_work}
use patch_board.Store.Pipeline.Collect.{InventoryAnswer, inventory_run}

-- What catalogProvidersWithStoreMappingContext puts into a discovery provider.
pub record MappingContext : Type 0 where
  pub previous_snapshot : Option StoreScanSnapshot
  pub mapping_provider_version : String
  pub current_mappings : List VerifiedStoreIdentityMapping

abbrev pub Observe : Type 0
Observe = StoreScanGeneration → List StorePackagedAppFamily → ProviderAnswer

pub record ExactProvider : Type 0 where
  pub version : String
  pub observe_checking : List String → Observe

pub record DiscoveryProvider : Type 0 where
  pub observe_with : MappingContext → Observe

-- The cases of the type switch. A typed nil pointer, which the source skips, does not occur.
pub data StoreCatalogProvider : Type 0 where
  store_cli_exact : ExactProvider → StoreCatalogProvider
  winrt_discovery : DiscoveryProvider → StoreCatalogProvider
  aggregate : Observe → StoreCatalogProvider

pub record StoreScanProviderPlan : Type 0 where
  pub aggregate_providers : List Observe
  pub winrt_providers : List DiscoveryProvider
  pub exact_provider : Option ExactProvider

unfoldable pub plan_provider : StoreScanProviderPlan → StoreCatalogProvider → StoreScanProviderPlan
plan_provider plan (store_cli_exact provider) = record plan { exact_provider = some provider }
plan_provider plan (winrt_discovery provider) = record plan {
  winrt_providers = append plan.winrt_providers (provider ∷ []);
}
plan_provider plan (aggregate observe) = record plan {
  aggregate_providers = append plan.aggregate_providers (observe ∷ []);
}

-- unsupportedStoreCatalogProvider, which stands in when there is no other; `now` is its clock.
unfoldable pub unsupported_store_catalog_provider : ℕ → Observe
unsupported_store_catalog_provider now scan families =
    let identity : StoreProviderIdentity = record {
      id = "store-catalog-unimplemented";
      name = "Store catalog provider";
      backend = "unimplemented";
    } in
    record {
      run = record {
        provider = identity;
        version = "";
        started_at = now;
        completed_at = now;
        health = unsupported;
        error = "exact Store catalog provider is not implemented in this build";
        observations = [];
        mappings = [];
        positive_update_hint = false;
      };
      identity = identity;
      started = now;
      completed = now;
      ended = none;
    }

unfoldable pub plan_catalog_providers : ℕ → List StoreCatalogProvider → StoreScanProviderPlan
unfolding fold_left plan_provider unsupported_store_catalog_provider
plan_catalog_providers now providers =
    fold_left plan_provider
      (record { aggregate_providers = []; winrt_providers = []; exact_provider = none })
      (if is_empty providers
        then aggregate (unsupported_store_catalog_provider now) ∷ []
        else providers)

unfoldable pub store_mappings_from_provider_runs :
    List StoreCatalogProviderRun → List VerifiedStoreIdentityMapping
store_mappings_from_provider_runs [] = []
store_mappings_from_provider_runs (run ∷ runs) =
    append run.mappings (store_mappings_from_provider_runs runs)

-- The pipeline's fields and what it is given from outside.
pub record StoreScanPipeline : Type 0 where
  pub inventory_answer : StoreScanGeneration → InventoryAnswer
  pub catalog_providers : List StoreCatalogProvider
  pub deep_exact_scan : Bool
  pub auto_update : Dict Bool
  pub started_now : ℕ
  pub completed_now : ℕ
  pub scan_id : String

unfoldable pub started_scan : StoreScanPipeline → String → StoreScanGeneration
started_scan pipeline user_sid = record {
  scan_id = pipeline.scan_id;
  user_sid = user_sid;
  started_at = pipeline.started_now;
  completed_at = 0;
  provider_versions = [];
  provider_health = [];
  completion_status = StoreScanCompletionStatus.running;
}

abbrev pub version_of : Option ExactProvider → String
version_of none = ""
version_of (some provider) = provider.version

abbrev pub listed : Option StoreCatalogProviderRun → List StoreCatalogProviderRun
listed none = []
listed (some run) = run ∷ []

abbrev pub exact_answers :
    Option ExactProvider → StoreExactWorkPlan → StoreScanGeneration → List ProviderAnswer
exact_answers none plan scan = []
exact_answers (some provider) plan scan =
    if is_empty plan.families
    then []
    else provider.observe_checking plan.state_check_pfns scan plan.families ∷ []

-- The runs of all providers, in the order in which Run starts them.
module _ (pipeline : StoreScanPipeline) (scan : StoreScanGeneration)
    (inventory : StorePackagedAppInventory) (previous : Option StoreScanSnapshot) where
  abbrev pub providers : StoreScanProviderPlan
  providers = plan_catalog_providers pipeline.started_now pipeline.catalog_providers

  unfoldable pub aggregate_runs : List StoreCatalogProviderRun
  unfolding run_catalog_providers plan_catalog_providers
  aggregate_runs =
      run_catalog_providers scan inventory.families
        (map (λ (observe : Observe). observe scan inventory.families) providers.aggregate_providers)

  abbrev pub plan_input : PlanInput
  plan_input = record {
    deep_exact_scan = pipeline.deep_exact_scan;
    scan = scan;
    families = inventory.families;
    aggregate_runs = aggregate_runs;
    previous = previous;
    exact_provider_version = version_of providers.exact_provider;
    ensure_mapping_coverage = not (is_empty providers.winrt_providers);
    auto_update = pipeline.auto_update;
  }

  unfoldable pub exact_plan : StoreExactWorkPlan
  unfolding plan_exact_work plan_catalog_providers aggregate_runs
  exact_plan = plan_exact_work plan_input

  unfoldable pub runs_before_discovery : StoreCatalogProviderRun → List StoreCatalogProviderRun
  unfolding run_catalog_providers exact_plan aggregate_runs plan_catalog_providers
  runs_before_discovery inventory_run =
      inventory_run
      ∷ append aggregate_runs (
          append (listed exact_plan.mapping_reuse_run) (
            run_catalog_providers scan exact_plan.families
              (exact_answers providers.exact_provider exact_plan scan)))

  unfoldable pub all_provider_runs : StoreCatalogProviderRun → List StoreCatalogProviderRun
  unfolding run_catalog_providers runs_before_discovery plan_catalog_providers
      store_mappings_from_provider_runs
  all_provider_runs inventory_run =
      let before = runs_before_discovery inventory_run in
      append before (
        run_catalog_providers scan inventory.families (
          map
            (λ (provider : DiscoveryProvider).
              provider.observe_with
                (record {
                  previous_snapshot = previous;
                  mapping_provider_version = version_of providers.exact_provider;
                  current_mappings = store_mappings_from_provider_runs before;
                })
                scan inventory.families)
            providers.winrt_providers))
