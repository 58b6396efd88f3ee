-- ===== src/Store/Pipeline/Runs.antt =====
-- StoreScanPipeline.Run: all runs of a scan are sound evidence of it.
use mathlib.Core.List.{◌++◌ as append}
use patch_board.Common.{
  String, not, ◌||◌, Option, none, some, List, [], ◌∷◌, any, all, if-cases, ◌≡◌, refl, ap,
}
use patch_board.Store.Model.{StoreScanGeneration, is_completed}
use patch_board.Store.Inventory.{StorePackagedAppFamily, StorePackagedAppInventory}
use patch_board.Store.Snapshot.{StoreCatalogProviderRun, StoreScanSnapshot}
use patch_board.Store.Pipeline.Sanitize.{
  is_own, is_verified, sanitize_catalog_provider_run, attach_mapping_fingerprints,
}
use patch_board.Store.Pipeline.Settle.{
  synthesize_missing_provider_observations, completed_run, ProviderAnswer, settled_run,
  run_catalog_providers,
}
use patch_board.Store.Pipeline.Sound.{IsSound, sanitize_catalog_provider_run-IsSound}
use patch_board.Store.Pipeline.Collect.{
  InventoryAnswer, inventory_run, incomplete_inventory, is_foreign, checked_inventory,
  collect_inventory,
}
use patch_board.Store.Pipeline.Reused.{SoundReuse}
use patch_board.Store.Pipeline.Planned.{GoodPrevious, plan_exact_work-SoundReuse}
use patch_board.Store.Pipeline.Providers.{
  StoreScanPipeline, aggregate_runs, plan_input, exact_plan, runs_before_discovery,
  all_provider_runs, listed,
}

abbrev HoldsNothing : StoreCatalogProviderRun → Type 0
HoldsNothing run = (run.observations ≡ []) × (run.mappings ≡ [])

incomplete_inventory-HoldsNothing :
    (answer : InventoryAnswer) → HoldsNothing (incomplete_inventory answer)
unfolding incomplete_inventory
incomplete_inventory-HoldsNothing answer =
    if-cases HoldsNothing
      (not answer.result.ok
        || answer.inventory.partial
        || not (is_completed answer.inventory.scan.completion_status))
      _ (inventory_run answer) (λ e. (refl, refl)) (λ e. (refl, refl))

abbrev Collected : Type 0
Collected = StorePackagedAppInventory × StoreCatalogProviderRun

checked_inventory-families :
    (scan : StoreScanGeneration) (answer : InventoryAnswer) (ended : Option String)
    → ((checked_inventory scan answer ended).0.families ≡ answer.inventory.families)
      × HoldsNothing (checked_inventory scan answer ended).1
unfolding checked_inventory
checked_inventory-families scan answer (some reason) = (refl, (refl, refl))
checked_inventory-families scan answer none =
    let nothing = incomplete_inventory-HoldsNothing answer in
    if-cases (λ (c : Collected). (c.0.families ≡ answer.inventory.families) × HoldsNothing c.1)
      (any (is_foreign scan) answer.inventory.families) _
      (answer.inventory, incomplete_inventory answer) (λ e. (refl, nothing)) (λ e. (refl, nothing))

-- The inventory keeps the families that were answered, and its run holds no evidence.
pub collect_inventory-families :
    (scan : StoreScanGeneration) (answer : InventoryAnswer)
    → ((collect_inventory scan answer).0.families ≡ answer.inventory.families)
      × HoldsNothing (collect_inventory scan answer).1
unfolding collect_inventory
collect_inventory-families scan answer = checked_inventory-families scan answer answer.ended

module _ (scan : StoreScanGeneration) where
  abbrev pub EachSound : List StoreCatalogProviderRun → Type 0
  EachSound [] = Unit
  EachSound (run ∷ runs) = IsSound scan run × EachSound runs

  EachSound-append :
      (rs ts : List StoreCatalogProviderRun)
      → EachSound rs
      → EachSound ts
      → EachSound (append rs ts)
  EachSound-append [] ts h k = k
  EachSound-append (r ∷ rs) ts (h, hs) k = (h, EachSound-append rs ts hs k)

  HoldsNothing-IsSound : (run : StoreCatalogProviderRun) → HoldsNothing run → IsSound scan run
  unfolding all
  HoldsNothing-IsSound run (o, m) = record {
    observations = ap (all (is_own scan)) o;
    mappings = ap (all (is_verified scan)) m;
  }

  settled_run-IsSound :
      (families : List StorePackagedAppFamily) (answer : ProviderAnswer)
      → IsSound scan (settled_run scan families answer)
  unfolding settled_run
  settled_run-IsSound families answer = sanitize_catalog_provider_run-IsSound scan (
      synthesize_missing_provider_observations scan
        (sanitize_catalog_provider_run scan
          (attach_mapping_fingerprints scan (completed_run answer) families))
        families)

  run_catalog_providers-EachSound :
      (families : List StorePackagedAppFamily) (answers : List ProviderAnswer)
      → EachSound (run_catalog_providers scan families answers)
  unfolding run_catalog_providers
  run_catalog_providers-EachSound families [] = tt
  run_catalog_providers-EachSound families (answer ∷ answers) =
      (settled_run-IsSound families answer, run_catalog_providers-EachSound families answers)

  listed-EachSound :
      (run : Option StoreCatalogProviderRun) → SoundReuse scan scan run → EachSound (listed run)
  listed-EachSound none h = tt
  listed-EachSound (some run) h = (h, tt)

  module _ (pipeline : StoreScanPipeline) (inventory : StorePackagedAppInventory)
      (previous : Option StoreScanSnapshot) (good : GoodPrevious previous)
      (own_run : StoreCatalogProviderRun) (nothing : HoldsNothing own_run) where
    before-EachSound : EachSound (runs_before_discovery pipeline scan inventory previous own_run)
    unfolding runs_before_discovery aggregate_runs exact_plan
    before-EachSound = (
      HoldsNothing-IsSound own_run nothing,
      EachSound-append (aggregate_runs pipeline scan inventory previous) _
          (run_catalog_providers-EachSound inventory.families _)
          (EachSound-append (listed (exact_plan pipeline scan inventory previous).mapping_reuse_run)
            _
            (listed-EachSound _
              (plan_exact_work-SoundReuse (plan_input pipeline scan inventory previous) good))
            (run_catalog_providers-EachSound (exact_plan pipeline scan inventory previous).families
              _)),
    )

    -- The runs that a scan ends with.
    pub all_provider_runs-EachSound :
        EachSound (all_provider_runs pipeline scan inventory previous own_run)
    unfolding all_provider_runs
    all_provider_runs-EachSound =
        EachSound-append (runs_before_discovery pipeline scan inventory previous own_run) _
          before-EachSound (run_catalog_providers-EachSound inventory.families _)
