-- ===== src/Store/Pipeline/Scan.antt =====
-- internal/updater/store_scan_pipeline.go, StoreScanPipeline.Run. The clock, the repository and the
-- lock between scans are arguments; the metrics and the logging are left out.
use Prim.Native.String.{◌++◌}
use patch_board.Common.{ℕ, String, Bool, false, Option, none, some, List, [], ◌∷◌, if◌then◌else◌}
use patch_board.Store.Model.{StoreScanGeneration}
use patch_board.Store.Inventory.{StorePackagedAppInventory}
use patch_board.Store.Snapshot.{
  StorePublishedAssessment, StoreCatalogProviderRun, StoreScanSnapshot,
}
use patch_board.Store.Pipeline.Identities.{IdentityMap}
use patch_board.Store.Pipeline.Status.{
  provider_health_map, provider_version_map, scan_completion_status, scan_should_publish,
  previous_assessments_from_snapshot,
}
use patch_board.Store.Pipeline.Assessments.{reconcile_store_scan_assessments}
use patch_board.Store.Pipeline.Collect.{collect_inventory}
use patch_board.Store.Pipeline.Providers.{StoreScanPipeline, started_scan, all_provider_runs}

-- The generation with what is known at the end.
unfoldable pub completed_scan :
    ℕ
    → StoreScanGeneration
    → StorePackagedAppInventory
    → List StoreCatalogProviderRun
    → StoreScanGeneration
unfolding provider_health_map provider_version_map scan_completion_status
completed_scan now scan inventory runs = record scan {
  completed_at = now;
  provider_health = provider_health_map runs;
  provider_versions = provider_version_map runs;
  completion_status = scan_completion_status inventory runs;
}

abbrev pub previous_assessments : Option StoreScanSnapshot → IdentityMap StorePublishedAssessment
previous_assessments none = []
previous_assessments (some snapshot) = previous_assessments_from_snapshot snapshot

-- snapshotFromScanResult of the assessments that are made of the runs.
unfoldable pub snapshot_from_scan_result :
    StoreScanGeneration
    → StorePackagedAppInventory
    → List StoreCatalogProviderRun
    → Option StoreScanSnapshot
    → StoreScanSnapshot
unfolding reconcile_store_scan_assessments scan_should_publish previous_assessments_from_snapshot
snapshot_from_scan_result scan inventory runs previous = record {
  schema_version = 2;
  published = scan_should_publish scan inventory;
  recovered_from_fallback = false;
  scan = scan;
  inventory = inventory;
  provider_runs = runs;
  assessments =
      reconcile_store_scan_assessments
        (record { scan = scan; runs = runs; previous = previous_assessments previous })
        inventory.families;
}

-- The snapshot that Run hands to the repository.
unfoldable pub scanned_snapshot :
    StoreScanPipeline → String → Option StoreScanSnapshot → StoreScanSnapshot
unfolding collect_inventory started_scan all_provider_runs completed_scan snapshot_from_scan_result
scanned_snapshot pipeline user_sid previous =
    let scan = started_scan pipeline user_sid in
    let (inventory, run) = collect_inventory scan (pipeline.inventory_answer scan) in
    let runs = all_provider_runs pipeline scan inventory previous run in
    snapshot_from_scan_result (completed_scan pipeline.completed_now scan inventory runs) inventory
      runs previous

pub record StoreScanResult : Type 0 where
  pub scan : StoreScanGeneration
  pub published : Bool
  pub assessments : List StorePublishedAssessment
  pub provider_runs : List StoreCatalogProviderRun
  pub inventory : StorePackagedAppInventory

-- A value, or the text of an error.
pub data Answer (A : Type 0) : Type 0 where
  failed_with : String → Answer A
  answered : A → Answer A

-- What Run meets on its way: the user, the lock of the scan coordinator, the flag of the pipeline, the
-- repository, and the check that a caller may put before the commit.
pub record ScanSurroundings : Type 0 where
  pub user_sid : Answer String
  pub lock_error : Option String
  pub running : Bool
  pub latest_published : String → Answer (Option StoreScanSnapshot)
  pub before_commit : StoreScanSnapshot → Option String
  pub persist : StoreScanSnapshot → Answer Bool

-- The result of Run, its error if there is one, and the snapshot that was handed to the repository.
pub record ScanOutcome : Type 0 where
  pub result : Option StoreScanResult
  pub error : Option String
  pub handed_over : Option StoreScanSnapshot

abbrev scan_not_run : String → ScanOutcome
scan_not_run reason = record { result = none; error = some reason; handed_over = none }

unfoldable pub scan_result_of : StoreScanSnapshot → Bool → StoreScanResult
scan_result_of snapshot published = record {
  scan = snapshot.scan;
  published = published;
  assessments = snapshot.assessments;
  provider_runs = snapshot.provider_runs;
  inventory = snapshot.inventory;
}

abbrev pub persisted : StoreScanSnapshot → Answer Bool → ScanOutcome
persisted snapshot (failed_with reason) = record {
  result = some (scan_result_of snapshot false);
  error = some reason;
  handed_over = some snapshot;
}
persisted snapshot (answered published) = record {
  result = some (scan_result_of snapshot published);
  error = none;
  handed_over = some snapshot;
}

abbrev pub committed : ScanSurroundings → StoreScanSnapshot → Option String → ScanOutcome
committed surroundings snapshot (some reason) = record {
  result = some (scan_result_of snapshot false);
  error = some reason;
  handed_over = none;
}
committed surroundings snapshot none = persisted snapshot (surroundings.persist snapshot)

-- Without the previous snapshot the providers are not asked, and nothing is published.
unfoldable pub diagnostic_snapshot : StoreScanPipeline → String → StoreScanSnapshot
unfolding collect_inventory started_scan completed_scan snapshot_from_scan_result
diagnostic_snapshot pipeline user_sid =
    let scan = started_scan pipeline user_sid in
    let (inventory, run) = collect_inventory scan (pipeline.inventory_answer scan) in
    snapshot_from_scan_result (completed_scan pipeline.completed_now scan inventory (run ∷ []))
      inventory (run ∷ []) none

unfoldable pub scanned :
    StoreScanPipeline → ScanSurroundings → String → Answer (Option StoreScanSnapshot) → ScanOutcome
unfolding scan_result_of diagnostic_snapshot scanned_snapshot
scanned pipeline surroundings user_sid (failed_with reason) = record {
  result = some (scan_result_of (diagnostic_snapshot pipeline user_sid) false);
  error = some ("could not load previous published Store assessments for hysteresis: " ++ reason);
  handed_over = none;
}
scanned pipeline surroundings user_sid (answered previous) =
    let snapshot = scanned_snapshot pipeline user_sid previous in
    committed surroundings snapshot (surroundings.before_commit snapshot)

abbrev pub locked : StoreScanPipeline → ScanSurroundings → String → Option String → ScanOutcome
locked pipeline surroundings user_sid (some reason) = scan_not_run reason
locked pipeline surroundings user_sid none =
    if surroundings.running
    then scan_not_run "a Store scan is already running"
    else scanned pipeline surroundings user_sid (surroundings.latest_published user_sid)

abbrev pub for_user : StoreScanPipeline → ScanSurroundings → Answer String → ScanOutcome
for_user pipeline surroundings (failed_with reason) = scan_not_run reason
for_user pipeline surroundings (answered user_sid) =
    locked pipeline surroundings user_sid surroundings.lock_error

unfoldable pub run : StoreScanPipeline → ScanSurroundings → ScanOutcome
unfolding scanned
run pipeline surroundings = for_user pipeline surroundings surroundings.user_sid
