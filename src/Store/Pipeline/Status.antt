-- ===== src/Store/Pipeline/Status.antt =====
-- internal/updater/store_scan_pipeline.go: what is read off the runs of a scan, and its status.
-- previousAssessmentsFromSnapshot is in internal/updater/store_scan_repository.go.
use mathlib.Core.List.{◌++◌ as append}
use patch_board.Common.{
  String, Bool, true, false, not, ◌&&◌, ◌||◌, List, [], ◌∷◌, fold_left, any, is_empty, length,
  if◌then◌else◌,
}
use patch_board.Common.{◌==◌ as num_eq}
use patch_board.Common.Text.{str_eq, nonempty, trim_space}
use patch_board.Common.Dict.{Dict, insert}
use patch_board.Store.Model.{
  StoreInstalledIdentity, StoreScanGeneration, StoreScanCompletionStatus, is_completed,
  StoreProviderIdentity, provider_key, StoreProviderHealth, is_healthy, StoreObservationKind,
  authoritative_negative, newer_catalog_no_applicable_installer, StoreProviderObservation, matches,
}
use patch_board.Store.Inventory.{StorePackagedAppInventory}
use patch_board.Store.Snapshot.{
  StorePublishedAssessment, StoreCatalogProviderRun, StoreScanSnapshot,
}
use patch_board.Store.Pipeline.Identities.{IdentityMap, insert_identity}

unfoldable pub provider_health_map : List StoreCatalogProviderRun → Dict StoreProviderHealth
unfolding fold_left insert provider_key
provider_health_map =
    fold_left (λ health run. insert (provider_key run.provider) run.health health) []

note_version : Dict String → StoreCatalogProviderRun → Dict String
unfolding insert trim_space provider_key
note_version versions run =
    if nonempty (provider_key run.provider) && nonempty (trim_space run.version)
    then insert (provider_key run.provider) (trim_space run.version) versions
    else versions

unfoldable pub provider_version_map : List StoreCatalogProviderRun → Dict String
unfolding fold_left note_version
provider_version_map = fold_left note_version []

unfoldable pub store_catalog_provider_required : StoreProviderIdentity → Bool
unfolding provider_key
store_catalog_provider_required provider = not (
    str_eq (provider_key provider) "store-cli-exact"
    || str_eq (provider_key provider) "winget-msstore-exact"
    || str_eq (provider_key provider) "store-mapping-reuse"
    || str_eq (provider_key provider) "store-winrt-discovery")

unfoldable pub is_inventory_run : StoreCatalogProviderRun → Bool
unfolding provider_key
is_inventory_run run = str_eq (provider_key run.provider) "store-current-user-inventory"

-- The loop of scanCompletionStatus; `alone` says that there is one run only.
unfoldable pub completion_of : Bool → List StoreCatalogProviderRun → StoreScanCompletionStatus
unfolding is_inventory_run store_catalog_provider_required
completion_of alone [] = StoreScanCompletionStatus.completed
completion_of alone (run ∷ runs) =
    let rest = completion_of alone runs in
    if is_inventory_run run || store_catalog_provider_required run.provider
    then if not (is_healthy run.health) then StoreScanCompletionStatus.incomplete else rest
    else if not (is_healthy run.health) && alone
    then StoreScanCompletionStatus.incomplete
    else rest

unfoldable pub scan_completion_status :
    StorePackagedAppInventory → List StoreCatalogProviderRun → StoreScanCompletionStatus
unfolding completion_of
scan_completion_status inventory runs =
    if not (nonempty inventory.scan.scan_id)
      || is_empty inventory.families && (inventory.partial || not (is_empty inventory.errors))
    then StoreScanCompletionStatus.failed
    else completion_of (num_eq (length runs) 1) runs

abbrev is_failed : StoreScanCompletionStatus → Bool
is_failed StoreScanCompletionStatus.failed = true
is_failed _ = false

unfoldable pub scan_should_publish : StoreScanGeneration → StorePackagedAppInventory → Bool
scan_should_publish scan inventory =
    if is_failed scan.completion_status
    then false
    else not (is_empty inventory.families) || is_completed scan.completion_status

unfoldable pub previous_assessments_from_snapshot :
    StoreScanSnapshot → IdentityMap StorePublishedAssessment
unfolding fold_left insert_identity
previous_assessments_from_snapshot snapshot =
    fold_left (λ previous a. insert_identity a.identity a previous) [] snapshot.assessments

unfoldable pub required_store_catalog_providers :
    List StoreCatalogProviderRun → List StoreProviderIdentity
unfolding is_inventory_run store_catalog_provider_required
required_store_catalog_providers [] = []
required_store_catalog_providers (run ∷ runs) =
    let rest = required_store_catalog_providers runs in
    if is_inventory_run run || not (store_catalog_provider_required run.provider)
    then rest
    else run.provider ∷ rest

unfoldable pub all_store_provider_observations :
    List StoreCatalogProviderRun → List StoreProviderObservation
all_store_provider_observations [] = []
all_store_provider_observations (run ∷ runs) =
    append run.observations (all_store_provider_observations runs)

abbrev is_retraction : StoreObservationKind → Bool
is_retraction authoritative_negative = true
is_retraction newer_catalog_no_applicable_installer = true
is_retraction _ = false

unfoldable pub has_current_healthy_retraction :
    StoreScanGeneration → StoreInstalledIdentity → List StoreCatalogProviderRun → Bool
unfolding any matches
has_current_healthy_retraction scan identity runs =
    if not (is_completed scan.completion_status)
    then false
    else any
        (λ run.
          is_healthy run.health
          && any (λ o. matches o identity scan && is_healthy o.health && is_retraction o.kind)
              run.observations)
        runs
