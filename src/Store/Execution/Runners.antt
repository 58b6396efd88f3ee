-- ===== src/Store/Execution/Runners.antt =====
-- internal/updater/store_update_execution.go: the parts that the executor calls by default, the
-- runners, the catalog query and the snapshot of the inventory. The commands of WinGet and of the
-- Store CLI, and the inventory itself, are what they answer.
pub mod Laws
use patch_board.Common.{ℕ, String, Bool, true, false, not, ◌&&◌, ◌||◌, List, [], ◌∷◌, if◌then◌else◌}
use patch_board.Common.Text.{nonempty, trim_space}
use patch_board.Commands.Result.{
  CommandResult, TextLimits, validation_command_result, merge_command_attempts_with_final_result,
}
use patch_board.Packages.Retry.{should_try_alternate_package_target}
use patch_board.Packages.Targets.{unique_update_targets, run_package_update_candidates}
use patch_board.Store.Inventory.{version_text, StorePackagedAppFamily}
use patch_board.Store.Model.{StoreInstalledIdentity, equal, looks_like_store_product_id}
use patch_board.Store.Diagnostics.{first_non_empty}
use patch_board.Store.Authorize.{
  StoreExactUpdateRequest, StoreExactPackageSnapshot, StoreExactCatalogResult,
}

-- What the commands answer: the upgrade of a product by WinGet, the update of a target by the Store
-- CLI, and `ctx.Err() != nil` after each of them.
pub record UpdateCommands : Type 0 where
  pub winget_available : Bool
  pub winget_upgrade : String → CommandResult
  pub cancelled_after_winget : Bool
  pub store_update : String → CommandResult
  pub cancelled_after_target : String → Bool

unfoldable pub exact_store_update_request_targets : StoreExactUpdateRequest → List String
unfolding unique_update_targets
exact_store_update_request_targets request =
    unique_update_targets (request.product_id ∷ request.update_id ∷ request.target ∷ [])

abbrev pub bad_product_id : String
bad_product_id = "Store update Product ID is not a valid Microsoft Store Product ID"

-- What the targeted queries answer.
pub record CatalogQueries : Type 0 where
  pub winget_available : Bool
  pub store_available : Bool
  pub winget_evidence : StoreExactCatalogResult
  pub winget_result : CommandResult
  pub cancelled_after_winget : Bool
  pub store_evidence : StoreExactCatalogResult
  pub store_result : CommandResult

-- `StoreExactCatalogResult{}`.
abbrev pub no_evidence : StoreExactCatalogResult
no_evidence = record {
  authoritative = false;
  offer_available = false;
  installed_healthy = false;
  offered_version = "";
  diagnostics = "";
}

module _ (limits : TextLimits) where
  -- storeCLIExactUpdateRunner.
  unfoldable pub store_cli_run_store_update :
      UpdateCommands → StoreExactUpdateRequest → CommandResult
  unfolding run_package_update_candidates exact_store_update_request_targets
  store_cli_run_store_update commands request =
      (run_package_update_candidates limits "store exact target" commands.store_update
        commands.cancelled_after_target (exact_store_update_request_targets request)).result

  -- storeProductIDFirstExactUpdateRunner.
  unfoldable pub product_id_first_run_store_update :
      UpdateCommands → StoreExactUpdateRequest → CommandResult
  unfolding store_cli_run_store_update looks_like_store_product_id validation_command_result
      should_try_alternate_package_target merge_command_attempts_with_final_result
  product_id_first_run_store_update commands request =
      let product_id = trim_space request.product_id in
      let by_winget = commands.winget_upgrade product_id in
      let by_store = store_cli_run_store_update commands request in
      if nonempty product_id && not (looks_like_store_product_id product_id)
      then validation_command_result "Store exact update" bad_product_id
      else if not (nonempty product_id) || not commands.winget_available
      then by_store
      else if by_winget.ok
          || commands.cancelled_after_winget
          || not (should_try_alternate_package_target by_winget)
      then by_winget
      else merge_command_attempts_with_final_result limits by_winget by_store
          "Store CLI exact target fallback"

  -- storeProductIDFirstExactCatalogQueryProvider.
  unfoldable pub product_id_first_query_exact :
      CatalogQueries → StoreExactUpdateRequest → StoreExactCatalogResult × CommandResult
  unfolding looks_like_store_product_id validation_command_result
      merge_command_attempts_with_final_result first_non_empty
  product_id_first_query_exact queries request =
      let product_id = trim_space request.product_id in
      let evidence = queries.winget_evidence in
      let store = queries.store_evidence in
      let merged =
        merge_command_attempts_with_final_result limits queries.winget_result queries.store_result
          "Store CLI exact catalog fallback" in
      if nonempty product_id && not (looks_like_store_product_id product_id)
      then (no_evidence, validation_command_result "Store exact catalog query" bad_product_id)
      else if not (nonempty product_id) || not queries.winget_available
      then (store, queries.store_result)
      else if evidence.authoritative
          || queries.cancelled_after_winget
          || not queries.store_available
      then (evidence, queries.winget_result)
      else if store.authoritative
      then (store, merged)
      else (
        record evidence {
          diagnostics =
              if nonempty store.diagnostics
              then first_non_empty (evidence.diagnostics ∷ store.diagnostics ∷ [])
              else evidence.diagnostics;
        },
        merged,
      )

abbrev not_found : StoreInstalledIdentity → ℕ → StoreExactPackageSnapshot
not_found identity now = record {
  identity = identity;
  package_full_name = "";
  version = "";
  healthy = false;
  exists = false;
  observed_at = now;
  diagnostics = "";
}

-- The first family of the identity.
unfoldable snapshot_from :
    StoreInstalledIdentity → ℕ → List StorePackagedAppFamily → StoreExactPackageSnapshot
unfolding equal version_text
snapshot_from identity now [] = not_found identity now
snapshot_from identity now (family ∷ families) =
    let rest = snapshot_from identity now families in
    if not (equal family.identity identity) then rest else record {
      identity = identity;
      package_full_name = family.primary.package_full_name;
      version = version_text family.primary.version;
      healthy = family.primary.status.ok;
      exists = true;
      observed_at = now;
      diagnostics = if family.primary.status.ok then "" else family.primary.status.raw;
    }

-- storePackagedSnapshotProvider. `now` is the time of the snapshot.
unfoldable pub packaged_snapshot :
    StoreInstalledIdentity
    → ℕ
    → CommandResult
    → List StorePackagedAppFamily
    → StoreExactPackageSnapshot × CommandResult
unfolding snapshot_from first_non_empty
packaged_snapshot identity now result families =
    if not result.ok
    then (
      record (not_found identity now) {
        diagnostics = first_non_empty (result.stderr ∷ result.stdout ∷ []);
      },
      result,
    )
    else (snapshot_from identity now families, result)
