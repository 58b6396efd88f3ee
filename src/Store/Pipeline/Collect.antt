-- ===== src/Store/Pipeline/Collect.antt =====
-- internal/updater/store_scan_pipeline.go, collectInventory. What the provider of the inventory answers
-- is an argument.
use mathlib.Core.List.{◌++◌ as append}
use patch_board.Common.{
  ℕ, String, Bool, true, false, not, ◌||◌, Option, none, some, List, [], ◌∷◌, any, if◌then◌else◌,
}
use patch_board.Common.Text.{str_eq, nonempty}
use patch_board.Commands.Result.{CommandResult}
use patch_board.Store.Model.{
  StoreScanGeneration, is_completed, StoreProviderHealth, failed, incomplete,
}
use patch_board.Store.Inventory.{StorePackagedAppFamily, StorePackagedAppInventory}
use patch_board.Store.Snapshot.{StoreCatalogProviderRun}

-- What the inventory provider answers, with the times and the error of the context.
pub record InventoryAnswer : Type 0 where
  pub inventory : StorePackagedAppInventory
  pub result : CommandResult
  pub started : ℕ
  pub completed : ℕ
  pub ended : Option String

abbrev pub inventory_run : InventoryAnswer → StoreCatalogProviderRun
inventory_run answer = record {
  provider = record {
    id = "store-current-user-inventory";
    name = "Current-user packaged app inventory";
    backend = "winrt";
  };
  version = "";
  started_at = answer.started;
  completed_at = answer.completed;
  health = StoreProviderHealth.healthy;
  error = "";
  observations = [];
  mappings = [];
  positive_update_hint = false;
}

abbrev first_error : List String → String
first_error [] = "inventory provider returned incomplete results"
first_error (e ∷ errors) = e

unfoldable pub incomplete_inventory : InventoryAnswer → StoreCatalogProviderRun
incomplete_inventory answer =
    let inventory = answer.inventory in
    if not answer.result.ok
      || inventory.partial
      || not (is_completed inventory.scan.completion_status)
    then record (inventory_run answer) {
      health = incomplete;
      error =
          if nonempty answer.result.stderr
          then answer.result.stderr
          else first_error inventory.errors;
    }
    else inventory_run answer

-- The family is of another user, or has no name.
abbrev pub is_foreign : StoreScanGeneration → StorePackagedAppFamily → Bool
is_foreign scan family =
    not (str_eq family.identity.user_sid scan.user_sid)
    || not (nonempty family.identity.package_family_name)

unfoldable pub checked_inventory :
    StoreScanGeneration
    → InventoryAnswer
    → Option String
    → StorePackagedAppInventory × StoreCatalogProviderRun
unfolding any incomplete_inventory
checked_inventory scan answer (some reason) = (
  record answer.inventory { partial = true; errors = append answer.inventory.errors (reason ∷ []) },
  record (inventory_run answer) { health = failed; error = reason },
)
checked_inventory scan answer none =
    if any (is_foreign scan) answer.inventory.families
    then (
      record answer.inventory { partial = true },
      record (incomplete_inventory answer) {
        health = failed;
        error = "inventory provider returned wrong-user or unresolved package identity";
      },
    )
    else (answer.inventory, incomplete_inventory answer)

unfoldable pub collect_inventory :
    StoreScanGeneration → InventoryAnswer → StorePackagedAppInventory × StoreCatalogProviderRun
unfolding checked_inventory
collect_inventory scan answer = checked_inventory scan answer answer.ended
