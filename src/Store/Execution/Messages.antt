-- ===== src/Store/Execution/Messages.antt =====
-- internal/updater/store_update_execution.go: what an execution writes into its result about the
-- snapshots and about the check before the action.
use Prim.Native.String.{◌++◌ as text_append}
use patch_board.Common.{String, Bool, true, false, not, if◌then◌else◌}
use patch_board.Common.Text.{nonempty}
use patch_board.Commands.Result.{CommandResult, append_diagnostic_line}
use patch_board.Store.Diagnostics.{sanitize_provider_diagnostic}
use patch_board.Store.Authorize.{StoreExactPackageSnapshot, PreAction}

-- `%t`.
abbrev bool_text : Bool → String
bool_text true = "true"
bool_text false = "false"

unfoldable pub with_inventory : CommandResult → String → CommandResult → CommandResult
unfolding append_diagnostic_line
with_inventory result label inventory =
    let line = text_append label (text_append " inventory: " inventory.command) in
    if not (nonempty inventory.command) then result else record result {
      command =
          if not (nonempty result.command)
          then line
          else text_append result.command (text_append "\n" line);
      stdout = append_diagnostic_line result.stdout inventory.stdout;
      stderr = append_diagnostic_line result.stderr inventory.stderr;
    }

unfoldable snapshot_line : String → StoreExactPackageSnapshot → String
snapshot_line label snapshot =
    let family = snapshot.identity.package_family_name in
    text_append label (
      if snapshot.exists
      then text_append " exact Store package: PFN=" (
          text_append family (
            text_append " version=" (
              text_append snapshot.version (
                text_append " full_name=" (
                  text_append snapshot.package_full_name
                    (text_append " healthy=" (bool_text snapshot.healthy)))))))
      else text_append " exact Store package not found: PFN=" family)

unfoldable pub append_store_execution_diagnostic :
    CommandResult → String → StoreExactPackageSnapshot → CommandResult → CommandResult
unfolding with_inventory snapshot_line append_diagnostic_line sanitize_provider_diagnostic
append_store_execution_diagnostic result label snapshot inventory =
    let told = with_inventory result label inventory in
    let shown = append_diagnostic_line told.stdout (snapshot_line label snapshot) in
    record told {
      stdout =
          if not (nonempty snapshot.diagnostics)
          then shown
          else append_diagnostic_line shown (
              text_append label
                (text_append " diagnostics: " (sanitize_provider_diagnostic snapshot.diagnostics)));
    }

-- The error of validateStorePreActionSnapshot.
abbrev pub pre_action_text : PreAction → String
pre_action_text PreAction.ready = ""
pre_action_text PreAction.not_enumerated =
    "Store update requires a successful fresh package enumeration before execution"
pre_action_text PreAction.wrong_identity =
    "Store update pre-action package enumeration returned the wrong identity"
pre_action_text PreAction.not_installed =
    "Store update requires the exact package family to still be installed"
pre_action_text PreAction.not_healthy =
    "Store update requires the exact package family to be healthy before execution"
pre_action_text PreAction.version_unknown =
    "Store update requires a known current installed version before execution"
pre_action_text PreAction.version_changed =
    "Store update assessment no longer matches the installed package version"
