-- ===== src/Packages/InventoryRetry.antt =====
-- An update that is tried once more with fresh metadata, and the package that an update request
-- stands for: update_retry.go and update_job_packages.go in internal/updater.
pub mod Laws
use Prim.Native.String.{◌++◌ as text_append}
use patch_board.Common.{
  String, Bool, true, not, ◌&&◌, ◌||◌, Option, none, some, List, [], ◌∷◌, if◌then◌else◌,
}
use patch_board.Common.Text.{str_eq, nonempty, trim_space, equal_fold}
use patch_board.Commands.Result.{
  CommandResult, TextLimits, merge_command_attempts_with_final_result,
}
use patch_board.Packages.Model.{
  Package, no_package, package_key, normalize_auto_update_package_key, normalized_job_package_key,
  equivalent_package_keys,
}
use patch_board.Packages.Retry.{should_try_alternate_package_target}
use patch_board.Packages.Selection.{InventorySnapshot, unreadable, inventory}
use patch_board.Packages.Revalidation.{find_package_for_update_retry, update_job_package_name}

unfoldable pub same_package_update_target : Package → Package → Bool
unfolding equal_fold trim_space
same_package_update_target left right =
    equal_fold (trim_space left.manager) (trim_space right.manager)
    && equal_fold (trim_space left.id) (trim_space right.id)
    && equal_fold (trim_space left.match) (trim_space right.match)
    && equal_fold (trim_space left.action_backend) (trim_space right.action_backend)

-- The packages that updatePackageRunner was called for, and the result.
pub record Retried : Type 0 where
  pub updated : List Package
  pub result : CommandResult

abbrev no_update : Package → CommandResult
no_update pkg = record {
  ok = true;
  code = 0;
  stdout =
      text_append "Inventory refresh no longer reports an available update for "
        (text_append (update_job_package_name pkg) ".");
  stderr = "";
  command = "inventory refresh";
}

-- The fresh package, with the options of the one that failed.
abbrev with_options_of : Package → Package → Package
with_options_of pkg found = record found {
  allow_unknown_version_update = pkg.allow_unknown_version_update;
  allow_pinned_update = pkg.allow_pinned_update;
}

module _ (limits : TextLimits) (run_update : Package → CommandResult) where
  abbrev retry_found : Package → CommandResult → Option Package → Retried
  retry_found pkg result none = record { updated = pkg ∷ []; result = result }
  retry_found pkg result (some found) =
      let fresh = with_options_of pkg found in
      if not fresh.update_available
      then record {
        updated = pkg ∷ [];
        result =
            merge_command_attempts_with_final_result limits result (no_update pkg)
              "fresh inventory no-update";
      }
      else if same_package_update_target pkg fresh
      then record { updated = pkg ∷ []; result = result }
      else record {
        updated = pkg ∷ fresh ∷ [];
        result =
            merge_command_attempts_with_final_result limits result (run_update fresh)
              "fresh inventory retry";
      }

  -- `refreshed` is the inventory that is read anew; `cancelled` is `ctx.Err() != nil` after the first
  -- attempt.
  unfoldable pub update_package_with_inventory_retry :
      Option String → Bool → List Package → Package → Retried
  unfolding should_try_alternate_package_target find_package_for_update_retry
      update_job_package_name same_package_update_target merge_command_attempts_with_final_result
  update_package_with_inventory_retry sid cancelled refreshed pkg =
      let result = run_update pkg in
      if result.ok || cancelled || not (should_try_alternate_package_target result)
      then record { updated = pkg ∷ []; result = result }
      else retry_found pkg result (find_package_for_update_retry sid refreshed pkg)

-- The package that is made up for a key that the inventory does not have.
abbrev fallback_package : String → String → Package
fallback_package manager id = record no_package {
  key = package_key manager id;
  manager = manager;
  id = id;
  name = id;
  update_supported = true;
}

abbrev key_or_own : Option String → Package → String
key_or_own sid pkg =
    let update_key = normalized_job_package_key sid pkg in
    if nonempty update_key then update_key else package_key pkg.manager pkg.id

unfoldable stands_for : Option String → String → String → Package → Bool
unfolding equal_fold package_key normalize_auto_update_package_key equivalent_package_keys
    normalized_job_package_key
stands_for sid manager id pkg =
    let requested_key = package_key manager id in
    let update_key = key_or_own sid pkg in
    equal_fold pkg.id id
    || equal_fold update_key requested_key
    || equal_fold (normalize_auto_update_package_key sid update_key)
        (normalize_auto_update_package_key sid requested_key)
    || (str_eq manager "store" && equivalent_package_keys sid update_key requested_key)

unfoldable package_among : Option String → String → String → List Package → Package
unfolding stands_for normalized_job_package_key package_key
package_among sid manager id [] = fallback_package manager id
package_among sid manager id (pkg ∷ packages) =
    let rest = package_among sid manager id packages in
    if not (str_eq pkg.manager manager) || not (stands_for sid manager id pkg)
    then rest
    else record pkg { key = key_or_own sid pkg; name = if nonempty pkg.name then pkg.name else id }

unfoldable pub package_for_update : Option String → InventorySnapshot → String → String → Package
unfolding package_among package_key
package_for_update sid (unreadable err) manager id = fallback_package manager id
package_for_update sid (inventory packages) manager id = package_among sid manager id packages
