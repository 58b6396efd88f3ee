-- ===== src/Jobs/Batch.antt =====
-- internal/updater/package_update_batch.go: which packages one elevated worker updates together, and
-- the results of a batch that stopped early; failedBatchUpdateResults is in operation_job_actions.go.
-- `sid` is what currentUserSID returns.
pub mod Laws
use Prim.Native.String.{◌++◌ as text_append}
use patch_board.Common.{
  Option, String, Bool, true, false, not, ◌||◌, List, [], ◌∷◌, ◌++◌, length, map, any, keep,
  is_empty, ltb, leb, if◌then◌else◌,
}
use patch_board.Common.{◌==◌ as num_eq}
use patch_board.Common.Text.{str_eq, nonempty, trim_space}
use patch_board.Common.Text.Search.{contains_text}
use patch_board.Commands.Result.{
  CommandResult, command_timeout_code, command_cancelled_code, command_skipped_code,
  normalized_command_output,
}
use patch_board.Packages.Model.{Package, package_key, normalized_job_package_key}
use patch_board.Commands.OutputTail.{drop}

pub record UpdateResult : Type 0 where
  pub key : String
  pub result : CommandResult

pub record ElevatedPackageUpdateBatchCapability : Type 0 where
  pub requires_elevation : Bool
  pub same_user_elevation_available : Bool

unfoldable pub package_eligible_for_elevated_update_batch :
    Package → ElevatedPackageUpdateBatchCapability → Bool
package_eligible_for_elevated_update_batch candidate capability =
    if not capability.requires_elevation
    then false
    else if str_eq candidate.manager "choco"
    then true
    else if str_eq candidate.manager "winget"
    then capability.same_user_elevation_available
    else false

-- The batch, and the packages that remain.
unfoldable pub plan_elevated_package_update_batch :
    List Package → (Package → Bool) → List Package × List Package
unfolding keep
plan_elevated_package_update_batch packages is_batch_eligible =
    let batch = keep is_batch_eligible packages in
    let remaining = keep (λ p. not (is_batch_eligible p)) packages in
    if ltb (length packages) 2 || is_empty batch then ([], packages) else (batch, remaining)

abbrev cancellation_signals : List String
cancellation_signals =
    "exit code: 1223" ∷ "exitcode: 1223" ∷ "canceled by the user" ∷ "cancelled by the user"
    ∷ "canceled the installation" ∷ "cancelled the installation" ∷ "durch den benutzer abgebrochen"
    ∷ "sie haben die installation abgebrochen" ∷ []

unfoldable pub package_update_queue_stop_reason : CommandResult → String
unfolding any contains_text normalized_command_output
package_update_queue_stop_reason result =
    let output = normalized_command_output result in
    if num_eq result.code command_timeout_code
    then "the previous package update timed out"
    else if num_eq result.code command_cancelled_code
    then "the update batch was cancelled"
    else if num_eq result.code 2147943623
    then "the previous package installer was cancelled"
    else if any (contains_text output) cancellation_signals
    then "the previous package installer was cancelled"
    else ""

abbrev skipped_result : Option String → String → Package → UpdateResult
skipped_result sid reason pkg = record {
  key =
      if nonempty (normalized_job_package_key sid pkg)
      then normalized_job_package_key sid pkg
      else package_key pkg.manager pkg.id;
  result = record {
    ok = false;
    code = command_skipped_code;
    stdout = text_append "Skipped because " (text_append (trim_space reason) ".");
    stderr = "";
    command = text_append "update " (package_key pkg.manager pkg.id);
  };
}

unfoldable pub skipped_package_update_results :
    Option String → List Package → String → List UpdateResult
unfolding package_key normalized_job_package_key
skipped_package_update_results sid packages reason = map (skipped_result sid reason) packages

unfoldable pub failed_batch_update_results : List Package → CommandResult → List UpdateResult
failed_batch_update_results packages result =
    map (λ p. record { key = p.key; result = result }) packages

unfoldable pub complete_partial_batch_results :
    Option String → List Package → List UpdateResult → CommandResult → List UpdateResult
unfolding failed_batch_update_results skipped_package_update_results
    package_update_queue_stop_reason
complete_partial_batch_results sid packages results batch_result =
    let reason = package_update_queue_stop_reason batch_result in
    if is_empty results
    then failed_batch_update_results packages batch_result
    else if leb (length packages) (length results)
    then results
    else if not (nonempty reason)
    then results
    else results ++ skipped_package_update_results sid (drop (length results) packages) reason
