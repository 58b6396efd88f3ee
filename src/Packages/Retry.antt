-- ===== src/Packages/Retry.antt =====
-- How the result of a package action is read, and when it is tried again: package_action_retry.go,
-- package_action_transient.go, package_action_success.go and package_actions.go in internal/updater.
pub mod Laws
use Prim.Native.String.{◌++◌ as text_append}
use patch_board.Common.{ℕ, String, Bool, true, false, not, ◌&&◌, ◌||◌, List, [], ◌∷◌, if◌then◌else◌}
use patch_board.Common.{◌==◌ as num_eq}
use patch_board.Common.Text.{str_eq, nonempty, trim_space}
use patch_board.Common.Text.Search.{contains_text, contains_any, trim_right_newlines}
use patch_board.Commands.Result.{
  CommandResult, command_cancelled_code, command_timeout_code, normalized_command_output,
}

unfoldable pub is_retryable_package_action_failure : CommandResult → Bool
is_retryable_package_action_failure result =
    not result.ok
    && not (num_eq result.code command_cancelled_code)
    && not (num_eq result.code command_timeout_code)

abbrev alternate_target_signs : List String
alternate_target_signs =
    "no applicable upgrade" ∷ "no available upgrade" ∷ "kein anwendbares upgrade"
    ∷ "kein verfügbares upgrade" ∷ "keine neueren paketversionen" ∷ "no installed package found"
    ∷ "no package found" ∷ "no product found" ∷ "product not found" ∷ "not found"
    ∷ "unable to find package" ∷ "unable to find" ∷ "could not find installed product metadata"
    ∷ "no installed package matching" ∷ "not recognized" ∷ "does not match any installed package"
    ∷ []

unfoldable pub should_try_alternate_package_target : CommandResult → Bool
unfolding is_retryable_package_action_failure normalized_command_output contains_text contains_any
should_try_alternate_package_target result =
    let output = normalized_command_output result in
    if not (is_retryable_package_action_failure result)
    then false
    else if contains_text output "requires explicit user confirmation"
    then false
    else contains_any output alternate_target_signs

abbrev source_failure_signs : List String
source_failure_signs =
    "failed when opening source" ∷ "failed when searching source"
    ∷ "failed in attempting to update the source" ∷ "failed to update source"
    ∷ "failed to open source" ∷ "failed to get source" ∷ "failed to query source"
    ∷ "source data is corrupted" ∷ "source is not configured" ∷ "source not found"
    ∷ "no sources are configured" ∷ "data required by the source is missing"
    ∷ "the source agreements were not agreed to" ∷ "0x8a15000f" ∷ "0x8a150010" ∷ "0x8a150011"
    ∷ "0x8a150014" ∷ []

unfoldable pub is_winget_source_failure : CommandResult → Bool
unfolding normalized_command_output contains_any
is_winget_source_failure result =
    not result.ok && contains_any (normalized_command_output result) source_failure_signs

abbrev network_signs : List String
network_signs =
    "connection timed out" ∷ "operation timed out" ∷ "request timed out" ∷ "timeout was reached"
    ∷ "timed out while" ∷ "connection reset" ∷ "connection was reset" ∷ "connection aborted"
    ∷ "connection closed" ∷ "connection refused" ∷ "temporarily unavailable" ∷ "temporary failure"
    ∷ "remote name could not be resolved" ∷ "name resolution failure" ∷ "could not resolve host"
    ∷ "unable to resolve" ∷ "unable to connect to the remote server"
    ∷ "underlying connection was closed" ∷ "ssl connection could not be established"
    ∷ "tls connection could not be established" ∷ "transport connection" ∷ "too many requests"
    ∷ "rate limit" ∷ " http 429" ∷ "status 429"
    ∷ "response status code does not indicate success: 429" ∷ " http 502" ∷ "status 502"
    ∷ "bad gateway" ∷ " http 503" ∷ "status 503" ∷ "service unavailable" ∷ " http 504"
    ∷ "status 504" ∷ "gateway timeout" ∷ []

unfoldable pub is_network_transient_failure : CommandResult → Bool
unfolding normalized_command_output contains_any
is_network_transient_failure result =
    not result.ok && contains_any (normalized_command_output result) network_signs

abbrev installer_signs : List String
installer_signs =
    "another installation is already in progress" ∷ "another install is already in progress"
    ∷ "another transaction" ∷ "currently running" ∷ "installation is in progress"
    ∷ "installer is running" ∷ "being used by another process" ∷ "locked by another process"
    ∷ "unable to acquire lock" ∷ "could not acquire lock" ∷ "exit code 1618" ∷ "error 1618" ∷ []

unfoldable pub is_common_installer_transient_failure : CommandResult → Bool
unfolding normalized_command_output contains_any is_network_transient_failure
is_common_installer_transient_failure result =
    not result.ok
    && (num_eq result.code 1618
        || contains_any (normalized_command_output result) installer_signs
        || is_network_transient_failure result)

abbrev choco_signs : List String
choco_signs =
    "the process cannot access the file" ∷ "chocolatey is already running"
    ∷ "existing chocolatey process" ∷ []

unfoldable pub is_choco_transient_failure : CommandResult → Bool
unfolding normalized_command_output contains_any
is_choco_transient_failure result =
    not result.ok && contains_any (normalized_command_output result) choco_signs

unfoldable pub is_winget_transient_failure : CommandResult → Bool
unfolding normalized_command_output contains_text
is_winget_transient_failure result =
    let output = normalized_command_output result in
    if result.ok
    then false
    else if contains_text output "another transaction" || contains_text output "currently running"
    then true
    else num_eq result.code 2316632065

unfoldable pub is_transient_package_manager_failure : String → CommandResult → Bool
unfolding is_winget_transient_failure is_common_installer_transient_failure
    is_choco_transient_failure
is_transient_package_manager_failure manager result =
    if result.ok
    then false
    else if (str_eq manager "winget" || str_eq manager "store")
        && is_winget_transient_failure result
    then true
    else is_common_installer_transient_failure result
      || (str_eq manager "choco" && is_choco_transient_failure result)

abbrev failure_signs : List String
failure_signs =
    "failed" ∷ "failure" ∷ "error" ∷ "exception" ∷ "denied" ∷ "not found" ∷ "no package found"
    ∷ "no product found" ∷ "could not find" ∷ []

abbrev success_signs : List String
success_signs =
    "already up to date" ∷ "already installed" ∷ "no available update" ∷ "no update available"
    ∷ "no updates available" ∷ "no updates found" ∷ "no newer package versions are available"
    ∷ "the package is already installed" ∷ "successfully installed" ∷ "successfully upgraded"
    ∷ "successfully updated" ∷ "installation completed" ∷ "upgrade completed" ∷ "update completed"
    ∷ []

unfoldable pub has_package_action_success_output : CommandResult → Bool
unfolding normalized_command_output contains_any
has_package_action_success_output result =
    let output = normalized_command_output result in
    if contains_any output failure_signs then false else contains_any output success_signs

unfoldable pub is_package_action_restart_success_code : String → ℕ → Bool
is_package_action_restart_success_code manager code =
    if num_eq code 1641 || num_eq code 3010
    then str_eq manager "winget" || str_eq manager "choco" || str_eq manager "store"
    else false

unfoldable pub package_action_restart_note : ℕ → String
package_action_restart_note code =
    if num_eq code 1641
    then "Command completed successfully and initiated a restart."
    else if num_eq code 3010
    then "Command completed successfully; restart required."
    else ""

-- The output with the note about a restart.
unfoldable with_restart_note : CommandResult → CommandResult
unfolding package_action_restart_note contains_text
with_restart_note result =
    let note = package_action_restart_note result.code in
    if not (nonempty note) || contains_text (text_append result.stdout result.stderr) note
    then result
    else record result {
      stdout =
          if nonempty (trim_space result.stdout)
          then text_append (trim_right_newlines result.stdout) (text_append "\n" note)
          else note;
    }

unfoldable pub normalize_package_action_result : String → CommandResult → CommandResult
unfolding is_package_action_restart_success_code has_package_action_success_output with_restart_note
normalize_package_action_result manager result =
    if result.ok
    then result
    else if is_package_action_restart_success_code manager result.code
        || has_package_action_success_output result
    then with_restart_note (record result { ok = true })
    else result
