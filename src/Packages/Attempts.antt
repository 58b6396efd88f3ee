-- ===== src/Packages/Attempts.antt =====
-- The attempts of a package action: runPackageActionCommand and retryPackageActionOnTransientFailure
-- in internal/updater/package_actions.go. What the commands and the context give is a value of Trial;
-- the commands that were run are a list, the last one first.
pub mod Laws
use Prim.Native.String.{◌++◌ as text_append}
use patch_board.Common.{
  ℕ, suc, zero, String, Bool, not, ◌&&◌, ◌||◌, List, [], ◌∷◌, length, if◌then◌else◌,
}
use patch_board.Common.Text.{str_eq}
use patch_board.Commands.Result.{
  CommandResult, TextLimits, merge_command_attempts_with_final_result,
}
use patch_board.Packages.Retry.{
  is_winget_source_failure, is_transient_package_manager_failure, normalize_package_action_result,
}

pub data ActionCommand : Type 0 where
  action source_update source_reset : ActionCommand

-- By the number of commands run before: what the next one gives; whether `ctx.Err() != nil` then; and
-- whether packageActionRetryWait is waited out.
pub record Trial : Type 0 where
  pub results : ℕ → CommandResult
  pub cancelled : ℕ → Bool
  pub waited_out : ℕ → Bool

pub record Attempts : Type 0 where
  pub result : CommandResult
  pub commands : List ActionCommand

abbrev pub manager_of : String → ActionCommand → String
manager_of manager action = manager
manager_of manager source_update = "winget"
manager_of manager source_reset = "winget"

-- What an attempt gives after the commands run so far.
unfoldable pub run_package_action_attempt :
    String → Trial → ActionCommand → List ActionCommand → CommandResult
unfolding normalize_package_action_result
run_package_action_attempt manager trial command commands =
    normalize_package_action_result (manager_of manager command) (trial.results (length commands))

-- `fmt.Sprintf("%s retry %d", packageManager, attempt-1)`, by the retries that remain of two.
abbrev retry_label : String → ℕ → String
retry_label manager zero = text_append manager " retry 2"
retry_label manager (suc n) = text_append manager " retry 1"

module _ (limits : TextLimits) where
  -- The loop from the second attempt to the third: two more at first.
  unfoldable pub retry_package_action_on_transient_failure :
      String → Trial → ℕ → CommandResult → List ActionCommand → Attempts
  unfolding is_transient_package_manager_failure run_package_action_attempt
      merge_command_attempts_with_final_result
  retry_package_action_on_transient_failure manager trial zero current commands = record {
    result = current;
    commands = commands;
  }
  retry_package_action_on_transient_failure manager trial (suc n) current commands =
      let retry = run_package_action_attempt manager trial action commands in
      let merged =
        merge_command_attempts_with_final_result limits current retry (retry_label manager n) in
      let rest =
        retry_package_action_on_transient_failure manager trial n merged (action ∷ commands) in
      if current.ok
        || trial.cancelled (length commands)
        || not (is_transient_package_manager_failure manager current)
      then record { result = current; commands = commands }
      else if not (trial.waited_out (length commands))
      then record { result = current; commands = commands }
      else rest

  -- The attempt after the sources were updated or reset.
  unfoldable retried : String → Trial → CommandResult → String → List ActionCommand → Attempts
  unfolding run_package_action_attempt merge_command_attempts_with_final_result
      retry_package_action_on_transient_failure
  retried manager trial current label commands =
      let retry = run_package_action_attempt manager trial action commands in
      retry_package_action_on_transient_failure manager trial 2
        (merge_command_attempts_with_final_result limits current retry label) (action ∷ commands)

  unfoldable source_repaired : String → Trial → CommandResult → List ActionCommand → Attempts
  unfolding run_package_action_attempt merge_command_attempts_with_final_result
      is_winget_source_failure retried
  source_repaired manager trial first commands =
      let update = run_package_action_attempt manager trial source_update commands in
      let updated =
        merge_command_attempts_with_final_result limits first update "winget source update" in
      let after_update = source_update ∷ commands in
      let reset = run_package_action_attempt manager trial source_reset after_update in
      let was_reset =
        merge_command_attempts_with_final_result limits updated reset "winget source reset" in
      let after_reset = source_reset ∷ after_update in
      if trial.cancelled (length after_update)
      then record { result = updated; commands = after_update }
      else if update.ok
      then retried manager trial updated "winget retry after source update" after_update
      else if not (is_winget_source_failure update)
      then record { result = updated; commands = after_update }
      else if trial.cancelled (length after_reset) || not reset.ok
      then record { result = was_reset; commands = after_reset }
      else retried manager trial was_reset "winget retry after source reset" after_reset

  unfoldable pub run_package_action_command : String → Trial → Attempts
  unfolding run_package_action_attempt is_winget_source_failure source_repaired
      retry_package_action_on_transient_failure
  run_package_action_command manager trial =
      let first = run_package_action_attempt manager trial action [] in
      if first.ok || trial.cancelled 1
      then record { result = first; commands = action ∷ [] }
      else if str_eq manager "winget" && is_winget_source_failure first
      then source_repaired manager trial first (action ∷ [])
      else retry_package_action_on_transient_failure manager trial 2 first (action ∷ [])
