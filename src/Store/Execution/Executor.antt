-- ===== src/Store/Execution/Executor.antt =====
-- internal/updater/store_update_execution.go: StoreExactUpdateExecutor.ExecuteWithCallbacks. The
-- interfaces that an executor holds are what they answer, in World; where one is nil the source puts
-- a default in its place, and the answers are the default's. The calls that it makes are a list, in their
-- order. The result is none while the verification still waits.
pub mod Cases
pub mod Verified
pub mod Codes
use patch_board.Common.{
  ℕ, String, Bool, true, false, not, ◌||◌, Option, none, some, List, [], ◌∷◌, if◌then◌else◌,
}
use patch_board.Common.{◌==◌ as num_eq}
use patch_board.Common.Text.{trim_space}
use patch_board.Commands.Result.{
  CommandResult, TextLimits, append_diagnostic_line, merge_command_attempts_with_final_result,
  validation_command_result, command_cancelled_code,
}
use patch_board.Packages.Model.{Package}
use patch_board.Store.Model.{StoreInstalledIdentity}
use patch_board.Store.Diagnostics.{first_non_empty}
use patch_board.Store.Authorize.{
  StoreExactUpdateRequest, StoreExactPackageSnapshot, PreAction, validate_store_pre_action_snapshot,
  store_already_updated_before_action_result,
}
use patch_board.Store.Execution.Request.{
  Surroundings, Built, failed, built, error_text, exact_store_update_request_from_package,
}
use patch_board.Store.Execution.Verify.{
  ContextError, canceled, Round, StoreExactVerificationResult, verify_accepted_action_with_events,
}
use patch_board.Store.Execution.Messages.{append_store_execution_diagnostic, pre_action_text}

-- What the parts that the executor calls answer.
pub record World : Type 0 where
  pub surroundings : Surroundings
  pub before : StoreExactPackageSnapshot
  pub before_result : CommandResult
  pub subscription_error : Option String
  pub started_at : ℕ
  pub run_store_update : StoreExactUpdateRequest → CommandResult
  -- `ctx.Err() != nil` after the run.
  pub cancelled : Bool
  pub rounds : List Round

-- The calls of the parts and of the callbacks.
pub data Call : Type 0 where
  enumerated subscribed : StoreInstalledIdentity → Call
  starting ran : StoreExactUpdateRequest → Call
  accepted : StoreExactUpdateRequest → CommandResult → Call
  verifying : StoreExactUpdateRequest → Call

abbrev pub store_update_accepted_not_verified_code : ℕ
store_update_accepted_not_verified_code = 202

abbrev already_updated : CommandResult
already_updated = record {
  ok = true;
  code = 0;
  stdout = "Store package was already updated before execution; no Store update command was run.";
  stderr = "";
  command = "store exact update";
}

-- The calls that were made, and the result.
pub record Execution : Type 0 where
  pub calls : List Call
  pub result : Option CommandResult

-- The result after the run: the command that ended with its error, or none where it was accepted.
unfoldable run_failure : Bool → CommandResult → Option CommandResult
unfolding append_diagnostic_line
run_failure cancelled update =
    if cancelled
    then some (record update {
      ok = false;
      code = command_cancelled_code;
      stderr = append_diagnostic_line update.stderr "Store update cancelled.";
    })
    else if num_eq update.code command_cancelled_code || not update.ok
    then some update
    else none

-- What the end of the verification's context adds, none where it was not cancelled.
abbrev was_cancelled : Option ContextError → Bool
was_cancelled (some ContextError.canceled) = true
was_cancelled _ = false

module _ (limits : TextLimits) where
  unfoldable pub conclude : CommandResult → StoreExactVerificationResult → CommandResult
  unfolding merge_command_attempts_with_final_result append_store_execution_diagnostic
      append_diagnostic_line first_non_empty
  conclude update verification =
      let merged =
        append_store_execution_diagnostic
          (merge_command_attempts_with_final_result limits update verification.result
            "Store post-action verification")
          "post-action" verification.post verification.post_result in
      if verification.verified
      then record merged {
        ok = true;
        code = 0;
        stdout = append_diagnostic_line merged.stdout verification.message;
        stderr = trim_space merged.stderr;
      }
      else if was_cancelled verification.ended
      then record merged {
        ok = false;
        code = command_cancelled_code;
        stderr = append_diagnostic_line merged.stderr "Store update verification cancelled.";
      }
      else record merged {
        ok = false;
        code = store_update_accepted_not_verified_code;
        stderr = append_diagnostic_line merged.stderr (
            first_non_empty (
              verification.message
              ∷ "Store update request was accepted but final state could not be verified." ∷ []));
      }

  abbrev concluded : CommandResult → Option StoreExactVerificationResult → Option CommandResult
  concluded update none = none
  concluded update (some verification) = some (conclude update verification)

  abbrev pub updated_with : World → StoreExactUpdateRequest → CommandResult
  updated_with world request =
      append_store_execution_diagnostic (world.run_store_update request) "pre-action" world.before
        world.before_result

  abbrev pub ran_only : StoreExactUpdateRequest → CommandResult → Execution
  ran_only request failure = record {
    calls =
        enumerated request.identity
        ∷ subscribed request.identity
        ∷ starting request
        ∷ ran request
        ∷ [];
    result = some failure;
  }

  abbrev pub ran_and_verified : World → StoreExactUpdateRequest → CommandResult → Execution
  ran_and_verified world request update = record {
    calls =
        enumerated request.identity
        ∷ subscribed request.identity
        ∷ starting request
        ∷ ran request
        ∷ accepted request update
        ∷ verifying request
        ∷ [];
    result =
        concluded
          (record update {
            stdout =
                append_diagnostic_line update.stdout
                  "Store update request accepted; verifying exact package state.";
          })
          (verify_accepted_action_with_events limits request world.before world.started_at
            world.subscription_error world.rounds);
  }

  abbrev after_run :
      World → StoreExactUpdateRequest → CommandResult → Option CommandResult → Execution
  after_run world request update none = ran_and_verified world request update
  after_run world request update (some failure) = ran_only request failure

  -- What is done once the snapshot before the action is good.
  unfoldable run_and_verify : World → StoreExactUpdateRequest → Execution
  unfolding append_store_execution_diagnostic append_diagnostic_line run_failure
      verify_accepted_action_with_events conclude
  run_and_verify world request =
      let update = updated_with world request in
      after_run world request update (run_failure world.cancelled update)

  abbrev pub not_run : World → StoreExactUpdateRequest → CommandResult → Execution
  not_run world request outcome = record {
    calls = enumerated request.identity ∷ [];
    result =
        some
          (append_store_execution_diagnostic outcome "pre-action" world.before world.before_result);
  }

  abbrev if_ready : World → StoreExactUpdateRequest → PreAction → Execution
  if_ready world request PreAction.ready = run_and_verify world request
  if_ready world request p =
      not_run world request (validation_command_result "store exact update" (pre_action_text p))

  unfoldable execute_request : World → StoreExactUpdateRequest → Execution
  unfolding run_and_verify append_store_execution_diagnostic validation_command_result
      validate_store_pre_action_snapshot store_already_updated_before_action_result
  execute_request world request =
      let ok = world.before_result.ok in
      let checked = validate_store_pre_action_snapshot ok request world.before in
      if store_already_updated_before_action_result ok request world.before
      then not_run world request already_updated
      else if_ready world request checked

  abbrev pub refused_request : String → Execution
  refused_request err = record {
    calls = [];
    result = some (validation_command_result "store exact update" err);
  }

  abbrev execute_built : World → Built StoreExactUpdateRequest → Execution
  execute_built world (failed e) = refused_request (error_text world.surroundings.failure e)
  execute_built world (built request) = execute_request world request

  unfoldable pub execute_with_callbacks : World → Package → Execution
  unfolding execute_request exact_store_update_request_from_package error_text
      validation_command_result
  execute_with_callbacks world pkg =
      execute_built world (exact_store_update_request_from_package world.surroundings pkg)
