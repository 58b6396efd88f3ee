-- ===== src/Store/Execution/Executor/Cases.antt =====
-- Every execution takes one of five ways, and what holds of each of them.
use patch_board.Common.{String, Bool, true, false, Option, none, some, if-cases, ◌≡◌, refl}
use patch_board.Commands.Result.{CommandResult, TextLimits, validation_command_result}
use patch_board.Packages.Model.{Package}
use patch_board.Store.Authorize.{
  StoreExactUpdateRequest, PreAction, validate_store_pre_action_snapshot,
  store_already_updated_before_action_result,
}
use patch_board.Store.Execution.Request.{
  Built, failed, built, error_text, exact_store_update_request_from_package,
}
use patch_board.Store.Execution.Request.Laws.{
  IsSound, exact_store_update_request_from_package-IsSound,
}
use patch_board.Store.Execution.Executor.{
  World, Execution, already_updated, run_failure, updated_with, ran_only, ran_and_verified,
  after_run, run_and_verify, not_run, if_ready, execute_request, refused_request, execute_built,
  execute_with_callbacks,
}
use patch_board.Store.Execution.Messages.{pre_action_text}

abbrev pub UpdateFound : World → StoreExactUpdateRequest → Bool → Type 0
UpdateFound world request answer =
    store_already_updated_before_action_result world.before_result.ok request world.before ≡ answer

abbrev pub PreChecked : World → StoreExactUpdateRequest → PreAction → Type 0
PreChecked world request p =
    validate_store_pre_action_snapshot world.before_result.ok request world.before ≡ p

abbrev pub is_ready : PreAction → Bool
is_ready PreAction.ready = true
is_ready _ = false

-- What is to be shown of each of the five ways: the request is refused, the package is already
-- updated, the check before the action fails, the run fails, or the run is accepted and verified.
pub record Ways {ℓ} (limits : TextLimits) (world : World) (pkg : Package) (P : Execution → Type ℓ)
    : Type ℓ where
  pub when_refused : (err : String) → P (refused_request limits err)
  pub when_updated :
      (request : StoreExactUpdateRequest)
      → IsSound world.surroundings pkg request
      → UpdateFound world request true
      → P (not_run limits world request already_updated)
  pub when_stopped :
      (request : StoreExactUpdateRequest) (p : PreAction)
      → is_ready p ≡ false
      → P (
          not_run limits world request
            (validation_command_result "store exact update" (pre_action_text p)))
  pub when_failed :
      (request : StoreExactUpdateRequest) (failure : CommandResult)
      → IsSound world.surroundings pkg request
      → UpdateFound world request false
      → PreChecked world request PreAction.ready
      → run_failure world.cancelled (updated_with limits world request) ≡ some failure
      → P (ran_only limits request failure)
  pub when_accepted :
      (request : StoreExactUpdateRequest)
      → IsSound world.surroundings pkg request
      → UpdateFound world request false
      → PreChecked world request PreAction.ready
      → run_failure world.cancelled (updated_with limits world request) ≡ none
      → P (ran_and_verified limits world request (updated_with limits world request))

module _ {ℓ} (limits : TextLimits) (world : World) (pkg : Package) (P : Execution → Type ℓ)
    (ways : Ways limits world pkg P) where
  run_way :
      (request : StoreExactUpdateRequest)
      → IsSound world.surroundings pkg request
      → UpdateFound world request false
      → PreChecked world request PreAction.ready
      → (o : Option CommandResult)
      → run_failure world.cancelled (updated_with limits world request) ≡ o
      → P (after_run limits world request (updated_with limits world request) o)
  run_way request sound n p none h = ways.when_accepted request sound n p h
  run_way request sound n p (some failure) h = ways.when_failed request failure sound n p h

  ready_way :
      (request : StoreExactUpdateRequest)
      → IsSound world.surroundings pkg request
      → UpdateFound world request false
      → (p : PreAction) → PreChecked world request p
      → P (if_ready limits world request p)
  unfolding run_and_verify
  ready_way request sound n PreAction.ready h =
      run_way request sound n h (run_failure world.cancelled (updated_with limits world request))
        refl
  ready_way request sound n PreAction.not_enumerated h =
      ways.when_stopped request PreAction.not_enumerated refl
  ready_way request sound n PreAction.wrong_identity h =
      ways.when_stopped request PreAction.wrong_identity refl
  ready_way request sound n PreAction.not_installed h =
      ways.when_stopped request PreAction.not_installed refl
  ready_way request sound n PreAction.not_healthy h =
      ways.when_stopped request PreAction.not_healthy refl
  ready_way request sound n PreAction.version_unknown h =
      ways.when_stopped request PreAction.version_unknown refl
  ready_way request sound n PreAction.version_changed h =
      ways.when_stopped request PreAction.version_changed refl

  request_way :
      (request : StoreExactUpdateRequest)
      → IsSound world.surroundings pkg request
      → P (execute_request limits world request)
  unfolding execute_request
  request_way request sound =
      let checked =
        validate_store_pre_action_snapshot world.before_result.ok request world.before in
      if-cases P
        (store_already_updated_before_action_result world.before_result.ok request world.before)
        (not_run limits world request already_updated) (if_ready limits world request checked)
        (λ h. ways.when_updated request sound h) (λ h. ready_way request sound h checked refl)

  built_way :
      (b : Built StoreExactUpdateRequest)
      → exact_store_update_request_from_package world.surroundings pkg ≡ b
      → P (execute_built limits world b)
  built_way (failed e) h = ways.when_refused (error_text world.surroundings.failure e)
  built_way (built request) h =
      request_way request
        (exact_store_update_request_from_package-IsSound world.surroundings pkg request h)

  -- What holds of all five ways holds of the execution.
  pub execute_with_callbacks-cases : P (execute_with_callbacks limits world pkg)
  unfolding execute_with_callbacks
  execute_with_callbacks-cases =
      built_way (exact_store_update_request_from_package world.surroundings pkg) refl
