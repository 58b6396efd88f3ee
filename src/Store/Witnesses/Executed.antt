-- ===== src/Store/Witnesses/Executed.antt =====
-- Concrete inputs for the laws of the executor: an update that the second round's enumeration proves.
use patch_board.Common.{◌≡◌, ◌⊎◌, refl, arith, true, false, Option, none, some, [], ◌∷◌, any}
use patch_board.Commands.Result.{CommandResult, TextLimits}
use patch_board.Packages.Model.{Package}
use patch_board.Store.Authorize.{StoreExactUpdateRequest, StoreExactCatalogResult, Loaded}
use patch_board.Store.Execution.Request.Laws.{IsSound}
use patch_board.Store.Execution.Verify.{Round, Wake, ContextError}
use patch_board.Store.Execution.Verify.Laws.{is_done}
use patch_board.Store.Execution.Executor.{World, execute_with_callbacks}
use patch_board.Store.Execution.Executor.Verified.{
  IsNewer, IsReady, IsProved, IsExcused, execute_with_callbacks-IsProved,
}
use patch_board.Store.Execution.Executor.Codes.{
  RunsOnce, Coded, execute_with_callbacks-runs, execute_with_callbacks-returns,
  execute_with_callbacks-code,
}
use patch_board.Packages.Retry.{normalize_package_action_result}
use patch_board.Store.Witnesses.Published.{snapshot, before, after}

abbrev store_app : Package
store_app = record {
  key = "store:Acme.App_1a";
  manager = "store";
  id = "Acme.App_1a";
  name = "App";
  version = "1.0";
  available_version = "1.2";
  update_available = true;
  update_supported = true;
  unknown_version = false;
  pinned = false;
  source = "native-appx";
  match = "";
  action_backend = "";
  update_state = "Available";
  observed_at = "";
  stale = false;
  scan_id = "scan-7";
  exact_action_target_available = true;
  installed_package_family_name = "Acme.App_1a";
  store_product_id = "9NBLGGH4NNS1";
  store_update_id = "";
  installed_version = "1.0";
  offered_version = "1.2";
  allow_unknown_version_update = false;
  allow_pinned_update = false;
  preference_eligible = false;
  can_update_now = false;
  cannot_update_reason = "";
  exact_target_kind = "none";
}

abbrev whole : TextLimits
whole = record { truncate_command_field = λ n s. s; bound_command_text = λ n s. s }

abbrev ran_well : CommandResult
ran_well = record { ok = true; code = 0; stdout = ""; stderr = ""; command = "winget upgrade" }

abbrev enumerated_well : CommandResult
enumerated_well = record { ok = true; code = 0; stdout = ""; stderr = ""; command = "inventory" }

abbrev still_offered : StoreExactCatalogResult
still_offered = record {
  authoritative = true;
  offer_available = true;
  installed_healthy = true;
  offered_version = "1.2";
  diagnostics = "";
}

abbrev first_round : Round
first_round = record {
  snapshot = before;
  snapshot_result = enumerated_well;
  catalog = still_offered;
  catalog_result = enumerated_well;
  wake = Wake.tick;
}

abbrev second_round : Round
second_round = record first_round { snapshot = after }

abbrev last_round : Round
last_round = record first_round { wake = Wake.done ContextError.deadline_exceeded }

abbrev world : World
world = record {
  surroundings = record {
    user_sid = some "S-1";
    winget_available = true;
    store_available = true;
    loaded = Loaded.published snapshot;
    now = 300;
    failure = "";
  };
  before = before;
  before_result = enumerated_well;
  subscription_error = none;
  started_at = 301;
  run_store_update = λ request. ran_well;
  cancelled = false;
  rounds = first_round ∷ second_round ∷ last_round ∷ [];
}

result_of : Option CommandResult → CommandResult
result_of none = ran_well
result_of (some r) = r

abbrev outcome : CommandResult
outcome = result_of (execute_with_callbacks whole world store_app).result

returned : (execute_with_callbacks whole world store_app).result ≡ some outcome
unfolding execute_with_callbacks patch_board.Common.Text.equal_fold
    patch_board.Store.Model.looks_like_store_product_id patch_board.Store.Model.equal
    patch_board.Store.Freshness.evaluate_published_store_assessment_freshness
    patch_board.Store.Freshness.stale_store_evidence_time_reason
    patch_board.Store.Freshness.store_assessment_version_known
    patch_board.Store.Versions.parse_store_package_version patch_board.Store.Versions.compare_parts
    result_of
returned = refl

outcome_well : outcome.ok ≡ true
unfolding execute_with_callbacks result_of patch_board.Common.Text.equal_fold
    patch_board.Store.Model.looks_like_store_product_id patch_board.Store.Model.equal
    patch_board.Store.Freshness.evaluate_published_store_assessment_freshness
    patch_board.Store.Freshness.stale_store_evidence_time_reason
    patch_board.Store.Freshness.store_assessment_version_known
    patch_board.Store.Versions.parse_store_package_version patch_board.Store.Versions.compare_parts
outcome_well = refl

execute_with_callbacks-IsProved_example :
    (request : StoreExactUpdateRequest) × IsSound world.surroundings store_app request
    × (IsNewer world request
        ⊎ (IsProved world request ⊎ (IsReady world request × IsExcused world request)))
execute_with_callbacks-IsProved_example =
    execute_with_callbacks-IsProved whole world store_app outcome returned outcome_well

execute_with_callbacks-runs_example :
    RunsOnce world store_app (execute_with_callbacks whole world store_app)
execute_with_callbacks-runs_example = execute_with_callbacks-runs whole world store_app

ends : any is_done world.rounds ≡ true
unfolding any
ends = refl

execute_with_callbacks-returns_example :
    (r : CommandResult) × ((execute_with_callbacks whole world store_app).result ≡ some r)
execute_with_callbacks-returns_example = execute_with_callbacks-returns whole world store_app ends

execute_with_callbacks-code_example :
    Coded whole world (execute_with_callbacks whole world store_app) outcome
execute_with_callbacks-code_example =
    execute_with_callbacks-code whole world store_app outcome returned

-- What the runner's results are normalised to, for a cancelled command that reports an installation.
abbrev cancelled_late : CommandResult
cancelled_late = record ran_well { ok = false; code = 130; stdout = "Successfully installed" }

excused_keeps_code :
    normalize_package_action_result "store" cancelled_late ≡ record cancelled_late { ok = true }
unfolding normalize_package_action_result patch_board.Common.Text.to_lower
excused_keeps_code = refl
