-- ===== src/Jobs/Witnesses.antt =====
-- Concrete inputs for the laws of the job scheduler.
use mathlib.Core.List.{Memᴰ}
use patch_board.Common.{
  ◌+◌, length, ◌≤◌, ◌≡◌, ◌↔◌, ◌⊎◌, refl, arith, Bool, true, false, none, some, List, [], ◌∷◌,
}
use patch_board.Common.Text.{nonempty}
use patch_board.Jobs.Status.{
  JobState, OperationJobStatus, is_queued, operation_job_complete,
  operation_job_status_has_failures,
}
use patch_board.Jobs.Scheduler.{
  OperationJobScheduler, JobRequest, max_pending_operation_jobs, find_job, pending_count,
  start_operation_job, started, queued_job,
}
use patch_board.Jobs.Scheduler.Admission.{IsCompatible, start_operation_job-IsCompatible}
use patch_board.Jobs.Queue.{prune, finished, cancel_operation_jobs_for_shutdown}
use patch_board.Jobs.Queue.Pruned.{prune-keeps, cancel_operation_jobs_for_shutdown-stops}
use patch_board.Jobs.Queue.Outcome.{IsEnded, finished-IsEnded}
use patch_board.Jobs.Runs.{Step, idle, Reachable, Reachable-pending_count}
use patch_board.Commands.Result.{CommandResult}
use patch_board.Packages.Model.{Package, no_package}
use patch_board.Jobs.Batch.{
  UpdateResult, ElevatedPackageUpdateBatchCapability, package_eligible_for_elevated_update_batch,
  plan_elevated_package_update_batch, package_update_queue_stop_reason,
}
use patch_board.Jobs.Batch.Laws.{
  plan_elevated_package_update_batch-deals, plan_elevated_package_update_batch-eligible,
}

abbrev running_job : OperationJobStatus
running_job = record {
  job_id = 1;
  revision = 2;
  type = "update";
  mode = "";
  state = JobState.running;
  is_running = true;
  queue_depth = 1;
  cancel_requested = false;
  package_keys = "winget:a" ∷ [];
  total = 1;
  results = [];
  result = none;
  started_at = "10:00";
  finished_at = "";
  notice = "";
  error = "";
}

abbrev busy : OperationJobScheduler
busy = record { jobs = running_job ∷ []; queue = []; sequence = 1; revision = 3; active = true }

abbrev request : JobRequest
request = record { type = "update"; mode = ""; total = 1; package_keys = "winget:b" ∷ [] }

request_started :
    (start_operation_job false true "10:01" request busy).0 ≡ started (queued_job request busy)
unfolding start_operation_job operation_job_complete
    patch_board.Jobs.Status.operation_job_type_dedupes_by_type
    patch_board.Jobs.Status.operation_job_type_dedupes_by_package
    patch_board.Jobs.Status.package_keys_overlap patch_board.Common.Text.trim_space
request_started = refl

running_found : find_job 1 busy.jobs ≡ some running_job
unfolding find_job
running_found = refl

running_incomplete : operation_job_complete running_job ≡ false
unfolding operation_job_complete
running_incomplete = refl

start_operation_job-IsCompatible_example : IsCompatible request running_job
start_operation_job-IsCompatible_example =
    start_operation_job-IsCompatible false true "10:01" request busy (queued_job request busy)
      request_started 1 running_job (omega arith) (omega arith) running_found running_incomplete

abbrev first_queued : OperationJobScheduler
first_queued = (start_operation_job false true "10:00" request idle).1

first_queued-Reachable : Reachable first_queued
first_queued-Reachable =
    Reachable.after idle first_queued Reachable.at_start
      (Step.start false true "10:00" request idle)

first_queued-bound : pending_count first_queued ≤ max_pending_operation_jobs
unfolding pending_count start_operation_job operation_job_complete
first_queued-bound = omega arith

Reachable-pending_count_example :
    pending_count (start_operation_job false true "10:01" request first_queued).1
    ≤ max_pending_operation_jobs
Reachable-pending_count_example =
    Reachable-pending_count first_queued first_queued-Reachable first_queued-bound false true
      "10:01" request

prune-keeps_example : Memᴰ running_job busy.jobs ↔ Memᴰ running_job (prune busy).jobs
prune-keeps_example = prune-keeps busy running_job running_incomplete

abbrev stopped_job : OperationJobStatus
stopped_job = record running_job {
  revision = 3;
  cancel_requested = true;
  notice = "Job cancelled by shutdown.";
}

stopped_listed : Memᴰ stopped_job (cancel_operation_jobs_for_shutdown "10:02" busy).jobs
unfolding cancel_operation_jobs_for_shutdown
stopped_listed = Memᴰ.head refl

cancel_operation_jobs_for_shutdown-stops_example :
    (operation_job_complete stopped_job ≡ true)
    ⊎ ((stopped_job.cancel_requested ≡ true) × (is_queued stopped_job.state ≡ false))
cancel_operation_jobs_for_shutdown-stops_example =
    cancel_operation_jobs_for_shutdown-stops "10:02" busy stopped_job stopped_listed

finished-IsEnded_example : IsEnded running_job (finished "10:02" running_job)
finished-IsEnded_example = finished-IsEnded "10:02" running_job refl

abbrev firefox : Package
firefox = record no_package { key = "choco:firefox"; manager = "choco"; id = "firefox" }

abbrev notes : Package
notes = record no_package { key = "store:notes"; manager = "store"; id = "notes" }

abbrev packages : List Package
packages = firefox ∷ notes ∷ []

abbrev elevated : ElevatedPackageUpdateBatchCapability
elevated = record { requires_elevation = true; same_user_elevation_available = true }

abbrev eligible : Package → Bool
eligible p = package_eligible_for_elevated_update_batch p elevated

plan_elevated_package_update_batch-deals_example :
    (length (plan_elevated_package_update_batch packages eligible).0
        + length (plan_elevated_package_update_batch packages eligible).1
      ≡ length packages)
    × (Memᴰ notes packages ↔ (
        Memᴰ notes (plan_elevated_package_update_batch packages eligible).0
        ⊎ Memᴰ notes (plan_elevated_package_update_batch packages eligible).1))
plan_elevated_package_update_batch-deals_example =
    plan_elevated_package_update_batch-deals packages eligible notes

firefox_planned : Memᴰ firefox (plan_elevated_package_update_batch packages eligible).0
unfolding plan_elevated_package_update_batch package_eligible_for_elevated_update_batch
firefox_planned = Memᴰ.head refl

plan_elevated_package_update_batch-eligible_example :
    Memᴰ firefox (plan_elevated_package_update_batch packages eligible).0 ↔ (
      (2 ≤ length packages)
      × Memᴰ firefox packages
      × (elevated.requires_elevation ≡ true)
      × ((firefox.manager ≡ "choco")
          ⊎ ((firefox.manager ≡ "winget") × (elevated.same_user_elevation_available ≡ true))))
plan_elevated_package_update_batch-eligible_example =
    plan_elevated_package_update_batch-eligible packages elevated firefox

abbrev timed_out : CommandResult
timed_out = record { ok = false; code = 124; stdout = ""; stderr = ""; command = "update" }

stopped : nonempty (package_update_queue_stop_reason timed_out) ≡ true
unfolding package_update_queue_stop_reason
stopped = refl

abbrev reported : List UpdateResult
reported = record { key = "choco:firefox"; result = timed_out } ∷ []
