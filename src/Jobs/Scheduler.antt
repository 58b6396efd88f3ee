-- ===== src/Jobs/Scheduler.antt =====
-- internal/updater/operation_job.go: the scheduler, whose locked sections are the operations here.
-- `jobs` is the map from IDs to jobs, in which every job stands under its own ID. `now` is what utcNow
-- returns.
pub mod Admission
use patch_board.Common.{
  ℕ, zero, suc, ◌+◌, String, Bool, true, false, not, ◌&&◌, ◌||◌, Option, none, some, List, [], ◌∷◌,
  ◌++◌, length, map, keep, leb, if◌then◌else◌,
}
use patch_board.Common.{◌==◌ as num_eq}
use patch_board.Common.Text.{str_eq}
use patch_board.Jobs.Status.{
  JobState, OperationJobStatus, operation_job_complete, operation_job_type_dedupes_by_type,
  operation_job_type_dedupes_by_package, package_keys_overlap,
  finish_queued_operation_job_cancellation,
}

abbrev pub operation_job_recent_history_limit : ℕ
operation_job_recent_history_limit = 25

abbrev pub max_pending_operation_jobs : ℕ
max_pending_operation_jobs = 25

pub record OperationJobScheduler : Type 0 where
  pub jobs : List OperationJobStatus
  pub queue : List ℕ
  pub sequence : ℕ
  pub revision : ℕ
  pub active : Bool

unfoldable pub find_job : ℕ → List OperationJobStatus → Option OperationJobStatus
find_job id [] = none
find_job id (job ∷ jobs) =
    let rest = find_job id jobs in if num_eq job.job_id id then some job else rest

-- A change of the job with the ID, with its revision and that of the scheduler.
abbrev pub change_in :
    ℕ → (OperationJobStatus → OperationJobStatus) → OperationJobStatus → OperationJobStatus
change_in id change job =
    if num_eq job.job_id id then record (change job) { revision = suc job.revision } else job

unfoldable pub change_job :
    ℕ → (OperationJobStatus → OperationJobStatus) → OperationJobScheduler → OperationJobScheduler
change_job id change s = record s {
  jobs = map (change_in id change) s.jobs;
  revision = suc s.revision;
}

-- Why a job is not started.
pub data Refusal : Type 0 where
  shutting_down queue_full : Refusal
  same_type same_package : ℕ → Refusal

pub data StartResult : Type 0 where
  rejected : Refusal → StartResult
  started : OperationJobStatus → StartResult

abbrev duplicate_of : String → List String → Option OperationJobStatus → Option Refusal
duplicate_of type keys none = none
duplicate_of type keys (some job) =
    if operation_job_complete job
    then none
    else if operation_job_type_dedupes_by_type type && str_eq job.type type
    then some (same_type job.job_id)
    else if operation_job_type_dedupes_by_package type
        && operation_job_type_dedupes_by_package job.type
        && package_keys_overlap keys job.package_keys
    then some (same_package job.job_id)
    else none

abbrev or_else : Option Refusal → Option Refusal → Option Refusal
or_else none later = later
or_else (some refusal) later = some refusal

-- The loop over the sequence numbers, from the last one down to 1.
unfoldable pub duplicate_status :
    String → List String → List OperationJobStatus → ℕ → Option Refusal
duplicate_status type keys jobs zero = none
duplicate_status type keys jobs (suc i) =
    or_else (duplicate_of type keys (find_job (suc i) jobs)) (duplicate_status type keys jobs i)

abbrev pub is_pending : Option OperationJobStatus → Bool
is_pending none = false
is_pending (some job) = not (operation_job_complete job)

unfoldable pub pending_count : OperationJobScheduler → ℕ
unfolding keep find_job
pending_count s = length (keep (λ id. is_pending (find_job id s.jobs)) s.queue)

-- What startOperationJob is given.
pub record JobRequest : Type 0 where
  pub type : String
  pub mode : String
  pub total : ℕ
  pub package_keys : List String

unfoldable pub queued_job : JobRequest → OperationJobScheduler → OperationJobStatus
queued_job request s = record {
  job_id = suc s.sequence;
  revision = 1;
  type = request.type;
  mode = request.mode;
  state = JobState.queued;
  is_running = false;
  queue_depth = length s.queue + 1;
  cancel_requested = false;
  package_keys = request.package_keys;
  total = request.total;
  results = [];
  result = none;
  started_at = "";
  finished_at = "";
  notice = "";
  error = "";
}

unfoldable pub enqueue : JobRequest → OperationJobScheduler → OperationJobScheduler
unfolding queued_job
enqueue request s = record s {
  jobs = queued_job request s ∷ s.jobs;
  queue = s.queue ++ (suc s.sequence ∷ []);
  sequence = suc s.sequence;
  revision = suc s.revision;
  active = true;
}

abbrev pub cancel_queued : String → String → OperationJobStatus → OperationJobStatus
cancel_queued now notice job =
    finish_queued_operation_job_cancellation now notice (record job { cancel_requested = true })

-- `down` is isShuttingDown. `background` is what startBackgroundWork returns; it is called only when
-- no queue runner is active.
unfoldable pub start_operation_job :
    Bool → Bool → String → JobRequest → OperationJobScheduler → StartResult × OperationJobScheduler
unfolding duplicate_status change_job enqueue queued_job pending_count
start_operation_job down background now request s =
    let next = enqueue request s in
    if down
    then (rejected shutting_down, s)
    else elim (duplicate_status request.type request.package_keys s.jobs s.sequence) [
      | some refusal ↦ (rejected refusal, s)
      | none ↦
          if leb max_pending_operation_jobs (pending_count s)
          then (rejected queue_full, s)
          else if s.active || background
          then (started (queued_job request s), next)
          else (
            started (queued_job request s),
            change_job (suc s.sequence) (cancel_queued now "Job cancelled by shutdown.")
                (record next { active = false }),
          )
    ]
