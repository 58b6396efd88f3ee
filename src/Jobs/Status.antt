-- ===== src/Jobs/Status.antt =====
-- internal/updater/operation_job.go: the status of a job and the tests on it. The states are those of
-- the constants, which are the only ones that the code sets. Of a CommandResult the tests read `OK`
-- only. The ID "job-n" is n, and the empty ID is 0. The packages, the scan result and the progress of
-- the job, which the scheduler does not read, are left out; so is the compaction of a finished job,
-- which shortens texts only.
use patch_board.Common.{
  ℕ, String, Bool, true, false, not, ◌&&◌, ◌||◌, Option, some, List, map, any, keep, is_empty,
  if◌then◌else◌,
}
use patch_board.Common.Text.{str_eq, nonempty, trim_space}
use patch_board.Common.Dict.{contains}

pub data JobState : Type 0 where
  queued starting running accepted verifying refreshing : JobState
  succeeded accepted_not_verified failed cancelled : JobState

pub record OperationJobStatus : Type 0 where
  pub job_id : ℕ
  pub revision : ℕ
  pub type : String
  pub mode : String
  pub state : JobState
  pub is_running : Bool
  pub queue_depth : ℕ
  pub cancel_requested : Bool
  pub package_keys : List String
  pub total : ℕ
  pub results : List Bool
  pub result : Option Bool
  pub started_at : String
  pub finished_at : String
  pub notice : String
  pub error : String

abbrev pub is_queued : JobState → Bool
is_queued queued = true
is_queued _ = false

abbrev pub is_unfinished : JobState → Bool
is_unfinished queued = true
is_unfinished running = true
is_unfinished refreshing = true
is_unfinished _ = false

unfoldable pub operation_job_complete : OperationJobStatus → Bool
operation_job_complete status = not status.is_running && not (is_unfinished status.state)

unfoldable pub operation_job_type_dedupes_by_type : String → Bool
operation_job_type_dedupes_by_type type =
    str_eq type "scan" || str_eq type "inventory-refresh" || str_eq type "app-self-update"

unfoldable pub operation_job_type_dedupes_by_package : String → Bool
operation_job_type_dedupes_by_package type =
    str_eq type "install" || str_eq type "update" || str_eq type "update-all"

unfoldable pub package_keys_overlap : List String → List String → Bool
unfolding keep any contains
package_keys_overlap left right =
    let seen = keep nonempty (map trim_space left) in
    if is_empty left || is_empty right
    then false
    else any (λ key. contains (trim_space key) seen) right

abbrev result_refused : Option Bool → Bool
result_refused (some false) = true
result_refused _ = false

unfoldable pub operation_job_status_has_failures : OperationJobStatus → Bool
unfolding any
operation_job_status_has_failures status =
    if result_refused status.result then true else any (λ ok. not ok) status.results

unfoldable pub finish_queued_operation_job_cancellation :
    String → String → OperationJobStatus → OperationJobStatus
finish_queued_operation_job_cancellation now notice status = record status {
  state = cancelled;
  is_running = false;
  notice = if nonempty notice then notice else status.notice;
  finished_at = now;
}
