-- ===== src/Jobs/Queue.antt =====
-- internal/updater/operation_job.go: the queue runner, cancellation, shutdown and pruning. A change of
-- a job by the package actions is a function, which mutateOperationJob takes. The order in which a
-- shutdown visits the jobs is that of the list; each visit changes its own job only.
pub mod Pruned
pub mod Outcome
use patch_board.Common.{
  ℕ, zero, suc, ◌+◌, String, Bool, true, false, not, ◌&&◌, ◌||◌, Option, none, some, List, [], ◌∷◌,
  ◌++◌, length, map, keep, any, leb, if◌then◌else◌,
}
use patch_board.Common.{◌==◌ as num_eq}
use patch_board.Common.Text.{nonempty}
use patch_board.Common.Dict.{contains}
use patch_board.Jobs.Status.{
  JobState, OperationJobStatus, is_queued, operation_job_complete,
  operation_job_status_has_failures, finish_queued_operation_job_cancellation,
}
use patch_board.Jobs.Scheduler.{
  OperationJobScheduler, operation_job_recent_history_limit, find_job, change_job, cancel_queued,
  pending_count,
}

abbrev pub holds_id : ℕ → List ℕ → Bool
holds_id id ids = any (λ j. num_eq id j) ids

-- The first loop of pruneLocked, from the last number down to 1: the jobs that have not completed, and
-- the latest completed job of each type.
unfoldable pub retained_from : List OperationJobStatus → List String → ℕ → List ℕ
unfolding find_job operation_job_complete contains
retained_from jobs types zero = []
retained_from jobs types (suc i) = elim (find_job (suc i) jobs) [
  | none ↦ retained_from jobs types i
  | some job ↦ elim (operation_job_complete job) [
    | false ↦ suc i ∷ retained_from jobs types i
    | true ↦ elim (contains job.type types) [
      | true ↦ retained_from jobs types i
      | false ↦ suc i ∷ retained_from jobs (job.type ∷ types) i
    ]
  ]
]

-- The second loop: the most recent completed jobs, `left` at most.
unfoldable pub recent_from : List OperationJobStatus → ℕ → ℕ → List ℕ
unfolding find_job operation_job_complete
recent_from jobs left zero = []
recent_from jobs zero (suc i) = []
recent_from jobs (suc left) (suc i) = elim (find_job (suc i) jobs) [
  | none ↦ recent_from jobs (suc left) i
  | some job ↦ elim (operation_job_complete job) [
    | false ↦ recent_from jobs (suc left) i
    | true ↦ suc i ∷ recent_from jobs left i
  ]
]

abbrev pub is_retained : OperationJobScheduler → OperationJobStatus → Bool
is_retained s job =
    holds_id job.job_id (retained_from s.jobs [] s.sequence)
    || holds_id job.job_id (recent_from s.jobs operation_job_recent_history_limit s.sequence)

unfoldable pub filter_existing_operation_job_queue_ids : List ℕ → List OperationJobStatus → List ℕ
unfolding keep find_job
filter_existing_operation_job_queue_ids queue jobs = keep (λ id. exists (find_job id jobs)) queue
  where
    exists : Option OperationJobStatus → Bool
    exists none = false
    exists (some job) = true

-- The revision grows when a job or a queued ID is dropped.
unfoldable pub prune : OperationJobScheduler → OperationJobScheduler
unfolding retained_from recent_from filter_existing_operation_job_queue_ids keep any
prune s =
    let kept = keep (λ job. is_retained s job || not (operation_job_complete job)) s.jobs in
    let queue = filter_existing_operation_job_queue_ids s.queue kept in
    let same = num_eq (length kept) (length s.jobs) && num_eq (length queue) (length s.queue) in
    if leb (length s.jobs) operation_job_recent_history_limit then s else record s {
      jobs = kept;
      queue = queue;
      revision = if same then s.revision else suc s.revision;
    }

abbrev pub start_running : String → OperationJobStatus → OperationJobStatus
start_running now job = record job { state = JobState.running; is_running = true; started_at = now }

-- The first locked section of runOperationJobQueue: the job that is started, if any. `done` tells
-- whether the runner's context has ended.
unfoldable pub take_next :
    Bool → String → List ℕ → OperationJobScheduler → Option ℕ × OperationJobScheduler
unfolding find_job change_job finish_queued_operation_job_cancellation
take_next done now [] s = (none, record s { queue = []; active = false })
take_next done now (id ∷ rest) s = elim (find_job id s.jobs) [
  | none ↦ take_next done now rest s
  | some job ↦ elim (job.cancel_requested) [
    | true ↦
        take_next done now rest (change_job id (finish_queued_operation_job_cancellation now "") s)
    | false ↦ elim done [
      | true ↦
          take_next done now rest (change_job id (cancel_queued now "Job cancelled by shutdown.") s)
      | false ↦ (some id, change_job id (start_running now) (record s { queue = rest }))
    ]
  ]
]

unfoldable pub run_next : Bool → String → OperationJobScheduler → Option ℕ × OperationJobScheduler
unfolding take_next
run_next done now s = take_next done now s.queue s

-- What a panic of the job's function leaves in its status.
abbrev pub panicked : String → OperationJobStatus → OperationJobStatus
panicked diagnostic job = record job {
  state = JobState.failed;
  error = diagnostic;
  notice = "Job failed because an internal error occurred.";
  result = some false;
}

abbrev pub is_active : JobState → Bool
is_active JobState.running = true
is_active JobState.refreshing = true
is_active _ = false

-- The second locked section of runOperationJobQueue, after the job's function has returned.
unfoldable pub finished : String → OperationJobStatus → OperationJobStatus
unfolding operation_job_status_has_failures
finished now job =
    let at = (if nonempty job.finished_at then job.finished_at else now) in
    if not (is_active job.state)
    then record job { is_running = false; finished_at = at }
    else if job.cancel_requested
    then record job {
      state = JobState.cancelled;
      notice = "Job cancelled.";
      is_running = false;
      finished_at = at;
    }
    else if nonempty job.error || operation_job_status_has_failures job
    then record job { state = JobState.failed; is_running = false; finished_at = at }
    else record job { state = JobState.succeeded; is_running = false; finished_at = at }

unfoldable pub finish_job : String → ℕ → OperationJobScheduler → OperationJobScheduler
unfolding change_job finished prune
finish_job now id s = prune (change_job id (finished now) s)

unfoldable pub mutate_operation_job :
    ℕ → (OperationJobStatus → OperationJobStatus) → OperationJobScheduler → OperationJobScheduler
unfolding change_job
mutate_operation_job id change s = change_job id change s

abbrev pub cancelling : String → OperationJobStatus → OperationJobStatus
cancelling now job =
    let asked = record job { cancel_requested = true; notice = "Cancelling job..." } in
    if is_queued job.state
    then finish_queued_operation_job_cancellation now "Job cancelled." asked
    else asked

abbrev cancel_found :
    String → ℕ → Option OperationJobStatus → OperationJobScheduler → OperationJobScheduler
cancel_found now id none s = s
cancel_found now id (some job) s =
    prune (if is_queued job.state || job.is_running then change_job id (cancelling now) s else s)

-- Whether the job was found is `find_job id s.jobs`.
unfoldable pub cancel_operation_job : String → ℕ → OperationJobScheduler → OperationJobScheduler
unfolding find_job change_job prune finish_queued_operation_job_cancellation
cancel_operation_job now id s = cancel_found now id (find_job id s.jobs) s

abbrev pub shut_down : String → OperationJobStatus → OperationJobStatus
shut_down now job =
    let asked = record job { cancel_requested = true; notice = "Job cancelled by shutdown." } in
    let changed =
      (if is_queued job.state
        then finish_queued_operation_job_cancellation now "Job cancelled by shutdown." asked
        else asked) in
    if operation_job_complete job then job else record changed { revision = suc job.revision }

abbrev unfinished : List OperationJobStatus → ℕ
unfinished jobs = length (keep (λ job. not (operation_job_complete job)) jobs)

unfoldable pub cancel_operation_jobs_for_shutdown :
    String → OperationJobScheduler → OperationJobScheduler
unfolding prune finish_queued_operation_job_cancellation keep operation_job_complete
cancel_operation_jobs_for_shutdown now s =
    prune
      (record s { jobs = map (shut_down now) s.jobs; revision = s.revision + unfinished s.jobs })

-- The jobs that stand under the numbers up to the given one, in order.
unfoldable pub jobs_up_to : List OperationJobStatus → ℕ → List OperationJobStatus
unfolding find_job
jobs_up_to jobs zero = []
jobs_up_to jobs (suc i) = with_job (find_job (suc i) jobs) (jobs_up_to jobs i)
  where
    with_job : Option OperationJobStatus → List OperationJobStatus → List OperationJobStatus
    with_job none earlier = earlier
    with_job (some job) earlier = earlier ++ (job ∷ [])

unfoldable pub operation_jobs_snapshot_with_revision :
    OperationJobScheduler → (List OperationJobStatus × (ℕ × ℕ)) × OperationJobScheduler
unfolding prune jobs_up_to pending_count
operation_jobs_snapshot_with_revision s =
    let pruned = prune s in
    ((jobs_up_to pruned.jobs pruned.sequence, (pruned.revision, pending_count pruned)), pruned)

abbrev wanted : List String → OperationJobStatus → Bool
wanted [] job = true
wanted (type ∷ types) job = contains job.type (type ∷ types)

unfoldable pub latest_from : List String → List OperationJobStatus → ℕ → Option OperationJobStatus
unfolding find_job contains
latest_from types jobs zero = none
latest_from types jobs (suc i) = elim (find_job (suc i) jobs) [
  | none ↦ latest_from types jobs i
  | some job ↦ elim (wanted types job) [ true ↦ some job | false ↦ latest_from types jobs i ]
]

-- none is the zero status.
unfoldable pub latest_operation_job_status :
    List String → OperationJobScheduler → Option OperationJobStatus
unfolding latest_from
latest_operation_job_status types s = latest_from types s.jobs s.sequence
