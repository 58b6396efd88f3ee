-- ===== src/Jobs/Queue/Outcome.antt =====
-- How a job ends.
use patch_board.Common.{◌≡◌, ◌↔◌, ◌⊎◌, arith, String, true, false}
use patch_board.Common.Text.{nonempty}
use patch_board.Jobs.Status.{
  JobState, OperationJobStatus, is_queued, operation_job_complete,
  operation_job_status_has_failures,
}
use patch_board.Jobs.Queue.{finished}

-- The job's function has left the job at work.
abbrev pub IsAtWork : JobState → Type 0
IsAtWork s = (s ≡ JobState.running) ⊎ (s ≡ JobState.refreshing)

abbrev pub IsClean : OperationJobStatus → Type 0
IsClean job = (nonempty job.error ≡ false) × (operation_job_status_has_failures job ≡ false)

-- What becomes of a job whose function has returned.
pub record IsEnded (job after : OperationJobStatus) : Type 0 where
  pub stopped : after.is_running ≡ false
  pub dated : nonempty after.finished_at ≡ true
  pub completed : is_queued job.state ≡ false → operation_job_complete after ≡ true
  pub succeeds : (after.state ≡ JobState.succeeded) ↔ (
      (job.state ≡ JobState.succeeded)
      ⊎ (IsAtWork job.state × (job.cancel_requested ≡ false) × IsClean job))
  pub is_cancelled :
      (after.state ≡ JobState.cancelled)
      ↔ ((job.state ≡ JobState.cancelled) ⊎ (IsAtWork job.state × (job.cancel_requested ≡ true)))
  pub fails : (after.state ≡ JobState.failed) ↔ (
      (job.state ≡ JobState.failed)
      ⊎ (IsAtWork job.state
          × (job.cancel_requested ≡ false)
          × ((nonempty job.error ≡ true) ⊎ (operation_job_status_has_failures job ≡ true))))

-- When the function of a job has returned, the job does not run any more and has a time of completion,
-- and unless it is still queued it is completed. It succeeds, is cancelled or fails exactly if the
-- function has left it so, or has left it running or refreshing: then it is cancelled if that was
-- asked for, fails if there is an error or a failed result, and succeeds in all other cases.
pub finished-IsEnded :
    (now : String) (job : OperationJobStatus) → nonempty now ≡ true → IsEnded job (finished now job)
unfolding finished operation_job_complete
finished-IsEnded now job h = record {
  stopped = ground arith;
  dated = ground arith;
  completed = λ q. ground arith;
  succeeds = ground arith;
  is_cancelled = ground arith;
  fails = ground arith;
}
