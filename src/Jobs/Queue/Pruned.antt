-- ===== src/Jobs/Queue/Pruned.antt =====
-- What pruning and shutdown leave.
use mathlib.Core.List.{Memᴰ}
use patch_board.Common.{
  length, ◌≡◌, refl, ◌⊎◌, ◌↔◌, inl, inr, arith, String, Bool, true, false, not, ◌||◌, keep,
  mem-keep, mem-of-keep, mem-of-map, Bool-cases, leb,
}
use patch_board.Jobs.Status.{
  OperationJobStatus, is_queued, operation_job_complete, finish_queued_operation_job_cancellation,
}
use patch_board.Jobs.Scheduler.{OperationJobScheduler, operation_job_recent_history_limit}
use patch_board.Jobs.Queue.{prune, is_retained, shut_down, cancel_operation_jobs_for_shutdown}

kept_by : OperationJobScheduler → OperationJobStatus → Bool
kept_by s job = is_retained s job || not (operation_job_complete job)

prune-jobs :
    (s : OperationJobScheduler)
    → ((prune s).jobs ≡ s.jobs) ⊎ ((prune s).jobs ≡ keep (kept_by s) s.jobs)
unfolding prune kept_by
prune-jobs s = elim (Bool-cases (leb (length s.jobs) operation_job_recent_history_limit)) [
  | inl few ↦ inl (rw few refl)
  | inr many ↦ inr (rw many refl)
]

mem-of-prune :
    (s : OperationJobScheduler) (job : OperationJobStatus)
    → Memᴰ job (prune s).jobs
    → Memᴰ job s.jobs
mem-of-prune s job m = elim (prune-jobs s) [
  | inl e ↦ rw (← e) m
  | inr e ↦ (mem-of-keep (kept_by s) s.jobs (rw (← e) m)).0
]

-- Pruning neither drops nor adds a job that has not completed.
pub prune-keeps :
    (s : OperationJobScheduler) (job : OperationJobStatus)
    → operation_job_complete job ≡ false
    → Memᴰ job s.jobs ↔ Memᴰ job (prune s).jobs
unfolding kept_by
prune-keeps s job h = (keeps, mem-of-prune s job)
  where
    keeps : Memᴰ job s.jobs → Memᴰ job (prune s).jobs
    keeps m = elim (prune-jobs s) [
      | inl e ↦ rw e m
      | inr e ↦ rw e (mem-keep (kept_by s) s.jobs (ground (arith, h)) m)
    ]

shut_down-stops :
    (now : String) (job : OperationJobStatus)
    → (operation_job_complete (shut_down now job) ≡ true)
      ⊎ (((shut_down now job).cancel_requested ≡ true)
          × (is_queued (shut_down now job).state ≡ false))
unfolding finish_queued_operation_job_cancellation operation_job_complete
shut_down-stops now job = ground arith

-- After a shutdown every job has completed, or is asked to stop and does not wait in the queue.
pub cancel_operation_jobs_for_shutdown-stops :
    (now : String) (s : OperationJobScheduler) (job : OperationJobStatus)
    → Memᴰ job (cancel_operation_jobs_for_shutdown now s).jobs
    → (operation_job_complete job ≡ true)
      ⊎ ((job.cancel_requested ≡ true) × (is_queued job.state ≡ false))
unfolding cancel_operation_jobs_for_shutdown
cancel_operation_jobs_for_shutdown-stops now s job m =
    let (before, k, e) = mem-of-map (shut_down now) s.jobs (mem-of-prune _ job m) in
    rw e (shut_down-stops now before)
