-- ===== src/Jobs/Runs.antt =====
-- internal/updater/operation_job.go: the runs of the scheduler. Its lock makes every section one step;
-- a run is any sequence of steps, so it covers every interleaving of requests, the runner and jobs.
use mathlib.Core.List.{Memᴰ}
use patch_board.Common.{
  ℕ, suc, ◌≤◌, ◌≡◌, ◌⊎◌, inl, inr, arith, String, Bool, true, false, ◌||◌, Option-cases, Bool-cases,
  List, [], ◌∷◌, ◌++◌, length, mem-of-keep, leb, if◌then◌else◌,
}
use patch_board.Jobs.Status.{
  OperationJobStatus, is_queued, finish_queued_operation_job_cancellation,
}
use patch_board.Jobs.Scheduler.{
  OperationJobScheduler, JobRequest, find_job, change_job, duplicate_status, enqueue, cancel_queued,
  operation_job_recent_history_limit, start_operation_job, max_pending_operation_jobs,
  pending_count,
}
use patch_board.Jobs.Scheduler.Admission.{pending_count-start_operation_job}
use patch_board.Jobs.Queue.{
  cancelling, prune, filter_existing_operation_job_queue_ids, take_next, run_next, finish_job,
  mutate_operation_job, cancel_operation_job, cancel_operation_jobs_for_shutdown,
}

pub data Step : OperationJobScheduler → OperationJobScheduler → Type 0 where
  start :
      (down background : Bool) (now : String) (request : JobRequest) (s : OperationJobScheduler)
      → Step s (start_operation_job down background now request s).1
  next : (done : Bool) (now : String) (s : OperationJobScheduler) → Step s (run_next done now s).1
  finish : (now : String) (id : ℕ) (s : OperationJobScheduler) → Step s (finish_job now id s)
  mutate :
      (id : ℕ) (change : OperationJobStatus → OperationJobStatus) (s : OperationJobScheduler)
      → Step s (mutate_operation_job id change s)
  cancel :
      (now : String) (id : ℕ) (s : OperationJobScheduler) → Step s (cancel_operation_job now id s)
  shutdown :
      (now : String) (s : OperationJobScheduler) → Step s (cancel_operation_jobs_for_shutdown now s)
  snapshot : (s : OperationJobScheduler) → Step s (prune s)

abbrev pub idle : OperationJobScheduler
idle = record { jobs = []; queue = []; sequence = 0; revision = 0; active = false }

pub data Reachable : OperationJobScheduler → Type 0 where
  at_start : Reachable idle
  after : (s t : OperationJobScheduler) → Reachable s → Step s t → Reachable t

-- Every queued ID has been given out.
abbrev pub IsNumbered : OperationJobScheduler → Type 0
IsNumbered s = (id : ℕ) → Memᴰ id s.queue → id ≤ s.sequence

change_job-IsNumbered :
    (k : ℕ) (change : OperationJobStatus → OperationJobStatus) (s : OperationJobScheduler)
    → IsNumbered s
    → IsNumbered (change_job k change s)
unfolding change_job
change_job-IsNumbered k change s numbered = numbered

mem-of-filter :
    (id : ℕ) (queue : List ℕ) (jobs : List OperationJobStatus)
    → Memᴰ id (filter_existing_operation_job_queue_ids queue jobs)
    → Memᴰ id queue
unfolding filter_existing_operation_job_queue_ids
mem-of-filter id queue jobs m = (mem-of-keep _ queue m).0

prune-IsNumbered : (s : OperationJobScheduler) → IsNumbered s → IsNumbered (prune s)
unfolding prune
prune-IsNumbered s numbered =
    elim (Bool-cases (leb (length s.jobs) operation_job_recent_history_limit)) [
      | inl few ↦ rw few numbered
      | inr many ↦ rw many (λ id m. numbered id (mem-of-filter id s.queue _ m))
    ]

mem-snoc : (x y : ℕ) (xs : List ℕ) → Memᴰ x (xs ++ (y ∷ [])) → Memᴰ x xs ⊎ (x ≡ y)
mem-snoc x y [] (Memᴰ.head e) = inr (ground arith)
mem-snoc x y [] (Memᴰ.tail m) = elim m [ ]
mem-snoc x y (z ∷ xs) (Memᴰ.head e) = inl (Memᴰ.head e)
mem-snoc x y (z ∷ xs) (Memᴰ.tail m) = elim (mem-snoc x y xs m) [
  | inl k ↦ inl (Memᴰ.tail k)
  | inr e ↦ inr e
]

enqueue-IsNumbered :
    (request : JobRequest) (s : OperationJobScheduler)
    → IsNumbered s
    → IsNumbered (enqueue request s)
unfolding enqueue
enqueue-IsNumbered request s numbered id m = elim (mem-snoc id (suc s.sequence) s.queue m) [
  | inl k ↦ let below = numbered id k in omega arith
  | inr e ↦ omega arith
]

start-IsNumbered :
    (down background : Bool) (now : String) (request : JobRequest) (s : OperationJobScheduler)
    → IsNumbered s
    → IsNumbered (start_operation_job down background now request s).1
unfolding start_operation_job
start-IsNumbered true background now request s numbered = numbered
start-IsNumbered false background now request s numbered =
    elim (Option-cases (duplicate_status request.type request.package_keys s.jobs s.sequence)) [
      | inr (refusal, e) ↦ rw e numbered
      | inl e ↦ rw e (elim (Bool-cases (leb max_pending_operation_jobs (pending_count s))) [
        | inl full ↦ rw full numbered
        | inr room ↦ rw room (elim (Bool-cases (s.active || background)) [
          | inl runs ↦ rw runs (enqueue-IsNumbered request s numbered)
          | inr stays ↦ rw stays (
              change_job-IsNumbered (suc s.sequence)
                (cancel_queued now "Job cancelled by shutdown.")
                (record (enqueue request s) { active = false })
                (enqueue-IsNumbered request s numbered))
        ])
      ])
    ]

take_next-IsNumbered :
    (done : Bool) (now : String) (queue : List ℕ) (s : OperationJobScheduler)
    → ((id : ℕ) → Memᴰ id queue → id ≤ s.sequence)
    → IsNumbered (take_next done now queue s).1
unfolding take_next change_job
take_next-IsNumbered done now [] s numbered = numbered
take_next-IsNumbered done now (id ∷ rest) s numbered =
    let later = take_next-IsNumbered done now rest in
    let below : (j : ℕ) → Memᴰ j rest → j ≤ s.sequence = λ j m. numbered j (Memᴰ.tail m) in
    elim (Option-cases (find_job id s.jobs)) [
      | inl e ↦ rw (e, take_next) (later s below)
      | inr (job, e) ↦
          rw (e, take_next)
            (elim (Bool-cases job.cancel_requested) [
              | inl t ↦
                  rw t (
                    later (change_job id (finish_queued_operation_job_cancellation now "") s) below)
              | inr f ↦ rw f (elim (Bool-cases done) [
                | inl ended ↦
                    rw ended (
                      later (change_job id (cancel_queued now "Job cancelled by shutdown.") s)
                        below)
                | inr live ↦ rw live below
              ])
            ])
    ]

cancel-IsNumbered :
    (now : String) (id : ℕ) (s : OperationJobScheduler)
    → IsNumbered s
    → IsNumbered (cancel_operation_job now id s)
unfolding cancel_operation_job
cancel-IsNumbered now id s numbered = elim (Option-cases (find_job id s.jobs)) [
  | inl e ↦ rw e numbered
  | inr (job, e) ↦ rw e (prune-IsNumbered _ (unless_done job))
]
  where
    unless_done :
        (job : OperationJobStatus)
        → IsNumbered
            (if is_queued job.state || job.is_running then change_job id (cancelling now) s else s)
    unless_done job = elim (Bool-cases (is_queued job.state || job.is_running)) [
      | inl t ↦ rw t (change_job-IsNumbered id (cancelling now) s numbered)
      | inr f ↦ rw f numbered
    ]

Step-IsNumbered : (s t : OperationJobScheduler) → Step s t → IsNumbered s → IsNumbered t
unfolding run_next finish_job mutate_operation_job cancel_operation_jobs_for_shutdown
Step-IsNumbered s t (start down background now request _) numbered =
    start-IsNumbered down background now request s numbered
Step-IsNumbered s t (next done now _) numbered = take_next-IsNumbered done now s.queue s numbered
Step-IsNumbered s t (finish now id _) numbered = prune-IsNumbered _ numbered
Step-IsNumbered s t (mutate id change _) numbered = numbered
Step-IsNumbered s t (cancel now id _) numbered = cancel-IsNumbered now id s numbered
Step-IsNumbered s t (shutdown now _) numbered = prune-IsNumbered _ numbered
Step-IsNumbered s t (snapshot _) numbered = prune-IsNumbered s numbered

-- In every state that a run of the scheduler reaches, however its sections interleave, the queued IDs
-- have been given out: the next job's ID is not in the queue.
Reachable-IsNumbered : (s : OperationJobScheduler) → Reachable s → IsNumbered s
Reachable-IsNumbered s at_start id m = elim m [ ]
Reachable-IsNumbered s (after r _ reach step) id m =
    Step-IsNumbered r s step (Reachable-IsNumbered r reach) id m

-- In every state that a run reaches with at most 25 pending jobs, starting a job leaves at most 25.
pub Reachable-pending_count :
    (s : OperationJobScheduler)
    → Reachable s
    → pending_count s ≤ max_pending_operation_jobs
    → (down background : Bool) (now : String) (request : JobRequest)
    → pending_count (start_operation_job down background now request s).1
      ≤ max_pending_operation_jobs
Reachable-pending_count s reach bound down background now request =
    pending_count-start_operation_job down background now request s (Reachable-IsNumbered s reach)
      bound
