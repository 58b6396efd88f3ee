-- ===== src/Jobs/Scheduler/Admission.antt =====
-- Which jobs are admitted.
use mathlib.Core.List.{Memᴰ}
use patch_board.Common.{
  ℕ, zero, suc, ◌≤◌, ◌<◌, ◌≡◌, refl, sym, ap, ◌∙◌, inl, inr, arith, String, Bool, true, false,
  length, length-append, map, keep, keep-append, none, some, Option-cases, List, [], ◌∷◌,
  Bool-cases,
}
use patch_board.Common.{◌==◌ as num_eq}
use patch_board.Common.Text.{str_eq}
use patch_board.Jobs.Status.{
  OperationJobStatus, operation_job_complete, operation_job_type_dedupes_by_type,
  operation_job_type_dedupes_by_package, package_keys_overlap,
  finish_queued_operation_job_cancellation,
}
use patch_board.Jobs.Scheduler.{
  OperationJobScheduler, max_pending_operation_jobs, find_job, change_job, change_in,
  duplicate_status, duplicate_of, is_pending, pending_count, JobRequest, queued_job, enqueue,
  cancel_queued, start_operation_job, started,
}

-- The two jobs may be under way together.
abbrev pub IsCompatible : JobRequest → OperationJobStatus → Type 0
IsCompatible request job =
    (operation_job_type_dedupes_by_type request.type ≡ true → str_eq job.type request.type ≡ false)
    × (operation_job_type_dedupes_by_package request.type ≡ true
        → operation_job_type_dedupes_by_package job.type ≡ true
        → package_keys_overlap request.package_keys job.package_keys ≡ false)

duplicate_of-none :
    (request : JobRequest) (job : OperationJobStatus)
    → duplicate_of request.type request.package_keys (some job) ≡ none
    → operation_job_complete job ≡ false
    → IsCompatible request job
duplicate_of-none request job h live = (λ t. ground arith, λ t u. ground arith)

duplicate_status-none :
    (request : JobRequest) (jobs : List OperationJobStatus) (n i : ℕ) (job : OperationJobStatus)
    → duplicate_status request.type request.package_keys jobs n ≡ none
    → 0 < i
    → i ≤ n
    → find_job i jobs ≡ some job
    → operation_job_complete job ≡ false
    → IsCompatible request job
unfolding duplicate_status
duplicate_status-none request jobs zero i job h pos le found live = ground arith
duplicate_status-none request jobs (suc n) i job h pos le found live =
    elim (Bool-cases (num_eq i (suc n))) [
      | inl same ↦
          let e : i ≡ suc n = ground arith in
          duplicate_of-none request job
            (ap (duplicate_of request.type request.package_keys)
                (sym found ∙ ap (λ k. find_job k jobs) e)
              ∙ ground arith)
            live
      | inr other ↦
          duplicate_status-none request jobs n i job (ground arith) pos (ground arith) found live
    ]

-- If a job is started, no job that is under way is of the same type where the type admits one job
-- only, or works on a package of the new one where both work on packages.
pub start_operation_job-IsCompatible :
    (down background : Bool) (now : String) (request : JobRequest) (s : OperationJobScheduler)
    (new : OperationJobStatus)
    → (start_operation_job down background now request s).0 ≡ started new
    → (i : ℕ) (job : OperationJobStatus) → 0 < i
    → i ≤ s.sequence
    → find_job i s.jobs ≡ some job
    → operation_job_complete job ≡ false
    → IsCompatible request job
unfolding start_operation_job
start_operation_job-IsCompatible down background now request s new h i job pos le found live =
    elim (Option-cases (duplicate_status request.type request.package_keys s.jobs s.sequence)) [
      | inl no_duplicate ↦
          duplicate_status-none request s.jobs s.sequence i job no_duplicate pos le found live
      | inr (refusal, e) ↦ ground (arith, e, h)
    ]

keep-length_mono :
    {A : Type 0} (p q : A → Bool) (xs : List A)
    → ((x : A) → Memᴰ x xs → p x ≡ true → q x ≡ true)
    → length (keep p xs) ≤ length (keep q xs)
unfolding keep
keep-length_mono p q [] h = ground arith
keep-length_mono p q (x ∷ xs) h =
    ground (arith, h x (Memᴰ.head refl), keep-length_mono p q xs (λ y m. h y (Memᴰ.tail m)))

keep-length_le : {A : Type 0} (p : A → Bool) (xs : List A) → length (keep p xs) ≤ length xs
unfolding keep
keep-length_le p [] = ground arith
keep-length_le p (x ∷ xs) = ground (arith, keep-length_le p xs)

-- What is pending among the queued IDs.
abbrev pending_in : List OperationJobStatus → List ℕ → List ℕ
pending_in jobs queue = keep (λ id. is_pending (find_job id jobs)) queue

pending_in-enqueue :
    (request : JobRequest) (s : OperationJobScheduler)
    → ((id : ℕ) → Memᴰ id s.queue → id ≤ s.sequence)
    → pending_count (enqueue request s) ≤ suc (pending_count s)
unfolding enqueue pending_count keep queued_job find_job
pending_in-enqueue request s numbered =
    let jobs = queued_job request s ∷ s.jobs in
    let last = suc s.sequence ∷ [] in
    let same =
      keep-length_mono (λ id. is_pending (find_job id jobs)) (λ id. is_pending (find_job id s.jobs))
        s.queue (λ id m h. ground (arith, numbered id m)) in
    omega (
      arith,
      same,
      ap (length {A = ℕ}) (keep-append (λ id. is_pending (find_job id jobs)) s.queue last),
      length-append (pending_in jobs s.queue) (pending_in jobs last),
      keep-length_le (λ id. is_pending (find_job id jobs)) last,
    )

-- A cancelled job is not pending.
find_job-change :
    (id k : ℕ) (now : String) (notice : String) (jobs : List OperationJobStatus)
    → is_pending (find_job id (map (change_in k (cancel_queued now notice)) jobs)) ≡ true
    → is_pending (find_job id jobs) ≡ true
unfolding find_job finish_queued_operation_job_cancellation operation_job_complete
find_job-change id k now notice [] h = ground arith
find_job-change id k now notice (job ∷ jobs) h =
    ground (arith, find_job-change id k now notice jobs)

pending_count-cancel :
    (k : ℕ) (now notice : String) (s : OperationJobScheduler)
    → pending_count (change_job k (cancel_queued now notice) s) ≤ pending_count s
unfolding change_job pending_count
pending_count-cancel k now notice s =
    keep-length_mono
      (λ id. is_pending (find_job id (map (change_in k (cancel_queued now notice)) s.jobs)))
      (λ id. is_pending (find_job id s.jobs)) s.queue
      (λ id m h. find_job-change id k now notice s.jobs h)

idle_pending :
    (request : JobRequest) (s : OperationJobScheduler)
    → pending_count (record (enqueue request s) { active = false })
      ≡ pending_count (enqueue request s)
unfolding pending_count
idle_pending request s = refl

-- If every queued ID has been given out, a start never brings the number of pending jobs above 25.
pub pending_count-start_operation_job :
    (down background : Bool) (now : String) (request : JobRequest) (s : OperationJobScheduler)
    → ((id : ℕ) → Memᴰ id s.queue → id ≤ s.sequence)
    → pending_count s ≤ max_pending_operation_jobs
    → pending_count (start_operation_job down background now request s).1
      ≤ max_pending_operation_jobs
unfolding start_operation_job
pending_count-start_operation_job down background now request s numbered bound =
    elim (Option-cases (duplicate_status request.type request.package_keys s.jobs s.sequence)) [
      | inr (refusal, e) ↦ ground (arith, e)
      | inl e ↦
          let idle = record (enqueue request s) { active = false } in
          ground (
            arith,
            e,
            pending_in-enqueue request s numbered,
            pending_count-cancel (suc s.sequence) now "Job cancelled by shutdown." idle,
            idle_pending request s,
          )
    ]
