-- ===== src/Lib.antt =====
-- PatchBoard: the Microsoft Store updates, the package updates and the operation jobs of
-- internal/updater.
--
-- PatchBoard scans the installed Store packages of a Windows user, asks several catalog providers
-- about each of them, and reconciles their answers into one assessment per package. The assessments
-- of a scan are validated and published as a snapshot. When the user asks for an update, the executor
-- reads the published snapshot again: it is the final authority on whether a command may run. After
-- the command it looks at the installed package to see whether the update took place. Updates, installs
-- and scans run as jobs: a scheduler admits them, runs one at a time from a queue, cancels them on
-- request and at shutdown, and forgets old ones. Of the output of a command only the end is kept.
--
-- The files, and the code they are about:
--   Common: Boolean tests, lists, texts, dictionaries and sorting, which the components share.
--   Store.Model: internal/updater/store_update_model.go, lines 13 to 231, the data of the evidence and
--     its predicates (Resolved, Equal, UsableFor, CompleteFor, VerifiedFor, ExactFor, Matches).
--   Store.Evidence: the loop of ReconcileStoreUpdate that sorts the observations, and the tests on
--     them. Kept and Flags say what the loop has collected, by filters of the observations.
--   Store.Offers: reconcileExactStoreUpdateOffers, the consensus of the exact offers.
--   Store.Reconcile: ReconcileStoreUpdate, one function for each of its returns from the last one up.
--   Store.Snapshot: validateStoreScanSnapshot and normalizeStoreScanSnapshotExactTargets in
--     internal/updater/store_scan_repository.go.
--   Store.Inventory: the records of installed packages and their families, in
--     internal/updater/store_packaged_inventory.go.
--   Store.Pipeline: internal/updater/store_scan_pipeline.go. Sanitize and Settle have what is kept of a
--     provider's run, Plan, Reuse and Work planExactWork, Collect collectInventory, Providers the runs of all
--     providers, Status and ProductIds what is read off the runs, Assessments
--     reconcileStoreScanAssessments, Scan the method Run. The other files under it have the proofs.
--   Store.Freshness: internal/updater/store_assessment_freshness.go.
--   Store.Versions, Store.Authorize: the versions, the authorisation of a request and the proof of an
--     update in internal/updater/store_update_execution.go.
--   Store.Diagnostics: sanitizeProviderDiagnostic and firstNonEmpty.
--   Store.Execution: the same file: Request has exactStoreUpdateRequestFromPackage, Events the
--     validation of package events, Verify the loop verifyAcceptedActionWithEvents, Messages the texts
--     about snapshots, Executor ExecuteWithCallbacks with the list of the calls that it makes, and
--     Runners the runners, the catalog query and the snapshot provider that it uses by default.
--   Packages.Model: the struct Package and the keys of packages, in internal/updater/package_manager.go,
--     store_cutover.go, state_migrations.go and update_job_packages.go.
--   Packages.Policy: packageUpdatePolicy in internal/updater/store_update_api.go.
--   Packages.Selection, Packages.Revalidation: updateJobPackagesContext and
--     revalidateUpdatePackagesForJob in internal/updater/update_job_packages.go, with
--     findPackageForUpdateRetry in update_retry.go. Packages.InventoryRetry has the rest of both files.
--   Packages.Retry: package_action_retry.go, package_action_transient.go and package_action_success.go,
--     how the result of a package action is read.
--   Packages.Attempts: runPackageActionCommand in internal/updater/package_actions.go.
--   Packages.Targets: uniqueUpdateTargets and runPackageUpdateCandidates in
--     internal/updater/package_action_targets.go.
--   Locks.Scan: internal/updater/store_scan_coordinator.go, and its runs.
--   Commands.Result: the results of commands and their merging, in internal/updater/command.go,
--     package_action_merge.go and package_action_results.go.
--   Jobs.Status, Jobs.Scheduler, Jobs.Queue: internal/updater/operation_job.go. The state is the struct
--     of operation_job_scheduler.go; each section that the code runs under its lock is one function on
--     it, but for the start of a job: its second section, which cancels the job when the background
--     work cannot be started, follows the first one at once. Scheduler has the admission of jobs, Queue
--     the runner, cancellation, shutdown and pruning.
--   Jobs.Runs: the runs of the scheduler, which are the sequences of those sections.
--   Jobs.Batch: internal/updater/package_update_batch.go, the batches for the elevated worker.
--   Commands.OutputTail: boundedCommandOutputTail in internal/updater/command_output_tail.go.
--
-- How the source is read:
--   A struct is a record, a string type with constants a data type, a pointer that may be nil an
--   Option, a slice a List, a map a list of pairs with distinct keys in the order of insertion. A
--   time is a number of nanoseconds since Go's zero time. A version part is a Go `int` of 64 bits:
--   the parser refuses a part above 2 ^ 63 - 1. An early return is a branch of a conditional; a
--   loop is a recursion on its list or on its counter. The one loop that may go on for ever, the
--   verification of an update, runs on the list of what its rounds see: its result is none while
--   it still waits, and it returns in the round in which its context ends. What an external part
--   answers is a field of a record (World, Trial) or a list; the calls that are made are a list.
--   Where the source looks at ctx.Err() several times between two commands, a Trial has one value.
--   The Runner's answer to one call is one value; the default runner may issue several commands
--   for it (Store.Execution.Runners). An error is a constructor or its text. How long texts are
--   shortened is an argument (TextLimits) of what uses it.
--
-- What is not modelled: file, network and process I/O, whose results are parameters; the user
-- interface; the Windows workers; contexts, logs, the metrics of a scan, the choice of its default
-- providers, and the functions that the jobs run. The case mapping of texts covers ASCII and
-- Latin-1. The reason that names a missing required provider names the first one, where Go takes
-- any, by the order of a map.
pub mod Commands
pub mod Common
pub mod Jobs
pub mod Packages
pub mod Store
pub mod Locks
