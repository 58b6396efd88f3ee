-- ===== src/Store/Pipeline/Handed.antt =====
-- StoreScanPipeline.Run: what it hands to the repository, and when.
use patch_board.Common.{
  String, Bool, true, false, Option, none, some, any, if-cases, some_inj, ◌≡◌, refl, sym, ◌∙◌, ap,
  arith,
}
use patch_board.Common.Text.{nonempty}
use patch_board.Store.Model.{is_zero}
use patch_board.Store.Snapshot.{
  StoreScanSnapshot, normalize_store_scan_snapshot_exact_targets, validate_store_scan_snapshot,
}
use patch_board.Store.Pipeline.Collect.{is_foreign}
use patch_board.Store.Pipeline.Planned.{GoodPrevious}
use patch_board.Store.Pipeline.Providers.{StoreScanPipeline, started_scan}
use patch_board.Store.Pipeline.Scan.{
  Answer, failed_with, answered, ScanSurroundings, ScanOutcome, scanned_snapshot, persisted,
  committed, scanned, locked, run,
}
use patch_board.Store.Pipeline.Accepted.{scanned_snapshot-accepted}

-- What holds when the repository gets a snapshot: nobody else scans for the user, the check before the
-- commit has approved of the snapshot, and the repository will take it.
pub record IsAccepted (world : ScanSurroundings) (s : StoreScanSnapshot) : Type 0 where
  pub unlocked : world.lock_error ≡ none
  pub idle : world.running ≡ false
  pub approved : world.before_commit s ≡ none
  pub valid : validate_store_scan_snapshot (normalize_store_scan_snapshot_exact_targets s) ≡ none

abbrev no_error : Option String
no_error = none

module _ (world : ScanSurroundings) (s : StoreScanSnapshot) where
  abbrev HandsOver : ScanOutcome → Type 0
  HandsOver outcome = outcome.handed_over ≡ some s

  persisted-HandsOver :
      (snapshot : StoreScanSnapshot) (answer : Answer Bool)
      → HandsOver (persisted snapshot answer)
      → snapshot ≡ s
  persisted-HandsOver snapshot (failed_with reason) h = some_inj snapshot s h
  persisted-HandsOver snapshot (answered published) h = some_inj snapshot s h

  committed-HandsOver :
      (snapshot : StoreScanSnapshot) (objection : Option String)
      → HandsOver (committed world snapshot objection)
      → (objection ≡ none) × (snapshot ≡ s)
  committed-HandsOver snapshot (some reason) h = absurd (ground arith)
  committed-HandsOver snapshot none h =
      (refl, persisted-HandsOver snapshot (world.persist snapshot) h)

  module _ (pipeline : StoreScanPipeline) (user_sid : String) (previous : Option StoreScanSnapshot)
      (latest : world.latest_published user_sid ≡ answered previous) where
    scanned-HandsOver :
        HandsOver (scanned pipeline world user_sid (answered previous))
        → (world.before_commit s ≡ none) × (scanned_snapshot pipeline user_sid previous ≡ s)
    unfolding scanned
    scanned-HandsOver h =
        let snapshot = scanned_snapshot pipeline user_sid previous in
        let (approved, same) = committed-HandsOver snapshot (world.before_commit snapshot) h in
        (ap world.before_commit (sym same) ∙ approved, same)

    locked-HandsOver :
        (lock_error : Option String)
        → HandsOver (locked pipeline world user_sid lock_error)
        → (lock_error ≡ none)
          × (world.running ≡ false)
          × (world.before_commit s ≡ none)
          × (scanned_snapshot pipeline user_sid previous ≡ s)
    locked-HandsOver (some reason) = λ h. absurd (ground arith)
    locked-HandsOver none =
        if-cases
          (λ (outcome : ScanOutcome).
            HandsOver outcome
            → (no_error ≡ none)
              × (world.running ≡ false)
              × (world.before_commit s ≡ none)
              × (scanned_snapshot pipeline user_sid previous ≡ s))
          world.running _ (scanned pipeline world user_sid (world.latest_published user_sid))
          (λ e h. absurd (ground arith))
          (λ e h. let (a, b) = scanned-HandsOver (rw (latest) at h) in (refl, e, a, b))

-- Let the scan have an ID, a user and a start time, let every family of the inventory belong to the
-- user and have a name, and let the snapshot that the repository loads, if there is one, be well formed.
-- If Run then hands a snapshot to the repository, it has the lock of the user, no other run is under
-- way, the check before the commit has approved of the snapshot, and the snapshot passes the
-- validation of the repository, when that has normalised its targets, whatever the catalog providers
-- answer.
pub run-IsAccepted :
    (pipeline : StoreScanPipeline) (world : ScanSurroundings) (user_sid : String)
    (previous : Option StoreScanSnapshot) (s : StoreScanSnapshot)
    → nonempty pipeline.scan_id ≡ true
    → is_zero pipeline.started_now ≡ false
    → world.user_sid ≡ answered user_sid
    → nonempty user_sid ≡ true
    → any
        (is_foreign (started_scan pipeline user_sid))
        (pipeline.inventory_answer (started_scan pipeline user_sid)).inventory.families
      ≡ false
    → world.latest_published user_sid ≡ answered previous
    → GoodPrevious previous
    → (run pipeline world).handed_over ≡ some s
    → IsAccepted world s
unfolding run
run-IsAccepted pipeline world user_sid previous s id started known named own latest good h =
    let (unlocked, idle, approved, same) =
      locked-HandsOver world s pipeline user_sid previous latest world.lock_error
        (rw (known) at h) in
    record {
      unlocked = unlocked;
      idle = idle;
      approved = approved;
      valid =
          ap
            (λ (x : StoreScanSnapshot).
              validate_store_scan_snapshot (normalize_store_scan_snapshot_exact_targets x))
            (sym same)
          ∙ scanned_snapshot-accepted pipeline user_sid previous id named started own good;
    }
