-- ===== src/Store/Pipeline/Accepted.antt =====
-- StoreScanPipeline.Run: the snapshot of a scan passes the repository's validation.
use text.Mathlib.TextPositions.{eq_refl}
use patch_board.Common.{
  ℕ, String, true, false, not, Option, none, List, [], ◌∷◌, map, any, if-cases, ◌≡◌, refl, ◌∙◌, ap,
  arith,
}
use patch_board.Common.Text.{nonempty}
use patch_board.Store.Model.{StoreScanGeneration, is_zero, verified_for}
use patch_board.Store.Inventory.{StorePackagedAppFamily, StorePackagedAppInventory}
use patch_board.Store.Snapshot.{
  StorePublishedAssessment, StoreCatalogProviderRun, StoreScanSnapshot, normalize_exact_target,
  normalize_store_scan_snapshot_exact_targets, bad_family, bad_assessment, check_assessments,
  validate_store_scan_snapshot,
}
use patch_board.Store.Pipeline.Sanitize.{is_own}
use patch_board.Store.Pipeline.Identities.{IdentityMap}
use patch_board.Store.Pipeline.Assessments.{
  ScanEvidence, assess_family, reconcile_store_scan_assessments,
}
use patch_board.Store.Pipeline.Collect.{is_foreign, collect_inventory}
use patch_board.Store.Pipeline.Runs.{
  EachSound, all_provider_runs-EachSound, collect_inventory-families,
}
use patch_board.Store.Pipeline.Planned.{GoodPrevious}
use patch_board.Store.Pipeline.Providers.{StoreScanPipeline, started_scan, all_provider_runs}
use patch_board.Store.Pipeline.Scan.{
  completed_scan, snapshot_from_scan_result, scanned_snapshot, previous_assessments,
}
use patch_board.Store.Pipeline.Checked.{
  EachSound-checked, IsOwnFamily, own_family, assess_family-IsAbout, normalize-same,
  normalized-good,
}

module _ (s : StoreScanSnapshot) (named : nonempty s.scan.user_sid ≡ true) where
  families-checked :
      (families : List StorePackagedAppFamily)
      → any (is_foreign s.scan) families ≡ false
      → any (bad_family s) families ≡ false
  unfolding any
  families-checked [] h = refl
  families-checked (f ∷ families) h =
      let (r, o) = own_family s.scan f named (ground arith) in
      ground (arith, families-checked families)

  module _ (runs : List StoreCatalogProviderRun)
      (previous : IdentityMap StorePublishedAssessment) where
    abbrev evidence : ScanEvidence
    evidence = record { scan = s.scan; runs = runs; previous = previous }

    family-checked :
        (f : StorePackagedAppFamily)
        → IsOwnFamily s.scan f
        → bad_assessment s (normalize_exact_target (assess_family evidence f.identity)) ≡ false
    family-checked f (r, o) =
        let a = assess_family evidence f.identity in
        let (same_identity, same_scan) = normalize-same a in
        let (about, in_scan) = assess_family-IsAbout evidence f.identity in
        let whose : (normalize_exact_target a).identity ≡ f.identity = same_identity ∙ about in
        let when : (normalize_exact_target a).scan_id ≡ s.scan.scan_id = same_scan ∙ in_scan in
        rw (whose, when) (ground (arith, eq_refl s.scan.scan_id))

    assessments-checked :
        (families : List StorePackagedAppFamily)
        → any (is_foreign s.scan) families ≡ false
        → check_assessments s
            (map normalize_exact_target (reconcile_store_scan_assessments evidence families))
          ≡ none
    unfolding check_assessments reconcile_store_scan_assessments any
    assessments-checked [] h = refl
    assessments-checked (f ∷ families) h =
        let rest = assessments-checked families (ground arith) in
        if-cases
          (λ (as' : List StorePublishedAssessment).
            check_assessments s (map normalize_exact_target as') ≡ none)
          (not f.product_like) (reconcile_store_scan_assessments evidence families)
          (assess_family evidence f.identity ∷ reconcile_store_scan_assessments evidence families)
          (λ e. rest)
          (λ e.
            rw
              (
                family-checked f (own_family s.scan f named (ground arith)),
                normalized-good (assess_family evidence f.identity),
              )
              rest)

-- The parts of a scan's completed snapshot.
completed-EachSound :
    (now : ℕ) (scan : StoreScanGeneration) (inventory : StorePackagedAppInventory)
    (all_runs runs : List StoreCatalogProviderRun)
    → EachSound scan runs
    → EachSound (completed_scan now scan inventory all_runs) runs
unfolding completed_scan is_own verified_for
completed-EachSound now scan inventory all_runs [] h = tt
completed-EachSound now scan inventory all_runs (run ∷ runs) (h, hs) = (
  record { observations = h.observations; mappings = h.mappings },
  completed-EachSound now scan inventory all_runs runs hs,
)

-- The snapshot as the repository stores it.
abbrev stored :
    StoreScanGeneration
    → StorePackagedAppInventory
    → List StoreCatalogProviderRun
    → Option StoreScanSnapshot
    → StoreScanSnapshot
stored scan inventory runs previous =
    normalize_store_scan_snapshot_exact_targets
      (snapshot_from_scan_result scan inventory runs previous)

result-accepted :
    (scan : StoreScanGeneration) (inventory : StorePackagedAppInventory)
    (runs : List StoreCatalogProviderRun) (previous : Option StoreScanSnapshot)
    → nonempty scan.scan_id ≡ true
    → nonempty scan.user_sid ≡ true
    → is_zero scan.started_at ≡ false
    → any (is_foreign scan) inventory.families ≡ false
    → EachSound scan runs
    → validate_store_scan_snapshot (stored scan inventory runs previous) ≡ none
unfolding validate_store_scan_snapshot normalize_store_scan_snapshot_exact_targets
    snapshot_from_scan_result
result-accepted scan inventory runs previous id user started own sound =
    let s = stored scan inventory runs previous in
    rw
      (
        id,
        user,
        started,
        families-checked s user inventory.families own,
        EachSound-checked s runs sound,
      )
      (assessments-checked s user runs (previous_assessments previous) inventory.families own)

-- Let the scan have an ID, a user and a start time, let every family of the inventory belong to the
-- user and have a name, and let the previous snapshot, if there is one, be well formed.
-- Then the snapshot that a scan hands to the repository passes its validation, whatever the providers
-- answer, when the repository has normalised its targets.
pub scanned_snapshot-accepted :
    (pipeline : StoreScanPipeline) (user_sid : String) (previous : Option StoreScanSnapshot)
    → nonempty pipeline.scan_id ≡ true
    → nonempty user_sid ≡ true
    → is_zero pipeline.started_now ≡ false
    → any
        (is_foreign (started_scan pipeline user_sid))
        (pipeline.inventory_answer (started_scan pipeline user_sid)).inventory.families
      ≡ false
    → GoodPrevious previous
    → validate_store_scan_snapshot
        (normalize_store_scan_snapshot_exact_targets (scanned_snapshot pipeline user_sid previous))
      ≡ none
unfolding scanned_snapshot started_scan completed_scan
scanned_snapshot-accepted pipeline user_sid previous id user started own good =
    let scan = started_scan pipeline user_sid in
    let collected = collect_inventory scan (pipeline.inventory_answer scan) in
    let (same, nothing) = collect_inventory-families scan (pipeline.inventory_answer scan) in
    let runs = all_provider_runs pipeline scan collected.0 previous collected.1 in
    result-accepted (completed_scan pipeline.completed_now scan collected.0 runs) collected.0 runs
      previous id user started (ap (any (is_foreign scan)) same ∙ own)
      (completed-EachSound pipeline.completed_now scan collected.0 runs runs
        (all_provider_runs-EachSound scan pipeline collected.0 previous good collected.1 nothing))
