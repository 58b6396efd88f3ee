-- ===== src/Store/Pipeline/Backed.antt =====
-- reconcileStoreScanAssessments: what stands behind the assessments of a scan.
use patch_board.Common.{
  String, true, false, not, ◌&&◌, Option, none, some, if-cases, ◌≡◌, refl, sym, ◌∙◌, ap, arith,
}
use patch_board.Common.Text.{nonempty}
use patch_board.Store.Model.{
  StoreInstalledIdentity, ExactStoreUpdateTarget, exact_for, StoreUpdateAssessment, available,
}
use patch_board.Store.Reconcile.{reconcile_store_update}
use patch_board.Store.Reconcile.Available.{IsBacked, reconcile_store_update-IsBacked}
use patch_board.Store.Snapshot.{StorePublishedAssessment, has_exact_target}
use patch_board.Store.Pipeline.Identities.{lookup_identity}
use patch_board.Store.Pipeline.Status.{has_current_healthy_retraction}
use patch_board.Store.Pipeline.ProductIds.{product_id_conflict}
use patch_board.Store.Pipeline.Assessments.{
  says_available, should_retain_previous_positive, retained_assessment, without_conflict,
  fresh_assessment, ScanEvidence, reconciliation_input, product_id_state, assess_afresh,
  assess_with_previous, assess_family,
}

-- What backs an assessment of this scan that says that an update is available: the evidence of the
-- scan, on which the reconciliation agrees, without a conflict of the verified mappings.
pub record IsBackedNow (evidence : ScanEvidence) (identity : StoreInstalledIdentity) : Type 0 where
  pub backed :
      IsBacked
        (reconciliation_input evidence identity)
        (reconcile_store_update (reconciliation_input evidence identity))
  pub same_assessment :
      (assess_family evidence identity).assessment
      ≡ reconcile_store_update (reconciliation_input evidence identity)
  pub executable : (assess_family evidence identity).exact_action_target_available ≡ true
  pub unconflicted : nonempty (product_id_conflict (product_id_state evidence identity)) ≡ false

-- The assessment of this scan is kept, and it is available without a conflict.
abbrev KeptAvailable :
    ScanEvidence
    → StoreInstalledIdentity
    → StoreUpdateAssessment
    → StorePublishedAssessment
    → Type 0
KeptAvailable evidence identity a p =
    (p.assessment ≡ a)
    × (a.state ≡ available)
    × (nonempty (product_id_conflict (product_id_state evidence identity)) ≡ false)
    × (p.exact_action_target_available ≡ has_exact_target identity a.target)

module _ (evidence : ScanEvidence) (identity : StoreInstalledIdentity) where
  without_conflict-available :
      (reason : String) (a : StoreUpdateAssessment)
      → (without_conflict reason a).state ≡ available
      → (without_conflict reason a ≡ a) × (nonempty reason ≡ false)
  unfolding without_conflict
  without_conflict-available reason a =
      if-cases
        (λ (b : StoreUpdateAssessment). b.state ≡ available → (b ≡ a) × (nonempty reason ≡ false))
        (nonempty reason && says_available a.state) _ a (λ e h. ground arith)
        (λ e h. (refl, ground (arith, ap says_available h)))

  assess_afresh-available :
      (a : StoreUpdateAssessment)
      → (assess_afresh evidence identity a).state ≡ available
      → KeptAvailable evidence identity a (assess_afresh evidence identity a)
  unfolding assess_afresh fresh_assessment
  assess_afresh-available a h =
      let (same, calm) = without_conflict-available _ a h in
      (
        same,
        ap (λ (b : StoreUpdateAssessment). b.state) (sym same) ∙ h,
        calm,
        ap (λ (b : StoreUpdateAssessment). has_exact_target identity b.target) same,
      )

  assess_with_previous-available :
      (a : StoreUpdateAssessment) (previous : Option StorePublishedAssessment)
      → (assess_with_previous evidence identity a previous).state ≡ available
      → (assess_with_previous evidence identity a previous).stale ≡ false
      → KeptAvailable evidence identity a (assess_with_previous evidence identity a previous)
  unfolding assess_with_previous retained_assessment
  assess_with_previous-available a none = λ h fresh. assess_afresh-available a h
  assess_with_previous-available a (some previous) =
      if-cases
        (λ (p : StorePublishedAssessment).
          p.state ≡ available → p.stale ≡ false → KeptAvailable evidence identity a p)
        (should_retain_previous_positive evidence.scan a
          && not (has_current_healthy_retraction evidence.scan identity evidence.runs))
        (retained_assessment a previous) (assess_afresh evidence identity a)
        (λ e h fresh. ground arith) (λ e h fresh. assess_afresh-available a h)

  exact_of_target :
      (target : Option ExactStoreUpdateTarget) {t : ExactStoreUpdateTarget}
      → target ≡ some t
      → exact_for t identity ≡ true
      → has_exact_target identity target ≡ true
  exact_of_target target e h = rw e h

  -- If the assessment of a family says that an update is available and is not stale, then it is the
  -- assessment that the reconciliation makes of the evidence of the scan, that assessment is backed by
  -- this evidence, the verified mappings do not contradict each other about the Product ID, and the
  -- assessment is marked as executable.
  pub assess_family-IsBacked :
      (assess_family evidence identity).state ≡ available
      → (assess_family evidence identity).stale ≡ false
      → IsBackedNow evidence identity
  unfolding assess_family
  assess_family-IsBacked h fresh =
      let input = reconciliation_input evidence identity in
      let (same, state, calm, exact) =
        assess_with_previous-available (reconcile_store_update input)
          (lookup_identity identity evidence.previous) h fresh in
      let backed = reconcile_store_update-IsBacked input state in
      record {
        backed = backed;
        same_assessment = same;
        executable = exact ∙ exact_of_target _ backed.carried backed.exact;
        unconflicted = calm;
      }
