-- ===== src/Store/Pipeline/Retained.antt =====
-- reconcileStoreScanAssessments: when an assessment is carried over from the previous snapshot.
use patch_board.Common.{
  true, false, not, ◌&&◌, Option, none, some, Bool-cases, inl, inr, if-cases, ◌≡◌, ◌↔◌, refl, sym,
  ◌∙◌, ap, arith,
}
use patch_board.Store.Model.{StoreInstalledIdentity, StoreUpdateAssessment, available, is_completed}
use patch_board.Store.Reconcile.{reconcile_store_update}
use patch_board.Store.Snapshot.{StorePublishedAssessment}
use patch_board.Store.Pipeline.Identities.{lookup_identity}
use patch_board.Store.Pipeline.Status.{has_current_healthy_retraction}
use patch_board.Store.Pipeline.Assessments.{
  retainable, should_retain_previous_positive, retained_assessment, fresh_assessment, ScanEvidence,
  reconciliation_input, assess_afresh, assess_with_previous, assess_family,
}

-- The scan is not completed, its own evidence leaves the state unknown, current or inapplicable, and
-- the previous snapshot has an assessment of the identity. Nothing is asked of the state of that one.
abbrev pub IsRetained :
    ScanEvidence
    → StoreUpdateAssessment
    → Option StorePublishedAssessment
    → StorePublishedAssessment
    → Type 0
IsRetained evidence a found previous =
    (found ≡ some previous)
    × (is_completed evidence.scan.completion_status ≡ false)
    × (retainable a.state ≡ true)

module _ (evidence : ScanEvidence) (identity : StoreInstalledIdentity) where
  -- A retraction is looked for in completed scans only, and those retain nothing anyway.
  retraction_idle :
      (a : StoreUpdateAssessment)
      → (should_retain_previous_positive evidence.scan a
          && not (has_current_healthy_retraction evidence.scan identity evidence.runs))
        ≡ should_retain_previous_positive evidence.scan a
  unfolding should_retain_previous_positive has_current_healthy_retraction
  retraction_idle a = elim (Bool-cases (is_completed evidence.scan.completion_status)) [
    | inl t ↦ rw t refl
    | inr f ↦ rw f (ground arith)
  ]

  retains :
      (a : StoreUpdateAssessment)
      → should_retain_previous_positive evidence.scan a ≡ true
      → (is_completed evidence.scan.completion_status ≡ false) × (retainable a.state ≡ true)
  unfolding should_retain_previous_positive
  retains a h = ground arith

  retains_of :
      (a : StoreUpdateAssessment)
      → is_completed evidence.scan.completion_status ≡ false
      → retainable a.state ≡ true
      → should_retain_previous_positive evidence.scan a ≡ true
  unfolding should_retain_previous_positive
  retains_of a f r = rw f r

  stale_of :
      (a : StoreUpdateAssessment) (found : Option StorePublishedAssessment)
      → (assess_with_previous evidence identity a found).stale ≡ true
      → (previous : StorePublishedAssessment) × IsRetained evidence a found previous
  unfolding assess_with_previous assess_afresh fresh_assessment
  stale_of a none = λ h. ground arith
  stale_of a (some previous) =
      if-cases
        (λ (p : StorePublishedAssessment).
          p.stale ≡ true → (q : StorePublishedAssessment) × IsRetained evidence a (some previous) q)
        (should_retain_previous_positive evidence.scan a
          && not (has_current_healthy_retraction evidence.scan identity evidence.runs))
        (retained_assessment a previous) (assess_afresh evidence identity a)
        (λ e h. let (f, r) = retains a (sym (retraction_idle a) ∙ e) in (previous, (refl, f, r)))
        (λ e h. ground arith)

  retained_of :
      (a : StoreUpdateAssessment) (found : Option StorePublishedAssessment)
      (previous : StorePublishedAssessment)
      → IsRetained evidence a found previous
      → assess_with_previous evidence identity a found ≡ retained_assessment a previous
  unfolding assess_with_previous
  retained_of a found previous (e, f, r) = rw (e, retraction_idle a, retains_of a f r) refl

  -- The assessment of a family is stale exactly if the scan is not completed, its own evidence leaves
  -- the state unknown, current or inapplicable, and the previous snapshot has an assessment of the
  -- identity. It then says that an update is available, with the target of that previous assessment,
  -- whose own state does not matter.
  pub assess_family-IsRetained : ((assess_family evidence identity).stale ≡ true) ↔ (
      (previous : StorePublishedAssessment) × IsRetained evidence
        (reconcile_store_update (reconciliation_input evidence identity))
        (lookup_identity identity evidence.previous)
        previous
      × ((assess_family evidence identity).state ≡ available)
      × ((assess_family evidence identity).target ≡ previous.target))
  unfolding assess_family retained_assessment
  assess_family-IsRetained =
      let a = reconcile_store_update (reconciliation_input evidence identity) in
      let found = lookup_identity identity evidence.previous in
      (
        λ h.
            let (previous, kept) = stale_of a found h in
            let same = retained_of a found previous kept in
            (
              previous,
              kept,
              ap (λ (p : StorePublishedAssessment). p.state) same,
              ap (λ (p : StorePublishedAssessment). p.target) same,
            ),
        λ (previous, kept, _, _).
            ap (λ (p : StorePublishedAssessment). p.stale) (retained_of a found previous kept),
      )
