-- ===== src/Store/Pipeline/Checked.antt =====
-- StoreScanPipeline.Run: the parts of a snapshot pass the tests of the validation, one by one.
use text.Mathlib.TextEquality.{eq_iff}
use text.Mathlib.TextPositions.{eq_refl}
use patch_board.Common.{
  true, false, not, ◌&&◌, Option, none, some, List, [], ◌∷◌, any, all, if-cases, Bool-cases, inl,
  inr, shown, ◌≡◌, refl, ◌∙◌, ap, arith,
}
use patch_board.Common.Text.{str_eq, nonempty, trim_space}
use patch_board.Common.Text.Trim.{trim_space_idem}
use patch_board.Store.Model.{
  StoreInstalledIdentity, StoreUpdateAssessment, resolved, StoreScanGeneration,
  StoreProviderObservation, VerifiedStoreIdentityMapping,
}
use patch_board.Store.Reconcile.{reconcile_store_update}
use patch_board.Store.Reconcile.Subject.{reconcile_store_update-subject}
use patch_board.Store.Inventory.{StorePackagedAppFamily}
use patch_board.Store.Snapshot.{
  StorePublishedAssessment, StoreCatalogProviderRun, StoreScanSnapshot,
  store_assessment_exact_target_valid, clear_store_assessment_exact_target, normalize_exact_target,
  bad_mapping, bad_observation, bad_target, check_runs,
}
use patch_board.Store.Snapshot.Normalized.{IsExecutable, normalize-IsExecutable}
use patch_board.Store.Pipeline.Sanitize.{is_own, is_verified}
use patch_board.Store.Pipeline.Assessments.{
  should_retain_previous_positive, without_conflict, retained_assessment, fresh_assessment,
  ScanEvidence, reconciliation_input, assess_afresh, assess_with_previous, assess_family,
}
use patch_board.Store.Pipeline.Status.{has_current_healthy_retraction}
use patch_board.Store.Pipeline.Identities.{lookup_identity}
use patch_board.Store.Pipeline.Collect.{is_foreign}
use patch_board.Store.Pipeline.Runs.{EachSound}

module _ (s : StoreScanSnapshot) where
  no_bad_mapping :
      (ms : List VerifiedStoreIdentityMapping)
      → all (is_verified s.scan) ms ≡ true
      → any (bad_mapping s) ms ≡ false
  unfolding all any
  no_bad_mapping [] h = refl
  no_bad_mapping (m ∷ ms) h = ground (arith, no_bad_mapping ms)

  no_bad_observation :
      (os : List StoreProviderObservation)
      → all (is_own s.scan) os ≡ true
      → any (bad_observation s) os ≡ false
  unfolding all any is_own
  no_bad_observation [] h = refl
  no_bad_observation (o ∷ os) h = ground (arith, no_bad_observation os)

  pub EachSound-checked :
      (runs : List StoreCatalogProviderRun) → EachSound s.scan runs → check_runs s runs ≡ none
  unfolding check_runs
  EachSound-checked [] h = refl
  EachSound-checked (run ∷ runs) (h, hs) =
      rw
        (no_bad_mapping run.mappings h.mappings, no_bad_observation run.observations h.observations)
        (EachSound-checked runs hs)

-- The family is of the user, and has a name.
abbrev pub IsOwnFamily : StoreScanGeneration → StorePackagedAppFamily → Type 0
IsOwnFamily scan f =
    (resolved f.identity ≡ true) × (str_eq f.identity.user_sid scan.user_sid ≡ true)

pub own_family :
    (scan : StoreScanGeneration) (f : StorePackagedAppFamily)
    → nonempty scan.user_sid ≡ true
    → is_foreign scan f ≡ false
    → IsOwnFamily scan f
unfolding resolved
own_family scan f named h =
    let same : f.identity.user_sid ≡ scan.user_sid =
      (eq_iff f.identity.user_sid scan.user_sid).0 (shown _ (ground arith)) in
    (ground (arith, ap nonempty same), ground arith)

-- The assessment is about the identity, in the scan of the evidence.
abbrev pub IsAbout : ScanEvidence → StoreInstalledIdentity → StorePublishedAssessment → Type 0
IsAbout evidence identity p = (p.identity ≡ identity) × (p.scan_id ≡ evidence.scan.scan_id)

module _ (evidence : ScanEvidence) (identity : StoreInstalledIdentity) where
  assess_afresh-same :
      (a : StoreUpdateAssessment)
      → ((assess_afresh evidence identity a).identity ≡ a.identity)
        × ((assess_afresh evidence identity a).scan_id ≡ a.scan_id)
  unfolding assess_afresh fresh_assessment without_conflict
  assess_afresh-same a =
      if-cases (λ (b : StoreUpdateAssessment). (b.identity ≡ a.identity) × (b.scan_id ≡ a.scan_id))
        _ _ a (λ e. (refl, refl)) (λ e. (refl, refl))

  assess_with_previous-same :
      (a : StoreUpdateAssessment) (found : Option StorePublishedAssessment)
      → ((assess_with_previous evidence identity a found).identity ≡ a.identity)
        × ((assess_with_previous evidence identity a found).scan_id ≡ a.scan_id)
  unfolding assess_with_previous retained_assessment
  assess_with_previous-same a none = assess_afresh-same a
  assess_with_previous-same a (some previous) =
      if-cases
        (λ (p : StorePublishedAssessment). (p.identity ≡ a.identity) × (p.scan_id ≡ a.scan_id))
        (should_retain_previous_positive evidence.scan a
          && not (has_current_healthy_retraction evidence.scan identity evidence.runs))
        (retained_assessment a previous) (assess_afresh evidence identity a) (λ e. (refl, refl))
        (λ e. assess_afresh-same a)

  pub assess_family-IsAbout : IsAbout evidence identity (assess_family evidence identity)
  unfolding assess_family reconciliation_input
  assess_family-IsAbout =
      let (same_identity, same_scan) =
        reconcile_store_update-subject (reconciliation_input evidence identity) in
      let (i, s) =
        assess_with_previous-same (reconcile_store_update (reconciliation_input evidence identity))
          (lookup_identity identity evidence.previous) in
      (i ∙ same_identity, s ∙ same_scan)

pub normalize-same :
    (a : StorePublishedAssessment)
    → ((normalize_exact_target a).identity ≡ a.identity)
      × ((normalize_exact_target a).scan_id ≡ a.scan_id)
unfolding normalize_exact_target clear_store_assessment_exact_target
normalize-same a =
    let Same : StorePublishedAssessment → Type 0 =
      λ b. (b.identity ≡ a.identity) × (b.scan_id ≡ a.scan_id) in
    if-cases Same (not a.exact_action_target_available) a _ (λ e. (refl, refl))
      (λ e.
        if-cases Same (not (store_assessment_exact_target_valid a))
          (clear_store_assessment_exact_target a) _ (λ k. (refl, refl)) (λ k. (refl, refl)))

executable-valid :
    (a : StorePublishedAssessment) → IsExecutable a → store_assessment_exact_target_valid a ≡ true
unfolding store_assessment_exact_target_valid
executable-valid a x =
    rw
      (
        x.carried,
        x.exact,
        x.product,
        x.update,
        trim_space_idem x.target.product_id,
        trim_space_idem x.target.update_id,
      )
      (ground
        (arith, eq_refl (trim_space x.target.product_id), eq_refl (trim_space x.target.update_id)))

-- A normalised assessment has no bad target.
pub normalized-good : (a : StorePublishedAssessment) → bad_target (normalize_exact_target a) ≡ false
normalized-good a = elim (Bool-cases (normalize_exact_target a).exact_action_target_available) [
  | inl t ↦
      let valid = executable-valid (normalize_exact_target a) (normalize-IsExecutable a t) in
      ground arith
  | inr f ↦ ground arith
]
