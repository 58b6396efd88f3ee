-- ===== src/Store/Pipeline/Assessments.antt =====
-- internal/updater/store_scan_pipeline.go, reconcileStoreScanAssessments.
use mathlib.Core.List.{◌++◌ as append}
use patch_board.Common.{
  String, Bool, true, false, not, ◌&&◌, Option, none, some, List, [], ◌∷◌, if◌then◌else◌,
}
use patch_board.Common.Text.{nonempty}
use patch_board.Store.Model.{
  StoreInstalledIdentity, StoreScanGeneration, is_zero, is_completed, stale, stale_result,
  StoreUpdateState, unknown, current, available, conflict, inapplicable, pending,
  StoreUpdateAssessment, StoreReconciliationInput,
}
use patch_board.Store.Reconcile.{reconcile_store_update}
use patch_board.Store.Inventory.{StorePackagedAppFamily}
use patch_board.Store.Snapshot.{
  StorePublishedAssessment, StoreCatalogProviderRun, has_exact_target, target_product_id,
  target_update_id,
}
use patch_board.Store.Pipeline.Identities.{IdentityMap, lookup_identity, value_or}
use patch_board.Store.Pipeline.Status.{
  required_store_catalog_providers, all_store_provider_observations, has_current_healthy_retraction,
}
use patch_board.Store.Pipeline.ProductIds.{
  ProductIdState, nothing_known, product_id_states, verified_product_id, product_id_conflict,
}

abbrev pub retainable : StoreUpdateState → Bool
retainable unknown = true
retainable current = true
retainable inapplicable = true
retainable _ = false

unfoldable pub should_retain_previous_positive : StoreScanGeneration → StoreUpdateAssessment → Bool
should_retain_previous_positive scan assessment =
    if is_completed scan.completion_status then false else retainable assessment.state

unfoldable pub applicability_for_assessment : StoreUpdateAssessment → String
applicability_for_assessment assessment = elim assessment.state [
  | inapplicable ↦ "not_applicable"
  | available ↦ "applicable"
  | pending ↦ "applicable"
  | _ ↦ "unknown"
]

-- The assessment that keeps what the previous snapshot said, as stale.
unfoldable pub retained_assessment :
    StoreUpdateAssessment → StorePublishedAssessment → StorePublishedAssessment
retained_assessment assessment previous = record {
  assessment = record assessment {
    state = available;
    reason = "retained previous positive update because the latest scan was incomplete";
    available_version = previous.available_version;
    target = previous.target;
    evidence =
        append assessment.evidence
          (record { provider = "previous-generation"; health = stale; kind = stale_result } ∷ []);
  };
  observed_at = previous.observed_at;
  stale = true;
  store_product_id = previous.store_product_id;
  update_id = previous.update_id;
  exact_action_target_available = previous.exact_action_target_available;
  applicability = previous.applicability;
}

abbrev pub says_available : StoreUpdateState → Bool
says_available available = true
says_available _ = false

-- Verified mappings that contradict each other turn an available update into a conflict.
unfoldable pub without_conflict : String → StoreUpdateAssessment → StoreUpdateAssessment
without_conflict reason assessment =
    if nonempty reason && says_available assessment.state
    then record assessment {
      state = conflict;
      reason = reason;
      target = none;
      available_version = "";
    }
    else assessment

unfoldable pub fresh_assessment :
    StoreScanGeneration
    → StoreInstalledIdentity
    → String
    → StoreUpdateAssessment
    → StorePublishedAssessment
unfolding applicability_for_assessment
fresh_assessment scan identity verified assessment = record {
  assessment = assessment;
  observed_at = if is_zero scan.completed_at then scan.started_at else scan.completed_at;
  stale = false;
  store_product_id =
      if nonempty (target_product_id assessment.target)
      then target_product_id assessment.target
      else verified;
  update_id = target_update_id assessment.target;
  exact_action_target_available = has_exact_target identity assessment.target;
  applicability = applicability_for_assessment assessment;
}

-- What is put together for all families.
pub record ScanEvidence : Type 0 where
  pub scan : StoreScanGeneration
  pub runs : List StoreCatalogProviderRun
  pub previous : IdentityMap StorePublishedAssessment

unfoldable pub reconciliation_input :
    ScanEvidence → StoreInstalledIdentity → StoreReconciliationInput
unfolding required_store_catalog_providers all_store_provider_observations
reconciliation_input evidence identity = record {
  identity = identity;
  scan = evidence.scan;
  required_providers = required_store_catalog_providers evidence.runs;
  observations = all_store_provider_observations evidence.runs;
}

unfoldable pub product_id_state : ScanEvidence → StoreInstalledIdentity → ProductIdState
unfolding lookup_identity product_id_states
product_id_state evidence identity =
    value_or nothing_known
      (lookup_identity identity (product_id_states evidence.scan evidence.runs))

unfoldable pub assess_afresh :
    ScanEvidence → StoreInstalledIdentity → StoreUpdateAssessment → StorePublishedAssessment
unfolding fresh_assessment without_conflict product_id_conflict product_id_state verified_product_id
assess_afresh evidence identity assessment =
    fresh_assessment evidence.scan identity
      (verified_product_id (product_id_state evidence identity))
      (without_conflict (product_id_conflict (product_id_state evidence identity)) assessment)

-- The branch on what the previous snapshot says of the identity.
unfoldable pub assess_with_previous :
    ScanEvidence
    → StoreInstalledIdentity
    → StoreUpdateAssessment
    → Option StorePublishedAssessment
    → StorePublishedAssessment
unfolding assess_afresh retained_assessment should_retain_previous_positive
    has_current_healthy_retraction
assess_with_previous evidence identity assessment none = assess_afresh evidence identity assessment
assess_with_previous evidence identity assessment (some previous) =
    if should_retain_previous_positive evidence.scan assessment
      && not (has_current_healthy_retraction evidence.scan identity evidence.runs)
    then retained_assessment assessment previous
    else assess_afresh evidence identity assessment

unfoldable pub assess_family : ScanEvidence → StoreInstalledIdentity → StorePublishedAssessment
unfolding reconcile_store_update reconciliation_input assess_with_previous lookup_identity
assess_family evidence identity =
    assess_with_previous evidence identity
      (reconcile_store_update (reconciliation_input evidence identity))
      (lookup_identity identity evidence.previous)

unfoldable pub reconcile_store_scan_assessments :
    ScanEvidence → List StorePackagedAppFamily → List StorePublishedAssessment
unfolding assess_family
reconcile_store_scan_assessments evidence [] = []
reconcile_store_scan_assessments evidence (family ∷ families) =
    let rest = reconcile_store_scan_assessments evidence families in
    if not family.product_like then rest else assess_family evidence family.identity ∷ rest
