-- ===== src/Store/Reconcile.antt =====
-- internal/updater/store_update_model.go, ReconcileStoreUpdate: the decision (`decide`) from what
-- the loop over the observations has collected. Where a required provider is missing, the source
-- names the first that Go's map iteration finds; here it is the first of the set.
pub mod Cases
pub mod Available
pub mod Subject
pub mod Current
use Prim.Native.String.{◌++◌}
use patch_board.Common.{
  String, not, ◌||◌, Option, none, some, List, [], ◌∷◌, if◌then◌else◌, is_empty,
}
use patch_board.Common.Text.{str_eq, nonempty}
use patch_board.Common.Dict.{contains}
use patch_board.Store.Model.{
  resolved, usable_for, complete_for, StoreProviderObservation, StoreUpdateState, unknown, current,
  available, conflict, inapplicable, pending, StoreUpdateAssessment, StoreReconciliationInput,
}
use patch_board.Store.Offers.{OfferResult, agreed, refused, reconcile_exact_store_update_offers}
use patch_board.Store.Evidence.{
  required_provider_set, negative_evidence_can_yield_to_exact_positive,
  all_required_providers_returned_negatives, Collected, nothing_collected, collect,
}

unfoldable pub store_assessment_decision :
    StoreUpdateAssessment
    → StoreUpdateState
    → StoreProviderObservation
    → String
    → StoreUpdateAssessment
store_assessment_decision assessment state observation reason = record assessment {
  state = state;
  reason = reason;
  installed_version = observation.installed_version;
  available_version = observation.available_version;
  target = observation.target;
}

unfoldable pub store_exact_offer_conflict_assessment :
    StoreUpdateAssessment → StoreProviderObservation → String → StoreUpdateAssessment
store_exact_offer_conflict_assessment assessment observation reason = record assessment {
  state = conflict;
  reason = reason;
  installed_version = observation.installed_version;
  available_version = observation.available_version;
  target = none;
}

-- The decision, in the order of the source's tests; each function is the rest of the body after
-- one of them. `required` is the set of required providers.
decide_complete :
    StoreReconciliationInput
    → List String
    → StoreUpdateAssessment
    → Collected
    → List StoreProviderObservation
    → StoreUpdateAssessment
unfolding all_required_providers_returned_negatives store_assessment_decision
decide_complete input required a c [] = record a { reason = "evidence is not authoritative" }
decide_complete input required a c (negative ∷ rest) =
    if all_required_providers_returned_negatives required (negative ∷ rest)
    then store_assessment_decision a current negative
        "all required providers returned authoritative negatives"
    else record a { reason = "evidence is not authoritative" }

decide_inapplicable :
    StoreReconciliationInput
    → List String
    → StoreUpdateAssessment
    → Collected
    → List StoreProviderObservation
    → StoreUpdateAssessment
unfolding decide_complete
decide_inapplicable input required a c (o ∷ rest) =
    store_assessment_decision a inapplicable o "newer catalog version has no applicable installer"
decide_inapplicable input required a c [] =
    if not (complete_for input.scan input.identity)
    then record a { reason = "scan generation is incomplete" }
    else decide_complete input required a c c.authoritative_negatives

decide_pending :
    StoreReconciliationInput
    → List String
    → StoreUpdateAssessment
    → Collected
    → List StoreProviderObservation
    → StoreUpdateAssessment
unfolding decide_inapplicable
decide_pending input required a c (o ∷ rest) =
    store_assessment_decision a pending o "update is pending verification"
decide_pending input required a c [] =
    decide_inapplicable input required a c c.no_applicable_installer

-- `firstBlockingObservation`, the zero value if there is none.
decide_blocked :
    StoreUpdateAssessment → Option StoreProviderObservation → String → StoreUpdateAssessment
unfolding store_assessment_decision
decide_blocked a (some o) reason = store_assessment_decision a unknown o reason
decide_blocked a none reason = record a {
  state = unknown;
  reason = reason;
  installed_version = "";
  available_version = "";
  target = none;
}

unfoldable pub first_unseen : List String → List String → Option String
unfolding contains
first_unseen seen [] = none
first_unseen seen (provider ∷ providers) =
    if not (contains provider seen) then some provider else first_unseen seen providers

decide_required :
    StoreReconciliationInput
    → List String
    → StoreUpdateAssessment
    → Collected
    → Option String
    → StoreUpdateAssessment
unfolding decide_blocked decide_pending
decide_required input required a c (some provider) = record a {
  reason = "required provider did not return evidence: " ++ provider;
}
decide_required input required a c none =
    if nonempty c.blocked_required_provider
    then record a {
      reason = "required provider incomplete or failed: " ++ c.blocked_required_provider;
    }
    else if nonempty c.first_blocking_provider
    then decide_blocked a c.first_blocking_observation
        ("provider incomplete or failed: " ++ c.first_blocking_provider)
    else decide_pending input required a c c.pending_updates

decide_inexact :
    StoreReconciliationInput
    → List String
    → StoreUpdateAssessment
    → Collected
    → List StoreProviderObservation
    → StoreUpdateAssessment
unfolding decide_required store_assessment_decision first_unseen
decide_inexact input required a c (o ∷ rest) =
    store_assessment_decision a unknown o "positive update evidence has no exact verified target"
decide_inexact input required a c [] =
    decide_required input required a c (first_unseen c.seen_required_providers required)

-- What is made of the consensus of the exact offers, of which `first` is the first.
decide_offer :
    StoreUpdateAssessment → StoreProviderObservation → OfferResult → StoreUpdateAssessment
unfolding store_assessment_decision store_exact_offer_conflict_assessment
decide_offer a first (refused reason) = store_exact_offer_conflict_assessment a first reason
decide_offer a first (agreed consensus) =
    record (store_assessment_decision a available consensus.observation
      "fresh exact positive update evidence") {
        target = some consensus.target;
        available_version = consensus.available_version;
      }

decide_exact :
    StoreReconciliationInput
    → List String
    → StoreUpdateAssessment
    → Collected
    → List StoreProviderObservation
    → StoreUpdateAssessment
unfolding decide_offer decide_inexact store_assessment_decision
decide_exact input required a c [] = decide_inexact input required a c c.offers_without_exact_target
decide_exact input required a c (first ∷ rest) =
    if not (is_empty c.no_applicable_installer)
      || not
          (negative_evidence_can_yield_to_exact_positive (first ∷ rest) c.authoritative_negatives)
    then store_assessment_decision a conflict first "healthy providers disagree"
    else decide_offer a first (reconcile_exact_store_update_offers input.identity (first ∷ rest))

unfoldable pub decide :
    StoreReconciliationInput
    → List String
    → StoreUpdateAssessment
    → Collected
    → StoreUpdateAssessment
unfolding decide_exact
decide input required a c =
    if is_empty c.evidence
    then record a { reason = "no evidence for identity in scan generation" }
    else decide_exact input required a c c.exact_update_offers

-- The assessment before the loop, and with what the loop has put into it.
unfoldable pub initial_assessment : StoreReconciliationInput → StoreUpdateAssessment
initial_assessment input = record {
  state = unknown;
  identity = input.identity;
  scan_id = input.scan.scan_id;
  reason = "";
  installed_version = "";
  available_version = "";
  target = none;
  evidence = [];
  rejected_evidence_count = 0;
  provider_health = [];
}

unfoldable pub with_evidence : StoreUpdateAssessment → Collected → StoreUpdateAssessment
with_evidence a c = record a {
  evidence = c.evidence;
  rejected_evidence_count = c.rejected_evidence_count;
  provider_health = c.provider_health;
}

unfoldable pub reconcile_store_update : StoreReconciliationInput → StoreUpdateAssessment
unfolding initial_assessment with_evidence required_provider_set
reconcile_store_update input =
    let a = initial_assessment input in
    let required = required_provider_set input.required_providers in
    let c = collect input required nothing_collected input.observations in
    if not (resolved input.identity)
    then record a { reason = "store identity is unresolved" }
    else if not (str_eq input.scan.user_sid input.identity.user_sid)
    then record a { reason = "scan user does not match installed identity" }
    else if not (usable_for input.scan input.identity)
    then record a { reason = "scan generation context is incomplete" }
    else decide input required (with_evidence a c) c
