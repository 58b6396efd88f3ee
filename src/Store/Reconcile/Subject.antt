-- ===== src/Store/Reconcile/Subject.antt =====
-- ReconcileStoreUpdate never changes whom an assessment is about.
use Prim.Native.String.{◌++◌}
use patch_board.Common.{
  String, not, ◌||◌, Option, none, some, List, [], ◌∷◌, if-cases, is_empty, ◌≡◌, refl,
}
use patch_board.Common.Text.{nonempty, str_eq}
use patch_board.Store.Model.{
  resolved, usable_for, complete_for, StoreProviderObservation, StoreUpdateAssessment,
  StoreReconciliationInput,
}
use patch_board.Store.Offers.{OfferResult, agreed, refused, reconcile_exact_store_update_offers}
use patch_board.Store.Evidence.{
  Collected, all_required_providers_returned_negatives,
  negative_evidence_can_yield_to_exact_positive, required_provider_set, nothing_collected, collect,
}
use patch_board.Store.Reconcile.{
  store_assessment_decision, store_exact_offer_conflict_assessment, decide_complete,
  decide_inapplicable, decide_pending, decide_blocked, decide_required, decide_inexact,
  decide_offer, decide_exact, decide, first_unseen, initial_assessment, with_evidence,
  reconcile_store_update,
}

-- Both are about one identity, in one generation.
abbrev SameSubject : StoreUpdateAssessment → StoreUpdateAssessment → Type 0
SameSubject a b = (b.identity ≡ a.identity) × (b.scan_id ≡ a.scan_id)

module _ (input : StoreReconciliationInput) (required : List String) (a : StoreUpdateAssessment)
    (c : Collected) where
  complete_same :
      (os : List StoreProviderObservation) → SameSubject a (decide_complete input required a c os)
  unfolding decide_complete store_assessment_decision
  complete_same [] = (refl, refl)
  complete_same (o ∷ os) =
      if-cases (SameSubject a) (all_required_providers_returned_negatives required (o ∷ os)) _ _
        (λ e. (refl, refl)) (λ e. (refl, refl))

  inapplicable_same :
      (os : List StoreProviderObservation)
      → SameSubject a (decide_inapplicable input required a c os)
  unfolding decide_inapplicable store_assessment_decision
  inapplicable_same (o ∷ os) = (refl, refl)
  inapplicable_same [] =
      if-cases (SameSubject a) (not (complete_for input.scan input.identity)) _
        (decide_complete input required a c c.authoritative_negatives) (λ e. (refl, refl))
        (λ e. complete_same c.authoritative_negatives)

  pending_same :
      (os : List StoreProviderObservation) → SameSubject a (decide_pending input required a c os)
  unfolding decide_pending store_assessment_decision
  pending_same (o ∷ os) = (refl, refl)
  pending_same [] = inapplicable_same c.no_applicable_installer

  blocked_same :
      (o : Option StoreProviderObservation) (reason : String)
      → SameSubject a (decide_blocked a o reason)
  unfolding decide_blocked store_assessment_decision
  blocked_same none reason = (refl, refl)
  blocked_same (some o) reason = (refl, refl)

  required_same :
      (unseen : Option String) → SameSubject a (decide_required input required a c unseen)
  unfolding decide_required
  required_same (some provider) = (refl, refl)
  required_same none =
      if-cases (SameSubject a) (nonempty c.blocked_required_provider) _ _ (λ e. (refl, refl))
        (λ e.
          if-cases (SameSubject a) (nonempty c.first_blocking_provider)
            (decide_blocked a c.first_blocking_observation
              ("provider incomplete or failed: " ++ c.first_blocking_provider))
            (decide_pending input required a c c.pending_updates)
            (λ k. blocked_same c.first_blocking_observation _)
            (λ k. pending_same c.pending_updates))

  inexact_same :
      (os : List StoreProviderObservation) → SameSubject a (decide_inexact input required a c os)
  unfolding decide_inexact store_assessment_decision
  inexact_same (o ∷ os) = (refl, refl)
  inexact_same [] = required_same (first_unseen c.seen_required_providers required)

  offer_same :
      (o : StoreProviderObservation) (result : OfferResult)
      → SameSubject a (decide_offer a o result)
  unfolding decide_offer store_assessment_decision store_exact_offer_conflict_assessment
  offer_same o (refused reason) = (refl, refl)
  offer_same o (agreed consensus) = (refl, refl)

  exact_same :
      (os : List StoreProviderObservation) → SameSubject a (decide_exact input required a c os)
  unfolding decide_exact store_assessment_decision
  exact_same [] = inexact_same c.offers_without_exact_target
  exact_same (o ∷ os) =
      if-cases (SameSubject a)
        (not (is_empty c.no_applicable_installer)
          || not (negative_evidence_can_yield_to_exact_positive (o ∷ os) c.authoritative_negatives))
        _ (decide_offer a o (reconcile_exact_store_update_offers input.identity (o ∷ os)))
        (λ e. (refl, refl)) (λ e. offer_same o _)

  decide_same : SameSubject a (decide input required a c)
  unfolding decide
  decide_same =
      if-cases (SameSubject a) (is_empty c.evidence) _
        (decide_exact input required a c c.exact_update_offers) (λ e. (refl, refl))
        (λ e. exact_same c.exact_update_offers)

-- The assessment is about the identity and the scan of the input, on every branch.
pub reconcile_store_update-subject :
    (input : StoreReconciliationInput)
    → ((reconcile_store_update input).identity ≡ input.identity)
      × ((reconcile_store_update input).scan_id ≡ input.scan.scan_id)
unfolding reconcile_store_update initial_assessment with_evidence
reconcile_store_update-subject input =
    let c =
      collect input (required_provider_set input.required_providers) nothing_collected
        input.observations in
    if-cases (SameSubject (initial_assessment input)) (not (resolved input.identity)) _ _
      (λ e. (refl, refl))
      (λ e.
        if-cases (SameSubject (initial_assessment input))
          (not (str_eq input.scan.user_sid input.identity.user_sid)) _ _ (λ k. (refl, refl))
          (λ k.
            if-cases (SameSubject (initial_assessment input))
              (not (usable_for input.scan input.identity)) _
              (decide input (required_provider_set input.required_providers)
                (with_evidence (initial_assessment input) c) c)
              (λ l. (refl, refl))
              (λ l.
                decide_same input (required_provider_set input.required_providers)
                  (with_evidence (initial_assessment input) c) c)))
