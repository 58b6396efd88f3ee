-- ===== src/Store/Reconcile/Current/Stages.antt =====
-- What each test of the decision leaves for the answer "current".
use Prim.Native.String.{◌++◌}
use patch_board.Common.{
  String, Bool, true, false, not, ◌&&◌, ◌≡◌, refl, arith, Option, some, none, List, [], ◌∷◌,
  is_empty,
}
use patch_board.Common.Text.{nonempty}
use patch_board.Store.Model.{
  complete_for, StoreProviderObservation, StoreUpdateAssessment, StoreReconciliationInput,
  StoreUpdateState, current, unknown,
}
use patch_board.Store.Offers.{OfferResult, agreed, refused, reconcile_exact_store_update_offers}
use patch_board.Store.Evidence.{Collected, all_required_providers_returned_negatives}
use patch_board.Store.Reconcile.{
  decide, decide_exact, decide_inexact, decide_required, decide_pending, decide_inapplicable,
  decide_complete, decide_offer, decide_blocked, first_unseen,
}

abbrev pub is_current : StoreUpdateState → Bool
is_current current = true
is_current _ = false

abbrev pub is_none : Option String → Bool
is_none none = true
is_none (some p) = false

abbrev pub settled : StoreReconciliationInput → List String → Collected → Bool
settled input required c =
    not (nonempty c.blocked_required_provider)
    && not (nonempty c.first_blocking_provider)
    && is_empty c.pending_updates
    && is_empty c.no_applicable_installer
    && complete_for input.scan input.identity
    && all_required_providers_returned_negatives required c.authoritative_negatives

pub eq_of_is_current : (s : StoreUpdateState) → is_current s ≡ true → s ≡ current
eq_of_is_current s h = ground arith

all_required-nil :
    (required : List String) → all_required_providers_returned_negatives required [] ≡ false
unfolding all_required_providers_returned_negatives
all_required-nil [] = refl
all_required-nil (k ∷ ks) = refl

module _ (input : StoreReconciliationInput) (required : List String) (a : StoreUpdateAssessment)
    (c : Collected) (fresh : a.state ≡ unknown) where
  -- What is left of the decision after each test, for the answer "current".
  decide_complete-current :
      (os : List StoreProviderObservation)
      → is_current (decide_complete input required a c os).state
        ≡ all_required_providers_returned_negatives required os
  unfolding decide_complete
  decide_complete-current [] = ground (arith, all_required-nil required)
  decide_complete-current (o ∷ os) = ground arith

  decide_inapplicable-current :
      (os : List StoreProviderObservation)
      → is_current (decide_inapplicable input required a c os).state ≡ (
          is_empty os
          && complete_for input.scan input.identity
          && all_required_providers_returned_negatives required c.authoritative_negatives)
  unfolding decide_inapplicable
  decide_inapplicable-current [] = ground (arith, decide_complete-current c.authoritative_negatives)
  decide_inapplicable-current (o ∷ os) = ground arith

  decide_pending-current :
      (os : List StoreProviderObservation)
      → is_current (decide_pending input required a c os).state ≡ (
          is_empty os
          && (is_empty c.no_applicable_installer
              && complete_for input.scan input.identity
              && all_required_providers_returned_negatives required c.authoritative_negatives))
  unfolding decide_pending
  decide_pending-current [] = decide_inapplicable-current c.no_applicable_installer
  decide_pending-current (o ∷ os) = ground arith

  decide_blocked-current :
      (o : Option StoreProviderObservation) (reason : String)
      → is_current (decide_blocked a o reason).state ≡ false
  unfolding decide_blocked
  decide_blocked-current none reason = ground arith
  decide_blocked-current (some o) reason = ground arith

  decide_required-current :
      (p : Option String)
      → is_current (decide_required input required a c p).state
        ≡ (is_none p && settled input required c)
  unfolding decide_required
  decide_required-current (some p) = ground arith
  decide_required-current none = ground (
    arith,
    decide_pending-current c.pending_updates,
    decide_blocked-current c.first_blocking_observation
        ("provider incomplete or failed: " ++ c.first_blocking_provider),
  )

  decide_inexact-current :
      (os : List StoreProviderObservation)
      → is_current (decide_inexact input required a c os).state ≡ (
          is_empty os
          && (is_none (first_unseen c.seen_required_providers required)
              && settled input required c))
  unfolding decide_inexact
  decide_inexact-current [] =
      decide_required-current (first_unseen c.seen_required_providers required)
  decide_inexact-current (o ∷ os) = ground arith

  decide_offer-current :
      (first : StoreProviderObservation) (r : OfferResult)
      → is_current (decide_offer a first r).state ≡ false
  unfolding decide_offer
  decide_offer-current first (agreed k) = ground arith
  decide_offer-current first (refused reason) = ground arith

  decide_exact-current :
      (os : List StoreProviderObservation)
      → is_current (decide_exact input required a c os).state ≡ (
          is_empty os
          && (is_empty c.offers_without_exact_target
              && (is_none (first_unseen c.seen_required_providers required)
                  && settled input required c)))
  unfolding decide_exact
  decide_exact-current [] = decide_inexact-current c.offers_without_exact_target
  decide_exact-current (o ∷ os) =
      ground (
        arith,
        decide_offer-current o (reconcile_exact_store_update_offers input.identity (o ∷ os)),
      )

  pub decide-current : is_current (decide input required a c).state ≡ (
      not (is_empty c.evidence)
      && (is_empty c.exact_update_offers
          && (is_empty c.offers_without_exact_target
              && (is_none (first_unseen c.seen_required_providers required)
                  && settled input required c))))
  unfolding decide
  decide-current = ground (arith, decide_exact-current c.exact_update_offers)
