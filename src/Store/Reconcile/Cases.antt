-- ===== src/Store/Reconcile/Cases.antt =====
-- Which tests the decision has passed when it comes to a given state.
use Prim.Native.String.{◌++◌}
use patch_board.Common.{
  String, Bool, true, not, ◌||◌, inl, inr, Bool-cases, ◌≡◌, ◌≢◌, refl, arith, Option, none, some,
  List, [], ◌∷◌, is_empty,
}
use patch_board.Store.Model.{
  StoreProviderObservation, StoreUpdateAssessment, StoreReconciliationInput, unknown, available,
}
use patch_board.Store.Offers.{
  OfferResult, agreed, refused, ExactStoreUpdateOfferConsensus, reconcile_exact_store_update_offers,
}
use patch_board.Store.Evidence.{negative_evidence_can_yield_to_exact_positive, Collected}
use patch_board.Store.Reconcile.{
  decide, decide_exact, decide_inexact, decide_required, decide_pending, decide_offer,
  decide_blocked, decide_inapplicable, decide_complete, first_unseen,
}

module _ (input : StoreReconciliationInput) (required : List String) (a : StoreUpdateAssessment)
    (c : Collected) (fresh : a.state ≡ unknown) where
  decide_complete-ne-available :
      (os : List StoreProviderObservation)
      → (decide_complete input required a c os).state ≢ available
  unfolding decide_complete
  decide_complete-ne-available [] = ground arith
  decide_complete-ne-available (o ∷ os) = ground arith

  decide_inapplicable-ne-available :
      (os : List StoreProviderObservation)
      → (decide_inapplicable input required a c os).state ≢ available
  unfolding decide_inapplicable
  decide_inapplicable-ne-available [] =
      ground (arith, decide_complete-ne-available c.authoritative_negatives)
  decide_inapplicable-ne-available (o ∷ os) = ground arith

  decide_pending-ne-available :
      (os : List StoreProviderObservation)
      → (decide_pending input required a c os).state ≢ available
  unfolding decide_pending
  decide_pending-ne-available [] = decide_inapplicable-ne-available c.no_applicable_installer
  decide_pending-ne-available (o ∷ os) = ground arith

  decide_blocked-ne-available :
      (o : Option StoreProviderObservation) (reason : String)
      → (decide_blocked a o reason).state ≢ available
  unfolding decide_blocked
  decide_blocked-ne-available none reason = ground arith
  decide_blocked-ne-available (some o) reason = ground arith

  decide_required-ne-available :
      (p : Option String) → (decide_required input required a c p).state ≢ available
  unfolding decide_required
  decide_required-ne-available (some p) = ground arith
  decide_required-ne-available none = ground (
    arith,
    decide_pending-ne-available c.pending_updates,
    decide_blocked-ne-available c.first_blocking_observation
        ("provider incomplete or failed: " ++ c.first_blocking_provider),
  )

  decide_inexact-ne-available :
      (os : List StoreProviderObservation)
      → (decide_inexact input required a c os).state ≢ available
  unfolding decide_inexact
  decide_inexact-ne-available [] =
      decide_required-ne-available (first_unseen c.seen_required_providers required)
  decide_inexact-ne-available (o ∷ os) = ground arith

-- The tests that were passed on the way to `available`, and the assessment's target.
pub record IsOffered (input : StoreReconciliationInput) (c : Collected)
    (offers : List StoreProviderObservation) (result : StoreUpdateAssessment) : Type 0 where
  pub consensus : ExactStoreUpdateOfferConsensus
  pub agrees : reconcile_exact_store_update_offers input.identity offers ≡ agreed consensus
  pub target : result.target ≡ some consensus.target
  pub version : result.available_version ≡ consensus.available_version
  pub applicable : c.no_applicable_installer ≡ []
  pub yields : negative_evidence_can_yield_to_exact_positive offers c.authoritative_negatives ≡ true

module _ (input : StoreReconciliationInput) (required : List String) (a : StoreUpdateAssessment)
    (c : Collected) (fresh : a.state ≡ unknown) where
  -- The first test on the exact offers.
  abbrev disagrees : List StoreProviderObservation → Bool
  disagrees os =
      not (is_empty c.no_applicable_installer)
      || not (negative_evidence_can_yield_to_exact_positive os c.authoritative_negatives)

  decide_offer-available :
      (first : StoreProviderObservation) (r : OfferResult)
      → (decide_offer a first r).state ≡ available
      → (consensus : ExactStoreUpdateOfferConsensus) × (r ≡ agreed consensus)
        × ((decide_offer a first r).target ≡ some consensus.target)
        × ((decide_offer a first r).available_version ≡ consensus.available_version)
  unfolding decide_offer
  decide_offer-available first (agreed consensus) h = (consensus, refl, refl, refl)
  decide_offer-available first (refused reason) h = ground arith

  decide_exact-available :
      (os : List StoreProviderObservation)
      → (decide_exact input required a c os).state ≡ available
      → IsOffered input c os (decide_exact input required a c os)
  unfolding decide_exact
  decide_exact-available [] h =
      absurd (decide_inexact-ne-available input required a c fresh c.offers_without_exact_target h)
  decide_exact-available (o ∷ os) h = elim (Bool-cases (disagrees (o ∷ os))) [
    | inl t ↦ absurd (ground (arith, rw (t, decide_exact) at h))
    | inr f ↦
        let (consensus, agrees, target, version) =
          decide_offer-available o (reconcile_exact_store_update_offers input.identity (o ∷ os))
            (rw (f, decide_exact) at h) in
        record {
          consensus = consensus;
          agrees = agrees;
          target = rw f target;
          version = rw f version;
          applicable = ground (arith, f);
          yields = ground (arith, f);
        }
  ]

  -- The same, of the whole decision.
  pub decide-available :
      (decide input required a c).state ≡ available
      → IsOffered input c c.exact_update_offers (decide input required a c)
  unfolding decide
  decide-available h = elim (Bool-cases (is_empty c.evidence)) [
    | inl t ↦ absurd (ground (arith, rw (t, decide) at h))
    | inr f ↦ rw f (decide_exact-available c.exact_update_offers (rw (f, decide) at h))
  ]
