-- ===== src/Store/Reconcile/Available.antt =====
-- When ReconcileStoreUpdate answers "available", the only state from which an update is started.
use mathlib.Core.List.{Memᴰ}
use text.Mathlib.TextEquality.{eq_iff}
use patch_board.Common.{
  String, Bool, not, ◌||◌, true, false, ◌≡◌, refl, ap, sym, ◌∙◌, arith, some, List, [], ◌∷◌, keep,
  mem-keep, mem-of-keep, keep-eq-nil, mem-of-all,
}
use patch_board.Common.Text.{nonempty, str_eq, trim_space, to_lower}
use patch_board.Store.Model.{
  resolved, usable_for, ExactStoreUpdateTarget, exact_for, StoreProviderObservation, provider_key,
  StoreUpdateAssessment, StoreReconciliationInput, available,
}
use patch_board.Store.Offers.{ExactStoreUpdateOfferConsensus}
use patch_board.Store.Offers.Sources.{IsDrawn, reconcile_exact_store_update_offers-IsDrawn}
use patch_board.Store.Offers.Exact.{reconcile_exact_store_update_offers-exact}
use patch_board.Store.Offers.Agreement.{consensus_listed, same_product, same_version}
use patch_board.Store.Evidence.{
  Collected, collect, nothing_collected, required_provider_set, has_exact_target,
  known_store_false_negative_provider, negative_evidence_can_yield_to_exact_positive,
}
use patch_board.Store.Evidence.Kept.{
  is_exact_offer, is_live_negative, is_live_inapplicable, collect-exact, collect-negatives,
  collect-inapplicable,
}
use patch_board.Store.Reconcile.{reconcile_store_update, decide, with_evidence, initial_assessment}
use patch_board.Store.Reconcile.Cases.{IsOffered, decide-available}

negatives_known :
    (offers negatives : List StoreProviderObservation) (o : StoreProviderObservation)
    → negative_evidence_can_yield_to_exact_positive offers negatives ≡ true
    → Memᴰ o negatives
    → known_store_false_negative_provider (provider_key o.provider) ≡ true
unfolding negative_evidence_can_yield_to_exact_positive
negatives_known offers [] o h m = elim m [ ]
negatives_known offers (n ∷ ns) o h m =
    mem-of-all
      (λ (x : StoreProviderObservation).
        known_store_false_negative_provider (provider_key x.provider))
      (n ∷ ns) (ground arith) m

-- What backs an answer: the user and the scan are the identity's; the target and the version of the
-- answer are drawn from the exact offers that healthy providers gave for this identity in this scan; no
-- such evidence says that no installer applies, and each "no update" among such evidence comes from a
-- provider that is known to miss updates.
pub record IsBacked (input : StoreReconciliationInput) (result : StoreUpdateAssessment)
    : Type 0 where
  pub identified : resolved input.identity ≡ true
  pub same_user : input.scan.user_sid ≡ input.identity.user_sid
  pub usable : usable_for input.scan input.identity ≡ true
  pub consensus : ExactStoreUpdateOfferConsensus
  pub carried : result.target ≡ some consensus.target
  pub version : result.available_version ≡ consensus.available_version
  pub exact : exact_for consensus.target input.identity ≡ true
  pub listed : Memᴰ consensus.observation input.observations
  pub offered : is_exact_offer input consensus.observation ≡ true
  pub drawn : IsDrawn input.identity (keep (is_exact_offer input) input.observations) consensus
  pub applicable :
      (o : StoreProviderObservation)
      → Memᴰ o input.observations
      → is_live_inapplicable input o ≡ false
  pub outweighed :
      (o : StoreProviderObservation)
      → Memᴰ o input.observations
      → is_live_negative input o ≡ true
      → known_store_false_negative_provider (provider_key o.provider) ≡ true

-- One of the texts is empty, or they are the same up to case.
abbrev pub same_where_given : String → String → Bool
same_where_given a b = not (nonempty a) || not (nonempty b) || str_eq (to_lower a) (to_lower b)

same_where_given_of :
    (a b : String)
    → (nonempty a ≡ true → nonempty b ≡ true → to_lower a ≡ to_lower b)
    → same_where_given a b ≡ true
same_where_given_of a b h = ground (arith, h, eq_iff (to_lower a) (to_lower b))

module _ (input : StoreReconciliationInput) where
  abbrev required : List String
  required = required_provider_set input.required_providers

  abbrev collected : Collected
  collected = collect input required nothing_collected input.observations

  abbrev decided : StoreUpdateAssessment
  decided = decide input required (with_evidence (initial_assessment input) collected) collected

  -- The guards before the loop have passed, and the decision is the result.
  reconcile_passed :
      (reconcile_store_update input).state ≡ available
      → (resolved input.identity ≡ true)
        × (str_eq input.scan.user_sid input.identity.user_sid ≡ true)
        × (usable_for input.scan input.identity ≡ true)
  unfolding reconcile_store_update
  reconcile_passed h = ground arith

  reconcile-eq-decided :
      (reconcile_store_update input).state ≡ available → reconcile_store_update input ≡ decided
  unfolding reconcile_store_update
  reconcile-eq-decided h = let (r, u, s) = reconcile_passed h in rw (r, u, s) refl

  decided-IsOffered :
      (reconcile_store_update input).state ≡ available
      → IsOffered input collected (keep (is_exact_offer input) input.observations) decided
  unfolding initial_assessment with_evidence
  decided-IsOffered h = rw (← collect-exact input required input.observations) (
      decide-available input required (with_evidence (initial_assessment input) collected) collected
        refl (ap (λ (a : StoreUpdateAssessment). a.state) (sym (reconcile-eq-decided h)) ∙ h))

  -- If an update is called available, the package is identified and belongs to the user of a usable
  -- scan. The result carries a target that is exact for it: the target of a live exact offer among the
  -- observations, whose product ID, update ID and version are each empty or stand in such offers. No
  -- live observation says that no installer applies, and every live negative comes from a provider that
  -- is known for false negatives.
  pub reconcile_store_update-IsBacked :
      (reconcile_store_update input).state ≡ available
      → IsBacked input (reconcile_store_update input)
  reconcile_store_update-IsBacked h =
      let p = reconcile_passed h in
      let d = decided-IsOffered h in
      let (listed, offered) = mem-of-keep (is_exact_offer input) input.observations (
        consensus_listed input.identity (keep (is_exact_offer input) input.observations)
          d.agrees) in
      record {
        identified = p.0;
        same_user = (eq_iff _ _).0 p.1;
        usable = p.2;
        consensus = d.consensus;
        carried = ap (λ (a : StoreUpdateAssessment). a.target) (reconcile-eq-decided h) ∙ d.target;
        version =
            ap (λ (a : StoreUpdateAssessment). a.available_version) (reconcile-eq-decided h)
            ∙ d.version;
        exact = reconcile_exact_store_update_offers-exact input.identity _ d.agrees;
        listed = listed;
        offered = offered;
        drawn = reconcile_exact_store_update_offers-IsDrawn input.identity _ d.agrees;
        applicable = λ o m.
            keep-eq-nil (is_live_inapplicable input) input.observations
              (sym (collect-inapplicable input required input.observations) ∙ d.applicable) m;
        outweighed = λ o m t.
            negatives_known (keep (is_exact_offer input) input.observations)
              (keep (is_live_negative input) input.observations) o
              (rw (← collect-negatives input required input.observations) d.yields)
              (mem-keep (is_live_negative input) input.observations t m);
      }

  exact_of_offer :
      (o : StoreProviderObservation) (t : ExactStoreUpdateTarget)
      → o.target ≡ some t
      → is_exact_offer input o ≡ true
      → exact_for t input.identity ≡ true
  exact_of_offer o t e h = ground (arith, ap (has_exact_target input.identity) e)

  module _ (h : (reconcile_store_update input).state ≡ available) (o p : StoreProviderObservation)
      (t u : ExactStoreUpdateTarget) (mo : Memᴰ o input.observations)
      (mp : Memᴰ p input.observations) (et : o.target ≡ some t) (eu : p.target ≡ some u)
      (lo : is_exact_offer input o ≡ true) (lp : is_exact_offer input p ≡ true) where
    abbrev offers : List StoreProviderObservation
    offers = keep (is_exact_offer input) input.observations

    -- If an update is called available, the product IDs of any two exact offers for the identity are
    -- the same up to case where both have one, and so are their versions.
    pub available_agrees :
        (same_where_given (trim_space t.product_id) (trim_space u.product_id) ≡ true)
        × (same_where_given (trim_space o.available_version) (trim_space p.available_version)
            ≡ true)
    available_agrees =
        let agrees = (decided-IsOffered h).agrees in
        let ko = mem-keep (is_exact_offer input) input.observations lo mo in
        let kp = mem-keep (is_exact_offer input) input.observations lp mp in
        let xo = exact_of_offer o t et lo in
        let xp = exact_of_offer p u eu lp in
        (
          same_where_given_of (trim_space t.product_id) (trim_space u.product_id)
              (same_product input.identity offers agrees o p t u ko kp et eu xo xp),
          same_where_given_of (trim_space o.available_version) (trim_space p.available_version)
              (same_version input.identity offers agrees o p t u ko kp et eu xo xp),
        )
