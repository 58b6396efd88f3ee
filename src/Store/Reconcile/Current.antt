-- ===== src/Store/Reconcile/Current.antt =====
-- When ReconcileStoreUpdate answers "current".
mod Stages
use mathlib.Core.List.{Memᴰ}
use patch_board.Common.{
  String, Bool, true, false, not, ◌&&◌, ◌||◌, ◌≡◌, ◌↔◌, refl, ap, sym, ◌∙◌, arith, inl, inr, List,
  [], ◌∷◌, Bool-cases, is_empty, keep, all, any, is_empty-keep, any_congr, all_congr, any-or,
  any-keep, any_mono, mem-of-all, and-eq-true,
}
use patch_board.Common.Text.{str_eq}
use patch_board.Common.Dict.{contains, contains_of_mem}
use patch_board.Store.Model.{
  resolved, complete_for, StoreProviderObservation, store_provider_key, matches,
  StoreReconciliationInput, current,
}
use patch_board.Store.Evidence.{
  Collected, collect, nothing_collected, required_provider_set,
  all_required_providers_returned_negatives,
}
use patch_board.Store.Evidence.Kept.{
  is_live, is_positive, is_exact_offer, is_inexact_offer, is_live_negative, is_live_inapplicable,
  is_live_pending, is_blocking, collect-exact, collect-inexact, collect-negatives,
  collect-inapplicable, collect-pending,
}
use patch_board.Store.Evidence.Flags.{
  is_from, collect-evidence, collect-blocking, collect-blocked_required, collect-seen,
  is_blocking_required,
}
use patch_board.Store.Reconcile.{
  reconcile_store_update, decide, first_unseen, with_evidence, initial_assessment,
}
use Stages.{is_current, is_none, settled, eq_of_is_current, decide-current}

-- Three of the tests are implied by the others.
drop_implied :
    (seen exact inexact all_seen blocked blocking awaited ruled_out complete some_required
      negative : Bool)
    → (some_required ≡ true → negative ≡ true → seen ≡ true)
    → (negative ≡ true → all_seen ≡ true)
    → (blocking ≡ false → blocked ≡ false)
    → (seen
        && (not exact
            && (not inexact
                && (all_seen
                    && (not blocked
                        && not blocking
                        && not awaited
                        && not ruled_out
                        && complete
                        && (some_required && negative))))))
      ≡ (not (exact || inexact)
          && not blocking
          && not awaited
          && not ruled_out
          && complete
          && some_required
          && negative)
drop_implied seen exact inexact all_seen blocked false awaited ruled_out complete true true f g h =
    rw (f refl refl, g refl, h refl) (ground arith)
drop_implied seen exact inexact all_seen blocked _ awaited ruled_out complete _ _ f g h =
    ground arith

-- "Current" is answered for an identified user and family, in a completed scan of that user, when
-- no healthy provider offers, awaits or rules out an update, no provider's evidence is blocking, some
-- provider is required, and every required provider says that there is no update.
abbrev pub current_warranted : StoreReconciliationInput → Bool
current_warranted input =
    let os = input.observations in
    let required = required_provider_set input.required_providers in
    resolved input.identity
    && complete_for input.scan input.identity
    && not (any (λ o. is_live input o && is_positive o.kind) os)
    && not (any (is_blocking input) os)
    && not (any (is_live_pending input) os)
    && not (any (is_live_inapplicable input) os)
    && not (is_empty required)
    && all
        (λ key.
          any (λ o. is_live_negative input o && str_eq (store_provider_key o.provider) key) os)
        required

first_unseen-none :
    (seen required : List String)
    → ((key : String) → Memᴰ key required → contains key seen ≡ true)
    → is_none (first_unseen seen required) ≡ true
unfolding first_unseen
first_unseen-none seen [] h = refl
first_unseen-none seen (key ∷ keys) h =
    rw (h key (Memᴰ.head refl)) (first_unseen-none seen keys (λ k m. h k (Memᴰ.tail m)))

module _ (input : StoreReconciliationInput) where
  abbrev os : List StoreProviderObservation
  os = input.observations

  abbrev required : List String
  required = required_provider_set input.required_providers

  abbrev collected : Collected
  collected = collect input required nothing_collected os

  positive_split :
      any (λ o. is_live input o && is_positive o.kind) os
      ≡ (any (is_exact_offer input) os || any (is_inexact_offer input) os)
  positive_split =
      any_congr _ _ os (λ o. ground arith)
      ∙ any-or (is_exact_offer input) (is_inexact_offer input) os

  blocked_is_blocking :
      any (is_blocking input) os ≡ false → any (is_blocking_required input required) os ≡ false
  blocked_is_blocking h = elim (Bool-cases (any (is_blocking_required input required) os)) [
    | inl t ↦ absurd (
        cc (
          sym h
          ∙ any_mono (is_blocking_required input required) (is_blocking input) os
              (λ o e. ground arith) t))
    | inr f ↦ f
  ]

  negatives_by_provider :
      all_required_providers_returned_negatives required (keep (is_live_negative input) os) ≡ (
        not (is_empty required)
        && all
            (λ key.
              any (λ o. is_live_negative input o && str_eq (store_provider_key o.provider) key) os)
            required)
  unfolding all_required_providers_returned_negatives
  negatives_by_provider = ground (
    arith,
    all_congr
        (λ key.
          any (λ o. str_eq (store_provider_key o.provider) key) (keep (is_live_negative input) os))
        (λ key.
          any (λ o. is_live_negative input o && str_eq (store_provider_key o.provider) key) os)
        required
        (λ key.
          any-keep (is_live_negative input) (λ o. str_eq (store_provider_key o.provider) key) os),
  )

  -- A provider that says "no update" has been seen.
  seen_of_negatives :
      all
          (λ key.
            any (λ o. is_live_negative input o && str_eq (store_provider_key o.provider) key) os)
          required
        ≡ true
      → is_none (first_unseen collected.seen_required_providers required) ≡ true
  seen_of_negatives h = first_unseen-none collected.seen_required_providers required λ key m.
      collect-seen input required key os (contains_of_mem key required m)
      ∙ any_mono _ (is_from input key) os (λ o e. ground arith)
          (mem-of-all
            (λ key.
              any (λ o. is_live_negative input o && str_eq (store_provider_key o.provider) key) os)
            required h m)

  evidence_of_negatives :
      (keys : List String)
      → not (is_empty keys) ≡ true
      → all
          (λ key.
            any (λ o. is_live_negative input o && str_eq (store_provider_key o.provider) key) os)
          keys
        ≡ true
      → any (λ o. matches o input.identity input.scan) os ≡ true
  unfolding all
  evidence_of_negatives [] ne h = cc
  evidence_of_negatives (key ∷ keys) ne h =
      any_mono (λ o. is_live_negative input o && str_eq (store_provider_key o.provider) key)
        (λ o. matches o input.identity input.scan) os (λ o e. ground arith) (and-eq-true _ _ h).0

  abbrev all_negative : Bool
  all_negative =
      all
        (λ key.
          any (λ o. is_live_negative input o && str_eq (store_provider_key o.provider) key) os)
        required

  -- What the loop has collected, as tests of the observations.
  settled_by_tests : settled input required collected ≡ (
      not (any (is_blocking_required input required) os)
      && not (any (is_blocking input) os)
      && not (any (is_live_pending input) os)
      && not (any (is_live_inapplicable input) os)
      && complete_for input.scan input.identity
      && (not (is_empty required) && all_negative))
  settled_by_tests =
      rw
        (
          collect-blocked_required input required os,
          collect-blocking input required os,
          collect-pending input required os,
          collect-inapplicable input required os,
          collect-negatives input required os,
          is_empty-keep (is_live_pending input) os,
          is_empty-keep (is_live_inapplicable input) os,
          negatives_by_provider,
        )
        refl

  decided-current :
      is_current
        (decide input required (with_evidence (initial_assessment input) collected) collected).state
      ≡ (not (any (λ o. is_live input o && is_positive o.kind) os)
          && not (any (is_blocking input) os)
          && not (any (is_live_pending input) os)
          && not (any (is_live_inapplicable input) os)
          && complete_for input.scan input.identity
          && not (is_empty required)
          && all
              (λ key.
                any
                  (λ o. is_live_negative input o && str_eq (store_provider_key o.provider) key)
                  os)
              required)
  unfolding initial_assessment with_evidence
  decided-current =
      rw
        (
          decide-current input required (with_evidence (initial_assessment input) collected)
              collected refl,
          collect-evidence input required os,
          settled_by_tests,
          collect-exact input required os,
          collect-inexact input required os,
          is_empty-keep (is_exact_offer input) os,
          is_empty-keep (is_inexact_offer input) os,
          positive_split,
        )
        (drop_implied (any (λ o. matches o input.identity input.scan) os)
          (any (is_exact_offer input) os) (any (is_inexact_offer input) os)
          (is_none (first_unseen collected.seen_required_providers required))
          (any (is_blocking_required input required) os) (any (is_blocking input) os)
          (any (is_live_pending input) os) (any (is_live_inapplicable input) os)
          (complete_for input.scan input.identity) (not (is_empty required)) all_negative
          (evidence_of_negatives required) seen_of_negatives blocked_is_blocking)

  reconcile-current : is_current (reconcile_store_update input).state ≡ current_warranted input
  unfolding reconcile_store_update complete_for
  reconcile-current = ground (arith, decided-current)

  -- "Current" is answered exactly for an identified package in a completed scan of its user, when no
  -- live observation offers, awaits or rules out an update, none is blocking, some provider is
  -- required, and every required provider has a live negative.
  pub reconcile_store_update-current_iff :
      ((reconcile_store_update input).state ≡ current) ↔ (current_warranted input ≡ true)
  reconcile_store_update-current_iff = (
    λ h. sym reconcile-current ∙ ap is_current h,
    λ h. eq_of_is_current _ (reconcile-current ∙ h),
  )
