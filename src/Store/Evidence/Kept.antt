-- ===== src/Store/Evidence/Kept.antt =====
-- What the loop has collected, as filters of the observations.
use mathlib.Core.List.{append_assoc, append-nil}
use patch_board.Common.{
  String, Bool, true, false, not, ◌&&◌, List, [], ◌∷◌, ◌++◌, ◌≡◌, sym, arith, inl, inr,
  if◌then◌else◌, keep, Bool-cases,
}
use patch_board.Store.Model.{
  is_healthy, StoreObservationKind, positive_update_offer, authoritative_negative,
  newer_catalog_no_applicable_installer, pending_update, StoreProviderObservation, matches,
  StoreReconciliationInput,
}
use patch_board.Store.Evidence.{
  Collected, nothing_collected, collect, collect_one, has_exact_target,
  observation_blocks_assessment,
}

abbrev pub is_positive : StoreObservationKind → Bool
is_positive positive_update_offer = true
is_positive _ = false

abbrev pub is_negative : StoreObservationKind → Bool
is_negative authoritative_negative = true
is_negative _ = false

abbrev pub is_inapplicable : StoreObservationKind → Bool
is_inapplicable newer_catalog_no_applicable_installer = true
is_inapplicable _ = false

abbrev pub is_pending : StoreObservationKind → Bool
is_pending pending_update = true
is_pending _ = false

module _ (input : StoreReconciliationInput) where
  -- Evidence of this identity and this scan generation, from a healthy provider.
  abbrev pub is_live : StoreProviderObservation → Bool
  is_live o = matches o input.identity input.scan && is_healthy o.health

  abbrev pub is_exact_offer : StoreProviderObservation → Bool
  is_exact_offer o = is_live o && is_positive o.kind && has_exact_target input.identity o.target

  abbrev pub is_inexact_offer : StoreProviderObservation → Bool
  is_inexact_offer o =
      is_live o && is_positive o.kind && not (has_exact_target input.identity o.target)

  abbrev pub is_live_negative : StoreProviderObservation → Bool
  is_live_negative o = is_live o && is_negative o.kind

  abbrev pub is_live_inapplicable : StoreProviderObservation → Bool
  is_live_inapplicable o = is_live o && is_inapplicable o.kind

  abbrev pub is_live_pending : StoreProviderObservation → Bool
  is_live_pending o = is_live o && is_pending o.kind

  abbrev pub is_blocking : StoreProviderObservation → Bool
  is_blocking o = matches o input.identity input.scan && observation_blocks_assessment o

  module _ (required : List String) where
    collect_one-exact :
        (c : Collected) (o : StoreProviderObservation)
        → (collect_one input required c o).exact_update_offers
          ≡ c.exact_update_offers ++ (if is_exact_offer o then o ∷ [] else [])
    unfolding collect_one
    collect_one-exact c o = ground (arith, append-nil c.exact_update_offers)

    collect_one-inexact :
        (c : Collected) (o : StoreProviderObservation)
        → (collect_one input required c o).offers_without_exact_target
          ≡ c.offers_without_exact_target ++ (if is_inexact_offer o then o ∷ [] else [])
    unfolding collect_one
    collect_one-inexact c o = ground (arith, append-nil c.offers_without_exact_target)

    collect_one-negatives :
        (c : Collected) (o : StoreProviderObservation)
        → (collect_one input required c o).authoritative_negatives
          ≡ c.authoritative_negatives ++ (if is_live_negative o then o ∷ [] else [])
    unfolding collect_one
    collect_one-negatives c o = ground (arith, append-nil c.authoritative_negatives)

    collect_one-inapplicable :
        (c : Collected) (o : StoreProviderObservation)
        → (collect_one input required c o).no_applicable_installer
          ≡ c.no_applicable_installer ++ (if is_live_inapplicable o then o ∷ [] else [])
    unfolding collect_one
    collect_one-inapplicable c o = ground (arith, append-nil c.no_applicable_installer)

    collect_one-pending :
        (c : Collected) (o : StoreProviderObservation)
        → (collect_one input required c o).pending_updates
          ≡ c.pending_updates ++ (if is_live_pending o then o ∷ [] else [])
    unfolding collect_one
    collect_one-pending c o = ground (arith, append-nil c.pending_updates)

    module _ (part : Collected → List StoreProviderObservation)
        (p : StoreProviderObservation → Bool)
        (step : (c : Collected) (o : StoreProviderObservation)
          → part (collect_one input required c o) ≡ part c ++ (if p o then o ∷ [] else [])) where
      collect-keep :
          (c : Collected) (os : List StoreProviderObservation)
          → part (collect input required c os) ≡ part c ++ keep p os
      unfolding collect keep
      collect-keep c [] = sym (append-nil (part c))
      collect-keep c (o ∷ os) = elim (Bool-cases (p o)) [
        | inl t ↦ rw t (
            rw (collect-keep (collect_one input required c o) os)
              (rw (step c o) (rw t (append_assoc (part c) (o ∷ []) (keep p os)))))
        | inr f ↦ rw f (
            rw (collect-keep (collect_one input required c o) os)
              (rw (step c o) (rw f (rw (append-nil (part c))))))
      ]

    pub collect-exact :
        (os : List StoreProviderObservation)
        → (collect input required nothing_collected os).exact_update_offers ≡ keep is_exact_offer os
    collect-exact os =
        collect-keep (λ c. c.exact_update_offers) is_exact_offer collect_one-exact nothing_collected
          os

    pub collect-inexact :
        (os : List StoreProviderObservation)
        → (collect input required nothing_collected os).offers_without_exact_target
          ≡ keep is_inexact_offer os
    collect-inexact os =
        collect-keep (λ c. c.offers_without_exact_target) is_inexact_offer collect_one-inexact
          nothing_collected os

    pub collect-negatives :
        (os : List StoreProviderObservation)
        → (collect input required nothing_collected os).authoritative_negatives
          ≡ keep is_live_negative os
    collect-negatives os =
        collect-keep (λ c. c.authoritative_negatives) is_live_negative collect_one-negatives
          nothing_collected os

    pub collect-inapplicable :
        (os : List StoreProviderObservation)
        → (collect input required nothing_collected os).no_applicable_installer
          ≡ keep is_live_inapplicable os
    collect-inapplicable os =
        collect-keep (λ c. c.no_applicable_installer) is_live_inapplicable collect_one-inapplicable
          nothing_collected os

    pub collect-pending :
        (os : List StoreProviderObservation)
        → (collect input required nothing_collected os).pending_updates ≡ keep is_live_pending os
    collect-pending os =
        collect-keep (λ c. c.pending_updates) is_live_pending collect_one-pending nothing_collected
          os
