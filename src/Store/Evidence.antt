-- ===== src/Store/Evidence.antt =====
-- internal/updater/store_update_model.go, ReconcileStoreUpdate: the tests on observations, and the
-- loop over them (`collect`). A Go map's iteration order is unspecified; here it is the order of
-- insertion.
pub mod Kept
pub mod Flags
use patch_board.Common.{
  ℕ, suc, String, Bool, true, false, not, ◌&&◌, ◌||◌, Option, none, some, List, [], ◌∷◌,
  if◌then◌else◌, is_empty, any, all,
}
use mathlib.Core.List.{◌++◌ as append}
use patch_board.Common.Text.{str_eq, nonempty}
use patch_board.Common.Dict.{Dict, contains, add, insert}
use patch_board.Store.Model.{
  StoreInstalledIdentity, StoreProviderIdentity, provider_key, store_provider_key,
  StoreProviderHealth, is_healthy, StoreObservationKind, positive_update_offer,
  authoritative_negative, provider_failure, incomplete_result, unsupported_provider, stale_result,
  newer_catalog_no_applicable_installer, pending_update, empty_result, ExactStoreUpdateTarget,
  exact_for, StoreProviderObservation, matches, StoreEvidenceSummary, StoreReconciliationInput,
}

unfoldable pub required_provider_set : List StoreProviderIdentity → List String
unfolding add
required_provider_set [] = []
required_provider_set (provider ∷ providers) =
    let rest = required_provider_set providers in
    if nonempty (provider_key provider) then add (provider_key provider) rest else rest

abbrev blocking_kind : StoreObservationKind → Bool
blocking_kind provider_failure = true
blocking_kind incomplete_result = true
blocking_kind unsupported_provider = true
blocking_kind stale_result = true
blocking_kind empty_result = true
blocking_kind _ = false

unfoldable pub observation_blocks_assessment : StoreProviderObservation → Bool
observation_blocks_assessment observation =
    if not (is_healthy observation.health) then true else blocking_kind observation.kind

-- The provider keys for which a "no update" may be a false negative.
unfoldable pub known_store_false_negative_provider : String → Bool
known_store_false_negative_provider key =
    str_eq key "store-cli-updates"
    || str_eq key "store-cli-exact"
    || str_eq key "winget-msstore-exact"

abbrev exact_catalog_provider : String → Bool
exact_catalog_provider key =
    str_eq key "store-cli-exact"
    || str_eq key "winget-msstore-exact"
    || str_eq key "store-winrt-discovery"

abbrev is_exact_catalog_positive : StoreProviderObservation → Option ExactStoreUpdateTarget → Bool
is_exact_catalog_positive offer none = false
is_exact_catalog_positive offer (some target) =
    exact_for target offer.identity
    && (exact_catalog_provider (provider_key offer.provider)
        || exact_catalog_provider (provider_key target.provider))

unfoldable pub has_exact_catalog_positive_offer : List StoreProviderObservation → Bool
unfolding any
has_exact_catalog_positive_offer = any (λ offer. is_exact_catalog_positive offer offer.target)

unfoldable pub negative_evidence_can_yield_to_exact_positive :
    List StoreProviderObservation → List StoreProviderObservation → Bool
unfolding all has_exact_catalog_positive_offer
negative_evidence_can_yield_to_exact_positive exact_update_offers authoritative_negatives =
    if is_empty authoritative_negatives
    then true
    else if not (has_exact_catalog_positive_offer exact_update_offers)
    then false
    else all (λ negative. known_store_false_negative_provider (provider_key negative.provider))
        authoritative_negatives

unfoldable pub all_required_providers_returned_negatives :
    List String → List StoreProviderObservation → Bool
unfolding all any
all_required_providers_returned_negatives required negatives =
    if is_empty required
    then false
    else all
        (λ provider.
          any (λ negative. str_eq (store_provider_key negative.provider) provider) negatives)
        required

-- The variables of the loop over the observations.
pub record Collected : Type 0 where
  pub rejected_evidence_count : ℕ
  pub provider_health : Dict StoreProviderHealth
  pub evidence : List StoreEvidenceSummary
  pub seen_required_providers : List String
  pub blocked_required_provider : String
  pub first_blocking_provider : String
  pub first_blocking_observation : Option StoreProviderObservation
  pub exact_update_offers : List StoreProviderObservation
  pub offers_without_exact_target : List StoreProviderObservation
  pub authoritative_negatives : List StoreProviderObservation
  pub no_applicable_installer : List StoreProviderObservation
  pub pending_updates : List StoreProviderObservation

abbrev pub nothing_collected : Collected
nothing_collected = record {
  rejected_evidence_count = 0;
  provider_health = [];
  evidence = [];
  seen_required_providers = [];
  blocked_required_provider = "";
  first_blocking_provider = "";
  first_blocking_observation = none;
  exact_update_offers = [];
  offers_without_exact_target = [];
  authoritative_negatives = [];
  no_applicable_installer = [];
  pending_updates = [];
}

abbrev pub has_exact_target : StoreInstalledIdentity → Option ExactStoreUpdateTarget → Bool
has_exact_target identity none = false
has_exact_target identity (some target) = exact_for target identity

-- The `switch` on the kind of a healthy observation.
sort_by_kind :
    StoreInstalledIdentity → StoreProviderObservation → StoreObservationKind → Collected → Collected
sort_by_kind identity o positive_update_offer c =
    if has_exact_target identity o.target
    then record c { exact_update_offers = append c.exact_update_offers (o ∷ []) }
    else record c { offers_without_exact_target = append c.offers_without_exact_target (o ∷ []) }
sort_by_kind identity o authoritative_negative c = record c {
  authoritative_negatives = append c.authoritative_negatives (o ∷ []);
}
sort_by_kind identity o newer_catalog_no_applicable_installer c = record c {
  no_applicable_installer = append c.no_applicable_installer (o ∷ []);
}
sort_by_kind identity o pending_update c = record c {
  pending_updates = append c.pending_updates (o ∷ []);
}
sort_by_kind identity o _ c = c

-- The bookkeeping of a matching observation, before the `switch`.
note_evidence : List String → StoreProviderObservation → String → Bool → Collected → Collected
note_evidence required o key blocks c = record c {
  provider_health = insert key o.health c.provider_health;
  evidence = append c.evidence (record { provider = key; health = o.health; kind = o.kind } ∷ []);
  first_blocking_observation =
      if blocks && not (nonempty c.first_blocking_provider)
      then some o
      else c.first_blocking_observation;
  first_blocking_provider =
      if blocks && not (nonempty c.first_blocking_provider) then key else c.first_blocking_provider;
  seen_required_providers =
      if contains key required
      then add key c.seen_required_providers
      else c.seen_required_providers;
  blocked_required_provider =
      if contains key required && blocks && not (nonempty c.blocked_required_provider)
      then key
      else c.blocked_required_provider;
}

unfoldable pub collect_one :
    StoreReconciliationInput → List String → Collected → StoreProviderObservation → Collected
unfolding note_evidence sort_by_kind observation_blocks_assessment
collect_one input required c o =
    let key = store_provider_key o.provider in
    let noted = note_evidence required o key (observation_blocks_assessment o) c in
    if not (matches o input.identity input.scan)
    then record c { rejected_evidence_count = suc c.rejected_evidence_count }
    else if is_healthy o.health
    then sort_by_kind input.identity o o.kind noted
    else noted

unfoldable pub collect :
    StoreReconciliationInput → List String → Collected → List StoreProviderObservation → Collected
unfolding collect_one
collect input required c [] = c
collect input required c (o ∷ observations) =
    collect input required (collect_one input required c o) observations
