-- ===== src/Store/Witnesses.antt =====
-- Concrete inputs for the laws of the Store update components.
mod Published
mod Executed
mod Scanned
use mathlib.Core.List.{Memᴰ}
use patch_board.Common.{◌≡◌, ◌↔◌, refl, true, none, some, [], ◌∷◌}
use patch_board.Common.Text.{trim_space, to_lower}
use patch_board.Store.Model.{
  StoreInstalledIdentity, StoreScanGeneration, StoreScanCompletionStatus, StoreProviderIdentity,
  ExactStoreUpdateTarget, exact_for, StoreProviderObservation, StoreObservationKind,
  StoreProviderHealth, StoreReconciliationInput, StoreUpdateState,
}
use patch_board.Store.Offers.{agreed, reconcile_exact_store_update_offers}
use patch_board.Store.Evidence.Kept.{is_exact_offer}
use patch_board.Store.Reconcile.{reconcile_store_update}
use patch_board.Store.Reconcile.Available.{
  IsBacked, reconcile_store_update-IsBacked, same_where_given, available_agrees,
}
use patch_board.Store.Reconcile.Current.{current_warranted, reconcile_store_update-current_iff}

abbrev pub app : StoreInstalledIdentity
app = record { user_sid = "S-1"; package_family_name = "Acme.App_1a" }

abbrev pub scan : StoreScanGeneration
scan = record {
  scan_id = "scan-7";
  user_sid = "S-1";
  started_at = 100;
  completed_at = 200;
  provider_versions = [];
  provider_health = [];
  completion_status = StoreScanCompletionStatus.completed;
}

abbrev pub winget : StoreProviderIdentity
winget = record { id = "winget-msstore-exact"; name = "WinGet"; backend = "winget" }

abbrev cli : StoreProviderIdentity
cli = record { id = "store-cli-exact"; name = "Store CLI"; backend = "store" }

abbrev pub target : ExactStoreUpdateTarget
target = record {
  identity = app;
  provider = winget;
  product_id = "9NBLGGH4NNS1";
  update_id = "";
  verified = true;
  verified_by = "winget";
  verified_at = 150;
}

abbrev pub offer : StoreProviderObservation
offer = record {
  provider = winget;
  health = StoreProviderHealth.healthy;
  kind = StoreObservationKind.positive_update_offer;
  identity = app;
  scan_id = "scan-7";
  observed_at = 150;
  installed_version = "1.0";
  available_version = "1.2";
  catalog_version = "";
  target = some target;
  mapping = none;
  diagnostics = "";
}

abbrev offering : StoreReconciliationInput
offering = record {
  identity = app;
  scan = scan;
  required_providers = winget ∷ [];
  observations = offer ∷ [];
}

offering_available : (reconcile_store_update offering).state ≡ StoreUpdateState.available
unfolding reconcile_store_update patch_board.Store.Model.resolved patch_board.Store.Model.usable_for
    patch_board.Store.Reconcile.decide patch_board.Store.Evidence.collect
    patch_board.Store.Model.matches exact_for trim_space
    patch_board.Store.Model.looks_like_store_product_id
    patch_board.Store.Evidence.negative_evidence_can_yield_to_exact_positive
    reconcile_exact_store_update_offers patch_board.Store.Offers.index_from
    patch_board.Store.Offers.describe patch_board.Common.Dict.insert
    patch_board.Store.Offers.has_conflicting_non_pfn_update_ids
offering_available = refl

reconcile_store_update-IsBacked_example : IsBacked offering (reconcile_store_update offering)
reconcile_store_update-IsBacked_example =
    reconcile_store_update-IsBacked offering offering_available

abbrev second_offer : StoreProviderObservation
second_offer = record offer {
  provider = cli;
  target = some (record target { provider = cli; product_id = "9NBLGGH4NNS1 " });
  available_version = "1.2 ";
}

abbrev offering_twice : StoreReconciliationInput
offering_twice = record offering { observations = offer ∷ second_offer ∷ [] }

offering_twice_available :
    (reconcile_store_update offering_twice).state ≡ StoreUpdateState.available
unfolding reconcile_store_update patch_board.Store.Model.resolved patch_board.Store.Model.usable_for
    patch_board.Store.Reconcile.decide patch_board.Store.Evidence.collect
    patch_board.Store.Model.matches exact_for trim_space
    patch_board.Store.Model.looks_like_store_product_id
    patch_board.Store.Evidence.negative_evidence_can_yield_to_exact_positive
    reconcile_exact_store_update_offers patch_board.Store.Offers.index_from
    patch_board.Store.Offers.describe patch_board.Common.Dict.insert
    patch_board.Store.Offers.has_conflicting_non_pfn_update_ids to_lower
    patch_board.Store.Diagnostics.join patch_board.Store.Model.store_provider_key
    patch_board.Common.Dict.lookup patch_board.Common.Dict.add patch_board.Common.Dict.contains
    patch_board.Common.Sort.sort_by patch_board.Common.Text.lower_char
    patch_board.Common.Text.lower_shift patch_board.Store.Offers.exact_store_update_offer_sort_key
offering_twice_available = refl

first_is_exact : is_exact_offer offering_twice offer ≡ true
unfolding patch_board.Store.Model.matches exact_for trim_space
    patch_board.Store.Model.looks_like_store_product_id
first_is_exact = refl

second_is_exact : is_exact_offer offering_twice second_offer ≡ true
unfolding patch_board.Store.Model.matches exact_for trim_space
    patch_board.Store.Model.looks_like_store_product_id
second_is_exact = refl

available_agrees_example :
    (same_where_given (trim_space "9NBLGGH4NNS1") (trim_space "9NBLGGH4NNS1 ") ≡ true)
    × (same_where_given (trim_space "1.2") (trim_space "1.2 ") ≡ true)
available_agrees_example =
    available_agrees offering_twice offering_twice_available offer second_offer target
      (record target { provider = cli; product_id = "9NBLGGH4NNS1 " }) (Memᴰ.head refl)
      (Memᴰ.tail (Memᴰ.head refl)) refl refl first_is_exact second_is_exact

abbrev negative : StoreProviderObservation
negative = record offer {
  kind = StoreObservationKind.authoritative_negative;
  available_version = "";
  target = none;
}

abbrev settled : StoreReconciliationInput
settled = record offering { observations = negative ∷ [] }

reconcile_store_update-current_iff_example :
    ((reconcile_store_update settled).state ≡ StoreUpdateState.current)
    ↔ (current_warranted settled ≡ true)
reconcile_store_update-current_iff_example = reconcile_store_update-current_iff settled

settled_current : (reconcile_store_update settled).state ≡ StoreUpdateState.current
unfolding reconcile_store_update patch_board.Store.Model.resolved patch_board.Store.Model.usable_for
    patch_board.Store.Reconcile.decide patch_board.Store.Evidence.collect
    patch_board.Store.Model.matches patch_board.Store.Model.provider_key
    patch_board.Store.Model.store_provider_key patch_board.Store.Model.complete_for
settled_current = refl

offering_agreed :
    reconcile_exact_store_update_offers app (offer ∷ [])
    ≡ agreed (record { observation = offer; target = target; available_version = "1.2" })
unfolding reconcile_exact_store_update_offers exact_for trim_space
    patch_board.Store.Model.looks_like_store_product_id patch_board.Store.Offers.index_from
    patch_board.Store.Offers.describe patch_board.Common.Dict.insert
    patch_board.Store.Offers.has_conflicting_non_pfn_update_ids
    patch_board.Store.Offers.first_value_by_sorted_key patch_board.Store.Offers.preferred_update_id
    patch_board.Common.Dict.lookup to_lower
offering_agreed = refl
