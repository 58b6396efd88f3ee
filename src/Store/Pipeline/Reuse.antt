-- ===== src/Store/Pipeline/Reuse.antt =====
-- internal/updater/store_scan_pipeline.go: mappings of the previous snapshot that are used again
-- (reusableStoreMappings, appendMappingReuseObservation).
use mathlib.Core.List.{◌++◌ as append}
use patch_board.Common.{
  ℕ, ◌-◌, String, Bool, true, false, not, ◌&&◌, ◌||◌, Option, none, some, [], ◌∷◌, fold_left, ltb,
  if◌then◌else◌,
}
use patch_board.Common.Text.{nonempty, trim_space, to_lower, equal_fold}
use patch_board.Common.Dict.{Dict, lookup}
use patch_board.Store.Diagnostics.{first_non_empty}
use patch_board.Store.Model.{
  equal, StoreScanGeneration, is_zero, StoreProviderIdentity, provider_key, store_provider_key,
  StoreProviderHealth, positive_update_offer, VerifiedStoreIdentityMapping, ExactStoreUpdateTarget,
  StoreProviderObservation,
}
use patch_board.Store.Inventory.{StorePackagedAppFamily, version_text}
use patch_board.Store.Snapshot.{StoreCatalogProviderRun, StoreScanSnapshot}
use patch_board.Store.Pipeline.Identities.{IdentityMap, insert_identity}

-- 14 days in nanoseconds.
abbrev pub store_mapping_freshness_window : ℕ
store_mapping_freshness_window = 1209600000000000

-- The publishers are compared where both are given.
abbrev publishers_differ : VerifiedStoreIdentityMapping → StorePackagedAppFamily → Bool
publishers_differ mapping family =
    nonempty mapping.publisher_id
    && nonempty family.primary.publisher_id
    && not (equal_fold mapping.publisher_id family.primary.publisher_id)

abbrev same_switch : Bool → Bool → Bool
same_switch true b = b
same_switch false b = not b

-- `now` is given: the scan has a start time. `now - verified_at` is 0 for a mapping that was verified
-- later than `now`, where Go's difference is negative: neither is above the window.
unfoldable pub mapping_reusable_for_family :
    VerifiedStoreIdentityMapping → String → StorePackagedAppFamily → ℕ → String → Bool
unfolding equal first_non_empty trim_space provider_key equal_fold
mapping_reusable_for_family mapping run_version family now current_provider_version =
    let provider_version = first_non_empty (mapping.provider_version ∷ run_version ∷ []) in
    if not (nonempty mapping.product_id)
      || not (equal mapping.installed_identity family.identity)
      || is_zero mapping.verified_at
    then false
    else if ltb store_mapping_freshness_window (now - mapping.verified_at)
    then false
    else if not (nonempty provider_version)
        || not (nonempty (trim_space mapping.provider_version))
        || not (nonempty (trim_space current_provider_version))
        || not (nonempty (provider_key mapping.provider))
    then false
    else if not (equal_fold provider_version (trim_space current_provider_version))
    then false
    else if not (equal_fold mapping.identity_name family.primary.identity_name)
    then false
    else if publishers_differ mapping family
    then false
    else if not (equal_fold mapping.processor_architecture family.primary.processor_architecture)
    then false
    else same_switch mapping.product_like family.product_like

abbrev pub reusable_for :
    Option StorePackagedAppFamily → VerifiedStoreIdentityMapping → String → ℕ → String → Bool
reusable_for none mapping run_version now version = false
reusable_for (some family) mapping run_version now version =
    mapping_reusable_for_family mapping run_version family now version

unfoldable pub note_reusable :
    Dict StorePackagedAppFamily
    → ℕ
    → String
    → String
    → IdentityMap VerifiedStoreIdentityMapping
    → VerifiedStoreIdentityMapping
    → IdentityMap VerifiedStoreIdentityMapping
unfolding lookup mapping_reusable_for_family insert_identity
note_reusable by_pfn now version run_version reusable mapping =
    let family = lookup (to_lower mapping.installed_identity.package_family_name) by_pfn in
    if not (reusable_for family mapping run_version now version)
    then reusable
    else insert_identity mapping.installed_identity mapping reusable

-- What the pipeline knows of the previous snapshot, if there is one.
unfoldable pub reusable_store_mappings :
    Option StoreScanSnapshot
    → Dict StorePackagedAppFamily
    → ℕ
    → String
    → IdentityMap VerifiedStoreIdentityMapping
unfolding fold_left note_reusable
reusable_store_mappings none by_pfn now version = []
reusable_store_mappings (some snapshot) by_pfn now version =
    if not snapshot.published || snapshot.recovered_from_fallback
    then []
    else fold_left
        (λ reusable run.
          fold_left (note_reusable by_pfn now version run.version) reusable run.mappings)
        [] snapshot.provider_runs

abbrev pub mapping_reuse_provider : StoreProviderIdentity
mapping_reuse_provider = record {
  id = "store-mapping-reuse";
  name = "Verified Store mapping reuse";
  backend = "snapshot";
}

-- A run without evidence, which the first reused mapping starts.
unfoldable pub started_reuse :
    StoreScanGeneration
    → VerifiedStoreIdentityMapping
    → StoreProviderObservation
    → Option StoreCatalogProviderRun
    → StoreCatalogProviderRun
started_reuse scan mapping source (some run) = run
started_reuse scan mapping source none = record {
  provider = mapping_reuse_provider;
  version = mapping.provider_version;
  started_at = if is_zero source.observed_at then scan.started_at else source.observed_at;
  completed_at = if is_zero source.observed_at then scan.started_at else source.observed_at;
  health = StoreProviderHealth.healthy;
  error = "";
  observations = [];
  mappings = [];
  positive_update_hint = false;
}

unfoldable pub reused_target :
    StorePackagedAppFamily
    → VerifiedStoreIdentityMapping
    → StoreProviderObservation
    → ExactStoreUpdateTarget
unfolding store_provider_key
reused_target family mapping source = record {
  identity = family.identity;
  provider = mapping.provider;
  product_id = mapping.product_id;
  update_id = family.identity.package_family_name;
  verified = true;
  verified_by = store_provider_key mapping.provider;
  verified_at = if is_zero mapping.verified_at then source.observed_at else mapping.verified_at;
}

unfoldable pub reused_observation :
    StoreScanGeneration
    → StorePackagedAppFamily
    → VerifiedStoreIdentityMapping
    → StoreProviderObservation
    → StoreProviderObservation
unfolding reused_target first_non_empty version_text
reused_observation scan family mapping source = record {
  provider = mapping_reuse_provider;
  health = StoreProviderHealth.healthy;
  kind = positive_update_offer;
  identity = family.identity;
  scan_id = scan.scan_id;
  observed_at = source.observed_at;
  installed_version =
      first_non_empty (source.installed_version ∷ version_text family.primary.version ∷ []);
  available_version = source.available_version;
  catalog_version = source.catalog_version;
  target = some (reused_target family mapping source);
  mapping = none;
  diagnostics = "Aggregate Store update evidence reused a fresh verified PFN/Product ID mapping.";
}

unfoldable pub append_mapping_reuse_observation :
    StoreScanGeneration
    → Option StoreCatalogProviderRun
    → StorePackagedAppFamily
    → VerifiedStoreIdentityMapping
    → StoreProviderObservation
    → StoreCatalogProviderRun
unfolding started_reuse reused_observation
append_mapping_reuse_observation scan run family mapping source =
    let started = started_reuse scan mapping source run in
    record started {
      observations =
          append started.observations (reused_observation scan family mapping source ∷ []);
      mappings = append started.mappings (
          record mapping {
            scan_id = scan.scan_id;
            evidence = "reused verified Store Product ID mapping for aggregate positive evidence";
          }
          ∷ []);
    }
