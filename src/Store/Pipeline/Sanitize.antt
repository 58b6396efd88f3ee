-- ===== src/Store/Pipeline/Sanitize.antt =====
-- internal/updater/store_scan_pipeline.go: what is kept of a provider's run (attachMappingFingerprints,
-- sanitizeCatalogProviderRun). A loop that appends to a part of the run starts with that part empty.
use Prim.Native.String.{◌++◌}
use mathlib.Core.List.{◌++◌ as append}
use patch_board.Common.{
  String, Bool, false, not, ◌&&◌, Option, none, some, List, [], ◌∷◌, map, fold_left, if◌then◌else◌,
}
use patch_board.Common.Text.{str_eq, nonempty, to_lower}
use patch_board.Common.Dict.{Dict, insert, lookup}
use patch_board.Store.Diagnostics.{first_non_empty}
use patch_board.Store.Model.{
  resolved, StoreScanGeneration, is_zero, StoreProviderIdentity, provider_key, StoreProviderHealth,
  is_healthy, failed, unsupported, stale, incomplete, StoreObservationKind, provider_failure,
  unsupported_provider, stale_result, incomplete_result, VerifiedStoreIdentityMapping, verified_for,
  StoreProviderObservation,
}
use patch_board.Store.Evidence.{observation_blocks_assessment}
use patch_board.Store.Inventory.{StorePackagedAppFamily}
use patch_board.Store.Snapshot.{StoreCatalogProviderRun}

-- A family that can have updates, of the user of the scan.
abbrev pub in_scope : StoreScanGeneration → StorePackagedAppFamily → Bool
in_scope scan family =
    family.product_like && resolved family.identity && str_eq family.identity.user_sid scan.user_sid

abbrev pub family_key : StorePackagedAppFamily → String
family_key family = to_lower family.identity.package_family_name

abbrev pub note_family :
    StoreScanGeneration
    → Dict StorePackagedAppFamily
    → StorePackagedAppFamily
    → Dict StorePackagedAppFamily
note_family scan by_pfn family =
    if in_scope scan family then insert (family_key family) family by_pfn else by_pfn

unfoldable pub product_like_families_by_pfn :
    StoreScanGeneration → List StorePackagedAppFamily → Dict StorePackagedAppFamily
unfolding fold_left insert resolved
product_like_families_by_pfn scan families = fold_left (note_family scan) [] families

abbrev or_given : String → String → String
or_given value other = if nonempty value then value else other

unfoldable pub with_fingerprint :
    StoreCatalogProviderRun
    → VerifiedStoreIdentityMapping
    → Option StorePackagedAppFamily
    → VerifiedStoreIdentityMapping
with_fingerprint run mapping none = mapping
with_fingerprint run mapping (some family) = record mapping {
  identity_name = or_given mapping.identity_name family.primary.identity_name;
  publisher_id = or_given mapping.publisher_id family.primary.publisher_id;
  processor_architecture =
      or_given mapping.processor_architecture family.primary.processor_architecture;
  product_like = family.product_like;
  provider_version = or_given mapping.provider_version run.version;
}

unfoldable pub attach_mapping_fingerprints :
    StoreScanGeneration
    → StoreCatalogProviderRun
    → List StorePackagedAppFamily
    → StoreCatalogProviderRun
unfolding with_fingerprint product_like_families_by_pfn lookup
attach_mapping_fingerprints scan run families =
    let by_pfn = product_like_families_by_pfn scan families in
    record run {
      mappings =
          map
            (λ mapping.
              with_fingerprint run mapping
                (lookup (to_lower mapping.installed_identity.package_family_name) by_pfn))
            run.mappings;
    }

unfoldable pub observation_kind_for_provider_health : StoreProviderHealth → StoreObservationKind
observation_kind_for_provider_health failed = provider_failure
observation_kind_for_provider_health unsupported = unsupported_provider
observation_kind_for_provider_health stale = stale_result
observation_kind_for_provider_health _ = incomplete_result

-- `run.Health == ""`.
abbrev pub is_unset : StoreProviderHealth → Bool
is_unset (StoreProviderHealth.other name) = not (nonempty name)
is_unset _ = false

-- The run is failed, and keeps the first reason.
unfoldable pub refuse : String → StoreCatalogProviderRun → StoreCatalogProviderRun
unfolding first_non_empty
refuse reason run = record run {
  health = failed;
  error = first_non_empty (run.error ∷ reason ∷ []);
}

-- The evidence is of this scan and of a package of its user.
unfoldable pub is_own : StoreScanGeneration → StoreProviderObservation → Bool
unfolding resolved
is_own scan o =
    str_eq o.scan_id scan.scan_id && str_eq o.identity.user_sid scan.user_sid && resolved o.identity

unfoldable pub own_provider :
    StoreCatalogProviderRun → StoreProviderIdentity → StoreProviderIdentity
unfolding provider_key
own_provider run provider = if nonempty (provider_key provider) then provider else run.provider

abbrev pub kept_observation :
    StoreCatalogProviderRun → StoreProviderObservation → StoreProviderObservation
kept_observation run o = record o {
  provider = own_provider run o.provider;
  observed_at = if is_zero o.observed_at then run.completed_at else o.observed_at;
}

abbrev pub named_mapping :
    StoreCatalogProviderRun → VerifiedStoreIdentityMapping → VerifiedStoreIdentityMapping
named_mapping run mapping = record mapping { provider = own_provider run mapping.provider }

abbrev pub is_verified : StoreScanGeneration → VerifiedStoreIdentityMapping → Bool
is_verified scan mapping = verified_for mapping mapping.installed_identity scan

-- One round of the loop over the observations.
unfoldable pub keep_observation :
    StoreScanGeneration
    → StoreCatalogProviderRun
    → StoreProviderObservation
    → StoreCatalogProviderRun
unfolding own_provider is_own refuse
keep_observation scan run o =
    if not (is_own scan o)
    then refuse "provider returned cross-user, cross-scan, or unresolved evidence" run
    else record run { observations = append run.observations (kept_observation run o ∷ []) }

-- One round of the loop over the mappings.
unfoldable pub keep_mapping :
    StoreScanGeneration
    → StoreCatalogProviderRun
    → VerifiedStoreIdentityMapping
    → StoreCatalogProviderRun
unfolding own_provider verified_for refuse
keep_mapping scan run mapping =
    if not (is_verified scan (named_mapping run mapping))
    then refuse "provider returned unverifiable identity mapping" run
    else record run { mappings = append run.mappings (named_mapping run mapping ∷ []) }

-- The first observation that blocks makes a healthy run incomplete.
unfoldable pub downgraded :
    StoreCatalogProviderRun → List StoreProviderObservation → StoreCatalogProviderRun
unfolding observation_blocks_assessment own_provider first_non_empty
downgraded run [] = run
downgraded run (o ∷ os) =
    let rest = downgraded run os in
    if not (observation_blocks_assessment o) then rest else record run {
      health = incomplete;
      error = first_non_empty (
          run.error
          ∷ (provider_key (own_provider run o.provider)
              ++ " returned incomplete package-level evidence")
          ∷ []);
    }

unfoldable pub downgrade_run_health_for_blocking_observations :
    StoreCatalogProviderRun → StoreCatalogProviderRun
unfolding downgraded
downgrade_run_health_for_blocking_observations run =
    if not (is_healthy run.health) then run else downgraded run run.observations

-- The defaults that a run gets before its evidence is looked at.
unfoldable pub named_run : StoreCatalogProviderRun → StoreCatalogProviderRun
unfolding provider_key
named_run run = record run {
  provider =
      if nonempty (provider_key run.provider)
      then run.provider
      else record run.provider { id = "unknown-provider" };
  health = if is_unset run.health then incomplete else run.health;
}

unfoldable pub sanitize_catalog_provider_run :
    StoreScanGeneration → StoreCatalogProviderRun → StoreCatalogProviderRun
unfolding named_run fold_left keep_observation keep_mapping
    downgrade_run_health_for_blocking_observations
sanitize_catalog_provider_run scan run =
    let observed =
      fold_left (keep_observation scan) (record (named_run run) { observations = [] })
        run.observations in
    downgrade_run_health_for_blocking_observations
      (fold_left (keep_mapping scan) (record observed { mappings = [] }) run.mappings)
