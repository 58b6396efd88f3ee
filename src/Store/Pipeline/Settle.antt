-- ===== src/Store/Pipeline/Settle.antt =====
-- internal/updater/store_scan_pipeline.go, runCatalogProviders: what becomes of a provider's answer,
-- with synthesizeMissingProviderObservations.
use mathlib.Core.List.{◌++◌ as append}
use patch_board.Common.{
  ℕ, String, not, ◌&&◌, Option, none, some, List, [], ◌∷◌, map, fold_left, if◌then◌else◌,
}
use patch_board.Common.Text.{str_eq, nonempty, to_lower}
use patch_board.Common.Dict.{contains, add}
use patch_board.Store.Diagnostics.{first_non_empty, sanitize_provider_diagnostic}
use patch_board.Store.Model.{
  resolved, StoreScanGeneration, is_zero, StoreProviderIdentity, provider_key, is_healthy, failed,
  StoreProviderObservation,
}
use patch_board.Store.Inventory.{StorePackagedAppFamily, version_text}
use patch_board.Store.Snapshot.{StoreCatalogProviderRun}
use patch_board.Store.Pipeline.Sanitize.{
  in_scope, family_key, attach_mapping_fingerprints, observation_kind_for_provider_health,
  sanitize_catalog_provider_run,
}

-- `seen`: the families that the provider has said something about.
pub note_seen : StoreScanGeneration → List String → StoreProviderObservation → List String
unfolding add
note_seen scan seen o =
    if str_eq o.identity.user_sid scan.user_sid && nonempty o.identity.package_family_name
    then add (to_lower o.identity.package_family_name) seen
    else seen

unfoldable pub synthesized_at : StoreScanGeneration → StoreCatalogProviderRun → ℕ
synthesized_at scan run =
    if not (is_zero run.completed_at)
    then run.completed_at
    else if not (is_zero scan.completed_at)
    then scan.completed_at
    else scan.started_at

-- The observation that says that nothing is known of the family.
unfoldable pub missing_observation :
    StoreScanGeneration
    → StoreCatalogProviderRun
    → StorePackagedAppFamily
    → StoreProviderObservation
unfolding synthesized_at observation_kind_for_provider_health sanitize_provider_diagnostic
    first_non_empty version_text
missing_observation scan run family = record {
  provider = run.provider;
  health = run.health;
  kind = observation_kind_for_provider_health run.health;
  identity = family.identity;
  scan_id = scan.scan_id;
  observed_at = synthesized_at scan run;
  installed_version = version_text family.primary.version;
  available_version = "";
  catalog_version = "";
  target = none;
  mapping = none;
  diagnostics = sanitize_provider_diagnostic (
      first_non_empty
        (run.error ∷ "provider did not return complete evidence for this package family" ∷ []));
}

unfoldable pub add_missing :
    StoreScanGeneration
    → List String
    → StoreCatalogProviderRun
    → StorePackagedAppFamily
    → StoreCatalogProviderRun
unfolding missing_observation contains resolved
add_missing scan seen run family =
    if not (in_scope scan family)
    then run
    else if contains (family_key family) seen
    then run
    else record run {
      observations = append run.observations (missing_observation scan run family ∷ []);
    }

unfoldable pub synthesize_missing_provider_observations :
    StoreScanGeneration
    → StoreCatalogProviderRun
    → List StorePackagedAppFamily
    → StoreCatalogProviderRun
unfolding fold_left add_missing note_seen provider_key
synthesize_missing_provider_observations scan run families =
    if is_healthy run.health
    then run
    else if str_eq (provider_key run.provider) "store-winrt-discovery"
    then run
    else fold_left (add_missing scan (fold_left (note_seen scan) [] run.observations)) run families

-- What a provider answers, and what is seen from outside: the times of the call, and the error of its
-- context if that has ended.
pub record ProviderAnswer : Type 0 where
  pub run : StoreCatalogProviderRun
  pub identity : StoreProviderIdentity
  pub started : ℕ
  pub completed : ℕ
  pub ended : Option String

abbrev pub if_ended : Option String → StoreCatalogProviderRun → StoreCatalogProviderRun
if_ended none run = run
if_ended (some reason) run = record run { health = failed; error = reason }

unfoldable pub completed_run : ProviderAnswer → StoreCatalogProviderRun
unfolding provider_key
completed_run answer =
    let run = answer.run in
    if_ended answer.ended (record run {
      provider = if nonempty (provider_key run.provider) then run.provider else answer.identity;
      started_at = if is_zero run.started_at then answer.started else run.started_at;
      completed_at = if is_zero run.completed_at then answer.completed else run.completed_at;
    })

-- The body of a goroutine of runCatalogProviders.
unfoldable pub settled_run :
    StoreScanGeneration → List StorePackagedAppFamily → ProviderAnswer → StoreCatalogProviderRun
unfolding completed_run attach_mapping_fingerprints sanitize_catalog_provider_run
    synthesize_missing_provider_observations
settled_run scan families answer = sanitize_catalog_provider_run scan (
    synthesize_missing_provider_observations scan
      (sanitize_catalog_provider_run scan
        (attach_mapping_fingerprints scan (completed_run answer) families))
      families)

-- The runs stand in the order of the providers, whichever goroutine ends first.
unfoldable pub run_catalog_providers :
    StoreScanGeneration
    → List StorePackagedAppFamily
    → List ProviderAnswer
    → List StoreCatalogProviderRun
unfolding settled_run
run_catalog_providers scan families answers = map (settled_run scan families) answers
