-- ===== src/Store/Snapshot.antt =====
-- internal/updater/store_scan_repository.go: the snapshot of a scan generation, its validation, and
-- the normalisation of its exact targets before it is stored.
pub mod Validated
pub mod Normalized
use patch_board.Common.{
  ℕ, String, Bool, false, not, ◌&&◌, ◌||◌, Option, none, some, List, [], ◌∷◌, map, any,
  if◌then◌else◌,
}
use patch_board.Common.Text.{str_eq, nonempty, trim_space}
use patch_board.Store.Diagnostics.{first_non_empty}
use patch_board.Store.Inventory.{StorePackagedAppFamily, StorePackagedAppInventory}
use patch_board.Store.Model.{
  StoreInstalledIdentity, resolved, StoreProviderIdentity, StoreProviderHealth, StoreScanGeneration,
  is_zero, VerifiedStoreIdentityMapping, verified_for, ExactStoreUpdateTarget, exact_for,
  StoreProviderObservation, StoreUpdateAssessment,
}

pub record StorePublishedAssessment : Type 0 where
  pub assessment : StoreUpdateAssessment
  pub open assessment use *
  pub observed_at : ℕ
  pub stale : Bool
  pub store_product_id : String
  pub update_id : String
  pub exact_action_target_available : Bool
  pub applicability : String

pub record StoreCatalogProviderRun : Type 0 where
  pub provider : StoreProviderIdentity
  pub version : String
  pub started_at : ℕ
  pub completed_at : ℕ
  pub health : StoreProviderHealth
  pub error : String
  pub observations : List StoreProviderObservation
  pub mappings : List VerifiedStoreIdentityMapping
  pub positive_update_hint : Bool

pub record StoreScanSnapshot : Type 0 where
  pub schema_version : ℕ
  pub published : Bool
  pub recovered_from_fallback : Bool
  pub scan : StoreScanGeneration
  pub inventory : StorePackagedAppInventory
  pub provider_runs : List StoreCatalogProviderRun
  pub assessments : List StorePublishedAssessment

abbrev pub has_exact_target : StoreInstalledIdentity → Option ExactStoreUpdateTarget → Bool
has_exact_target identity none = false
has_exact_target identity (some target) = exact_for target identity

-- The IDs that are stored beside the target, where they are given, are the target's.
abbrev pub ids_match : StorePublishedAssessment → Option ExactStoreUpdateTarget → Bool
ids_match assessment none = false
ids_match assessment (some target) =
    let product_id = trim_space assessment.store_product_id in
    let update_id = trim_space assessment.update_id in
    (not (nonempty product_id) || str_eq product_id (trim_space target.product_id))
    && (not (nonempty update_id) || str_eq update_id (trim_space target.update_id))

unfoldable pub store_assessment_exact_target_valid : StorePublishedAssessment → Bool
store_assessment_exact_target_valid a =
    if not (has_exact_target a.identity a.target) then false else ids_match a a.target

unfoldable pub clear_store_assessment_exact_target :
    StorePublishedAssessment → StorePublishedAssessment
clear_store_assessment_exact_target a = record a {
  exact_action_target_available = false;
  assessment = record a.assessment { target = none };
  store_product_id = "";
  update_id = "";
}

abbrev pub target_product_id : Option ExactStoreUpdateTarget → String
target_product_id none = ""
target_product_id (some target) = target.product_id

abbrev pub target_update_id : Option ExactStoreUpdateTarget → String
target_update_id none = ""
target_update_id (some target) = target.update_id

-- One round of the loop of normalizeStoreScanSnapshotExactTargets.
unfoldable pub normalize_exact_target : StorePublishedAssessment → StorePublishedAssessment
unfolding store_assessment_exact_target_valid clear_store_assessment_exact_target
normalize_exact_target a =
    if not a.exact_action_target_available
    then a
    else if not (store_assessment_exact_target_valid a)
    then clear_store_assessment_exact_target a
    else record a {
      store_product_id =
          trim_space (first_non_empty (a.store_product_id ∷ target_product_id a.target ∷ []));
      update_id = trim_space (first_non_empty (a.update_id ∷ target_update_id a.target ∷ []));
    }

unfoldable pub normalize_store_scan_snapshot_exact_targets : StoreScanSnapshot → StoreScanSnapshot
unfolding normalize_exact_target
normalize_store_scan_snapshot_exact_targets snapshot = record snapshot {
  assessments = map normalize_exact_target snapshot.assessments;
}

-- The errors of validateStoreScanSnapshot.
pub data SnapshotError : Type 0 where
  missing_scan_id missing_user_sid missing_start_time foreign_family unverifiable_mapping
        foreign_observation foreign_assessment unverifiable_target :
      SnapshotError

abbrev pub bad_family : StoreScanSnapshot → StorePackagedAppFamily → Bool
bad_family s family =
    not (resolved family.identity) || not (str_eq family.identity.user_sid s.scan.user_sid)

abbrev pub bad_mapping : StoreScanSnapshot → VerifiedStoreIdentityMapping → Bool
bad_mapping s mapping = not (verified_for mapping mapping.installed_identity s.scan)

abbrev pub bad_observation : StoreScanSnapshot → StoreProviderObservation → Bool
bad_observation s o =
    not (str_eq o.scan_id s.scan.scan_id)
    || not (str_eq o.identity.user_sid s.scan.user_sid)
    || not (resolved o.identity)

abbrev pub bad_assessment : StoreScanSnapshot → StorePublishedAssessment → Bool
bad_assessment s a =
    not (str_eq a.scan_id s.scan.scan_id)
    || not (str_eq a.identity.user_sid s.scan.user_sid)
    || not (resolved a.identity)

abbrev pub bad_target : StorePublishedAssessment → Bool
bad_target a = a.exact_action_target_available && not (store_assessment_exact_target_valid a)

-- The loop over the runs: the mappings of a run come before its observations.
unfoldable pub check_runs : StoreScanSnapshot → List StoreCatalogProviderRun → Option SnapshotError
check_runs s [] = none
check_runs s (run ∷ runs) =
    let rest = check_runs s runs in
    if any (bad_mapping s) run.mappings
    then some unverifiable_mapping
    else if any (bad_observation s) run.observations
    then some foreign_observation
    else rest

unfoldable pub check_assessments :
    StoreScanSnapshot → List StorePublishedAssessment → Option SnapshotError
check_assessments s [] = none
check_assessments s (a ∷ as') =
    let rest = check_assessments s as' in
    if bad_assessment s a
    then some foreign_assessment
    else if bad_target a
    then some unverifiable_target
    else rest

abbrev pub or_else : Option SnapshotError → Option SnapshotError → Option SnapshotError
or_else none e = e
or_else (some x) e = some x

unfoldable pub validate_store_scan_snapshot : StoreScanSnapshot → Option SnapshotError
unfolding check_runs check_assessments
validate_store_scan_snapshot s =
    if not (nonempty s.scan.scan_id)
    then some missing_scan_id
    else if not (nonempty s.scan.user_sid)
    then some missing_user_sid
    else if is_zero s.scan.started_at
    then some missing_start_time
    else if any (bad_family s) s.inventory.families
    then some foreign_family
    else or_else (check_runs s s.provider_runs) (check_assessments s s.assessments)
