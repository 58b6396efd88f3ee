-- ===== src/Store/Authorize.antt =====
-- internal/updater/store_update_execution.go: whether the published evidence authorises an update,
-- whether the package may be updated now, and what proves that it was. The repository that holds the
-- snapshot is file I/O: what it returns is a value of Loaded. Of a CommandResult the decisions read
-- `OK` only.
pub mod Laws
pub mod Verified
use Prim.Native.Nat.{Ordering}
use patch_board.Common.{
  ℕ, String, Bool, true, false, not, ◌&&◌, ◌||◌, Option, none, some, List, [], ◌∷◌, if◌then◌else◌,
}
use patch_board.Common.Text.{str_eq, nonempty, trim_space, equal_fold}
use patch_board.Store.Model.{
  StoreInstalledIdentity, equal, StoreProviderIdentity, StoreUpdateState, ExactStoreUpdateTarget,
}
use patch_board.Store.Snapshot.{StoreScanSnapshot, StorePublishedAssessment}
use patch_board.Store.Freshness.{
  store_assessment_version_known, evaluate_published_store_assessment_freshness,
}
use patch_board.Store.Versions.{compare_store_package_versions}

pub record StoreExactUpdateRequest : Type 0 where
  pub identity : StoreInstalledIdentity
  pub product_id : String
  pub update_id : String
  pub target : String
  pub provider : StoreProviderIdentity
  pub scan_id : String
  pub observed_at : String
  pub installed_version : String
  pub current_installed_version : String
  pub offered_version : String

pub record StoreExactPackageSnapshot : Type 0 where
  pub identity : StoreInstalledIdentity
  pub package_full_name : String
  pub version : String
  pub healthy : Bool
  pub exists : Bool
  pub observed_at : ℕ
  pub diagnostics : String

pub record StoreExactCatalogResult : Type 0 where
  pub authoritative : Bool
  pub offer_available : Bool
  pub installed_healthy : Bool
  pub offered_version : String
  pub diagnostics : String

-- What opening the repository and LoadLatestPublishedSnapshot give.
pub data Loaded : Type 0 where
  open_failed read_failed none_published : Loaded
  published : StoreScanSnapshot → Loaded

-- nil, or one of the errors in the order of the source.
pub data Authorization : Type 0 where
  authorized : Authorization
  not_opened not_read no_match superseded not_available : Authorization
  not_fresh : String → Authorization
  other_product other_update : Authorization

abbrev is_available : StoreUpdateState → Bool
is_available StoreUpdateState.available = true
is_available _ = false

-- The assessment's own ID, or its target's where it has none.
abbrev pub assessed_id :
    String → (ExactStoreUpdateTarget → String) → Option ExactStoreUpdateTarget → String
assessed_id id target_id none = trim_space id
assessed_id id target_id (some target) =
    if nonempty (trim_space id) then trim_space id else trim_space (target_id target)

unfoldable authorize :
    ℕ → StoreExactUpdateRequest → StoreScanSnapshot → StorePublishedAssessment → Authorization
authorize now request snapshot a =
    let freshness =
      evaluate_published_store_assessment_freshness now snapshot a request.current_installed_version
        now in
    let product_id = assessed_id a.store_product_id (λ target. target.product_id) a.target in
    let update_id = assessed_id a.update_id (λ target. target.update_id) a.target in
    if not (str_eq a.scan_id request.scan_id)
    then superseded
    else if not (is_available a.state) || a.stale || not a.exact_action_target_available
    then not_available
    else if not freshness.fresh
    then not_fresh freshness.reason
    else if nonempty request.product_id && not (str_eq product_id request.product_id)
    then other_product
    else if nonempty request.update_id && not (str_eq update_id request.update_id)
    then other_update
    else authorized

-- The loop over the assessments: the first one of the identity decides.
unfoldable authorize_first :
    ℕ → StoreExactUpdateRequest → StoreScanSnapshot → List StorePublishedAssessment → Authorization
authorize_first now request snapshot [] = no_match
authorize_first now request snapshot (a ∷ assessments) =
    let rest = authorize_first now request snapshot assessments in
    if equal a.identity request.identity then authorize now request snapshot a else rest

-- `now` is what storeScanNow returns.
unfoldable pub verify_published_store_update_assessment :
    ℕ → StoreExactUpdateRequest → Loaded → Authorization
unfolding authorize_first authorize
verify_published_store_update_assessment now request open_failed = not_opened
verify_published_store_update_assessment now request read_failed = not_read
verify_published_store_update_assessment now request none_published = no_match
verify_published_store_update_assessment now request (published snapshot) =
    authorize_first now request snapshot snapshot.assessments

unfoldable pub store_update_verification_baseline_version :
    StoreExactUpdateRequest → StoreExactPackageSnapshot → String
store_update_verification_baseline_version request before =
    if before.exists then trim_space before.version else trim_space request.installed_version

-- `!ok || comparison <= 0` and `!ok || comparison < 0`, negated.
abbrev pub is_above : Option Ordering → Bool
is_above (some Ordering.gt) = true
is_above _ = false

abbrev pub is_at_least : Option Ordering → Bool
is_at_least (some Ordering.gt) = true
is_at_least (some Ordering.eq) = true
is_at_least _ = false

unfoldable pub store_snapshot_verifies_update :
    StoreExactUpdateRequest → StoreExactPackageSnapshot → StoreExactPackageSnapshot → Bool × String
unfolding store_update_verification_baseline_version
store_snapshot_verifies_update request before after =
    let baseline = store_update_verification_baseline_version request before in
    if not (equal after.identity request.identity) || not after.exists || not after.healthy
    then (false, "")
    else if not (store_assessment_version_known baseline)
    then (false, "")
    else if not (is_above (compare_store_package_versions after.version baseline))
    then (false, "")
    else if not (store_assessment_version_known request.offered_version)
    then (true, "Store update verified because the installed package version increased.")
    else if not (is_at_least (compare_store_package_versions after.version request.offered_version))
    then (false, "")
    else (
      true,
      "Store update verified because the installed package version increased to the offered version or newer.",
    )

unfoldable pub store_catalog_verifies_update :
    StoreExactUpdateRequest
    → StoreExactPackageSnapshot
    → StoreExactCatalogResult
    → StoreExactPackageSnapshot
    → Bool
unfolding store_update_verification_baseline_version
store_catalog_verifies_update request before catalog after =
    let baseline = store_update_verification_baseline_version request before in
    if not catalog.authoritative
      || catalog.offer_available
      || not catalog.installed_healthy
      || not after.exists
      || not after.healthy
    then false
    else if store_assessment_version_known baseline
        && not (is_at_least (compare_store_package_versions after.version baseline))
    then false
    else if store_assessment_version_known request.offered_version
    then is_at_least (compare_store_package_versions after.version request.offered_version)
    else true

-- nil, or one of the errors in the order of the source. The first argument is the `OK` of the
-- enumeration.
pub data PreAction : Type 0 where
  ready : PreAction
  not_enumerated wrong_identity not_installed not_healthy version_unknown version_changed :
      PreAction

unfoldable pub validate_store_pre_action_snapshot :
    Bool → StoreExactUpdateRequest → StoreExactPackageSnapshot → PreAction
validate_store_pre_action_snapshot ok request before =
    if not ok
    then not_enumerated
    else if not (equal before.identity request.identity)
    then wrong_identity
    else if not before.exists
    then not_installed
    else if not before.healthy
    then not_healthy
    else if not (store_assessment_version_known before.version)
    then version_unknown
    else if not (equal_fold (trim_space before.version) (trim_space request.installed_version))
    then version_changed
    else ready

-- Whether no command is to be run: the second result. The first is a text that says so.
unfoldable pub store_already_updated_before_action_result :
    Bool → StoreExactUpdateRequest → StoreExactPackageSnapshot → Bool
store_already_updated_before_action_result ok request before =
    if not ok
      || not (equal before.identity request.identity)
      || not before.exists
      || not before.healthy
    then false
    else if not (store_assessment_version_known before.version)
        || not (store_assessment_version_known request.installed_version)
    then false
    else if not (is_above (compare_store_package_versions before.version request.installed_version))
    then false
    else if store_assessment_version_known request.offered_version
        && not (is_at_least (compare_store_package_versions before.version request.offered_version))
    then false
    else true
