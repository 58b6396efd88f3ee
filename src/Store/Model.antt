-- ===== src/Store/Model.antt =====
-- internal/updater/store_update_model.go: identities, scan generations, provider evidence and exact
-- targets; looksLikeStoreProductID is in store_winget_catalog_provider.go. A `time.Time` is the
-- number of nanoseconds since the zero time, so `IsZero` is the test for 0. The string types of the
-- source have a constructor for each constant and one for any other text.
pub mod Laws
use Prim.Native.Char.{code}
use Prim.Native.String.{len}
use patch_board.Common.{
  ℕ, String, Bool, true, false, not, ◌&&◌, ◌||◌, Option, List, [], ◌∷◌, leb, ltb, if◌then◌else◌,
}
use patch_board.Common.{◌==◌ as num_eq}
use patch_board.Common.Text.{str_eq, nonempty, trim_space}
use patch_board.Common.Dict.{Dict}

pub record StoreInstalledIdentity : Type 0 where
  pub user_sid : String
  pub package_family_name : String

unfoldable pub resolved : StoreInstalledIdentity → Bool
resolved identity = nonempty identity.user_sid && nonempty identity.package_family_name

unfoldable pub equal : StoreInstalledIdentity → StoreInstalledIdentity → Bool
equal identity other =
    str_eq identity.user_sid other.user_sid
    && str_eq identity.package_family_name other.package_family_name

pub data StoreScanCompletionStatus : Type 0 where
  pending running completed incomplete failed : StoreScanCompletionStatus
  other : String → StoreScanCompletionStatus

abbrev pub is_completed : StoreScanCompletionStatus → Bool
is_completed completed = true
is_completed _ = false

pub data StoreProviderHealth : Type 0 where
  healthy failed incomplete unsupported stale : StoreProviderHealth
  other : String → StoreProviderHealth

abbrev pub is_healthy : StoreProviderHealth → Bool
is_healthy healthy = true
is_healthy _ = false

-- The mode, the context of the system and the metrics are left out: no decision reads them.
pub record StoreScanGeneration : Type 0 where
  pub scan_id : String
  pub user_sid : String
  pub started_at : ℕ
  pub completed_at : ℕ
  pub provider_versions : Dict String
  pub provider_health : Dict StoreProviderHealth
  pub completion_status : StoreScanCompletionStatus

abbrev pub is_zero : ℕ → Bool
is_zero time = num_eq time 0

unfoldable pub usable_for : StoreScanGeneration → StoreInstalledIdentity → Bool
usable_for scan identity =
    nonempty scan.scan_id && str_eq scan.user_sid identity.user_sid && not (is_zero scan.started_at)

unfoldable pub complete_for : StoreScanGeneration → StoreInstalledIdentity → Bool
unfolding usable_for
complete_for scan identity =
    usable_for scan identity
    && is_completed scan.completion_status
    && not (is_zero scan.completed_at)

pub record StoreProviderIdentity : Type 0 where
  pub id : String
  pub name : String
  pub backend : String

unfoldable pub provider_key : StoreProviderIdentity → String
provider_key provider =
    if nonempty provider.id
    then provider.id
    else if nonempty provider.backend
    then provider.backend
    else provider.name

unfoldable pub store_provider_key : StoreProviderIdentity → String
unfolding provider_key
store_provider_key provider =
    if nonempty (provider_key provider) then provider_key provider else "unknown"

pub data StoreObservationKind : Type 0 where
  positive_update_offer authoritative_negative provider_failure : StoreObservationKind
  incomplete_result unsupported_provider stale_result : StoreObservationKind
  newer_catalog_no_applicable_installer pending_update empty_result : StoreObservationKind
  other : String → StoreObservationKind

-- The loop over the characters, with the `hasDigit` seen so far.
product_id_from : Bool → String → Bool
product_id_from has_digit String.[] = has_digit
product_id_from has_digit (String.◌∷◌ r s) =
    let capital = leb b'A' (code r) && leb (code r) b'Z' in
    let digit = leb b'0' (code r) && leb (code r) b'9' in
    (capital || digit) && product_id_from (has_digit || (not capital && digit)) s

unfoldable pub looks_like_store_product_id : String → Bool
unfolding product_id_from trim_space
looks_like_store_product_id value =
    let value = trim_space value in
    if ltb (len value) 7 || ltb 32 (len value) then false else product_id_from false value

pub record VerifiedStoreIdentityMapping : Type 0 where
  pub installed_identity : StoreInstalledIdentity
  pub product_id : String
  pub provider : StoreProviderIdentity
  pub scan_id : String
  pub verified_at : ℕ
  pub evidence : String
  pub identity_name : String
  pub publisher_id : String
  pub processor_architecture : String
  pub product_like : Bool
  pub provider_version : String

unfoldable pub verified_for :
    VerifiedStoreIdentityMapping → StoreInstalledIdentity → StoreScanGeneration → Bool
unfolding equal
verified_for mapping identity scan =
    nonempty mapping.product_id
    && looks_like_store_product_id mapping.product_id
    && str_eq mapping.scan_id scan.scan_id
    && equal mapping.installed_identity identity
    && not (is_zero mapping.verified_at)

pub record ExactStoreUpdateTarget : Type 0 where
  pub identity : StoreInstalledIdentity
  pub provider : StoreProviderIdentity
  pub product_id : String
  pub update_id : String
  pub verified : Bool
  pub verified_by : String
  pub verified_at : ℕ

unfoldable pub exact_for : ExactStoreUpdateTarget → StoreInstalledIdentity → Bool
unfolding equal
exact_for target identity =
    let product_id = trim_space target.product_id in
    let update_id = trim_space target.update_id in
    target.verified
    && equal target.identity identity
    && (not (nonempty product_id) || looks_like_store_product_id product_id)
    && (nonempty product_id || nonempty update_id)
    && not (is_zero target.verified_at)

pub record StoreProviderObservation : Type 0 where
  pub provider : StoreProviderIdentity
  pub health : StoreProviderHealth
  pub kind : StoreObservationKind
  pub identity : StoreInstalledIdentity
  pub scan_id : String
  pub observed_at : ℕ
  pub installed_version : String
  pub available_version : String
  pub catalog_version : String
  pub target : Option ExactStoreUpdateTarget
  pub mapping : Option VerifiedStoreIdentityMapping
  pub diagnostics : String

unfoldable pub matches :
    StoreProviderObservation → StoreInstalledIdentity → StoreScanGeneration → Bool
unfolding equal
matches observation identity scan =
    str_eq observation.scan_id scan.scan_id && equal observation.identity identity

pub data StoreUpdateState : Type 0 where
  unknown current available conflict inapplicable pending : StoreUpdateState

pub record StoreEvidenceSummary : Type 0 where
  pub provider : String
  pub health : StoreProviderHealth
  pub kind : StoreObservationKind

pub record StoreUpdateAssessment : Type 0 where
  pub state : StoreUpdateState
  pub identity : StoreInstalledIdentity
  pub scan_id : String
  pub reason : String
  pub installed_version : String
  pub available_version : String
  pub target : Option ExactStoreUpdateTarget
  pub evidence : List StoreEvidenceSummary
  pub rejected_evidence_count : ℕ
  pub provider_health : List (String × StoreProviderHealth)

pub record StoreReconciliationInput : Type 0 where
  pub identity : StoreInstalledIdentity
  pub scan : StoreScanGeneration
  pub required_providers : List StoreProviderIdentity
  pub observations : List StoreProviderObservation
