-- ===== src/Store/Execution/Request.antt =====
-- internal/updater/store_update_execution.go: the request that is built from a package, with the
-- executor that is to run it.
pub mod Laws
use Prim.Native.String.{◌++◌ as text_append}
use patch_board.Common.{
  ℕ, String, Bool, not, ◌&&◌, ◌||◌, Option, none, some, [], ◌∷◌, if◌then◌else◌,
}
use patch_board.Common.Text.{str_eq, nonempty, trim_space}
use patch_board.Packages.Model.{Package, store_installed_package_family_name}
use patch_board.Packages.Policy.{UpdateOptions, package_update_policy}
use patch_board.Store.Model.{StoreProviderIdentity, looks_like_store_product_id}
use patch_board.Store.Diagnostics.{first_non_empty}
use patch_board.Store.Authorize.{
  StoreExactUpdateRequest, Loaded, Authorization, verify_published_store_update_assessment,
}

-- What the surroundings give: currentUserSID (none with the error's text in `failure`), which package
-- managers can be run, what opening and reading the repository gave, and storeScanNow.
pub record Surroundings : Type 0 where
  pub user_sid : Option String
  pub winget_available : Bool
  pub store_available : Bool
  pub loaded : Loaded
  pub now : ℕ
  pub failure : String

-- The errors, in the order of the source.
pub data RequestError : Type 0 where
  not_store : RequestError
  not_actionable : String → RequestError
  no_family no_user bad_product no_target no_executor : RequestError
  unauthorized : Authorization → RequestError

pub data Built {ℓ} (A : Type ℓ) : Type ℓ where
  failed : RequestError → Built A
  built : A → Built A

abbrev authorization_text : String → Authorization → String
authorization_text failure Authorization.authorized = ""
authorization_text failure Authorization.not_opened =
    text_append "could not open Store assessment store: " failure
authorization_text failure Authorization.not_read =
    text_append "could not read Store assessments: " failure
authorization_text failure Authorization.no_match =
    "no published Store assessment matches the selected package identity"
authorization_text failure Authorization.superseded =
    "Store update assessment is not the latest published scan generation"
authorization_text failure Authorization.not_available =
    "published Store assessment is not a fresh exact available update"
authorization_text failure (Authorization.not_fresh reason) =
    text_append "published Store assessment is not fresh: " reason
authorization_text failure Authorization.other_product =
    "Store update Product ID does not match the verified published assessment"
authorization_text failure Authorization.other_update =
    "Store update ID does not match the verified published assessment"

-- `err.Error()`.
unfoldable pub error_text : String → RequestError → String
error_text failure not_store = "exact Store update execution requires a Store package"
error_text failure (not_actionable reason) = reason
error_text failure no_family = "Store update requires an exact package family name"
error_text failure no_user = text_append "Store update user could not be identified: " failure
error_text failure bad_product = "Store update Product ID is not a valid Microsoft Store Product ID"
error_text failure no_target =
    "Store update requires an exact verified Product ID or provider target"
error_text failure no_executor =
    "no exact Store update executor is available for the verified target"
error_text failure (unauthorized a) = authorization_text failure a

abbrev winget_provider : StoreProviderIdentity
winget_provider = record {
  id = "winget";
  name = "WinGet Microsoft Store exact update";
  backend = "winget-msstore-fallback";
}

abbrev store_provider : StoreProviderIdentity
store_provider = record { id = "store"; name = "Store CLI exact update"; backend = "store-cli" }

unfoldable pub exact_store_update_execution_provider :
    Surroundings → String → String → Built StoreProviderIdentity
exact_store_update_execution_provider world product_id update_id =
    let product_id = trim_space product_id in
    let update_id = trim_space update_id in
    if nonempty product_id && not (looks_like_store_product_id product_id)
    then failed bad_product
    else if nonempty product_id && world.winget_available
    then built winget_provider
    else if (nonempty product_id || nonempty update_id) && world.store_available
    then built store_provider
    else failed no_executor

-- The options that the package itself carries.
abbrev own_options : Package → UpdateOptions
own_options pkg = record {
  allow_unknown_version = pkg.allow_unknown_version_update;
  allow_pinned = pkg.allow_pinned_update;
}

unfoldable request_of : Package → String → StoreProviderIdentity → StoreExactUpdateRequest
unfolding store_installed_package_family_name first_non_empty
request_of pkg sid provider =
    let product_id = trim_space pkg.store_product_id in
    let update_id = trim_space pkg.store_update_id in
    record {
      identity = record {
        user_sid = sid;
        package_family_name = store_installed_package_family_name pkg;
      };
      product_id = product_id;
      update_id = update_id;
      target = first_non_empty (product_id ∷ update_id ∷ []);
      provider = provider;
      scan_id = trim_space pkg.scan_id;
      observed_at = trim_space pkg.observed_at;
      installed_version = first_non_empty (pkg.installed_version ∷ pkg.version ∷ []);
      current_installed_version = first_non_empty (pkg.version ∷ pkg.installed_version ∷ []);
      offered_version = first_non_empty (pkg.offered_version ∷ pkg.available_version ∷ []);
    }

abbrev if_authorized : StoreExactUpdateRequest → Authorization → Built StoreExactUpdateRequest
if_authorized request Authorization.authorized = built request
if_authorized request a = failed (unauthorized a)

-- What follows the choice of the executor.
abbrev with_provider :
    Surroundings → Package → String → Built StoreProviderIdentity → Built StoreExactUpdateRequest
with_provider world pkg sid (failed e) = failed e
with_provider world pkg sid (built provider) =
    let request = request_of pkg sid provider in
    if_authorized request (verify_published_store_update_assessment world.now request world.loaded)

-- What follows the identification of the user.
abbrev with_user : Surroundings → Package → Option String → Built StoreExactUpdateRequest
with_user world pkg none = failed no_user
with_user world pkg (some sid) =
    let product_id = trim_space pkg.store_product_id in
    let update_id = trim_space pkg.store_update_id in
    if nonempty product_id && not (looks_like_store_product_id product_id)
    then failed bad_product
    else if not pkg.exact_action_target_available
        || not (nonempty (first_non_empty (product_id ∷ update_id ∷ [])))
    then failed no_target
    else with_provider world pkg sid
        (exact_store_update_execution_provider world product_id update_id)

unfoldable pub exact_store_update_request_from_package :
    Surroundings → Package → Built StoreExactUpdateRequest
unfolding package_update_policy store_installed_package_family_name first_non_empty
    exact_store_update_execution_provider request_of verify_published_store_update_assessment
exact_store_update_request_from_package world pkg =
    let policy = package_update_policy world.user_sid pkg (own_options pkg) in
    if not (str_eq pkg.manager "store")
    then failed not_store
    else if not policy.can_update_now
    then failed (
        not_actionable
          (first_non_empty (policy.cannot_update_reason ∷ "Store package is not actionable" ∷ [])))
    else if not (nonempty (store_installed_package_family_name pkg))
    then failed no_family
    else with_user world pkg world.user_sid
