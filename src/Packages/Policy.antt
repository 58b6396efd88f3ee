-- ===== src/Packages/Policy.antt =====
-- What may be updated now, and why not: store_update_api.go in internal/updater. `sid` is what
-- currentUserSID returns.
pub mod Refusal
pub mod Laws
use Prim.Native.String.{◌++◌ as text_append}
use patch_board.Common.{
  String, Bool, true, false, not, ◌&&◌, ◌||◌, Option, none, some, if◌then◌else◌,
}
use patch_board.Common.Text.{str_eq, nonempty, trim_space, to_lower, equal_fold}
use patch_board.Packages.Model.{
  Package, store_installed_package_family_name, normalized_job_package_key,
}

pub record UpdateOptions : Type 0 where
  pub allow_unknown_version : Bool
  pub allow_pinned : Bool

pub record PackageUpdatePolicy : Type 0 where
  pub preference_eligible : Bool
  pub can_update_now : Bool
  pub cannot_update_reason : String
  pub exact_target_kind : String

unfoldable pub package_has_exact_store_update_target : Package → Bool
unfolding store_installed_package_family_name
package_has_exact_store_update_target pkg =
    if not (str_eq pkg.manager "store")
    then true
    else if not (nonempty pkg.update_state)
    then false
    else pkg.exact_action_target_available
      && nonempty (store_installed_package_family_name pkg)
      && (nonempty (trim_space pkg.store_product_id) || nonempty (trim_space pkg.store_update_id))

unfoldable pub package_preference_eligible : Option String → Package → Bool
unfolding store_installed_package_family_name normalized_job_package_key
package_preference_eligible sid pkg =
    if not (str_eq pkg.manager "store")
    then pkg.update_supported
    else nonempty (store_installed_package_family_name pkg)
      && nonempty (normalized_job_package_key sid pkg)

unfoldable pub exact_target_kind : String → String → String
exact_target_kind product_id update_id =
    let product_id = trim_space product_id in
    let update_id = trim_space update_id in
    if nonempty product_id && nonempty update_id
    then "product_and_update_id"
    else if nonempty product_id
    then "product_id"
    else if nonempty update_id
    then "update_id"
    else "none"

unfoldable pub state_label_for_reason : String → String
state_label_for_reason state =
    let state = to_lower (trim_space state) in if not (nonempty state) then "unknown" else state

-- What both halves test last. none where nothing stands against the update.
unfoldable pub overrides_refusal : Package → UpdateOptions → Option String
overrides_refusal pkg options =
    if pkg.unknown_version && not options.allow_unknown_version
    then some "Unknown installed version requires the global unknown-version override."
    else if pkg.pinned && not options.allow_pinned
    then some "Pinned package requires the global pinned update override."
    else none

abbrev shown_state : String → String
shown_state state = if not (nonempty (trim_space state)) then "unknown" else trim_space state

-- The early returns of the two halves in their order, each with its reason, and none where the end
-- is reached.
unfoldable pub other_refusal : Package → UpdateOptions → Option String
unfolding overrides_refusal
other_refusal pkg options =
    if not pkg.update_available
    then some "No update available."
    else if not pkg.update_supported
    then some "Updates are not supported for this package."
    else overrides_refusal pkg options

unfoldable pub store_refusal : Option String → Package → UpdateOptions → Option String
unfolding package_preference_eligible exact_target_kind state_label_for_reason overrides_refusal
store_refusal sid pkg options =
    if not (package_preference_eligible sid pkg)
    then some "Store package identity is not exact."
    else if not (equal_fold (trim_space pkg.update_state) "available")
    then some (
        text_append "Store state is "
          (text_append (state_label_for_reason (shown_state pkg.update_state)) "."))
    else if pkg.stale
    then some "Store update requires a fresh assessment; rescan required."
    else if not pkg.exact_action_target_available
        || str_eq (exact_target_kind pkg.store_product_id pkg.store_update_id) "none"
    then some "Store update requires an exact verified action target."
    else if not pkg.update_supported
    then some "No supported executor is available for this Store target."
    else overrides_refusal pkg options

unfoldable pub update_refusal : Option String → Package → UpdateOptions → Option String
unfolding other_refusal store_refusal
update_refusal sid pkg options =
    if not (str_eq pkg.manager "store")
    then other_refusal pkg options
    else store_refusal sid pkg options

abbrev policy_with : Bool → String → Option String → PackageUpdatePolicy
policy_with eligible kind none = record {
  preference_eligible = eligible;
  can_update_now = true;
  cannot_update_reason = "";
  exact_target_kind = kind;
}
policy_with eligible kind (some reason) = record {
  preference_eligible = eligible;
  can_update_now = false;
  cannot_update_reason = reason;
  exact_target_kind = kind;
}

unfoldable pub package_update_policy : Option String → Package → UpdateOptions → PackageUpdatePolicy
unfolding package_preference_eligible exact_target_kind update_refusal
package_update_policy sid pkg options =
    policy_with (package_preference_eligible sid pkg)
      (exact_target_kind pkg.store_product_id pkg.store_update_id) (update_refusal sid pkg options)

abbrev no_options : UpdateOptions
no_options = record { allow_unknown_version = false; allow_pinned = false }

unfoldable pub apply_package_capabilities : Option String → Package → Package
unfolding package_update_policy
apply_package_capabilities sid pkg =
    let policy = package_update_policy sid pkg no_options in
    record pkg {
      preference_eligible = policy.preference_eligible;
      can_update_now = policy.can_update_now;
      cannot_update_reason = policy.cannot_update_reason;
      exact_target_kind = policy.exact_target_kind;
    }

unfoldable pub package_has_fresh_store_available_assessment : Package → Bool
package_has_fresh_store_available_assessment pkg =
    if not (str_eq pkg.manager "store")
    then true
    else if not (nonempty (trim_space pkg.update_state))
    then false
    else equal_fold (trim_space pkg.update_state) "available" && not pkg.stale
