-- ===== src/Store/Execution/Events.antt =====
-- internal/updater/store_update_execution.go: the events of the package catalog, which wake the
-- verification up.
use Prim.Native.String.{◌++◌ as text_append}
use patch_board.Common.{
  ℕ, String, Bool, true, false, not, ◌||◌, Option, none, some, leb, if◌then◌else◌,
}
use patch_board.Common.{◌==◌ as num_eq}
use patch_board.Common.Text.{str_eq, nonempty, trim_space, to_lower}
use patch_board.Common.Text.Search.{has_prefix, before_last}
use patch_board.Store.Model.{StoreInstalledIdentity, equal}
use patch_board.Store.Versions.{compare_store_package_versions}
use patch_board.Store.Authorize.{StoreExactUpdateRequest}

pub record StorePackageChangeEvent : Type 0 where
  pub identity : StoreInstalledIdentity
  pub package_full_name : String
  pub version : String
  pub healthy : Bool
  pub exists : Bool
  pub observed_at : ℕ
  pub classification : String

abbrev name_before : Option String → String
name_before none = ""
name_before (some name) = name

-- A last underline at the front gives "" as well.
unfoldable pub store_package_name_from_family_name : String → String
unfolding before_last
store_package_name_from_family_name family = name_before (before_last 95 (trim_space family))

abbrev is_none {ℓ} : {A : Type ℓ} → Option A → Bool
is_none none = true
is_none (some a) = false

-- "", or the reason why the event is not the update's. The zero time is 0.
unfoldable pub validate_store_package_change_event :
    StoreExactUpdateRequest → ℕ → StorePackageChangeEvent → String
unfolding store_package_name_from_family_name has_prefix compare_store_package_versions
validate_store_package_change_event request started_at event =
    let classification = trim_space event.classification in
    let full_name = trim_space event.package_full_name in
    let expected = store_package_name_from_family_name request.identity.package_family_name in
    if not (equal event.identity request.identity)
    then "identity mismatch"
    else if num_eq event.observed_at 0 || leb event.observed_at started_at
    then "event predates Store action"
    else if not event.exists
    then "package removal is not update proof"
    else if not event.healthy
    then "package is not healthy"
    else if str_eq classification "framework" || str_eq classification "resource"
    then "framework or resource package event"
    else if not (nonempty full_name)
        || not (nonempty expected)
        || not (has_prefix (text_append expected "_") full_name)
    then "package full name mismatch"
    else if is_none (compare_store_package_versions event.version event.version)
    then "malformed package version"
    else ""

-- `strings.Join` with the NUL character, in small letters.
unfoldable pub store_package_event_key : StorePackageChangeEvent → String
unfolding to_lower
store_package_event_key event =
    let nul : String = "\0" in
    to_lower (
      text_append event.identity.user_sid (
        text_append nul (
          text_append event.identity.package_family_name (
            text_append nul (
              text_append event.package_full_name (
                text_append nul
                  (text_append event.version (text_append nul event.classification))))))))
