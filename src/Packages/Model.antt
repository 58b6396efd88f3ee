-- ===== src/Packages/Model.antt =====
-- Packages and their keys: package_manager.go, store_cutover.go, store_update_api.go and
-- update_job_packages.go in internal/updater. `sid` is what currentUserSID returns, none on an error.
pub mod Keys
use Prim.Native.String.{◌++◌ as text_append}
use patch_board.Common.{
  String, Bool, true, false, not, ◌&&◌, ◌||◌, Option, none, some, ltb, if◌then◌else◌,
}
use patch_board.Common.Text.{str_eq, nonempty, trim_space, to_lower, equal_fold}
use patch_board.Common.Text.Search.{contains_text, count_char, has_char, cut}

-- The fields that the modelled code reads or writes.
pub record Package : Type 0 where
  pub key : String
  pub manager : String
  pub id : String
  pub name : String
  pub version : String
  pub available_version : String
  pub update_available : Bool
  pub update_supported : Bool
  pub unknown_version : Bool
  pub pinned : Bool
  pub source : String
  pub match : String
  pub action_backend : String
  pub update_state : String
  pub observed_at : String
  pub stale : Bool
  pub scan_id : String
  pub exact_action_target_available : Bool
  pub installed_package_family_name : String
  pub store_product_id : String
  pub store_update_id : String
  pub installed_version : String
  pub offered_version : String
  pub allow_unknown_version_update : Bool
  pub allow_pinned_update : Bool
  pub preference_eligible : Bool
  pub can_update_now : Bool
  pub cannot_update_reason : String
  pub exact_target_kind : String

-- `Package{}`.
abbrev pub no_package : Package
no_package = record {
  key = "";
  manager = "";
  id = "";
  name = "";
  version = "";
  available_version = "";
  update_available = false;
  update_supported = false;
  unknown_version = false;
  pinned = false;
  source = "";
  match = "";
  action_backend = "";
  update_state = "";
  observed_at = "";
  stale = false;
  scan_id = "";
  exact_action_target_available = false;
  installed_package_family_name = "";
  store_product_id = "";
  store_update_id = "";
  installed_version = "";
  offered_version = "";
  allow_unknown_version_update = false;
  allow_pinned_update = false;
  preference_eligible = false;
  can_update_now = false;
  cannot_update_reason = "";
  exact_target_kind = "";
}

unfoldable pub is_managed_package_manager : String → Bool
is_managed_package_manager manager =
    str_eq manager "winget" || str_eq manager "store" || str_eq manager "choco"

unfoldable pub package_key : String → String → String
package_key manager id = text_append manager (text_append ":" id)

-- none is the error.
abbrev checked_key : Option (String × String) → Option (String × String)
checked_key none = none
checked_key (some (manager, id)) =
    if not (nonempty id) || not (is_managed_package_manager manager)
    then none
    else some (manager, id)

unfoldable pub split_package_key : String → Option (String × String)
unfolding cut is_managed_package_manager
split_package_key key = checked_key (cut 58 key)

abbrev two_parts : Option (String × String) → Bool
two_parts none = false
two_parts (some (a, b)) = nonempty a && nonempty b

unfoldable pub looks_like_package_family_name : String → Bool
unfolding contains_text count_char cut has_char
looks_like_package_family_name value =
    let value = trim_space value in
    if not (nonempty value)
      || contains_text value " "
      || contains_text value "/"
      || contains_text value "\\"
    then false
    else if ltb 1 (count_char 95 value)
    then false
    else if has_char 95 value
    then two_parts (cut 95 value)
    else contains_text value "."

unfoldable pub store_installed_package_family_name : Package → String
unfolding looks_like_package_family_name
store_installed_package_family_name pkg =
    if nonempty (trim_space pkg.installed_package_family_name)
    then trim_space pkg.installed_package_family_name
    else if str_eq pkg.source "native-appx"
    then trim_space pkg.id
    else if str_eq pkg.source "appx" && nonempty (trim_space pkg.match)
    then trim_space pkg.match
    else if str_eq pkg.action_backend "appx-inventory" && nonempty (trim_space pkg.match)
    then trim_space pkg.match
    else if looks_like_package_family_name pkg.id
    then trim_space pkg.id
    else if looks_like_package_family_name pkg.match
    then trim_space pkg.match
    else ""

unfoldable pub canonical_store_auto_update_key : String → String → String
unfolding package_key
canonical_store_auto_update_key user_sid pfn =
    let user_sid = trim_space user_sid in
    let pfn = trim_space pfn in
    if not (nonempty user_sid) || not (nonempty pfn)
    then ""
    else package_key "store" (text_append (to_lower user_sid) (text_append "~" (to_lower pfn)))

abbrev canonical_parts : Option (String × String) → Option (String × String)
canonical_parts none = none
canonical_parts (some (user_sid, pfn)) =
    if not (nonempty (trim_space user_sid)) || not (nonempty (trim_space pfn))
    then none
    else some (trim_space user_sid, trim_space pfn)

abbrev canonical_of : Option (String × String) → Option (String × String)
canonical_of none = none
canonical_of (some (manager, id)) =
    if not (str_eq manager "store") then none else canonical_parts (cut 126 id)

unfoldable pub split_canonical_store_auto_update_key : String → Option (String × String)
unfolding split_package_key cut
split_canonical_store_auto_update_key key = canonical_of (split_package_key key)

abbrev is_some : Option (String × String) → Bool
is_some none = false
is_some (some p) = true

abbrev store_key_for : Option String → String → String
store_key_for none id = ""
store_key_for (some sid) id = canonical_store_auto_update_key sid id

abbrev normalized_from : Option String → String → Option (String × String) → String
normalized_from sid key none = key
normalized_from sid key (some (manager, id)) =
    if str_eq manager "store"
    then (if is_some (split_canonical_store_auto_update_key key)
        then to_lower key
        else if not (looks_like_package_family_name id)
        then ""
        else store_key_for sid id)
    else package_key manager id

unfoldable pub normalize_auto_update_package_key : Option String → String → String
unfolding split_package_key split_canonical_store_auto_update_key looks_like_package_family_name
    canonical_store_auto_update_key package_key
normalize_auto_update_package_key sid key = normalized_from sid key (split_package_key key)

unfoldable pub store_package_public_key : Package → String
unfolding store_installed_package_family_name package_key
store_package_public_key pkg =
    let pfn = store_installed_package_family_name pkg in
    if nonempty pfn then package_key "store" pfn else pkg.key

unfoldable pub normalized_job_package_key : Option String → Package → String
unfolding store_package_public_key normalize_auto_update_package_key package_key
normalized_job_package_key sid pkg =
    let normalized = normalize_auto_update_package_key sid pkg.key in
    if str_eq pkg.manager "store"
    then store_package_public_key pkg
    else if nonempty pkg.key
    then (if nonempty normalized then normalized else pkg.key)
    else if not (nonempty pkg.manager) || not (nonempty pkg.id)
    then ""
    else package_key pkg.manager pkg.id

abbrev equivalent_parts :
    Option String → String → String → Option (String × String) → Option (String × String) → Bool
equivalent_parts sid left right none r = false
equivalent_parts sid left right (some l) none = false
equivalent_parts sid left right (some (lm, lid)) (some (rm, rid)) =
    let ln = normalize_auto_update_package_key sid left in
    let rn = normalize_auto_update_package_key sid right in
    if not (str_eq lm rm)
    then false
    else if str_eq lm "store"
    then nonempty ln && equal_fold ln rn
    else str_eq lid rid

unfoldable pub equivalent_package_keys : Option String → String → String → Bool
unfolding split_package_key normalize_auto_update_package_key
equivalent_package_keys sid left right =
    equivalent_parts sid left right (split_package_key left) (split_package_key right)
