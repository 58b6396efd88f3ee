-- ===== src/Packages/Revalidation.antt =====
-- Whether the packages of a job may still be updated when it starts: update_retry.go,
-- update_job_packages.go and store_identity.go in internal/updater.
pub mod Laws
use Prim.Native.Char.{code}
use Prim.Native.String
use Prim.Native.String.{◌++◌ as text_append, len}
use patch_board.Common.{
  String, Bool, false, not, ◌&&◌, ◌||◌, Option, none, some, List, [], ◌∷◌, any, leb, map,
  if◌then◌else◌,
}
use patch_board.Common.Text.{str_eq, nonempty, trim_space, to_lower, equal_fold}
use patch_board.Common.Text.Search.{contains_text, cut}
use patch_board.Commands.Result.{command_skipped_code}
use patch_board.Packages.Model.{
  Package, normalize_auto_update_package_key, normalized_job_package_key, equivalent_package_keys,
  store_installed_package_family_name,
}
use patch_board.Packages.Policy.{UpdateOptions, package_update_policy}
use patch_board.Packages.Selection.{InventorySnapshot, unreadable, inventory}
use patch_board.Packages.Targets.{is_ascii_alpha_numeric}
use patch_board.Store.Diagnostics.{first_non_empty}
use patch_board.Jobs.Batch.{UpdateResult}

-- `strings.TrimSuffix(s, suffix)`.
unfoldable trim_suffix : String → String → String
trim_suffix suffix String.[] = ""
trim_suffix suffix (String.◌∷◌ c s) =
    let rest = trim_suffix suffix s in
    if str_eq (String.◌∷◌ c s) suffix then "" else String.◌∷◌ c rest

-- What is left are the small letters and the digits; the input has no capital letters.
unfoldable kept_characters : String → String
unfolding is_ascii_alpha_numeric
kept_characters String.[] = ""
kept_characters (String.◌∷◌ c s) =
    let rest = kept_characters s in
    if (leb 97 (code c) && leb (code c) 122) || (leb 48 (code c) && leb (code c) 57)
    then String.◌∷◌ c rest
    else rest

unfoldable pub normalize_package_identity : String → String
unfolding trim_suffix kept_characters to_lower trim_space
normalize_package_identity identity =
    kept_characters (trim_suffix "_8wekyb3d8bbwe" (to_lower (trim_space identity)))

unfoldable pub stable_store_action_id : String → String
unfolding cut contains_text trim_space
stable_store_action_id action_id = elim (cut 95 (trim_space action_id)) [
  | none ↦ trim_space action_id
  | some (name, rest) ↦ if contains_text name "." then name else trim_space action_id
]

-- The key of a package of the inventory is that of the original.
unfoldable same_key : Option String → String → String → Bool
unfolding normalize_auto_update_package_key
same_key sid key original_key =
    nonempty original_key
    && (equal_fold key original_key
        || equal_fold (normalize_auto_update_package_key sid key)
            (normalize_auto_update_package_key sid original_key))

-- The first package of the Store with the key or the family of the original.
unfoldable find_store_package : Option String → String → String → List Package → Option Package
unfolding normalized_job_package_key same_key store_installed_package_family_name
find_store_package sid original_key original_pfn [] = none
find_store_package sid original_key original_pfn (pkg ∷ packages) =
    let rest = find_store_package sid original_key original_pfn packages in
    if not (str_eq pkg.manager "store")
    then rest
    else if same_key sid (normalized_job_package_key sid pkg) original_key
    then some pkg
    else if nonempty original_pfn
        && equal_fold (store_installed_package_family_name pkg) original_pfn
    then some pkg
    else rest

unfoldable identity_matches : Package → String → Bool
unfolding normalize_package_identity stable_store_action_id
identity_matches original value =
    let normalized = normalize_package_identity value in
    nonempty normalized
    && (str_eq normalized (normalize_package_identity original.match)
        || str_eq normalized (normalize_package_identity (stable_store_action_id original.id)))

unfoldable name_matches : Package → Package → Bool
unfolding normalize_package_identity
name_matches original pkg =
    let original_name = normalize_package_identity original.name in
    nonempty original_name
    && leb 5 (len original_name)
    && str_eq (normalize_package_identity pkg.name) original_name

-- A package by its key, its id or its identity, the first one that has one of them.
unfoldable surely_matches : Option String → Package → Package → Bool
unfolding same_key normalized_job_package_key equivalent_package_keys identity_matches any
surely_matches sid original pkg =
    let original_key = normalized_job_package_key sid original in
    let key = normalized_job_package_key sid pkg in
    same_key sid key original_key
    || (nonempty original_key && equivalent_package_keys sid key original_key)
    || (nonempty (trim_space original.id) && equal_fold pkg.id (trim_space original.id))
    || any (identity_matches original) (pkg.id ∷ pkg.match ∷ [])

-- The last package that only the name points to is taken when no other one is found.
unfoldable find_other_package :
    Option String → Package → List Package → Option Package → Option Package
unfolding surely_matches name_matches
find_other_package sid original [] name_match = name_match
find_other_package sid original (pkg ∷ packages) name_match =
    let same_manager = str_eq pkg.manager original.manager in
    let next = (if same_manager && name_matches original pkg then some pkg else name_match) in
    let rest = find_other_package sid original packages next in
    if not same_manager then rest else if surely_matches sid original pkg then some pkg else rest

unfoldable pub find_package_for_update_retry :
    Option String → List Package → Package → Option Package
unfolding find_store_package find_other_package normalized_job_package_key
    store_installed_package_family_name
find_package_for_update_retry sid packages original =
    if str_eq original.manager "store"
    then find_store_package sid (normalized_job_package_key sid original)
        (trim_space (store_installed_package_family_name original)) packages
    else find_other_package sid original packages none

unfoldable pub update_job_package_name : Package → String
unfolding first_non_empty
update_job_package_name pkg =
    let name = first_non_empty (pkg.name ∷ pkg.id ∷ pkg.key ∷ []) in
    if nonempty name then name else "package"

unfoldable pub skipped_update_result : Option String → Package → String → UpdateResult
unfolding normalized_job_package_key update_job_package_name
skipped_update_result sid pkg reason =
    let key = normalized_job_package_key sid pkg in
    record {
      key = if nonempty key then key else pkg.key;
      result = record {
        ok = false;
        code = command_skipped_code;
        stdout = text_append "Skipped: " (trim_space reason);
        stderr = "";
        command = text_append "update " (update_job_package_name pkg);
      };
    }

-- The package of the inventory, as the requested one stands for it.
unfoldable refreshed : Option String → Package → Package → Package
unfolding normalized_job_package_key
refreshed sid requested fresh =
    let fresh_key = normalized_job_package_key sid fresh in
    let requested_key = normalized_job_package_key sid requested in
    record fresh {
      key =
          if nonempty fresh_key
          then fresh_key
          else if nonempty requested_key
          then requested_key
          else requested.key;
      allow_unknown_version_update = requested.allow_unknown_version_update;
      allow_pinned_update = requested.allow_pinned_update;
    }

abbrev requested_options : Package → UpdateOptions
requested_options pkg = record {
  allow_unknown_version = pkg.allow_unknown_version_update;
  allow_pinned = pkg.allow_pinned_update;
}

-- What becomes of one requested package: it is left, or skipped.
pub data Revalidated : Type 0 where
  still_updatable : Package → Revalidated
  skipped : UpdateResult → Revalidated

abbrev revalidate_found : Option String → Package → Package → Revalidated
revalidate_found sid requested pkg =
    let policy = package_update_policy sid pkg (requested_options requested) in
    if not policy.can_update_now
    then skipped (
        skipped_update_result sid pkg (
          text_append "No longer actionable after refresh: "
            (first_non_empty (policy.cannot_update_reason ∷ "No update available." ∷ []))))
    else still_updatable pkg

unfoldable revalidate_one : Option String → List Package → Package → Revalidated
unfolding find_package_for_update_retry refreshed package_update_policy skipped_update_result
    first_non_empty
revalidate_one sid packages requested =
    elim (find_package_for_update_retry sid packages requested) [
      | none ↦ skipped (
          skipped_update_result sid requested
            "Package is no longer present in refreshed inventory.")
      | some fresh ↦ revalidate_found sid requested (refreshed sid requested fresh)
    ]

abbrev deal : Revalidated → List Package × List UpdateResult → List Package × List UpdateResult
deal (still_updatable pkg) (packages, results) = (pkg ∷ packages, results)
deal (skipped result) (packages, results) = (packages, result ∷ results)

unfoldable revalidate_all :
    Option String → List Package → List Package → List Package × List UpdateResult
unfolding revalidate_one
revalidate_all sid packages [] = ([], [])
revalidate_all sid packages (requested ∷ rest) =
    deal (revalidate_one sid packages requested) (revalidate_all sid packages rest)

unfoldable pub revalidate_update_packages_for_job :
    Option String → InventorySnapshot → List Package → List Package × List UpdateResult
unfolding revalidate_all skipped_update_result
revalidate_update_packages_for_job sid (unreadable err) requested = (
  [],
  map
      (λ pkg.
        skipped_update_result sid pkg
          (text_append "Could not refresh package status before update: " err))
      requested,
)
revalidate_update_packages_for_job sid (inventory packages) requested =
    revalidate_all sid packages requested
