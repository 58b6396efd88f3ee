-- ===== src/Packages/Selection.antt =====
-- Which packages an update job takes, and which of them are left when it starts:
-- update_job_packages.go and update_retry.go in internal/updater. `sid` is what currentUserSID
-- returns; `inventory` is what effectiveInventorySnapshot returns.
pub mod Laws
pub mod Entries
pub mod Requested
pub mod Job
use Prim.Native.String
use patch_board.Common.{
  String, Bool, true, not, ◌||◌, Option, none, some, List, [], ◌∷◌, is_empty, if◌then◌else◌, ◌⊎◌,
  inl, inr,
}
use patch_board.Common.Text.{str_eq, nonempty}
use patch_board.Common.Dict.{Dict, contains, lookup, insert}
use patch_board.Packages.Model.{
  Package, no_package, package_key, split_package_key, split_canonical_store_auto_update_key,
  normalize_auto_update_package_key, normalized_job_package_key,
}
use patch_board.Packages.Policy.{UpdateOptions, package_update_policy}
use patch_board.Store.Diagnostics.{first_non_empty}

pub data InventorySnapshot : Type 0 where
  unreadable : String → InventorySnapshot
  inventory : List Package → InventorySnapshot

pub data JobError : Type 0 where
  no_inventory : String → JobError
  no_update_candidates bad_package_key : JobError
  not_actionable : String → String → JobError

-- What the function returns: the error, or the packages; and the mode.
pub data Chosen : Type 0 where
  rejected : JobError → String → Chosen
  chosen : List Package → String → Chosen

unfoldable pub normalize_job_request_package_key : Option String → String → String
unfolding split_package_key split_canonical_store_auto_update_key normalize_auto_update_package_key
    package_key
normalize_job_request_package_key sid requested =
    let normalized = normalize_auto_update_package_key sid requested in
    elim (split_package_key requested) [
      | none ↦ requested
      | some (manager, id) ↦
          if str_eq manager "store"
          then (elim (split_canonical_store_auto_update_key requested) [
            | some (user, family) ↦ package_key "store" family
            | none ↦ package_key "store" id
          ])
          else if nonempty normalized
          then normalized
          else requested
    ]

-- The package as the job takes it: under its key, with the options of the job.
abbrev pub taken : UpdateOptions → String → Package → Package
taken options update_key pkg = record pkg {
  key = update_key;
  allow_unknown_version_update = options.allow_unknown_version;
  allow_pinned_update = options.allow_pinned;
}

unfoldable pub package_allowed_in_bulk_update : Option String → Package → UpdateOptions → Bool
unfolding package_update_policy
package_allowed_in_bulk_update sid pkg options =
    (package_update_policy sid pkg options).can_update_now

-- The loop over the inventory; `selected_keys` are the keys taken so far.
unfoldable pub select_all :
    Option String → UpdateOptions → List Package → List String → List Package
unfolding normalized_job_package_key package_allowed_in_bulk_update contains
select_all sid options [] selected_keys = []
select_all sid options (pkg ∷ packages) selected_keys =
    let update_key = normalized_job_package_key sid pkg in
    let skip =
      not (nonempty update_key)
      || contains update_key selected_keys
      || not (package_allowed_in_bulk_update sid pkg options) in
    let next = (if skip then selected_keys else update_key ∷ selected_keys) in
    let rest = select_all sid options packages next in
    if skip then rest else taken options update_key pkg ∷ rest

-- inventoryByUpdateKey: the last package under a key wins.
unfoldable pub inventory_by_update_key : Option String → List Package → Dict Package → Dict Package
unfolding normalized_job_package_key insert
inventory_by_update_key sid [] entries = entries
inventory_by_update_key sid (pkg ∷ packages) entries =
    let update_key = normalized_job_package_key sid pkg in
    let next =
      (if nonempty update_key
        then insert update_key (record pkg { key = update_key }) entries
        else entries) in
    inventory_by_update_key sid packages next

-- The package of a requested key: the inventory's, or one that is made from the key.
abbrev package_of : Dict Package → String → String → String → Package
package_of entries update_key manager id = elim (lookup update_key entries) [
  | some pkg ↦ pkg
  | none ↦ record no_package {
    key = update_key;
    manager = manager;
    id = id;
    name = id;
    update_supported = true;
  }
]

abbrev checked_package : Option String → UpdateOptions → String → Package → JobError ⊎ Package
checked_package sid options update_key pkg =
    let policy = package_update_policy sid pkg options in
    if not policy.can_update_now
    then inl (
        not_actionable update_key
          (first_non_empty (policy.cannot_update_reason ∷ "not actionable" ∷ [])))
    else inr (taken options update_key pkg)

-- One requested key that is not selected yet.
unfoldable requested_package :
    Option String → UpdateOptions → Dict Package → String → JobError ⊎ Package
unfolding split_package_key lookup package_update_policy first_non_empty
requested_package sid options entries update_key = elim (split_package_key update_key) [
  | none ↦ inl bad_package_key
  | some (manager, id) ↦
      checked_package sid options update_key (package_of entries update_key manager id)
]

abbrev update_key_of : Option String → String → String
update_key_of sid requested =
    let normalized = normalize_job_request_package_key sid requested in
    if nonempty normalized then normalized else requested

abbrev put_first : JobError ⊎ Package → JobError ⊎ List Package → JobError ⊎ List Package
put_first (inl e) rest = inl e
put_first (inr pkg) (inl e) = inl e
put_first (inr pkg) (inr packages) = inr (pkg ∷ packages)

-- The loop over the requested keys: the first error ends it.
unfoldable pub select_requested :
    Option String
    → UpdateOptions
    → Dict Package
    → List String
    → List String
    → JobError ⊎ List Package
unfolding requested_package normalize_job_request_package_key contains
select_requested sid options entries [] selected_keys = inr []
select_requested sid options entries (requested ∷ keys) selected_keys =
    let update_key = update_key_of sid requested in
    let skip = contains update_key selected_keys in
    let next = (if skip then selected_keys else update_key ∷ selected_keys) in
    let rest = select_requested sid options entries keys next in
    if skip then rest else put_first (requested_package sid options entries update_key) rest

abbrev answer : String → JobError ⊎ List Package → Chosen
answer mode (inl e) = rejected e mode
answer mode (inr packages) =
    if is_empty packages then rejected no_update_candidates mode else chosen packages mode

unfoldable pub update_job_packages :
    Option String → InventorySnapshot → List String → UpdateOptions → Chosen
unfolding select_all select_requested inventory_by_update_key
update_job_packages sid (unreadable err) requested options = rejected (no_inventory err) "selected"
update_job_packages sid (inventory packages) requested options =
    if is_empty requested
    then answer "all" (inr (select_all sid options packages []))
    else answer "selected"
        (select_requested sid options (inventory_by_update_key sid packages []) requested [])
