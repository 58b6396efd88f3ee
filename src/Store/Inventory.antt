-- ===== src/Store/Inventory.antt =====
-- internal/updater/store_packaged_inventory.go: the installed packages of the user, and their
-- families. Of the status of a package the fields that are read here are kept.
pub mod Grouped
use Prim.Native.Nat.{compare, Ordering}
use Prim.Native.String.{◌++◌}
use mathlib.Core.List.{◌++◌ as append}
use patch_board.Common.{
  ℕ, suc, String, Bool, true, false, not, ◌||◌, List, [], ◌∷◌, any, ltb, if◌then◌else◌,
}
use patch_board.Common.{◌==◌ as num_eq}
use patch_board.Common.Text.{str_eq, nonempty, trim_space}
use patch_board.Common.Text.Decimal.{decimal}
use patch_board.Common.Sort.{sort_by, sort_with}
use patch_board.Store.Model.{StoreInstalledIdentity, equal, StoreScanGeneration}

-- Each part has 16 bits.
pub record StorePackageVersion : Type 0 where
  pub major : ℕ
  pub minor : ℕ
  pub build : ℕ
  pub revision : ℕ

-- `String` of the version.
unfoldable pub version_text : StorePackageVersion → String
unfolding decimal
version_text version =
    decimal version.major
    ++ ("."
        ++ (decimal version.minor
            ++ ("." ++ (decimal version.build ++ ("." ++ decimal version.revision)))))

pub record StorePackageStatus : Type 0 where
  pub ok : Bool
  pub raw : String

pub record StorePackagedAppRecord : Type 0 where
  pub user_sid : String
  pub package_family_name : String
  pub package_full_name : String
  pub identity_name : String
  pub publisher : String
  pub publisher_id : String
  pub version : StorePackageVersion
  pub processor_architecture : String
  pub install_location : String
  pub package_type : String
  pub classification : String
  pub is_framework : Bool
  pub is_resource_package : Bool
  pub is_optional : Bool
  pub is_bundle : Bool
  pub is_development_mode : Bool
  pub is_staged : Bool
  pub status : StorePackageStatus
  pub display_name : String

pub record StorePackagedAppFamily : Type 0 where
  pub identity : StoreInstalledIdentity
  pub primary : StorePackagedAppRecord
  pub instances : List StorePackagedAppRecord
  pub display_name : String
  pub product_like : Bool

pub record StorePackagedAppInventory : Type 0 where
  pub scan : StoreScanGeneration
  pub records : List StorePackagedAppRecord
  pub families : List StorePackagedAppFamily
  pub partial : Bool
  pub errors : List String

unfoldable pub classify_store_packaged_app : StorePackagedAppRecord → String
unfolding trim_space
classify_store_packaged_app r =
    if r.is_resource_package
    then "resource"
    else if r.is_framework
    then "framework"
    else if r.is_optional
    then "optional"
    else if r.is_bundle
    then "bundle"
    else if nonempty r.classification
    then trim_space r.classification
    else "main"

-- The errors of normalizeStorePackagedAppRecord.
pub data RecordError : Type 0 where
  missing_user_sid missing_family_name missing_full_name missing_identity_name : RecordError

pub data NormalizedRecord : Type 0 where
  rejected : RecordError → NormalizedRecord
  accepted : StorePackagedAppRecord → NormalizedRecord

-- The fields as they are stored, before a record with a missing one is refused.
unfoldable pub trimmed_record : StorePackagedAppRecord → String → StorePackagedAppRecord
unfolding trim_space classify_store_packaged_app
trimmed_record r fallback_user_sid = record r {
  user_sid =
      if nonempty (trim_space r.user_sid)
      then trim_space r.user_sid
      else trim_space fallback_user_sid;
  package_family_name = trim_space r.package_family_name;
  package_full_name = trim_space r.package_full_name;
  identity_name = trim_space r.identity_name;
  publisher = trim_space r.publisher;
  publisher_id = trim_space r.publisher_id;
  processor_architecture = trim_space r.processor_architecture;
  install_location = trim_space r.install_location;
  package_type = trim_space r.package_type;
  classification = classify_store_packaged_app r;
  display_name = trim_space r.display_name;
}

unfoldable pub normalize_store_packaged_app_record :
    StorePackagedAppRecord → String → NormalizedRecord
unfolding trimmed_record
normalize_store_packaged_app_record r fallback_user_sid =
    let trimmed = trimmed_record r fallback_user_sid in
    if not (nonempty trimmed.user_sid)
    then rejected missing_user_sid
    else if not (nonempty trimmed.package_family_name)
    then rejected missing_family_name
    else if not (nonempty trimmed.package_full_name)
    then rejected missing_full_name
    else if not (nonempty trimmed.identity_name)
    then rejected missing_identity_name
    else accepted trimmed

unfoldable pub identity_of : StorePackagedAppRecord → StoreInstalledIdentity
identity_of r = record { user_sid = r.user_sid; package_family_name = r.package_family_name }

-- `byKey`: the records of each identity, in the order of the records. Go ranges over the map in an
-- unspecified order, and sorts the families afterwards.
abbrev pub Group : Type 0
Group = StoreInstalledIdentity × List StorePackagedAppRecord

unfoldable pub add_record : StorePackagedAppRecord → List Group → List Group
unfolding equal identity_of
add_record r [] = (identity_of r, r ∷ []) ∷ []
add_record r ((identity, rs) ∷ groups) =
    let rest = add_record r groups in
    if equal identity (identity_of r) then (identity, r ∷ rs) ∷ groups else (identity, rs) ∷ rest

unfoldable pub group_records : List StorePackagedAppRecord → List Group
unfolding add_record
group_records [] = []
group_records (r ∷ rs) = add_record r (group_records rs)

abbrev then_by : Ordering → Ordering → Ordering
then_by Ordering.eq next = next
then_by first next = first

unfoldable pub compare_store_package_version : StorePackageVersion → StorePackageVersion → Ordering
compare_store_package_version left right = then_by (compare left.major right.major) (
    then_by (compare left.minor right.minor)
      (then_by (compare left.build right.build) (compare left.revision right.revision)))

unfoldable pub store_package_classification_rank : String → ℕ
store_package_classification_rank classification =
    if str_eq classification "main"
    then 0
    else if str_eq classification "bundle"
    then 1
    else if str_eq classification "optional"
    then 2
    else if str_eq classification "resource"
    then 3
    else if str_eq classification "framework"
    then 4
    else 5

abbrev is_above : Ordering → Bool
is_above Ordering.gt = true
is_above _ = false

-- The order of the instances: by rank, and of the same rank the newest version first.
unfoldable pub instance_before : StorePackagedAppRecord → StorePackagedAppRecord → Bool
unfolding store_package_classification_rank compare_store_package_version
instance_before left right =
    let left_rank = store_package_classification_rank left.classification in
    let right_rank = store_package_classification_rank right.classification in
    if not (num_eq left_rank right_rank)
    then ltb left_rank right_rank
    else is_above (compare_store_package_version left.version right.version)

unfoldable pub family_product_like : List StorePackagedAppRecord → Bool
unfolding any
family_product_like = any (λ r. str_eq r.classification "main" || str_eq r.classification "bundle")

-- A family of sorted instances. `friendly_name` stands for friendlyAppxName, which is in
-- internal/updater/package_appx_names.go. No group is empty.
module _ (friendly_name : String → String → String) where
  abbrev pub family_led_by :
      StoreInstalledIdentity
      → StorePackagedAppRecord
      → List StorePackagedAppRecord
      → StorePackagedAppFamily
  family_led_by identity primary rest = record {
    identity = identity;
    primary = primary;
    instances = primary ∷ rest;
    display_name = friendly_name primary.identity_name primary.display_name;
    product_like = family_product_like (primary ∷ rest);
  }

  unfoldable pub family_of_sorted :
      StoreInstalledIdentity → List StorePackagedAppRecord → List StorePackagedAppFamily
  unfolding family_product_like
  family_of_sorted identity [] = []
  family_of_sorted identity (primary ∷ rest) = family_led_by identity primary rest ∷ []

  unfoldable pub families_of : List Group → List StorePackagedAppFamily
  unfolding family_of_sorted sort_with instance_before
  families_of [] = []
  families_of ((identity, rs) ∷ groups) =
      append (family_of_sorted identity (sort_with instance_before rs)) (families_of groups)

  unfoldable pub group_store_packaged_app_families :
      List StorePackagedAppRecord → List StorePackagedAppFamily
  unfolding families_of group_records sort_by
  group_store_packaged_app_families records =
      sort_by (λ family. family.identity.package_family_name) (families_of (group_records records))

unfoldable pub product_like_family_count : List StorePackagedAppFamily → ℕ
product_like_family_count [] = 0
product_like_family_count (family ∷ families) =
    let rest = product_like_family_count families in if family.product_like then suc rest else rest
