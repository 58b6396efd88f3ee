-- ===== src/Store/Authorize/Verified.antt =====
-- What proves that a package was updated.
use Prim.Native.Nat.{Ordering}
use patch_board.Common.{
  ℕ, ◌≡◌, refl, ◌↔◌, inl, inr, arith, String, true, false, Option, none, some, Option-cases, List,
}
use patch_board.Store.Model.{equal}
use patch_board.Store.Freshness.{store_assessment_version_known}
use patch_board.Store.Versions.{parse_store_package_version, compare_store_package_versions}
use patch_board.Store.Versions.Order.{Above, compare_store_package_versions-IsLexicographic}
use patch_board.Store.Authorize.{
  StoreExactUpdateRequest, StoreExactPackageSnapshot, StoreExactCatalogResult, is_above,
  is_at_least, store_update_verification_baseline_version, store_snapshot_verifies_update,
  store_catalog_verifies_update,
}

-- The first text is a version above the second.
abbrev pub IsAbove : String → String → Type 0
IsAbove left right =
    (ls : List ℕ) × (rs : List ℕ) × (parse_store_package_version left ≡ some ls)
    × (parse_store_package_version right ≡ some rs)
    × Above ls rs

gt_of_is_above : (o : Option Ordering) → is_above o ≡ true → o ≡ some Ordering.gt
gt_of_is_above none h = ground arith
gt_of_is_above (some Ordering.gt) h = refl
gt_of_is_above (some Ordering.eq) h = ground arith
gt_of_is_above (some Ordering.lt) h = ground arith

pub is_above-IsAbove :
    (left right : String)
    → is_above (compare_store_package_versions left right) ≡ true
    → IsAbove left right
unfolding compare_store_package_versions
is_above-IsAbove left right h = elim (Option-cases (parse_store_package_version left)) [
  | inl el ↦ ground (arith, el)
  | inr (ls, el) ↦ elim (Option-cases (parse_store_package_version right)) [
    | inl er ↦ ground (arith, el, er)
    | inr (rs, er) ↦ (
      ls,
      rs,
      el,
      er,
      (compare_store_package_versions-IsLexicographic left right ls rs el er).0.0
          (gt_of_is_above (compare_store_package_versions left right) h),
    )
  ]
]

-- The installed package is the requested one, present and healthy, and its version is above the
-- baseline and, where the offer named a version, not below the offered one.
pub record IsUpdated (request : StoreExactUpdateRequest) (before after : StoreExactPackageSnapshot)
    : Type 0 where
  pub same_package : equal after.identity request.identity ≡ true
  pub present : after.exists ≡ true
  pub intact : after.healthy ≡ true
  pub increased : IsAbove after.version (store_update_verification_baseline_version request before)
  pub reached :
      store_assessment_version_known request.offered_version ≡ true
      → is_at_least (compare_store_package_versions after.version request.offered_version) ≡ true

-- When a fresh enumeration verifies an update, the requested package is installed and healthy, its
-- version is above the baseline, part by part, and is not below a known offered version.
pub store_snapshot_verifies_update-IsUpdated :
    (request : StoreExactUpdateRequest) (before after : StoreExactPackageSnapshot)
    → (store_snapshot_verifies_update request before after).0 ≡ true
    → IsUpdated request before after
unfolding store_snapshot_verifies_update
store_snapshot_verifies_update-IsUpdated request before after h = record {
  same_package = ground arith;
  present = ground arith;
  intact = ground arith;
  increased =
      is_above-IsAbove after.version (store_update_verification_baseline_version request before)
        (ground arith);
  reached = λ known. ground arith;
}

-- A known bound is reached.
abbrev pub Reaches : String → String → Type 0
Reaches version bound =
    store_assessment_version_known bound ≡ true
    → is_at_least (compare_store_package_versions version bound) ≡ true

pub record IsSettled (request : StoreExactUpdateRequest) (before : StoreExactPackageSnapshot)
    (catalog : StoreExactCatalogResult) (after : StoreExactPackageSnapshot) : Type 0 where
  pub authoritative : catalog.authoritative ≡ true
  pub withdrawn : catalog.offer_available ≡ false
  pub catalog_healthy : catalog.installed_healthy ≡ true
  pub present : after.exists ≡ true
  pub intact : after.healthy ≡ true
  pub kept : Reaches after.version (store_update_verification_baseline_version request before)
  pub reached : Reaches after.version request.offered_version

-- A targeted catalog query verifies an update exactly when it is authoritative and offers nothing more, the
-- package is installed and healthy on both accounts, and its version is below neither a known
-- baseline nor a known offered version.
pub store_catalog_verifies_update-IsSettled :
    (request : StoreExactUpdateRequest) (before : StoreExactPackageSnapshot)
    (catalog : StoreExactCatalogResult) (after : StoreExactPackageSnapshot)
    → (store_catalog_verifies_update request before catalog after ≡ true)
      ↔ IsSettled request before catalog after
unfolding store_catalog_verifies_update
store_catalog_verifies_update-IsSettled request before catalog after = ground arith
