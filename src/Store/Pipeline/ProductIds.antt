-- ===== src/Store/Pipeline/ProductIds.antt =====
-- internal/updater/store_scan_pipeline.go, verifiedProductIDsByIdentity.
use Prim.Native.String.{◌++◌}
use mathlib.Core.List.{◌++◌ as append}
use patch_board.Common.{
  String, Bool, true, false, not, ◌&&◌, List, [], ◌∷◌, fold_left, if◌then◌else◌,
}
use patch_board.Common.Text.{nonempty, equal_fold}
use patch_board.Common.Sort.{sort_by}
use patch_board.Store.Diagnostics.{sanitize_provider_diagnostic, join}
use patch_board.Store.Model.{
  StoreScanGeneration, store_provider_key, VerifiedStoreIdentityMapping, verified_for,
}
use patch_board.Store.Snapshot.{StoreCatalogProviderRun}
use patch_board.Store.Pipeline.Sanitize.{is_verified}
use patch_board.Store.Pipeline.Identities.{IdentityMap, lookup_identity, insert_identity, value_or}

-- What is known of the Product ID of an identity.
pub record ProductIdState : Type 0 where
  pub product_id : String
  pub conflict : Bool
  pub values : List String

abbrev pub nothing_known : ProductIdState
nothing_known = record { product_id = ""; conflict = false; values = [] }

unfoldable pub product_id_value : VerifiedStoreIdentityMapping → String
unfolding store_provider_key sanitize_provider_diagnostic
product_id_value mapping =
    store_provider_key mapping.provider ++ ("=" ++ sanitize_provider_diagnostic mapping.product_id)

unfoldable pub noted_product_id : ProductIdState → VerifiedStoreIdentityMapping → ProductIdState
unfolding product_id_value equal_fold
noted_product_id state mapping =
    if not (nonempty state.product_id)
    then record state {
      product_id = mapping.product_id;
      values = append state.values (product_id_value mapping ∷ []);
    }
    else if not (equal_fold state.product_id mapping.product_id)
    then record state {
      conflict = true;
      values = append state.values (product_id_value mapping ∷ []);
    }
    else state

unfoldable pub note_mapping :
    StoreScanGeneration
    → IdentityMap ProductIdState
    → VerifiedStoreIdentityMapping
    → IdentityMap ProductIdState
unfolding verified_for insert_identity noted_product_id lookup_identity
note_mapping scan states mapping =
    if not (is_verified scan mapping)
    then states
    else insert_identity mapping.installed_identity
        (noted_product_id
          (value_or nothing_known (lookup_identity mapping.installed_identity states)) mapping)
        states

unfoldable pub product_id_states :
    StoreScanGeneration → List StoreCatalogProviderRun → IdentityMap ProductIdState
unfolding fold_left note_mapping
product_id_states scan runs =
    fold_left (λ states run. fold_left (note_mapping scan) states run.mappings) [] runs

-- The entries of the two maps that verifiedProductIDsByIdentity returns; "" stands for no entry.
unfoldable pub verified_product_id : ProductIdState → String
verified_product_id state =
    if nonempty state.product_id && not state.conflict then state.product_id else ""

unfoldable pub product_id_conflict : ProductIdState → String
unfolding join sort_by
product_id_conflict state =
    if nonempty state.product_id && not state.conflict
    then ""
    else if state.conflict
    then "verified Store product mapping conflict: product_id "
      ++ join ", " (sort_by (λ value. value) state.values)
    else ""
