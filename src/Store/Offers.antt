-- ===== src/Store/Offers.antt =====
-- internal/updater/store_update_model.go, reconcileExactStoreUpdateOffers and its helpers: one
-- target from the exact offers of several providers, or the field on which they contradict.
pub mod Described
pub mod Indexed
pub mod Exact
pub mod Agreement
pub mod Sources
use Prim.Native.String.{◌++◌}
use patch_board.Common.{
  ℕ, String, Bool, true, false, not, ◌||◌, Option, none, some, List, [], ◌∷◌, ltb, leb,
  if◌then◌else◌, is_empty, length, keep,
}
use patch_board.Common.{◌==◌ as num_eq}
use patch_board.Common.Text.{str_eq, nonempty, trim_space, to_lower}
use patch_board.Common.Dict.{Dict, lookup, insert, keys}
use patch_board.Common.Sort.{sort_by}
use patch_board.Store.Diagnostics.{join, sanitize_provider_diagnostic}
use patch_board.Store.Model.{
  StoreInstalledIdentity, store_provider_key, ExactStoreUpdateTarget, exact_for,
  StoreProviderObservation,
}

pub record ExactStoreUpdateOfferConsensus : Type 0 where
  pub target : ExactStoreUpdateTarget
  pub available_version : String
  pub observation : StoreProviderObservation

-- The descriptor keeps the target that its observation points to.
pub record ExactStoreUpdateOfferDescriptor : Type 0 where
  pub observation : StoreProviderObservation
  pub target : ExactStoreUpdateTarget
  pub provider_key : String
  pub provider_backend : String
  pub product_id : String
  pub update_id : String
  pub available_version : String
  pub verified_by : String
  pub verified_at : ℕ

unfoldable pub describe :
    StoreProviderObservation → ExactStoreUpdateTarget → ExactStoreUpdateOfferDescriptor
describe offer target = record {
  observation = offer;
  target = target;
  provider_key = store_provider_key target.provider;
  provider_backend = trim_space target.provider.backend;
  product_id = trim_space target.product_id;
  update_id = trim_space target.update_id;
  available_version = trim_space offer.available_version;
  verified_by = trim_space target.verified_by;
  verified_at = target.verified_at;
}

-- The first loop: offers with no exact target are passed over.
abbrev describe_exact :
    StoreInstalledIdentity
    → StoreProviderObservation
    → Option ExactStoreUpdateTarget
    → List ExactStoreUpdateOfferDescriptor
    → List ExactStoreUpdateOfferDescriptor
describe_exact identity offer none rest = rest
describe_exact identity offer (some target) rest =
    if exact_for target identity then describe offer target ∷ rest else rest

unfoldable pub descriptors :
    StoreInstalledIdentity → List StoreProviderObservation → List ExactStoreUpdateOfferDescriptor
descriptors identity [] = []
descriptors identity (offer ∷ offers) =
    describe_exact identity offer offer.target (descriptors identity offers)

unfoldable pub exact_store_update_offer_sort_key : ExactStoreUpdateOfferDescriptor → String
exact_store_update_offer_sort_key offer = to_lower (
    join "|" (
      offer.provider_key ∷ offer.provider_backend ∷ offer.product_id ∷ offer.update_id
      ∷ offer.available_version ∷ []))

-- The second loop, for one of its three maps: the value of a field by its lower-case form.
module _ (field : ExactStoreUpdateOfferDescriptor → String) where
  unfoldable pub index_from : Dict String → List ExactStoreUpdateOfferDescriptor → Dict String
  index_from values [] = values
  index_from values (offer ∷ offers) =
      index_from
        (if nonempty (field offer)
          then insert (to_lower (field offer)) (field offer) values
          else values)
        offers

unfoldable pub has_conflicting_non_pfn_update_ids : String → Dict String → Bool
has_conflicting_non_pfn_update_ids package_family_name update_ids =
    let package_family_key = to_lower (trim_space package_family_name) in
    let others = length (keep (λ key. not (str_eq key package_family_key)) (keys update_ids)) in
    if leb (length update_ids) 1
    then false
    else if not (nonempty package_family_key)
    then true
    else ltb 1 others || num_eq others (length update_ids)

-- `values[k]`, the empty text for a missing key.
abbrev or_empty : Option String → String
or_empty none = ""
or_empty (some value) = value

abbrev first_of_keys : Dict String → List String → String
first_of_keys values [] = ""
first_of_keys values (key ∷ keys) = or_empty (lookup key values)

unfoldable pub first_value_by_sorted_key : Dict String → String
unfolding sort_by
first_value_by_sorted_key values = first_of_keys values (sort_by (λ key. key) (keys values))

abbrev or_first_value : Option String → Dict String → String
or_first_value (some value) values = value
or_first_value none values = first_value_by_sorted_key values

unfoldable pub preferred_update_id : String → Dict String → String
unfolding first_value_by_sorted_key
preferred_update_id package_family_name update_ids =
    if is_empty update_ids
    then ""
    else or_first_value (lookup (to_lower (trim_space package_family_name)) update_ids) update_ids

-- The (value, error) pair of reconcileExactStoreUpdateOffers.
pub data OfferResult : Type 0 where
  agreed : ExactStoreUpdateOfferConsensus → OfferResult
  refused : String → OfferResult

abbrev conflict_parts :
    (ExactStoreUpdateOfferDescriptor → String) → List ExactStoreUpdateOfferDescriptor → List String
conflict_parts field [] = []
conflict_parts field (offer ∷ offers) =
    let part =
      store_provider_key offer.observation.provider
      ++ ("=" ++ sanitize_provider_diagnostic (field offer)) in
    if nonempty (field offer)
    then part ∷ conflict_parts field offers
    else conflict_parts field offers

unfoldable pub store_update_offer_conflict_error :
    String
    → (ExactStoreUpdateOfferDescriptor → String)
    → List ExactStoreUpdateOfferDescriptor
    → String
store_update_offer_conflict_error name field offers =
    "healthy providers returned conflicting "
    ++ (name ++ (" values: " ++ join ", " (sort_by (λ part. part) (conflict_parts field offers))))

unfoldable pub product_ids : List ExactStoreUpdateOfferDescriptor → Dict String
product_ids = index_from (λ offer. offer.product_id) []

unfoldable pub update_ids : List ExactStoreUpdateOfferDescriptor → Dict String
update_ids = index_from (λ offer. offer.update_id) []

unfoldable pub known_versions : List ExactStoreUpdateOfferDescriptor → Dict String
known_versions = index_from (λ offer. offer.available_version) []

-- What is returned for the sorted offers once no field contradicts.
unfoldable pub consensus :
    StoreInstalledIdentity
    → ExactStoreUpdateOfferDescriptor
    → List ExactStoreUpdateOfferDescriptor
    → ExactStoreUpdateOfferConsensus
unfolding product_ids update_ids known_versions
consensus identity canonical offers = record {
  target = record canonical.target {
    product_id = first_value_by_sorted_key (product_ids offers);
    update_id = preferred_update_id identity.package_family_name (update_ids offers);
    verified_by = canonical.verified_by;
    verified_at = canonical.verified_at;
  };
  available_version = first_value_by_sorted_key (known_versions offers);
  observation = canonical.observation;
}

unfoldable pub agree : StoreInstalledIdentity → List ExactStoreUpdateOfferDescriptor → OfferResult
unfolding consensus product_ids update_ids known_versions
agree identity [] = refused "positive update evidence has no exact verified target"
agree identity (canonical ∷ rest) =
    let offers = canonical ∷ rest in
    if ltb 1 (length (product_ids offers))
    then refused (store_update_offer_conflict_error "product_id" (λ o. o.product_id) offers)
    else if has_conflicting_non_pfn_update_ids identity.package_family_name (update_ids offers)
    then refused (store_update_offer_conflict_error "update_id" (λ o. o.update_id) offers)
    else if ltb 1 (length (known_versions offers))
    then refused
        (store_update_offer_conflict_error "offered_version" (λ o. o.available_version) offers)
    else agreed (consensus identity canonical offers)

unfoldable pub reconcile_exact_store_update_offers :
    StoreInstalledIdentity → List StoreProviderObservation → OfferResult
unfolding agree descriptors sort_by
reconcile_exact_store_update_offers identity exact_update_offers =
    agree identity
      (sort_by exact_store_update_offer_sort_key (descriptors identity exact_update_offers))
