-- ===== src/Store/Offers/Sources.antt =====
-- Where the values of a consensus come from.
use mathlib.Core.List.{Memᴰ}
use patch_board.Common.{
  String, Option, some, none, true, List, [], ◌∷◌, is_empty, ◌≡◌, refl, ◌∙◌, ap, ◌⊎◌, inl, inr,
  arith, if-cases, if◌then◌else◌,
}
use patch_board.Common.Text.{nonempty, trim_space, to_lower}
use patch_board.Common.Dict.{
  Dict, AllValues, AllValues-insert, lookup, insert, lookup_AllValues, keys,
}
use patch_board.Common.Sort.{sort_by, mem-of-sort_by}
use patch_board.Store.Model.{
  StoreInstalledIdentity, ExactStoreUpdateTarget, exact_for, StoreProviderObservation,
}
use patch_board.Store.Offers.{
  ExactStoreUpdateOfferDescriptor, ExactStoreUpdateOfferConsensus, agreed, describe, descriptors,
  index_from, or_first_value, first_of_keys, first_value_by_sorted_key, preferred_update_id,
  product_ids, update_ids, known_versions, consensus, agree, reconcile_exact_store_update_offers,
  exact_store_update_offer_sort_key,
}
use patch_board.Store.Offers.Described.{IsDescribed, descriptors-IsDescribed}

-- The text is empty, or one of the descriptors has it in the field.
abbrev IsHeld :
    (ExactStoreUpdateOfferDescriptor → String)
    → List ExactStoreUpdateOfferDescriptor
    → String
    → Type 0
IsHeld field ds v = (v ≡ "") ⊎ ((d : ExactStoreUpdateOfferDescriptor) × Memᴰ d ds × (v ≡ field d))

module _ (P : String → Type 0) (empty : P "") where
  first_of_keys-keeps :
      (values : Dict String) (ks : List String) → AllValues P values → P (first_of_keys values ks)
  first_of_keys-keeps values [] h = empty
  first_of_keys-keeps values (k ∷ ks) h = looked (lookup k values) refl
    where
      looked : (o : Option String) → lookup k values ≡ o → P (elim o [ none ↦ "" | some v ↦ v ])
      looked none e = empty
      looked (some v) e = lookup_AllValues P k values h e

  first_value-keeps :
      (values : Dict String) → AllValues P values → P (first_value_by_sorted_key values)
  unfolding first_value_by_sorted_key
  first_value-keeps values h = first_of_keys-keeps values (sort_by (λ key. key) (keys values)) h

module _ (field : ExactStoreUpdateOfferDescriptor → String)
    (all : List ExactStoreUpdateOfferDescriptor) where
  index_from-IsHeld :
      (values : Dict String) (ds : List ExactStoreUpdateOfferDescriptor)
      → ((d : ExactStoreUpdateOfferDescriptor) → Memᴰ d ds → Memᴰ d all)
      → AllValues (IsHeld field all) values
      → AllValues (IsHeld field all) (index_from field values ds)
  unfolding index_from
  index_from-IsHeld values [] into h = h
  index_from-IsHeld values (d ∷ ds) into h =
      index_from-IsHeld
        (if nonempty (field d) then insert (to_lower (field d)) (field d) values else values) ds
        (λ e m. into e (Memᴰ.tail m))
        (if-cases (AllValues (IsHeld field all)) (nonempty (field d))
          (insert (to_lower (field d)) (field d) values) values
          (λ n.
            AllValues-insert (IsHeld field all) (to_lower (field d)) (field d) values
              (inr (d, into d (Memᴰ.head refl), refl)) h)
          (λ n. h))

  indexed : AllValues (IsHeld field all) (index_from field [] all)
  indexed = index_from-IsHeld [] all (λ d m. m) tt

  first_value-IsHeld : IsHeld field all (first_value_by_sorted_key (index_from field [] all))
  first_value-IsHeld =
      first_value-keeps (IsHeld field all) (inl refl) (index_from field [] all) indexed

  preferred-IsHeld :
      (name : String) → IsHeld field all (preferred_update_id name (index_from field [] all))
  unfolding preferred_update_id
  preferred-IsHeld name =
      let values = index_from field [] all in
      if-cases (IsHeld field all) (is_empty values) "" _ (λ e. inl refl)
        (λ e. chosen (lookup (to_lower (trim_space name)) values) refl)
    where
      chosen :
          (o : Option String)
          → lookup (to_lower (trim_space name)) (index_from field [] all) ≡ o
          → IsHeld field all (or_first_value o (index_from field [] all))
      chosen none e = first_value-IsHeld
      chosen (some v) e =
          lookup_AllValues (IsHeld field all) (to_lower (trim_space name)) (index_from field [] all)
            indexed e

-- A consensus is the one of the first of the sorted offers.
agree-consensus :
    (identity : StoreInstalledIdentity) (ds : List ExactStoreUpdateOfferDescriptor)
    {c : ExactStoreUpdateOfferConsensus}
    → agree identity ds ≡ agreed c
    → (d : ExactStoreUpdateOfferDescriptor) × Memᴰ d ds × (c ≡ consensus identity d ds)
unfolding agree
agree-consensus identity [] h = cc
agree-consensus identity (d ∷ ds) h = (d, Memᴰ.head refl, ground arith)

-- The text is empty, or it stands in one of the offers with an exact target.
abbrev pub IsFrom :
    StoreInstalledIdentity
    → List StoreProviderObservation
    → (StoreProviderObservation → ExactStoreUpdateTarget → String)
    → String
    → Type 0
IsFrom identity offers field v =
    (v ≡ "")
    ⊎ ((o : StoreProviderObservation) × ((t : ExactStoreUpdateTarget) × Memᴰ o offers
          × (o.target ≡ some t)
          × (exact_for t identity ≡ true)
          × (v ≡ field o t)))

-- The target of a consensus is that of the offer it reports, but for the two IDs and the name of the
-- verifier; the IDs and the version stand in the offers.
pub record IsDrawn (identity : StoreInstalledIdentity) (offers : List StoreProviderObservation)
    (c : ExactStoreUpdateOfferConsensus) : Type 0 where
  pub origin : ExactStoreUpdateTarget
  pub offered : c.observation.target ≡ some origin
  pub exact : exact_for origin identity ≡ true
  pub same : c.target ≡ record origin {
    product_id = c.target.product_id;
    update_id = c.target.update_id;
    verified_by = trim_space origin.verified_by;
  }
  pub product_id : IsFrom identity offers (λ o t. trim_space t.product_id) c.target.product_id
  pub update_id : IsFrom identity offers (λ o t. trim_space t.update_id) c.target.update_id
  pub version : IsFrom identity offers (λ o t. trim_space o.available_version) c.available_version

module _ (identity : StoreInstalledIdentity) (offers : List StoreProviderObservation) where
  abbrev all_sorted : List ExactStoreUpdateOfferDescriptor
  all_sorted = sort_by exact_store_update_offer_sort_key (descriptors identity offers)

  described :
      (d : ExactStoreUpdateOfferDescriptor) → Memᴰ d all_sorted → IsDescribed identity offers d
  described d m =
      descriptors-IsDescribed identity offers
        (mem-of-sort_by exact_store_update_offer_sort_key (descriptors identity offers) m)

  value-IsFrom :
      (field : ExactStoreUpdateOfferDescriptor → String)
      (shown : StoreProviderObservation → ExactStoreUpdateTarget → String) (v : String)
      → ((o : StoreProviderObservation) (t : ExactStoreUpdateTarget)
          → field (describe o t) ≡ shown o t)
      → IsHeld field all_sorted v
      → IsFrom identity offers shown v
  value-IsFrom field shown v reads (inl e) = inl e
  value-IsFrom field shown v reads (inr (d, m, e)) =
      let h = described d m in
      inr (
        h.offer,
        (
          h.target,
          h.listed,
          h.has_target,
          h.exact,
          e ∙ ap field h.described ∙ reads h.offer h.target,
        ),
      )

  consensus-IsDrawn :
      (d : ExactStoreUpdateOfferDescriptor)
      → Memᴰ d all_sorted
      → IsDrawn identity offers (consensus identity d all_sorted)
  unfolding consensus describe product_ids update_ids known_versions
  consensus-IsDrawn d m =
      let h = described d m in
      record {
        origin = h.target;
        offered = ap (λ x. x.observation.target) h.described ∙ h.has_target;
        exact = h.exact;
        same =
            ap (λ (x : ExactStoreUpdateOfferDescriptor). (consensus identity x all_sorted).target)
              h.described;
        product_id =
            value-IsFrom (λ x. x.product_id) (λ o t. trim_space t.product_id) _ (λ o t. refl)
              (first_value-IsHeld (λ x. x.product_id) all_sorted);
        update_id =
            value-IsFrom (λ x. x.update_id) (λ o t. trim_space t.update_id) _ (λ o t. refl)
              (preferred-IsHeld (λ x. x.update_id) all_sorted identity.package_family_name);
        version =
            value-IsFrom (λ x. x.available_version) (λ o t. trim_space o.available_version) _
              (λ o t. refl) (first_value-IsHeld (λ x. x.available_version) all_sorted);
      }

  pub reconcile_exact_store_update_offers-IsDrawn :
      {c : ExactStoreUpdateOfferConsensus}
      → reconcile_exact_store_update_offers identity offers ≡ agreed c
      → IsDrawn identity offers c
  unfolding reconcile_exact_store_update_offers
  reconcile_exact_store_update_offers-IsDrawn h =
      let (d, m, e) = agree-consensus identity all_sorted h in rw (e) (consensus-IsDrawn d m)
