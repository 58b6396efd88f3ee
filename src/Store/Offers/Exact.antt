-- ===== src/Store/Offers/Exact.antt =====
-- The target that the offers agree on is exact for the identity.
use mathlib.Core.List.{Memᴰ}
use patch_board.Common.{
  ℕ, String, true, not, ◌||◌, ◌≡◌, refl, ap, ◌∙◌, sym, List, [], ◌∷◌, inl, inr, arith, ◌⊎◌,
}
use patch_board.Common.Text.{nonempty, trim_space}
use patch_board.Common.Text.Trim.{trim_space_idem}
use patch_board.Common.Dict.{Dict, AllValues}
use patch_board.Common.Sort.{mem-of-sort_by}
use patch_board.Store.Model.{
  StoreInstalledIdentity, ExactStoreUpdateTarget, exact_for, StoreProviderObservation,
  looks_like_store_product_id,
}
use patch_board.Store.Offers.{
  ExactStoreUpdateOfferDescriptor, ExactStoreUpdateOfferConsensus, agreed, describe, descriptors,
  first_value_by_sorted_key, preferred_update_id, product_ids, update_ids, consensus, agree,
  reconcile_exact_store_update_offers, exact_store_update_offer_sort_key,
}
use patch_board.Store.Offers.Described.{IsDescribed, descriptors-IsDescribed}
use patch_board.Store.Offers.Indexed.{
  index_from-AllValues, first_value-AllValues, preferred_update_id-AllValues, index_from-ne-nil,
}

-- A product ID, or an update ID, as an exact target carries it.
abbrev IsProductId : String → Type 0
IsProductId v = (nonempty v ≡ true) × (trim_space v ≡ v) × (looks_like_store_product_id v ≡ true)

abbrev IsUpdateId : String → Type 0
IsUpdateId v = (nonempty v ≡ true) × (trim_space v ≡ v)

exact_for_product_id :
    (t : ExactStoreUpdateTarget) (i : StoreInstalledIdentity)
    → exact_for t i ≡ true
    → nonempty (trim_space t.product_id) ≡ true
    → looks_like_store_product_id (trim_space t.product_id) ≡ true
unfolding exact_for
exact_for_product_id t i h ne = ground arith

exact_for_id :
    (t : ExactStoreUpdateTarget) (i : StoreInstalledIdentity)
    → exact_for t i ≡ true
    → (nonempty (trim_space t.product_id) ≡ true) ⊎ (nonempty (trim_space t.update_id) ≡ true)
unfolding exact_for
exact_for_id t i h = ground arith

module _ (identity : StoreInstalledIdentity) (offers : List StoreProviderObservation) where
  product_id-IsProductId :
      (d : ExactStoreUpdateOfferDescriptor)
      → IsDescribed identity offers d
      → nonempty d.product_id ≡ true
      → IsProductId d.product_id
  unfolding describe
  product_id-IsProductId d h ne =
      let e : d.product_id ≡ trim_space h.target.product_id = ap (λ d. d.product_id) h.described in
      (
        ne,
        ap trim_space e ∙ trim_space_idem h.target.product_id ∙ sym e,
        ap looks_like_store_product_id e
            ∙ exact_for_product_id h.target identity h.exact (sym (ap nonempty e) ∙ ne),
      )

  update_id-IsUpdateId :
      (d : ExactStoreUpdateOfferDescriptor)
      → IsDescribed identity offers d
      → nonempty d.update_id ≡ true
      → IsUpdateId d.update_id
  unfolding describe
  update_id-IsUpdateId d h ne =
      let e : d.update_id ≡ trim_space h.target.update_id = ap (λ d. d.update_id) h.described in
      (ne, ap trim_space e ∙ trim_space_idem h.target.update_id ∙ sym e)

  has_target_id :
      (d : ExactStoreUpdateOfferDescriptor)
      → IsDescribed identity offers d
      → (nonempty d.product_id ≡ true) ⊎ (nonempty d.update_id ≡ true)
  unfolding describe
  has_target_id d h = elim (exact_for_id h.target identity h.exact) [
    | inl p ↦ inl (ap (λ d. nonempty d.product_id) h.described ∙ p)
    | inr u ↦ inr (ap (λ d. nonempty d.update_id) h.described ∙ u)
  ]

-- An ID that a merged target may carry: none, or a good one.
abbrev IsTrimmed : String → Type 0
IsTrimmed v = trim_space v ≡ v

IsTrimmed-product : (p : String) → (p ≡ "") ⊎ IsProductId p → IsTrimmed p
unfolding trim_space
IsTrimmed-product p (inl e) = rw e
IsTrimmed-product p (inr h) = h.1

IsTrimmed-update : (u : String) → (u ≡ "") ⊎ IsUpdateId u → IsTrimmed u
unfolding trim_space
IsTrimmed-update u (inl e) = rw e
IsTrimmed-update u (inr h) = h.1

accepted :
    (p : String)
    → (p ≡ "") ⊎ IsProductId p
    → (not (nonempty p) || looks_like_store_product_id p) ≡ true
accepted p (inl e) = rw e
accepted p (inr h) = ground arith

-- A target with the parts of an exact one is exact.
exact_for_of_parts :
    (identity : StoreInstalledIdentity) (t : ExactStoreUpdateTarget) (p u by : String) (at : ℕ)
    → exact_for t identity ≡ true
    → at ≡ t.verified_at
    → (p ≡ "") ⊎ IsProductId p
    → (u ≡ "") ⊎ IsUpdateId u
    → (nonempty p ≡ true) ⊎ (nonempty u ≡ true)
    → exact_for
        (record t { product_id = p; update_id = u; verified_by = by; verified_at = at })
        identity
      ≡ true
unfolding exact_for
exact_for_of_parts identity t p u by at h same hp hu ne =
    rw (IsTrimmed-product p hp, IsTrimmed-update u hu) (ground (arith, accepted p hp, same))

-- The value read from a map is empty, or has what every value has.
first_or_nothing :
    (P : String → Type 0) (m : Dict String)
    → AllValues P m
    → (first_value_by_sorted_key m ≡ "") ⊎ P (first_value_by_sorted_key m)
unfolding first_value_by_sorted_key
first_or_nothing P [] h = inl refl
first_or_nothing P (e ∷ m) h = inr (first_value-AllValues P (e ∷ m) h (λ q. cc))

preferred_or_nothing :
    (P : String → Type 0) (pfn : String) (m : Dict String)
    → AllValues P m
    → (preferred_update_id pfn m ≡ "") ⊎ P (preferred_update_id pfn m)
unfolding preferred_update_id
preferred_or_nothing P pfn [] h = inl refl
preferred_or_nothing P pfn (e ∷ m) h = inr (preferred_update_id-AllValues P pfn (e ∷ m) h (λ q. cc))

module _ (identity : StoreInstalledIdentity) (offers : List StoreProviderObservation)
    (d : ExactStoreUpdateOfferDescriptor) (ds : List ExactStoreUpdateOfferDescriptor)
    (each : (e : ExactStoreUpdateOfferDescriptor)
      → Memᴰ e (d ∷ ds)
      → IsDescribed identity offers e) where
  product_ids-AllValues : AllValues IsProductId (product_ids (d ∷ ds))
  unfolding product_ids
  product_ids-AllValues =
      index_from-AllValues (λ o. o.product_id) IsProductId [] (d ∷ ds) tt
        (λ e m. product_id-IsProductId identity offers e (each e m))

  update_ids-AllValues : AllValues IsUpdateId (update_ids (d ∷ ds))
  unfolding update_ids
  update_ids-AllValues =
      index_from-AllValues (λ o. o.update_id) IsUpdateId [] (d ∷ ds) tt
        (λ e m. update_id-IsUpdateId identity offers e (each e m))

  consensus-has_id :
      (nonempty (first_value_by_sorted_key (product_ids (d ∷ ds))) ≡ true)
      ⊎ (nonempty (preferred_update_id identity.package_family_name (update_ids (d ∷ ds))) ≡ true)
  unfolding product_ids update_ids
  consensus-has_id = elim (has_target_id identity offers d (each d (Memᴰ.head refl))) [
    | inl p ↦
        inl
          (first_value-AllValues IsProductId (product_ids (d ∷ ds)) product_ids-AllValues
            (index_from-ne-nil (λ o. o.product_id) d ds p)).0
    | inr u ↦
        inr
          (preferred_update_id-AllValues IsUpdateId identity.package_family_name
            (update_ids (d ∷ ds)) update_ids-AllValues
            (index_from-ne-nil (λ o. o.update_id) d ds u)).0
  ]

  -- The merged target is exact, although its IDs may come from different offers.
  consensus-exact : exact_for (consensus identity d (d ∷ ds)).target identity ≡ true
  unfolding consensus describe
  consensus-exact =
      let h = each d (Memᴰ.head refl) in
      let same : d.target ≡ h.target = ap (λ d. d.target) h.described in
      let at : d.verified_at ≡ d.target.verified_at =
        ap (λ d. d.verified_at) h.described
        ∙ sym (ap (λ (t : ExactStoreUpdateTarget). t.verified_at) same) in
      exact_for_of_parts identity d.target _ _ d.verified_by d.verified_at (rw same h.exact) at
        (first_or_nothing IsProductId (product_ids (d ∷ ds)) product_ids-AllValues)
        (preferred_or_nothing IsUpdateId identity.package_family_name (update_ids (d ∷ ds))
          update_ids-AllValues)
        consensus-has_id

-- What the offers agree on came from one of them, and its target is exact.
agree-exact :
    (identity : StoreInstalledIdentity) (offers : List StoreProviderObservation)
    (ds : List ExactStoreUpdateOfferDescriptor) {c : ExactStoreUpdateOfferConsensus}
    → ((e : ExactStoreUpdateOfferDescriptor) → Memᴰ e ds → IsDescribed identity offers e)
    → agree identity ds ≡ agreed c
    → exact_for c.target identity ≡ true
unfolding agree
agree-exact identity offers [] each h = cc
agree-exact identity offers (d ∷ ds) {c} each h =
    let e : consensus identity d (d ∷ ds) ≡ c = ground arith in
    rw (← e) (consensus-exact identity offers d ds each)

-- If the exact offers agree, the target of their consensus is an exact target for the identity.
pub reconcile_exact_store_update_offers-exact :
    (identity : StoreInstalledIdentity) (offers : List StoreProviderObservation)
    {c : ExactStoreUpdateOfferConsensus}
    → reconcile_exact_store_update_offers identity offers ≡ agreed c
    → exact_for c.target identity ≡ true
unfolding reconcile_exact_store_update_offers
reconcile_exact_store_update_offers-exact identity offers h =
    agree-exact identity offers _
      (λ e m.
        descriptors-IsDescribed identity offers
          (mem-of-sort_by exact_store_update_offer_sort_key (descriptors identity offers) m))
      h
