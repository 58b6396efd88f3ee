-- ===== src/Store/Offers/Agreement.antt =====
-- What a consensus means for the offers that it was drawn from.
use mathlib.Core.List.{Memᴰ}
use patch_board.Common.{◌≤◌, true, ◌≡◌, refl, ap, ◌∙◌, some, List, [], ◌∷◌, arith, length}
use patch_board.Common.Text.{nonempty, trim_space, to_lower}
use patch_board.Common.Sort.{sort_by, mem-of-sort_by, mem-sort_by}
use patch_board.Store.Model.{
  StoreInstalledIdentity, ExactStoreUpdateTarget, exact_for, StoreProviderObservation,
}
use patch_board.Store.Offers.{
  ExactStoreUpdateOfferDescriptor, ExactStoreUpdateOfferConsensus, agreed, describe, descriptors,
  product_ids, known_versions, consensus, agree, reconcile_exact_store_update_offers,
  exact_store_update_offer_sort_key,
}
use patch_board.Store.Offers.Described.{mem-descriptors, descriptors-IsDescribed}
use patch_board.Store.Offers.Indexed.{index_from_one}

-- The maps that a consensus leaves with one key at most.
agree_one :
    (identity : StoreInstalledIdentity) (ds : List ExactStoreUpdateOfferDescriptor)
    {c : ExactStoreUpdateOfferConsensus}
    → agree identity ds ≡ agreed c
    → (length (product_ids ds) ≤ 1) × (length (known_versions ds) ≤ 1)
unfolding agree
agree_one identity [] h = cc
agree_one identity (d ∷ ds) h = ground arith

-- The offer that a consensus reports is one of the offers.
agree-listed :
    (identity : StoreInstalledIdentity) (ds : List ExactStoreUpdateOfferDescriptor)
    {c : ExactStoreUpdateOfferConsensus}
    → agree identity ds ≡ agreed c
    → (d : ExactStoreUpdateOfferDescriptor) × Memᴰ d ds × (c.observation ≡ d.observation)
unfolding agree consensus
agree-listed identity [] h = cc
agree-listed identity (d ∷ ds) h = (d, Memᴰ.head refl, ground arith)

module _ (identity : StoreInstalledIdentity) (offers : List StoreProviderObservation)
    {c : ExactStoreUpdateOfferConsensus}
    (consented : reconcile_exact_store_update_offers identity offers ≡ agreed c) where
  abbrev sorted : List ExactStoreUpdateOfferDescriptor
  sorted = sort_by exact_store_update_offer_sort_key (descriptors identity offers)

  consented_sorted : agree identity sorted ≡ agreed c
  unfolding reconcile_exact_store_update_offers
  consented_sorted = consented

  pub consensus_listed : Memᴰ c.observation offers
  unfolding describe
  consensus_listed =
      let (d, m, e) = agree-listed identity sorted consented_sorted in
      let h =
        descriptors-IsDescribed identity offers
          (mem-of-sort_by exact_store_update_offer_sort_key (descriptors identity offers) m) in
      rw (e ∙ ap (λ x. x.observation) h.described) h.listed

  module _ (o p : StoreProviderObservation) (t u : ExactStoreUpdateTarget) (mo : Memᴰ o offers)
      (mp : Memᴰ p offers) (ot : o.target ≡ some t) (pu : p.target ≡ some u)
      (et : exact_for t identity ≡ true) (eu : exact_for u identity ≡ true) where
    in_sorted :
        (x : StoreProviderObservation) (v : ExactStoreUpdateTarget)
        → Memᴰ x offers
        → x.target ≡ some v
        → exact_for v identity ≡ true
        → Memᴰ (describe x v) sorted
    in_sorted x v m e exact =
        mem-sort_by exact_store_update_offer_sort_key (descriptors identity offers)
          (mem-descriptors identity offers x v m e exact)

    -- Two offers with product IDs name the same product, up to case.
    pub same_product :
        nonempty (trim_space t.product_id) ≡ true
        → nonempty (trim_space u.product_id) ≡ true
        → to_lower (trim_space t.product_id) ≡ to_lower (trim_space u.product_id)
    unfolding describe product_ids
    same_product nt nu =
        index_from_one (λ d. d.product_id) (describe o t) (describe p u) sorted
          (agree_one identity sorted consented_sorted).0 (in_sorted o t mo ot et)
          (in_sorted p u mp pu eu) nt nu

    -- Two offers with versions offer the same version, up to case.
    pub same_version :
        nonempty (trim_space o.available_version) ≡ true
        → nonempty (trim_space p.available_version) ≡ true
        → to_lower (trim_space o.available_version) ≡ to_lower (trim_space p.available_version)
    unfolding describe known_versions
    same_version n n' =
        index_from_one (λ d. d.available_version) (describe o t) (describe p u) sorted
          (agree_one identity sorted consented_sorted).1 (in_sorted o t mo ot et)
          (in_sorted p u mp pu eu) n n'
