-- ===== src/Store/Offers/Described.antt =====
-- Where the descriptors come from.
use mathlib.Core.List.{Memᴰ}
use patch_board.Common.{
  true, ◌≡◌, refl, ap, Option, some, none, List, [], ◌∷◌, Bool-cases, inl, inr,
}
use patch_board.Store.Model.{
  StoreInstalledIdentity, ExactStoreUpdateTarget, exact_for, StoreProviderObservation,
}
use patch_board.Store.Offers.{
  ExactStoreUpdateOfferDescriptor, describe, describe_exact, descriptors,
}

-- The descriptor stands for a listed offer whose target is exact.
pub record IsDescribed (identity : StoreInstalledIdentity) (offers : List StoreProviderObservation)
    (d : ExactStoreUpdateOfferDescriptor) : Type 0 where
  pub offer : StoreProviderObservation
  pub target : ExactStoreUpdateTarget
  pub listed : Memᴰ offer offers
  pub has_target : offer.target ≡ some target
  pub exact : exact_for target identity ≡ true
  pub described : d ≡ describe offer target

module _ (identity : StoreInstalledIdentity) where
  IsDescribed-tail :
      {o : StoreProviderObservation} {os : List StoreProviderObservation}
      {d : ExactStoreUpdateOfferDescriptor}
      → IsDescribed identity os d
      → IsDescribed identity (o ∷ os) d
  IsDescribed-tail h = record {
    offer = h.offer;
    target = h.target;
    listed = Memᴰ.tail h.listed;
    has_target = h.has_target;
    exact = h.exact;
    described = h.described;
  }

  describe_exact-IsDescribed :
      (o : StoreProviderObservation) (os : List StoreProviderObservation)
      (t : Option ExactStoreUpdateTarget) {d : ExactStoreUpdateOfferDescriptor}
      → o.target ≡ t
      → (Memᴰ d (descriptors identity os) → IsDescribed identity os d)
      → Memᴰ d (describe_exact identity o t (descriptors identity os))
      → IsDescribed identity (o ∷ os) d
  describe_exact-IsDescribed o os none e later m = IsDescribed-tail (later m)
  describe_exact-IsDescribed o os (some t) {d} e later m =
      elim (Bool-cases (exact_for t identity)) [
        | inl exact ↦ split exact (rw exact at m)
        | inr f ↦ IsDescribed-tail (later (rw f at m))
      ]
    where
      split :
          exact_for t identity ≡ true
          → Memᴰ d (describe o t ∷ descriptors identity os)
          → IsDescribed identity (o ∷ os) d
      split exact (Memᴰ.head q) = record {
        offer = o;
        target = t;
        listed = Memᴰ.head refl;
        has_target = e;
        exact = exact;
        described = q;
      }
      split exact (Memᴰ.tail k) = IsDescribed-tail (later k)

  pub descriptors-IsDescribed :
      (os : List StoreProviderObservation) {d : ExactStoreUpdateOfferDescriptor}
      → Memᴰ d (descriptors identity os)
      → IsDescribed identity os d
  unfolding descriptors
  descriptors-IsDescribed [] m = elim m [ ]
  descriptors-IsDescribed (o ∷ os) m =
      describe_exact-IsDescribed o os o.target refl (descriptors-IsDescribed os) m

  mem-describe_exact :
      (o : StoreProviderObservation) (t : Option ExactStoreUpdateTarget)
      (ds : List ExactStoreUpdateOfferDescriptor) {d : ExactStoreUpdateOfferDescriptor}
      → Memᴰ d ds
      → Memᴰ d (describe_exact identity o t ds)
  mem-describe_exact o none ds m = m
  mem-describe_exact o (some t) ds m = elim (Bool-cases (exact_for t identity)) [
    | inl e ↦ rw e (Memᴰ.tail m)
    | inr f ↦ rw f m
  ]

  -- Every offer with an exact target has a descriptor.
  pub mem-descriptors :
      (os : List StoreProviderObservation) (o : StoreProviderObservation)
      (t : ExactStoreUpdateTarget)
      → Memᴰ o os
      → o.target ≡ some t
      → exact_for t identity ≡ true
      → Memᴰ (describe o t) (descriptors identity os)
  unfolding descriptors
  mem-descriptors [] o t m e exact = elim m [ ]
  mem-descriptors (o' ∷ os) o t (Memᴰ.head q) e exact =
      rw (← ap (λ (x : StoreProviderObservation). x.target) q, e) (rw exact (rw q (Memᴰ.head refl)))
  mem-descriptors (o' ∷ os) o t (Memᴰ.tail m) e exact =
      mem-describe_exact o' o'.target (descriptors identity os) (mem-descriptors os o t m e exact)
