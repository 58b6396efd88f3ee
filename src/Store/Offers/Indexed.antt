-- ===== src/Store/Offers/Indexed.antt =====
-- The maps from lower-case form to value, and what is read from them.
use mathlib.Core.List.{Memᴰ}
use text.Mathlib.TextPositions.{eq_refl}
use patch_board.Common.{
  String, true, ◌≡◌, ◌≢◌, refl, Option, some, none, List, [], ◌∷◌, if◌then◌else◌, Bool-cases, inl,
  inr, ap, length, ◌≤◌,
}
use patch_board.Common.Text.{nonempty, str_eq, to_lower, trim_space}
use patch_board.Common.Dict.{
  Dict, lookup, insert, keys, AllValues, AllValues-insert, lookup_of_mem, lookup_AllValues,
  insert-ne-nil, lookup-insert, one_key,
}
use patch_board.Common.Sort.{sort_by, mem-of-sort_by, sort_by-ne-nil}
use patch_board.Store.Offers.{
  ExactStoreUpdateOfferDescriptor, index_from, first_value_by_sorted_key, first_of_keys,
  preferred_update_id, or_first_value,
}

module _ (field : ExactStoreUpdateOfferDescriptor → String) (P : String → Type 0) where
  -- What holds of every field that is not empty holds of every value of the map.
  pub index_from-AllValues :
      (m : Dict String) (ds : List ExactStoreUpdateOfferDescriptor)
      → AllValues P m
      → ((d : ExactStoreUpdateOfferDescriptor)
          → Memᴰ d ds
          → nonempty (field d) ≡ true
          → P (field d))
      → AllValues P (index_from field m ds)
  unfolding index_from
  index_from-AllValues m [] h each = h
  index_from-AllValues m (d ∷ ds) h each = elim (Bool-cases (nonempty (field d))) [
    | inl t ↦ rw t (
        index_from-AllValues (insert (to_lower (field d)) (field d) m) ds
          (AllValues-insert P _ _ m (each d (Memᴰ.head refl) t) h) (λ d' k. each d' (Memᴰ.tail k)))
    | inr f ↦ rw f (index_from-AllValues m ds h (λ d' k. each d' (Memᴰ.tail k)))
  ]

module _ (P : String → Type 0) where
  first_of_keys-AllValues :
      (m : Dict String) (ks : List String)
      → ((k : String) → Memᴰ k ks → Memᴰ k (keys m))
      → AllValues P m
      → ks ≢ []
      → P (first_of_keys m ks)
  first_of_keys-AllValues m [] into h ne = absurd (ne refl)
  first_of_keys-AllValues m (k ∷ ks) into h ne =
      let (v, found, p) = lookup_of_mem P k m h (into k (Memᴰ.head refl)) in rw found p

  pub first_value-AllValues :
      (m : Dict String) → AllValues P m → m ≢ [] → P (first_value_by_sorted_key m)
  unfolding first_value_by_sorted_key
  first_value-AllValues [] h ne = absurd (ne refl)
  first_value-AllValues ((k, v) ∷ m) h ne =
      first_of_keys-AllValues ((k, v) ∷ m) (sort_by (λ key. key) (keys ((k, v) ∷ m)))
        (λ key mem. mem-of-sort_by (λ (s : String). s) (keys ((k, v) ∷ m)) mem) h
        (sort_by-ne-nil (λ (s : String). s) k (keys m))

  preferred-found :
      (m : Dict String) (o : Option String)
      → ((v : String) → o ≡ some v → P v)
      → AllValues P m
      → m ≢ []
      → P (or_first_value o m)
  preferred-found m none found h ne = first_value-AllValues m h ne
  preferred-found m (some v) found h ne = found v refl

  pub preferred_update_id-AllValues :
      (pfn : String) (m : Dict String) → AllValues P m → m ≢ [] → P (preferred_update_id pfn m)
  unfolding preferred_update_id
  preferred_update_id-AllValues pfn [] h ne = absurd (ne refl)
  preferred_update_id-AllValues pfn (e ∷ m) h ne =
      preferred-found (e ∷ m) (lookup (to_lower (trim_space pfn)) (e ∷ m))
        (λ v found. lookup_AllValues P (to_lower (trim_space pfn)) (e ∷ m) h found) h ne

module _ (field : ExactStoreUpdateOfferDescriptor → String) where
  index_from-ne-nil_of_ne :
      (m : Dict String) (ds : List ExactStoreUpdateOfferDescriptor)
      → m ≢ []
      → index_from field m ds ≢ []
  unfolding index_from
  index_from-ne-nil_of_ne m [] ne = ne
  index_from-ne-nil_of_ne m (d ∷ ds) ne = elim (Bool-cases (nonempty (field d))) [
    | inl t ↦
        rw t (
          index_from-ne-nil_of_ne (insert (to_lower (field d)) (field d) m) ds
            (insert-ne-nil _ _ m))
    | inr f ↦ rw f (index_from-ne-nil_of_ne m ds ne)
  ]

  -- A field that is not empty is in the map.
  pub index_from-ne-nil :
      (d : ExactStoreUpdateOfferDescriptor) (ds : List ExactStoreUpdateOfferDescriptor)
      → nonempty (field d) ≡ true
      → index_from field [] (d ∷ ds) ≢ []
  unfolding index_from
  index_from-ne-nil d ds t = rw t (
      index_from-ne-nil_of_ne (insert (to_lower (field d)) (field d) []) ds
        (insert-ne-nil (to_lower (field d)) (field d) []))

  -- What a map once has a key for, it keeps a key for.
  abbrev Has : String → Dict String → Type 0
  Has key m = (v : String) × (lookup key m ≡ some v)

  Has-insert : (key k v : String) (m : Dict String) → Has key m → Has key (insert k v m)
  Has-insert key k v m (w, h) = elim (Bool-cases (str_eq k key)) [
    | inl t ↦ (v, rw (lookup-insert k key v m) (rw t))
    | inr f ↦ (w, rw (lookup-insert k key v m) (rw f h))
  ]

  index_from-Has :
      (key : String) (m : Dict String) (ds : List ExactStoreUpdateOfferDescriptor)
      → Has key m
      → Has key (index_from field m ds)
  unfolding index_from
  index_from-Has key m [] h = h
  index_from-Has key m (d ∷ ds) h = elim (Bool-cases (nonempty (field d))) [
    | inl t ↦
        rw t
          (index_from-Has key (insert (to_lower (field d)) (field d) m) ds (Has-insert key _ _ m h))
    | inr f ↦ rw f (index_from-Has key m ds h)
  ]

  index_from-Has_listed :
      (d : ExactStoreUpdateOfferDescriptor) (m : Dict String)
      (ds : List ExactStoreUpdateOfferDescriptor)
      → Memᴰ d ds
      → nonempty (field d) ≡ true
      → Has (to_lower (field d)) (index_from field m ds)
  unfolding index_from
  index_from-Has_listed d m [] k t = elim k [ ]
  index_from-Has_listed d m (e ∷ ds) (Memᴰ.head q) t =
      rw (ap field q, ← ap (λ x. nonempty (field x)) q, t)
        (index_from-Has (to_lower (field e)) (insert (to_lower (field e)) (field e) m) ds (
          field e,
          rw (lookup-insert (to_lower (field e)) (to_lower (field e)) (field e) m)
              (rw (eq_refl (to_lower (field e)))),
        ))
  index_from-Has_listed d m (e ∷ ds) (Memᴰ.tail k) t =
      index_from-Has_listed d
        (if nonempty (field e) then insert (to_lower (field e)) (field e) m else m) ds k t

  -- With one key at most, the fields that are not empty differ in case alone.
  pub index_from_one :
      (d e : ExactStoreUpdateOfferDescriptor) (ds : List ExactStoreUpdateOfferDescriptor)
      → length (index_from field [] ds) ≤ 1
      → Memᴰ d ds
      → Memᴰ e ds
      → nonempty (field d) ≡ true
      → nonempty (field e) ≡ true
      → to_lower (field d) ≡ to_lower (field e)
  index_from_one d e ds one md me nd ne =
      one_key (to_lower (field d)) (to_lower (field e)) (index_from field [] ds) one
        (index_from-Has_listed d [] ds md nd).1 (index_from-Has_listed e [] ds me ne).1
