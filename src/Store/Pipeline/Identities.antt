-- ===== src/Store/Pipeline/Identities.antt =====
-- Go's `map[StoreInstalledIdentity]V` as an association list in the order of insertion.
use patch_board.Common.{
  true, Option, none, some, List, [], ◌∷◌, if◌then◌else◌, Bool-cases, inl, inr, some_inj, ◌≡◌,
}
use patch_board.Store.Model.{StoreInstalledIdentity, equal}

abbrev pub IdentityMap : Type 0 → Type 0
IdentityMap V = List (StoreInstalledIdentity × V)

module _ {V : Type 0} where
  unfoldable pub lookup_identity : StoreInstalledIdentity → IdentityMap V → Option V
  unfolding equal
  lookup_identity wanted [] = none
  lookup_identity wanted ((identity, v) ∷ rest) =
      if equal identity wanted then some v else lookup_identity wanted rest

  unfoldable pub insert_identity : StoreInstalledIdentity → V → IdentityMap V → IdentityMap V
  unfolding equal
  insert_identity new v [] = (new, v) ∷ []
  insert_identity new v ((identity, old) ∷ rest) =
      if equal identity new then (new, v) ∷ rest else (identity, old) ∷ insert_identity new v rest

  -- `m[identity]`, with the zero value for a missing key.
  abbrev pub value_or : V → Option V → V
  value_or zero_value none = zero_value
  value_or zero_value (some v) = v

  -- What holds of every entry.
  abbrev pub AllEntries : (StoreInstalledIdentity → V → Type 0) → IdentityMap V → Type 0
  AllEntries P [] = Unit
  AllEntries P ((identity, v) ∷ rest) = P identity v × AllEntries P rest

  pub AllEntries-insert_identity :
      (P : StoreInstalledIdentity → V → Type 0) (new : StoreInstalledIdentity) (v : V)
      (m : IdentityMap V)
      → P new v
      → AllEntries P m
      → AllEntries P (insert_identity new v m)
  unfolding insert_identity
  AllEntries-insert_identity P new v [] p h = (p, tt)
  AllEntries-insert_identity P new v ((identity, old) ∷ rest) p (q, h) =
      elim (Bool-cases (equal identity new)) [
        | inl t ↦ rw t (p, h)
        | inr f ↦ rw f (q, AllEntries-insert_identity P new v rest p h)
      ]

  -- A value that is found stands with an equal identity.
  pub lookup_identity-AllEntries :
      (P : StoreInstalledIdentity → V → Type 0) (wanted : StoreInstalledIdentity)
      (m : IdentityMap V) {v : V}
      → AllEntries P m
      → lookup_identity wanted m ≡ some v
      → (identity : StoreInstalledIdentity) × (equal identity wanted ≡ true) × P identity v
  unfolding lookup_identity
  lookup_identity-AllEntries P wanted [] h e = cc
  lookup_identity-AllEntries P wanted ((identity, w) ∷ rest) {v} (p, h) e =
      elim (Bool-cases (equal identity wanted)) [
        | inl t ↦ (identity, t, rw (← some_inj w v (rw t at e)) p)
        | inr f ↦ lookup_identity-AllEntries P wanted rest h (rw f at e)
      ]
