-- ===== src/Packages/Selection/Entries.antt =====
-- inventoryByUpdateKey: what stands under a key of the inventory.
use mathlib.Core.List.{Memᴰ}
use text.Mathlib.TextEquality.{eq_iff}
use patch_board.Common.{
  String, true, Option, none, some, List, [], ◌∷◌, some_inj, ◌≡◌, refl, sym, ◌∙◌, ap, ◌⊎◌, inl, inr,
  arith, Bool-cases, if◌then◌else◌,
}
use patch_board.Common.Text.{str_eq, nonempty}
use patch_board.Common.Dict.{Dict, lookup, insert, lookup-insert}
use patch_board.Packages.Model.{Package, normalized_job_package_key}
use patch_board.Packages.Selection.{inventory_by_update_key}

-- A package of the inventory with the key, under which it stands.
abbrev pub IsListed : Option String → List Package → String → Package → Type 0
IsListed sid packages k q =
    (p : Package) × Memᴰ p packages
    × (normalized_job_package_key sid p ≡ k)
    × (q ≡ record p { key = k })

-- No package of the inventory has the key.
abbrev pub IsMissing : Option String → List Package → String → Type 0
IsMissing sid packages k =
    (p : Package)
    → Memᴰ p packages
    → nonempty (normalized_job_package_key sid p) ≡ true
    → normalized_job_package_key sid p ≡ k
    → ⊥

module _ (sid : Option String) (k : String) where
  abbrev with_package : Package → Dict Package → Dict Package
  with_package pkg entries =
      let u = normalized_job_package_key sid pkg in
      if nonempty u then insert u (record pkg { key = u }) entries else entries

  lookup-insert_cases :
      (u : String) (v q : Package) (entries : Dict Package)
      → lookup k (insert u v entries) ≡ some q
      → ((u ≡ k) × (q ≡ v)) ⊎ (lookup k entries ≡ some q)
  lookup-insert_cases u v q entries h = elim (Bool-cases (str_eq u k)) [
    | inl t ↦
        let e : Option.some v ≡ some q = rw (lookup-insert u k v entries, t) at h in
        inl ((eq_iff u k).0 t, sym (some_inj v q e))
    | inr f ↦ inr (rw (lookup-insert u k v entries, f) at h)
  ]

  with_package-some :
      (pkg q : Package) (entries : Dict Package)
      → lookup k (with_package pkg entries) ≡ some q
      → ((normalized_job_package_key sid pkg ≡ k) × (q ≡ record pkg { key = k }))
        ⊎ (lookup k entries ≡ some q)
  with_package-some pkg q entries h =
      let u = normalized_job_package_key sid pkg in
      elim (Bool-cases (nonempty u)) [
        | inl n ↦ elim (lookup-insert_cases u (record pkg { key = u }) q entries (rw (n) at h)) [
          | inl (e, v) ↦ inl (e, v ∙ ap (λ x. record pkg { key = x }) e)
          | inr r ↦ inr r
        ]
        | inr n ↦ inr (rw (n) at h)
      ]

  pub lookup-some :
      (packages : List Package) (entries : Dict Package) (q : Package)
      → lookup k (inventory_by_update_key sid packages entries) ≡ some q
      → IsListed sid packages k q ⊎ (lookup k entries ≡ some q)
  unfolding inventory_by_update_key
  lookup-some [] entries q h = inr h
  lookup-some (pkg ∷ packages) entries q h =
      elim (lookup-some packages (with_package pkg entries) q h) [
        | inl (p, m, e, v) ↦ inl (p, Memᴰ.tail m, e, v)
        | inr r ↦ elim (with_package-some pkg q entries r) [
          | inl (e, v) ↦ inl (pkg, Memᴰ.head refl, e, v)
          | inr s ↦ inr s
        ]
      ]

  insert-none :
      (u : String) (v : Package) (entries : Dict Package)
      → lookup k (insert u v entries) ≡ none
      → (u ≡ k → ⊥) × (lookup k entries ≡ none)
  insert-none u v entries h = ground (arith, lookup-insert u k v entries, eq_iff u k, h)

  with_package-none :
      (pkg : Package) (entries : Dict Package)
      → lookup k (with_package pkg entries) ≡ none
      → (nonempty (normalized_job_package_key sid pkg) ≡ true
          → normalized_job_package_key sid pkg ≡ k
          → ⊥)
        × (lookup k entries ≡ none)
  with_package-none pkg entries h =
      let u = normalized_job_package_key sid pkg in
      elim (Bool-cases (nonempty u)) [
        | inl n ↦
            let (d, r) = insert-none u (record pkg { key = u }) entries (rw (n) at h) in
            (λ t e. d e, r)
        | inr n ↦ (λ t e. ground arith, rw (n) at h)
      ]

  pub lookup-none :
      (packages : List Package) (entries : Dict Package)
      → lookup k (inventory_by_update_key sid packages entries) ≡ none
      → IsMissing sid packages k × (lookup k entries ≡ none)
  unfolding inventory_by_update_key
  lookup-none [] entries h = (λ p m. elim m [ ], h)
  lookup-none (pkg ∷ packages) entries h =
      let (missing, r) = lookup-none packages (with_package pkg entries) h in
      let (d, s) = with_package-none pkg entries r in
      (
        λ p m n e. elim m [
          | Memᴰ.head q ↦ d (rw (q) at n) (rw (q) at e)
          | Memᴰ.tail l ↦ missing p l n e
        ],
        s,
      )
