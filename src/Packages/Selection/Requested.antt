-- ===== src/Packages/Selection/Requested.antt =====
-- What the loop over the requested keys takes.
use mathlib.Core.List.{Memᴰ}
use mathlib.Core.Path.{subst}
use patch_board.Common.{
  String, Bool, true, false, not, ◌||◌, Option, none, some, List, [], ◌∷◌, ◌≡◌, refl, sym, ◌∙◌, ◌⊎◌,
  inl, inr, arith, Bool-cases, if◌then◌else◌,
}
use patch_board.Common.Dict.{Dict, contains, lookup, Distinct}
use patch_board.Packages.Model.{Package, no_package, split_package_key}
use patch_board.Packages.Policy.{UpdateOptions, package_update_policy}
use patch_board.Packages.Selection.{
  JobError, taken, package_of, checked_package, requested_package, update_key_of, put_first,
  select_requested,
}
use patch_board.Packages.Selection.Laws.{
  keys_of, IsTaken, IsTaken-map, differs, contains-first, contains-later, contains-other, shifted,
  either_true,
}

put_first-inr :
    (a : JobError ⊎ Package) (b : JobError ⊎ List Package) (ps : List Package)
    → put_first a b ≡ inr ps
    → (p : Package) × ((qs : List Package) × (a ≡ inr p) × (b ≡ inr qs) × (ps ≡ p ∷ qs))
put_first-inr (inl e) b ps h = ground arith
put_first-inr (inr p) (inl e) ps h = ground arith
put_first-inr (inr p) (inr qs) ps h = (p, (qs, refl, refl, cc))

checked_test {ℓ} :
    {A : Type ℓ} (b : Bool) (e : JobError) (a p : A)
    → (if not b then inl e else inr a) ≡ inr p
    → (b ≡ true) × (p ≡ a)
checked_test true e a p h = (refl, cc)
checked_test false e a p h = ground arith

module _ (sid : Option String) (options : UpdateOptions) (entries : Dict Package) where
  -- What the entries have under a key, or a package that is made from the key.
  abbrev pub Stands : String → Package → Type 0
  Stands u q =
      (lookup u entries ≡ some q)
      ⊎ ((lookup u entries ≡ none)
          × ((manager : String) × ((id : String) × (split_package_key u ≡ some (manager, id))
                × (q ≡ record no_package {
                  key = u;
                  manager = manager;
                  id = id;
                  name = id;
                  update_supported = true;
                }))))

  abbrev pub IsAsked : List String → String → Package → Type 0
  IsAsked requested u q = (r : String) × Memᴰ r requested × (u ≡ update_key_of sid r) × Stands u q

  package_of-Stands :
      (u manager id : String)
      → split_package_key u ≡ some (manager, id)
      → Stands u (package_of entries u manager id)
  package_of-Stands u manager id split = found (lookup u entries) refl
    where
      found :
          (o : Option Package)
          → lookup u entries ≡ o
          → Stands u (elim o [
            | some pkg ↦ pkg
            | none ↦ record no_package {
              key = u;
              manager = manager;
              id = id;
              name = id;
              update_supported = true;
            }
          ])
      found (some pkg) e = inl e
      found none e = inr (e, (manager, (id, split, refl)))

  checked-taken :
      (u : String) (q p : Package)
      → checked_package sid options u q ≡ inr p
      → (p ≡ taken options u q) × ((package_update_policy sid q options).can_update_now ≡ true)
  checked-taken u q p h =
      let (c, e) =
        checked_test (package_update_policy sid q options).can_update_now _ (taken options u q) p
          h in
      (e, c)

  split_taken :
      (u : String) (p : Package) (o : Option (String × String))
      → split_package_key u ≡ o
      → (elim o [
        | none ↦ inl JobError.bad_package_key
        | some (manager, id) ↦ checked_package sid options u (package_of entries u manager id)
      ])
        ≡ inr p
      → (q : Package) × Stands u q
        × (p ≡ taken options u q)
        × ((package_update_policy sid q options).can_update_now ≡ true)
  split_taken u p none split h = ground arith
  split_taken u p (some (manager, id)) split h =
      let (e, c) = checked-taken u (package_of entries u manager id) p h in
      (package_of entries u manager id, package_of-Stands u manager id split, e, c)

  requested-taken :
      (u : String) (p : Package)
      → requested_package sid options entries u ≡ inr p
      → (q : Package) × Stands u q
        × (p ≡ taken options u q)
        × ((package_update_policy sid q options).can_update_now ≡ true)
  unfolding requested_package
  requested-taken u p h = split_taken u p (split_package_key u) refl h

  requested-skip :
      (r : String) (requested seen : List String)
      → contains (update_key_of sid r) seen ≡ true
      → select_requested sid options entries (r ∷ requested) seen
        ≡ select_requested sid options entries requested seen
  unfolding select_requested
  requested-skip r requested seen h = rw (h) refl

  requested-take :
      (r : String) (requested seen : List String)
      → contains (update_key_of sid r) seen ≡ false
      → select_requested sid options entries (r ∷ requested) seen
        ≡ put_first
            (requested_package sid options entries (update_key_of sid r))
            (select_requested sid options entries requested (update_key_of sid r ∷ seen))
  unfolding select_requested
  requested-take r requested seen h = rw (h) refl

  requested-none :
      (seen : List String) (ps : List Package)
      → select_requested sid options entries [] seen ≡ inr ps
      → [] ≡ ps
  unfolding select_requested
  requested-none seen ps h = cc

  -- What holds of the packages that the loop takes.
  pub record Gathers (requested seen : List String) (ps : List Package) : Type 0 where
    fresh : (k : String) → contains k seen ≡ true → contains k (keys_of ps) ≡ false
    pub distinct : Distinct (keys_of ps)
    pub taken_well : (p : Package) → Memᴰ p ps → IsTaken (IsAsked requested) sid options p
    pub covered :
        (r : String)
        → Memᴰ r requested
        → (contains (update_key_of sid r) seen || contains (update_key_of sid r) (keys_of ps))
          ≡ true

  abbrev Covers : List String → List String → List String → Type 0
  Covers requested seen ks =
      (r : String)
      → Memᴰ r requested
      → (contains (update_key_of sid r) seen || contains (update_key_of sid r) ks) ≡ true

  skip-Covers :
      (r : String) (requested seen : List String) (ps : List Package)
      → contains (update_key_of sid r) seen ≡ true
      → Covers requested seen (keys_of ps)
      → Covers (r ∷ requested) seen (keys_of ps)
  skip-Covers r requested seen ps h t k (Memᴰ.head e) =
      rw (e) (either_true (contains (update_key_of sid r) seen) _ (inl h))
  skip-Covers r requested seen ps h t k (Memᴰ.tail m) = t k m

  take-Covers :
      (r : String) (requested seen : List String) (ps : List Package)
      → Covers requested (update_key_of sid r ∷ seen) (keys_of ps)
      → Covers (r ∷ requested) seen (update_key_of sid r ∷ keys_of ps)
  take-Covers r requested seen ps t k (Memᴰ.head e) = rw (e) (
      either_true (contains (update_key_of sid r) seen) _
        (inr (contains-first (update_key_of sid r) (keys_of ps))))
  take-Covers r requested seen ps t k (Memᴰ.tail m) =
      shifted (update_key_of sid r) (update_key_of sid k) seen (keys_of ps) (t k m)

  later-IsAsked :
      (r : String) (requested : List String) (p : Package)
      → IsTaken (IsAsked requested) sid options p
      → IsTaken (IsAsked (r ∷ requested)) sid options p
  later-IsAsked r requested p t =
      IsTaken-map (IsAsked requested) (IsAsked (r ∷ requested)) sid options p
        (λ k q (s, m, e, c). (s, Memᴰ.tail m, e, c)) t

  take_well :
      (r : String) (requested : List String) (q : Package) (ps : List Package)
      → Stands (update_key_of sid r) q
      → (package_update_policy sid q options).can_update_now ≡ true
      → ((p : Package) → Memᴰ p ps → IsTaken (IsAsked requested) sid options p)
      → (p : Package) → Memᴰ p (taken options (update_key_of sid r) q ∷ ps)
      → IsTaken (IsAsked (r ∷ requested)) sid options p
  take_well r requested q ps s c t p (Memᴰ.head e) =
      (update_key_of sid r, (q, (r, Memᴰ.head refl, refl, s), e, c))
  take_well r requested q ps s c t p (Memᴰ.tail m) = later-IsAsked r requested p (t p m)

  none-Gathers : (seen : List String) → Gathers [] seen []
  unfolding contains
  none-Gathers seen = record {
    fresh = λ k h. refl;
    distinct = tt;
    taken_well = λ p m. elim m [ ];
    covered = λ r m. elim m [ ];
  }

  skip-Gathers :
      (r : String) (requested seen : List String) (ps : List Package)
      → contains (update_key_of sid r) seen ≡ true
      → Gathers requested seen ps
      → Gathers (r ∷ requested) seen ps
  skip-Gathers r requested seen ps h t = record {
    fresh = t.fresh;
    distinct = t.distinct;
    taken_well = λ p m. later-IsAsked r requested p (t.taken_well p m);
    covered = λ k m. skip-Covers r requested seen ps h t.covered k m;
  }

  take-Gathers :
      (r : String) (requested seen : List String) (q : Package) (ps : List Package)
      → contains (update_key_of sid r) seen ≡ false
      → Stands (update_key_of sid r) q
      → (package_update_policy sid q options).can_update_now ≡ true
      → Gathers requested (update_key_of sid r ∷ seen) ps
      → Gathers (r ∷ requested) seen (taken options (update_key_of sid r) q ∷ ps)
  take-Gathers r requested seen q ps n s c t =
      let u = update_key_of sid r in
      record {
        fresh = λ k h.
            contains-other u k (keys_of ps) (differs u k seen n h)
              (t.fresh k (contains-later u k seen h));
        distinct = (t.fresh u (contains-first u seen), t.distinct);
        taken_well = λ p m. take_well r requested q ps s c t.taken_well p m;
        covered = λ k m. take-Covers r requested seen ps t.covered k m;
      }

  pub requested-Gathers :
      (requested seen : List String) (ps : List Package)
      → select_requested sid options entries requested seen ≡ inr ps
      → Gathers requested seen ps
  requested-Gathers [] seen ps h =
      subst (Gathers [] seen) (requested-none seen ps h) (none-Gathers seen)
  requested-Gathers (r ∷ requested) seen ps h =
      let u = update_key_of sid r in
      elim (Bool-cases (contains u seen)) [
        | inl s ↦
            skip-Gathers r requested seen ps s
              (requested-Gathers requested seen ps (sym (requested-skip r requested seen s) ∙ h))
        | inr n ↦
            let (p, (qs, a, b, e)) =
              put_first-inr (requested_package sid options entries u)
                (select_requested sid options entries requested (u ∷ seen)) ps
                (sym (requested-take r requested seen n) ∙ h) in
            let (q, s, t, c) = requested-taken u p a in
            rw (e, t)
              (take-Gathers r requested seen q qs n s c
                (requested-Gathers requested (u ∷ seen) qs b))
      ]
