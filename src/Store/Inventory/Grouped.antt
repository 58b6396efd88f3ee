-- ===== src/Store/Inventory/Grouped.antt =====
-- groupStorePackagedAppFamilies loses no installed package and mixes none.
use mathlib.Core.List.{Memᴰ, ◌++◌ as append}
use patch_board.Common.{String, List, [], ◌∷◌, if-cases, ◌≡◌, refl, sym, ◌∙◌, ap}
use patch_board.Common.Sort.{
  sort_with, mem-sort_with, mem-of-sort_with, mem-sort_by, mem-of-sort_by,
}
use patch_board.Store.Model.{StoreInstalledIdentity, equal}
use patch_board.Store.Model.Laws.{eq_of_equal}
use patch_board.Store.Inventory.{
  StorePackagedAppRecord, StorePackagedAppFamily, identity_of, Group, add_record, group_records,
  instance_before, family_led_by, family_of_sorted, families_of, group_store_packaged_app_families,
}

-- A group of the identity has the record.
abbrev Holds : StorePackagedAppRecord → StoreInstalledIdentity → List Group → Type 0
Holds q identity groups =
    (rs : List StorePackagedAppRecord) × Memᴰ (identity, rs) groups × Memᴰ q rs

later :
    (q : StorePackagedAppRecord) (identity : StoreInstalledIdentity) (g : Group)
    (groups : List Group)
    → Holds q identity groups
    → Holds q identity (g ∷ groups)
later q identity g groups (rs, m, k) = (rs, Memᴰ.tail m, k)

add_record-has :
    (r : StorePackagedAppRecord) (groups : List Group)
    → Holds r (identity_of r) (add_record r groups)
unfolding add_record
add_record-has r [] = (r ∷ [], Memᴰ.head refl, Memᴰ.head refl)
add_record-has r ((identity, rs) ∷ groups) =
    if-cases (Holds r (identity_of r)) (equal identity (identity_of r))
      ((identity, r ∷ rs) ∷ groups) ((identity, rs) ∷ add_record r groups)
      (λ e. (
        r ∷ rs,
        Memᴰ.head (ap (λ i. (i, r ∷ rs)) (sym (eq_of_equal identity (identity_of r) e))),
        Memᴰ.head refl,
      ))
      (λ e. later r (identity_of r) (identity, rs) (add_record r groups) (add_record-has r groups))

add_record-keeps :
    (r q : StorePackagedAppRecord) (wanted : StoreInstalledIdentity) (groups : List Group)
    → Holds q wanted groups
    → Holds q wanted (add_record r groups)
unfolding add_record
add_record-keeps r q wanted [] (rs, m, k) = elim m [ ]
add_record-keeps r q wanted ((identity, rs) ∷ groups) (ts, Memᴰ.head e, k) =
    if-cases (Holds q wanted) (equal identity (identity_of r)) ((identity, r ∷ rs) ∷ groups)
      ((identity, rs) ∷ add_record r groups)
      (λ t. (r ∷ ts, Memᴰ.head (ap (λ (g : Group). (g.0, r ∷ g.1)) e), Memᴰ.tail k))
      (λ f. (ts, Memᴰ.head e, k))
add_record-keeps r q wanted ((identity, rs) ∷ groups) (ts, Memᴰ.tail m, k) =
    if-cases (Holds q wanted) (equal identity (identity_of r)) ((identity, r ∷ rs) ∷ groups)
      ((identity, rs) ∷ add_record r groups) (λ t. (ts, Memᴰ.tail m, k))
      (λ f.
        later q wanted (identity, rs) (add_record r groups)
          (add_record-keeps r q wanted groups (ts, m, k)))

group_records-has :
    (records : List StorePackagedAppRecord) (q : StorePackagedAppRecord)
    → Memᴰ q records
    → Holds q (identity_of q) (group_records records)
unfolding group_records
group_records-has [] q m = elim m [ ]
group_records-has (r ∷ rs) q (Memᴰ.head e) = rw (e) (add_record-has r (group_records rs))
group_records-has (r ∷ rs) q (Memᴰ.tail m) =
    add_record-keeps r q (identity_of q) (group_records rs) (group_records-has rs q m)

-- The records of a group come from the list, and have its identity.
abbrev AllOf :
    List StorePackagedAppRecord → StoreInstalledIdentity → List StorePackagedAppRecord → Type 0
AllOf records identity rs =
    (q : StorePackagedAppRecord) → Memᴰ q rs → Memᴰ q records × (identity_of q ≡ identity)

abbrev IsPure : List StorePackagedAppRecord → List Group → Type 0
IsPure records [] = Unit
IsPure records ((identity, rs) ∷ groups) = AllOf records identity rs × IsPure records groups

one_more :
    (r : StorePackagedAppRecord) (records : List StorePackagedAppRecord)
    (identity : StoreInstalledIdentity) (rs : List StorePackagedAppRecord)
    → AllOf records identity rs
    → AllOf (r ∷ records) identity rs
one_more r records identity rs h q m = let (k, e) = h q m in (Memᴰ.tail k, e)

widened :
    (r : StorePackagedAppRecord) (records : List StorePackagedAppRecord) (groups : List Group)
    → IsPure records groups
    → IsPure (r ∷ records) groups
widened r records [] h = tt
widened r records ((identity, rs) ∷ groups) (h, hs) =
    (one_more r records identity rs h, widened r records groups hs)

put_first :
    (r : StorePackagedAppRecord) (records : List StorePackagedAppRecord)
    (identity : StoreInstalledIdentity) (rs : List StorePackagedAppRecord)
    → identity_of r ≡ identity
    → AllOf records identity rs
    → AllOf (r ∷ records) identity (r ∷ rs)
put_first r records identity rs e h q (Memᴰ.head k) = (Memᴰ.head k, ap identity_of k ∙ e)
put_first r records identity rs e h q (Memᴰ.tail m) = one_more r records identity rs h q m

add_record-IsPure :
    (r : StorePackagedAppRecord) (records : List StorePackagedAppRecord) (groups : List Group)
    → IsPure records groups
    → IsPure (r ∷ records) (add_record r groups)
unfolding add_record
add_record-IsPure r records [] h =
    (put_first r records (identity_of r) [] refl (λ q m. elim m [ ]), tt)
add_record-IsPure r records ((identity, rs) ∷ groups) (h, hs) =
    if-cases (IsPure (r ∷ records)) (equal identity (identity_of r)) ((identity, r ∷ rs) ∷ groups)
      ((identity, rs) ∷ add_record r groups)
      (λ e. (
        put_first r records identity rs (sym (eq_of_equal identity (identity_of r) e)) h,
        widened r records groups hs,
      ))
      (λ e. (one_more r records identity rs h, add_record-IsPure r records groups hs))

group_records-IsPure :
    (records : List StorePackagedAppRecord) → IsPure records (group_records records)
unfolding group_records
group_records-IsPure [] = tt
group_records-IsPure (r ∷ rs) = add_record-IsPure r rs (group_records rs) (group_records-IsPure rs)

-- The family has the record, under the record's own identity.
abbrev pub IsHomeOf : StorePackagedAppRecord → StorePackagedAppFamily → Type 0
IsHomeOf q family = (family.identity ≡ identity_of q) × Memᴰ q family.instances

-- The family's records come from the list and share its identity; the primary one is among them.
pub record IsFamily (records : List StorePackagedAppRecord) (family : StorePackagedAppFamily)
    : Type 0 where
  pub members : AllOf records family.identity family.instances
  pub leader : Memᴰ family.primary family.instances

-- The families share out the packages of the list.
pub record IsGrouping (records : List StorePackagedAppRecord)
    (families_of_records : List StorePackagedAppFamily) : Type 0 where
  pub complete :
      (q : StorePackagedAppRecord)
      → Memᴰ q records
      → (f : StorePackagedAppFamily) × Memᴰ f families_of_records × IsHomeOf q f
  pub families : (f : StorePackagedAppFamily) → Memᴰ f families_of_records → IsFamily records f

module _ (friendly_name : String → String → String) where
  sorted-home :
      (q : StorePackagedAppRecord) (identity : StoreInstalledIdentity)
      (rs : List StorePackagedAppRecord) (others : List StorePackagedAppFamily)
      → identity ≡ identity_of q
      → Memᴰ q rs
      → (f : StorePackagedAppFamily) × Memᴰ f
          (append (family_of_sorted friendly_name identity rs) others)
        × IsHomeOf q f
  unfolding family_of_sorted
  sorted-home q identity [] others e m = elim m [ ]
  sorted-home q identity (r ∷ rs) others e m =
      (family_led_by friendly_name identity r rs, Memᴰ.head refl, (e, m))

  -- Families that come after others are still there.
  after :
      (fs others : List StorePackagedAppFamily) {f : StorePackagedAppFamily}
      → Memᴰ f others
      → Memᴰ f (append fs others)
  after [] others m = m
  after (g ∷ fs) others m = Memᴰ.tail (after fs others m)

  families_of-home :
      (q : StorePackagedAppRecord) (groups : List Group)
      → Holds q (identity_of q) groups
      → (f : StorePackagedAppFamily) × Memᴰ f (families_of friendly_name groups) × IsHomeOf q f
  unfolding families_of
  families_of-home q [] (rs, m, k) = elim m [ ]
  families_of-home q ((identity, rs) ∷ groups) (ts, Memᴰ.head e, k) =
      sorted-home q identity (sort_with instance_before rs) (families_of friendly_name groups)
        (ap (λ (g : Group). g.0) (sym e))
        (mem-sort_with instance_before rs (rw (← ap (λ (g : Group). g.1) e) k))
  families_of-home q ((identity, rs) ∷ groups) (ts, Memᴰ.tail m, k) =
      let (f, n, home) = families_of-home q groups (ts, m, k) in
      (
        f,
        after (family_of_sorted friendly_name identity (sort_with instance_before rs))
            (families_of friendly_name groups) n,
        home,
      )

  sorted-IsFamily :
      (records : List StorePackagedAppRecord) (identity : StoreInstalledIdentity)
      (rs : List StorePackagedAppRecord) (others : List StorePackagedAppFamily)
      → AllOf records identity rs
      → ((f : StorePackagedAppFamily) → Memᴰ f others → IsFamily records f)
      → (f : StorePackagedAppFamily)
      → Memᴰ f (append (family_of_sorted friendly_name identity rs) others)
      → IsFamily records f
  unfolding family_of_sorted
  sorted-IsFamily records identity [] others h rest f m = rest f m
  sorted-IsFamily records identity (r ∷ rs) others h rest f (Memᴰ.head e) =
      rw (e) (record { members = h; leader = Memᴰ.head refl })
  sorted-IsFamily records identity (r ∷ rs) others h rest f (Memᴰ.tail m) = rest f m

  families_of-IsFamily :
      (records : List StorePackagedAppRecord) (groups : List Group)
      → IsPure records groups
      → (f : StorePackagedAppFamily) → Memᴰ f (families_of friendly_name groups)
      → IsFamily records f
  unfolding families_of
  families_of-IsFamily records [] h f m = elim m [ ]
  families_of-IsFamily records ((identity, rs) ∷ groups) (h, hs) f m =
      sorted-IsFamily records identity (sort_with instance_before rs)
        (families_of friendly_name groups) (λ q k. h q (mem-of-sort_with instance_before rs k))
        (families_of-IsFamily records groups hs) f m

  -- Every installed package is in a family of its own identity; the members of a family come from the
  -- list and have the family's identity, and its primary package is one of them.
  pub group_store_packaged_app_families-IsGrouping :
      (records : List StorePackagedAppRecord)
      → IsGrouping records (group_store_packaged_app_families friendly_name records)
  unfolding group_store_packaged_app_families
  group_store_packaged_app_families-IsGrouping records =
      let key : StorePackagedAppFamily → String = λ f. f.identity.package_family_name in
      let groups = group_records records in
      record {
        complete = λ q m.
            let (f, n, home) = families_of-home q groups (group_records-has records q m) in
            (f, mem-sort_by key (families_of friendly_name groups) n, home);
        families = λ f m.
            families_of-IsFamily records groups (group_records-IsPure records) f
              (mem-of-sort_by key (families_of friendly_name groups) m);
      }
