-- ===== src/Packages/Selection/Laws.antt =====
-- What an update job takes: actionable packages only, each key once, and all that was asked for.
use mathlib.Core.List.{Memᴰ}
use mathlib.Core.Path.{subst}
use text.Mathlib.TextEquality.{eq_iff}
use text.Mathlib.TextPositions.{eq_refl}
use patch_board.Common.{
  String, Bool, true, false, not, ◌||◌, Option, List, [], ◌∷◌, map, ◌≡◌, refl, ◌⊎◌, inl, inr, arith,
  Bool-cases,
}
use patch_board.Common.Text.{str_eq, nonempty}
use patch_board.Common.Dict.{contains, Distinct}
use patch_board.Packages.Model.{Package, normalized_job_package_key}
use patch_board.Packages.Policy.{UpdateOptions, package_update_policy}
use patch_board.Packages.Selection.{taken, package_allowed_in_bulk_update, select_all}

abbrev pub keys_of : List Package → List String
keys_of packages = map (λ (p : Package). p.key) packages

-- The package is one that may be updated now under the job's options, under the key that it came with,
-- and with those options.
abbrev pub IsTaken : (String → Package → Type 0) → Option String → UpdateOptions → Package → Type 0
IsTaken Comes sid options p =
    (k : String) × ((q : Package) × Comes k q
      × (p ≡ record q {
        key = k;
        allow_unknown_version_update = options.allow_unknown_version;
        allow_pinned_update = options.allow_pinned;
      })
      × ((package_update_policy sid q options).can_update_now ≡ true))

pub IsTaken-map :
    (F G : String → Package → Type 0) (sid : Option String) (options : UpdateOptions) (p : Package)
    → ((k : String) (q : Package) → F k q → G k q)
    → IsTaken F sid options p
    → IsTaken G sid options p
IsTaken-map F G sid options p f (k, (q, c, e, h)) = (k, (q, f k q c, e, h))

-- A package of the inventory under its own key.
abbrev pub IsOwn : Option String → List Package → String → Package → Type 0
IsOwn sid packages k q = Memᴰ q packages × (k ≡ normalized_job_package_key sid q)

pub differs :
    (u k : String) (ks : List String)
    → contains u ks ≡ false
    → contains k ks ≡ true
    → str_eq u k ≡ false
differs u k ks h t = elim (Bool-cases (str_eq u k)) [
  | inl e ↦
      let q : u ≡ k = (eq_iff u k).0 e in let r : contains u ks ≡ true = rw (q) t in ground arith
  | inr f ↦ f
]

pub contains-first : (u : String) (ks : List String) → contains u (u ∷ ks) ≡ true
unfolding contains
contains-first u ks = rw (eq_refl u) refl

pub contains-later :
    (u k : String) (ks : List String) → contains k ks ≡ true → contains k (u ∷ ks) ≡ true
unfolding contains
contains-later u k ks h = ground arith

pub contains-other :
    (u k : String) (ks : List String)
    → str_eq u k ≡ false
    → contains k ks ≡ false
    → contains k (u ∷ ks) ≡ false
unfolding contains
contains-other u k ks h g = ground arith

not_skipped : (a b c : Bool) → (not a || b || not c) ≡ false → (a ≡ true) × (b ≡ false) × (c ≡ true)
not_skipped a b c h = ground arith

pub either_true : (a b : Bool) → (a ≡ true) ⊎ (b ≡ true) → (a || b) ≡ true
either_true a b h = ground arith

was_seen : (a b c : Bool) → (not a || b || not c) ≡ true → a ≡ true → c ≡ true → b ≡ true
was_seen a b c h i j = ground arith

pub shifted :
    (u k : String) (seen ks : List String)
    → (contains k (u ∷ seen) || contains k ks) ≡ true
    → (contains k seen || contains k (u ∷ ks)) ≡ true
unfolding contains
shifted u k seen ks h = ground arith

module _ (sid : Option String) (options : UpdateOptions) where
  abbrev skips : Package → List String → Bool
  skips pkg selected_keys =
      not (nonempty (normalized_job_package_key sid pkg))
      || contains (normalized_job_package_key sid pkg) selected_keys
      || not (package_allowed_in_bulk_update sid pkg options)

  select_all-skip :
      (pkg : Package) (packages : List Package) (seen : List String)
      → skips pkg seen ≡ true
      → select_all sid options (pkg ∷ packages) seen ≡ select_all sid options packages seen
  unfolding select_all
  select_all-skip pkg packages seen h = rw (h) refl

  select_all-take :
      (pkg : Package) (packages : List Package) (seen : List String)
      → skips pkg seen ≡ false
      → select_all sid options (pkg ∷ packages) seen
        ≡ taken options (normalized_job_package_key sid pkg) pkg
          ∷ select_all sid options packages (normalized_job_package_key sid pkg ∷ seen)
  unfolding select_all
  select_all-take pkg packages seen h = rw (h) refl

  none_selected :
      (seen : List String) (k : String)
      → contains k (keys_of (select_all sid options [] seen)) ≡ false
  unfolding select_all contains
  none_selected seen k = refl

  none_Distinct : (seen : List String) → Distinct (keys_of (select_all sid options [] seen))
  unfolding select_all
  none_Distinct seen = tt

  none-IsTaken :
      (seen : List String) (p : Package)
      → Memᴰ p (select_all sid options [] seen)
      → IsTaken (IsOwn sid []) sid options p
  unfolding select_all
  none-IsTaken seen p m = elim m [ ]

  all_allowed :
      (pkg : Package)
      → package_allowed_in_bulk_update sid pkg options ≡ true
      → (package_update_policy sid pkg options).can_update_now ≡ true
  unfolding package_allowed_in_bulk_update
  all_allowed pkg h = h

  later-IsOwn :
      (pkg : Package) (packages : List Package) (p : Package)
      → IsTaken (IsOwn sid packages) sid options p
      → IsTaken (IsOwn sid (pkg ∷ packages)) sid options p
  later-IsOwn pkg packages p t =
      IsTaken-map (IsOwn sid packages) (IsOwn sid (pkg ∷ packages)) sid options p
        (λ k q (m, e). (Memᴰ.tail m, e)) t

  first_or_later :
      (p pkg : Package) (packages : List Package) {rest : List Package}
      → (package_update_policy sid pkg options).can_update_now ≡ true
      → (Memᴰ p rest → IsTaken (IsOwn sid packages) sid options p)
      → Memᴰ p (taken options (normalized_job_package_key sid pkg) pkg ∷ rest)
      → IsTaken (IsOwn sid (pkg ∷ packages)) sid options p
  first_or_later p pkg packages c later (Memᴰ.head e) =
      (normalized_job_package_key sid pkg, (pkg, (Memᴰ.head refl, refl), e, c))
  first_or_later p pkg packages c later (Memᴰ.tail m) = later-IsOwn pkg packages p (later m)

  unskipped :
      (pkg : Package) (seen : List String)
      → skips pkg seen ≡ false
      → (nonempty (normalized_job_package_key sid pkg) ≡ true)
        × (contains (normalized_job_package_key sid pkg) seen ≡ false)
        × (package_allowed_in_bulk_update sid pkg options ≡ true)
  unskipped pkg seen t =
      not_skipped (nonempty (normalized_job_package_key sid pkg))
        (contains (normalized_job_package_key sid pkg) seen)
        (package_allowed_in_bulk_update sid pkg options) t

  -- The tests, when the first package itself is the one that is looked for.
  all_complete_first :
      (pkg : Package) (packages : List Package) (seen : List String)
      → nonempty (normalized_job_package_key sid pkg) ≡ true
      → package_allowed_in_bulk_update sid pkg options ≡ true
      → (contains (normalized_job_package_key sid pkg) seen
          || contains
              (normalized_job_package_key sid pkg)
              (keys_of (select_all sid options (pkg ∷ packages) seen)))
        ≡ true
  all_complete_first pkg packages seen n c =
      let u = normalized_job_package_key sid pkg in
      elim (Bool-cases (skips pkg seen)) [
        | inl s ↦ either_true (contains u seen) _ (
            inl (
              was_seen (nonempty u) (contains u seen)
                (package_allowed_in_bulk_update sid pkg options) s n c))
        | inr t ↦ rw (select_all-take pkg packages seen t) (
            either_true (contains u seen) _
              (inr (contains-first u (keys_of (select_all sid options packages (u ∷ seen))))))
      ]

  all-fresh :
      (packages : List Package) (seen : List String) (k : String)
      → contains k seen ≡ true
      → contains k (keys_of (select_all sid options packages seen)) ≡ false
  all-fresh [] seen k h = none_selected seen k
  all-fresh (pkg ∷ packages) seen k h =
      let u = normalized_job_package_key sid pkg in
      elim (Bool-cases (skips pkg seen)) [
        | inl s ↦ rw (select_all-skip pkg packages seen s) (all-fresh packages seen k h)
        | inr t ↦
            let (_, n, _) = unskipped pkg seen t in
            rw (select_all-take pkg packages seen t) (
              contains-other u k (keys_of (select_all sid options packages (u ∷ seen)))
                (differs u k seen n h)
                (all-fresh packages (u ∷ seen) k (contains-later u k seen h)))
      ]

  pub all-Distinct :
      (packages : List Package) (seen : List String)
      → Distinct (keys_of (select_all sid options packages seen))
  all-Distinct [] seen = none_Distinct seen
  all-Distinct (pkg ∷ packages) seen =
      let u = normalized_job_package_key sid pkg in
      elim (Bool-cases (skips pkg seen)) [
        | inl s ↦ rw (select_all-skip pkg packages seen s) (all-Distinct packages seen)
        | inr t ↦ rw (select_all-take pkg packages seen t) (
          all-fresh packages (u ∷ seen) u (contains-first u seen),
          all-Distinct packages (u ∷ seen),
        )
      ]

  pub all-IsTaken :
      (packages : List Package) (seen : List String) (p : Package)
      → Memᴰ p (select_all sid options packages seen)
      → IsTaken (IsOwn sid packages) sid options p
  all-IsTaken [] seen p m = none-IsTaken seen p m
  all-IsTaken (pkg ∷ packages) seen p m =
      let u = normalized_job_package_key sid pkg in
      elim (Bool-cases (skips pkg seen)) [
        | inl s ↦
            later-IsOwn pkg packages p
              (all-IsTaken packages seen p (subst (Memᴰ p) (select_all-skip pkg packages seen s) m))
        | inr t ↦
            let (_, _, c) = unskipped pkg seen t in
            first_or_later p pkg packages (all_allowed pkg c) (all-IsTaken packages (u ∷ seen) p)
              (subst (Memᴰ p) (select_all-take pkg packages seen t) m)
      ]

  -- Every package that may be updated is there under its key, or its key was taken before.
  pub all_complete :
      (packages : List Package) (seen : List String) (q : Package)
      → Memᴰ q packages
      → nonempty (normalized_job_package_key sid q) ≡ true
      → package_allowed_in_bulk_update sid q options ≡ true
      → (contains (normalized_job_package_key sid q) seen
          || contains
              (normalized_job_package_key sid q)
              (keys_of (select_all sid options packages seen)))
        ≡ true
  all_complete [] seen q m n c = elim m [ ]
  all_complete (pkg ∷ packages) seen q (Memᴰ.head e) n c = rw (e) (
      all_complete_first pkg packages seen
        (subst (λ x. nonempty (normalized_job_package_key sid x) ≡ true) e n)
        (subst (λ x. package_allowed_in_bulk_update sid x options ≡ true) e c))
  all_complete (pkg ∷ packages) seen q (Memᴰ.tail m) n c =
      let u = normalized_job_package_key sid pkg in
      elim (Bool-cases (skips pkg seen)) [
        | inl s ↦ rw (select_all-skip pkg packages seen s) (all_complete packages seen q m n c)
        | inr t ↦ rw (select_all-take pkg packages seen t) (
            shifted u (normalized_job_package_key sid q) seen
              (keys_of (select_all sid options packages (u ∷ seen)))
              (all_complete packages (u ∷ seen) q m n c))
      ]
