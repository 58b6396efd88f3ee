-- ===== src/Packages/Selection/Job.antt =====
-- The packages that an update job takes: updateJobPackagesContext as a whole.
use mathlib.Core.List.{Memᴰ}
use patch_board.Common.{
  String, true, false, Option, some, List, [], ◌∷◌, is_empty, ◌≡◌, sym, ◌⊎◌, inl, inr, arith,
}
use patch_board.Common.Text.{nonempty}
use patch_board.Common.Dict.{contains, lookup, Distinct}
use patch_board.Packages.Model.{Package, no_package, split_package_key, normalized_job_package_key}
use patch_board.Packages.Policy.{UpdateOptions}
use patch_board.Packages.Selection.{
  inventory, JobError, chosen, package_allowed_in_bulk_update, select_all, inventory_by_update_key,
  update_key_of, select_requested, answer, update_job_packages,
}
use patch_board.Packages.Selection.Laws.{
  keys_of, IsTaken, IsTaken-map, IsOwn, all-Distinct, all-IsTaken, all_complete,
}
use patch_board.Packages.Selection.Entries.{IsListed, IsMissing, lookup-some, lookup-none}
use patch_board.Packages.Selection.Requested.{IsAsked, requested-Gathers}

-- The package is the inventory's for the key of a request; when the inventory has none with this key,
-- it is made from the key.
abbrev pub IsRequested : Option String → List Package → List String → String → Package → Type 0
IsRequested sid packages requested k q =
    (r : String) × Memᴰ r requested
    × (k ≡ update_key_of sid r)
    × (IsListed sid packages k q
        ⊎ (IsMissing sid packages k
            × ((manager : String) × ((id : String) × (split_package_key k ≡ some (manager, id))
                  × (q ≡ record no_package {
                    key = k;
                    manager = manager;
                    id = id;
                    name = id;
                    update_supported = true;
                  })))))

nothing_stands : (k : String) (q : Package) → lookup k [] ≡ some q → ⊥
unfolding lookup
nothing_stands k q h = ground arith

asked-IsRequested :
    (sid : Option String) (options : UpdateOptions) (packages : List Package)
    (requested : List String) (k : String) (q : Package)
    → IsAsked sid options (inventory_by_update_key sid packages []) requested k q
    → IsRequested sid packages requested k q
asked-IsRequested sid options packages requested k q (r, m, e, inl found) =
    elim (lookup-some sid k packages [] q found) [
      | inl l ↦ (r, m, e, inl l)
      | inr n ↦ absurd (nothing_stands k q n)
    ]
asked-IsRequested sid options packages requested k q (r, m, e, inr (none_there, made)) =
    (r, m, e, inr ((lookup-none sid k packages [] none_there).0, made))

-- What a job that is not rejected takes.
pub record IsSelection (sid : Option String) (packages : List Package) (requested : List String)
    (options : UpdateOptions) (ps : List Package) : Type 0 where
  pub distinct : Distinct (keys_of ps)
  pub from_all :
      is_empty requested ≡ true
      → (p : Package) → Memᴰ p ps
      → IsTaken (IsOwn sid packages) sid options p
  pub from_requested :
      is_empty requested ≡ false
      → (p : Package) → Memᴰ p ps
      → IsTaken (IsRequested sid packages requested) sid options p
  pub answers_all :
      (r : String) → Memᴰ r requested → contains (update_key_of sid r) (keys_of ps) ≡ true
  pub takes_all :
      is_empty requested ≡ true
      → (q : Package) → Memᴰ q packages
      → nonempty (normalized_job_package_key sid q) ≡ true
      → package_allowed_in_bulk_update sid q options ≡ true
      → contains (normalized_job_package_key sid q) (keys_of ps) ≡ true

answer-chosen :
    (mode m : String) (o : JobError ⊎ List Package) (ps : List Package)
    → answer mode o ≡ chosen ps m
    → o ≡ inr ps
answer-chosen mode m (inl e) ps h = ground arith
answer-chosen mode m (inr []) ps h = ground arith
answer-chosen mode m (inr (q ∷ qs)) ps h = cc

-- The packages that an update job takes have distinct keys, carry the job's options, and come from
-- packages that may be updated now under these. When keys were requested, every one of them is answered,
-- and each package taken stands for one of them: it is a package of the inventory with this key, or is
-- made from the key when the inventory has none. When none was requested, each package taken is one of
-- the inventory under its own key, and every package of the inventory that may be updated is there.
pub update_job_packages-IsSelection :
    (sid : Option String) (packages : List Package) (requested : List String)
    (options : UpdateOptions) (ps : List Package) (mode : String)
    → update_job_packages sid (inventory packages) requested options ≡ chosen ps mode
    → IsSelection sid packages requested options ps
unfolding update_job_packages
update_job_packages-IsSelection sid packages [] options ps mode h =
    let e = answer-chosen "all" mode (inr (select_all sid options packages [])) ps h in
    let e : select_all sid options packages [] ≡ ps = cc in
    rw (sym e) (record {
      distinct = all-Distinct sid options packages [];
      from_all = λ none p m. all-IsTaken sid options packages [] p m;
      from_requested = λ some. ground arith;
      answers_all = λ r m. elim m [ ];
      takes_all = λ none q m n c. all_complete sid options packages [] q m n c;
    })
update_job_packages-IsSelection sid packages (r ∷ requested) options ps mode h =
    let entries = inventory_by_update_key sid packages [] in
    let t = requested-Gathers sid options entries (r ∷ requested) [] ps (
      answer-chosen "selected" mode (select_requested sid options entries (r ∷ requested) []) ps
        h) in
    record {
      distinct = t.distinct;
      from_all = λ none. ground arith;
      from_requested = λ some p m.
          IsTaken-map (IsAsked sid options entries (r ∷ requested))
            (IsRequested sid packages (r ∷ requested)) sid options p
            (asked-IsRequested sid options packages (r ∷ requested)) (t.taken_well p m);
      answers_all = t.covered;
      takes_all = λ none. ground arith;
    }
