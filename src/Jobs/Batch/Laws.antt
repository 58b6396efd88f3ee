-- ===== src/Jobs/Batch/Laws.antt =====
-- No package of a batch is lost or done twice.
use mathlib.Core.List.{Memᴰ}
use text.Mathlib.TextEquality.{eq_iff}
use patch_board.Common.{
  ◌+◌, ◌≤◌, ◌≡◌, refl, ◌⊎◌, inl, inr, arith, Option, String, Bool, true, false, not, ◌||◌, List, [],
  ◌∷◌, length, length-append, map, keep, mem-keep, mem-of-keep, ◌↔◌, Bool-cases, is_empty, ltb,
}
use patch_board.Common.Text.{nonempty}
use patch_board.Commands.OutputTail.{drop}
use patch_board.Commands.OutputTail.Bounds.{length-drop}
use patch_board.Commands.Result.{CommandResult}
use patch_board.Packages.Model.{Package}
use patch_board.Jobs.Batch.{
  ElevatedPackageUpdateBatchCapability, package_eligible_for_elevated_update_batch, UpdateResult,
  plan_elevated_package_update_batch, complete_partial_batch_results,
  package_update_queue_stop_reason, skipped_package_update_results, failed_batch_update_results,
  skipped_result,
}

keep-length_sum :
    (p : Package → Bool) (xs : List Package)
    → length (keep p xs) + length (keep (λ x. not (p x)) xs) ≡ length xs
unfolding keep
keep-length_sum p [] = ground arith
keep-length_sum p (x ∷ xs) = ground (arith, keep-length_sum p xs)

length-map : {A B : Type 0} (f : A → B) (xs : List A) → length (map f xs) ≡ length xs
length-map f [] = refl
length-map f (x ∷ xs) = ground (arith, length-map f xs)

plan-cases :
    (packages : List Package) (is_batch_eligible : Package → Bool)
    → (plan_elevated_package_update_batch packages is_batch_eligible ≡ ([], packages))
      ⊎ ((2 ≤ length packages)
          × (plan_elevated_package_update_batch packages is_batch_eligible
              ≡ (keep is_batch_eligible packages, keep (λ p. not (is_batch_eligible p)) packages)))
unfolding plan_elevated_package_update_batch
plan-cases packages is_batch_eligible =
    elim (Bool-cases (ltb (length packages) 2 || is_empty (keep is_batch_eligible packages))) [
      | inl t ↦ inl (rw t refl)
      | inr f ↦ inr (ground arith, rw f refl)
    ]

mem-keep_either :
    (q : Package → Bool) (xs : List Package) (p : Package)
    → Memᴰ p xs ↔ (Memᴰ p (keep q xs) ⊎ Memᴰ p (keep (λ x. not (q x)) xs))
mem-keep_either q xs p = (into, out)
  where
    into : Memᴰ p xs → Memᴰ p (keep q xs) ⊎ Memᴰ p (keep (λ x. not (q x)) xs)
    into m = elim (Bool-cases (q p)) [
      | inl t ↦ inl (mem-keep q xs t m)
      | inr f ↦ inr (mem-keep (λ x. not (q x)) xs (ground (arith, f)) m)
    ]

    out : Memᴰ p (keep q xs) ⊎ Memᴰ p (keep (λ x. not (q x)) xs) → Memᴰ p xs
    out (inl m) = (mem-of-keep q xs m).0
    out (inr m) = (mem-of-keep (λ x. not (q x)) xs m).0

-- The plan deals out the packages: the batch and the remaining packages are together as many as there
-- were, and a package was given exactly if it stands in one of the two.
pub plan_elevated_package_update_batch-deals :
    (packages : List Package) (is_batch_eligible : Package → Bool) (p : Package)
    → (length (plan_elevated_package_update_batch packages is_batch_eligible).0
          + length (plan_elevated_package_update_batch packages is_batch_eligible).1
        ≡ length packages)
      × (Memᴰ p packages ↔ (
          Memᴰ p (plan_elevated_package_update_batch packages is_batch_eligible).0
          ⊎ Memᴰ p (plan_elevated_package_update_batch packages is_batch_eligible).1))
plan_elevated_package_update_batch-deals packages is_batch_eligible p =
    elim (plan-cases packages is_batch_eligible) [
      | inl e ↦
          rw e (omega arith, (λ m. inr m, λ either. elim either [ inl m ↦ elim m [ ] | inr m ↦ m ]))
      | inr (two, e) ↦
          rw e (
            keep-length_sum is_batch_eligible packages,
            mem-keep_either is_batch_eligible packages p,
          )
    ]

eligible_manager :
    (p : Package) (capability : ElevatedPackageUpdateBatchCapability)
    → package_eligible_for_elevated_update_batch p capability ≡ true
    → (capability.requires_elevation ≡ true)
      × ((p.manager ≡ "choco")
          ⊎ ((p.manager ≡ "winget") × (capability.same_user_elevation_available ≡ true)))
unfolding package_eligible_for_elevated_update_batch
eligible_manager p capability h =
    ground (arith, eq_iff p.manager "choco", eq_iff p.manager "winget")

eligible_of :
    (p : Package) (capability : ElevatedPackageUpdateBatchCapability)
    → capability.requires_elevation ≡ true
    → (p.manager ≡ "choco")
      ⊎ ((p.manager ≡ "winget") × (capability.same_user_elevation_available ≡ true))
    → package_eligible_for_elevated_update_batch p capability ≡ true
unfolding package_eligible_for_elevated_update_batch
eligible_of p capability needed managed =
    ground (arith, eq_iff p.manager "choco", eq_iff p.manager "winget")

listed_two :
    (packages : List Package) (is_batch_eligible : Package → Bool) (p : Package)
    → Memᴰ p (plan_elevated_package_update_batch packages is_batch_eligible).0
    → (is_batch_eligible p ≡ true) × Memᴰ p packages × (2 ≤ length packages)
listed_two packages is_batch_eligible p m = elim (plan-cases packages is_batch_eligible) [
  | inl e ↦ elim (rw e at m) [ ]
  | inr (two, e) ↦
      let (listed, eligible) = mem-of-keep is_batch_eligible packages (rw e at m) in
      (eligible, listed, two)
]

is_empty_of_mem : {A : Type 0} (x : A) (xs : List A) → Memᴰ x xs → is_empty xs ≡ false
is_empty_of_mem x [] m = elim m [ ]
is_empty_of_mem x (y ∷ xs) m = refl

planned_of :
    (packages : List Package) (is_batch_eligible : Package → Bool) (p : Package)
    → 2 ≤ length packages
    → Memᴰ p packages
    → is_batch_eligible p ≡ true
    → Memᴰ p (plan_elevated_package_update_batch packages is_batch_eligible).0
unfolding plan_elevated_package_update_batch
planned_of packages is_batch_eligible p two m eligible =
    let k = mem-keep is_batch_eligible packages eligible m in
    let some_left = is_empty_of_mem p (keep is_batch_eligible packages) k in
    let enough : ltb (length packages) 2 ≡ false = ground arith in rw (enough, some_left) k

-- With the eligibility that is used by default, a package stands in the batch exactly if it was given
-- together with at least one more, updates need elevation, and it is one of Chocolatey, or one of WinGet
-- while the user's own account can be elevated.
pub plan_elevated_package_update_batch-eligible :
    (packages : List Package) (capability : ElevatedPackageUpdateBatchCapability) (p : Package)
    → Memᴰ p
        (plan_elevated_package_update_batch packages
          (λ c. package_eligible_for_elevated_update_batch c capability)).0
      ↔ ((2 ≤ length packages)
          × Memᴰ p packages
          × (capability.requires_elevation ≡ true)
          × ((p.manager ≡ "choco")
              ⊎ ((p.manager ≡ "winget") × (capability.same_user_elevation_available ≡ true))))
plan_elevated_package_update_batch-eligible packages capability p = (
  λ m.
      let (eligible, listed, two) = listed_two packages _ p m in
      let (needed, managed) = eligible_manager p capability eligible in
      (two, listed, needed, managed),
  λ (two, listed, needed, managed).
      planned_of packages (λ c. package_eligible_for_elevated_update_batch c capability) p two
        listed (eligible_of p capability needed managed),
)

-- When a batch stops early for a known reason, at most one result for each package having been
-- reported, every package gets a result.
length-complete_partial_batch_results :
    (sid : Option String) (packages : List Package) (results : List UpdateResult)
    (batch_result : CommandResult)
    → nonempty (package_update_queue_stop_reason batch_result) ≡ true
    → length results ≤ length packages
    → length (complete_partial_batch_results sid packages results batch_result) ≡ length packages
unfolding complete_partial_batch_results failed_batch_update_results skipped_package_update_results
length-complete_partial_batch_results sid packages results batch_result stopped fits =
    let reason = package_update_queue_stop_reason batch_result in
    let rest = drop (length results) packages in
    let skipped = map (skipped_result sid reason) rest in
    ground (
      arith,
      length-map {B = UpdateResult} (λ (p : Package). record { key = p.key; result = batch_result })
          packages,
      length-append results skipped,
      length-map (skipped_result sid reason) rest,
      length-drop (length results) packages,
    )
