-- ===== src/Packages/Revalidation/Laws.antt =====
-- Every requested package is either left to the job, and then still may be updated, or reported as
-- skipped.
use Prim.Native.String.{◌++◌ as text_append}
use mathlib.Core.List.{Memᴰ}
use patch_board.Common.{
  ◌+◌, String, true, false, Option, none, some, List, length, ◌≡◌, ◌⊎◌, if◌then◌else◌,
}
use patch_board.Common.Text.{nonempty}
use patch_board.Packages.Model.{Package, normalized_job_package_key}
use patch_board.Packages.Policy.{package_update_policy}
use patch_board.Packages.Revalidation.{
  find_package_for_update_retry, refreshed, requested_options, Revalidated, still_updatable,
  skipped,
}
use patch_board.Jobs.Batch.{UpdateResult}

-- The inventory's package for a requested one, when it may be updated with its options.
abbrev pub IsLeft : Option String → List Package → Package → Package → Type 0
IsLeft sid packages r p =
    (fresh : Package) × (find_package_for_update_retry sid packages r ≡ some fresh)
    × (p ≡ refreshed sid r fresh)
    × ((package_update_policy sid p (requested_options p)).can_update_now ≡ true)

abbrev pub key_shown : Option String → Package → String
key_shown sid p =
    if nonempty (normalized_job_package_key sid p) then normalized_job_package_key sid p else p.key

-- The requested package is not in the inventory, or may not be updated any more with its options; and
-- the result says that it was skipped.
abbrev pub IsSkip : Option String → List Package → Package → UpdateResult → Type 0
IsSkip sid packages r u =
    (u.result.ok ≡ false)
    × (u.result.code ≡ 204)
    × (((find_package_for_update_retry sid packages r ≡ none) × (u.key ≡ key_shown sid r))
        ⊎ ((fresh : Package) × (find_package_for_update_retry sid packages r ≡ some fresh)
            × ((package_update_policy sid (refreshed sid r fresh)
                  (requested_options r)).can_update_now
                ≡ false)
            × (u.key ≡ key_shown sid (refreshed sid r fresh))))

-- What the two lists hold.
pub record IsDealt (sid : Option String) (packages requested : List Package)
    (left : List Package × List UpdateResult) : Type 0 where
  pub complete : length left.0 + length left.1 ≡ length requested
  pub updatable :
      (p : Package) → Memᴰ p left.0 → (r : Package) × Memᴰ r requested × IsLeft sid packages r p
  pub reported :
      (u : UpdateResult)
      → Memᴰ u left.1
      → (r : Package) × Memᴰ r requested × IsSkip sid packages r u
  pub accounted :
      (r : Package)
      → Memᴰ r requested
      → ((p : Package) × Memᴰ p left.0 × IsLeft sid packages r p)
        ⊎ ((u : UpdateResult) × Memᴰ u left.1 × IsSkip sid packages r u)

-- What is to be shown of one requested package.
abbrev One : Option String → List Package → Package → Revalidated → Type 0
One sid packages r (still_updatable p) = IsLeft sid packages r p
One sid packages r (skipped u) = IsSkip sid packages r u
