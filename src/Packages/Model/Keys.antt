-- ===== src/Packages/Model/Keys.antt =====
-- `packageKey` and `splitPackageKey` of internal/updater/package_manager.go undo each other.
use Prim.Native.Char.{Char, char}
use Prim.Native.String.{◌++◌ as text_append}
use native.Mathlib.Omega.{arith}
use text.Mathlib.TextEquality.{eq_iff}
use text.Mathlib.TextLemmas.{nil-append, cons-append}
use patch_board.Common.{String, true, false, Option, none, some, ◌≡◌, refl, ◌↔◌, ◌⊎◌, inl, inr}
use patch_board.Common.Text.{nonempty}
use patch_board.Common.Text.Search.{cut, has_char}
use patch_board.Common.Text.Search.Parts.{cut-append, append-of-cut}
use patch_board.Packages.Model.{
  is_managed_package_manager, package_key, checked_key, split_package_key,
}

abbrev colon : Char
colon = char 58 tt

three :
    (m : String)
    → is_managed_package_manager m ≡ true
    → (m ≡ "winget") ⊎ ((m ≡ "store") ⊎ (m ≡ "choco"))
unfolding is_managed_package_manager
three m h = ground (arith, eq_iff m "winget", eq_iff m "store", eq_iff m "choco")

managed-no_colon : (m : String) → is_managed_package_manager m ≡ true → has_char 58 m ≡ false
unfolding has_char
managed-no_colon m h = elim (three m h) [
  | inl e ↦ rw (e) refl
  | inr (inl e) ↦ rw (e) refl
  | inr (inr e) ↦ rw (e) refl
]

colon-append : (id : String) → text_append ":" id ≡ String.◌∷◌ colon id
colon-append id = rw (cons-append colon "" id, nil-append id) refl

checked :
    (o : Option (String × String)) (m id : String)
    → (checked_key o ≡ some (m, id))
      ↔ ((o ≡ some (m, id)) × (is_managed_package_manager m ≡ true) × (nonempty id ≡ true))
checked none m id = (λ h. cc, λ p. cc)
checked (some (a, b)) m id = (
  λ h.
      let e : (nonempty b ≡ true) × (is_managed_package_manager a ≡ true) = ground arith in
      let p : (a ≡ m) × (b ≡ id) = ground arith in (cc, cc, cc),
  λ (p, q, r).
      let e : (a ≡ m) × (b ≡ id) = ground arith in
      let u : is_managed_package_manager a ≡ true = cc in
      let v : nonempty b ≡ true = cc in ground arith,
)

-- A key splits into a manager and an id just when it is the key of that managed package manager and
-- that non-empty id.
pub split-package_key :
    (key m id : String)
    → (split_package_key key ≡ some (m, id))
      ↔ ((key ≡ package_key m id) × (is_managed_package_manager m ≡ true) × (nonempty id ≡ true))
unfolding split_package_key package_key
split-package_key key m id = (
  λ h.
      let c : (cut 58 key ≡ some (m, id))
          × (is_managed_package_manager m ≡ true)
          × (nonempty id ≡ true) =
        (checked (cut 58 key) m id).0 h in
      (rw (colon-append id) (append-of-cut colon key m id c.0).0, c.1, c.2),
  λ p.
      (checked (cut 58 key) m id).1
        (rw (p.0, colon-append id) (cut-append colon m id (managed-no_colon m p.1)), p.1, p.2),
)
