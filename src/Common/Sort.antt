-- ===== src/Common/Sort.antt =====
-- `sort.Slice`, `sort.SliceStable` and `sort.Strings`: insertion sort, which is stable.
use Prim.Native.String.{String}
use mathlib.Core.Path.{◌≡◌, refl, sym, subst}
use mathlib.Core.Logic.{inl, inr}
use mathlib.Core.Bool.{Bool}
use mathlib.Core.List.{List, [], ◌∷◌, Memᴰ}
use native.Mathlib.Omega.{arith}
use patch_board.Common.Tests.{if◌then◌else◌, Bool-cases}
use patch_board.Common.Text.{str_lt}

-- By a test for what comes before; `sort.Slice` leaves open in which order equal ones come.
module _ {A : Type 0} (before : A → A → Bool) where
  unfoldable pub insert_with : A → List A → List A
  insert_with x [] = x ∷ []
  insert_with x (y ∷ ys) = if before y x then y ∷ insert_with x ys else x ∷ y ∷ ys

  unfoldable pub sort_with : List A → List A
  unfolding insert_with
  sort_with [] = []
  sort_with (x ∷ xs) = insert_with x (sort_with xs)

module _ {A : Type 0} (before : A → A → Bool) where
  mem-of-insert_with :
      (x : A) (ys : List A) {a : A} → Memᴰ a (insert_with before x ys) → Memᴰ a (x ∷ ys)
  unfolding insert_with
  mem-of-insert_with x [] m = m
  mem-of-insert_with x (y ∷ ys) m = elim (Bool-cases (before y x)) [
    | inl t ↦ past x y ys (mem-of-insert_with x ys) (rw t at m)
    | inr f ↦ rw f at m
  ]
    where
      past :
          (x y : A) (ys : List A) {a : A}
          → (Memᴰ a (insert_with before x ys) → Memᴰ a (x ∷ ys))
          → Memᴰ a (y ∷ insert_with before x ys)
          → Memᴰ a (x ∷ y ∷ ys)
      past x y ys later (Memᴰ.head e) = Memᴰ.tail (Memᴰ.head e)
      past x y ys later (Memᴰ.tail k) = swap x y ys (later k)
        where
          swap : (x y : A) (ys : List A) {a : A} → Memᴰ a (x ∷ ys) → Memᴰ a (x ∷ y ∷ ys)
          swap x y ys (Memᴰ.head e) = Memᴰ.head e
          swap x y ys (Memᴰ.tail k) = Memᴰ.tail (Memᴰ.tail k)

  -- Sorting brings in nothing new.
  pub mem-of-sort_with : (xs : List A) {a : A} → Memᴰ a (sort_with before xs) → Memᴰ a xs
  unfolding sort_with
  mem-of-sort_with [] m = m
  mem-of-sort_with (x ∷ xs) m =
      under x xs (mem-of-sort_with xs) (mem-of-insert_with x (sort_with before xs) m)
    where
      under :
          (x : A) (xs : List A) {a : A}
          → (Memᴰ a (sort_with before xs) → Memᴰ a xs)
          → Memᴰ a (x ∷ sort_with before xs)
          → Memᴰ a (x ∷ xs)
      under x xs later (Memᴰ.head e) = Memᴰ.head e
      under x xs later (Memᴰ.tail k) = Memᴰ.tail (later k)

  insert_with-ne-nil : (x : A) (ys : List A) → insert_with before x ys ≡ [] → ⊥
  unfolding insert_with
  insert_with-ne-nil x [] e = cc
  insert_with-ne-nil x (y ∷ ys) e = ground arith

  pub sort_with-ne-nil : (x : A) (xs : List A) → sort_with before (x ∷ xs) ≡ [] → ⊥
  unfolding sort_with
  sort_with-ne-nil x xs e = insert_with-ne-nil x (sort_with before xs) e

  mem-insert_with_self : (x : A) (ys : List A) → Memᴰ x (insert_with before x ys)
  unfolding insert_with
  mem-insert_with_self x [] = Memᴰ.head refl
  mem-insert_with_self x (y ∷ ys) = elim (Bool-cases (before y x)) [
    | inl t ↦ rw t (Memᴰ.tail (mem-insert_with_self x ys))
    | inr f ↦ rw f (Memᴰ.head refl)
  ]

  mem-insert_with : (x : A) (ys : List A) {a : A} → Memᴰ a ys → Memᴰ a (insert_with before x ys)
  unfolding insert_with
  mem-insert_with x [] m = Memᴰ.tail m
  mem-insert_with x (y ∷ ys) (Memᴰ.head e) = elim (Bool-cases (before y x)) [
    | inl t ↦ rw t (Memᴰ.head e)
    | inr f ↦ rw f (Memᴰ.tail (Memᴰ.head e))
  ]
  mem-insert_with x (y ∷ ys) (Memᴰ.tail m) = elim (Bool-cases (before y x)) [
    | inl t ↦ rw t (Memᴰ.tail (mem-insert_with x ys m))
    | inr f ↦ rw f (Memᴰ.tail (Memᴰ.tail m))
  ]

  -- Sorting loses nothing.
  pub mem-sort_with : (xs : List A) {a : A} → Memᴰ a xs → Memᴰ a (sort_with before xs)
  unfolding sort_with
  mem-sort_with [] m = m
  mem-sort_with (x ∷ xs) (Memᴰ.head e) =
      subst (λ y. Memᴰ y (insert_with before x (sort_with before xs))) (sym e)
        (mem-insert_with_self x (sort_with before xs))
  mem-sort_with (x ∷ xs) (Memᴰ.tail m) =
      mem-insert_with x (sort_with before xs) (mem-sort_with xs m)

-- By a text key.
module _ {A : Type 0} (key : A → String) where
  abbrev by_key : A → A → Bool
  by_key y x = str_lt (key y) (key x)

  unfoldable pub sort_by : List A → List A
  unfolding sort_with
  sort_by xs = sort_with by_key xs

  pub mem-of-sort_by : (xs : List A) {a : A} → Memᴰ a (sort_by xs) → Memᴰ a xs
  unfolding sort_by
  mem-of-sort_by xs m = mem-of-sort_with by_key xs m

  pub sort_by-ne-nil : (x : A) (xs : List A) → sort_by (x ∷ xs) ≡ [] → ⊥
  unfolding sort_by
  sort_by-ne-nil x xs e = sort_with-ne-nil by_key x xs e

  pub mem-sort_by : (xs : List A) {a : A} → Memᴰ a xs → Memᴰ a (sort_by xs)
  unfolding sort_by
  mem-sort_by xs m = mem-sort_with by_key xs m
