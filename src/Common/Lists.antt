-- ===== src/Common/Lists.antt =====
-- Lists measured by native numbers, and Boolean tests over their items.
use Prim.Native.Nat.{ℕ, suc, ◌+◌}
use mathlib.Core.Path.{◌≡◌, refl, ap, sym, ◌∙◌}
use mathlib.Core.Bool.{Bool, true, false, not, ◌&&◌, ◌||◌}
use mathlib.Core.Logic.{inl, inr}
use mathlib.Core.List.{List, [], ◌∷◌, ◌++◌, map, Memᴰ}
use native.Mathlib.Omega.{arith}
use patch_board.Common.Tests.{if◌then◌else◌, Bool-cases, and-eq-true}

module _ {ℓ} {A : Type ℓ} where
  abbrev pub length : List A → ℕ
  length [] = 0
  length (x ∷ xs) = suc (length xs)

  abbrev pub is_empty : List A → Bool
  is_empty [] = true
  is_empty (x ∷ xs) = false

  pub length-append : (xs ys : List A) → length (xs ++ ys) ≡ length xs + length ys
  length-append [] ys = omega arith
  length-append (x ∷ xs) ys = omega (arith, length-append xs ys)

  -- Whether some item passes, and whether every item does.
  unfoldable pub any : (A → Bool) → List A → Bool
  any p [] = false
  any p (x ∷ xs) = p x || any p xs

  unfoldable pub all : (A → Bool) → List A → Bool
  all p [] = true
  all p (x ∷ xs) = p x && all p xs

  -- The items that pass, in their order.
  unfoldable pub keep : (A → Bool) → List A → List A
  keep p [] = []
  keep p (x ∷ xs) = if p x then x ∷ keep p xs else keep p xs

module _ {ℓ} {A : Type ℓ} (p : A → Bool) where
  pub mem-keep : (xs : List A) {a : A} → p a ≡ true → Memᴰ a xs → Memᴰ a (keep p xs)
  unfolding keep
  mem-keep [] passes m = elim m [ ]
  mem-keep (x ∷ xs) passes (Memᴰ.head e) = rw (← ap p e, passes) (Memᴰ.head e)
  mem-keep (x ∷ xs) passes (Memᴰ.tail m) = elim (Bool-cases (p x)) [
    | inl t ↦ rw t (Memᴰ.tail (mem-keep xs passes m))
    | inr f ↦ rw f (mem-keep xs passes m)
  ]

  mem-cons-keep :
      (x : A) (xs : List A) {a : A}
      → p x ≡ true
      → (Memᴰ a (keep p xs) → Memᴰ a xs × (p a ≡ true))
      → Memᴰ a (x ∷ keep p xs)
      → Memᴰ a (x ∷ xs) × (p a ≡ true)
  mem-cons-keep x xs t later (Memᴰ.head e) = (Memᴰ.head e, ap p e ∙ t)
  mem-cons-keep x xs t later (Memᴰ.tail k) = let (m, h) = later k in (Memᴰ.tail m, h)

  pub mem-of-keep : (xs : List A) {a : A} → Memᴰ a (keep p xs) → Memᴰ a xs × (p a ≡ true)
  unfolding keep
  mem-of-keep [] m = elim m [ ]
  mem-of-keep (x ∷ xs) m = elim (Bool-cases (p x)) [
    | inl t ↦ mem-cons-keep x xs t (mem-of-keep xs) (rw t at m)
    | inr f ↦ let (m', h) = mem-of-keep xs (rw f at m) in (Memᴰ.tail m', h)
  ]

  pub keep-append : (xs ys : List A) → keep p (xs ++ ys) ≡ keep p xs ++ keep p ys
  unfolding keep
  keep-append [] ys = refl
  keep-append (x ∷ xs) ys = ground (arith, keep-append xs ys)

  -- Nothing passes exactly when every item fails.
  pub keep-eq-nil : (xs : List A) {a : A} → keep p xs ≡ [] → Memᴰ a xs → p a ≡ false
  keep-eq-nil xs {a} e m = elim (Bool-cases (p a)) [
    | inl t ↦ absurd (none_in (rw e at (mem-keep xs t m)))
    | inr f ↦ f
  ]
    where
      none_in : Memᴰ a [] → ⊥
      none_in m = elim m [ ]

  pub mem-of-all : (xs : List A) {a : A} → all p xs ≡ true → Memᴰ a xs → p a ≡ true
  unfolding all
  mem-of-all [] h m = elim m [ ]
  mem-of-all (x ∷ xs) h (Memᴰ.head e) = ap p e ∙ (and-eq-true (p x) (all p xs) h).0
  mem-of-all (x ∷ xs) h (Memᴰ.tail m) = mem-of-all xs (and-eq-true (p x) (all p xs) h).1 m

  pub all-of-mem : (xs : List A) → ((a : A) → Memᴰ a xs → p a ≡ true) → all p xs ≡ true
  unfolding all
  all-of-mem [] h = refl
  all-of-mem (x ∷ xs) h = rw (h x (Memᴰ.head refl), all-of-mem xs (λ a m. h a (Memᴰ.tail m)))

  pub mem-of-any : (xs : List A) → any p xs ≡ true → (a : A) × Memᴰ a xs × (p a ≡ true)
  unfolding any
  mem-of-any [] h = cc
  mem-of-any (x ∷ xs) h = elim (Bool-cases (p x)) [
    | inl t ↦ (x, Memᴰ.head refl, t)
    | inr f ↦ let (a, m, t) = mem-of-any xs (rw f at h) in (a, Memᴰ.tail m, t)
  ]

  pub any-of-mem : (xs : List A) {a : A} → Memᴰ a xs → p a ≡ true → any p xs ≡ true
  unfolding any
  any-of-mem [] m t = elim m [ ]
  any-of-mem (x ∷ xs) (Memᴰ.head e) t = rw (← ap p e, t)
  any-of-mem (x ∷ xs) (Memᴰ.tail m) t = ground (arith, any-of-mem xs m t)

  pub is_empty-keep : (xs : List A) → is_empty (keep p xs) ≡ not (any p xs)
  unfolding keep any
  is_empty-keep [] = refl
  is_empty-keep (x ∷ xs) = ground (arith, is_empty-keep xs)

  pub none-of-any : (xs : List A) {a : A} → any p xs ≡ false → Memᴰ a xs → p a ≡ false
  none-of-any xs {a} h m = elim (Bool-cases (p a)) [
    | inl t ↦ absurd (cc (sym h ∙ any-of-mem xs m t))
    | inr f ↦ f
  ]

module _ {ℓ} {A : Type ℓ} (p q : A → Bool) where
  pub any_mono :
      (xs : List A) → ((a : A) → p a ≡ true → q a ≡ true) → any p xs ≡ true → any q xs ≡ true
  unfolding any
  any_mono [] le h = h
  any_mono (x ∷ xs) le h = ground (arith, le x, any_mono xs le)

  pub any-keep : (xs : List A) → any q (keep p xs) ≡ any (λ x. p x && q x) xs
  unfolding any keep
  any-keep [] = refl
  any-keep (x ∷ xs) = ground (arith, any-keep xs)

  pub any-or : (xs : List A) → any (λ x. p x || q x) xs ≡ (any p xs || any q xs)
  unfolding any
  any-or [] = refl
  any-or (x ∷ xs) = ground (arith, any-or xs)

  pub any_congr : (xs : List A) → ((a : A) → p a ≡ q a) → any p xs ≡ any q xs
  unfolding any
  any_congr [] e = refl
  any_congr (x ∷ xs) e = rw (e x, any_congr xs e)

  pub all_congr : (xs : List A) → ((a : A) → p a ≡ q a) → all p xs ≡ all q xs
  unfolding all
  all_congr [] e = refl
  all_congr (x ∷ xs) e = rw (e x, all_congr xs e)

pub mem-of-map {ℓ κ} :
    {A : Type ℓ} {B : Type κ} (f : A → B) (xs : List A) {b : B}
    → Memᴰ b (map f xs)
    → (a : A) × Memᴰ a xs × (b ≡ f a)
mem-of-map f [] m = elim m [ ]
mem-of-map f (x ∷ xs) (Memᴰ.head e) = (x, Memᴰ.head refl, e)
mem-of-map f (x ∷ xs) (Memᴰ.tail m) = let (a, k, e) = mem-of-map f xs m in (a, Memᴰ.tail k, e)

-- A loop over a list that carries a state, and what each round keeps.
module _ {ℓ κ} {S : Type ℓ} {A : Type κ} (step : S → A → S) where
  unfoldable pub fold_left : S → List A → S
  fold_left s [] = s
  fold_left s (x ∷ xs) = fold_left (step s x) xs

  pub fold_left-keeps {μ} :
      (P : S → Type μ) (s : S) (xs : List A)
      → ((t : S) (x : A) → Memᴰ x xs → P t → P (step t x))
      → P s
      → P (fold_left s xs)
  unfolding fold_left
  fold_left-keeps P s [] each h = h
  fold_left-keeps P s (x ∷ xs) each h =
      fold_left-keeps P (step s x) xs (λ t y m. each t y (Memᴰ.tail m))
        (each s x (Memᴰ.head refl) h)

module _ {ℓ} {A : Type ℓ} (p : A → Bool) where
  pub all-append : (xs ys : List A) → all p (xs ++ ys) ≡ (all p xs && all p ys)
  unfolding all
  all-append [] ys = refl
  all-append (x ∷ xs) ys = ground (arith, all-append xs ys)

  -- One more element that passes.
  pub all-snoc :
      (xs : List A) (x : A) → all p xs ≡ true → p x ≡ true → all p (xs ++ (x ∷ [])) ≡ true
  unfolding all
  all-snoc xs x h k = ground (arith, all-append xs (x ∷ []))

module _ {ℓ κ} {S : Type ℓ} {A : Type κ} (step : S → A → S) where
  -- What a round brings about, and every later round keeps, holds in the end.
  pub fold_left-reaches {μ} :
      (P : S → Type μ) (s : S) (xs : List A) {x : A}
      → Memᴰ x xs
      → ((t : S) → P (step t x))
      → ((t : S) (y : A) → P t → P (step t y))
      → P (fold_left step s xs)
  unfolding fold_left
  fold_left-reaches P s [] m here each = elim m [ ]
  fold_left-reaches P s (y ∷ ys) (Memᴰ.head e) here each =
      fold_left-keeps step P (step s y) ys (λ t z k. each t z) (rw (← e) (here s))
  fold_left-reaches P s (y ∷ ys) (Memᴰ.tail m) here each =
      fold_left-reaches P (step s y) ys m here each

module _ {ℓ} {A : Type ℓ} where
  pub mem-append_left : (xs ys : List A) {x : A} → Memᴰ x xs → Memᴰ x (xs ++ ys)
  mem-append_left [] ys m = elim m [ ]
  mem-append_left (z ∷ xs) ys (Memᴰ.head e) = Memᴰ.head e
  mem-append_left (z ∷ xs) ys (Memᴰ.tail m) = Memᴰ.tail (mem-append_left xs ys m)

  pub mem-append_last : (xs : List A) (x : A) → Memᴰ x (xs ++ (x ∷ []))
  mem-append_last [] x = Memᴰ.head refl
  mem-append_last (z ∷ xs) x = Memᴰ.tail (mem-append_last xs x)
