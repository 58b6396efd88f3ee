-- ===== src/Locks/Scan/Marks.antt =====
-- Deleting a key from keys of which none is listed twice.
use patch_board.Common.{
  String, true, false, not, List, [], ◌∷◌, keep, ◌≡◌, refl, ◌∙◌, ap, inl, inr, ◌⊎◌, arith,
  Bool-cases,
}
use patch_board.Common.Text.{str_eq}
use patch_board.Common.Dict.{contains, Distinct}

unfoldable pub others : String → List String → List String
unfolding keep
others k ks = keep (λ key. not (str_eq key k)) ks

pub others-skip :
    (k j : String) (ks : List String) → str_eq j k ≡ true → others k (j ∷ ks) ≡ others k ks
unfolding others keep
others-skip k j ks h = rw (h) refl

pub others-keep :
    (k j : String) (ks : List String) → str_eq j k ≡ false → others k (j ∷ ks) ≡ j ∷ others k ks
unfolding others keep
others-keep k j ks h = rw (h) refl

pub others-nil : (k : String) → others k [] ≡ []
unfolding others keep
others-nil k = refl

pub absent :
    (k j : String) (ks : List String)
    → contains k (j ∷ ks) ≡ false
    → (str_eq j k ≡ false) × (contains k ks ≡ false)
unfolding contains
absent k j ks h = ground arith

pub absent_first :
    (k j : String) (ks : List String)
    → str_eq j k ≡ false
    → contains k ks ≡ false
    → contains k (j ∷ ks) ≡ false
unfolding contains
absent_first k j ks h g = ground arith

pub present :
    (k j : String) (ks : List String)
    → (str_eq j k ≡ true) ⊎ (contains k ks ≡ true)
    → contains k (j ∷ ks) ≡ true
unfolding contains
present k j ks h = ground arith

pub others-absent : (k : String) (ks : List String) → contains k ks ≡ false → others k ks ≡ ks
others-absent k [] h = others-nil k
others-absent k (j ∷ ks) h =
    let (n, r) = absent k j ks h in others-keep k j ks n ∙ ap (λ xs. j ∷ xs) (others-absent k ks r)

pub contains-others :
    (k j : String) (ks : List String) → contains j ks ≡ false → contains j (others k ks) ≡ false
contains-others k j [] h = rw (others-nil k) h
contains-others k j (i ∷ ks) h =
    let (n, r) = absent j i ks h in
    elim (Bool-cases (str_eq i k)) [
      | inl e ↦ rw (others-skip k i ks e) (contains-others k j ks r)
      | inr e ↦
          rw (others-keep k i ks e) (absent_first j i (others k ks) n (contains-others k j ks r))
    ]

pub others-Distinct : (k : String) (ks : List String) → Distinct ks → Distinct (others k ks)
others-Distinct k [] d = rw (others-nil k) d
others-Distinct k (j ∷ ks) (n, d) = elim (Bool-cases (str_eq j k)) [
  | inl e ↦ rw (others-skip k j ks e) (others-Distinct k ks d)
  | inr e ↦ rw (others-keep k j ks e) (contains-others k j ks n, others-Distinct k ks d)
]
