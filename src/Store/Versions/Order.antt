-- ===== src/Store/Versions/Order.antt =====
-- What comparing two Store package versions means.
use Prim.Native.Nat.{Ordering}
use patch_board.Common.{
  ℕ, zero, suc, ◌≡◌, refl, sym, ap, ◌∙◌, ◌↔◌, ◌<◌, arith, inl, inr, ◌⊎◌, String, some, List, [],
  ◌∷◌,
}
use patch_board.Store.Versions.{
  parse_store_package_version, compare_parts, compare_store_package_versions,
}

-- The part at a position, 0 past the end.
abbrev pub part : List ℕ → ℕ → ℕ
part [] i = 0
part (n ∷ ns) zero = n
part (n ∷ ns) (suc i) = part ns i

-- At the first position where the two differ, the first list has the larger part.
abbrev pub Above : List ℕ → List ℕ → Type 0
Above ls rs = (i : ℕ) × (part rs i < part ls i) × ((j : ℕ) → j < i → part ls j ≡ part rs j)

rest_of : List ℕ → List ℕ
rest_of [] = []
rest_of (n ∷ ns) = ns

part-rest_of : (ns : List ℕ) (i : ℕ) → part ns (suc i) ≡ part (rest_of ns) i
unfolding rest_of
part-rest_of [] i = refl
part-rest_of (n ∷ ns) i = refl

Above-rest_of :
    (ls rs : List ℕ) → part ls 0 ≡ part rs 0 → Above (rest_of ls) (rest_of rs) → Above ls rs
Above-rest_of ls rs e (i, lt, same) =
    (suc i, ground (arith, part-rest_of ls i, part-rest_of rs i), agree)
  where
    agree : (j : ℕ) → j < suc i → part ls j ≡ part rs j
    agree zero h = e
    agree (suc j) h = part-rest_of ls j ∙ (same j (ground arith) ∙ sym (part-rest_of rs j))

-- One turn of the loop.
compare-turn :
    (ls rs : List ℕ)
    → compare_parts ls rs ≡ Ordering.gt
    → (part rs 0 < part ls 0)
      ⊎ ((part ls 0 ≡ part rs 0) × (compare_parts (rest_of ls) (rest_of rs) ≡ Ordering.gt))
unfolding compare_parts rest_of
compare-turn [] [] h = ground arith
compare-turn (l ∷ ls) [] h = ground arith
compare-turn [] (r ∷ rs) h = ground arith
compare-turn (l ∷ ls) (r ∷ rs) h = ground arith

compare-first : (ls rs : List ℕ) → part rs 0 < part ls 0 → compare_parts ls rs ≡ Ordering.gt
unfolding compare_parts
compare-first [] [] h = ground arith
compare-first (l ∷ ls) [] h = ground arith
compare-first [] (r ∷ rs) h = ground arith
compare-first (l ∷ ls) (r ∷ rs) h = ground arith

compare-later :
    (ls rs : List ℕ)
    → part ls 0 ≡ part rs 0
    → compare_parts ls rs ≡ compare_parts (rest_of ls) (rest_of rs)
unfolding compare_parts rest_of
compare-later [] [] h = refl
compare-later (l ∷ ls) [] h = ground arith
compare-later [] (r ∷ rs) h = ground arith
compare-later (l ∷ ls) (r ∷ rs) h = ground arith

gt-turn :
    (ls rs : List ℕ)
    → (compare_parts (rest_of ls) (rest_of rs) ≡ Ordering.gt → Above (rest_of ls) (rest_of rs))
    → compare_parts ls rs ≡ Ordering.gt
    → Above ls rs
gt-turn ls rs next h = elim (compare-turn ls rs h) [
  | inl lt ↦ (0, lt, λ j j_lt. ground arith)
  | inr (e, later) ↦ Above-rest_of ls rs e (next later)
]

compare-gt : (ls rs : List ℕ) → compare_parts ls rs ≡ Ordering.gt → Above ls rs
unfolding rest_of compare_parts
compare-gt [] [] h = ground arith
compare-gt (l ∷ ls) [] h = gt-turn (l ∷ ls) [] (compare-gt ls []) h
compare-gt [] (r ∷ rs) h = gt-turn [] (r ∷ rs) (compare-gt [] rs) h
compare-gt (l ∷ ls) (r ∷ rs) h = gt-turn (l ∷ ls) (r ∷ rs) (compare-gt ls rs) h

above-gt :
    (ls rs : List ℕ) (i : ℕ)
    → part rs i < part ls i
    → ((j : ℕ) → j < i → part ls j ≡ part rs j)
    → compare_parts ls rs ≡ Ordering.gt
above-gt ls rs zero lt same = compare-first ls rs lt
above-gt ls rs (suc i) lt same =
    compare-later ls rs (same 0 (ground arith))
    ∙ above-gt (rest_of ls) (rest_of rs) i (ground (arith, part-rest_of ls i, part-rest_of rs i))
        (λ j h. sym (part-rest_of ls j) ∙ (same (suc j) (ground arith) ∙ part-rest_of rs j))

abbrev opposite : Ordering → Ordering
opposite Ordering.lt = Ordering.gt
opposite Ordering.eq = Ordering.eq
opposite Ordering.gt = Ordering.lt

compare-opposite : (ls rs : List ℕ) → compare_parts rs ls ≡ opposite (compare_parts ls rs)
unfolding compare_parts
compare-opposite [] [] = refl
compare-opposite (l ∷ ls) [] = ground (arith, compare-opposite ls [])
compare-opposite [] (r ∷ rs) = ground (arith, compare-opposite [] rs)
compare-opposite (l ∷ ls) (r ∷ rs) = ground (arith, compare-opposite ls rs)

compare-parsed :
    (left right : String) (ls rs : List ℕ)
    → parse_store_package_version left ≡ some ls
    → parse_store_package_version right ≡ some rs
    → compare_store_package_versions left right ≡ some (compare_parts ls rs)
unfolding compare_store_package_versions
compare-parsed left right ls rs hl hr = ground (arith, hl, hr)

-- Two texts that are versions compare as greater exactly when the first has the larger part at the
-- first position where they differ, a missing part counting as 0, and as less exactly in the reverse
-- case.
pub compare_store_package_versions-IsLexicographic :
    (left right : String) (ls rs : List ℕ)
    → parse_store_package_version left ≡ some ls
    → parse_store_package_version right ≡ some rs
    → ((compare_store_package_versions left right ≡ some Ordering.gt) ↔ Above ls rs)
      × ((compare_store_package_versions left right ≡ some Ordering.lt) ↔ Above rs ls)
compare_store_package_versions-IsLexicographic left right ls rs hl hr = (
  (λ h. compare-gt ls rs (was Ordering.gt h), λ h. e ∙ ap some (gt ls rs h)),
  (
    λ h. compare-gt rs ls (compare-opposite ls rs ∙ ap opposite (was Ordering.lt h)),
    λ h. e ∙ ap some (compare-opposite rs ls ∙ ap opposite (gt rs ls h)),
  ),
)
  where
    e : compare_store_package_versions left right ≡ some (compare_parts ls rs)
    e = compare-parsed left right ls rs hl hr

    was :
        (o : Ordering)
        → compare_store_package_versions left right ≡ some o
        → compare_parts ls rs ≡ o
    was o h = ground (arith, e, h)

    gt : (ls rs : List ℕ) → Above ls rs → compare_parts ls rs ≡ Ordering.gt
    gt ls rs (i, lt, same) = above-gt ls rs i lt same
