-- ===== src/Common/Text/Search/Parts.antt =====
-- A text that is cut at a character is the two parts with the character between them.
use Prim.Native.Char.{Char, code}
use Prim.Native.String.{String, ◌++◌}
use mathlib.Core.Path.{◌≡◌, refl}
use mathlib.Core.Logic.{inl, inr}
use mathlib.Core.Bool.{false}
use mathlib.Core.Option.{some}
use native.Mathlib.Omega.{arith}
use text.Mathlib.TextEquality.{Char-path}
use text.Mathlib.TextLemmas.{nil-append, cons-append}
use patch_board.Common.Tests.{◌==◌, ==_iff, Bool-cases, Option-cases}
use patch_board.Common.Text.Search.{cut, has_char}

pub cut-append :
    (d : Char) (a b : String)
    → has_char (code d) a ≡ false
    → cut (code d) (a ++ String.◌∷◌ d b) ≡ some (a, b)
unfolding cut has_char
cut-append d String.[] b h = rw (nil-append (String.◌∷◌ d b)) (ground arith)
cut-append d (String.◌∷◌ c a) b h =
    rw (cons-append c a (String.◌∷◌ d b)) (ground (arith, cut-append d a b))

pub append-of-cut :
    (d : Char) (s a b : String)
    → cut (code d) s ≡ some (a, b)
    → (s ≡ a ++ String.◌∷◌ d b) × (has_char (code d) a ≡ false)
unfolding cut has_char
append-of-cut d String.[] a b h = cc
append-of-cut d (String.◌∷◌ c s) a b h = elim (Bool-cases (code c == code d)) [
  | inl e ↦
      let p : (a ≡ "") × (b ≡ s) = ground arith in
      let q : c ≡ d = Char-path c d ((==_iff (code c) (code d)).0 e) in
      rw (p.0, p.1, q, nil-append (String.◌∷◌ d s)) (refl, refl)
  | inr e ↦ elim (Option-cases (cut (code d) s)) [
    | inl n ↦ ground arith
    | inr ((a', b'), n) ↦
        let p : (a ≡ String.◌∷◌ c a') × (b ≡ b') = ground arith in
        let q : (s ≡ a' ++ String.◌∷◌ d b') × (has_char (code d) a' ≡ false) =
          append-of-cut d s a' b' n in
        rw (p.0, p.1, q.0, cons-append c a' (String.◌∷◌ d b')) (refl, ground (arith, q.1))
  ]
]
