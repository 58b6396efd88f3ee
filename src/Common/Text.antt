-- ===== src/Common/Text.antt =====
-- Texts: what the program uses of Go's `strings`. A text is a list of Unicode scalar values; `len`
-- and `compare` are those of its UTF-8, as in Go. Case is mapped on ASCII and on Latin-1, which are
-- all the letters that the program's own literals use; other letters are left alone.
pub mod Trim
pub mod Search
pub mod Decimal
use Prim.Native.Nat.{ℕ, ◌+◌, ◌-◌, ◌≤◌, ◌<◌}
use Prim.Native.Char.{Char, char, code, IsScalar}
use Prim.Native.String.{String, compare}
use Prim.Native.String
use mathlib.Core.Bool.{Bool, true, false, ◌&&◌, ◌||◌, not}
use mathlib.Core.List.{[], ◌∷◌}
use native.Mathlib.Omega.{arith}
use native.Mathlib.Decide.{dec_lt}
use text.Mathlib.Text.{◌==◌, is_lt}
use patch_board.Common.Tests.{if◌then◌else◌, leb}
use patch_board.Common.Tests.{◌==◌ as num_eq}

-- `a == b` on texts, and `a < b` by code points, which is Go's order of the UTF-8 bytes.
abbrev pub str_eq : String → String → Bool
str_eq a b = a == b

abbrev pub str_lt : String → String → Bool
str_lt a b = is_lt (compare a b)

abbrev pub nonempty : String → Bool
nonempty String.[] = false
nonempty (String.◌∷◌ c s) = true

-- `unicode.IsSpace`.
unfoldable pub is_space : ℕ → Bool
is_space c =
    (leb 9 c && leb c 13)
    || num_eq c 32
    || num_eq c 0x85
    || num_eq c 0xa0
    || num_eq c 0x1680
    || (leb 0x2000 c && leb c 0x200a)
    || num_eq c 0x2028
    || num_eq c 0x2029
    || num_eq c 0x202f
    || num_eq c 0x205f
    || num_eq c 0x3000

unfoldable pub trim_left : String → String
unfolding is_space
trim_left String.[] = ""
trim_left (String.◌∷◌ c s) = if is_space (code c) then trim_left s else String.◌∷◌ c s

-- A space is dropped when nothing but spaces follows it.
abbrev put_back : Bool → Char → String → String
put_back space c rest = if space && not (nonempty rest) then "" else String.◌∷◌ c rest

unfoldable pub trim_right : String → String
unfolding is_space
trim_right String.[] = ""
trim_right (String.◌∷◌ c s) = put_back (is_space (code c)) c (trim_right s)

-- `strings.TrimSpace`.
unfoldable pub trim_space : String → String
unfolding trim_left trim_right
trim_space s = trim_right (trim_left s)

pub IsScalar-of_lt : (n : ℕ) → n < 55296 → IsScalar n
IsScalar-of_lt n h = ground arith

-- How far a letter lies below its small form.
unfoldable pub lower_shift : ℕ → ℕ
lower_shift c =
    if (leb 65 c && leb c 90) || (leb 192 c && leb c 222 && not (num_eq c 215)) then 32 else 0

pub lower_shift-le : (c : ℕ) → lower_shift c ≤ 32
unfolding lower_shift
lower_shift-le c = ground arith

unfoldable pub lower_char : Char → Char
unfolding lower_shift dec_lt
lower_char (char n p) = elim (dec_lt n 255) [
  | yes h ↦
      char (n + lower_shift n)
        (IsScalar-of_lt (n + lower_shift n) (omega (arith, lower_shift-le n)))
  | no _ ↦ char n p
]

-- `strings.ToLower`.
unfoldable pub to_lower : String → String
unfolding lower_char
to_lower String.[] = ""
to_lower (String.◌∷◌ c s) = String.◌∷◌ (lower_char c) (to_lower s)

-- `strings.EqualFold`.
unfoldable pub equal_fold : String → String → Bool
unfolding to_lower
equal_fold a b = str_eq (to_lower a) (to_lower b)
