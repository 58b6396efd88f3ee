-- ===== src/Common/Text/Search.antt =====
-- Searching texts: `strings.HasPrefix`, `Contains`, `Count`, `Cut`, `Split` and `LastIndex` for one
-- character, and `TrimRight(s, "\r\n")`.
pub mod Parts
use Prim.Native.Char.{code}
use Prim.Native.String.{String}
use Prim.Native.String
use mathlib.Core.Bool.{Bool, true, false, ◌&&◌, ◌||◌, not}
use mathlib.Core.List.{List, [], ◌∷◌}
use mathlib.Core.Option.{Option, none, some}
use Prim.Native.Nat.{ℕ, suc}
use patch_board.Common.Tests.{if◌then◌else◌, ◌==◌}
use patch_board.Common.Text.{nonempty}

unfoldable pub has_prefix : String → String → Bool
has_prefix String.[] s = true
has_prefix (String.◌∷◌ c p) String.[] = false
has_prefix (String.◌∷◌ c p) (String.◌∷◌ d s) = code c == code d && has_prefix p s

-- Whether the second text occurs in the first.
unfoldable pub contains_text : String → String → Bool
unfolding has_prefix
contains_text String.[] p = has_prefix p ""
contains_text (String.◌∷◌ c s) p = has_prefix p (String.◌∷◌ c s) || contains_text s p

unfoldable pub contains_any : String → List String → Bool
unfolding contains_text
contains_any s [] = false
contains_any s (p ∷ ps) = contains_text s p || contains_any s ps

unfoldable pub count_char : ℕ → String → ℕ
count_char k String.[] = 0
count_char k (String.◌∷◌ c s) = let rest = count_char k s in if code c == k then suc rest else rest

unfoldable pub has_char : ℕ → String → Bool
has_char k String.[] = false
has_char k (String.◌∷◌ c s) = code c == k || has_char k s

-- The text before the first such character and the text after it.
unfoldable pub cut : ℕ → String → Option (String × String)
cut k String.[] = none
cut k (String.◌∷◌ c s) =
    let rest = cut k s in
    if code c == k
    then some ("", s)
    else elim rest [ none ↦ none | some (a, b) ↦ some (String.◌∷◌ c a, b) ]

-- The text before the last such character.
unfoldable pub before_last : ℕ → String → Option String
before_last k String.[] = none
before_last k (String.◌∷◌ c s) = elim (before_last k s) [
  | some a ↦ some (String.◌∷◌ c a)
  | none ↦ if code c == k then some "" else none
]

unfoldable pub trim_right_newlines : String → String
trim_right_newlines String.[] = ""
trim_right_newlines (String.◌∷◌ c s) =
    let rest = trim_right_newlines s in
    if (code c == 13 || code c == 10) && not (nonempty rest) then "" else String.◌∷◌ c rest
