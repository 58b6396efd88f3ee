-- ===== src/Store/Versions.antt =====
-- Store package versions: parseStorePackageVersion and compareStorePackageVersions in
-- internal/updater/store_update_execution.go. A Go `int` has 64 bits.
pub mod Order
use Prim.Native.Nat.{Ordering}
use Prim.Native.Char.{code}
use Prim.Native.String
use patch_board.Common.{
  ◌>>=◌, ℕ, ◌+◌, ◌-◌, ◌*◌, String, Bool, true, not, ◌&&◌, ◌||◌, ltb, leb, ◌==◌, if◌then◌else◌,
  Option, none, some, List, [], ◌∷◌,
}
use patch_board.Common.Text.{nonempty, trim_space}
use patch_board.Store.Freshness.{store_assessment_version_known}

-- `strings.Split(s, ".")`.
unfoldable split_dots : String → List String
split_dots String.[] = "" ∷ []
split_dots (String.◌∷◌ c s) =
    let rest = split_dots s in
    if code c == 46
    then "" ∷ rest
    else elim rest [ [] ↦ String.◌∷◌ c "" ∷ [] | x ∷ xs ↦ String.◌∷◌ c x ∷ xs ]

abbrev is_digit : ℕ → Bool
is_digit c = leb 48 c && leb c 57

unfoldable all_digits : String → Bool
all_digits String.[] = true
all_digits (String.◌∷◌ c s) = is_digit (code c) && all_digits s

unfoldable digits_value : ℕ → String → ℕ
digits_value n String.[] = n
digits_value n (String.◌∷◌ c s) = digits_value (n * 10 + (code c - 48)) s

abbrev max_int : ℕ
max_int = 9223372036854775807

-- `strconv.Atoi` of a segment of digits fails when the value does not fit.
unfoldable parse_segment : String → Option ℕ
unfolding all_digits digits_value
parse_segment segment =
    if not (nonempty segment) || not (all_digits segment)
    then none
    else if ltb max_int (digits_value 0 segment)
    then none
    else some (digits_value 0 segment)

unfoldable parse_segments : List String → Option (List ℕ)
unfolding parse_segment
parse_segments [] = some []
parse_segments (segment ∷ segments) = do
  part ← parse_segment segment
  parts ← parse_segments segments
  some (part ∷ parts)

unfoldable pub parse_store_package_version : String → Option (List ℕ)
unfolding parse_segments split_dots
parse_store_package_version value =
    if not (store_assessment_version_known (trim_space value))
    then none
    else parse_segments (split_dots (trim_space value))

-- The loop over the parts; a part that is missing on one side counts as 0.
unfoldable pub compare_parts : List ℕ → List ℕ → Ordering
compare_parts [] [] = Ordering.eq
compare_parts (l ∷ ls) [] = let rest = compare_parts ls [] in if ltb 0 l then Ordering.gt else rest
compare_parts [] (r ∷ rs) = let rest = compare_parts [] rs in if ltb 0 r then Ordering.lt else rest
compare_parts (l ∷ ls) (r ∷ rs) =
    let rest = compare_parts ls rs in
    if ltb r l then Ordering.gt else if ltb l r then Ordering.lt else rest

-- 1, -1 and 0 are `gt`, `lt` and `eq`; none is a text that is not a version.
unfoldable pub compare_store_package_versions : String → String → Option Ordering
compare_store_package_versions left right = do
  left_parts ← parse_store_package_version left
  right_parts ← parse_store_package_version right
  some (compare_parts left_parts right_parts)
