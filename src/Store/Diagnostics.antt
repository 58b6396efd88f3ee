-- ===== src/Store/Diagnostics.antt =====
-- internal/updater/store_update_api.go, sanitizeProviderDiagnostic, and
-- internal/updater/store_packaged_inventory.go, firstNonEmpty. A cut in the middle of a character
-- leaves out the whole character.
pub mod Bounds
use Prim.Native.Char.{Char, code, len_utf8}
use Prim.Native.String.{String, len, ◌++◌}
use mathlib.Core.List.{List, [], ◌∷◌}
use patch_board.Common.{ℕ, ◌-◌, leb, ltb, if◌then◌else◌}
use patch_board.Common.{◌==◌ as num_eq}
use patch_board.Common.Text.{nonempty, is_space, trim_space}

-- `strings.ReplaceAll` of one character.
replace_char : ℕ → Char → String → String
replace_char from to String.[] = ""
replace_char from to (String.◌∷◌ c s) =
    String.◌∷◌ (if num_eq (code c) from then to else c) (replace_char from to s)

-- `strings.Fields`: the word that is being read, and the rest of the text.
fields_from : String → String → List String
fields_from word String.[] = if nonempty word then word ∷ [] else []
fields_from word (String.◌∷◌ c s) =
    let broken = (if nonempty word then word ∷ fields_from "" s else fields_from "" s) in
    let longer = fields_from (word ++ String.◌∷◌ c "") s in
    if is_space (code c) then broken else longer

fields : String → List String
unfolding fields_from
fields s = fields_from "" s

-- `strings.Join`.
unfoldable pub join : String → List String → String
join sep [] = ""
join sep (s ∷ []) = s
join sep (s ∷ t ∷ ss) = s ++ (sep ++ join sep (t ∷ ss))

-- `s[:n]`.
first_bytes : ℕ → String → String
first_bytes n String.[] = ""
first_bytes n (String.◌∷◌ c s) =
    let rest = first_bytes (n - len_utf8 c) s in
    if leb (len_utf8 c) n then String.◌∷◌ c rest else ""

shorten : String → String
unfolding first_bytes trim_space
shorten value = if ltb 220 (len value) then trim_space (first_bytes 217 value) ++ "..." else value

unfoldable pub sanitize_provider_diagnostic : String → String
unfolding replace_char fields join shorten trim_space is_space
sanitize_provider_diagnostic value =
    shorten (join " " (fields (trim_space (replace_char 10 " " (replace_char 13 " " value)))))

unfoldable pub first_non_empty : List String → String
first_non_empty [] = ""
first_non_empty (value ∷ values) =
    if nonempty (trim_space value) then trim_space value else first_non_empty values
