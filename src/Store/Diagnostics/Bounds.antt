-- ===== src/Store/Diagnostics/Bounds.antt =====
-- How long a diagnostic can get.
use Prim.Native.Char.{Char, len_utf8}
use Prim.Native.String.{String, len}
use Prim.Native.String.len as len_clauses
use mathlib.Core.Path.{◌≡◌, refl}
use text.Mathlib.TextPositions.{len-append}
use patch_board.Common.{inl, inr, Bool-cases, leb→le, ℕ, ◌+◌, ◌-◌, ◌≤◌, leb, ltb, arith}
use patch_board.Common.Text.{trim_left, trim_right, trim_space}
use patch_board.Store.Diagnostics.{
  first_bytes, sanitize_provider_diagnostic, shorten, join, fields, replace_char,
}

len_nil : len "" ≡ 0
len_nil = refl

len_cons : (c : Char) (s : String) → len (String.◌∷◌ c s) ≡ len_utf8 c + len s
len_cons c s = len_clauses.cons c s

len-first_bytes : (n : ℕ) (s : String) → len (first_bytes n s) ≤ n
unfolding first_bytes
len-first_bytes n String.[] = omega (arith, len_nil)
len-first_bytes n (String.◌∷◌ c s) = elim (Bool-cases (leb (len_utf8 c) n)) [
  | inl t ↦ rw t (
      rw (len_cons c (first_bytes (n - len_utf8 c) s))
        (omega (arith, leb→le (len_utf8 c) n t, len-first_bytes (n - len_utf8 c) s)))
  | inr f ↦ rw f (omega (arith, len_nil))
]

len-trim_left : (s : String) → len (trim_left s) ≤ len s
unfolding trim_left
len-trim_left String.[] = omega arith
len-trim_left (String.◌∷◌ c s) = ground (arith, len-trim_left s, len_cons c s)

len-trim_right : (s : String) → len (trim_right s) ≤ len s
unfolding trim_right
len-trim_right String.[] = omega arith
len-trim_right (String.◌∷◌ c s) =
    ground (arith, len-trim_right s, len_nil, len_cons c s, len_cons c (trim_right s))

len-trim_space : (s : String) → len (trim_space s) ≤ len s
unfolding trim_space
len-trim_space s = omega (arith, len-trim_left s, len-trim_right (trim_left s))

len-shorten : (value : String) → len (shorten value) ≤ 220
unfolding shorten
len-shorten value = elim (Bool-cases (ltb 220 (len value))) [
  | inl t ↦ rw t (
      rw (len-append (trim_space (first_bytes 217 value)) "...")
        (omega (arith, len-trim_space (first_bytes 217 value), len-first_bytes 217 value)))
  | inr f ↦ rw f (ground (arith, f))
]

-- A diagnostic is at most 220 bytes long, whatever the text that it was made from.
pub len-sanitize_provider_diagnostic :
    (value : String) → len (sanitize_provider_diagnostic value) ≤ 220
unfolding sanitize_provider_diagnostic
len-sanitize_provider_diagnostic value =
    len-shorten (join " " (fields (trim_space (replace_char 10 " " (replace_char 13 " " value)))))
