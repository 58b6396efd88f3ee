-- ===== src/Common/Dict.antt =====
-- Go's `map[string]V` as an association list without repeated keys. The order is that of insertion;
-- Go's own iteration order is unspecified.
use Prim.Native.Nat.{◌≤◌}
use Prim.Native.String.{String}
use mathlib.Core.Path.{◌≡◌, refl}
use mathlib.Core.Logic.{inl, inr, ◌≢◌}
use mathlib.Core.Bool.{Bool, true, false, ◌||◌}
use mathlib.Core.Option.{Option, none, some}
use mathlib.Core.List.{List, [], ◌∷◌, map, Memᴰ}
use native.Mathlib.Omega.{arith}
use text.Mathlib.TextEquality.{eq_iff}
use text.Mathlib.TextPositions.{eq_refl}
use patch_board.Common.Tests.{if◌then◌else◌, Bool-cases}
use patch_board.Common.Lists.{length}
use patch_board.Common.Text.{str_eq}

abbrev pub Dict : Type 0 → Type 0
Dict V = List (String × V)

-- A `map[string]bool` that is only ever set to true.
unfoldable pub contains : String → List String → Bool
contains k [] = false
contains k (j ∷ ks) = str_eq j k || contains k ks

-- No key is listed twice.
abbrev pub Distinct : List String → Type 0
Distinct [] = Unit
Distinct (k ∷ ks) = (contains k ks ≡ false) × Distinct ks

unfoldable pub add : String → List String → List String
unfolding contains
add k ks = if contains k ks then ks else k ∷ ks

pub contains-add :
    (k j : String) (ks : List String) → contains j (add k ks) ≡ (str_eq k j || contains j ks)
unfolding add
contains-add k j ks = elim (Bool-cases (contains k ks)) [
  | inl t ↦
      rw t (elim (Bool-cases (str_eq k j)) [ inl e ↦ rw (e, ← (eq_iff k j).0 e) t | inr f ↦ rw f ])
  | inr f ↦ rw f
]

pub contains_of_mem : (k : String) (ks : List String) → Memᴰ k ks → contains k ks ≡ true
unfolding contains
contains_of_mem k [] m = elim m [ ]
contains_of_mem k (j ∷ ks) (Memᴰ.head e) = rw (e, eq_refl j)
contains_of_mem k (j ∷ ks) (Memᴰ.tail m) = ground (arith, contains_of_mem k ks m)

module _ {V : Type 0} where
  unfoldable pub lookup : String → Dict V → Option V
  lookup wanted [] = none
  lookup wanted ((key, value) ∷ rest) = if str_eq key wanted then some value else lookup wanted rest

  unfoldable pub insert : String → V → Dict V → Dict V
  insert new value [] = (new, value) ∷ []
  insert new value ((key, old) ∷ rest) =
      if str_eq key new then (new, value) ∷ rest else (key, old) ∷ insert new value rest

  abbrev pub keys : Dict V → List String
  keys m = map (λ (e : String × V). e.0) m

  pub lookup-insert :
      (new wanted : String) (value : V) (entries : Dict V)
      → lookup wanted (insert new value entries)
        ≡ (if str_eq new wanted then some value else lookup wanted entries)
  unfolding lookup insert
  lookup-insert new wanted value [] = refl
  lookup-insert new wanted value ((key, old) ∷ rest) = ground (
    arith,
    eq_iff new wanted,
    eq_iff key new,
    eq_iff key wanted,
    lookup-insert new wanted value rest,
  )

  -- A property of every value that is kept.
  abbrev pub AllValues : (V → Type 0) → Dict V → Type 0
  AllValues P [] = Unit
  AllValues P ((k, v) ∷ m) = P v × AllValues P m

  pub AllValues-insert :
      (P : V → Type 0) (k : String) (v : V) (m : Dict V)
      → P v
      → AllValues P m
      → AllValues P (insert k v m)
  unfolding insert
  AllValues-insert P k v [] p h = (p, tt)
  AllValues-insert P k v ((j, w) ∷ m) p (q, h) = elim (Bool-cases (str_eq j k)) [
    | inl t ↦ rw t (p, h)
    | inr f ↦ rw f (q, AllValues-insert P k v m p h)
  ]

  -- A key that is listed has a value, and the value has the property.
  pub lookup_of_mem :
      (P : V → Type 0) (k : String) (m : Dict V)
      → AllValues P m
      → Memᴰ k (keys m)
      → (v : V) × (lookup k m ≡ some v) × P v
  unfolding lookup
  lookup_of_mem P k [] h mem = elim mem [ ]
  lookup_of_mem P k ((j, w) ∷ m) (p, h) (Memᴰ.head e) = (w, rw (e, eq_refl j), p)
  lookup_of_mem P k ((j, w) ∷ m) (p, h) (Memᴰ.tail mem) = elim (Bool-cases (str_eq j k)) [
    | inl t ↦ (w, rw t, p)
    | inr f ↦ let (v, found, q) = lookup_of_mem P k m h mem in (v, rw f found, q)
  ]

  pub lookup_AllValues :
      (P : V → Type 0) (k : String) (m : Dict V) {v : V} → AllValues P m → lookup k m ≡ some v → P v
  unfolding lookup
  lookup_AllValues P k [] h e = cc
  lookup_AllValues P k ((j, w) ∷ m) {v} (p, h) e = elim (Bool-cases (str_eq j k)) [
    | inl t ↦ rw (← some_inj (rw t at e)) p
    | inr f ↦ lookup_AllValues P k m h (rw f at e)
  ]
    where
      some_inj : Option.some w ≡ some v → w ≡ v
      some_inj q = cc

  -- With one key at most, any two keys that were looked up with success are the same.
  pub one_key :
      (j k : String) (m : Dict V) {v w : V}
      → length m ≤ 1
      → lookup j m ≡ some v
      → lookup k m ≡ some w
      → j ≡ k
  unfolding lookup
  one_key j k [] h p q = cc
  one_key j k ((i, u) ∷ []) h p q = ground (arith, eq_iff i j, eq_iff i k)
  one_key j k (a ∷ b ∷ m) h p q = absurd (omega arith)

  pub insert-ne-nil : (k : String) (v : V) (m : Dict V) → insert k v m ≢ []
  unfolding insert
  insert-ne-nil k v [] = cc
  insert-ne-nil k v ((j, w) ∷ m) = ground arith
