-- ===== src/Prelude/Texts.antt =====
-- Python's `str`: order and equality of texts, membership in a list of texts, `strip`.
use Prim.Native.Nat.{ℕ, zero, suc}
use Prim.Native.Char.{code}
use Prim.Native.String.compare
use Prim.Native.String.{String, compare}
use text.Mathlib.TextPositions.{compare_refl}
use mathlib.Core.Bool.{Bool, true, false, ◌&&◌, ◌||◌}
use mathlib.Core.List.{List, [], ◌∷◌}
use text.Mathlib.Text.{◌==◌, is_lt}
use mitigate_ai_platform.Prelude.Tests.{leb, eqb, if◌then◌else◌, Bool-cases}
use mitigate_ai_platform.Prelude.Lists.{filter_by, insert_by, sort_by}
use native.Mathlib.Omega.{arith}
use mathlib.Core.Path.{◌≡◌, refl, ap}
use mathlib.Core.Logic.{inl, inr}
use text.Mathlib.TextEquality.{eq_iff}

-- `a < b` on texts, by code points.
abbrev pub str_lt : String → String → Bool
str_lt s t = is_lt (compare s t)

-- `x in xs` for a list, a tuple or a set of texts.
unfoldable pub contains : String → List String → Bool
contains x [] = false
contains x (y ∷ ys) = y == x || contains x ys

-- `str.isspace` of one character.
unfoldable pub is_space : ℕ → Bool
is_space c =
    (leb 9 c && leb c 13)
    || (leb 28 c && leb c 32)
    || eqb c 0x85
    || eqb c 0xa0
    || eqb c 0x1680
    || (leb 0x2000 c && leb c 0x200a)
    || eqb c 0x2028
    || eqb c 0x2029
    || eqb c 0x202f
    || eqb c 0x205f
    || eqb c 0x3000

unfoldable pub lstrip : String → String
lstrip String.[] = String.[]
lstrip (String.◌∷◌ c s) = let rest = lstrip s in if is_space (code c) then rest else String.◌∷◌ c s

unfoldable pub is_empty : String → Bool
is_empty String.[] = true
is_empty (String.◌∷◌ c s) = false

unfoldable pub rstrip : String → String
rstrip String.[] = String.[]
rstrip (String.◌∷◌ c s) =
    let rest = rstrip s in
    if is_empty rest && is_space (code c) then String.[] else String.◌∷◌ c rest

unfoldable pub strip : String → String
unfolding lstrip rstrip is_empty is_space
strip s = rstrip (lstrip s)

-- Whether a text has a character, by its code.
unfoldable pub has_char : ℕ → String → Bool
has_char k String.[] = false
has_char k (String.◌∷◌ c s) = eqb (code c) k || has_char k s

-- `s[:n]`
unfoldable pub prefix : ℕ → String → String
prefix zero s = String.[]
prefix (suc n) String.[] = String.[]
prefix (suc n) (String.◌∷◌ c s) = String.◌∷◌ c (prefix n s)

pub contains-insert_by :
    (before : String → String → Bool) (x a : String) (ys : List String)
    → contains x (insert_by before a ys) ≡ (a == x || contains x ys)
unfolding contains insert_by
contains-insert_by before x a [] = ground arith
contains-insert_by before x a (y ∷ ys) = ground (arith, contains-insert_by before x a ys)

-- Sorting keeps the elements.
pub contains-sort_by :
    (before : String → String → Bool) (x : String) (ys : List String)
    → contains x (sort_by before ys) ≡ contains x ys
unfolding contains sort_by
contains-sort_by before x [] = refl
contains-sort_by before x (y ∷ ys) =
    ground (arith, contains-insert_by before x y (sort_by before ys), contains-sort_by before x ys)

pub contains-filter_by :
    (p : String → Bool) (x : String) (ys : List String)
    → contains x (filter_by p ys) ≡ (contains x ys && p x)
unfolding contains
contains-filter_by p x [] = refl
contains-filter_by p x (y ∷ ys) = elim (Bool-cases (y == x)) [
  | inl same ↦
      let e : y ≡ x = (eq_iff y x).0 same in ground (arith, contains-filter_by p x ys, ap p e)
  | inr other ↦ ground (arith, contains-filter_by p x ys)
]

-- The order of texts is cotransitive: what stands between two ordered texts is apart from one.
pub str_lt_cotrans : (s t u : String) → str_lt s u ≡ true → (str_lt s t || str_lt t u) ≡ true
str_lt_cotrans String.[] String.[] u h = h
str_lt_cotrans String.[] (String.◌∷◌ d t) u h = ground (arith, compare.nil-cons d t)
str_lt_cotrans (String.◌∷◌ c s) t String.[] h = ground (arith, compare.cons-nil c s)
str_lt_cotrans (String.◌∷◌ c s) String.[] (String.◌∷◌ e u) h =
    ground (arith, compare.nil-cons e u, compare.cons-nil c s)
str_lt_cotrans (String.◌∷◌ c s) (String.◌∷◌ d t) (String.◌∷◌ e u) h = ground (
  arith,
  compare.cons-cons c e s u,
  compare.cons-cons c d s t,
  compare.cons-cons d e t u,
  str_lt_cotrans s t u,
)

pub str_lt_irrefl : (s : String) → str_lt s s ≡ false
str_lt_irrefl s = rw (compare_refl s)

pub str_lt_asym : (s t : String) → str_lt s t ≡ true → str_lt t s ≡ false
str_lt_asym String.[] String.[] h = cc
str_lt_asym String.[] (String.◌∷◌ d t) h = ground (arith, compare.cons-nil d t)
str_lt_asym (String.◌∷◌ c s) String.[] h = ground (arith, compare.cons-nil c s)
str_lt_asym (String.◌∷◌ c s) (String.◌∷◌ d t) h =
    ground (arith, compare.cons-cons c d s t, compare.cons-cons d c t s, str_lt_asym s t)
