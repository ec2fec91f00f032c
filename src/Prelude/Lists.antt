-- ===== src/Prelude/Lists.antt =====
-- Lists measured by native numbers, predicates on lists by recursion, and a stable insertion sort.
use Prim.Native.Nat.{ℕ, suc, ◌+◌}
use mathlib.Core.Path.{◌≡◌, refl, subst}
use mathlib.Core.Logic.{◌⊎◌, inl, inr}
use mathlib.Core.Bool.{Bool, true, false, ◌&&◌, ◌||◌}
use mathlib.Core.List.{List, [], ◌∷◌, ◌++◌}
use native.Mathlib.Omega.{arith}
use mitigate_ai_platform.Prelude.Tests.{if◌then◌else◌}

module _ {ℓ} {A : Type ℓ} where
  abbrev pub length : List A → ℕ
  length [] = 0
  length (x ∷ xs) = suc (length xs)

  pub length-append : (xs ys : List A) → length (xs ++ ys) ≡ length xs + length ys
  length-append [] ys = omega arith
  length-append (x ∷ xs) ys = omega (arith, length-append xs ys)

  abbrev pub filter_by : (A → Bool) → List A → List A
  filter_by p [] = []
  filter_by p (x ∷ xs) = let rest = filter_by p xs in if p x then x ∷ rest else rest

  abbrev pub any : (A → Bool) → List A → Bool
  any p [] = false
  any p (x ∷ xs) = p x || any p xs

  abbrev pub all : (A → Bool) → List A → Bool
  all p [] = true
  all p (x ∷ xs) = p x && all p xs

  -- Every element has the property.
  abbrev pub All {κ} : (A → Type κ) → List A → Type κ
  All P [] = Unit
  All P (x ∷ xs) = P x × All P xs

  -- Python's `sorted`, which is stable: `before x y` says that `x` must stand in front of `y`.
  unfoldable pub insert_by : (A → A → Bool) → A → List A → List A
  insert_by before a [] = a ∷ []
  insert_by before a (x ∷ xs) =
      let rest = insert_by before a xs in if before x a then x ∷ rest else a ∷ x ∷ xs

  unfoldable pub sort_by : (A → A → Bool) → List A → List A
  unfolding insert_by
  sort_by before [] = []
  sort_by before (x ∷ xs) = insert_by before x (sort_by before xs)

-- `Elem a xs`: `a` stands in the list `xs`.
abbrev pub Elem : {A : Type 0} → A → List A → Type 0
Elem a [] = ⊥
Elem a (x ∷ xs) = (x ≡ a) ⊎ Elem a xs

pub All-mono :
    {A : Type 0} (P Q : A → Type 0) → ((a : A) → P a → Q a) → (xs : List A) → All P xs → All Q xs
All-mono P Q f [] h = tt
All-mono P Q f (x ∷ xs) h = (f x h.0, All-mono P Q f xs h.1)

-- What a filter lets through passes its test.
pub All-filter_by_self :
    {A : Type 0} (p : A → Bool) (xs : List A) → All (λ x. p x ≡ true) (filter_by p xs)
All-filter_by_self p [] = tt
All-filter_by_self {A} p (x ∷ xs) = keep (p x) refl (All-filter_by_self p xs)
  where
    keep :
        (b : Bool)
        → p x ≡ b
        → All (λ y. p y ≡ true) (filter_by p xs)
        → All (λ (y : A). p y ≡ true) (if b then x ∷ filter_by p xs else filter_by p xs)
    keep true e rest = (e, rest)
    keep false e rest = rest

module _ {A : Type 0} (P : A → Type 0) where
  pub All-Elem : {a : A} (xs : List A) → All P xs → Elem a xs → P a
  All-Elem [] h e = absurd e
  All-Elem (x ∷ xs) h (inl e) = subst P e h.0
  All-Elem (x ∷ xs) h (inr e) = All-Elem xs h.1 e

  pub All-append : (xs ys : List A) → All P xs → All P ys → All P (xs ++ ys)
  All-append [] ys hx hy = hy
  All-append (x ∷ xs) ys hx hy = (hx.0, All-append xs ys hx.1 hy)

  pub All-filter_by : (p : A → Bool) (xs : List A) → All P xs → All P (filter_by p xs)
  All-filter_by p [] h = tt
  All-filter_by p (x ∷ xs) h = keep (p x) (All-filter_by p xs h.1)
    where
      keep :
          (b : Bool)
          → All P (filter_by p xs)
          → All P (if b then x ∷ filter_by p xs else filter_by p xs)
      keep true rest = (h.0, rest)
      keep false rest = rest

  pub All-insert_by :
      (before : A → A → Bool) (a : A) (xs : List A) → P a → All P xs → All P (insert_by before a xs)
  unfolding insert_by
  All-insert_by before a [] ha h = (ha, tt)
  All-insert_by before a (x ∷ xs) ha h = place (before x a) (All-insert_by before a xs ha h.1)
    where
      place :
          (b : Bool)
          → All P (insert_by before a xs)
          → All P (if b then x ∷ insert_by before a xs else a ∷ x ∷ xs)
      place true rest = (h.0, rest)
      place false rest = (ha, (h.0, h.1))

  pub All-sort_by : (before : A → A → Bool) (xs : List A) → All P xs → All P (sort_by before xs)
  unfolding sort_by
  All-sort_by before [] h = tt
  All-sort_by before (x ∷ xs) h =
      All-insert_by before x (sort_by before xs) h.0 (All-sort_by before xs h.1)
