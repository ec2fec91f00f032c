-- ===== src/Prelude/Sorting.antt =====
-- Sorting by a strict order: `sort_by` puts the elements in order and loses none.
use mathlib.Core.Path.{◌≡◌, refl, sym, ap, ◌∙◌}
use mathlib.Core.Logic.{◌⊎◌, inl, inr}
use mathlib.Core.Bool.{Bool, true, false, ◌&&◌, ◌||◌, false≢true}
use mathlib.Core.List.{List, [], ◌∷◌}
use native.Mathlib.Omega.{arith}
use mitigate_ai_platform.Prelude.Tests.{if◌then◌else◌}
use mitigate_ai_platform.Prelude.Lists.{
  All, All-mono, All-insert_by, Elem, filter_by, insert_by, sort_by,
}

-- A strict order in which two elements that are not ordered have the same place.
pub record IsStrict {A : Type 0} (before : A → A → Bool) : Type 0 where
  pub asym : (a b : A) → before a b ≡ true → before b a ≡ false
  pub cotrans : (a b c : A) → before a c ≡ true → (before a b || before b c) ≡ true

-- One order, and where its places are equal, another.
pub lex_cotrans :
    {A : Type 0} (l e r : A → A → Bool)
    → ((a b c : A) → l a c ≡ true → (l a b || l b c) ≡ true)
    → ((a b c : A) → e a c ≡ true → ((e a b && e b c) || (l a b || l b c)) ≡ true)
    → ((a b c : A) → r a c ≡ true → (r a b || r b c) ≡ true)
    → (a b c : A) → (l a c || (e a c && r a c)) ≡ true
    → ((l a b || (e a b && r a b)) || (l b c || (e b c && r b c))) ≡ true
lex_cotrans l e r hl he hr a b c h = go (l a c) (e a c) (r a c) (hl a b c) (he a b c) (hr a b c) h
  where
    go :
        (x y z : Bool)
        → (x ≡ true → (l a b || l b c) ≡ true)
        → (y ≡ true → ((e a b && e b c) || (l a b || l b c)) ≡ true)
        → (z ≡ true → (r a b || r b c) ≡ true)
        → (x || (y && z)) ≡ true
        → ((l a b || (e a b && r a b)) || (l b c || (e b c && r b c))) ≡ true
    go true y z hx hy hz k = let fact = hx refl in ground (arith, fact)
    go false true true hx hy hz k =
        let fact = hy refl in let rest = hz refl in ground (arith, fact, rest)
    go false true false hx hy hz k = cc
    go false false z hx hy hz k = cc

module _ {A : Type 0} (before : A → A → Bool) where
  -- No element stands in front of a smaller one.
  abbrev pub IsSorted : List A → Type 0
  IsSorted [] = Unit
  IsSorted (x ∷ xs) = All (λ y. before y x ≡ false) xs × IsSorted xs

  module _ (strict : IsStrict before) where
    insert_by-IsSorted : (a : A) (xs : List A) → IsSorted xs → IsSorted (insert_by before a xs)
    unfolding insert_by
    insert_by-IsSorted a [] s = (tt, tt)
    insert_by-IsSorted a (x ∷ xs) s = place (before x a) refl (insert_by-IsSorted a xs s.1)
      where
        later : before x a ≡ false → (y : A) → before y x ≡ false → before y a ≡ false
        later h y k = ground (arith, strict.cotrans y x a)

        place :
            (b : Bool)
            → before x a ≡ b
            → IsSorted (insert_by before a xs)
            → IsSorted (if b then x ∷ insert_by before a xs else a ∷ x ∷ xs)
        place true h rest =
            (All-insert_by (λ y. before y x ≡ false) before a xs (strict.asym x a h) s.0, rest)
        place false h rest =
            ((h, All-mono (λ y. before y x ≡ false) (λ y. before y a ≡ false) (later h) xs s.0), s)

    pub sort_by-IsSorted : (xs : List A) → IsSorted (sort_by before xs)
    unfolding sort_by
    sort_by-IsSorted [] = tt
    sort_by-IsSorted (x ∷ xs) = insert_by-IsSorted x (sort_by before xs) (sort_by-IsSorted xs)

  pub Elem-insert_by :
      (a y : A) (xs : List A) → (a ≡ y) ⊎ Elem y xs → Elem y (insert_by before a xs)
  unfolding insert_by
  Elem-insert_by a y [] h = h
  Elem-insert_by a y (x ∷ xs) h = place (before x a) (Elem-insert_by a y xs) h
    where
      place :
          (b : Bool)
          → ((a ≡ y) ⊎ Elem y xs → Elem y (insert_by before a xs))
          → (a ≡ y) ⊎ ((x ≡ y) ⊎ Elem y xs)
          → Elem y (if b then x ∷ insert_by before a xs else a ∷ x ∷ xs)
      place true rest (inl e) = inr (rest (inl e))
      place true rest (inr (inl e)) = inl e
      place true rest (inr (inr m)) = inr (rest (inr m))
      place false rest e = e

  pub Elem-sort_by : (y : A) (xs : List A) → Elem y xs → Elem y (sort_by before xs)
  unfolding sort_by
  Elem-sort_by y [] h = h
  Elem-sort_by y (x ∷ xs) (inl e) = Elem-insert_by x y (sort_by before xs) (inl e)
  Elem-sort_by y (x ∷ xs) (inr m) =
      Elem-insert_by x y (sort_by before xs) (inr (Elem-sort_by y xs m))

-- What passes the test of a filter is let through.
pub Elem-filter_by :
    {A : Type 0} (p : A → Bool) (y : A) (xs : List A)
    → Elem y xs
    → p y ≡ true
    → Elem y (filter_by p xs)
Elem-filter_by p y [] h e = h
Elem-filter_by {A} p y (x ∷ xs) h e = place (p x) refl h (λ m. Elem-filter_by p y xs m e)
  where
    place :
        (b : Bool)
        → p x ≡ b
        → (x ≡ y) ⊎ Elem y xs
        → (Elem y xs → Elem y (filter_by p xs))
        → Elem y (if b then x ∷ filter_by p xs else filter_by p xs)
    place true k (inl same) rest = inl same
    place true k (inr m) rest = inr (rest m)
    place false k (inl same) rest = absurd (false≢true (sym k ∙ ap p same ∙ e))
    place false k (inr m) rest = rest m
