-- ===== src/Checkpoints/Sequences.antt =====
-- The greatest of a list of sequences, for agent/runtime/checkpoint_store.py.
use mitigate_ai_platform.Prelude.{
  ℕ, ◌≤◌, Bool, true, false, Option, none, some, List, [], ◌∷◌, eqb, ltb, any, sort_by,
  if◌then◌else◌, All, All-Elem, All-sort_by, Elem, Elem-sort_by, IsStrict, IsSorted,
  sort_by-IsSorted, Bool-cases, inl, inr, ◌≡◌, ap, subst, arith,
}
use mitigate_ai_platform.Checkpoints.{distinct_numbers}

abbrev last_or : ℕ → List ℕ → ℕ
last_or n [] = n
last_or n (m ∷ ms) = last_or m ms

-- `ns[-1]`, if there is one.
abbrev pub last_of : List ℕ → Option ℕ
last_of [] = none
last_of (n ∷ ns) = some (last_or n ns)

ltb-IsStrict : IsStrict ltb
ltb-IsStrict = record { asym = λ a b h. ground (arith, h); cotrans = λ a b c h. ground (arith, h) }

last-ge : (n : ℕ) (ns : List ℕ) → IsSorted ltb (n ∷ ns) → All (λ m. m ≤ last_or n ns) (n ∷ ns)
last-ge n [] h = (omega arith, tt)
last-ge n (m ∷ ms) (above, rest) =
    let again = last-ge m ms rest in
    let first = again.0 in let le = above.0 in (ground (arith, first, le), again)

last-All : (P : ℕ → Type 0) (n : ℕ) (ns : List ℕ) → All P (n ∷ ns) → P (last_or n ns)
last-All P n [] h = h.0
last-All P n (m ∷ ms) h = last-All P m ms h.1

All-distinct_numbers : (P : ℕ → Type 0) (ns : List ℕ) → All P ns → All P (distinct_numbers ns)
All-distinct_numbers P [] h = tt
All-distinct_numbers P (n ∷ ns) h =
    keep (any (λ m. eqb m n) (distinct_numbers ns)) (All-distinct_numbers P ns h.1)
  where
    keep :
        (b : Bool)
        → All P (distinct_numbers ns)
        → All P (if b then distinct_numbers ns else n ∷ distinct_numbers ns)
    keep true rest = rest
    keep false rest = (h.0, rest)

any-Elem : (n : ℕ) (ns : List ℕ) → any (λ m. eqb m n) ns ≡ true → Elem n ns
any-Elem n [] h = cc
any-Elem n (m ∷ ms) h = elim (Bool-cases (eqb m n)) [
  | inl same ↦ inl (ground (arith, same))
  | inr other ↦ inr (any-Elem n ms (rw other at h))
]

Elem-distinct_numbers : (y : ℕ) (ns : List ℕ) → Elem y ns → Elem y (distinct_numbers ns)
Elem-distinct_numbers y [] h = h
Elem-distinct_numbers y (n ∷ ns) h = elim (Bool-cases (any (λ m. eqb m n) (distinct_numbers ns))) [
  | inl old ↦ rw old (elim h [
    | inl e ↦ subst (λ z. Elem z (distinct_numbers ns)) e (any-Elem n (distinct_numbers ns) old)
    | inr k ↦ Elem-distinct_numbers y ns k
  ])
  | inr new ↦ rw new (elim h [ inl e ↦ inl e | inr k ↦ inr (Elem-distinct_numbers y ns k) ])
]

-- The last of the sorted numbers is the greatest.
pub last_of-sort_by :
    (g : ℕ) (ns : List ℕ)
    → Elem g ns
    → All (λ m. m ≤ g) ns
    → last_of (sort_by ltb (distinct_numbers ns)) ≡ some g
last_of-sort_by g ns m h =
    greatest (sort_by ltb (distinct_numbers ns))
      (sort_by-IsSorted ltb ltb-IsStrict (distinct_numbers ns))
      (Elem-sort_by ltb g (distinct_numbers ns) (Elem-distinct_numbers g ns m))
      (All-sort_by (λ m. m ≤ g) ltb (distinct_numbers ns) (All-distinct_numbers (λ m. m ≤ g) ns h))
  where
    greatest :
        (xs : List ℕ) → IsSorted ltb xs → Elem g xs → All (λ m. m ≤ g) xs → last_of xs ≡ some g
    greatest [] s e a = absurd e
    greatest (x ∷ xs) s e a =
        let up = All-Elem (λ m. m ≤ last_or x xs) (x ∷ xs) (last-ge x xs s) e in
        let down = last-All (λ m. m ≤ g) x xs a in
        let same : last_or x xs ≡ g = omega arith in ap some same
