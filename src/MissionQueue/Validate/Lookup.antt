-- ===== src/MissionQueue/Validate/Lookup.antt =====
-- The dictionary of missions: what its keys and its entries have to do with one another.
use mitigate_ai_platform.Prelude.{
  String, Bool, Bool-cases, inl, inr, true, false, ◌||◌, some, none, List, [], ◌∷◌, ◌≡◌, refl,
  subst, arith, ◌==◌, eq_iff, contains, if◌then◌else◌, All,
}
use mitigate_ai_platform.MissionQueue.Mission.{Mission, ids, find, put, remove, Distinct}

pub contains_of_find :
    (u : String) (ms : List Mission) {m : Mission} → find u ms ≡ some m → contains u (ids ms) ≡ true
unfolding find contains
contains_of_find u [] h = cc
contains_of_find u (x ∷ xs) {m} h = ground (arith, contains_of_find u xs {m = m})

pub id_of_find : (u : String) (ms : List Mission) {m : Mission} → find u ms ≡ some m → m.id ≡ u
unfolding find
id_of_find u [] h = cc
id_of_find u (x ∷ xs) {m} h = ground (arith, id_of_find u xs {m = m}, eq_iff x.id u)

pub find_of_contains :
    (u : String) (ms : List Mission)
    → contains u (ids ms) ≡ true
    → (m : Mission) × (find u ms ≡ some m)
unfolding find contains
find_of_contains u [] h = cc
find_of_contains u (x ∷ xs) h = elim (Bool-cases (x.id == u)) [
  | inl same ↦ (x, rw same)
  | inr other ↦ let (m, e) = find_of_contains u xs (ground (arith, other)) in (m, rw other e)
]

pub find-none : (u : String) (ms : List Mission) → contains u (ids ms) ≡ false → find u ms ≡ none
unfolding find contains
find-none u [] h = refl
find-none u (x ∷ xs) h = ground (arith, find-none u xs)

pub find-put :
    (u : String) (m : Mission) (ms : List Mission)
    → find u (put m ms) ≡ (if m.id == u then some m else find u ms)
unfolding find put
find-put u m [] = refl
find-put u m (x ∷ xs) =
    ground (arith, find-put u m xs, eq_iff x.id m.id, eq_iff x.id u, eq_iff m.id u)

pub contains-put :
    (u : String) (m : Mission) (ms : List Mission)
    → contains u (ids (put m ms)) ≡ (m.id == u || contains u (ids ms))
unfolding contains put
contains-put u m [] = refl
contains-put u m (x ∷ xs) =
    ground (arith, contains-put u m xs, eq_iff x.id m.id, eq_iff x.id u, eq_iff m.id u)

pub Distinct-put : (m : Mission) (ms : List Mission) → Distinct ms → Distinct (put m ms)
unfolding put contains
Distinct-put m [] h = (refl, tt)
Distinct-put m (x ∷ xs) h =
    ground
      (arith, Distinct-put m xs h.1, contains-put x.id m xs, eq_iff x.id m.id, eq_iff m.id x.id)

pub contains-remove :
    (u v : String) (ms : List Mission)
    → contains v (ids (remove u ms)) ≡ true
    → contains v (ids ms) ≡ true
unfolding contains remove
contains-remove u v [] h = h
contains-remove u v (x ∷ xs) h = ground (arith, contains-remove u v xs)

pub Distinct-remove : (u : String) (ms : List Mission) → Distinct ms → Distinct (remove u ms)
unfolding remove contains
Distinct-remove u [] h = tt
Distinct-remove u (x ∷ xs) h = ground (arith, Distinct-remove u xs h.1, contains-remove u x.id xs)

-- An entry behind a mission with another key.
pub find_later :
    (u : String) (x : Mission) (xs : List Mission) {m : Mission}
    → contains x.id (ids xs) ≡ false
    → find u xs ≡ some m
    → find u (x ∷ xs) ≡ some m
unfolding find
find_later u x xs {m} fresh h = ground (arith, contains_of_find u xs h, eq_iff x.id u)

-- A property of all missions, under the operations of the dictionary.
pub All-find :
    (P : Mission → Type 0) (u : String) (ms : List Mission) {m : Mission}
    → All P ms
    → find u ms ≡ some m
    → P m
unfolding find
All-find P u [] h e = cc
All-find P u (x ∷ xs) {m} h e = elim (Bool-cases (x.id == u)) [
  | inl same ↦ let e' : some x ≡ some m = rw same at e in subst P (cc) h.0
  | inr other ↦ All-find P u xs h.1 (rw other at e)
]

pub All-put :
    (P : Mission → Type 0) (m : Mission) (ms : List Mission) → P m → All P ms → All P (put m ms)
unfolding put
All-put P m [] hm h = (hm, tt)
All-put P m (x ∷ xs) hm h = go (x.id == m.id) (All-put P m xs hm h.1)
  where
    go : (b : Bool) → All P (put m xs) → All P (if b then m ∷ xs else x ∷ put m xs)
    go true rest = (hm, h.1)
    go false rest = (h.0, rest)

pub All-remove :
    (P : Mission → Type 0) (u : String) (ms : List Mission) → All P ms → All P (remove u ms)
unfolding remove
All-remove P u [] h = tt
All-remove P u (x ∷ xs) h = go (x.id == u) (All-remove P u xs h.1)
  where
    go : (b : Bool) → All P (remove u xs) → All P (if b then xs else x ∷ remove u xs)
    go true rest = h.1
    go false rest = (h.0, rest)
