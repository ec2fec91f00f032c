-- ===== src/MissionQueue/File/Sorting.antt =====
-- Sorting a dictionary of missions by any order keeps its entries.
use mitigate_ai_platform.Prelude.{
  String, Bool, false, ◌||◌, some, List, [], ◌∷◌, ◌≡◌, ◌∙◌, refl, arith, ◌==◌, eq_iff, contains,
  if◌then◌else◌, insert_by, sort_by,
}
use mitigate_ai_platform.MissionQueue.Mission.{Mission, ids, find, Distinct}

module _ (before : Mission → Mission → Bool) where
  contains-insert_by :
      (u : String) (m : Mission) (ms : List Mission)
      → contains u (ids (insert_by before m ms)) ≡ (m.id == u || contains u (ids ms))
  unfolding contains insert_by
  contains-insert_by u m [] = refl
  contains-insert_by u m (x ∷ xs) = ground (arith, contains-insert_by u m xs)

  pub contains-sort_by :
      (u : String) (ms : List Mission) → contains u (ids (sort_by before ms)) ≡ contains u (ids ms)
  unfolding contains sort_by
  contains-sort_by u [] = refl
  contains-sort_by u (x ∷ xs) =
      ground (arith, contains-insert_by u x (sort_by before xs), contains-sort_by u xs)

  Distinct-insert_by :
      (m : Mission) (ms : List Mission)
      → contains m.id (ids ms) ≡ false
      → Distinct ms
      → Distinct (insert_by before m ms)
  unfolding contains insert_by
  Distinct-insert_by m [] fresh d = (refl, tt)
  Distinct-insert_by m (x ∷ xs) fresh d = ground (
    arith,
    Distinct-insert_by m xs,
    contains-insert_by x.id m xs,
    eq_iff x.id m.id,
    eq_iff m.id x.id,
  )

  pub Distinct-sort_by : (ms : List Mission) → Distinct ms → Distinct (sort_by before ms)
  unfolding sort_by
  Distinct-sort_by [] d = tt
  Distinct-sort_by (x ∷ xs) d =
      Distinct-insert_by x (sort_by before xs) (contains-sort_by x.id xs ∙ d.0)
        (Distinct-sort_by xs d.1)

  find-insert_by :
      (u : String) (m : Mission) (ms : List Mission)
      → contains m.id (ids ms) ≡ false
      → find u (insert_by before m ms) ≡ (if m.id == u then some m else find u ms)
  unfolding contains find insert_by
  find-insert_by u m [] fresh = refl
  find-insert_by u m (x ∷ xs) fresh =
      ground (arith, find-insert_by u m xs, eq_iff x.id m.id, eq_iff x.id u, eq_iff m.id u)

  pub find-sort_by :
      (u : String) (ms : List Mission) → Distinct ms → find u (sort_by before ms) ≡ find u ms
  unfolding find sort_by
  find-sort_by u [] d = refl
  find-sort_by u (x ∷ xs) d =
      ground
        (arith, find-insert_by u x (sort_by before xs), contains-sort_by x.id xs, find-sort_by u xs)
