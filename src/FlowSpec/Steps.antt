-- ===== src/FlowSpec/Steps.antt =====
-- The steps of a specification by id, their dependencies and dependents, for `topological_steps`
-- (agent/runtime/flowspec.py).
use mitigate_ai_platform.Prelude.{
  ℕ, suc, String, Bool, true, false, ◌&&◌, Option, none, some, List, [], ◌∷◌, ◌==◌, eq_iff,
  contains, filter_by, length, pos, eq_ℤ, All, Elem, ◌≡◌, ◌∙◌, refl, sym, ap, subst, arith,
  Bool-cases, inl, inr, contains-filter_by,
}
use mathlib.Core.Bool.{false≢true}
use mitigate_ai_platform.FlowSpec.{FlowStep, step_ids, later, step_by_id, entries, all_distinct}
use mitigate_ai_platform.FlowSpec.Fuel.{entries-contains, contains-entries}
use mitigate_ai_platform.FlowSpec.Release.{all_distinct-cons}
use mitigate_ai_platform.FlowSpec.Order.{remaining}

pub contains-remaining :
    (done ds : List String) → remaining done ds ≡ 0 → All (λ d. contains d done ≡ true) ds
unfolding remaining
contains-remaining done [] h = tt
contains-remaining done (d ∷ ds) h =
    (ground (arith, h), contains-remaining done ds (ground (arith, h)))

pub remaining_nil : (ds : List String) → remaining [] ds ≡ length ds
unfolding remaining contains
remaining_nil [] = refl
remaining_nil (d ∷ ds) = ap suc (remaining_nil ds)

pub all_distinct-filter_by :
    (p : String → Bool) (xs : List String)
    → all_distinct xs ≡ true
    → all_distinct (filter_by p xs) ≡ true
unfolding all_distinct
all_distinct-filter_by p [] h = refl
all_distinct-filter_by p (x ∷ xs) h =
    let (apart, h') = all_distinct-cons x xs h in
    ground (arith, all_distinct-filter_by p xs h', contains-filter_by p x xs, apart)

pub contains_all_entries : (v : String) (xs : List String) → contains v (entries xs) ≡ contains v xs
contains_all_entries v xs = elim (Bool-cases (contains v xs)) [
  | inl k ↦ contains-entries v xs k ∙ sym k
  | inr k ↦ elim (Bool-cases (contains v (entries xs))) [
    | inl l ↦ absurd (false≢true (sym k ∙ entries-contains v xs l))
    | inr l ↦ l ∙ sym k
  ]
]

pub zero_of : (n : ℕ) → eq_ℤ (pos n) (pos 0) ≡ true → n ≡ 0
zero_of n h = ground (arith, h)

module _ {O : Type 0} where
  -- The dependencies of a step that may not be there.
  abbrev pub deps_of : Option (FlowStep O) → List String
  deps_of none = []
  deps_of (some s) = s.dependencies

  unfoldable pub deps : List (FlowStep O) → String → List String
  unfolding step_by_id
  deps steps u = deps_of (step_by_id u steps)

  pub step_by_id-absent :
      (u : String) (steps : List (FlowStep O))
      → contains u (step_ids steps) ≡ false
      → step_by_id u steps ≡ none
  unfolding step_by_id contains
  step_by_id-absent u [] h = refl
  step_by_id-absent u (s ∷ ss) h =
      let rest : step_by_id u ss ≡ none = step_by_id-absent u ss (ground (arith, h)) in
      let other : s.step_id == u ≡ false = ground (arith, h) in rw rest (rw other refl)

  pub step_by_id_head :
      (s : FlowStep O) (ss : List (FlowStep O)) (u : String)
      → contains u (step_ids ss) ≡ false
      → s.step_id == u ≡ true
      → step_by_id u (s ∷ ss) ≡ some s
  unfolding step_by_id
  step_by_id_head s ss u h e = rw (step_by_id-absent u ss h) (rw e refl)

  pub step_by_id_tail :
      (s : FlowStep O) (ss : List (FlowStep O)) (u : String)
      → s.step_id == u ≡ false
      → step_by_id u (s ∷ ss) ≡ step_by_id u ss
  unfolding step_by_id
  step_by_id_tail s ss u e = rw e (same (step_by_id u ss))
    where
      same : (o : Option (FlowStep O)) → later o none ≡ o
      same none = refl
      same (some t) = refl

  pub later_wins :
      (s : FlowStep O) (ss : List (FlowStep O)) (u : String) {t : FlowStep O}
      → step_by_id u ss ≡ some t
      → step_by_id u (s ∷ ss) ≡ some t
  unfolding step_by_id
  later_wins s ss u e = rw e refl

  -- A step that is found is one of the steps, and has the id.
  pub step_by_id-Elem :
      (u : String) (steps : List (FlowStep O))
      → contains u (step_ids steps) ≡ true
      → (s : FlowStep O) × (step_by_id u steps ≡ some s) × Elem s steps × (s.step_id ≡ u)
  unfolding contains
  step_by_id-Elem u [] h = cc
  step_by_id-Elem u (s ∷ ss) h = elim (Bool-cases (contains u (step_ids ss))) [
    | inl k ↦ let (t, e, m, same) = step_by_id-Elem u ss k in (t, later_wins s ss u e, inr m, same)
    | inr k ↦
        let here : s.step_id == u ≡ true = ground (arith, h, k) in
        (s, step_by_id_head s ss u k here, inl refl, (eq_iff s.step_id u).0 here)
  ]

  -- The ids of the steps that depend on `u`, when the ids are distinct.
  pub contains-dependents :
      (u v : String) (steps : List (FlowStep O))
      → all_distinct (step_ids steps) ≡ true
      → contains v (step_ids (filter_by (λ s. contains u s.dependencies) steps))
        ≡ (contains v (step_ids steps) && contains u (deps steps v))
  unfolding contains deps step_by_id
  contains-dependents u v [] h = refl
  contains-dependents u v (s ∷ ss) h =
      let (apart, h') = all_distinct-cons s.step_id (step_ids ss) h in
      let again = contains-dependents u v ss h' in
      elim (Bool-cases (s.step_id == v)) [
        | inl same ↦
            let e : s.step_id ≡ v = ground (arith, eq_iff s.step_id v) in
            let gone = subst (λ w. contains w (step_ids ss) ≡ false) e apart in
            let here = ap (λ o. contains u (deps_of o)) (step_by_id_head s ss v gone same) in
            ground (arith, again, gone, here)
        | inr other ↦
            let there = ap (λ o. contains u (deps_of o)) (step_by_id_tail s ss v other) in
            ground (arith, again, there)
      ]
