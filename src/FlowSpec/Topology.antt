-- ===== src/FlowSpec/Topology.antt =====
-- `topological_steps` (agent/runtime/flowspec.py) returns the steps in a topological order.
use mitigate_ai_platform.Prelude.{
  suc, String, Bool, true, false, ◌&&◌, ◌||◌, Option, none, some, List, [], ◌∷◌, ◌==◌,
  if◌then◌else◌, contains, str_lt, filter_by, length, eqb, all, pos, eq_ℤ, All, Elem, returned,
  and_then, require, and_then-eq-returned, ◌≡◌, ◌∙◌, refl, sym, ap, subst, arith, contains-sort_by,
  contains-filter_by,
}
use mitigate_ai_platform.FlowSpec.{
  FlowStep, key_error, dependency_cycle, step_ids, later, step_by_id, dependents, indegree,
  degree_of, steps_of, ordered_steps, initial, entries, drain, topological_steps, all_distinct,
}
use mitigate_ai_platform.FlowSpec.Release.{all_distinct-sort_by, all_distinct-entries}
use mitigate_ai_platform.FlowSpec.Order.{remaining, Taking, Loop, drain-Taking}
use mitigate_ai_platform.FlowSpec.Steps.{
  contains-remaining, remaining_nil, all_distinct-filter_by, contains_all_entries, zero_of, deps_of,
  deps, step_by_id-Elem, contains-dependents,
}

module _ {O : Type 0} where
  indegree-deps :
      (steps : List (FlowStep O)) (v : String) → indegree steps v ≡ pos (length (deps steps v))
  unfolding indegree deps
  indegree-deps steps v = count (step_by_id v steps)
    where
      count : (o : Option (FlowStep O)) → degree_of o ≡ pos (length (deps_of o))
      count none = refl
      count (some s) = refl

  deps-distinct :
      (steps : List (FlowStep O)) (v : String)
      → All (λ s. all_distinct s.dependencies ≡ true) steps
      → all_distinct (deps steps v) ≡ true
  unfolding deps step_by_id all_distinct
  deps-distinct [] v h = refl
  deps-distinct (s ∷ ss) v h = one (step_by_id v ss) (s.step_id == v) (deps-distinct ss v h.1)
    where
      one :
          (o : Option (FlowStep O)) (b : Bool)
          → all_distinct (deps_of o) ≡ true
          → all_distinct (deps_of (later o (if b then some s else none))) ≡ true
      one none true k = h.0
      one none false k = k
      one (some t) b k = k

  contains-initial :
      (steps : List (FlowStep O)) (v : String)
      → contains v (initial steps)
        ≡ (contains v (step_ids steps) && eq_ℤ (indegree steps v) (pos 0))
  unfolding initial
  contains-initial steps v =
      let first = λ (u : String). eq_ℤ (indegree steps u) (pos 0) in
      contains-sort_by str_lt v (filter_by first (entries (step_ids steps)))
      ∙ contains-filter_by first v (entries (step_ids steps))
      ∙ ap (λ b. b && first v) (contains_all_entries v (step_ids steps))

  initial-distinct : (steps : List (FlowStep O)) → all_distinct (initial steps) ≡ true
  unfolding initial
  initial-distinct steps =
      let first = λ (u : String). eq_ℤ (indegree steps u) (pos 0) in
      all_distinct-sort_by (filter_by first (entries (step_ids steps)))
      ∙ all_distinct-filter_by first (entries (step_ids steps))
          (all_distinct-entries (step_ids steps))

  -- The state in which the loop starts.
  Loop-initial :
      (steps : List (FlowStep O))
      → Loop (step_ids steps) (deps steps) [] (indegree steps) (initial steps)
  unfolding contains
  Loop-initial steps = record {
    degrees = λ v known. indegree-deps steps v ∙ ap pos (sym (remaining_nil (deps steps v)));
    settled = settled;
    fresh = λ v h. refl;
    distinct = initial-distinct steps;
  }
    where
      settled :
          (v : String)
          → (contains v (initial steps) || false) ≡ true
          → (contains v (step_ids steps) ≡ true) × (remaining [] (deps steps v) ≡ 0)
      settled v h =
          let e = contains-initial steps v in
          let known : contains v (step_ids steps) ≡ true = ground (arith, e, h) in
          let none_left : eq_ℤ (indegree steps v) (pos 0) ≡ true = ground (arith, e, h) in
          (
            known,
            remaining_nil (deps steps v)
                ∙ zero_of (length (deps steps v))
                    (ap (λ z. eq_ℤ z (pos 0)) (sym (indegree-deps steps v)) ∙ none_left),
          )

  module _ (steps : List (FlowStep O)) where
    -- The list continues the steps whose ids are done: each is a step that is not done yet, and all
    -- its dependencies are.
    abbrev pub Follows : List String → List (FlowStep O) → Type 0
    Follows done [] = Unit
    Follows done (s ∷ ss) =
        Elem s steps
        × (contains s.step_id done ≡ false)
        × All (λ d. contains d done ≡ true) s.dependencies
        × Follows (s.step_id ∷ done) ss

    Taking-Follows :
        (done us : List String)
        → Taking (step_ids steps) (deps steps) done us
        → Follows done (steps_of steps us)
    Taking-Follows done [] h = tt
    Taking-Follows done (u ∷ us) (known, new, none_left, rest) =
        let (s, e, m, same) = step_by_id-Elem u steps known in
        let again = Taking-Follows (u ∷ done) us rest in
        let mine = deps_step s e in
        subst (Follows done) (sym (taken s e)) (
          m,
          subst (λ w. contains w done ≡ false) (sym same) new,
          subst (All (λ d. contains d done ≡ true)) mine
              (contains-remaining done (deps steps u) none_left),
          subst (λ w. Follows (w ∷ done) (steps_of steps us)) (sym same) again,
        )
      where
        deps_step : (s : FlowStep O) → step_by_id u steps ≡ some s → deps steps u ≡ s.dependencies
        deps_step s e = unfold deps in rw e refl

        taken :
            (s : FlowStep O)
            → step_by_id u steps ≡ some s
            → steps_of steps (u ∷ us) ≡ s ∷ steps_of steps us
        taken s e = rw e refl

    -- `topological_steps` returns a topological order: if the step ids are distinct, and so are the
    -- dependencies of each step, then what it returns are as many steps as it was given, each of them
    -- one of those, none twice, and each behind all of its dependencies.
    pub topological_steps-Follows :
        (ordered : List (FlowStep O))
        → all_distinct (step_ids steps) ≡ true
        → All (λ s. all_distinct s.dependencies ≡ true) steps
        → topological_steps steps ≡ returned ordered
        → Follows [] ordered × (length ordered ≡ length steps)
    unfolding topological_steps
    topological_steps-Follows ordered ids_distinct deps_distinct h =
        let (_, _, run) =
          and_then-eq-returned
            (require (all (λ s. all (λ d. contains d (step_ids steps)) s.dependencies) steps)
              key_error)
            (λ _. ordered_steps steps taken) h in
        finish taken refl run
      where
        taken : Option (List String)
        taken =
            drain (λ u. dependents u steps) (suc (length steps)) (indegree steps) (initial steps)

        next_deps :
            (u v : String)
            → contains v (dependents u steps)
              ≡ (contains v (step_ids steps) && contains u (deps steps v))
        next_deps u v =
            unfold dependents in
            let some_ids = step_ids (filter_by (λ s. contains u s.dependencies) steps) in
            contains-sort_by str_lt v (entries some_ids)
            ∙ contains_all_entries v some_ids
            ∙ contains-dependents u v steps ids_distinct

        next_distinct : (u : String) → all_distinct (dependents u steps) ≡ true
        next_distinct u =
            unfold dependents in
            let some_ids = step_ids (filter_by (λ s. contains u s.dependencies) steps) in
            all_distinct-sort_by (entries some_ids) ∙ all_distinct-entries some_ids

        finish :
            (o : Option (List String))
            → taken ≡ o
            → ordered_steps steps o ≡ returned ordered
            → Follows [] ordered × (length ordered ≡ length steps)
        finish none e k = cc
        finish (some us) e k =
            let all_taken =
              drain-Taking (step_ids steps) (deps steps) (λ u. dependents u steps) next_deps
                next_distinct (λ v. deps-distinct steps v deps_distinct) (suc (length steps)) []
                (indegree steps) (initial steps) us (Loop-initial steps) e in
            full (eqb (length (steps_of steps us)) (length steps)) refl
              (Taking-Follows [] us all_taken) k
          where
            full :
                (b : Bool)
                → eqb (length (steps_of steps us)) (length steps) ≡ b
                → Follows [] (steps_of steps us)
                → and_then (require b dependency_cycle) (λ _. returned (steps_of steps us))
                  ≡ returned ordered
                → Follows [] ordered × (length ordered ≡ length steps)
            full true same f k' =
                let e' : steps_of steps us ≡ ordered = cc in
                subst (λ ss. Follows [] ss × (length ss ≡ length steps)) e'
                  (f, ground (arith, same))
            full false same f k' = cc
