-- ===== src/FlowSpec/Fuel.antt =====
-- The loop of `topological_steps` (agent/runtime/flowspec.py) ends: a step is released at most once.
use mitigate_ai_platform.Prelude.{
  ℕ, zero, suc, ◌+◌, ◌≤◌, ◌<◌, String, Bool, true, false, Option, none, some, List, [], ◌∷◌, ◌++◌,
  ◌==◌, eq_iff, if◌then◌else◌, contains, str_lt, filter_by, sort_by, insert_by, length,
  length-append, all, pos, ◌+ℤ◌, eqb, eq_ℤ, ltb_ℤ, All, returned, raised, and_then, require, ◌≡◌,
  ◌≢◌, ◌∙◌, refl, sym, ap, subst, arith, Bool-cases, inl, inr, contains-sort_by, eq_refl,
}
use mathlib.Core.Option
use mitigate_ai_platform.FlowSpec.{
  loop_out_of_fuel, key_error, dependency_cycle, ordered_steps, steps_of, FlowStep, step_ids,
  dependents, Degrees, lowered, release, drain, indegree, entries, initial, topological_steps,
}

length-insert_by :
    (x : String) (xs : List String) → length (insert_by str_lt x xs) ≡ suc (length xs)
unfolding insert_by
length-insert_by x [] = refl
length-insert_by x (y ∷ ys) = ground (arith, length-insert_by x ys)

length-sort_by : (xs : List String) → length (sort_by str_lt xs) ≡ length xs
unfolding sort_by
length-sort_by [] = refl
length-sort_by (x ∷ xs) = length-insert_by x (sort_by str_lt xs) ∙ ap suc (length-sort_by xs)

-- How many of the ids have a positive degree.
unfoldable positive : Degrees → List String → ℕ
positive d [] = 0
positive d (u ∷ us) = let rest = positive d us in if ltb_ℤ (pos 0) (d u) then suc rest else rest

lowered-le :
    (d : Degrees) (v : String) (us : List String) → positive (lowered d v) us ≤ positive d us
unfolding positive lowered ◌+ℤ◌
lowered-le d v [] = omega arith
lowered-le d v (u ∷ us) = ground (arith, lowered-le d v us)

-- A degree that falls to 0 was positive.
lowered-lt :
    (d : Degrees) (v : String) (us : List String)
    → contains v us ≡ true
    → eq_ℤ (lowered d v v) (pos 0) ≡ true
    → suc (positive (lowered d v) us) ≤ positive d us
unfolding positive lowered contains ◌+ℤ◌
lowered-lt d v [] h e = cc
lowered-lt d v (u ∷ us) h e = elim (Bool-cases (u == v)) [
  | inl same ↦
      let here : u ≡ v = ground (arith, eq_iff u v) in
      subst (λ w. suc (positive (lowered d v) (w ∷ us)) ≤ positive d (w ∷ us)) (sym here) first
  | inr other ↦ ground (arith, lowered-lt d v us)
]
  where
    first : suc (positive (lowered d v) (v ∷ us)) ≤ positive d (v ∷ us)
    first = ground (arith, lowered-le d v us, eq_refl v)

-- One dependent that is ready, and one that is not.
pub release-ready :
    (v : String) (vs : List String) (d : Degrees) (ready : List String) (b : Bool)
    → eq_ℤ (lowered d v v) (pos 0) ≡ b
    → release (v ∷ vs) d ready
      ≡ release vs (lowered d v) (if b then sort_by str_lt (ready ++ v ∷ []) else ready)
unfolding release
release-ready v vs d ready b h = rw h refl

-- What the release of some steps adds to the ready list, it takes from the positive degrees.
release-counts :
    (us vs : List String) (d : Degrees) (ready : List String)
    → All (λ v. contains v us ≡ true) vs
    → length (release vs d ready).1 + positive (release vs d ready).0 us
      ≤ length ready + positive d us
unfolding release
release-counts us [] d ready h = omega arith
release-counts us (v ∷ vs) d ready h = elim (Bool-cases (eq_ℤ (lowered d v v) (pos 0))) [
  | inl hit ↦
      let rest = release-counts us vs (lowered d v) (sort_by str_lt (ready ++ v ∷ [])) h.1 in
      let more = length-sort_by (ready ++ v ∷ []) ∙ length-append ready (v ∷ []) in
      let less = lowered-lt d v us h.0 hit in
      subst (λ r. length r.1 + positive r.0 us ≤ length ready + positive d us)
        (sym (release-ready v vs d ready true hit)) (omega arith)
  | inr miss ↦
      let rest = release-counts us vs (lowered d v) ready h.1 in
      let less = lowered-le d v us in
      subst (λ r. length r.1 + positive r.0 us ≤ length ready + positive d us)
        (sym (release-ready v vs d ready false miss)) (omega arith)
]

-- The loop ends within the fuel.
drain-ends :
    (us : List String) (next : String → List String)
    → ((u : String) → All (λ v. contains v us ≡ true) (next u))
    → (n : ℕ) (d : Degrees) (ready : List String) → length ready + positive d us < n
    → (taken : List String) × (drain next n d ready ≡ some taken)
unfolding drain
drain-ends us next inside zero d ready h = absurd (omega arith)
drain-ends us next inside (suc n) d [] h = ([], refl)
drain-ends us next inside (suc n) d (u ∷ ready) h =
    let counts = release-counts us (next u) d ready (inside u) in
    let (taken, run) =
      drain-ends us next inside n (release (next u) d ready).0 (release (next u) d ready).1
        (omega arith) in
    (u ∷ taken, ap (Option.map (λ t. u ∷ t)) run)

entries-length : (xs : List String) → length (entries xs) ≤ length xs
unfolding entries
entries-length [] = omega arith
entries-length (x ∷ xs) = ground (arith, entries-length xs)

pub contains-entries :
    (v : String) (xs : List String) → contains v xs ≡ true → contains v (entries xs) ≡ true
unfolding entries contains
contains-entries v [] h = cc
contains-entries v (x ∷ xs) h = elim (Bool-cases (x == v)) [
  | inl same ↦
      subst (λ w. contains w (entries (x ∷ xs)) ≡ true) (ground (arith, eq_iff x v))
        (here (contains-entries x xs))
  | inr other ↦ ground (arith, contains-entries v xs)
]
  where
    here :
        (contains x xs ≡ true → contains x (entries xs) ≡ true)
        → contains x (entries (x ∷ xs)) ≡ true
    here again = ground (arith, again, eq_refl x)

pub entries-contains :
    (v : String) (xs : List String) → contains v (entries xs) ≡ true → contains v xs ≡ true
unfolding entries contains
entries-contains v [] h = cc
entries-contains v (x ∷ xs) h = ground (arith, entries-contains v xs)

All-of :
    (Q : String → Type 0) (xs : List String)
    → ((v : String) → contains v xs ≡ true → Q v)
    → All Q xs
unfolding contains
All-of Q [] h = tt
All-of Q (x ∷ xs) h =
    (h x (ground (arith, eq_refl x)), All-of Q xs (λ v k. h v (ground (arith, k))))

-- The ids that are ready and those with a positive degree are together no more than all.
ready-positive :
    (d : Degrees) (us : List String)
    → length (filter_by (λ u. eq_ℤ (d u) (pos 0)) us) + positive d us ≤ length us
unfolding positive
ready-positive d [] = omega arith
ready-positive d (u ∷ us) = ground (arith, ready-positive d us)

module _ {O : Type 0} where
  step_ids-filter :
      (p : FlowStep O → Bool) (v : String) (steps : List (FlowStep O))
      → contains v (step_ids (filter_by p steps)) ≡ true
      → contains v (step_ids steps) ≡ true
  unfolding contains
  step_ids-filter p v [] h = cc
  step_ids-filter p v (s ∷ ss) h = ground (arith, step_ids-filter p v ss)

  dependents-inside :
      (steps : List (FlowStep O)) (u : String)
      → All (λ v. contains v (entries (step_ids steps)) ≡ true) (dependents u steps)
  unfolding dependents
  dependents-inside steps u =
      let found = step_ids (filter_by (λ s. contains u s.dependencies) steps) in
      All-of (λ v. contains v (entries (step_ids steps)) ≡ true) (sort_by str_lt (entries found))
        λ v k. contains-entries v (step_ids steps) (
          step_ids-filter (λ s. contains u s.dependencies) v steps
            (entries-contains v found (sym (contains-sort_by str_lt v (entries found)) ∙ k)))

  length-step_ids : (steps : List (FlowStep O)) → length (step_ids steps) ≡ length steps
  length-step_ids [] = refl
  length-step_ids (s ∷ ss) = ap suc (length-step_ids ss)

  length-initial :
      (steps : List (FlowStep O))
      → length (initial steps)
        ≡ length (filter_by (λ u. eq_ℤ (indegree steps u) (pos 0)) (entries (step_ids steps)))
  unfolding initial
  length-initial steps =
      length-sort_by (filter_by (λ u. eq_ℤ (indegree steps u) (pos 0)) (entries (step_ids steps)))

  -- `topological_steps` never ends for want of fuel, which is one more than the number of steps,
  -- whatever the steps and their dependencies.
  pub topological_steps-ne-out_of_fuel :
      (steps : List (FlowStep O)) → topological_steps steps ≢ raised loop_out_of_fuel
  unfolding topological_steps
  topological_steps-ne-out_of_fuel steps h =
      let us = entries (step_ids steps) in
      let ready = ready-positive (indegree steps) us in
      let sorted = length-initial steps in
      let few = entries-length (step_ids steps) in
      let same = length-step_ids steps in
      let (taken, run) =
        drain-ends us (λ u. dependents u steps) (dependents-inside steps) (suc (length steps))
          (indegree steps) (initial steps) (omega arith) in
      ends (all (λ s. all (λ d. contains d (step_ids steps)) s.dependencies) steps)
        (drain (λ u. dependents u steps) (suc (length steps)) (indegree steps) (initial steps))
        taken run h
    where
      ends :
          (b : Bool) (o : Option (List String)) (taken : List String)
          → o ≡ some taken
          → and_then (require b key_error) (λ _. ordered_steps steps o) ≢ raised loop_out_of_fuel
      ends false o taken e k = cc
      ends true none taken e k = cc
      ends true (some us) taken e k = full (eqb (length (steps_of steps us)) (length steps)) k
        where
          full :
              (b : Bool)
              → and_then (require b dependency_cycle) (λ _. returned (steps_of steps us))
                ≢ raised loop_out_of_fuel
          full true k' = cc
          full false k' = cc
