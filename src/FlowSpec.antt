-- ===== src/FlowSpec.antt =====
-- `FlowSpecValidator`, agent/runtime/flowspec.py. A document is what `parse` is given, by the shape
-- that each of its tests can see; payloads and metadata are objects in `O`, which are only copied.
pub mod Parse
pub mod Soundness
pub mod Fuel
pub mod Release
pub mod Order
pub mod Parsed
pub mod Steps
pub mod Topology
pub mod Materialize
pub mod Contract
use mathlib.Core.Option
use mitigate_ai_platform.Prelude.{
  all, ℤ, pos, negsuc, ◌+ℤ◌, eq_ℤ, ℕ, zero, suc, ◌-◌, String, Bool, true, false, not, ◌&&◌, ◌||◌,
  Option, none, some, List, [], ◌∷◌, ◌++◌, map, ◌==◌, eqb, if◌then◌else◌, contains, str_lt,
  filter_by, sort_by, length, Attempt, returned, raised, and_then, require,
}

pub data FlowSpecError : Type 0 where
  root_not_object : FlowSpecError
  unknown_root_fields unknown_step_fields : List String → FlowSpecError
  not_a_string is_required unsafe_identifier : String → FlowSpecError
  unsupported_version : String → FlowSpecError
  steps_not_array steps_empty metadata_not_object step_not_object : FlowSpecError
  dependencies_not_array dependency_not_string dependencies_not_unique payload_not_object :
      FlowSpecError
  step_ids_not_unique self_dependency : FlowSpecError
  unknown_dependency : String → String → FlowSpecError
  dependency_cycle loop_out_of_fuel key_error : FlowSpecError

pub record FlowStep (O : Type 0) : Type 0 where
  pub step_id : String
  pub task_type : String
  pub dependencies : List String
  pub payload : O

pub record FlowSpec (O : Type 0) : Type 0 where
  pub schema_version : String
  pub flow_id : String
  pub project_id : String
  pub steps : List (FlowStep O)
  pub metadata : O

-- The keys of a dictionary that is built from a list.
unfoldable pub entries : List String → List String
unfolding contains
entries [] = []
entries (x ∷ xs) = let rest = entries xs in if contains x xs then rest else x ∷ rest

module _ {O : Type 0} where
  abbrev pub step_ids : List (FlowStep O) → List String
  step_ids steps = map (λ s. s.step_id) steps

  -- The first of two entries, if it is there.
  abbrev pub later : Option (FlowStep O) → Option (FlowStep O) → Option (FlowStep O)
  later (some t) o = some t
  later none o = o

  -- `steps_by_id[current]`: a later step replaces an earlier one with the same id.
  unfoldable pub step_by_id : String → List (FlowStep O) → Option (FlowStep O)
  step_by_id u [] = none
  step_by_id u (s ∷ ss) =
      let rest = step_by_id u ss in later rest (if s.step_id == u then some s else none)

  -- `dependents[current]`, in order.
  unfoldable pub dependents : String → List (FlowStep O) → List String
  unfolding contains sort_by entries
  dependents u steps =
      sort_by str_lt (entries (step_ids (filter_by (λ s. contains u s.dependencies) steps)))

-- `indegree`, as a function.
abbrev pub Degrees : Type 0
Degrees = String → ℤ

unfoldable pub lowered : Degrees → String → Degrees
unfolding ◌+ℤ◌
lowered degree u v = if u == v then degree v +ℤ negsuc 0 else degree v

-- The loop over the dependents of one step: the degrees and the ready list after it.
unfoldable pub release : List String → Degrees → List String → Degrees × List String
unfolding sort_by lowered
release [] degree ready = (degree, ready)
release (v ∷ vs) degree ready =
    let degree' = lowered degree v in
    release vs degree'
      (if eq_ℤ (degree' v) (pos 0) then sort_by str_lt (ready ++ v ∷ []) else ready)

-- `while ready`: the ids in the order in which they are taken, or `none` without fuel. The fuel is the
-- number of steps, plus one for the last test of the loop.
module _ (next : String → List String) where
  unfoldable pub drain : ℕ → Degrees → List String → Option (List String)
  unfolding release
  drain zero degree ready = none
  drain (suc n) degree [] = some []
  drain (suc n) degree (u ∷ us) =
      let after = release (next u) degree us in
      Option.map (λ taken. u ∷ taken) (drain n after.0 after.1)

-- The dependencies of one step.
unfoldable pub check_dependencies :
    String → List String → List String → Attempt FlowSpecError (Unit {0})
unfolding contains
check_dependencies u known [] = returned tt
check_dependencies u known (d ∷ ds) = and_then (require (not (d == u)) self_dependency) λ _.
    and_then (require (contains d known) (unknown_dependency d u))
      λ _. check_dependencies u known ds

module _ {O : Type 0} where
  abbrev pub degree_of : Option (FlowStep O) → ℤ
  degree_of none = pos 0
  degree_of (some s) = pos (length s.dependencies)

  -- The starting degrees.
  unfoldable pub indegree : List (FlowStep O) → Degrees
  unfolding step_by_id
  indegree steps u = degree_of (step_by_id u steps)

  abbrev pub found : Option (FlowStep O) → List (FlowStep O) → List (FlowStep O)
  found none ss = ss
  found (some s) ss = s ∷ ss

  abbrev pub steps_of : List (FlowStep O) → List String → List (FlowStep O)
  steps_of steps [] = []
  steps_of steps (u ∷ us) = let rest = steps_of steps us in found (step_by_id u steps) rest

  abbrev pub ordered_steps :
      List (FlowStep O) → Option (List String) → Attempt FlowSpecError (List (FlowStep O))
  ordered_steps steps none = raised loop_out_of_fuel
  ordered_steps steps (some us) =
      let ordered = steps_of steps us in
      and_then (require (eqb (length ordered) (length steps)) dependency_cycle)
        λ _. returned ordered

  -- The ids that are ready at the start.
  unfoldable pub initial : List (FlowStep O) → List String
  unfolding indegree entries sort_by
  initial steps =
      sort_by str_lt (filter_by (λ u. eq_ℤ (indegree steps u) (pos 0)) (entries (step_ids steps)))

  -- `topological_steps`; `dependents[dependency]` raises for a dependency that is no step.
  unfoldable pub topological_steps : List (FlowStep O) → Attempt FlowSpecError (List (FlowStep O))
  unfolding step_by_id dependents indegree drain initial contains
  topological_steps steps =
      and_then
        (require (all (λ s. all (λ d. contains d (step_ids steps)) s.dependencies) steps) key_error)
        λ _.
          ordered_steps steps
            (drain (λ u. dependents u steps) (suc (length steps)) (indegree steps) (initial steps))

  -- `canonical_document`: the specification with its steps in topological order.
  unfoldable pub canonical_document : FlowSpec O → Attempt FlowSpecError (FlowSpec O)
  unfolding topological_steps
  canonical_document spec =
      and_then (topological_steps spec.steps) λ ordered. returned (record spec { steps = ordered })

  -- `_validate_dependencies`
  unfoldable pub validate_dependencies :
      List String → List (FlowStep O) → Attempt FlowSpecError (Unit {0})
  unfolding check_dependencies
  validate_dependencies known [] = returned tt
  validate_dependencies known (s ∷ ss) =
      and_then (check_dependencies s.step_id known s.dependencies)
        λ _. validate_dependencies known ss

-- `len(xs) == len(set(xs))`
unfoldable pub all_distinct : List String → Bool
unfolding contains
all_distinct [] = true
all_distinct (x ∷ xs) = not (contains x xs) && all_distinct xs
