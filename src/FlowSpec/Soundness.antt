-- ===== src/FlowSpec/Soundness.antt =====
-- What `FlowSpecValidator.parse` (agent/runtime/flowspec.py) accepts.
use mitigate_ai_platform.Prelude.{
  require-true, Ensures, Ensures-bind, String, true, false, not, List, [], ◌∷◌, ◌==◌, contains,
  eq_iff, Bool-cases, inl, inr, Elem, returned, and_then, require, and_then-eq-returned, ◌≡◌, subst,
  arith,
}
use mitigate_ai_platform.FlowSpec.{
  FlowStep, FlowSpec, self_dependency, unknown_dependency, step_ids, check_dependencies,
  validate_dependencies, topological_steps, all_distinct, step_ids_not_unique, unknown_root_fields,
  unsupported_version, steps_not_array, steps_empty, metadata_not_object,
}
use mitigate_ai_platform.FlowSpec.Parse.{
  Document, document, not_a_document, parse, parse_steps, validate_steps, unknown_keys, root_keys,
  is_nil, required_string, identifier, required_items, object_of,
}

check-knows :
    (u : String) (known ds : List String) (d : String)
    → check_dependencies u known ds ≡ returned tt
    → contains d ds ≡ true
    → (contains d known ≡ true) × (d == u ≡ false)
unfolding check_dependencies contains
check-knows u known [] d h e = cc
check-knows u known (x ∷ xs) d h e =
    let rest = λ (t : Unit {0}). check_dependencies u known xs in
    let (_, other, h₁) =
      and_then-eq-returned (require (not (x == u)) self_dependency)
        (λ _. and_then (require (contains x known) (unknown_dependency x u)) rest) h in
    let (_, is_known, h₂) =
      and_then-eq-returned (require (contains x known) (unknown_dependency x u)) rest h₁ in
    elim (Bool-cases (x == d)) [
      | inl same ↦
          subst (λ y. (contains y known ≡ true) × (y == u ≡ false)) (ground (arith, eq_iff x d))
            (
              require-true (contains x known) (unknown_dependency x u) is_known,
              ground (arith, require-true (not (x == u)) self_dependency other),
            )
      | inr k ↦ check-knows u known xs d h₂ (rw k at e)
    ]

validate-knows :
    {O : Type 0} (known : List String) (steps : List (FlowStep O)) (s : FlowStep O) (d : String)
    → validate_dependencies known steps ≡ returned tt
    → Elem s steps
    → contains d s.dependencies ≡ true
    → (contains d known ≡ true) × (d == s.step_id ≡ false)
unfolding validate_dependencies
validate-knows known [] s d h e k = absurd e
validate-knows known (x ∷ xs) s d h e k =
    let rest = λ (t : Unit {0}). validate_dependencies known xs in
    let (_, first, h₁) =
      and_then-eq-returned (check_dependencies x.step_id known x.dependencies) rest h in
    elim e [
      | inl same ↦
          subst
            (λ y.
              contains d y.dependencies ≡ true
              → (contains d known ≡ true) × (d == y.step_id ≡ false))
            same (λ k'. check-knows x.step_id known x.dependencies d first k') k
      | inr later ↦ validate-knows known xs s d h₁ later k
    ]

-- The parts of a validation that returns.
pub validated :
    {O : Type 0} (steps : List (FlowStep O))
    → validate_steps steps ≡ returned tt
    → (all_distinct (step_ids steps) ≡ true)
      × (validate_dependencies (step_ids steps) steps ≡ returned tt)
      × ((ordered : List (FlowStep O)) × (topological_steps steps ≡ returned ordered))
unfolding validate_steps
validated steps h =
    let deps = λ (t : Unit {0}).
      and_then (validate_dependencies (step_ids steps) steps)
        λ _. and_then (topological_steps steps) λ _. returned tt in
    let (_, distinct, h₁) =
      and_then-eq-returned (require (all_distinct (step_ids steps)) step_ids_not_unique) deps h in
    let (_, known, h₂) =
      and_then-eq-returned (validate_dependencies (step_ids steps) steps)
        (λ _. and_then (topological_steps steps) λ _. returned tt) h₁ in
    let (ordered, at, _) = and_then-eq-returned (topological_steps steps) (λ _. returned tt) h₂ in
    (
      require-true (all_distinct (step_ids steps)) step_ids_not_unique distinct,
      known,
      (ordered, at),
    )

abbrev IsValidated : {O : Type 0} → FlowSpec O → Type 0
IsValidated spec = validate_steps spec.steps ≡ returned tt

-- The steps of a parsed specification have passed the validation.
parse-Ensures : {O : Type 0} (empty : O) (d : Document O) → Ensures IsValidated (parse empty d)
unfolding parse
parse-Ensures empty not_a_document = record { ensured = tt }
parse-Ensures empty (document ks v f p rs m) =
    let unknown = unknown_keys root_keys ks in
    Ensures-bind (require (is_nil unknown) (unknown_root_fields unknown)) _ λ _ _.
      Ensures-bind (required_string v "schema_version") _ λ version _.
        Ensures-bind (require (version == "1.0.0") (unsupported_version version)) _ λ _ _.
          Ensures-bind (identifier f "flow_id") _ λ _ _.
            Ensures-bind (identifier p "project_id") _ λ _ _.
              Ensures-bind (required_items rs steps_not_array) _ λ raws _.
                Ensures-bind (require (not (is_nil raws)) steps_empty) _ λ _ _.
                  Ensures-bind (object_of empty m metadata_not_object) _ λ _ _.
                    Ensures-bind (parse_steps empty raws) _ λ steps _.
                      Ensures-bind (validate_steps steps) _ λ _ valid. record { ensured = valid }

-- What `parse` accepts is a graph over its own steps: if it returns a specification, the step ids are
-- distinct, the steps have a topological order, and every dependency of a step is the id of another
-- step.
pub parse-closed :
    {O : Type 0} (empty : O) (d : Document O) (spec : FlowSpec O)
    → parse empty d ≡ returned spec
    → (all_distinct (step_ids spec.steps) ≡ true)
      × ((ordered : List (FlowStep O)) × (topological_steps spec.steps ≡ returned ordered))
      × ((s : FlowStep O) (v : String)
          → Elem s spec.steps
          → contains v s.dependencies ≡ true
          → (contains v (step_ids spec.steps) ≡ true) × (v == s.step_id ≡ false))
parse-closed empty d spec h =
    let ensures : Ensures IsValidated (returned spec) =
      subst (Ensures IsValidated) h (parse-Ensures empty d) in
    let (distinct, known, order) = validated spec.steps ensures.ensured in
    (distinct, order, λ s v e k. validate-knows (step_ids spec.steps) spec.steps s v known e k)
