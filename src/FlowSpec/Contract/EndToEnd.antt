-- ===== src/FlowSpec/Contract/EndToEnd.antt =====
-- A parsed document, its materialized flow (agent/runtime/flowspec_materializer.py) and the contract
-- (agent/runtime/flowspec_execution_contract.py) together.
use mitigate_ai_platform.Prelude.{
  String, Bool, true, false, ◌||◌, List, [], ◌∷◌, map, ◌==◌, eq_iff, contains, length, has_no_space,
  All, Elem, Attempt, returned, Value, str, ◌≡◌, ◌∙◌, refl, ap, subst, arith, inl, inr, Bool-cases,
}
use mitigate_ai_platform.FlowSpec.{FlowStep, FlowSpec, step_ids, topological_steps, all_distinct}
use mitigate_ai_platform.FlowSpec.Parse.{Document, parse, is_nil, array}
use mitigate_ai_platform.FlowSpec.Parsed.{IsCleanStep, IsParsed, parse-IsParsed}
use mitigate_ai_platform.FlowSpec.Soundness.{validated}
use mitigate_ai_platform.FlowSpec.Topology.{Follows, topological_steps-Follows}
use mitigate_ai_platform.FlowSpec.Materialize.{
  MaterializedFlow, mission_id, mission_of, preview, preview_document,
}
use mitigate_ai_platform.FlowSpec.Contract.{ContractError, validate}
use mitigate_ai_platform.FlowSpec.Contract.Accepts.{
  record_of, missions_of-eq, collect_ids-eq, validate_missions-eq,
}
use mitigate_ai_platform.FlowSpec.Contract.Distinct.{
  IsInjectiveOn, all_distinct-map, text_field_clean, Follows-all_distinct,
}

All-self :
    (known vs : List String)
    → ((v : String) → contains v vs ≡ true → contains v known ≡ true)
    → All (λ v. contains v known ≡ true) vs
unfolding contains
All-self known [] h = tt
All-self known (v ∷ vs) h = (
  h v (let e = (eq_iff v v).1 refl in rw e refl),
  All-self known vs (λ w k. h w (ground (arith, k))),
)

module _ {O : Type 0} where
  contains-Elem :
      (s : FlowStep O) (ss : List (FlowStep O))
      → Elem s ss
      → contains s.step_id (step_ids ss) ≡ true
  unfolding contains
  contains-Elem s [] h = absurd h
  contains-Elem s (t ∷ ss) (inl e) =
      let same = (eq_iff t.step_id s.step_id).1 (ap (λ (r : FlowStep O). r.step_id) e) in
      rw same refl
  contains-Elem s (t ∷ ss) (inr m) = ground (arith, contains-Elem s ss m)

  -- The ids of steps that follow are ids of the steps.
  Follows-contains :
      (steps : List (FlowStep O)) (v : String) (done : List String) (ss : List (FlowStep O))
      → Follows steps done ss
      → contains v (step_ids ss) ≡ true
      → contains v (step_ids steps) ≡ true
  unfolding contains
  Follows-contains steps v done [] f h = cc
  Follows-contains steps v done (s ∷ ss) (m, new, ds, rest) h = elim (Bool-cases (s.step_id == v)) [
    | inl same ↦
        subst (λ w. contains w (step_ids steps) ≡ true) ((eq_iff s.step_id v).0 same)
          (contains-Elem s steps m)
    | inr other ↦ Follows-contains steps v (s.step_id ∷ done) ss rest (rw other at h)
  ]

  -- Each dependency is an id of a step that is done or that follows.
  Follows-known :
      (steps : List (FlowStep O)) (known done : List String) (ss : List (FlowStep O))
      → Follows steps done ss
      → ((v : String)
          → (contains v done || contains v (step_ids ss)) ≡ true
          → contains v known ≡ true)
      → All (λ s. All (λ d. contains d known ≡ true) s.dependencies) ss
  unfolding contains
  Follows-known steps known done [] f inside = tt
  Follows-known steps known done (s ∷ ss) (m, new, ds, rest) inside = (
    each s.dependencies ds,
    Follows-known steps known (s.step_id ∷ done) ss rest λ v k. inside v (ground (arith, k)),
  )
    where
      each :
          (vs : List String)
          → All (λ d. contains d done ≡ true) vs
          → All (λ d. contains d known ≡ true) vs
      each [] h = tt
      each (v ∷ vs) h = (inside v (let k = h.0 in ground (arith, k)), each vs h.1)

  clean_dependencies :
      (ss : List (FlowStep O))
      → All IsCleanStep ss
      → All (λ s. all_distinct s.dependencies ≡ true) ss
  clean_dependencies [] h = tt
  clean_dependencies (s ∷ ss) h = (h.0.2, clean_dependencies ss h.1)

  is_nil-length :
      (xs ys : List (FlowStep O)) → length xs ≡ length ys → is_nil ys ≡ false → is_nil xs ≡ false
  is_nil-length (x ∷ xs) ys h n = refl
  is_nil-length [] [] h n = n
  is_nil-length [] (y ∷ ys) h n = absurd (omega (arith, h))

  is_nil-map :
      {B : Type 0} (f : FlowStep O → B) (xs : List (FlowStep O)) → is_nil (map f xs) ≡ is_nil xs
  is_nil-map f [] = refl
  is_nil-map f (x ∷ xs) = refl

  -- The flow of some steps.
  abbrev flow_of : (String → String) → FlowSpec O → List (FlowStep O) → MaterializedFlow O
  flow_of digest spec ss = record {
    flow_id = str spec.flow_id;
    project_id = str spec.project_id;
    missions = array (
        map
          (λ s.
            mission_of digest spec s
              (map (λ d. str (mission_id digest spec.flow_id d)) s.dependencies))
          ss);
  }

  preview-eq :
      (digest : String → String) (spec : FlowSpec O) (ordered : List (FlowStep O))
      → ((t : String) → has_no_space (digest t) ≡ true)
      → topological_steps spec.steps ≡ returned ordered
      → All (λ s. All (λ d. contains d (step_ids ordered) ≡ true) s.dependencies) ordered
      → preview digest spec ≡ returned (flow_of digest spec ordered)
  unfolding preview
  preview-eq digest spec ordered solid run known =
      rw run (rw (missions_of-eq digest spec solid (step_ids ordered) ordered known) refl)

  validate-eq :
      (digest : String → String) (unique : List Value → Attempt ContractError Bool)
      (spec : FlowSpec O) (ordered : List (FlowStep O))
      → ((t : String) → has_no_space (digest t) ≡ true)
      → ((ds : List String) → unique (map str ds) ≡ returned (all_distinct ds))
      → IsInjectiveOn (step_ids ordered) (mission_id digest spec.flow_id)
      → IsParsed spec
      → Follows spec.steps [] ordered
      → is_nil ordered ≡ false
      → validate unique (flow_of digest spec ordered)
        ≡ returned (record {
          flow_id = spec.flow_id;
          project_id = spec.project_id;
          mission_ids = map (mission_id digest spec.flow_id) (step_ids ordered);
        })
  unfolding validate
  validate-eq digest unique spec ordered solid is_set apart (version, flow, project, _, clean, _)
        follows full =
      let known = step_ids ordered in
      rw (text_field_clean spec.flow_id "flow_id" flow) (
        rw (text_field_clean spec.project_id "project_id" project) (
          rw (is_nil-map (record_of digest spec solid) ordered ∙ full) (
            rw (collect_ids-eq digest spec solid unique ordered) (
              rw
                (all_distinct-map known (mission_id digest spec.flow_id) apart known
                    (All-self known known (λ v k. k))
                  ∙ Follows-all_distinct spec.steps [] ordered follows)
                (rw
                  (validate_missions-eq digest spec solid known apart spec.steps unique is_set
                    version flow project clean [] ordered follows (λ v k. k))
                  refl)))))

  -- The contract accepts what is made of a document: if `parse` accepts a document, no digest has a
  -- space in it, no two of the step ids get the same mission id, and `unique` tells whether texts are
  -- distinct, then the document is materialized and its flow passes the contract with the flow id and
  -- the project id of the specification and with the mission ids of the steps in topological order.
  pub preview_document-validate :
      (digest : String → String) (unique : List Value → Attempt ContractError Bool) (empty : O)
      (d : Document O) (spec : FlowSpec O)
      → ((t : String) → has_no_space (digest t) ≡ true)
      → ((ds : List String) → unique (map str ds) ≡ returned (all_distinct ds))
      → ((u v : String)
          → contains u (step_ids spec.steps) ≡ true
          → contains v (step_ids spec.steps) ≡ true
          → mission_id digest spec.flow_id u ≡ mission_id digest spec.flow_id v
          → u ≡ v)
      → parse empty d ≡ returned spec
      → (ordered : List (FlowStep O)) × (flow : MaterializedFlow O) × (topological_steps spec.steps
          ≡ returned ordered)
        × (preview_document digest empty d ≡ returned flow)
        × (validate unique flow
            ≡ returned (record {
              flow_id = spec.flow_id;
              project_id = spec.project_id;
              mission_ids = map (mission_id digest spec.flow_id) (step_ids ordered);
            }))
  unfolding preview_document contains
  preview_document-validate digest unique empty d spec solid is_set apart h =
      let (version, flow, project, full, clean, valid) = parse-IsParsed empty d spec h in
      let (distinct, _, (ordered, run)) = validated spec.steps valid in
      let (follows, same) =
        topological_steps-Follows spec.steps ordered distinct (clean_dependencies spec.steps clean)
          run in
      let known = step_ids ordered in
      let kept = λ (u v : String) (hu : contains u known ≡ true) (hv : contains v known ≡ true).
        apart u v (Follows-contains spec.steps u [] ordered follows hu)
          (Follows-contains spec.steps v [] ordered follows hv) in
      (
        ordered,
        flow_of digest spec ordered,
        run,
        (rw h (
            preview-eq digest spec ordered solid run
              (Follows-known spec.steps known [] ordered follows λ v k. k))),
        validate-eq digest unique spec ordered solid is_set kept (parse-IsParsed empty d spec h)
            follows (is_nil-length ordered spec.steps same full),
      )
