-- ===== src/Tests/Flows.antt =====
-- Examples for agent/runtime/flowspec.py, flowspec_materializer.py and flowspec_execution_contract.py.
use Prim.Native.Char.{code}
use mitigate_ai_platform.Prelude.{
  Elem, String, Bool, true, false, List, [], ◌∷◌, map, ◌==◌, eq_iff, contains, length, has_no_space,
  is_space, Attempt, returned, raised, Value, str, if◌then◌else◌, Bool-cases, ◌≡◌, ◌∙◌, refl, sym,
  ap, arith, inl, inr, ◌≢◌, ◌⊎◌,
}
use mathlib.Core.Bool.{false≢true}
use mitigate_ai_platform.FlowSpec.{
  loop_out_of_fuel, FlowStep, FlowSpec, step_ids, topological_steps, all_distinct,
}
use mitigate_ai_platform.FlowSpec.Parse.{
  Document, document, raw_step, array, no_array, no_object, parse,
}
use mitigate_ai_platform.FlowSpec.Fuel.{topological_steps-ne-out_of_fuel}
use mitigate_ai_platform.FlowSpec.Soundness.{parse-closed}
use mitigate_ai_platform.FlowSpec.Topology.{Follows, topological_steps-Follows}
use mitigate_ai_platform.FlowSpec.Materialize.{MaterializedFlow, mission_id, preview_document}
use mitigate_ai_platform.FlowSpec.Contract.{ContractError, validate}
use mitigate_ai_platform.FlowSpec.Contract.EndToEnd.{preview_document-validate}

-- A digest that drops the spaces of its input.
dense : String → String
unfolding is_space
dense String.[] = String.[]
dense (String.◌∷◌ c s) = let rest = dense s in if is_space (code c) then rest else String.◌∷◌ c rest

has_no_space-dense : (s : String) → has_no_space (dense s) ≡ true
unfolding dense has_no_space
has_no_space-dense String.[] = refl
has_no_space-dense (String.◌∷◌ c s) = elim (Bool-cases (is_space (code c))) [
  | inl space ↦ rw space (has_no_space-dense s)
  | inr solid ↦ rw solid (rw solid (has_no_space-dense s))
]

abbrev texts_of : List Value → List String
texts_of [] = []
texts_of (str s ∷ vs) = s ∷ texts_of vs
texts_of (_ ∷ vs) = texts_of vs

abbrev unique_texts : List Value → Attempt ContractError Bool
unique_texts vs = returned (all_distinct (texts_of vs))

texts_of-map : (ss : List String) → texts_of (map str ss) ≡ ss
texts_of-map [] = refl
texts_of-map (s ∷ ss) = ap (λ rest. s ∷ rest) (texts_of-map ss)

-- A plan, and code that depends on it, in the wrong order.
abbrev two_steps : Document String
two_steps =
    document ("flow_id" ∷ "steps" ∷ []) (str "1.0.0") (str "flow") (str "project")
      (array (
        raw_step ("step_id" ∷ []) (str "b ") (str "code") (array (str " a" ∷ [])) no_object
        ∷ raw_step ("step_id" ∷ []) (str "a") (str "plan") no_array no_object
        ∷ []))
      no_object

abbrev step_a : FlowStep String
step_a = record { step_id = "a"; task_type = "plan"; dependencies = []; payload = "{}" }

abbrev step_b : FlowStep String
step_b = record { step_id = "b"; task_type = "code"; dependencies = "a" ∷ []; payload = "{}" }

abbrev parsed : FlowSpec String
parsed = record {
  schema_version = "1.0.0";
  flow_id = "flow";
  project_id = "project";
  steps = step_b ∷ step_a ∷ [];
  metadata = "{}";
}

two_steps-parse : parse "{}" two_steps ≡ returned parsed
unfolding parse
two_steps-parse = refl

parsed-order : topological_steps parsed.steps ≡ returned (step_a ∷ step_b ∷ [])
unfolding topological_steps
parsed-order = refl

parse-closed_example :
    (all_distinct ("b" ∷ "a" ∷ []) ≡ true)
    × ((ordered : List (FlowStep String)) × (topological_steps (step_b ∷ step_a ∷ [])
          ≡ returned ordered))
    × ((s : FlowStep String) (v : String)
        → Elem s (step_b ∷ step_a ∷ [])
        → contains v s.dependencies ≡ true
        → (contains v ("b" ∷ "a" ∷ []) ≡ true) × (v == s.step_id ≡ false))
parse-closed_example = parse-closed "{}" two_steps parsed two_steps-parse

topological_steps-ne-out_of_fuel_example :
    topological_steps (step_b ∷ step_a ∷ []) ≢ raised loop_out_of_fuel
topological_steps-ne-out_of_fuel_example = topological_steps-ne-out_of_fuel (step_b ∷ step_a ∷ [])

one_of_two : (u : String) → contains u ("b" ∷ "a" ∷ []) ≡ true → ("b" ≡ u) ⊎ ("a" ≡ u)
unfolding contains
one_of_two u h = elim (Bool-cases ("b" == u)) [
  | inl same ↦ inl ((eq_iff "b" u).0 same)
  | inr other ↦ inr ((eq_iff "a" u).0 (ground (arith, rw other at h)))
]

dense-apart :
    (u v : String)
    → contains u ("b" ∷ "a" ∷ []) ≡ true
    → contains v ("b" ∷ "a" ∷ []) ≡ true
    → mission_id dense "flow" u ≡ mission_id dense "flow" v
    → u ≡ v
unfolding mission_id dense
dense-apart u v hu hv e = elim (one_of_two u hu) [
  | inl ub ↦ elim (one_of_two v hv) [
    | inl vb ↦ sym ub ∙ vb
    | inr va ↦
        absurd (clash (ap (mission_id dense "flow") ub ∙ e ∙ ap (mission_id dense "flow") (sym va)))
  ]
  | inr ua ↦ elim (one_of_two v hv) [
    | inl vb ↦
        absurd (
          clash (sym (ap (mission_id dense "flow") ua ∙ e ∙ ap (mission_id dense "flow") (sym vb))))
    | inr va ↦ sym ua ∙ va
  ]
]
  where
    clash : mission_id dense "flow" "b" ≡ mission_id dense "flow" "a" → ⊥
    clash k = false≢true (ap (λ s. s == "flow-flow|a") k)

topological_steps-Follows_example :
    Follows parsed.steps [] (step_a ∷ step_b ∷ []) × (2 ≡ length parsed.steps)
unfolding all_distinct
topological_steps-Follows_example =
    topological_steps-Follows parsed.steps (step_a ∷ step_b ∷ []) refl (refl, (refl, tt))
      parsed-order

preview_document-validate_example :
    (ordered : List (FlowStep String)) × (flow : MaterializedFlow String) × (topological_steps
        parsed.steps
      ≡ returned ordered)
    × (preview_document dense "{}" two_steps ≡ returned flow)
    × (validate unique_texts flow
        ≡ returned (record {
          flow_id = "flow";
          project_id = "project";
          mission_ids = map (mission_id dense "flow") (step_ids ordered);
        }))
preview_document-validate_example =
    preview_document-validate dense unique_texts "{}" two_steps parsed has_no_space-dense
      (λ ds. ap (λ ss. returned (all_distinct ss)) (texts_of-map ds)) dense-apart two_steps-parse
