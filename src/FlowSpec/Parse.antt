-- ===== src/FlowSpec/Parse.antt =====
-- `FlowSpecValidator.parse` and `_parse_step`, agent/runtime/flowspec.py.
use mitigate_ai_platform.Prelude.{
  String, Bool, true, false, not, ◌||◌, List, [], ◌∷◌, ◌==◌, contains, str_lt, filter_by, sort_by,
  strip, is_empty, has_char, Attempt, returned, raised, and_then, require, Value, str,
}
use mitigate_ai_platform.FlowSpec.{
  FlowSpecError, root_not_object, unknown_root_fields, unknown_step_fields, not_a_string,
  is_required, unsafe_identifier, unsupported_version, steps_not_array, steps_empty,
  metadata_not_object, step_not_object, dependencies_not_array, dependency_not_string,
  dependencies_not_unique, payload_not_object, step_ids_not_unique, FlowStep, FlowSpec, step_ids,
  topological_steps, validate_dependencies, all_distinct,
}

-- The entry of an array: no entry, a value of another type, or its items.
pub data ArrayEntry (A : Type 0) : Type 0 where
  no_array not_an_array : ArrayEntry A
  array : List A → ArrayEntry A

pub data ObjectEntry (O : Type 0) : Type 0 where
  no_object not_an_object : ObjectEntry O
  object : O → ObjectEntry O

-- A step as the document has it: the keys of the object, and the entries that are read.
pub data RawStep (O : Type 0) : Type 0 where
  not_a_step : RawStep O
  raw_step :
      (keys : List String) (step_id task_type : Value) (dependencies : ArrayEntry Value)
      → ObjectEntry O
      → RawStep O

pub data Document (O : Type 0) : Type 0 where
  not_a_document : Document O
  document :
      (keys : List String) (schema_version flow_id project_id : Value)
      → ArrayEntry (RawStep O)
      → ObjectEntry O
      → Document O

-- `_required_string`
unfoldable pub required_string : Value → String → Attempt FlowSpecError String
unfolding strip is_empty
required_string (str s) field =
    and_then (require (not (is_empty (strip s))) (is_required field)) λ _. returned (strip s)
required_string _ field = raised (not_a_string field)

-- The test of `_safe_identifier`.
unfoldable pub is_safe : String → Bool
unfolding has_char
is_safe s = not (has_char 47 s || has_char 92 s || s == "." || s == "..")

-- `_safe_identifier`
unfoldable pub safe_identifier : String → String → Attempt FlowSpecError String
unfolding strip is_safe
safe_identifier s field =
    and_then (require (is_safe (strip s)) (unsafe_identifier field)) λ _. returned (strip s)

-- A required string that is a safe identifier.
unfoldable pub identifier : Value → String → Attempt FlowSpecError String
unfolding required_string safe_identifier
identifier v field = and_then (required_string v field) λ s. safe_identifier s field

abbrev pub root_keys : List String
root_keys = "schema_version" ∷ "flow_id" ∷ "project_id" ∷ "steps" ∷ "metadata" ∷ []

abbrev pub step_keys : List String
step_keys = "step_id" ∷ "task_type" ∷ "dependencies" ∷ "payload" ∷ []

-- `set(mapping.keys()) - allowed`, in order.
unfoldable pub unknown_keys : List String → List String → List String
unfolding contains sort_by
unknown_keys allowed keys = sort_by str_lt (filter_by (λ k. not (contains k allowed)) keys)

abbrev pub is_nil : {A : Type 0} → List A → Bool
is_nil [] = true
is_nil (x ∷ xs) = false

abbrev pub items : {A : Type 0} → ArrayEntry A → FlowSpecError → Attempt FlowSpecError (List A)
items no_array e = returned []
items not_an_array e = raised e
items (array xs) e = returned xs

-- `steps` must be there.
abbrev pub required_items :
    {A : Type 0} → ArrayEntry A → FlowSpecError → Attempt FlowSpecError (List A)
required_items no_array e = raised e
required_items not_an_array e = raised e
required_items (array xs) e = returned xs

abbrev pub object_of : {O : Type 0} → O → ObjectEntry O → FlowSpecError → Attempt FlowSpecError O
object_of empty no_object e = returned empty
object_of empty not_an_object e = raised e
object_of empty (object o) e = returned o

-- The loop over the dependencies of a step.
unfoldable pub parse_dependencies : List Value → Attempt FlowSpecError (List String)
unfolding safe_identifier
parse_dependencies [] = returned []
parse_dependencies (str s ∷ vs) =
    and_then (safe_identifier s "dependency")
      λ d. and_then (parse_dependencies vs) λ ds. returned (d ∷ ds)
parse_dependencies (_ ∷ vs) = raised dependency_not_string

-- The three validations of the steps.
unfoldable pub validate_steps : {O : Type 0} → List (FlowStep O) → Attempt FlowSpecError (Unit {0})
unfolding all_distinct validate_dependencies topological_steps
validate_steps steps = and_then (require (all_distinct (step_ids steps)) step_ids_not_unique) λ _.
    and_then (validate_dependencies (step_ids steps) steps)
      λ _. and_then (topological_steps steps) λ _. returned tt

-- `empty` is the object `{}`.
module _ {O : Type 0} (empty : O) where
  -- `_parse_step`
  unfoldable pub parse_step : RawStep O → Attempt FlowSpecError (FlowStep O)
  unfolding unknown_keys identifier parse_dependencies all_distinct sort_by
  parse_step not_a_step = raised step_not_object
  parse_step (raw_step ks i t deps pay) =
      let unknown = unknown_keys step_keys ks in
      and_then (require (is_nil unknown) (unknown_step_fields unknown)) λ _.
        and_then (identifier i "step_id") λ step_id.
          and_then (identifier t "task_type") λ task_type.
            and_then (items deps dependencies_not_array) λ raw.
              and_then (parse_dependencies raw) λ ds.
                and_then (require (all_distinct ds) dependencies_not_unique) λ _.
                  and_then (object_of empty pay payload_not_object) λ payload. returned (record {
                    step_id = step_id;
                    task_type = task_type;
                    dependencies = sort_by str_lt ds;
                    payload = payload;
                  })

  unfoldable pub parse_steps : List (RawStep O) → Attempt FlowSpecError (List (FlowStep O))
  unfolding parse_step
  parse_steps [] = returned []
  parse_steps (r ∷ rs) =
      and_then (parse_step r) λ s. and_then (parse_steps rs) λ ss. returned (s ∷ ss)

  -- `parse`
  unfoldable pub parse : Document O → Attempt FlowSpecError (FlowSpec O)
  unfolding unknown_keys required_string identifier parse_steps validate_steps
  parse not_a_document = raised root_not_object
  parse (document ks version flow project raw_steps meta) =
      let unknown = unknown_keys root_keys ks in
      and_then (require (is_nil unknown) (unknown_root_fields unknown)) λ _.
        and_then (required_string version "schema_version") λ schema_version.
          and_then (require (schema_version == "1.0.0") (unsupported_version schema_version)) λ _.
            and_then (identifier flow "flow_id") λ flow_id.
              and_then (identifier project "project_id") λ project_id.
                and_then (required_items raw_steps steps_not_array) λ raws.
                  and_then (require (not (is_nil raws)) steps_empty) λ _.
                    and_then (object_of empty meta metadata_not_object) λ metadata.
                      and_then (parse_steps raws) λ steps. and_then (validate_steps steps) λ _.
                        returned (record {
                          schema_version = schema_version;
                          flow_id = flow_id;
                          project_id = project_id;
                          steps = steps;
                          metadata = metadata;
                        })
