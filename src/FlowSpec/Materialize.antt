-- ===== src/FlowSpec/Materialize.antt =====
-- `FlowSpecMissionMaterializer`, agent/runtime/flowspec_materializer.py. `digest` stands for the first
-- 16 characters of `sha256(...).hexdigest()`.
use Prim.Native.String.{◌++◌}
use mitigate_ai_platform.Prelude.{
  String, List, [], ◌∷◌, contains, strip, pos, Attempt, returned, and_then, require, Value, str,
  number,
}
use mitigate_ai_platform.FlowSpec.{
  FlowSpecError, key_error, FlowStep, FlowSpec, step_ids, topological_steps,
}
use mitigate_ai_platform.FlowSpec.Parse.{ArrayEntry, array, ObjectEntry, object, Document, parse}

-- The entry `metadata` of a mission, and its entries that are read.
pub data Provenance : Type 0 where
  no_provenance : Provenance
  provenance : (source flow_id schema_version : Value) → Provenance

-- A mission record: its keys, and the entries by key.
pub data MissionRecord (O : Type 0) : Type 0 where
  not_a_mapping : MissionRecord O
  mission_record :
      (keys : List String)
      (mission_id request_id project_id plan_id step_id task_type provider_id status : Value)
      (priority : Value) (dependencies : ArrayEntry Value) (max_retries : Value)
      → ObjectEntry O
      → Provenance
      → MissionRecord O

pub record MaterializedFlow (O : Type 0) : Type 0 where
  pub flow_id : Value
  pub project_id : Value
  pub missions : ArrayEntry (MissionRecord O)

abbrev pub mission_keys : List String
mission_keys =
    "mission_id" ∷ "request_id" ∷ "project_id" ∷ "plan_id" ∷ "step_id" ∷ "task_type" ∷ "provider_id"
    ∷ "status" ∷ "priority" ∷ "dependencies" ∷ "max_retries" ∷ "payload" ∷ "metadata" ∷ []

module _ (digest : String → String) where
  -- `_mission_id`
  unfoldable pub mission_id : String → String → String
  unfolding strip
  mission_id flow_id step_id = "flow-" ++ digest (strip flow_id ++ "|" ++ strip step_id)

  -- `[mission_ids[dependency] for dependency in step.dependencies]`, where `known` are the keys.
  unfoldable pub dependency_ids :
      String → List String → List String → Attempt FlowSpecError (List Value)
  unfolding contains mission_id
  dependency_ids flow_id known [] = returned []
  dependency_ids flow_id known (d ∷ ds) = and_then (require (contains d known) key_error) λ _.
      and_then (dependency_ids flow_id known ds)
        λ rest. returned (str (mission_id flow_id d) ∷ rest)

  -- The record of one step.
  unfoldable pub mission_of : {O : Type 0} → FlowSpec O → FlowStep O → List Value → MissionRecord O
  unfolding mission_id
  mission_of spec step dependencies =
      let m = str (mission_id spec.flow_id step.step_id) in
      mission_record mission_keys m m (str spec.project_id) (str spec.flow_id) (str step.step_id)
        (str step.task_type) (str "native") (str "pending") (number (pos 100)) (array dependencies)
        (number (pos 0)) (object step.payload)
        (provenance (str "flowspec_v1") (str spec.flow_id) (str spec.schema_version))

  -- The loop over the ordered steps.
  unfoldable pub missions_of :
      {O : Type 0}
      → FlowSpec O
      → List String
      → List (FlowStep O)
      → Attempt FlowSpecError (List (MissionRecord O))
  unfolding dependency_ids mission_of
  missions_of spec known [] = returned []
  missions_of spec known (s ∷ ss) =
      and_then (dependency_ids spec.flow_id known s.dependencies)
        λ ds. and_then (missions_of spec known ss) λ rest. returned (mission_of spec s ds ∷ rest)

  unfoldable pub preview : {O : Type 0} → FlowSpec O → Attempt FlowSpecError (MaterializedFlow O)
  unfolding topological_steps missions_of
  preview spec = and_then (topological_steps spec.steps) λ ordered.
      and_then (missions_of spec (step_ids ordered) ordered) λ missions. returned (record {
        flow_id = str spec.flow_id;
        project_id = str spec.project_id;
        missions = array missions;
      })

  unfoldable pub preview_document :
      {O : Type 0} → O → Document O → Attempt FlowSpecError (MaterializedFlow O)
  unfolding parse preview
  preview_document empty d = and_then (parse empty d) λ spec. preview spec
