-- ===== src/FlowSpec/Contract.antt =====
-- `FlowSpecExecutionContractValidator`, agent/runtime/flowspec_execution_contract.py. `unique` stands
-- for the test `len(xs) == len(set(xs))` on a list of any values, which can raise.
pub mod Distinct
pub mod Accepts
pub mod EndToEnd
use mitigate_ai_platform.Prelude.{
  String, Bool, true, false, not, List, [], ◌∷◌, ◌==◌, contains, str_lt, filter_by, sort_by, strip,
  is_empty, ℤ, ltb_ℤ, pos, Attempt, returned, raised, and_then, require, Value, str, number,
}
use mitigate_ai_platform.FlowSpec.{all_distinct}
use mitigate_ai_platform.FlowSpec.Parse.{
  ArrayEntry, no_array, not_an_array, array, ObjectEntry, no_object, not_an_object, object, is_nil,
  unknown_keys,
}
use mitigate_ai_platform.FlowSpec.Materialize.{
  Provenance, no_provenance, provenance, MissionRecord, not_a_mapping, mission_record,
  MaterializedFlow, mission_keys,
}

pub data ContractError : Type 0 where
  not_a_string is_required : String → ContractError
  missions_not_sequence missions_empty mission_not_object mission_ids_not_unique : ContractError
  missing_fields unknown_fields : List String → ContractError
  request_id_differs project_id_differs plan_id_differs provider_not_native status_not_pending :
      ContractError
  not_an_integer : String → ContractError
  max_retries_negative : ContractError
  dependencies_not_list dependencies_unhashable dependencies_not_unique dependency_not_string :
      ContractError
  depends_on_itself outside_flow not_ordered : ContractError
  payload_not_object metadata_not_object invalid_source flow_id_differs version_differs :
      ContractError

-- `ValidatedFlowExecution`
pub record ValidatedFlow : Type 0 where
  pub flow_id : String
  pub project_id : String
  pub mission_ids : List String

-- `_required_string`, and `_required_mapping_string`.
unfoldable pub text_field : Value → String → Attempt ContractError String
unfolding strip is_empty
text_field (str s) field =
    and_then (require (not (is_empty (strip s))) (is_required field)) λ _. returned (strip s)
text_field _ field = raised (not_a_string field)

abbrev integer_field : Value → String → Attempt ContractError ℤ
integer_field (number n) field = returned n
integer_field _ field = raised (not_an_integer field)

-- `a == b` of an entry and a text.
abbrev is_text : Value → String → Bool
is_text (str s) t = s == t
is_text _ t = false

-- The loop over the dependencies of one mission.
unfoldable pub check_ordered :
    String → List String → List String → List Value → Attempt ContractError (Unit {0})
unfolding contains strip is_empty
check_ordered mission ids seen [] = returned tt
check_ordered mission ids seen (str d ∷ ds) =
    and_then (require (not (is_empty (strip d))) dependency_not_string) λ _.
      and_then (require (not (d == mission)) depends_on_itself) λ _.
        and_then (require (contains d ids) outside_flow) λ _.
          and_then (require (contains d seen) not_ordered) λ _. check_ordered mission ids seen ds
check_ordered mission ids seen (_ ∷ ds) = raised dependency_not_string

-- The tests of the entry `metadata`.
unfoldable pub check_provenance : Provenance → String → Attempt ContractError (Unit {0})
check_provenance no_provenance flow = raised metadata_not_object
check_provenance (provenance source f version) flow =
    and_then (require (is_text source "flowspec_v1") invalid_source) λ _.
      and_then (require (is_text f flow) flow_id_differs)
        λ _. require (is_text version "1.0.0") version_differs

abbrev listed : ArrayEntry Value → Attempt ContractError (List Value)
listed (array vs) = returned vs
listed _ = raised dependencies_not_list

abbrev require_object : {O : Type 0} → ObjectEntry O → Attempt ContractError (Unit {0})
require_object (object o) = returned tt
require_object _ = raised payload_not_object

-- The fields that a set of keys lacks.
unfoldable pub missing_keys : List String → List String
unfolding contains sort_by
missing_keys keys = sort_by str_lt (filter_by (λ k. not (contains k keys)) mission_keys)

-- `seen.add(str(mission["mission_id"]))`, after the validation, which lets only a text through.
abbrev pub seen_after : {O : Type 0} → MissionRecord O → List String → List String
seen_after (mission_record ks (str m) r p l s t v u pr ds mr pay meta) seen = m ∷ seen
seen_after _ seen = seen

module _ {O : Type 0} (unique : List Value → Attempt ContractError Bool) where
  -- `_validate_mission`
  unfoldable pub validate_mission :
      MissionRecord O
      → String
      → String
      → List String
      → List String
      → Attempt ContractError (Unit {0})
  unfolding missing_keys unknown_keys text_field check_ordered check_provenance
  validate_mission not_a_mapping flow project ids seen = raised mission_not_object
  validate_mission (mission_record ks m r p l s t v u pr deps mr pay meta) flow project ids seen =
      let missing_ones = missing_keys ks in
      let unknown = unknown_keys mission_keys ks in
      and_then (require (is_nil missing_ones) (missing_fields missing_ones)) λ _.
        and_then (require (is_nil unknown) (unknown_fields unknown)) λ _.
          and_then (text_field m "mission_id") λ mission.
            and_then (text_field r "request_id") λ request.
              and_then (require (request == mission) request_id_differs) λ _.
                and_then (text_field p "project_id") λ mission_project.
                  and_then (require (mission_project == project) project_id_differs) λ _.
                    and_then (text_field l "plan_id") λ plan.
                      and_then (require (plan == flow) plan_id_differs) λ _.
                        and_then (text_field s "step_id") λ _.
                          and_then (text_field t "task_type") λ _.
                            and_then (text_field v "provider_id") λ provider.
                              and_then (require (provider == "native") provider_not_native) λ _.
                                and_then (text_field u "status") λ status.
                                  and_then (require (status == "pending") status_not_pending) λ _.
                                    and_then (integer_field pr "priority") λ _.
                                      and_then (integer_field mr "max_retries") λ retries.
                                        and_then
                                          (require (not (ltb_ℤ retries (pos 0)))
                                            max_retries_negative)
                                          λ _. and_then (listed deps) λ ds.
                                            and_then (unique ds) λ is_unique.
                                              and_then (require is_unique dependencies_not_unique)
                                                λ _.
                                                  and_then (check_ordered mission ids seen ds) λ _.
                                                    and_then (require_object pay)
                                                      λ _. check_provenance meta flow

  -- The first loop: the ids of the missions.
  unfoldable pub collect_ids : List (MissionRecord O) → Attempt ContractError (List String)
  unfolding text_field
  collect_ids [] = returned []
  collect_ids (not_a_mapping ∷ ms) = raised mission_not_object
  collect_ids (mission_record ks m r p l s t v u pr deps mr pay meta ∷ ms) =
      and_then (text_field m "mission_id")
        λ id. and_then (collect_ids ms) λ ids. returned (id ∷ ids)

  -- The second loop.
  unfoldable pub validate_missions :
      String
      → String
      → List String
      → List String
      → List (MissionRecord O)
      → Attempt ContractError (Unit {0})
  unfolding validate_mission
  validate_missions flow project ids seen [] = returned tt
  validate_missions flow project ids seen (m ∷ ms) =
      and_then (validate_mission m flow project ids seen)
        λ _. validate_missions flow project ids (seen_after m seen) ms

  abbrev sequence : ArrayEntry (MissionRecord O) → Attempt ContractError (List (MissionRecord O))
  sequence (array ms) = returned ms
  sequence _ = raised missions_not_sequence

  -- `validate`
  unfoldable pub validate : MaterializedFlow O → Attempt ContractError ValidatedFlow
  unfolding text_field collect_ids validate_missions all_distinct
  validate flow = and_then (text_field flow.flow_id "flow_id") λ flow_id.
      and_then (text_field flow.project_id "project_id") λ project_id.
        and_then (sequence flow.missions) λ missions.
          and_then (require (not (is_nil missions)) missions_empty) λ _.
            and_then (collect_ids missions) λ ids.
              and_then (require (all_distinct ids) mission_ids_not_unique) λ _.
                and_then (validate_missions flow_id project_id ids [] missions) λ _.
                  returned
                    (record { flow_id = flow_id; project_id = project_id; mission_ids = ids })
