-- ===== src/FlowSpec/Contract/Accepts.antt =====
-- The records that agent/runtime/flowspec_materializer.py makes of a parsed specification, and the
-- contract of agent/runtime/flowspec_execution_contract.py.
use Prim.Native.String.{◌++◌}
use Prim.Native.String.append
use mitigate_ai_platform.Prelude.{
  String, Bool, true, false, ◌||◌, List, [], ◌∷◌, map, ◌==◌, eq_iff, eq_refl, contains, strip,
  is_empty, has_no_space, strip_no_space, has_no_space-append, sort_by, All, All-Elem, Attempt,
  returned, Value, str, ◌≡◌, ◌∙◌, refl, sym, ap, subst, arith, Bool-cases, inl, inr,
}
use mathlib.Core.Bool.{false≢true}
use mitigate_ai_platform.FlowSpec.{FlowStep, FlowSpec, step_ids, all_distinct}
use mitigate_ai_platform.FlowSpec.Parse.{unknown_keys}
use mitigate_ai_platform.FlowSpec.Parsed.{IsClean, IsCleanStep}
use mitigate_ai_platform.FlowSpec.Topology.{Follows}
use mitigate_ai_platform.FlowSpec.Materialize.{
  MissionRecord, mission_id, dependency_ids, mission_of, missions_of,
}
use mitigate_ai_platform.FlowSpec.Contract.{
  ContractError, check_ordered, collect_ids, validate_mission, validate_missions, missing_keys,
  check_provenance, seen_after,
}
use mitigate_ai_platform.FlowSpec.Contract.Distinct.{
  IsInjectiveOn, all_distinct-map, text_field_clean,
}

module _ {O : Type 0} (digest : String → String) (spec : FlowSpec O)
    (solid : (t : String) → has_no_space (digest t) ≡ true) where
  abbrev pub id_of : String → String
  id_of u = mission_id digest spec.flow_id u

  mission_id-IsClean : (u : String) → IsClean (id_of u)
  unfolding mission_id has_no_space is_empty
  mission_id-IsClean u =
      let code = digest (strip spec.flow_id ++ "|" ++ strip u) in
      (
        strip_no_space (id_of u) (has_no_space-append "flow-" code ∙ solid code_input),
        ap is_empty (append.cons "f" "low-" code),
      )
    where
      code_input : String
      code_input = strip spec.flow_id ++ "|" ++ strip u

  -- The ids of the dependencies, as the record has them.
  abbrev ids_of : List String → List Value
  ids_of ds = map (λ d. str (id_of d)) ds

  ids_of-map : (ds : List String) → ids_of ds ≡ map str (map id_of ds)
  ids_of-map [] = refl
  ids_of-map (d ∷ ds) = ap (λ rest. str (id_of d) ∷ rest) (ids_of-map ds)

  abbrev pub record_of : FlowStep O → MissionRecord O
  record_of s = mission_of digest spec s (ids_of s.dependencies)

  dependency_ids-eq :
      (known ds : List String)
      → All (λ d. contains d known ≡ true) ds
      → dependency_ids digest spec.flow_id known ds ≡ returned (ids_of ds)
  unfolding dependency_ids
  dependency_ids-eq known [] h = refl
  dependency_ids-eq known (d ∷ ds) h = rw h.0 (rw (dependency_ids-eq known ds h.1) refl)

  pub missions_of-eq :
      (known : List String) (ss : List (FlowStep O))
      → All (λ s. All (λ d. contains d known ≡ true) s.dependencies) ss
      → missions_of digest spec known ss ≡ returned (map record_of ss)
  unfolding missions_of
  missions_of-eq known [] h = refl
  missions_of-eq known (s ∷ ss) h =
      rw (dependency_ids-eq known s.dependencies h.0) (rw (missions_of-eq known ss h.1) refl)

  pub collect_ids-eq :
      (unique : List Value → Attempt ContractError Bool) (ss : List (FlowStep O))
      → collect_ids unique (map record_of ss) ≡ returned (map id_of (step_ids ss))
  unfolding collect_ids mission_of
  collect_ids-eq unique [] = refl
  collect_ids-eq unique (s ∷ ss) =
      rw (text_field_clean (id_of s.step_id) "mission_id" (mission_id-IsClean s.step_id))
        (rw (collect_ids-eq unique ss) refl)

  -- The dependencies are behind the mission, in the flow, and not the mission itself.
  module _ (known done : List String) (apart : IsInjectiveOn known id_of)
      (inside : (v : String) → contains v done ≡ true → contains v known ≡ true) where
    inside-All :
        (ds : List String)
        → All (λ d. contains d done ≡ true) ds
        → All (λ d. contains d known ≡ true) ds
    inside-All [] h = tt
    inside-All (d ∷ ds) h = (inside d h.0, inside-All ds h.1)

    contains-map_self :
        (u : String) (vs : List String)
        → contains u vs ≡ true
        → contains (id_of u) (map id_of vs) ≡ true
    unfolding contains
    contains-map_self u [] h = cc
    contains-map_self u (v ∷ vs) h = elim (Bool-cases (v == u)) [
      | inl same ↦
          let e = (eq_iff (id_of v) (id_of u)).1 (ap id_of ((eq_iff v u).0 same)) in rw e refl
      | inr other ↦ ground (arith, contains-map_self u vs (rw other at h))
    ]

    check_ordered-eq :
        (u : String) (ds : List String)
        → contains u known ≡ true
        → contains u done ≡ false
        → All (λ d. contains d done ≡ true) ds
        → check_ordered (id_of u) (map id_of known) (map id_of done) (ids_of ds) ≡ returned tt
    unfolding check_ordered
    check_ordered-eq u [] hu new h = refl
    check_ordered-eq u (d ∷ ds) hu new h =
        let (same, full) = mission_id-IsClean d in
        rw (ap is_empty same ∙ full) (
          rw differ (
            rw (contains-map_self d known (inside d h.0))
              (rw (contains-map_self d done h.0) (check_ordered-eq u ds hu new h.1))))
      where
        differ : id_of d == id_of u ≡ false
        differ = elim (Bool-cases (id_of d == id_of u)) [
          | inl same ↦
              let e = apart d u (inside d h.0) hu ((eq_iff (id_of d) (id_of u)).0 same) in
              absurd (false≢true (sym new ∙ subst (λ w. contains w done ≡ true) e h.0))
          | inr other ↦ other
        ]

    -- The hypotheses of the contract on one mission.
    validate_mission-eq :
        (unique : List Value → Attempt ContractError Bool) (s : FlowStep O)
        → ((ds : List String) → unique (map str ds) ≡ returned (all_distinct ds))
        → spec.schema_version ≡ "1.0.0"
        → IsClean spec.flow_id
        → IsClean spec.project_id
        → IsCleanStep s
        → contains s.step_id known ≡ true
        → contains s.step_id done ≡ false
        → All (λ d. contains d done ≡ true) s.dependencies
        → validate_mission unique
            (record_of s)
            spec.flow_id
            spec.project_id
            (map id_of known)
            (map id_of done)
          ≡ returned tt
    unfolding validate_mission mission_of missing_keys unknown_keys check_provenance sort_by
        contains
    validate_mission-eq unique s is_set version flow project clean hk hn hd =
        rw (text_field_clean (id_of s.step_id) "mission_id" (mission_id-IsClean s.step_id)) (
          rw (text_field_clean (id_of s.step_id) "request_id" (mission_id-IsClean s.step_id)) (
            rw (eq_refl (id_of s.step_id)) (
              rw (text_field_clean spec.project_id "project_id" project) (
                rw (eq_refl spec.project_id) (
                  rw (text_field_clean spec.flow_id "plan_id" flow) (
                    rw (eq_refl spec.flow_id) (
                      rw (text_field_clean s.step_id "step_id" clean.0) (
                        rw (text_field_clean s.task_type "task_type" clean.1) (
                          rw is_unique (
                            rw (check_ordered-eq s.step_id s.dependencies hk hn hd)
                              (rw ((eq_iff spec.schema_version "1.0.0").1 version) refl)))))))))))
      where
        is_unique : unique (ids_of s.dependencies) ≡ returned true
        is_unique =
            ap unique (ids_of-map s.dependencies)
            ∙ is_set (map id_of s.dependencies)
            ∙ ap returned (
                all_distinct-map known id_of apart s.dependencies (inside-All s.dependencies hd)
                ∙ clean.2)

  module _ (known : List String) (apart : IsInjectiveOn known id_of) (steps : List (FlowStep O))
      (unique : List Value → Attempt ContractError Bool)
      (is_set : (ds : List String) → unique (map str ds) ≡ returned (all_distinct ds))
      (version : spec.schema_version ≡ "1.0.0") (flow : IsClean spec.flow_id)
      (project : IsClean spec.project_id) (clean : All IsCleanStep steps) where
    -- The second loop of the contract, on steps that follow those that are done.
    pub validate_missions-eq :
        (done : List String) (ss : List (FlowStep O))
        → Follows steps done ss
        → ((v : String)
            → (contains v done || contains v (step_ids ss)) ≡ true
            → contains v known ≡ true)
        → validate_missions unique spec.flow_id spec.project_id
            (map id_of known)
            (map id_of done)
            (map record_of ss)
          ≡ returned tt
    unfolding validate_missions contains
    validate_missions-eq done [] f inside = refl
    validate_missions-eq done (s ∷ ss) (m, new, ds, rest) inside =
        let behind : (v : String) → contains v done ≡ true → contains v known ≡ true =
          λ v k. inside v (ground (arith, k)) in
        let here : contains s.step_id known ≡ true =
          inside s.step_id (ground (arith, eq_refl s.step_id)) in
        rw
          (validate_mission-eq known done apart behind unique s is_set version flow project
            (All-Elem IsCleanStep steps clean m) here new ds)
          (again
            (validate_missions-eq (s.step_id ∷ done) ss rest λ v k. inside v (ground (arith, k))))
      where
        again :
            validate_missions unique spec.flow_id spec.project_id
                (map id_of known)
                (id_of s.step_id ∷ map id_of done)
                (map record_of ss)
              ≡ returned tt
            → validate_missions unique spec.flow_id spec.project_id
                (map id_of known)
                (seen_after (record_of s) (map id_of done))
                (map record_of ss)
              ≡ returned tt
        again e = unfold mission_of in e
