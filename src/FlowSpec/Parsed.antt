-- ===== src/FlowSpec/Parsed.antt =====
-- What the parts of a specification are that `FlowSpecValidator.parse` (agent/runtime/flowspec.py)
-- returns: texts without spaces around them, and distinct dependencies.
use mitigate_ai_platform.Prelude.{
  require-true, Ensures, Ensures-bind, Ensures-returned, String, true, false, not, List, [], ◌∷◌,
  ◌==◌, eq_iff, strip, is_empty, strip-strip, All, returned, require, Value, str, number, flag,
  missing, other, and_then-eq-returned, ◌≡◌, ◌∙◌, refl, sym, subst, arith,
}
use mitigate_ai_platform.FlowSpec.{
  FlowStep, FlowSpec, unknown_step_fields, unknown_root_fields, unsupported_version,
  steps_not_array, steps_empty, metadata_not_object, dependencies_not_array,
  dependencies_not_unique, payload_not_object, all_distinct, is_required, unsafe_identifier,
}
use mitigate_ai_platform.FlowSpec.Parse.{
  Document, document, not_a_document, RawStep, raw_step, not_a_step, parse, parse_step, parse_steps,
  parse_dependencies, items, validate_steps, unknown_keys, root_keys, step_keys, is_nil, is_safe,
  required_string, safe_identifier, identifier, required_items, object_of,
}
use mitigate_ai_platform.FlowSpec.Release.{all_distinct-sort_by}

-- A text that is not empty and has no space around it.
abbrev pub IsClean : String → Type 0
IsClean s = (strip s ≡ s) × (is_empty s ≡ false)

required-IsClean : (v : Value) (field s : String) → required_string v field ≡ returned s → IsClean s
unfolding required_string
required-IsClean (str t) field s h =
    let (_, full, e) =
      and_then-eq-returned (require (not (is_empty (strip t))) (is_required field))
        (λ _. returned (strip t)) h in
    let solid = require-true (not (is_empty (strip t))) (is_required field) full in
    let same : strip t ≡ s = cc in subst IsClean same (strip-strip t, ground (arith, solid))
required-IsClean (number n) field s h = cc
required-IsClean (flag b) field s h = cc
required-IsClean missing field s h = cc
required-IsClean other field s h = cc

identifier-IsClean : (v : Value) (field s : String) → identifier v field ≡ returned s → IsClean s
unfolding identifier safe_identifier
identifier-IsClean v field s h =
    let (t, first, h') =
      and_then-eq-returned (required_string v field) (λ t. safe_identifier t field) h in
    let clean = required-IsClean v field t first in
    let (_, _, e) =
      and_then-eq-returned (require (is_safe (strip t)) (unsafe_identifier field))
        (λ _. returned (strip t)) h' in
    let same : strip t ≡ s = cc in subst IsClean (sym clean.0 ∙ same) clean

abbrev pub IsCleanStep : {O : Type 0} → FlowStep O → Type 0
IsCleanStep s = IsClean s.step_id × IsClean s.task_type × (all_distinct s.dependencies ≡ true)

-- What is known of a specification that is returned.
abbrev pub IsParsed : {O : Type 0} → FlowSpec O → Type 0
IsParsed spec =
    (spec.schema_version ≡ "1.0.0")
    × IsClean spec.flow_id
    × IsClean spec.project_id
    × (is_nil spec.steps ≡ false)
    × All IsCleanStep spec.steps
    × (validate_steps spec.steps ≡ returned tt)

module _ {O : Type 0} (empty : O) where
  parse_step-Ensures : (r : RawStep O) → Ensures IsCleanStep (parse_step empty r)
  unfolding parse_step
  parse_step-Ensures not_a_step = record { ensured = tt }
  parse_step-Ensures (raw_step ks i t deps pay) =
      let unknown = unknown_keys step_keys ks in
      Ensures-bind (require (is_nil unknown) (unknown_step_fields unknown)) _ λ _ _.
        Ensures-bind (identifier i "step_id") _ λ step_id hi.
          Ensures-bind (identifier t "task_type") _ λ task_type ht.
            Ensures-bind (items deps dependencies_not_array) _ λ raw _.
              Ensures-bind (parse_dependencies raw) _ λ ds _.
                Ensures-bind (require (all_distinct ds) dependencies_not_unique) _ λ _ hd.
                  Ensures-bind (object_of empty pay payload_not_object) _ λ payload _. record {
                    ensured = (
                      identifier-IsClean i "step_id" step_id hi,
                      identifier-IsClean t "task_type" task_type ht,
                      all_distinct-sort_by ds
                          ∙ require-true (all_distinct ds) dependencies_not_unique hd,
                    );
                  }

  abbrev IsCleanList : {R : Type 0} → List R → List (FlowStep O) → Type 0
  IsCleanList rs steps = (is_nil steps ≡ is_nil rs) × All IsCleanStep steps

  parse_steps-Ensures : (rs : List (RawStep O)) → Ensures (IsCleanList rs) (parse_steps empty rs)
  unfolding parse_steps
  parse_steps-Ensures [] = record { ensured = (refl, tt) }
  parse_steps-Ensures (r ∷ rs) = Ensures-bind (parse_step empty r) _ λ s hs.
      Ensures-bind (parse_steps empty rs) _ λ ss hss. record {
        ensured = (
          refl,
          (
            Ensures-returned (parse_step empty r) (parse_step-Ensures r) hs,
            (Ensures-returned (parse_steps empty rs) (parse_steps-Ensures rs) hss).1,
          ),
        );
      }

  parse-Ensures-IsParsed : (d : Document O) → Ensures IsParsed (parse empty d)
  unfolding parse
  parse-Ensures-IsParsed not_a_document = record { ensured = tt }
  parse-Ensures-IsParsed (document ks v f p rs m) =
      let unknown = unknown_keys root_keys ks in
      Ensures-bind (require (is_nil unknown) (unknown_root_fields unknown)) _ λ _ _.
        Ensures-bind (required_string v "schema_version") _ λ version _.
          Ensures-bind (require (version == "1.0.0") (unsupported_version version)) _ λ _ hv.
            Ensures-bind (identifier f "flow_id") _ λ flow hf.
              Ensures-bind (identifier p "project_id") _ λ project hp.
                Ensures-bind (required_items rs steps_not_array) _ λ raws _.
                  Ensures-bind (require (not (is_nil raws)) steps_empty) _ λ _ hn.
                    Ensures-bind (object_of empty m metadata_not_object) _ λ _ _.
                      Ensures-bind (parse_steps empty raws) _ λ steps hs.
                        Ensures-bind (validate_steps steps) _ λ _ valid. record {
                          ensured =
                              let clean =
                                Ensures-returned (parse_steps empty raws) (parse_steps-Ensures raws)
                                  hs in
                              let full = require-true (not (is_nil raws)) steps_empty hn in
                              (
                                (eq_iff version "1.0.0").0 (
                                    require-true (version == "1.0.0") (unsupported_version version)
                                      hv),
                                identifier-IsClean f "flow_id" flow hf,
                                identifier-IsClean p "project_id" project hp,
                                clean.0 ∙ ground (arith, full),
                                clean.1,
                                valid,
                              );
                        }

  pub parse-IsParsed :
      (d : Document O) (spec : FlowSpec O) → parse empty d ≡ returned spec → IsParsed spec
  parse-IsParsed d spec h = Ensures-returned (parse empty d) (parse-Ensures-IsParsed d) h
