-- ===== src/Idempotency.antt =====
-- The idempotency contract of executions, agent/runtime/idempotent_execution_contract.py. The stored
-- identity is a mapping from fields to values of any type.
pub mod Replay
use mitigate_ai_platform.Prelude.{
  String, not, List, [], ◌∷◌, ◌==◌, if◌then◌else◌, strip, is_empty, Option, none, some, ℤ, pos,
  leb_ℤ, Attempt, returned, raised, and_then, require, Value, missing, other, str, number, flag,
}

pub data IdempotencyDecision : Type 0 where
  new replay conflict : IdempotencyDecision

pub record IdempotentExecutionIdentity : Type 0 where
  pub project_id : Value
  pub request_id : Value
  pub mission_id : Value
  pub execution_id : Value
  pub attempts_done : Value

-- An identity after `validate_identity`.
pub record ValidIdentity : Type 0 where
  pub project_id : String
  pub request_id : String
  pub mission_id : String
  pub execution_id : String
  pub attempts_done : ℤ

pub record IdempotencyResult : Type 0 where
  pub decision : IdempotencyDecision
  pub reason : String

pub data ContractError : Type 0 where
  must_be_text is_required : String → ContractError
  attempts_not_integer attempts_negative existing_not_mapping : ContractError

-- `_required_string`
unfoldable pub required_string : Value → String → Attempt ContractError String
unfolding strip is_empty
required_string (str s) field =
    and_then (require (not (is_empty (strip s))) (is_required field)) λ _. returned (strip s)
required_string _ field = raised (must_be_text field)

-- The two tests on `attempts_done`.
unfoldable pub attempts : Value → Attempt ContractError ℤ
attempts (number n) = and_then (require (leb_ℤ (pos 0) n) attempts_negative) λ _. returned n
attempts _ = raised attempts_not_integer

unfoldable pub validate_identity : IdempotentExecutionIdentity → Attempt ContractError ValidIdentity
unfolding required_string attempts
validate_identity i = and_then (required_string i.project_id "project_id") λ project_id.
    and_then (required_string i.request_id "request_id") λ request_id.
      and_then (required_string i.mission_id "mission_id") λ mission_id.
        and_then (required_string i.execution_id "execution_id") λ execution_id.
          and_then (attempts i.attempts_done) λ attempts_done. returned (record {
            project_id = project_id;
            request_id = request_id;
            mission_id = mission_id;
            execution_id = execution_id;
            attempts_done = attempts_done;
          })

-- What `classify` is given as the identity that is already stored.
pub data Existing : Type 0 where
  nothing not_a_mapping : Existing
  mapping : List (String × Value) → Existing

-- `mapping.get(field)`
unfoldable pub entry : List (String × Value) → String → Value
entry [] field = missing
entry (e ∷ es) field = if e.0 == field then e.1 else entry es field

-- `_mapping_string`
unfoldable pub mapping_string : List (String × Value) → String → Attempt ContractError String
unfolding entry required_string
mapping_string m field = required_string (entry m field) field

abbrev conclude : IdempotencyDecision → String → Attempt ContractError IdempotencyResult
conclude d r = returned (record { decision = d; reason = r })

-- The comparisons, in their order: a text is read only when the comparison before it has passed.
abbrev pub decide :
    ValidIdentity
    → (execution_id project_id request_id mission_id : Attempt ContractError String)
    → Attempt ContractError IdempotencyResult
decide i execution_id project_id request_id mission_id = and_then execution_id λ e.
    if not (e == i.execution_id)
    then conclude new "different_execution_identity"
    else and_then project_id λ p. and_then request_id λ r. and_then mission_id λ m.
      if not (p == i.project_id)
      then conclude conflict "execution_id_project_conflict"
      else if not (r == i.request_id)
      then conclude conflict "execution_id_request_conflict"
      else if not (m == i.mission_id)
      then conclude conflict "execution_id_mission_conflict"
      else conclude replay "same_logical_execution"

-- The comparison of a valid identity with the stored one.
unfoldable pub compare_identity : ValidIdentity → Existing → Attempt ContractError IdempotencyResult
unfolding mapping_string
compare_identity i nothing = conclude new "execution_identity_not_seen"
compare_identity i not_a_mapping = raised existing_not_mapping
compare_identity i (mapping m) =
    decide i (mapping_string m "execution_id") (mapping_string m "project_id")
      (mapping_string m "request_id") (mapping_string m "mission_id")

unfoldable pub classify :
    IdempotentExecutionIdentity → Existing → Attempt ContractError IdempotencyResult
unfolding validate_identity compare_identity
classify incoming existing = and_then (validate_identity incoming) λ i. compare_identity i existing
