-- ===== src/RetryEngine/Guidance.antt =====
-- Failures, and `_build_corrective_instructions` and `_category_guidance` of agent/ai/retry_engine.py.
use Prim.Native.String.{◌++◌}
use mitigate_ai_platform.Prelude.{String, Bool, Option, none, some, List, [], ◌∷◌, strip}

pub data FailureCategory : Type 0 where
  generation parsing policy compilation validation testing provider git unknown : FailureCategory

-- `FailureContext`; `details` is never read.
pub record FailureContext : Type 0 where
  pub category : FailureCategory
  pub summary : String
  pub test_failures : List String
  pub validation_failures : List String
  pub error_output : Option String
  pub policy_violation : Bool
  pub unsafe_path_violation : Bool
  pub secret_exposure : Bool
  pub dirty_repo : Bool
  pub git_integrity_error : Bool
  pub provider_unavailable : Bool
  pub provider_auth_error : Bool
  pub provider_billing_error : Bool
  pub invalid_ai_output : Bool
  pub missing_deliverables : Bool

abbrev category_value : FailureCategory → String
category_value generation = "generation"
category_value parsing = "parsing"
category_value policy = "policy"
category_value compilation = "compilation"
category_value validation = "validation"
category_value testing = "testing"
category_value provider = "provider"
category_value git = "git"
category_value unknown = "unknown"

-- `"\n".join(lines)`
unfoldable pub join_lines : List String → String
join_lines [] = ""
join_lines (l ∷ []) = l
join_lines (l ∷ m ∷ ls) = l ++ "\n" ++ join_lines (m ∷ ls)

abbrev remedies : FailureCategory → List String → List String
remedies compilation rest =
    "- Identify syntax and import errors deterministically."
    ∷ "- Correct type hints and resolve missing symbols."
    ∷ "- Ensure Python 3.12 compatibility without adding dependencies." ∷ rest
remedies validation rest =
    "- Address each validation failure directly and deterministically."
    ∷ "- Keep behavior unchanged outside the failing areas." ∷ rest
remedies testing rest =
    "- Reproduce the failing tests deterministically."
    ∷ "- Fix logic while maintaining public contracts." ∷ "- Do not remove or skip tests." ∷ rest
remedies parsing rest =
    "- Produce valid JSON with stable key ordering and required fields."
    ∷ "- Avoid trailing commas and ensure correct data types." ∷ rest
remedies generation rest =
    "- Provide all required deliverables."
    ∷ "- Ensure correct file paths and English-only source and comments." ∷ rest
remedies provider rest =
    "- Provider issue detected; adjust prompt deterministically if applicable."
    ∷ "- Do not include secrets or tokens in any output." ∷ rest
remedies policy rest = "- Policy violation detected. Do not proceed." ∷ rest
remedies git rest = "- Git integrity issue detected. Stop and request manual intervention." ∷ rest
remedies unknown rest = "- Analyze logs deterministically and correct minimal surface area." ∷ rest

-- `_category_guidance`
unfoldable pub category_guidance : FailureCategory → List String
category_guidance c =
    "Deterministic Remediation Steps:"
    ∷ remedies c ("- Re-run validation and unit tests. Declare success only if all pass." ∷ [])

-- A titled list of items, if there are any, in front of the rest.
abbrev section : String → List String → List String → List String
section title [] rest = rest
section title (x ∷ xs) rest = title ∷ listed (x ∷ xs)
  where
    listed : List String → List String
    listed [] = rest
    listed (y ∷ ys) = ("- " ++ y) ∷ listed ys

abbrev output_lines : Option String → List String → List String
output_lines none rest = rest
output_lines (some text) rest = "Relevant Error Output (sanitized):" ∷ text ∷ rest

-- `_build_corrective_instructions`, given the sanitized error output, if there is one.
unfoldable pub corrective_instructions : String → FailureContext → Option String → String
unfolding join_lines category_guidance strip
corrective_instructions requirements f output = join_lines (
    "Follow these corrective steps deterministically. Do not deviate."
    ∷ ""
    ∷ "Mission Requirements (preserve exactly):"
    ∷ strip requirements
    ∷ ""
    ∷ ("Failure Category: " ++ category_value f.category)
    ∷ ("Error Summary: " ++ f.summary)
    ∷ section "Validation Failures:" f.validation_failures (
        section "Test Failures:" f.test_failures
          (output_lines output ("" ∷ category_guidance f.category))))
