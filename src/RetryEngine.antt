-- ===== src/RetryEngine.antt =====
-- `RetryEngine`, agent/ai/retry_engine.py. `redact` stands for `_redact`, the substitutions of regular
-- expressions, and the time of a call is an argument; the logger is left out.
pub mod Guidance
pub mod Kept
use Prim.Native.Char.{code}
use mitigate_ai_platform.Prelude.{
  ℕ, suc, ◌+◌, ◌-◌, ◌≤◌, String, Bool, true, false, not, ◌&&◌, ◌||◌, Option, none, some, List, [],
  ◌∷◌, ◌++◌, leb, ltb, if◌then◌else◌, is_empty, any, length, ℤ, pos, negsuc, Attempt, returned,
  raised, and_then, require,
}
use mitigate_ai_platform.RetryEngine.Guidance.{
  FailureCategory, generation, parsing, policy, compilation, validation, testing, provider, git,
  unknown, FailureContext, corrective_instructions,
}

pub data FinalStatus : Type 0 where
  succeeded exhausted blocked failed : FinalStatus

pub data ConfigurationError : Type 0 where
  max_attempts_not_positive safe_error_bytes_not_positive : ConfigurationError

pub record RetryConfiguration : Type 0 where
  pub max_attempts : ℕ
  pub safe_error_bytes : ℕ

abbrev positive : ℤ → ConfigurationError → Attempt ConfigurationError ℕ
positive (pos n) e = and_then (require (leb 1 n) e) λ _. returned n
positive (negsuc n) e = raised e

-- `RetryConfiguration.__post_init__`
unfoldable pub new_configuration : ℤ → ℤ → Attempt ConfigurationError RetryConfiguration
new_configuration attempts bytes = and_then (positive attempts max_attempts_not_positive) λ n.
    and_then (positive bytes safe_error_bytes_not_positive)
      λ k. returned (record { max_attempts = n; safe_error_bytes = k })

pub data Reason : Type 0 where
  security_violation repository_state provider_failure : Reason
  category_retryable category_not_retryable : FailureCategory → Reason
  generation_issue unknown_failure attempts_exhausted : Reason

pub record RetryDecision : Type 0 where
  pub retryable : Bool
  pub reason : Reason
  pub instructions : Option String
  pub is_blocked : Bool

pub record RetryAttempt : Type 0 where
  pub number : ℕ
  pub timestamp : String
  pub is_success : Bool
  pub category : Option FailureCategory
  pub error_summary : String
  pub test_failures : List String
  pub validation_failures : List String
  pub snippet : Option String
  pub decision : Option RetryDecision

pub record RetryEngine : Type 0 where
  pub config : RetryConfiguration
  pub requirements : String
  pub attempts : List RetryAttempt
  pub blocked_once : Bool

abbrev pub new_engine : RetryConfiguration → String → RetryEngine
new_engine c requirements = record {
  config = c;
  requirements = requirements;
  attempts = [];
  blocked_once = false;
}

abbrev decided : Bool → Reason → Bool → RetryDecision
decided retryable reason is_blocked = record {
  retryable = retryable;
  reason = reason;
  instructions = none;
  is_blocked = is_blocked;
}

abbrev is_git : FailureCategory → Bool
is_git git = true
is_git _ = false

-- The rules for a failure without a flag that blocks; `unusable` is set for an invalid or an incomplete
-- output.
abbrev by_category : FailureCategory → Bool → RetryDecision
by_category compilation unusable = decided true (category_retryable compilation) false
by_category validation unusable = decided true (category_retryable validation) false
by_category testing unusable = decided true (category_retryable testing) false
by_category parsing unusable = decided true (category_retryable parsing) false
by_category c true = decided true generation_issue false
by_category generation false = decided true generation_issue false
by_category provider false = decided false (category_not_retryable provider) false
by_category policy false = decided false (category_not_retryable policy) false
by_category git false = decided false (category_not_retryable git) false
by_category unknown false = decided true unknown_failure false

unfoldable pub evaluate_failure : FailureContext → RetryDecision
evaluate_failure f =
    if f.policy_violation || f.unsafe_path_violation || f.secret_exposure
    then decided false security_violation true
    else if f.dirty_repo || f.git_integrity_error || is_git f.category
    then decided false repository_state true
    else if f.provider_auth_error || f.provider_billing_error || f.provider_unavailable
    then decided false provider_failure true
    else by_category f.category (f.invalid_ai_output || f.missing_deliverables)

-- The bytes of a character in UTF-8.
abbrev pub width : ℕ → ℕ
width c = if leb c 0x7f then 1 else if leb c 0x7ff then 2 else if leb c 0xffff then 3 else 4

abbrev pub byte_length : String → ℕ
byte_length String.[] = 0
byte_length (String.◌∷◌ c s) = width (code c) + byte_length s

-- `_truncate_utf8`: the characters that fit whole.
unfoldable pub truncate_utf8 : String → ℕ → String
truncate_utf8 String.[] n = String.[]
truncate_utf8 (String.◌∷◌ c s) n =
    let rest = truncate_utf8 s (n - width (code c)) in
    if leb (width (code c)) n then String.◌∷◌ c rest else String.[]

-- A retry is refused on the last attempt.
abbrev pub limited : RetryEngine → ℕ → RetryDecision → RetryDecision
limited e number d =
    if d.retryable && leb e.config.max_attempts number
    then decided false attempts_exhausted false
    else d

module _ (redact : String → String) where
  -- `_sanitize_error_output`
  unfoldable pub sanitize : RetryConfiguration → String → String
  unfolding truncate_utf8
  sanitize c text = truncate_utf8 (redact text) c.safe_error_bytes

  -- An output that is there and not empty.
  abbrev pub sanitized : RetryConfiguration → Option String → Option String
  sanitized c none = none
  sanitized c (some text) = if is_empty text then none else some (sanitize c text)

  abbrev instructed : RetryEngine → FailureContext → RetryDecision → RetryDecision
  instructed e f d = record {
    retryable = d.retryable;
    reason = d.reason;
    instructions =
        if d.retryable
        then some (corrective_instructions e.requirements f (sanitized e.config f.error_output))
        else none;
    is_blocked = d.is_blocked;
  }

  unfoldable pub record_failure :
      FailureContext → String → RetryEngine → RetryDecision × RetryEngine
  unfolding evaluate_failure sanitize
  record_failure f now e =
      let number = suc (length e.attempts) in
      let decision = instructed e f (limited e number (evaluate_failure f)) in
      let attempt : RetryAttempt = record {
        number = number;
        timestamp = now;
        is_success = false;
        category = some f.category;
        error_summary = f.summary;
        test_failures = f.test_failures;
        validation_failures = f.validation_failures;
        snippet = sanitized e.config f.error_output;
        decision = some decision;
      } in
      (
        decision,
        record {
          config = e.config;
          requirements = e.requirements;
          attempts = e.attempts ++ attempt ∷ [];
          blocked_once = decision.is_blocked || e.blocked_once;
        },
      )

  unfoldable pub record_success : String → String → RetryEngine → RetryEngine
  record_success summary now e = record {
    config = e.config;
    requirements = e.requirements;
    attempts =
        e.attempts
        ++ record {
          number = suc (length e.attempts);
          timestamp = now;
          is_success = true;
          category = none;
          error_summary = summary;
          test_failures = [];
          validation_failures = [];
          snippet = none;
          decision = none;
        }
          ∷ [];
    blocked_once = e.blocked_once;
  }

-- `attempts_remaining`
unfoldable pub attempts_remaining : RetryEngine → ℕ
attempts_remaining e = e.config.max_attempts - length e.attempts

-- `_final_status`
unfoldable pub final_status : RetryEngine → FinalStatus
final_status e =
    if any (λ a. a.is_success) e.attempts
    then succeeded
    else if e.blocked_once
    then blocked
    else if leb e.config.max_attempts (length e.attempts)
    then exhausted
    else failed
