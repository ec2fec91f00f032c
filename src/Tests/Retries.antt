-- ===== src/Tests/Retries.antt =====
-- Examples for agent/ai/retry_engine.py and agent/repair/repair_loop.py: a failed test, the last attempt
-- that is allowed, and plans of repairs.
use mitigate_ai_platform.Prelude.{String, length, ◌≤◌, true, false, some, List, [], ◌∷◌, ◌≡◌, refl}
use mitigate_ai_platform.RetryEngine.{RetryConfiguration, final_status, exhausted, new_engine}
use mitigate_ai_platform.RetryEngine.Guidance.{FailureContext, testing}
use mitigate_ai_platform.RetryEngine.Kept.{
  Entry, failure, Kept, status_of, record_all, record_all-bounded,
}
use mitigate_ai_platform.RepairLoop.{RepairLoop, pending, no_constraint, text, new_loop}
use mitigate_ai_platform.RepairLoop.Plans.{Call, fail, plan, call_all, Ascending, call_all-bounded}

abbrev two_attempts : RetryConfiguration
two_attempts = record { max_attempts = 2; safe_error_bytes = 4 }

abbrev failed_test : FailureContext
failed_test = record {
  category = testing;
  summary = "one test fails";
  test_failures = "test_a" ∷ [];
  validation_failures = [];
  error_output = some "abcdef";
  policy_violation = false;
  unsafe_path_violation = false;
  secret_exposure = false;
  dirty_repo = false;
  git_integrity_error = false;
  provider_unavailable = false;
  provider_auth_error = false;
  provider_billing_error = false;
  invalid_ai_output = false;
  missing_deliverables = false;
}

abbrev two_failures : List Entry
two_failures = failure failed_test "now" ∷ failure failed_test "later" ∷ []

two_failures-exhausted :
    final_status (record_all (λ s. s) two_failures (new_engine two_attempts "do it")) ≡ exhausted
unfolding final_status record_all
two_failures-exhausted = refl

record_all-bounded_example :
    Kept two_attempts (record_all (λ s. s) two_failures (new_engine two_attempts "do it"))
    × (final_status (record_all (λ s. s) two_failures (new_engine two_attempts "do it"))
        ≡ status_of two_attempts
            (record_all (λ s. s) two_failures (new_engine two_attempts "do it")).attempts)
record_all-bounded_example = record_all-bounded (λ s. s) two_attempts "do it" two_failures

-- A loop that may plan two repairs, and calls with a flag between the plans.
abbrev two_repairs : RepairLoop String
two_repairs = record { max_attempts = 2; state = pending; attempt_number = 0; history = [] }

abbrev repair_calls : List (Call String)
repair_calls =
    fail "first"
    ∷ plan no_constraint false
    ∷ plan (text "security_policy_bypass") true
    ∷ plan no_constraint true
    ∷ plan no_constraint true
    ∷ []

-- The first plan cannot be built, and its number is used up.
repair_calls-numbers : (call_all repair_calls two_repairs).0 ≡ 2 ∷ []
unfolding call_all
repair_calls-numbers = refl

call_all-bounded_example :
    Ascending 0 (call_all repair_calls two_repairs).0 2
    × (length (call_all repair_calls two_repairs).0
        ≤ (call_all repair_calls two_repairs).1.attempt_number)
    × ((call_all repair_calls two_repairs).1.attempt_number ≤ 2)
call_all-bounded_example = call_all-bounded 2 two_repairs repair_calls (unfold new_loop in refl)
