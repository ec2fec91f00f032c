-- ===== src/Tests/Limits.antt =====
-- Examples for agent/providers/provider_rate_limiter.py: two requests in a second.
use mitigate_ai_platform.Prelude.{
  ℕ, ◌≤◌, true, false, Option, none, some, List, [], ◌∷◌, map, ◌==◌, All, str, number, flag, pos,
  missing, returned, ◌≡◌, refl, arith,
}
use mitigate_ai_platform.RateLimiter.{
  Limit, Entry, Reason, Decision, State, duplicate_request, rate_limit_exceeded, register_in,
  check_in,
}
use mitigate_ai_platform.RateLimiter.Window.{count}
use mitigate_ai_platform.RateLimiter.Refines.{
  register_all, verdicts, InOrder, reason_of, accepted, fresh, register_all-verdicts,
}
use mitigate_ai_platform.RateLimiter.Bound.{is_within, register_all-within}
use mitigate_ai_platform.RateLimiter.Checking.{SameDecision, check-register}
use mitigate_ai_platform.RateLimiter.Config.{Limiter, RawLimit, load_state}
use mitigate_ai_platform.RateLimiter.Methods.Commands.{
  Command, configure, register, remove, exec_all, exec_all-keeps, IsOrderly, subject,
}

abbrev two_per_second : Limit
two_per_second = record {
  project_id = "p";
  enabled = true;
  request_limit = 2;
  window_seconds = 1;
  burst_limit = none;
}

abbrev five_calls : List Entry
five_calls = ("a", 2000000) ∷ ("a", 2000001) ∷ ("b", 2500000) ∷ ("c", 2600000) ∷ ("d", 3000000) ∷ []

five_calls-InOrder : InOrder two_per_second 0 five_calls
five_calls-InOrder = (
  omega arith,
  omega arith,
  omega arith,
  (
    omega arith,
    omega arith,
    omega arith,
    (
      omega arith,
      omega arith,
      omega arith,
      (omega arith, omega arith, omega arith, (omega arith, omega arith, omega arith, tt)),
    ),
  ),
)

five_calls-verdicts :
    verdicts two_per_second five_calls []
    ≡ none ∷ some duplicate_request ∷ none ∷ some rate_limit_exceeded ∷ none ∷ []
unfolding verdicts
five_calls-verdicts = refl

register_all-verdicts_example :
    map reason_of (register_all "p" five_calls (fresh two_per_second)).0
    ≡ map returned (verdicts two_per_second five_calls [])
register_all-verdicts_example =
    register_all-verdicts "p" two_per_second refl five_calls five_calls-InOrder

register_all-within_example :
    count
      (is_within 1000000 2700000)
      (accepted (register_all "p" five_calls (fresh two_per_second)).0)
    ≤ 2
register_all-within_example =
    register_all-within "p" two_per_second refl five_calls 2700000 five_calls-InOrder

abbrev after_two : State
after_two = record { config = some two_per_second; entries = ("a", 2000000) ∷ ("b", 2500000) ∷ [] }

abbrev refusal_of : Option ℕ → Reason → Option ℕ → Decision
refusal_of remaining why reset = record {
  allowed = false;
  blocked_reason = some why;
  remaining_requests = remaining;
  reset_at = reset;
  project_id = "p";
  request_id = "a";
  evaluated_at = 2600000;
}

a_again-checked :
    check_in "p" "a" 2600000 after_two
    ≡ returned (refusal_of (some 1) duplicate_request (some 3000000))
unfolding check_in
a_again-checked = refl

a_again-asked :
    (register_in "p" "a" 2600000 after_two).0
    ≡ returned (refusal_of none duplicate_request (some 3000000))
unfolding register_in
a_again-asked = refl

check-register_example :
    SameDecision
      (refusal_of (some 1) duplicate_request (some 3000000))
      (refusal_of none duplicate_request (some 3000000))
      after_two
      (register_in "p" "a" 2600000 after_two).1
check-register_example =
    check-register "p" "a" 2600000 after_two (refusal_of (some 1) duplicate_request (some 3000000))
      (refusal_of none duplicate_request (some 3000000)) a_again-checked a_again-asked

abbrev raw_limit : RawLimit
raw_limit = record {
  keys = "project_id" ∷ "enabled" ∷ "request_limit" ∷ "window_seconds" ∷ "burst_limit" ∷ [];
  project_id = str "p";
  enabled = flag true;
  request_limit = number (pos 2);
  window_seconds = number (pos 1);
  burst_limit = missing;
}

abbrev no_states : Limiter
no_states = record { states = λ q. none; events = [] }

no_states-IsOrderly : IsOrderly no_states
no_states-IsOrderly q = unfold load_state in tt

abbrev three_commands : List Command
three_commands = configure "p" raw_limit ∷ register "p" "a" 2000000 ∷ remove "p" ∷ []

exec_all-keeps_example :
    IsOrderly (exec_all (λ p. true) three_commands no_states)
    × (All (λ k. subject k == "q" ≡ false) three_commands
        → (exec_all (λ p. true) three_commands no_states).states "q" ≡ none)
exec_all-keeps_example = exec_all-keeps (λ p. true) three_commands no_states "q" no_states-IsOrderly
