-- ===== src/RetryBudget.antt =====
-- The retry budget, agent/resilience/retry_budget.py. Times are whole ticks: the rounding of floats
-- is not modelled. What the time provider returns at a call is an argument of the call.
pub mod Projection
pub mod Spending
pub mod Authority
pub mod Classification
use mitigate_ai_platform.Prelude.{
  ℕ, ◌+◌, ◌-◌, String, Bool, true, false, not, Option, none, some, ltb, leb_ℤ, ltb_ℤ, if◌then◌else◌,
  ℤ, pos, negsuc, ◌+ℤ◌, Attempt, returned, raised, and_then, require, Value, missing, other, str,
  number, flag,
}

pub record RetryBudget : Type 0 where
  pub max_retries : Option ℕ
  pub deadline : Option ℤ
  pub consumed : ℕ

pub data BudgetError : Type 0 where
  max_is_bool max_not_int max_negative : BudgetError
  deadline_is_bool deadline_not_number deadline_not_finite : BudgetError

-- `deadline_seconds`: a number is a count of ticks, or it is infinite or not a number.
pub data Seconds : Type 0 where
  no_limit boolean not_number not_finite : Seconds
  ticks : ℤ → Seconds

-- The validation of `max_retries`.
unfoldable pub checked_max : Value → Attempt BudgetError (Option ℕ)
checked_max missing = returned none
checked_max (flag b) = raised max_is_bool
checked_max (number (pos n)) = returned (some n)
checked_max (number (negsuc n)) = raised max_negative
checked_max (str s) = raised max_not_int
checked_max other = raised max_not_int

-- The validation of `deadline_seconds`, and the deadline from the clock's `now`.
unfoldable pub checked_deadline : Seconds → ℤ → Attempt BudgetError (Option ℤ)
unfolding ◌+ℤ◌
checked_deadline no_limit now = returned none
checked_deadline boolean now = raised deadline_is_bool
checked_deadline not_number now = raised deadline_not_number
checked_deadline not_finite now = raised deadline_not_finite
checked_deadline (ticks s) now =
    and_then (require (leb_ℤ (pos 0) s) deadline_not_finite) λ _. returned (some (now +ℤ s))

-- The constructor.
unfoldable pub new_budget : Value → Seconds → ℤ → Attempt BudgetError RetryBudget
unfolding checked_max checked_deadline
new_budget max seconds now = and_then (checked_max max) λ max_retries.
    and_then (checked_deadline seconds now)
      λ deadline. returned (record { max_retries = max_retries; deadline = deadline; consumed = 0 })

abbrev passed : Option ℤ → ℤ → Bool
passed none t = false
passed (some d) t = leb_ℤ d t

-- The time of a call: `now` if it is given, else what the provider returns.
abbrev pub time_of : Option ℤ → ℤ → ℤ
time_of none clock = clock
time_of (some now) clock = now

-- `_is_deadline_exceeded`, at the time of the call.
unfoldable pub is_deadline_exceeded : RetryBudget → ℤ → Bool
is_deadline_exceeded b t = passed b.deadline t

abbrev within : Option ℕ → ℕ → Bool
within none n = true
within (some m) n = ltb n m

unfoldable pub can_retry : RetryBudget → ℤ → Bool
unfolding is_deadline_exceeded
can_retry b t = if is_deadline_exceeded b t then false else within b.max_retries b.consumed

-- `consume`: its result, and the budget after it.
unfoldable pub consume : RetryBudget → ℤ → Bool × RetryBudget
unfolding can_retry
consume b t =
    if not (can_retry b t) then (false, b) else (true, record b { consumed = b.consumed + 1 })

abbrev left_of : Option ℕ → ℕ → Option ℕ
left_of none n = none
left_of (some m) n = some (m - n)

-- `remaining_retries`; the subtraction stops at 0, as the source's conditional does.
unfoldable pub remaining_retries : RetryBudget → Option ℕ
remaining_retries b = left_of b.max_retries b.consumed

-- `exhaustion_reason`
unfoldable pub exhaustion_reason : RetryBudget → ℤ → Option String
unfolding can_retry is_deadline_exceeded
exhaustion_reason b t =
    if not (can_retry b t)
    then (if is_deadline_exceeded b t then some "deadline" else some "attempts")
    else none
