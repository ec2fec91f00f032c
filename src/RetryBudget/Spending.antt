-- ===== src/RetryBudget/Spending.antt =====
-- How much a retry budget (agent/resilience/retry_budget.py) grants.
use mitigate_ai_platform.Prelude.{ℕ, ◌+◌, ◌≤◌, some, List, [], ◌∷◌, if◌then◌else◌, ℤ, ◌≡◌, arith}
use mitigate_ai_platform.RetryBudget.{RetryBudget, can_retry, consume}

-- Calls of `consume` at some times: how many return `True`, and the budget after them.
unfoldable pub consume_all : List ℤ → RetryBudget → ℕ × RetryBudget
unfolding consume
consume_all [] b = (0, b)
consume_all (t ∷ ts) b =
    let rest = consume_all ts (consume b t).1 in
    ((if (consume b t).0 then 1 else 0) + rest.0, rest.1)

one_call :
    (b : RetryBudget) (m : ℕ) (t : ℤ)
    → b.max_retries ≡ some m
    → b.consumed ≤ m
    → ((consume b t).1.max_retries ≡ some m)
      × ((consume b t).1.consumed ≡ b.consumed + (if (consume b t).0 then 1 else 0))
      × ((consume b t).1.consumed ≤ m)
unfolding consume can_retry
one_call b m t limit low = rw limit (ground arith)

-- A bounded budget never grants more retries than it has: over any calls of `consume` at any times,
-- the number of calls that return `True` is counted in `consumed`, which stays within
-- `max_retries` if it is so at the start.
pub consume_all-within :
    (ts : List ℤ) (b : RetryBudget) (m : ℕ)
    → b.max_retries ≡ some m
    → b.consumed ≤ m
    → ((consume_all ts b).1.consumed ≡ b.consumed + (consume_all ts b).0)
      × ((consume_all ts b).1.consumed ≤ m)
unfolding consume_all
consume_all-within [] b m limit low = (omega arith, low)
consume_all-within (t ∷ ts) b m limit low =
    let (limit', count, low') = one_call b m t limit low in
    let (rest, low'') = consume_all-within ts (consume b t).1 m limit' low' in (omega arith, low'')
