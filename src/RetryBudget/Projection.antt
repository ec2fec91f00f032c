-- ===== src/RetryBudget/Projection.antt =====
-- The projection of the queue's retry fields, agent/resilience/retry_budget_queue_adapter.py. A
-- mission is the list of its entries or attributes; `lower` is Python's `str.lower`.
use mitigate_ai_platform.Prelude.{
  ℕ, ◌-◌, String, Bool, false, Option, none, some, List, [], ◌∷◌, ◌==◌, eqb, if◌then◌else◌, ◌||◌,
  pos, negsuc, contains, strip, is_empty, Attempt, returned, raised, and_then, Value, missing,
  other, str, number, flag,
}

pub data ProjectionError : Type 0 where
  is_boolean not_integer is_negative : String → ProjectionError

pub record RetryStateView : Type 0 where
  pub attempts_done : ℕ
  pub max_retries : ℕ
  pub retries_remaining : ℕ
  pub exhausted : Bool
  pub eligible : Bool
  pub canonical_state : String
  pub raw_state : Option String

abbrev pub Fields : Type 0
Fields = List (String × Value)

-- `k in mission` and `mission[k]`
unfoldable pub field : String → Fields → Option Value
field k [] = none
field k (e ∷ es) = if e.0 == k then some e.1 else field k es

-- `_validated_non_negative_int` with the default 0.
unfoldable pub validated_non_negative_int : String → Option Value → Attempt ProjectionError ℕ
validated_non_negative_int name none = returned 0
validated_non_negative_int name (some missing) = returned 0
validated_non_negative_int name (some (flag b)) = raised (is_boolean name)
validated_non_negative_int name (some (number (pos n))) = returned n
validated_non_negative_int name (some (number (negsuc n))) = raised (is_negative name)
validated_non_negative_int name (some (str s)) = raised (not_integer name)
validated_non_negative_int name (some other) = raised (not_integer name)

abbrev state_keys : List String
state_keys = "state" ∷ "status" ∷ "phase" ∷ "mission_state" ∷ "lifecycle_state" ∷ "queue_state" ∷ []

-- The first of the keys that the mission has.
unfoldable pub first_field : List String → Fields → Option Value
unfolding field
first_field [] m = none
first_field (k ∷ ks) m = let rest = first_field ks m in or_else (field k m) rest
  where
    or_else : Option Value → Option Value → Option Value
    or_else none o = o
    or_else (some v) o = some v

-- The groups of state names.
unfoldable pub canonical_name : String → String
unfolding contains
canonical_name s =
    if contains s ("completed" ∷ "success" ∷ "succeeded" ∷ "done" ∷ [])
    then "completed"
    else if contains s ("failed" ∷ "error" ∷ "errored" ∷ "failure" ∷ [])
    then "failed"
    else if contains s ("retrying" ∷ "retry" ∷ "needs_retry" ∷ "backoff" ∷ [])
    then "retrying"
    else if contains s ("blocked" ∷ "paused" ∷ "on_hold" ∷ "hold" ∷ "waiting" ∷ [])
    then "blocked"
    else if contains s ("running" ∷ "in_progress" ∷ "executing" ∷ [])
    then "running"
    else if contains s ("queued" ∷ "pending" ∷ "ready" ∷ [])
    then "queued"
    else if contains s ("cancelled" ∷ "canceled" ∷ "aborted" ∷ [])
    then "cancelled"
    else if contains s ("stale-running" ∷ "stale_running" ∷ "orphaned" ∷ [])
    then "stale-running"
    else "unknown"

abbrev as_text : Option Value → Option String
as_text (some (str s)) = some s
as_text _ = none

abbrev name_of : (String → String) → Option String → String
name_of lower none = "unknown"
name_of lower (some s) =
    let t = lower (strip s) in if is_empty t then "unknown" else canonical_name t

-- `_extract_state`: the canonical state, and the raw one if it is a text.
unfoldable pub extract_state : (String → String) → Fields → String × Option String
unfolding first_field canonical_name strip is_empty
extract_state lower m = let raw = as_text (first_field state_keys m) in (name_of lower raw, raw)

-- `_compute_retries_remaining`; the subtraction stops at 0, as the source's conditional does.
unfoldable pub compute_retries_remaining : ℕ → ℕ → ℕ
compute_retries_remaining attempts_done max_retries = max_retries - attempts_done

-- `_compute_retry_eligibility`
unfoldable pub compute_retry_eligibility : String → Bool → Bool
compute_retry_eligibility state exhausted =
    if exhausted then false else (state == "failed" || state == "retrying")

unfoldable pub project_retry_budget :
    (String → String) → Fields → Attempt ProjectionError RetryStateView
unfolding field validated_non_negative_int compute_retries_remaining extract_state
    compute_retry_eligibility
project_retry_budget lower m =
    and_then (validated_non_negative_int "attempts_done" (field "attempts_done" m)) λ attempts_done.
      and_then (validated_non_negative_int "max_retries" (field "max_retries" m)) λ max_retries.
        let remaining = compute_retries_remaining attempts_done max_retries in
        let (state, raw) = extract_state lower m in
        let exhausted = eqb remaining 0 in
        returned (record {
          attempts_done = attempts_done;
          max_retries = max_retries;
          retries_remaining = remaining;
          exhausted = exhausted;
          eligible = compute_retry_eligibility state exhausted;
          canonical_state = state;
          raw_state = raw;
        })
