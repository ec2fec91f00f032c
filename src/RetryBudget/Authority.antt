-- ===== src/RetryBudget/Authority.antt =====
-- The projection of agent/resilience/retry_budget_queue_adapter.py and the queue that it projects:
-- the view of a failed mission says whether `MissionQueue.retry` succeeds.
use mitigate_ai_platform.Prelude.{
  ℕ, ◌-◌, String, Bool, true, false, not, some, [], ◌∷◌, if◌then◌else◌, pos, leb_ℤ, eqb, returned,
  str, number, ◌≡◌, refl, arith, strip, is_empty,
}
use mitigate_ai_platform.MissionQueue.Mission.{
  retrying, failed, Mission, Queue, ok, err, no_retry_left, find, guard, ◌>>◌,
}
use mitigate_ai_platform.MissionQueue.File.{value}
use mitigate_ai_platform.MissionQueue.File.RoundTrip.{WellFormed}
use mitigate_ai_platform.MissionQueue.Methods.{retry_body, get_mission, commit}
use mitigate_ai_platform.MissionQueue.Methods.Commit.{commit-ok}
use mitigate_ai_platform.MissionQueue.Methods.Exact.{with_mission}
use mitigate_ai_platform.RetryBudget.Projection.{
  Fields, RetryStateView, field, validated_non_negative_int, canonical_name, extract_state,
  first_field, compute_retries_remaining, compute_retry_eligibility, project_retry_budget,
}

-- The entries of `to_dict` that the projection reads.
abbrev pub fields_of : Mission → Fields
fields_of m =
    ("state", str (value m.state))
    ∷ ("attempts_done", number m.attempts_done)
    ∷ ("max_retries", number m.max_retries)
    ∷ []

-- The view of a failed mission.
abbrev pub failed_view : ℕ → ℕ → RetryStateView
failed_view a n = record {
  attempts_done = a;
  max_retries = n;
  retries_remaining = n - a;
  exhausted = eqb (n - a) 0;
  eligible = if eqb (n - a) 0 then false else true;
  canonical_state = "failed";
  raw_state = some "failed";
}

project-failed :
    (lower : String → String) (m : Mission) (a n : ℕ)
    → lower "failed" ≡ "failed"
    → m.state ≡ failed
    → m.attempts_done ≡ pos a
    → m.max_retries ≡ pos n
    → project_retry_budget lower (fields_of m) ≡ returned (failed_view a n)
unfolding project_retry_budget field validated_non_negative_int extract_state first_field value
    canonical_name compute_retries_remaining compute_retry_eligibility strip is_empty
project-failed lower m a n low was tried budget = rw was (rw tried (rw budget (rw low refl)))

-- The view of a failed mission says what `MissionQueue.retry` does: for a failed mission of a
-- well-formed queue whose two counters are not negative, and a `lower` that leaves "failed" as it
-- is, the projection returns a view, and `retry` succeeds if the view is eligible and else raises
-- that no retry is left.
pub eligible-retry :
    (lower : String → String) (q : Queue) (m : Mission) (a n : ℕ)
    → lower "failed" ≡ "failed"
    → WellFormed q
    → find m.id q.missions ≡ some m
    → m.state ≡ failed
    → m.attempts_done ≡ pos a
    → m.max_retries ≡ pos n
    → (v : RetryStateView) × (project_retry_budget lower (fields_of m) ≡ returned v)
      × (retry_body m.id q ≡ (
          if v.eligible
          then ok (tt, some (with_mission (record m { state = retrying }) q))
          else err no_retry_left))
unfolding retry_body get_mission
eligible-retry lower q m a n low w at was tried budget = (
  failed_view a n,
  project-failed lower m a n low was tried budget,
  rw at (rw was (spent (leb_ℤ m.max_retries m.attempts_done) refl)),
)
  where
    again : Mission
    again = record m { state = retrying }

    tokens : (b : Bool) → leb_ℤ m.max_retries m.attempts_done ≡ b → eqb (n - a) 0 ≡ b
    tokens b h = let h' : leb_ℤ (pos n) (pos a) ≡ b = rw (tried, budget) at h in ground arith

    spent :
        (b : Bool)
        → leb_ℤ m.max_retries m.attempts_done ≡ b
        → (guard (not b) no_retry_left >> commit again q) ≡ (
            if (failed_view a n).eligible
            then ok (tt, some (with_mission again q))
            else err no_retry_left)
    spent true h = let full : eqb (n - a) 0 ≡ true = tokens true h in rw full refl
    spent false h =
        let left : eqb (n - a) 0 ≡ false = tokens false h in rw left (commit-ok q w again m at refl)
