-- ===== src/Tests/Contracts.antt =====
-- The theorems on the idempotency contract, the retry budget and its projection at concrete
-- inputs.
use mitigate_ai_platform.Prelude.{
  ◌+◌, ◌≤◌, some, [], ◌∷◌, pos, ◌≡◌, refl, returned, arith, str, number, if◌then◌else◌,
}
use mitigate_ai_platform.Idempotency.{
  IdempotentExecutionIdentity, ValidIdentity, replay, validate_identity, mapping, mapping_string,
  classify,
}
use mitigate_ai_platform.Idempotency.Replay.{kept, kept-replay, replay-same}
use mitigate_ai_platform.RetryBudget.{RetryBudget}
use mitigate_ai_platform.RetryBudget.Spending.{consume_all, consume_all-within}
use mitigate_ai_platform.RetryBudget.Projection.{RetryStateView, project_retry_budget}
use mitigate_ai_platform.RetryBudget.Authority.{fields_of, eligible-retry}
use mitigate_ai_platform.MissionQueue.Mission.{
  failed, retrying, Mission, Queue, ok, err, no_retry_left, find,
}
use mitigate_ai_platform.MissionQueue.File.{load, save}
use mitigate_ai_platform.MissionQueue.File.Loading.{load-WellFormed}
use mitigate_ai_platform.MissionQueue.Methods.{retry_body}
use mitigate_ai_platform.MissionQueue.Methods.Exact.{with_mission}

abbrev spaced : IdempotentExecutionIdentity
spaced = record {
  project_id = str " p ";
  request_id = str "r";
  mission_id = str "m";
  execution_id = str "e ";
  attempts_done = number (pos 0);
}

abbrev cleaned : ValidIdentity
cleaned = record {
  project_id = "p";
  request_id = "r";
  mission_id = "m";
  execution_id = "e";
  attempts_done = pos 0;
}

spaced-valid : validate_identity spaced ≡ returned cleaned
unfolding validate_identity
spaced-valid = refl

kept-replay_example :
    classify spaced (mapping (kept spaced))
    ≡ returned (record { decision = replay; reason = "same_logical_execution" })
kept-replay_example = kept-replay spaced cleaned spaced-valid

spaced-replays :
    classify spaced (mapping (kept spaced))
    ≡ returned (record { decision = replay; reason = "same_logical_execution" })
unfolding classify
spaced-replays = refl

replay-same_example :
    (v : ValidIdentity) × (validate_identity spaced ≡ returned v)
    × (mapping_string (kept spaced) "execution_id" ≡ returned v.execution_id)
    × (mapping_string (kept spaced) "project_id" ≡ returned v.project_id)
    × (mapping_string (kept spaced) "request_id" ≡ returned v.request_id)
    × (mapping_string (kept spaced) "mission_id" ≡ returned v.mission_id)
replay-same_example =
    replay-same spaced (kept spaced)
      (record { decision = replay; reason = "same_logical_execution" }) spaced-replays refl

abbrev one_token : RetryBudget
one_token = record { max_retries = some 1; deadline = some (pos 9); consumed = 0 }

consume_all-within_example :
    ((consume_all (pos 1 ∷ pos 2 ∷ []) one_token).1.consumed
      ≡ one_token.consumed + (consume_all (pos 1 ∷ pos 2 ∷ []) one_token).0)
    × ((consume_all (pos 1 ∷ pos 2 ∷ []) one_token).1.consumed ≤ 1)
consume_all-within_example = consume_all-within (pos 1 ∷ pos 2 ∷ []) one_token 1 refl (omega arith)

abbrev stuck : Mission
stuck = record {
  id = "a";
  priority = pos 0;
  dependencies = [];
  state = failed;
  created_seq = pos 1;
  attempts_done = pos 1;
  max_retries = pos 2;
}

abbrev stuck_queue : Queue
stuck_queue = record { missions = stuck ∷ []; next_seq = pos 2 }

stuck-load : load (save stuck_queue) ≡ ok stuck_queue
unfolding load save
stuck-load = refl

stuck-find : find "a" stuck_queue.missions ≡ some stuck
unfolding find
stuck-find = refl

eligible-retry_example :
    (v : RetryStateView) × (project_retry_budget (λ s. s) (fields_of stuck) ≡ returned v)
    × (retry_body "a" stuck_queue ≡ (
        if v.eligible
        then ok (tt, some (with_mission (record stuck { state = retrying }) stuck_queue))
        else err no_retry_left))
eligible-retry_example =
    eligible-retry (λ s. s) stuck_queue stuck 1 2 refl
      (load-WellFormed (save stuck_queue) stuck_queue stuck-load) stuck-find refl refl refl
