-- ===== src/Tests/Workers.antt =====
-- The theorems on agent/runtime/background_worker.py at a queue with two missions, where others call
-- the queue while the controller runs.
use mitigate_ai_platform.Prelude.{true, false, none, some, Option, [], ◌∷◌, pos, ◌≡◌, refl, ◌+ℤ◌}
use mitigate_ai_platform.MissionQueue.Mission.{
  pending, retrying, complete_not_running, QueueError, Queue, ok, find,
}
use mitigate_ai_platform.MissionQueue.File.{load, save, to_dict}
use mitigate_ai_platform.MissionQueue.File.RoundTrip.{canonical}
use mitigate_ai_platform.MissionQueue.File.Loading.{load-WellFormed}
use mitigate_ai_platform.MissionQueue.Methods.{
  cancel_body, count_failure, start, locked, enqueue_body,
}
use mitigate_ai_platform.MissionQueue.Methods.Command.{enqueue, cancel}
use mitigate_ai_platform.MissionQueue.Methods.Exact.{with_mission}
use mitigate_ai_platform.Worker.{
  Config, ControllerResult, Poll, World, Outcome, raises, others, transition, cycle, reported_state,
  run,
}
use mitigate_ai_platform.Worker.Run.{IsCalm, IsOrderly, run-IsOrderly}
use mitigate_ai_platform.Worker.Calm.{run-IsCalm}
use mitigate_ai_platform.Worker.Settle.{
  settled, transition-settled, next_outcome, claimed_file, cycle-settles, exhausted-retries,
}
use mitigate_ai_platform.Tests.Queues.{
  mission_a, mission_b, two_missions, two_file, claimed_a, two_file-load, two_missions-choose,
}

-- A worker whose controller succeeds.
abbrev success : ControllerResult
success = record { status = "success"; reason = none }

abbrev success_config : Config
success_config = record {
  once = true;
  max_idle_cycles = some 1;
  store = none;
  controller = λ d. some success;
}

abbrev start_world : World
start_world = record {
  worker = record {
    shutdown_event_emitted = false;
    has_recovered = true;
    idle_cycles = 0;
    events = [];
  };
  file = two_file;
}

-- While the controller runs, somebody enqueues a third mission.
abbrev busy_poll : Poll
busy_poll = record {
  stop = false;
  before_claim = [];
  during_execution =
      record { default_max_retries = pos 0; command = enqueue "c" (pos 1) [] none } ∷ [];
}

-- While the controller runs, somebody cancels the mission.
abbrev cancelling_poll : Poll
cancelling_poll = record {
  stop = false;
  before_claim = [];
  during_execution = record { default_max_retries = pos 0; command = cancel "a" } ∷ [];
}

abbrev lost_by : Outcome → Option QueueError
lost_by (raises e s) = some e
lost_by _ = none

-- Then the worker's `complete` raises out of `run`.
cancelled-run :
    lost_by (run success_config (cancelling_poll ∷ []) start_world) ≡ some complete_not_running
unfolding run load save cancel_body
cancelled-run = refl

run-IsOrderly_example :
    IsOrderly (run success_config (cancelling_poll ∷ busy_poll ∷ []) start_world)
run-IsOrderly_example =
    run-IsOrderly success_config (cancelling_poll ∷ busy_poll ∷ []) start_world
      (two_missions, two_file-load)

run-IsCalm_example : IsCalm (run success_config (busy_poll ∷ busy_poll ∷ []) start_world)
run-IsCalm_example =
    run-IsCalm success_config (busy_poll ∷ busy_poll ∷ []) start_world (λ d. (success, refl))
      ((tt, tt), ((tt, tt), tt)) (two_missions, two_file-load)

abbrev busy_queue : Queue
busy_queue = record {
  missions =
      start mission_a
      ∷ mission_b
      ∷ record {
        id = "c";
        priority = pos 1;
        dependencies = [];
        state = pending;
        created_seq = pos 3;
        attempts_done = pos 0;
        max_retries = pos 0;
      }
      ∷ [];
  next_seq = pos 4;
}

busy_queue-load :
    load (others busy_poll.during_execution (claimed_file two_missions mission_a)) ≡ ok busy_queue
unfolding load save others enqueue_body locked ◌+ℤ◌
busy_queue-load = refl

cycle-settles_example :
    (s' : World) × (q' : Queue) × (cycle success_config busy_poll start_world
      ≡ next_outcome true s')
    × (load s'.file ≡ ok q')
    × (find "a" q'.missions ≡ some (canonical (settled "success" (start mission_a))))
cycle-settles_example =
    cycle-settles success_config busy_poll start_world two_missions busy_queue mission_a
      (start mission_a) success (unfold others in two_file-load) two_missions-choose refl
      busy_queue-load (unfold find in refl) refl

claimed_file-load : load (save claimed_a) ≡ ok claimed_a
unfolding load save
claimed_file-load = refl

transition-settled_example :
    transition "retry" "a" (save claimed_a)
    ≡ (ok tt, save (with_mission (settled "retry" (start mission_a)) claimed_a))
transition-settled_example =
    transition-settled "retry" (save claimed_a) claimed_a (start mission_a) claimed_file-load
      (load-WellFormed (save claimed_a) claimed_a claimed_file-load) (unfold find in refl) refl

exhausted-retries_example :
    (transition "exhausted" "a" (save claimed_a)
      ≡ (ok tt, save (with_mission (count_failure (start mission_a)) claimed_a)))
    × ((count_failure (start mission_a)).state ≡ retrying)
    × (reported_state "exhausted" (to_dict (start mission_a)) ≡ "failed")
exhausted-retries_example =
    exhausted-retries (save claimed_a) claimed_a (start mission_a) claimed_file-load
      (load-WellFormed (save claimed_a) claimed_a claimed_file-load) (unfold find in refl) refl
      (unfold ◌+ℤ◌ in refl)
