-- ===== src/Tests/Queues.antt =====
-- The theorems on agent/runtime/mission_queue.py at a queue with two missions, the second of which
-- depends on the first.
use mitigate_ai_platform.Prelude.{Elem, none, some, List, [], ◌∷◌, pos, ◌≡◌, ◌≢◌, refl, ◌<ℤ◌}
use mitigate_ai_platform.MissionQueue.Mission.{
  pending, running, put, failed, Mission, Queue, ok, err, search_out_of_fuel, find,
}
use mitigate_ai_platform.MissionQueue.Validate.{validate_no_cycles}
use mitigate_ai_platform.MissionQueue.Validate.Acyclic.{
  Acyclic, validate-Acyclic, Acyclic-validate, validate-ne-out_of_fuel,
}
use mitigate_ai_platform.MissionQueue.File.{
  StateFile, absent, stored, missing, present, object, load, save, to_dict,
}
use mitigate_ai_platform.MissionQueue.File.RoundTrip.{WellFormed, canonical_queue, load-save}
use mitigate_ai_platform.MissionQueue.File.Loading.{load-WellFormed}
use mitigate_ai_platform.MissionQueue.Methods.{
  choose, start, locked, retry_body, enqueue_body, claim_body, fail_body,
}
use mitigate_ai_platform.MissionQueue.Methods.Claimable.{IsClaimable, GoesFirst}
use mitigate_ai_platform.MissionQueue.Methods.Command.{
  Command, enqueue, claim, fail, cancel, command_body, execute, Reachable, fresh, call,
}
use mitigate_ai_platform.MissionQueue.Methods.Transitions.{Kept}
use mitigate_ai_platform.MissionQueue.Methods.Evolution.{saved_moves}
use mitigate_ai_platform.MissionQueue.Methods.Effect.{execute-loads, Settles}
use mitigate_ai_platform.MissionQueue.Methods.Claim.{choose-least, choose-none}
use mitigate_ai_platform.MissionQueue.Methods.Accounting.{retry-never_succeeds}
use mitigate_ai_platform.MissionQueue.Methods.Histories.{Reachable-WellFormed, failed-spent}

abbrev pub mission_a : Mission
mission_a = record {
  id = "a";
  priority = pos 5;
  dependencies = [];
  state = pending;
  created_seq = pos 1;
  attempts_done = pos 0;
  max_retries = pos 2;
}

abbrev pub mission_b : Mission
mission_b = record {
  id = "b";
  priority = pos 9;
  dependencies = "a" ∷ [];
  state = pending;
  created_seq = pos 2;
  attempts_done = pos 0;
  max_retries = pos 2;
}

abbrev pub two_missions : Queue
two_missions = record { missions = mission_a ∷ mission_b ∷ []; next_seq = pos 3 }

abbrev pub two_file : StateFile
two_file = save two_missions

pub two_file-load : load two_file ≡ ok two_missions
unfolding load save
two_file-load = refl

two_missions-WellFormed : WellFormed two_missions
two_missions-WellFormed = load-WellFormed two_file two_missions two_file-load

two_missions-validate : validate_no_cycles two_missions.missions ≡ ok tt
unfolding validate_no_cycles
two_missions-validate = refl

pub two_missions-choose : choose two_missions.missions ≡ some mission_a
unfolding choose
two_missions-choose = refl

mission_a-find : find "a" two_missions.missions ≡ some mission_a
unfolding find
mission_a-find = refl

-- Two missions without a budget are queued, and the first is claimed and fails.
abbrev failed_run : List Command
failed_run =
    fail "a" ∷ claim ∷ enqueue "b" (pos 9) ("a" ∷ []) none ∷ enqueue "a" (pos 5) [] none ∷ []

abbrev file_of : List Command → StateFile
file_of [] = absent
file_of (c ∷ cs) = execute (pos 0) c (file_of cs)

file_of-Reachable : (cs : List Command) → Reachable (pos 0) (file_of cs)
file_of-Reachable [] = fresh
file_of-Reachable (c ∷ cs) = call (file_of-Reachable cs) c

abbrev failed_a : Mission
failed_a = record mission_a { state = failed; attempts_done = pos 1; max_retries = pos 0 }

abbrev failed_queue : Queue
failed_queue = record {
  missions = failed_a ∷ record mission_b { max_retries = pos 0 } ∷ [];
  next_seq = pos 3;
}

failed_run-load : load (file_of failed_run) ≡ ok failed_queue
unfolding load execute locked enqueue_body claim_body fail_body
failed_run-load = refl

Reachable-WellFormed_example : (q : Queue) × (load (file_of failed_run) ≡ ok q) × WellFormed q
Reachable-WellFormed_example = Reachable-WellFormed (file_of-Reachable failed_run)

failed-spent_example : pos 0 <ℤ pos 1
failed-spent_example =
    failed-spent failed_queue "a" failed_a (file_of-Reachable failed_run) failed_run-load
      (unfold find in refl) refl

retry-never_succeeds_example : (locked (retry_body "a") (file_of failed_run)).0 ≢ ok tt
retry-never_succeeds_example = retry-never_succeeds (file_of-Reachable failed_run) "a"

validate-Acyclic_example : Acyclic two_missions.missions
validate-Acyclic_example = validate-Acyclic two_missions.missions two_missions-validate

Acyclic-validate_example : validate_no_cycles two_missions.missions ≡ ok tt
Acyclic-validate_example =
    Acyclic-validate two_missions.missions two_missions-WellFormed.distinct
      two_missions-WellFormed.acyclic

validate-ne-out_of_fuel_example : validate_no_cycles two_missions.missions ≢ err search_out_of_fuel
validate-ne-out_of_fuel_example = validate-ne-out_of_fuel two_missions.missions

load-save_example : load (save two_missions) ≡ ok (canonical_queue two_missions)
load-save_example = load-save two_missions two_missions-WellFormed

-- A file that leaves out what `_load` has defaults for.
abbrev sparse_file : StateFile
sparse_file = stored (record {
  version = missing;
  next_seq = missing;
  missions = present (
      (
        "a",
        object (record {
          id = present "a";
          priority = present (pos 5);
          dependencies = missing;
          state = present "pending";
          created_seq = missing;
          attempts_done = missing;
          max_retries = missing;
        }),
      )
      ∷ []);
})

abbrev sparse_queue : Queue
sparse_queue = record {
  missions = record mission_a { created_seq = pos 0; max_retries = pos 0 } ∷ [];
  next_seq = pos 1;
}

sparse_file-load : load sparse_file ≡ ok sparse_queue
unfolding load
sparse_file-load = refl

load-WellFormed_example : WellFormed sparse_queue
load-WellFormed_example = load-WellFormed sparse_file sparse_queue sparse_file-load

execute-loads_example :
    Settles
      (pos 1)
      (cancel "a")
      two_file
      two_missions
      (command_body (pos 1) (cancel "a") two_missions)
execute-loads_example = execute-loads (pos 1) (cancel "a") two_file two_missions two_file-load

abbrev pub claimed_a : Queue
claimed_a = record { missions = start mission_a ∷ mission_b ∷ []; next_seq = pos 3 }

claim-saves_a : command_body (pos 1) claim two_missions ≡ ok (tt, some claimed_a)
unfolding command_body claim_body
claim-saves_a = refl

saved_moves_example : Kept mission_a (find "a" claimed_a.missions)
saved_moves_example =
    saved_moves (pos 1) claim two_missions claimed_a "a" mission_a two_missions-WellFormed
      mission_a-find claim-saves_a

choose-least_example :
    (claim_body two_missions
      ≡ ok (
        some (to_dict (record mission_a { state = running })),
        some (record two_missions { missions = put (start mission_a) two_missions.missions }),
      ))
    × (find "a" two_missions.missions ≡ some mission_a)
    × IsClaimable two_missions.missions mission_a
    × ((x : Mission)
        → Elem x two_missions.missions
        → IsClaimable two_missions.missions x
        → GoesFirst mission_a x)
choose-least_example =
    choose-least two_missions mission_a two_missions-WellFormed two_missions-choose

claimed_a-choose : choose claimed_a.missions ≡ none
unfolding choose
claimed_a-choose = refl

choose-none_example :
    (claim_body claimed_a ≡ ok (none, none))
    × ((x : Mission) → Elem x claimed_a.missions → ¬ IsClaimable claimed_a.missions x)
choose-none_example = choose-none claimed_a claimed_a-choose
