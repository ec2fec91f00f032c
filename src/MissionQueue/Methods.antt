-- ===== src/MissionQueue/Methods.antt =====
-- The public methods of `MissionQueue` (agent/runtime/mission_queue.py). Each one holds the file
-- lock from its `_load` to its `_save`, so it is one step from file to file. What a method leaves in
-- memory is not modelled: every method begins with a `_load` that replaces it.
pub mod Order
pub mod Claimable
pub mod Commit
pub mod Saves
pub mod Keep
pub mod Accounting
pub mod Transitions
pub mod Evolution
pub mod Effect
pub mod Claim
pub mod Exact
pub mod Histories
pub mod Batch
pub mod Recovery
pub mod Command
use mitigate_ai_platform.Prelude.{
  String, Bool, true, false, not, ◌&&◌, ◌||◌, Option, none, some, List, [], ◌∷◌, ◌++◌, map, ◌==◌,
  if◌then◌else◌, contains, sort_by, ℤ, pos, ◌+ℤ◌, leb_ℤ, filter_by, any, all,
}
use mitigate_ai_platform.MissionQueue.Mission.{
  MissionState, pending, running, retrying, completed, failed, blocked, cancelled, Mission, Queue,
  QueueError, mission_exists, mission_not_found, dequeue_running, dequeue_dependency,
  complete_not_running, fail_not_running, retry_not_failed, no_retry_left, block_not_active,
  cancel_final, resume_not_blocked, Result, ok, err, ◌>>=◌, ◌>>◌, guard, is_pending, is_running,
  is_retrying, is_completed, is_failed, is_blocked, is_cancelled, ids, find, put, remove,
}
use mitigate_ai_platform.MissionQueue.Validate.{sorted, validate_no_cycles}
use mitigate_ai_platform.MissionQueue.File.{
  MissionDict, QueueDict, StateFile, to_dict, serialize_state, load, save,
}
use Order.{precedes}

-- What the body of a method does under the lock: a result, and the queue to save, if it saves.
abbrev pub Body : Type 0 → Type 0
Body A = Queue → Result (A × Option Queue)

abbrev pub finish : {A : Type 0} → StateFile → Result (A × Option Queue) → Result A × StateFile
finish file (err e) = (err e, file)
finish file (ok (a, none)) = (ok a, file)
finish file (ok (a, some q)) = (ok a, save q)

abbrev pub under : {A : Type 0} → Body A → StateFile → Result Queue → Result A × StateFile
under body file (err e) = (err e, file)
under body file (ok q) = finish file (body q)

-- `with _FileLock(self._lock_path): self._load(); ...`
unfoldable pub locked : {A : Type 0} → Body A → StateFile → Result A × StateFile
unfolding load save
locked body file = under body file (load file)

abbrev pub or_missing : String → Option Mission → Result Mission
or_missing u none = err (mission_not_found u)
or_missing u (some m) = ok m

-- `_get_mission_or_raise`
unfoldable pub get_mission : String → Queue → Result Mission
unfolding find
get_mission u q = or_missing u (find u q.missions)

-- `m.state = ...; self._validate_no_cycles(); self._save()`
unfoldable pub commit : Mission → Body (Unit {0})
unfolding put validate_no_cycles
commit m q = do
  let ms = put m q.missions
  validate_no_cycles ms
  ok (tt, some (record q { missions = ms }))

-- `list(dict.fromkeys(deps))`
unfoldable pub dedupe : List String → List String → List String
unfolding contains
dedupe seen [] = []
dedupe seen (d ∷ ds) = elim (contains d seen) [
  | true ↦ dedupe seen ds
  | false ↦ d ∷ dedupe (d ∷ seen) ds
]

abbrev pub or_default : ℤ → Option ℤ → ℤ
or_default d none = d
or_default d (some n) = n

-- The mission that `enqueue` builds.
unfoldable pub new_mission : ℤ → String → ℤ → List String → Option ℤ → Queue → Mission
unfolding dedupe sort_by
new_mission default_max_retries mission_id priority dependencies max_retries q = record {
  id = mission_id;
  priority = priority;
  dependencies = sorted (dedupe [] dependencies);
  state = pending;
  created_seq = q.next_seq;
  attempts_done = pos 0;
  max_retries = or_default default_max_retries max_retries;
}

unfoldable pub enqueue_body : ℤ → String → ℤ → List String → Option ℤ → Body (Unit {0})
unfolding contains new_mission put validate_no_cycles ◌+ℤ◌
enqueue_body default_max_retries mission_id priority dependencies max_retries q = do
  guard (not (contains mission_id (ids q.missions))) (mission_exists mission_id)
  let m = new_mission default_max_retries mission_id priority dependencies max_retries q
  let ms = put m q.missions
  validate_no_cycles ms
  ok (tt, some (record { missions = ms; next_seq = q.next_seq +ℤ pos 1 }))

unfoldable pub dequeue_body : String → Body (Unit {0})
unfolding get_mission remove contains validate_no_cycles
dequeue_body mission_id q = do
  m ← get_mission mission_id q
  guard (not (is_running m.state)) dequeue_running
  guard
      (not (
        any (λ other. not (other.id == mission_id) && contains mission_id other.dependencies)
          q.missions))
      dequeue_dependency
  let ms = remove mission_id q.missions
  validate_no_cycles ms
  ok (tt, some (record q { missions = ms }))

-- One dependency exists and is completed.
abbrev pub completed_entry : Option Mission → Bool
completed_entry none = false
completed_entry (some dep) = is_completed dep.state

unfoldable pub deps_completed : List Mission → Mission → Bool
unfolding find
deps_completed ms m = all (λ d. completed_entry (find d ms)) m.dependencies

-- The test of `claim` on a mission.
unfoldable pub eligible : List Mission → Mission → Bool
unfolding deps_completed
eligible ms m = (is_pending m.state || is_retrying m.state) && deps_completed ms m

abbrev pub first : List Mission → Option Mission
first [] = none
first (m ∷ ms) = some m

-- The mission that `claim` chooses.
unfoldable pub choose : List Mission → Option Mission
unfolding eligible sort_by precedes
choose ms = first (sort_by precedes (filter_by (eligible ms) ms))

abbrev pub start : Mission → Mission
start m = record m { state = running }

abbrev pub take_up : Queue → Option Mission → Result (Option MissionDict × Option Queue)
take_up q none = ok (none, none)
take_up q (some m) =
    ok (some (to_dict (start m)), some (record q { missions = put (start m) q.missions }))

unfoldable pub claim_body : Body (Option MissionDict)
unfolding choose put to_dict
claim_body q = take_up q (choose q.missions)

abbrev pub recover_one : Mission → Mission
recover_one m = if is_running m.state then record m { state = retrying } else m

abbrev pub resume_all : Queue → List Mission → Result (List String × Option Queue)
resume_all q [] = ok ([], none)
resume_all q (r ∷ rs) = do
  let ms = map recover_one q.missions
  validate_no_cycles ms
  ok (ids (r ∷ rs), some (record q { missions = ms }))

unfoldable pub recover_stale_body : Body (List String)
unfolding sort_by precedes validate_no_cycles
recover_stale_body q =
    resume_all q (sort_by precedes (filter_by (λ m. is_running m.state) q.missions))

unfoldable pub complete_body : String → Body (Unit {0})
unfolding get_mission commit
complete_body mission_id q = do
  m ← get_mission mission_id q
  guard (is_running m.state) complete_not_running
  commit (record m { state = completed }) q

-- The accounting of `fail`.
unfoldable pub count_failure : Mission → Mission
unfolding ◌+ℤ◌
count_failure m =
    let attempts = m.attempts_done +ℤ pos 1 in
    record m {
      attempts_done = attempts;
      state = if leb_ℤ attempts m.max_retries then retrying else failed;
    }

unfoldable pub fail_body : String → Body (Unit {0})
unfolding get_mission count_failure commit
fail_body mission_id q = do
  m ← get_mission mission_id q
  guard (is_running m.state) fail_not_running
  commit (count_failure m) q

unfoldable pub retry_body : String → Body (Unit {0})
unfolding get_mission commit
retry_body mission_id q = do
  m ← get_mission mission_id q
  guard (is_failed m.state) retry_not_failed
  guard (not (leb_ℤ m.max_retries m.attempts_done)) no_retry_left
  commit (record m { state = retrying }) q

unfoldable pub block_body : String → Body (Unit {0})
unfolding get_mission commit
block_body mission_id q = do
  m ← get_mission mission_id q
  guard (is_pending m.state || is_retrying m.state || is_running m.state) block_not_active
  commit (record m { state = blocked }) q

unfoldable pub cancel_body : String → Body (Unit {0})
unfolding get_mission commit
cancel_body mission_id q = do
  m ← get_mission mission_id q
  guard (not (is_completed m.state || is_failed m.state || is_cancelled m.state)) cancel_final
  commit (record m { state = cancelled }) q

unfoldable pub resume_body : String → Body (Unit {0})
unfolding get_mission commit
resume_body mission_id q = do
  m ← get_mission mission_id q
  guard (is_blocked m.state || is_cancelled m.state) resume_not_blocked
  commit (record m { state = pending }) q

unfoldable pub list_body : Body (List MissionDict)
unfolding sort_by precedes to_dict
list_body q = ok (map to_dict (sort_by precedes q.missions), none)

unfoldable pub get_body : String → Body MissionDict
unfolding get_mission to_dict
get_body mission_id q = do m ← get_mission mission_id q; ok (to_dict m, none)

unfoldable pub to_json_body : Body QueueDict
unfolding serialize_state
to_json_body q = ok (serialize_state q, none)
