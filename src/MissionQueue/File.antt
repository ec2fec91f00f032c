-- ===== src/MissionQueue/File.antt =====
-- The state file of agent/runtime/mission_queue.py: `Mission.to_dict`, `Mission.from_dict`,
-- `_serialize_state`, `_save` and `_load`. A file holds no JSON, a JSON value that is no object, or an
-- object; the object may have been written by anyone, so each of its keys may be missing or have a
-- value that the code refuses. A value is given as what the code's own conversion, `int`, `str` or
-- `isinstance`, makes of it. `_save` replaces the file as a whole (`os.replace`), so a reader sees
-- the old document or the new one.
pub mod Sorting
pub mod RoundTrip
pub mod Loading
use mitigate_ai_platform.Prelude.{
  String, not, Option, none, some, List, [], ◌∷◌, ◌++◌, map, ◌==◌, if◌then◌else◌, contains, str_lt,
  sort_by, ℤ, pos, eq_ℤ, max_ℤ,
}
use mitigate_ai_platform.MissionQueue.Mission.{
  MissionState, pending, running, retrying, completed, failed, blocked, cancelled, Mission, Queue,
  Result, ok, err, not_valid_json, root_not_object, unsupported_version, missions_not_mapping,
  invalid_entry, id_mismatch, duplicate_id, invalid_state, invalid_dependencies, missing_key,
  refused_conversion, QueueError, ◌>>=◌, ◌>>◌, guard, ids,
}
use mitigate_ai_platform.MissionQueue.Validate.{sorted, validate_no_cycles}

pub record MissionDict : Type 0 where
  pub id : String
  pub priority : ℤ
  pub dependencies : List String
  pub state : String
  pub created_seq : ℤ
  pub attempts_done : ℤ
  pub max_retries : ℤ

pub record QueueDict : Type 0 where
  pub version : ℤ
  pub next_seq : ℤ
  pub missions : List (String × MissionDict)

-- A key of a JSON object: it is missing, the code's conversion of its value (`int`, `str`, the test
-- for a list of strings or for an object) raises, or the conversion gives this.
pub data Field (A : Type 0) : Type 0 where
  missing refused : Field A
  present : A → Field A

-- An object that `from_dict` is given.
pub record RawMission : Type 0 where
  pub id : Field String
  pub priority : Field ℤ
  pub dependencies : Field (List String)
  pub state : Field String
  pub created_seq : Field ℤ
  pub attempts_done : Field ℤ
  pub max_retries : Field ℤ

-- A value of `missions_raw`.
pub data RawEntry : Type 0 where
  no_object : RawEntry
  object : RawMission → RawEntry

-- The object that `_load` reads.
pub record RawQueue : Type 0 where
  pub version : Field ℤ
  pub next_seq : Field ℤ
  pub missions : Field (List (String × RawEntry))

pub data StateFile : Type 0 where
  absent no_json no_mapping : StateFile
  stored : RawQueue → StateFile

-- `state.value`
unfoldable pub value : MissionState → String
value pending = "pending"
value running = "running"
value retrying = "retrying"
value completed = "completed"
value failed = "failed"
value blocked = "blocked"
value cancelled = "cancelled"

-- `MissionState(text)`
unfoldable pub state_of : String → Option MissionState
state_of s =
    if s == "pending"
    then some pending
    else if s == "running"
    then some running
    else if s == "retrying"
    then some retrying
    else if s == "completed"
    then some completed
    else if s == "failed"
    then some failed
    else if s == "blocked"
    then some blocked
    else if s == "cancelled"
    then some cancelled
    else none

unfoldable pub to_dict : Mission → MissionDict
unfolding value sort_by
to_dict m = record {
  id = m.id;
  priority = m.priority;
  dependencies = sorted m.dependencies;
  state = value m.state;
  created_seq = m.created_seq;
  attempts_done = m.attempts_done;
  max_retries = m.max_retries;
}

-- `int(d.get(key, default))`, and the like.
abbrev pub get_or : {A : Type 0} → A → QueueError → Field A → Result A
get_or default e missing = ok default
get_or default e refused = err e
get_or default e (present a) = ok a

-- `int(d[key])`, `str(d[key])`
abbrev get_key : {A : Type 0} → Field A → Result A
get_key missing = err missing_key
get_key refused = err refused_conversion
get_key (present a) = ok a

abbrev or_invalid : Option MissionState → Result MissionState
or_invalid none = err invalid_state
or_invalid (some state) = ok state

-- `MissionState(str(d["state"]))`, whose exceptions are all turned into one.
abbrev read_state : Field String → Result MissionState
read_state missing = err invalid_state
read_state refused = err invalid_state
read_state (present s) = or_invalid (state_of s)

unfoldable pub from_dict : RawMission → Result Mission
unfolding state_of
from_dict d = do
  state ← read_state d.state
  dependencies ← get_or [] invalid_dependencies d.dependencies
  id ← get_key d.id
  priority ← get_key d.priority
  created_seq ← get_or (pos 0) refused_conversion d.created_seq
  attempts_done ← get_or (pos 0) refused_conversion d.attempts_done
  max_retries ← get_or (pos 0) refused_conversion d.max_retries
  ok (record {
    id = id;
    priority = priority;
    dependencies = dependencies;
    state = state;
    created_seq = created_seq;
    attempts_done = attempts_done;
    max_retries = max_retries;
  })

-- Missions in the order of their ids.
abbrev pub by_id : List Mission → List Mission
by_id = sort_by (λ a b. str_lt a.id b.id)

unfoldable pub serialize_state : Queue → QueueDict
unfolding to_dict sort_by
serialize_state q = record {
  version = pos 1;
  next_seq = q.next_seq;
  missions = map (λ m. (m.id, to_dict m)) (by_id q.missions);
}

-- `isinstance(md, dict)`, and `from_dict`.
abbrev pub read_entry : RawEntry → Result Mission
read_entry no_object = err invalid_entry
read_entry (object d) = from_dict d

-- The loop over `missions_raw.items()`, with the dictionary built so far.
unfoldable pub load_missions : List Mission → List (String × RawEntry) → Result (List Mission)
unfolding from_dict contains
load_missions ms [] = ok ms
load_missions ms ((mid, d) ∷ rest) = do
  m ← read_entry d
  guard (m.id == mid) id_mismatch
  guard (not (contains mid (ids ms))) duplicate_id
  load_missions (ms ++ m ∷ []) rest

abbrev pub empty_queue : Queue
empty_queue = record { missions = []; next_seq = pos 1 }

-- `_load` of the object that it has read.
unfoldable load_object : RawQueue → Result Queue
unfolding load_missions validate_no_cycles
load_object d = do
  version ← get_or (pos 1) refused_conversion d.version
  guard (eq_ℤ version (pos 1)) unsupported_version
  next_seq ← get_or (pos 1) refused_conversion d.next_seq
  entries ← get_or [] missions_not_mapping d.missions
  ms ← load_missions [] entries
  validate_no_cycles ms
  ok (record { missions = ms; next_seq = max_ℤ (pos 1) next_seq })

unfoldable pub load : StateFile → Result Queue
unfolding load_object
load absent = ok empty_queue
load no_json = err not_valid_json
load no_mapping = err root_not_object
load (stored d) = load_object d

-- What JSON keeps of the dictionaries that `_serialize_state` builds: each key is there, and `int` and
-- `str` give the values back.
abbrev pub raw_mission : MissionDict → RawMission
raw_mission d = record {
  id = present d.id;
  priority = present d.priority;
  dependencies = present d.dependencies;
  state = present d.state;
  created_seq = present d.created_seq;
  attempts_done = present d.attempts_done;
  max_retries = present d.max_retries;
}

abbrev pub raw_entry : String × MissionDict → String × RawEntry
raw_entry e = (e.0, object (raw_mission e.1))

abbrev raw_queue : QueueDict → RawQueue
raw_queue d = record {
  version = present d.version;
  next_seq = present d.next_seq;
  missions = present (map raw_entry d.missions);
}

unfoldable pub save : Queue → StateFile
unfolding serialize_state
save q = stored (raw_queue (serialize_state q))
