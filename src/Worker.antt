-- ===== src/Worker.antt =====
-- `BackgroundWorker.run` of agent/runtime/background_worker.py over the mission queue. The controller
-- and the checkpoint store are the objects that the constructor is given; the worker is one without
-- an execution reporter, a lifecycle hook and a heartbeat file (the constructor's defaults). The lock
-- of the queue is held within one method only, so other callers, other workers and the controller
-- itself may call the queue between the methods that the loop calls. A run is driven by a list of
-- polls: each one says which calls others make before its `claim` and while the controller runs, and
-- whether a shutdown has been requested when the poll is idle.
pub mod Settle
pub mod Others
pub mod Gentle
pub mod Run
pub mod Calm
use mitigate_ai_platform.Prelude.{
  ℕ, ◌+◌, String, Bool, true, false, not, ◌&&◌, ◌||◌, Option, none, some, List, [], ◌∷◌, ◌++◌, map,
  ◌==◌, leb, if◌then◌else◌, ℤ, pos, ◌+ℤ◌, leb_ℤ, strip, is_empty,
}
use mitigate_ai_platform.MissionQueue.Mission.{QueueError, Result, ok, err}
use mitigate_ai_platform.MissionQueue.File.{MissionDict, StateFile}
use mitigate_ai_platform.MissionQueue.Methods.Command.{Command, execute}
use mitigate_ai_platform.MissionQueue.Methods.{
  locked, claim_body, recover_stale_body, complete_body, fail_body, block_body,
}

pub data Event : Type 0 where
  recovered claimed completed retrying : String → Event
  failed : String → Option String → Event
  idle shutdown : Event
  checkpoint_saved checkpoint_failed : String → ℕ → String → Event

-- What `_save_checkpoint` hands to the store.
pub record Checkpoint : Type 0 where
  pub mission_id : String
  pub attempts_done : ℤ
  pub max_retries : ℤ
  pub sequence : ℕ
  pub phase : String
  pub controller_status : Option String
  pub queue_state : Option String

pub record ControllerResult : Type 0 where
  pub status : String
  pub reason : Option String

-- A call of the queue by somebody else, whose queue was made with this `default_max_retries`.
pub record OtherCall : Type 0 where
  pub default_max_retries : ℤ
  pub command : Command

-- What happens around one round of the loop.
pub record Poll : Type 0 where
  pub stop : Bool
  pub before_claim : List OtherCall
  pub during_execution : List OtherCall

-- The calls of others, one after another.
unfoldable pub others : List OtherCall → StateFile → StateFile
unfolding execute
others [] file = file
others (c ∷ cs) file = others cs (execute c.default_max_retries c.command file)

-- `once` and `max_idle_cycles`, the store (`none` if there is none; it may raise) and the controller,
-- which gives `none` where its `execute` raises.
pub record Config : Type 0 where
  pub once : Bool
  pub max_idle_cycles : Option ℕ
  pub store : Option (Checkpoint → Bool)
  pub controller : MissionDict → Option ControllerResult

pub record Worker : Type 0 where
  pub shutdown_event_emitted : Bool
  pub has_recovered : Bool
  pub idle_cycles : ℕ
  pub events : List Event

pub record World : Type 0 where
  pub worker : Worker
  pub file : StateFile

unfoldable pub emit : Event → Worker → Worker
emit e w = record w { events = w.events ++ e ∷ [] }

-- Whether `_checkpoint_execution_id` and the store accept the checkpoint.
unfoldable pub accepted : (Checkpoint → Bool) → Checkpoint → Bool
unfolding strip
accepted store c = not (is_empty (strip c.mission_id)) && leb_ℤ (pos 0) c.attempts_done && store c

abbrev checkpoint_of : MissionDict → ℕ → String → Option String → Option String → Checkpoint
checkpoint_of d sequence phase status queue_state = record {
  mission_id = strip d.id;
  attempts_done = d.attempts_done;
  max_retries = d.max_retries;
  sequence = sequence;
  phase = phase;
  controller_status = status;
  queue_state = queue_state;
}

abbrev checkpoint_event : Bool → MissionDict → Checkpoint → Event
checkpoint_event true d c = checkpoint_saved c.mission_id c.sequence c.phase
checkpoint_event false d c = checkpoint_failed d.id c.sequence c.phase

abbrev save_in : Option (Checkpoint → Bool) → MissionDict → Checkpoint → Worker → Worker
save_in none d c w = w
save_in (some store) d c w = emit (checkpoint_event (accepted store c) d c) w

-- `_save_checkpoint`
unfoldable pub save_checkpoint :
    Config → MissionDict → ℕ → String → Option String → Option String → Worker → Worker
unfolding emit accepted strip
save_checkpoint cfg d sequence phase status queue_state =
    save_in cfg.store d (checkpoint_of d sequence phase status queue_state)

-- The names that the last checkpoint of a cycle gives to the state of the queue.
unfoldable pub reported_state : String → MissionDict → String
unfolding ◌+ℤ◌
reported_state status d =
    if status == "success"
    then "completed"
    else if status == "retry"
    then (if leb_ℤ (d.attempts_done +ℤ pos 1) d.max_retries then "retrying" else "failed")
    else if status == "exhausted"
    then "failed"
    else "blocked"

abbrev or_reason : String → Option String → String
or_reason d none = d
or_reason d (some r) = if is_empty r then d else r

-- The event that follows the queue transition.
unfoldable pub settled_event : ControllerResult → MissionDict → Event
unfolding is_empty
settled_event r d =
    if r.status == "success"
    then completed d.id
    else if r.status == "retry"
    then retrying d.id
    else if r.status == "exhausted"
    then failed d.id none
    else if r.status == "blocked"
    then failed d.id (some (or_reason "blocked" r.reason))
    else failed d.id (some "unknown_status")

-- The queue transition that the controller's status selects.
unfoldable pub transition : String → String → StateFile → Result (Unit {0}) × StateFile
unfolding locked complete_body fail_body block_body
transition status mission_id =
    if status == "success"
    then locked (complete_body mission_id)
    else if status == "retry"
    then locked (fail_body mission_id)
    else if status == "exhausted"
    then locked (fail_body mission_id)
    else locked (block_body mission_id)

-- How a cycle ends: the loop goes on, it breaks, or an exception leaves `run`, of the controller or of
-- the queue.
pub data Outcome : Type 0 where
  continues breaks controller_raises : World → Outcome
  raises : QueueError → World → Outcome

-- After a transition that raised nothing: the event and the last checkpoint.
unfoldable pub finish_mission : Config → MissionDict → ControllerResult → Worker → Worker
unfolding emit save_checkpoint settled_event reported_state
finish_mission cfg d r w =
    save_checkpoint cfg d 3 "queue_transition" (some r.status) (some (reported_state r.status d))
      (emit (settled_event r d) w)

abbrev settle :
    Config → MissionDict → ControllerResult → Worker → Result (Unit {0}) × StateFile → Outcome
settle cfg d r w (err e, file) = raises e (record { worker = w; file = file })
settle cfg d r w (ok t, file) =
    let next : World = record { worker = finish_mission cfg d r w; file = file } in
    if cfg.once then breaks next else continues next

-- What the worker records between the claim and the controller.
unfoldable pub take_mission : Config → MissionDict → Worker → Worker
unfolding emit save_checkpoint
take_mission cfg d w =
    let w₀ = emit (claimed d.id) (record w { idle_cycles = 0 }) in
    let w₁ = save_checkpoint cfg d 0 "claimed" none (some "running") w₀ in
    save_checkpoint cfg d 1 "controller_started" none (some "running") w₁

-- The checkpoint after the controller.
unfoldable pub leave_controller : Config → MissionDict → String → Worker → Worker
unfolding save_checkpoint
leave_controller cfg d status =
    save_checkpoint cfg d 2 "controller_finished" (some status) (some "running")

-- The cycle from the controller's answer on, with the file that the others have left.
abbrev pub answer : Config → MissionDict → Worker → StateFile → Option ControllerResult → Outcome
answer cfg d w file none = controller_raises (record { worker = w; file = file })
answer cfg d w file (some r) =
    settle cfg d r (leave_controller cfg d r.status w) (transition r.status d.id file)

-- The cycle from the claim on. While the controller runs, the others call the queue.
unfoldable pub process : Config → List OtherCall → MissionDict → Worker → StateFile → Outcome
unfolding take_mission leave_controller transition finish_mission others
process cfg during d w file =
    answer cfg d (take_mission cfg d w) (others during file) (cfg.controller d)

abbrev pub reached : Option ℕ → ℕ → Bool
reached none n = false
reached (some limit) n = leb limit n

-- An empty poll.
unfoldable pub idle_poll : Config → Bool → Worker → StateFile → Outcome
unfolding emit
idle_poll cfg stop w file =
    let w' = emit idle (record w { idle_cycles = w.idle_cycles + 1 }) in
    if stop
    then breaks (record {
      worker =
          if w'.shutdown_event_emitted
          then w'
          else record (emit shutdown w') { shutdown_event_emitted = true };
      file = file;
    })
    else if cfg.once || reached cfg.max_idle_cycles w'.idle_cycles
    then breaks (record { worker = w'; file = file })
    else continues (record { worker = w'; file = file })

abbrev pub poll : Config → Poll → Worker → Result (Option MissionDict) × StateFile → Outcome
poll cfg p w (err e, file) = raises e (record { worker = w; file = file })
poll cfg p w (ok none, file) = idle_poll cfg p.stop w file
poll cfg p w (ok (some d), file) = process cfg p.during_execution d w file

-- One round of `while True`.
unfoldable pub cycle : Config → Poll → World → Outcome
unfolding locked claim_body process idle_poll others
cycle cfg p s = poll cfg p s.worker (locked claim_body (others p.before_claim s.file))

-- `_recover_once`
abbrev pub recovery : Worker → Result (List String) × StateFile → Outcome
recovery w (err e, file) =
    raises e (record { worker = record w { has_recovered = true }; file = file })
recovery w (ok us, file) = continues (record {
  worker = record w { has_recovered = true; events = w.events ++ map recovered us };
  file = file;
})

unfoldable pub recover_once : World → Outcome
unfolding locked recover_stale_body
recover_once s =
    if s.worker.has_recovered
    then continues s
    else recovery s.worker (locked recover_stale_body s.file)

abbrev pub and_then : Outcome → (World → Outcome) → Outcome
and_then (continues s) f = f s
and_then (breaks s) f = breaks s
and_then (controller_raises s) f = controller_raises s
and_then (raises e s) f = raises e s

-- The loop, as many rounds as there are polls.
unfoldable pub loop : Config → List Poll → World → Outcome
unfolding cycle
loop cfg [] s = continues s
loop cfg (p ∷ rest) s = and_then (cycle cfg p s) (loop cfg rest)

unfoldable pub run : Config → List Poll → World → Outcome
unfolding recover_once loop
run cfg polls s = and_then (recover_once s) (loop cfg polls)
