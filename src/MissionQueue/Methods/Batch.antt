-- ===== src/MissionQueue/Methods/Batch.antt =====
-- `enqueue_from_planner`, agent/runtime/mission_queue.py: calls of `enqueue` up to the first that raises.
-- The entries of an item are what `str`, `int` and `list` make of them.
use mitigate_ai_platform.Prelude.{String, Option, List, [], ◌∷◌, ℤ}
use mitigate_ai_platform.MissionQueue.Mission.{Result, ok, err}
use mitigate_ai_platform.MissionQueue.File.{StateFile}
use mitigate_ai_platform.MissionQueue.Methods.{locked, enqueue_body}
use mitigate_ai_platform.MissionQueue.Methods.Command.{enqueue, execute, Reachable, call}

pub record PlannedMission : Type 0 where
  pub mission_id : String
  pub priority : ℤ
  pub dependencies : List String
  pub max_retries : Option ℤ

-- The result of an item decides whether the rest is enqueued.
abbrev unless_raised :
    Result (Unit {0}) → StateFile × Result (Unit {0}) → StateFile → StateFile × Result (Unit {0})
unless_raised (ok u) rest file = rest
unless_raised (err e) rest file = (file, err e)

unfoldable pub enqueue_from_planner :
    ℤ → List PlannedMission → StateFile → StateFile × Result (Unit {0})
unfolding locked enqueue_body
enqueue_from_planner d [] file = (file, ok tt)
enqueue_from_planner d (m ∷ ms) file =
    let first = locked (enqueue_body d m.mission_id m.priority m.dependencies m.max_retries) file in
    let rest = enqueue_from_planner d ms first.1 in unless_raised first.0 rest first.1

-- A batch, whether it ends or raises, leaves a file that calls of the methods make.
pub enqueue_from_planner-Reachable :
    (d : ℤ) (ms : List PlannedMission) (file : StateFile)
    → Reachable d file
    → Reachable d (enqueue_from_planner d ms file).0
unfolding enqueue_from_planner execute
enqueue_from_planner-Reachable d [] file r = r
enqueue_from_planner-Reachable d (m ∷ ms) file r =
    let one = call r (enqueue m.mission_id m.priority m.dependencies m.max_retries) in
    either _ (enqueue_from_planner d ms _)
      (locked (enqueue_body d m.mission_id m.priority m.dependencies m.max_retries) file).0 one
      (enqueue_from_planner-Reachable d ms _ one)
  where
    either :
        (after : StateFile) (rest : StateFile × Result (Unit {0})) (first : Result (Unit {0}))
        → Reachable d after
        → Reachable d rest.0
        → Reachable d (unless_raised first rest after).0
    either after rest (ok u) h k = k
    either after rest (err e) h k = h
