-- ===== src/Worker/Run.antt =====
-- How a run of the worker can end: `run` of agent/runtime/background_worker.py on a file that loads,
-- with any calls of others between its own.
use mitigate_ai_platform.Prelude.{
  ◌+◌, Bool, true, false, ◌||◌, Option, none, some, List, [], ◌∷◌, ◌≡◌, refl, Bool-cases,
  Option-cases, inl, inr, if◌then◌else◌,
}
use mitigate_ai_platform.MissionQueue.Mission.{Mission, Queue, Result, ok, err}
use mitigate_ai_platform.MissionQueue.File.{MissionDict, StateFile, to_dict, load}
use mitigate_ai_platform.MissionQueue.File.RoundTrip.{WellFormed, canonical_queue, load-save}
use mitigate_ai_platform.MissionQueue.File.Loading.{load-WellFormed}
use mitigate_ai_platform.MissionQueue.Methods.Recovery.{recover_stale-loads}
use mitigate_ai_platform.MissionQueue.Methods.Commit.{WellFormed-put}
use mitigate_ai_platform.MissionQueue.Methods.Keep.{choose_sound}
use mitigate_ai_platform.MissionQueue.Methods.Exact.{with_mission}
use mitigate_ai_platform.MissionQueue.Methods.{locked, claim_body, choose, start}
use mitigate_ai_platform.Worker.{
  Config, ControllerResult, Poll, Worker, World, Outcome, continues, breaks, raises,
  controller_raises, others, transition, answer, settle, leave_controller, take_mission, cycle,
  process, idle_poll, recover_once, loop, run, and_then, reached,
}
use mitigate_ai_platform.Worker.Settle.{claim-saves, claimed_file}
use mitigate_ai_platform.Worker.Others.{
  Loads, IsLost, IsOrderlyCall, others-Loads, transition-IsOrderly,
}

-- No exception has left the loop, and the file loads.
abbrev pub IsCalm : Outcome → Type 0
IsCalm (continues s) = Loads s.file
IsCalm (breaks s) = Loads s.file
IsCalm _ = ⊥

-- The file loads; an exception is one of the controller, or says that the mission is lost.
abbrev pub IsOrderly : Outcome → Type 0
IsOrderly (continues s) = Loads s.file
IsOrderly (breaks s) = Loads s.file
IsOrderly (controller_raises s) = Loads s.file
IsOrderly (raises e s) = IsLost e × Loads s.file

IsCalm-IsOrderly : (o : Outcome) → IsCalm o → IsOrderly o
IsCalm-IsOrderly (continues s) h = h
IsCalm-IsOrderly (breaks s) h = h
IsCalm-IsOrderly (controller_raises s) h = absurd h
IsCalm-IsOrderly (raises e s) h = absurd h

pub idle_poll-IsCalm :
    (cfg : Config) (stop : Bool) (w : Worker) (file : StateFile)
    → Loads file
    → IsCalm (idle_poll cfg stop w file)
unfolding idle_poll
idle_poll-IsCalm cfg true w file l = l
idle_poll-IsCalm cfg false w file l =
    either (cfg.once || reached cfg.max_idle_cycles (w.idle_cycles + 1)) _
  where
    either :
        (b : Bool) (w' : Worker)
        → IsCalm (
            if b
            then breaks (record { worker = w'; file = file })
            else continues (record { worker = w'; file = file }))
    either true w' = l
    either false w' = l

settle-IsOrderly :
    (cfg : Config) (d : MissionDict) (r : ControllerResult) (w : Worker)
    (moved : Result (Unit {0}) × StateFile)
    → IsOrderlyCall moved
    → IsOrderly (settle cfg d r w moved)
settle-IsOrderly cfg d r w (err e, file) k = k
settle-IsOrderly cfg d r w (ok t, file) k = elim (Bool-cases cfg.once) [
  | inl once ↦ rw once k.1
  | inr on ↦ rw on k.1
]

answer-IsOrderly :
    (cfg : Config) (d : MissionDict) (w : Worker) (file : StateFile) (o : Option ControllerResult)
    → Loads file
    → IsOrderly (answer cfg d w file o)
answer-IsOrderly cfg d w file none l = l
answer-IsOrderly cfg d w file (some r) l =
    settle-IsOrderly cfg d r (leave_controller cfg d r.status w) (transition r.status d.id file)
      (transition-IsOrderly r.status d.id file l)

-- The queue with the mission that `claim` chooses as running.
pub started-WellFormed :
    (file : StateFile) (q : Queue) (m : Mission)
    → load file ≡ ok q
    → choose q.missions ≡ some m
    → WellFormed (with_mission (start m) q)
started-WellFormed file q m h chosen =
    let w = load-WellFormed file q h in
    WellFormed-put q w (start m) m (choose_sound q m w chosen).0 refl

claimed_file-Loads :
    (file : StateFile) (q : Queue) (m : Mission)
    → load file ≡ ok q
    → choose q.missions ≡ some m
    → Loads (claimed_file q m)
claimed_file-Loads file q m h chosen =
    let after = with_mission (start m) q in
    (canonical_queue after, load-save after (started-WellFormed file q m h chosen))

pub claim-nothing :
    (file : StateFile) (q : Queue)
    → load file ≡ ok q
    → choose q.missions ≡ none
    → locked claim_body file ≡ (ok none, file)
unfolding locked claim_body
claim-nothing file q h nothing = rw h (rw nothing refl)

cycle-IsOrderly : (cfg : Config) (p : Poll) (s : World) → Loads s.file → IsOrderly (cycle cfg p s)
unfolding cycle process
cycle-IsOrderly cfg p s l =
    let file = others p.before_claim s.file in
    let (q, h) = others-Loads p.before_claim s.file l in
    elim (Option-cases (choose q.missions)) [
      | inl nothing ↦ rw (claim-nothing file q h nothing) (
          IsCalm-IsOrderly (idle_poll cfg p.stop s.worker file)
            (idle_poll-IsCalm cfg p.stop s.worker file (q, h)))
      | inr (m, chosen) ↦ rw (claim-saves file q m h chosen) (
          answer-IsOrderly cfg (to_dict (start m)) (take_mission cfg (to_dict (start m)) s.worker)
            (others p.during_execution (claimed_file q m)) (cfg.controller (to_dict (start m)))
            (others-Loads p.during_execution (claimed_file q m)
              (claimed_file-Loads file q m h chosen)))
    ]

and_then-IsOrderly :
    (o : Outcome) (f : World → Outcome)
    → IsOrderly o
    → ((s : World) → Loads s.file → IsOrderly (f s))
    → IsOrderly (and_then o f)
and_then-IsOrderly (continues s) f h k = k s h
and_then-IsOrderly (breaks s) f h k = h
and_then-IsOrderly (controller_raises s) f h k = h
and_then-IsOrderly (raises e s) f h k = h

loop-IsOrderly :
    (cfg : Config) (polls : List Poll) (s : World) → Loads s.file → IsOrderly (loop cfg polls s)
unfolding loop
loop-IsOrderly cfg [] s l = l
loop-IsOrderly cfg (p ∷ rest) s l =
    and_then-IsOrderly (cycle cfg p s) (loop cfg rest) (cycle-IsOrderly cfg p s l)
      (loop-IsOrderly cfg rest)

pub recover_once-IsCalm : (s : World) → Loads s.file → IsCalm (recover_once s)
unfolding recover_once
recover_once-IsCalm s (q, h) = elim (Bool-cases s.worker.has_recovered) [
  | inl done ↦ rw done (q, h)
  | inr not_yet ↦
      let (us, file', q', e, h') = recover_stale-loads s.file q h (load-WellFormed s.file q h) in
      rw not_yet (rw e (q', h'))
]

-- A run of the worker on a file that loads, with any controller and store and with any calls of others
-- before each claim and while the controller runs: however the run ends, or goes on after the polls, the
-- file loads; and an exception that leaves `run` is one of the controller, or the queue's report that
-- the mission is gone or no longer in a state that the transition may leave.
pub run-IsOrderly :
    (cfg : Config) (polls : List Poll) (s : World) → Loads s.file → IsOrderly (run cfg polls s)
unfolding run
run-IsOrderly cfg polls s l =
    and_then-IsOrderly (recover_once s) (loop cfg polls)
      (IsCalm-IsOrderly (recover_once s) (recover_once-IsCalm s l)) (loop-IsOrderly cfg polls)
