-- ===== src/Worker/Calm.antt =====
-- Runs of the worker of agent/runtime/background_worker.py that end without an exception.
use mitigate_ai_platform.Prelude.{
  Bool, Option-cases, inl, inr, true, false, Option, some, List, [], ◌∷◌, ◌≡◌, refl, sym, subst,
  All,
}
use mitigate_ai_platform.MissionQueue.Mission.{Mission, Queue, ok}
use mitigate_ai_platform.MissionQueue.File.{MissionDict, StateFile, to_dict, load}
use mitigate_ai_platform.MissionQueue.File.RoundTrip.{canonical, canonical_queue, load-save}
use mitigate_ai_platform.MissionQueue.Methods.Exact.{
  with_mission, find-canonical_queue, find-with_mission,
}
use mitigate_ai_platform.MissionQueue.Methods.{choose, start}
use mitigate_ai_platform.Worker.{
  Config, ControllerResult, Poll, World, Outcome, continues, breaks, raises, controller_raises,
  others, cycle, recover_once, loop, run, and_then,
}
use mitigate_ai_platform.Worker.Settle.{claimed_file, next_outcome, cycle-settles}
use mitigate_ai_platform.Worker.Others.{Loads, others-Loads}
use mitigate_ai_platform.Worker.Gentle.{AllGentle, RunsIn, others-RunsIn}
use mitigate_ai_platform.Worker.Run.{
  IsCalm, recover_once-IsCalm, idle_poll-IsCalm, claim-nothing, started-WellFormed,
}

-- While the controller runs, others only make calls that leave the mission to the worker.
abbrev IsUndisturbed : Poll → Type 0
IsUndisturbed p = AllGentle p.during_execution

-- The controller returns.
abbrev pub Returns : (MissionDict → Option ControllerResult) → Type 0
Returns controller = (d : MissionDict) → (r : ControllerResult) × (controller d ≡ some r)

claimed_file-RunsIn :
    (file : StateFile) (q : Queue) (m : Mission)
    → load file ≡ ok q
    → choose q.missions ≡ some m
    → RunsIn m.id (claimed_file q m)
claimed_file-RunsIn file q m h chosen =
    let after = with_mission (start m) q in
    let w = started-WellFormed file q m h chosen in
    (
      canonical_queue after,
      load-save after w,
      (
        canonical (start m),
        find-canonical_queue after m.id (start m) w (find-with_mission q (start m)),
        refl,
      ),
    )

module _ (cfg : Config) (returns : Returns cfg.controller) where
  cycle-IsCalm : (p : Poll) (s : World) → IsUndisturbed p → Loads s.file → IsCalm (cycle cfg p s)
  cycle-IsCalm p s gentle l =
      let file = others p.before_claim s.file in
      let (q, h) = others-Loads p.before_claim s.file l in
      elim (Option-cases (choose q.missions)) [
        | inl nothing ↦
            unfold cycle in
            rw (claim-nothing file q h nothing) (idle_poll-IsCalm cfg p.stop s.worker file (q, h))
        | inr (m, chosen) ↦
            let (r, answers) = returns (to_dict (start m)) in
            let (q₂, h₂, (m₂, at, runs)) =
              others-RunsIn m.id p.during_execution (claimed_file q m) gentle
                (claimed_file-RunsIn file q m h chosen) in
            let (s', q', e, h', found) =
              cycle-settles cfg p s q q₂ m m₂ r h chosen answers h₂ at runs in
            subst IsCalm (sym e) (either cfg.once s' (q', h'))
      ]
    where
      either : (b : Bool) (s' : World) → Loads s'.file → IsCalm (next_outcome b s')
      either true s' l = l
      either false s' l = l

  and_then-IsCalm :
      (o : Outcome) (f : World → Outcome)
      → IsCalm o
      → ((s : World) → Loads s.file → IsCalm (f s))
      → IsCalm (and_then o f)
  and_then-IsCalm (continues s) f h k = k s h
  and_then-IsCalm (breaks s) f h k = h
  and_then-IsCalm (controller_raises s) f h k = h
  and_then-IsCalm (raises e s) f h k = h

  loop-IsCalm :
      (polls : List Poll) (s : World)
      → All IsUndisturbed polls
      → Loads s.file
      → IsCalm (loop cfg polls s)
  unfolding loop
  loop-IsCalm [] s gentle l = l
  loop-IsCalm (p ∷ rest) s gentle l =
      and_then-IsCalm (cycle cfg p s) (loop cfg rest) (cycle-IsCalm p s gentle.0 l)
        (λ s' l'. loop-IsCalm rest s' gentle.1 l')

-- A run of the worker that raises nothing: started on a file that loads, with a controller that
-- returns, with any store and with any calls of others before each claim, where the calls of others
-- while the controller runs only enqueue, dequeue, claim, retry or resume missions. At none of its
-- polls does an exception leave `run`, and it leaves a file that loads.
pub run-IsCalm :
    (cfg : Config) (polls : List Poll) (s : World)
    → Returns cfg.controller
    → All IsUndisturbed polls
    → Loads s.file
    → IsCalm (run cfg polls s)
unfolding run
run-IsCalm cfg polls s returns gentle l =
    and_then-IsCalm cfg returns (recover_once s) (loop cfg polls) (recover_once-IsCalm s l)
      (λ s' l'. loop-IsCalm cfg returns polls s' gentle l')
