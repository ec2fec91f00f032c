-- ===== src/MissionQueue/Methods/Histories.antt =====
-- What holds in every file that calls of the methods of agent/runtime/mission_queue.py can make.
use mitigate_ai_platform.Prelude.{String, ℤ, some, ◌≡◌, ◌∙◌, ◌<ℤ◌, sym, subst}
use mitigate_ai_platform.MissionQueue.Mission.{Mission, failed, Queue, ok, find}
use mitigate_ai_platform.MissionQueue.File.{StateFile, load}
use mitigate_ai_platform.MissionQueue.File.RoundTrip.{WellFormed}
use mitigate_ai_platform.MissionQueue.Validate.Lookup.{All-find}
use mitigate_ai_platform.MissionQueue.Methods.Command.{Reachable}
use mitigate_ai_platform.MissionQueue.Methods.Accounting.{IsSpent, AllSpent, Reachable-loads}

-- Every file that calls of the methods make of a queue without a file loads, whether the calls
-- succeed or raise, and its queue is well formed: its ids are distinct, it has no circular dependency
-- and its sequence starts at 1.
pub Reachable-WellFormed :
    {d : ℤ} {file : StateFile} → Reachable d file → (q : Queue) × (load file ≡ ok q) × WellFormed q
Reachable-WellFormed r = let (q, loads, w, s) = Reachable-loads r in (q, loads, w)

-- In every file that calls of the methods make, a mission is failed only past its budget: it has more
-- attempts than `max_retries`.
pub failed-spent :
    {d : ℤ} {file : StateFile} (q : Queue) (u : String) (m : Mission)
    → Reachable d file
    → load file ≡ ok q
    → find u q.missions ≡ some m
    → m.state ≡ failed
    → m.max_retries <ℤ m.attempts_done
failed-spent q u m r h at was =
    let (q', loads, w, s) = Reachable-loads r in
    let same : q' ≡ q = ok_inj (sym loads ∙ h) in
    All-find IsSpent u q.missions (subst AllSpent same s) at was
  where
    ok_inj : {x y : Queue} → ok x ≡ ok y → x ≡ y
    ok_inj e = cc
