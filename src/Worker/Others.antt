-- ===== src/Worker/Others.antt =====
-- The calls of others on a file that loads, and what they leave to the worker of
-- agent/runtime/background_worker.py: its transition succeeds or reports that it lost the mission.
use mitigate_ai_platform.Prelude.{
  String, Bool, Bool-cases, Option-cases, inl, inr, Option, none, some, List, [], ◌∷◌, ◌≡◌, refl,
  ap, ◌∙◌, ◌||◌, ◌==◌, ℤ, pos,
}
use mitigate_ai_platform.MissionQueue.Mission.{
  Mission, MissionState, completed, blocked, Queue, QueueError, mission_not_found,
  complete_not_running, fail_not_running, block_not_active, Result, ok, err, find, guard, ◌>>=◌,
  ◌>>◌, is_pending, is_running, is_retrying,
}
use mitigate_ai_platform.MissionQueue.File.{StateFile, load}
use mitigate_ai_platform.MissionQueue.File.RoundTrip.{WellFormed, canonical_queue, load-save}
use mitigate_ai_platform.MissionQueue.File.Loading.{load-WellFormed}
use mitigate_ai_platform.MissionQueue.Methods.{
  commit, count_failure, get_mission, complete_body, fail_body, block_body, locked, finish,
}
use mitigate_ai_platform.MissionQueue.Methods.Saves.{Saves}
use mitigate_ai_platform.MissionQueue.Methods.Command.{
  Command, complete, fail, block, command_body, execute,
}
use mitigate_ai_platform.MissionQueue.Methods.Commit.{commit-ok}
use mitigate_ai_platform.MissionQueue.Methods.Evolution.{at_id}
use mitigate_ai_platform.MissionQueue.Methods.Keep.{command-WellFormed}
use mitigate_ai_platform.MissionQueue.Methods.Effect.{Settles, execute-loads}
use mitigate_ai_platform.Worker.{OtherCall, others, transition}

-- A file that loads.
abbrev pub Loads : StateFile → Type 0
Loads file = (q : Queue) × (load file ≡ ok q)

execute-Loads : (d : ℤ) (c : Command) (file : StateFile) → Loads file → Loads (execute d c file)
execute-Loads d c file (q, h) = go (command_body d c q) (execute-loads d c file q h)
  where
    go : (r : Result (Unit {0} × Option Queue)) → Settles d c file q r → Loads (execute d c file)
    go (err e) s = (q, ap load s ∙ h)
    go (ok (a, none)) s = (q, ap load s ∙ h)
    go (ok (a, some q')) s = (canonical_queue q', s.0)

-- Whatever others call, the file loads.
pub others-Loads : (cs : List OtherCall) (file : StateFile) → Loads file → Loads (others cs file)
unfolding others
others-Loads [] file l = l
others-Loads (c ∷ cs) file l =
    others-Loads cs (execute c.default_max_retries c.command file)
      (execute-Loads c.default_max_retries c.command file l)

-- The exceptions that say that the mission is gone, or no longer in the state that the worker left.
abbrev pub IsLost : QueueError → Type 0
IsLost (mission_not_found u) = Unit
IsLost complete_not_running = Unit
IsLost fail_not_running = Unit
IsLost block_not_active = Unit
IsLost _ = ⊥

-- The body raises no other exception.
abbrev LosesOnly : {A : Type 0} → Result A → Type 0
LosesOnly (err e) = IsLost e
LosesOnly (ok a) = Unit

-- A method that tests the state of a mission and changes the mission, but not its id and
-- dependencies.
commit-LosesOnly :
    (q : Queue) (u : String) (test : MissionState → Bool) (e : QueueError) (f : Mission → Mission)
    → WellFormed q
    → IsLost e
    → ((m : Mission) → ((f m).id ≡ m.id) × ((f m).dependencies ≡ m.dependencies))
    → LosesOnly (get_mission u q >>= λ m. guard (test m.state) e >> commit (f m) q)
unfolding get_mission
commit-LosesOnly q u test e f w lost same = elim (Option-cases (find u q.missions)) [
  | inl missing ↦ rw missing tt
  | inr (m, at) ↦ elim (Bool-cases (test m.state)) [
    | inl fits ↦
        let kept = same m in
        rw at (
          rw fits (
            rw (commit-ok q w (f m) m (ap (λ k. find k q.missions) kept.0 ∙ at_id q u m at) kept.1)
              tt))
    | inr other ↦ rw at (rw other lost)
  ]
]

complete-LosesOnly : (q : Queue) (u : String) → WellFormed q → LosesOnly (complete_body u q)
unfolding complete_body
complete-LosesOnly q u w =
    commit-LosesOnly q u is_running complete_not_running (λ m. record m { state = completed }) w tt
      (λ m. (refl, refl))

fail-LosesOnly : (q : Queue) (u : String) → WellFormed q → LosesOnly (fail_body u q)
unfolding fail_body
fail-LosesOnly q u w =
    commit-LosesOnly q u is_running fail_not_running count_failure w tt
      (λ m. unfold count_failure in (refl, refl))

block-LosesOnly : (q : Queue) (u : String) → WellFormed q → LosesOnly (block_body u q)
unfolding block_body
block-LosesOnly q u w =
    commit-LosesOnly q u (λ s. is_pending s || is_retrying s || is_running s) block_not_active
      (λ m. record m { state = blocked }) w tt (λ m. (refl, refl))

-- A call that leaves a file that loads and raises at most that the mission is lost.
abbrev pub IsOrderlyCall : Result (Unit {0}) × StateFile → Type 0
IsOrderlyCall (r, file) = LosesOnly r × Loads file

finish-IsOrderly :
    (file : StateFile) (r : Result (Unit {0} × Option Queue))
    → Loads file
    → Saves WellFormed r
    → LosesOnly r
    → IsOrderlyCall (finish file r)
finish-IsOrderly file (err e) l s k = (k, l)
finish-IsOrderly file (ok (a, none)) l s k = (tt, l)
finish-IsOrderly file (ok (a, some q')) l s k = (tt, (canonical_queue q', load-save q' s.saved))

-- The transition on any file that loads, whatever has become of the mission.
pub transition-IsOrderly :
    (status u : String) (file : StateFile) → Loads file → IsOrderlyCall (transition status u file)
unfolding transition locked
transition-IsOrderly status u file (q, h) =
    let w = load-WellFormed file q h in
    let completes =
      finish-IsOrderly file (complete_body u q) (q, h)
        (unfold command_body in command-WellFormed q w (pos 0) (complete u))
        (complete-LosesOnly q u w) in
    let fails =
      finish-IsOrderly file (fail_body u q) (q, h)
        (unfold command_body in command-WellFormed q w (pos 0) (fail u)) (fail-LosesOnly q u w) in
    let blocks =
      finish-IsOrderly file (block_body u q) (q, h)
        (unfold command_body in command-WellFormed q w (pos 0) (block u)) (block-LosesOnly q u w) in
    elim (Bool-cases (status == "success")) [
      | inl k ↦ rw (k, h) completes
      | inr k ↦ elim (Bool-cases (status == "retry")) [
        | inl k₁ ↦ rw (k, k₁, h) fails
        | inr k₁ ↦ elim (Bool-cases (status == "exhausted")) [
          | inl k₂ ↦ rw (k, k₁, k₂, h) fails
          | inr k₂ ↦ rw (k, k₁, k₂, h) blocks
        ]
      ]
    ]
