-- ===== src/Worker/Settle.antt =====
-- What one cycle of the worker does to the mission that it claims.
use mitigate_ai_platform.Prelude.{
  String, Bool, true, Option, some, ◌≡◌, ◌∙◌, refl, sym, ap, subst, arith, ◌==◌, ◌+ℤ◌, pos, leb_ℤ,
  if◌then◌else◌,
}
use mitigate_ai_platform.MissionQueue.Mission.{
  is_running, running, completed, blocked, retrying, Mission, Queue, Result, ok, find,
}
use mitigate_ai_platform.MissionQueue.Validate.Lookup.{id_of_find}
use mitigate_ai_platform.MissionQueue.File.{StateFile, to_dict, load, save}
use mitigate_ai_platform.MissionQueue.File.RoundTrip.{
  WellFormed, canonical, canonical_queue, load-save,
}
use mitigate_ai_platform.MissionQueue.File.Loading.{load-WellFormed}
use mitigate_ai_platform.MissionQueue.Methods.Commit.{WellFormed-put}
use mitigate_ai_platform.MissionQueue.Methods.Exact.{
  with_mission, complete-ok, fail-ok, block-ok, find-canonical_queue, find-with_mission,
}
use mitigate_ai_platform.MissionQueue.Methods.{
  locked, claim_body, complete_body, fail_body, block_body, choose, start, count_failure,
}
use mitigate_ai_platform.Worker.{
  Config, Poll, ControllerResult, World, Outcome, continues, breaks, others, transition, cycle,
  process, take_mission, leave_controller, finish_mission, reported_state,
}

-- The mission after the transition that the status selects.
pub settled : String → Mission → Mission
settled status m =
    if status == "success"
    then record m { state = completed }
    else if status == "retry"
    then count_failure m
    else if status == "exhausted"
    then count_failure m
    else record m { state = blocked }

settled-fields :
    (status : String) (m : Mission)
    → ((settled status m).id ≡ m.id) × ((settled status m).dependencies ≡ m.dependencies)
unfolding settled count_failure
settled-fields status m = ground arith

-- A call whose body saves.
locked-saves :
    {A : Type 0} (body : Queue → Result (A × Option Queue)) (file : StateFile) (q q' : Queue)
    (a : A)
    → load file ≡ ok q
    → body q ≡ ok (a, some q')
    → locked body file ≡ (ok a, save q')
unfolding locked
locked-saves body file q q' a h k = rw h (rw k)

-- Where a file loads as a well-formed queue in which the mission is running, the transition that the
-- controller's status selects raises nothing: it saves the queue with the mission completed for
-- "success", with one more failure counted for "retry" and "exhausted", and blocked for any other
-- status.
pub transition-settled :
    (status : String) (file : StateFile) (q : Queue) (m : Mission)
    → load file ≡ ok q
    → WellFormed q
    → find m.id q.missions ≡ some m
    → m.state ≡ running
    → transition status m.id file ≡ (ok tt, save (with_mission (settled status m) q))
unfolding transition settled
transition-settled status file q m h w at run =
    let is_run = ap is_running run in
    ground (
      arith,
      locked-saves (complete_body m.id) file q _ tt h (complete-ok q w m.id m at is_run),
      locked-saves (fail_body m.id) file q _ tt h (fail-ok q w m.id m at is_run),
      locked-saves (block_body m.id) file q _ tt h (block-ok q w m.id m at is_run),
    )

-- The file that `claim` saves where it chooses `m`.
abbrev pub claimed_file : Queue → Mission → StateFile
claimed_file q m = save (with_mission (start m) q)

abbrev pub next_outcome : Bool → World → Outcome
next_outcome once w = if once then breaks w else continues w

pub claim-saves :
    (file : StateFile) (q : Queue) (m : Mission)
    → load file ≡ ok q
    → choose q.missions ≡ some m
    → locked claim_body file ≡ (ok (some (to_dict (start m))), claimed_file q m)
unfolding claim_body
claim-saves file q m loads chosen =
    locked-saves claim_body file q (with_mission (start m) q) (some (to_dict (start m))) loads
      (rw chosen)

-- What the transition leaves of a mission that is running.
settled-loads :
    (status : String) (q : Queue) (m : Mission)
    → WellFormed q
    → find m.id q.missions ≡ some m
    → (q' : Queue) × (load (save (with_mission (settled status m) q)) ≡ ok q')
      × (find m.id q'.missions ≡ some (canonical (settled status m)))
settled-loads status q m w at =
    let after = with_mission (settled status m) q in
    let (same_id, same_deps) = settled-fields status m in
    let w' : WellFormed after =
      WellFormed-put q w (settled status m) m (ap (λ k. find k q.missions) same_id ∙ at)
        same_deps in
    (
      canonical_queue after,
      load-save after w',
      find-canonical_queue after m.id (settled status m) w' (
          subst (λ k. find k after.missions ≡ some (settled status m)) same_id
            (find-with_mission q (settled status m))),
    )

-- One round of the loop, with any calls of others before the claim and while the controller runs. Where
-- the file loads before the claim, `claim` chooses a mission `m`, the controller returns a result, and
-- the others leave a file that loads and in which the mission is still running, as `m₂`: the round
-- raises nothing, breaks in `once` mode and else goes on, and leaves a file that loads, in which `m₂`,
-- with its dependencies in order, has been settled as the controller's status says.
pub cycle-settles :
    (cfg : Config) (p : Poll) (s : World) (q q₂ : Queue) (m m₂ : Mission) (r : ControllerResult)
    → load (others p.before_claim s.file) ≡ ok q
    → choose q.missions ≡ some m
    → cfg.controller (to_dict (start m)) ≡ some r
    → load (others p.during_execution (claimed_file q m)) ≡ ok q₂
    → find m.id q₂.missions ≡ some m₂
    → m₂.state ≡ running
    → (s' : World) × (q' : Queue) × (cycle cfg p s ≡ next_outcome cfg.once s')
      × (load s'.file ≡ ok q')
      × (find m.id q'.missions ≡ some (canonical (settled r.status m₂)))
unfolding cycle process
cycle-settles cfg p s q q₂ m m₂ r loads chosen answers loads₂ at run =
    let d = to_dict (start m) in
    let file₂ = others p.during_execution (claimed_file q m) in
    let w₂ = load-WellFormed file₂ q₂ loads₂ in
    let same = id_of_find m.id q₂.missions at in
    let at₂ : find m₂.id q₂.missions ≡ some m₂ =
      subst (λ k. find k q₂.missions ≡ some m₂) (sym same) at in
    let moved : transition r.status m.id file₂
        ≡ (ok tt, save (with_mission (settled r.status m₂) q₂)) =
      subst
        (λ k. transition r.status k file₂ ≡ (ok tt, save (with_mission (settled r.status m₂) q₂)))
        same (transition-settled r.status file₂ q₂ m₂ loads₂ w₂ at₂ run) in
    let (q', loads', found) = settled-loads r.status q₂ m₂ w₂ at₂ in
    (
      record {
        worker =
            finish_mission cfg d r (leave_controller cfg d r.status (take_mission cfg d s.worker));
        file = save (with_mission (settled r.status m₂) q₂);
      },
      q',
      rw (claim-saves (others p.before_claim s.file) q m loads chosen) (rw answers (rw moved refl)),
      loads',
      subst (λ k. find k q'.missions ≡ some (canonical (settled r.status m₂))) same found,
    )

-- With the status "exhausted" and budget left for one more attempt, where a file loads as a
-- well-formed queue in which the mission is running: the transition saves the mission as retrying,
-- and the state that the worker reports of it is "failed".
pub exhausted-retries :
    (file : StateFile) (q : Queue) (m : Mission)
    → load file ≡ ok q
    → WellFormed q
    → find m.id q.missions ≡ some m
    → m.state ≡ running
    → leb_ℤ (m.attempts_done +ℤ pos 1) m.max_retries ≡ true
    → (transition "exhausted" m.id file ≡ (ok tt, save (with_mission (count_failure m) q)))
      × ((count_failure m).state ≡ retrying)
      × (reported_state "exhausted" (to_dict m) ≡ "failed")
unfolding count_failure reported_state
exhausted-retries file q m h w at run left =
    (unfold settled in transition-settled "exhausted" file q m h w at run, rw left refl, refl)
