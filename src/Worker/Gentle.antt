-- ===== src/Worker/Gentle.antt =====
-- Calls of others that leave a running mission to its worker: the methods of
-- agent/runtime/mission_queue.py that neither settle, block, cancel nor recover a mission.
use mitigate_ai_platform.Prelude.{
  String, Bool-cases, inl, inr, true, false, not, ◌||◌, Option, none, some, List, [], ◌∷◌, ◌≡◌, ◌∙◌,
  refl, sym, ap, subst, arith, ◌==◌, eq_iff, contains, ℤ, pos, ◌+ℤ◌, All,
}
use mathlib.Core.Bool.{false≢true}
use mitigate_ai_platform.MissionQueue.Mission.{
  Mission, MissionState, running, Queue, Result, ok, err, find, put, remove, ids, is_running,
  is_failed, is_blocked, is_cancelled, mission_exists, ◌>>◌,
}
use mitigate_ai_platform.MissionQueue.Validate.{validate_no_cycles}
use mitigate_ai_platform.MissionQueue.Validate.Lookup.{contains_of_find, id_of_find, find-put}
use mitigate_ai_platform.MissionQueue.File.{StateFile, load, to_dict}
use mitigate_ai_platform.MissionQueue.File.RoundTrip.{WellFormed, canonical, canonical_queue}
use mitigate_ai_platform.MissionQueue.File.Loading.{load-WellFormed}
use mitigate_ai_platform.MissionQueue.Methods.{
  commit, choose, start, take_up, new_mission, enqueue_body, dequeue_body, claim_body, retry_body,
  resume_body,
}
use mitigate_ai_platform.MissionQueue.Methods.Saves.{
  Saves, Saves-guard, Saves-get, Saves-commit, Saves-validate, Saves-some, Saves-none,
}
use mitigate_ai_platform.MissionQueue.Methods.Command.{
  Command, enqueue, dequeue, claim, retry, resume, command_body, execute, Saves-forget,
}
use mitigate_ai_platform.MissionQueue.Methods.Keep.{saving}
use mitigate_ai_platform.MissionQueue.Methods.Evolution.{find-remove}
use mitigate_ai_platform.MissionQueue.Methods.Effect.{Settles, execute-loads}
use mitigate_ai_platform.MissionQueue.Methods.Exact.{find-canonical_queue}
use mitigate_ai_platform.Worker.{OtherCall, others}

-- The mission is in the queue and running.
abbrev pub Runs : String → Queue → Type 0
Runs u q = (m : Mission) × (find u q.missions ≡ some m) × (m.state ≡ running)

-- The call settles, blocks, cancels and recovers no mission.
abbrev IsGentle : Command → Type 0
IsGentle (enqueue u p deps n) = Unit
IsGentle (dequeue u) = Unit
IsGentle claim = Unit
IsGentle (retry u) = Unit
IsGentle (resume u) = Unit
IsGentle _ = ⊥

failed-idle : (s : MissionState) → is_failed s ≡ true → is_running s ≡ false
failed-idle s h = ground arith

resumable-idle : (s : MissionState) → (is_blocked s || is_cancelled s) ≡ true → is_running s ≡ false
resumable-idle s h = ground arith

module _ (q : Queue) (w : WellFormed q) (u : String) (r : Runs u q) where
  -- A mission that is not running is another one.
  idle-other :
      (v : String) (m : Mission)
      → find v q.missions ≡ some m
      → is_running m.state ≡ false
      → v == u ≡ false
  idle-other v m at idle = elim (Bool-cases (v == u)) [
    | inl here ↦
        let e : some m ≡ some r.0 =
          sym at ∙ ap (λ k. find k q.missions) ((eq_iff v u).0 here) ∙ r.1 in
        let e' : m ≡ r.0 = cc in
        absurd
          (false≢true (sym idle ∙ ap (λ (x : Mission). is_running x.state) e' ∙ ap is_running r.2))
    | inr there ↦ there
  ]

  put-Runs :
      (m : Mission) (n : ℤ)
      → (m.id == u ≡ true → m.state ≡ running)
      → Runs u (record { missions = put m q.missions; next_seq = n })
  put-Runs m n h = elim (Bool-cases (m.id == u)) [
    | inl here ↦ (m, rw (find-put u m q.missions) (rw here refl), h here)
    | inr there ↦ (r.0, rw (find-put u m q.missions) (rw there r.1), r.2)
  ]

  enqueue-Runs :
      (d : ℤ) (v : String) (p : ℤ) (deps : List String) (n : Option ℤ)
      → Saves (Runs u) (enqueue_body d v p deps n q)
  unfolding enqueue_body new_mission
  enqueue-Runs d v p deps n =
      let m = new_mission d v p deps n q in
      let after : Queue = record { missions = put m q.missions; next_seq = q.next_seq +ℤ pos 1 } in
      Saves-guard (not (contains v (ids q.missions))) (mission_exists v)
        (validate_no_cycles (put m q.missions) >> saving after)
        λ new. Saves-validate (put m q.missions) tt after λ _.
          put-Runs m (q.next_seq +ℤ pos 1) λ here.
            let e : v ≡ u = (eq_iff v u).0 here in
            absurd (false≢true (ground (arith, new, contains_of_find u q.missions r.1, e)))

  removed-Runs :
      (v : String) (m : Mission)
      → find v q.missions ≡ some m
      → not (is_running m.state) ≡ true
      → Saves (Runs u) (
          validate_no_cycles (remove v q.missions)
          >> saving (record q { missions = remove v q.missions }))
  removed-Runs v m at idle =
      Saves-validate (remove v q.missions) tt (record q { missions = remove v q.missions })
        λ _. (
          r.0,
          rw (find-remove v u q.missions w.distinct)
              (rw (idle-other v m at (ground (arith, idle))) r.1),
          r.2,
        )

  take_up-Runs : (o : Option Mission) → Saves (Runs u) (take_up q o)
  take_up-Runs none = Saves-none none
  take_up-Runs (some m) =
      Saves-some (some (to_dict (start m))) (record q { missions = put (start m) q.missions })
        (put-Runs (start m) q.next_seq (λ _. refl))

  changed-Runs :
      (v : String) (m : Mission) (s : MissionState)
      → find v q.missions ≡ some m
      → is_running m.state ≡ false
      → Saves (Runs u) (commit (record m { state = s }) q)
  changed-Runs v m s at idle =
      Saves-commit (record m { state = s }) q
        λ _.
          put-Runs (record m { state = s }) q.next_seq
            λ here.
              let there =
                subst (λ k. k == u ≡ false) (sym (id_of_find v q.missions at))
                  (idle-other v m at idle) in
              absurd (false≢true (sym there ∙ here))

  ruleset gentle_rules =
      (Saves-get, Saves-guard, removed-Runs, changed-Runs, failed-idle, resumable-idle)

  gentle-Runs : (d : ℤ) (c : Command) → IsGentle c → Saves (Runs u) (command_body d c q)
  unfolding command_body dequeue_body claim_body retry_body resume_body
  gentle-Runs d (enqueue v p deps n) g = enqueue-Runs d v p deps n
  gentle-Runs d (dequeue v) g = search gentle_rules depth 7
  gentle-Runs d claim g = Saves-forget _ (take_up-Runs (choose q.missions))
  gentle-Runs d (retry v) g = search gentle_rules depth 7
  gentle-Runs d (resume v) g = search gentle_rules depth 7
  gentle-Runs d _ g = absurd g

-- The file loads, and the mission is running in it.
abbrev pub RunsIn : String → StateFile → Type 0
RunsIn u file = (q : Queue) × (load file ≡ ok q) × Runs u q

execute-RunsIn :
    (u : String) (d : ℤ) (c : Command) (file : StateFile)
    → IsGentle c
    → RunsIn u file
    → RunsIn u (execute d c file)
execute-RunsIn u d c file g (q, h, runs) =
    go (command_body d c q) (execute-loads d c file q h)
      (gentle-Runs q (load-WellFormed file q h) u runs d c g)
  where
    go :
        (r : Result (Unit {0} × Option Queue))
        → Settles d c file q r
        → Saves (Runs u) r
        → RunsIn u (execute d c file)
    go (err e) s k = (q, ap load s ∙ h, runs)
    go (ok (a, none)) s k = (q, ap load s ∙ h, runs)
    go (ok (a, some q')) s k =
        let (m, at, run) = k.saved in
        (canonical_queue q', s.0, (canonical m, find-canonical_queue q' u m s.1 at, run))

abbrev pub AllGentle : List OtherCall → Type 0
AllGentle cs = All (λ c. IsGentle c.command) cs

-- A mission that runs is still running after such calls.
pub others-RunsIn :
    (u : String) (cs : List OtherCall) (file : StateFile)
    → AllGentle cs
    → RunsIn u file
    → RunsIn u (others cs file)
unfolding others
others-RunsIn u [] file g l = l
others-RunsIn u (c ∷ cs) file g l =
    others-RunsIn u cs (execute c.default_max_retries c.command file) g.1
      (execute-RunsIn u c.default_max_retries c.command file g.0 l)
