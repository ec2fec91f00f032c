-- ===== src/MissionQueue/Methods/Accounting.antt =====
-- The retry budget of agent/runtime/mission_queue.py: `fail` is the only way into `failed`, and it
-- fails a mission only past its budget.
use mitigate_ai_platform.Prelude.{
  contains, String, Bool, true, false, not, Option, none, some, List, [], ◌∷◌, map, ◌≡◌, ◌≢◌, refl,
  arith, if◌then◌else◌, ℤ, pos, ◌+ℤ◌, ◌<ℤ◌, leb_ℤ, +ℤ_parts, All, All-sort_by,
}
use mitigate_ai_platform.MissionQueue.Mission.{
  MissionState, pending, retrying, completed, failed, blocked, cancelled, Mission, Queue, Result,
  ok, err, find, put, remove, ◌>>◌, guard, ids, is_failed, is_running, mission_exists,
  retry_not_failed, no_retry_left, QueueError, bind-ok,
}
use mitigate_ai_platform.MissionQueue.Validate.{validate_no_cycles}
use mitigate_ai_platform.MissionQueue.Validate.Lookup.{All-find, All-put, All-remove}
use mitigate_ai_platform.MissionQueue.File.{to_dict, StateFile, absent, load, by_id, empty_queue}
use mitigate_ai_platform.MissionQueue.File.RoundTrip.{
  WellFormed, canonical, canonical_queue, load-save, WellFormed-canonical,
}
use mitigate_ai_platform.MissionQueue.File.Loading.{load-WellFormed}
use mitigate_ai_platform.MissionQueue.Methods.Saves.{
  Saves, Saves-guard, Saves-get, Saves-commit, Saves-validate, Saves-some, Saves-none,
}
use mitigate_ai_platform.MissionQueue.Methods.Keep.{saving, command-WellFormed}
use mitigate_ai_platform.MissionQueue.Methods.Command.{
  Command, enqueue, dequeue, claim, recover_stale, complete, fail, retry, block, cancel, resume,
  command_body, execute-load, file_after, Saves-forget, Reachable, fresh, call,
}
use mitigate_ai_platform.MissionQueue.Methods.{
  commit, count_failure, enqueue_body, dequeue_body, claim_body, recover_stale_body, complete_body,
  fail_body, retry_body, block_body, cancel_body, resume_body, get_mission, choose, start,
  recover_one, take_up, resume_all, new_mission, locked, finish, or_missing,
}

-- A failed mission has spent more than its budget.
abbrev pub IsSpent : Mission → Type 0
IsSpent m = m.state ≡ failed → m.max_retries <ℤ m.attempts_done

abbrev pub AllSpent : Queue → Type 0
AllSpent q = All IsSpent q.missions

count_failure-IsSpent : (m : Mission) → IsSpent (count_failure m)
unfolding count_failure
count_failure-IsSpent m h = ground (arith, +ℤ_parts m.attempts_done (pos 1))

recover_one-IsSpent : (m : Mission) → IsSpent m → IsSpent (recover_one m)
recover_one-IsSpent m h = go (is_running m.state)
  where
    go : (b : Bool) → IsSpent (if b then record m { state = retrying } else m)
    go true e = cc
    go false e = h e

map-recover-IsSpent : (ms : List Mission) → All IsSpent ms → All IsSpent (map recover_one ms)
map-recover-IsSpent [] h = tt
map-recover-IsSpent (m ∷ ms) h = (recover_one-IsSpent m h.0, map-recover-IsSpent ms h.1)

module _ (q : Queue) (s : AllSpent q) where
  commit-IsSpent : (m : Mission) → IsSpent m → Saves AllSpent (commit m q)
  commit-IsSpent m h = Saves-commit m q (λ valid. All-put IsSpent m q.missions h s)

  removed-IsSpent :
      (u : String)
      → Saves AllSpent (
          validate_no_cycles (remove u q.missions)
          >> saving (record q { missions = remove u q.missions }))
  removed-IsSpent u =
      Saves-validate (remove u q.missions) tt (record q { missions = remove u q.missions })
        (λ valid. All-remove IsSpent u q.missions s)

  dequeue-IsSpent : (u : String) → Saves AllSpent (dequeue_body u q)
  unfolding dequeue_body
  dequeue-IsSpent u = search (Saves-get, Saves-guard, removed-IsSpent)

  enqueue-IsSpent :
      (d : ℤ) (u : String) (p : ℤ) (deps : List String) (n : Option ℤ)
      → Saves AllSpent (enqueue_body d u p deps n q)
  unfolding enqueue_body new_mission
  enqueue-IsSpent d u p deps n =
      let m = new_mission d u p deps n q in
      let after : Queue = record { missions = put m q.missions; next_seq = q.next_seq +ℤ pos 1 } in
      Saves-guard (not (contains u (ids q.missions))) (mission_exists u)
        (validate_no_cycles (put m q.missions) >> saving after)
        (λ _.
          Saves-validate (put m q.missions) tt after
            (λ _. All-put IsSpent m q.missions (λ e. cc) s))

  take_up-IsSpent : (o : Option Mission) → Saves AllSpent (take_up q o)
  take_up-IsSpent none = Saves-none none
  take_up-IsSpent (some m) =
      Saves-some (some (to_dict (start m))) (record q { missions = put (start m) q.missions })
        (All-put IsSpent (start m) q.missions (λ e. cc) s)

  resume_all-IsSpent : (rs : List Mission) → Saves AllSpent (resume_all q rs)
  resume_all-IsSpent [] = Saves-none []
  resume_all-IsSpent (r ∷ rs) =
      Saves-validate (map recover_one q.missions) (ids (r ∷ rs))
        (record q { missions = map recover_one q.missions })
        (λ valid. map-recover-IsSpent q.missions s)

  -- Setting any other state than `failed`.
  set-IsSpent :
      (m : Mission) (state : MissionState) → state ≢ failed → IsSpent (record m { state = state })
  set-IsSpent m state h e = absurd (h e)

  command-IsSpent : (d : ℤ) (c : Command) → Saves AllSpent (command_body d c q)
  unfolding command_body complete_body fail_body retry_body block_body cancel_body resume_body
      claim_body recover_stale_body
  command-IsSpent d (enqueue u p deps n) = enqueue-IsSpent d u p deps n
  command-IsSpent d (dequeue u) = dequeue-IsSpent u
  command-IsSpent d claim = Saves-forget _ (take_up-IsSpent (choose q.missions))
  command-IsSpent d recover_stale = Saves-forget _ (resume_all-IsSpent _)
  command-IsSpent d (complete u) =
      let h : completed ≢ failed = λ e. cc in
      search (Saves-get, Saves-guard, commit-IsSpent, set-IsSpent)
  command-IsSpent d (fail u) =
      search (Saves-get, Saves-guard, commit-IsSpent, count_failure-IsSpent)
  command-IsSpent d (retry u) =
      let h : retrying ≢ failed = λ e. cc in
      search (Saves-get, Saves-guard, commit-IsSpent, set-IsSpent) depth 7
  command-IsSpent d (block u) =
      let h : blocked ≢ failed = λ e. cc in
      search (Saves-get, Saves-guard, commit-IsSpent, set-IsSpent)
  command-IsSpent d (cancel u) =
      let h : cancelled ≢ failed = λ e. cc in
      search (Saves-get, Saves-guard, commit-IsSpent, set-IsSpent)
  command-IsSpent d (resume u) =
      let h : pending ≢ failed = λ e. cc in
      search (Saves-get, Saves-guard, commit-IsSpent, set-IsSpent)

failed_of_test : (state : MissionState) → is_failed state ≡ true → state ≡ failed
failed_of_test failed h = refl
failed_of_test _ h = cc

guard-eq-ok : (b : Bool) (e : QueueError) {t : Unit {0}} → guard b e ≡ ok t → b ≡ true
guard-eq-ok true e h = refl
guard-eq-ok false e h = cc

find_of_get :
    (u : String) (q : Queue) {m : Mission} → get_mission u q ≡ ok m → find u q.missions ≡ some m
unfolding get_mission
find_of_get u q {m} h = go (find u q.missions) h
  where
    go : (o : Option Mission) → or_missing u o ≡ ok m → o ≡ some m
    go none r = cc
    go (some x) r = cc

-- A failed mission that has spent its budget is not retried.
retry-refused :
    (q : Queue) (u : String) {o : Unit × Option Queue} → AllSpent q → retry_body u q ≢ ok o
unfolding retry_body
retry-refused q u {o} s h =
    let left = λ (m : Mission).
      guard (not (leb_ℤ m.max_retries m.attempts_done)) no_retry_left
      >> commit (record m { state = retrying }) q in
    let (m, got, h₁) =
      bind-ok (get_mission u q) (λ m. guard (is_failed m.state) retry_not_failed >> left m) h in
    let (_, is_failed, h₂) =
      bind-ok (guard (is_failed m.state) retry_not_failed) (λ _. left m) h₁ in
    let (_, has_left, h₃) =
      bind-ok (guard (not (leb_ℤ m.max_retries m.attempts_done)) no_retry_left)
        (λ _. commit (record m { state = retrying }) q) h₂ in
    let spent =
      All-find IsSpent u q.missions s (find_of_get u q got)
        (failed_of_test m.state (guard-eq-ok _ _ is_failed)) in
    let below = guard-eq-ok (not (leb_ℤ m.max_retries m.attempts_done)) no_retry_left has_left in
    ground (arith, spent, below)

AllSpent-canonical : (q : Queue) → AllSpent q → AllSpent (canonical_queue q)
AllSpent-canonical q s = go (by_id q.missions) (All-sort_by IsSpent _ q.missions s)
  where
    go : (ms : List Mission) → All IsSpent ms → All IsSpent (map canonical ms)
    go [] h = tt
    go (m ∷ ms) h = (h.0, go ms h.1)

-- Every file that calls on a new queue can make loads, and its queue is well formed.
pub Reachable-loads :
    {d : ℤ} {file : StateFile}
    → Reachable d file
    → (q : Queue) × (load file ≡ ok q) × WellFormed q × AllSpent q
unfolding load
Reachable-loads fresh = (empty_queue, refl, load-WellFormed absent empty_queue refl, tt)
Reachable-loads {d} (call {file = file} r c) =
    let (q, loads, w, s) = Reachable-loads r in
    rw (execute-load d c file q loads) (
      go file q loads w s (command_body d c q) (command-WellFormed q w d c)
        (command-IsSpent q s d c))
  where
    go :
        (f : StateFile) (q : Queue)
        → load f ≡ ok q
        → WellFormed q
        → AllSpent q
        → (r : Result (Unit {0} × Option Queue)) → Saves WellFormed r
        → Saves AllSpent r
        → (q' : Queue) × (load (file_after f r) ≡ ok q') × WellFormed q' × AllSpent q'
    go f q l w s (err e) sw ss = (q, l, w, s)
    go f q l w s (ok (a, none)) sw ss = (q, l, w, s)
    go f q l w s (ok (a, some q')) sw ss = (
      canonical_queue q',
      load-save q' sw.saved,
      WellFormed-canonical q' sw.saved,
      AllSpent-canonical q' ss.saved,
    )

-- On every file that calls of the methods make of a queue without a file, `retry` raises, for any
-- mission id.
pub retry-never_succeeds :
    {d : ℤ} {file : StateFile}
    → Reachable d file
    → (u : String) → (locked (retry_body u) file).0 ≢ ok tt
unfolding locked
retry-never_succeeds {d} {file} r u h =
    let (q, loads, w, s) = Reachable-loads r in
    go (retry_body u q) (λ o. retry-refused q u {o = o} s) (rw loads at h)
  where
    go :
        (r : Result (Unit {0} × Option Queue))
        → ((o : Unit {0} × Option Queue) → r ≢ ok o)
        → (finish file r).0 ≢ ok tt
    go (err e) no_result h' = cc
    go (ok o) no_result h' = absurd (no_result o refl)
