-- ===== src/MissionQueue/Methods/Command.antt =====
-- The methods that change the file, as commands, and what a sequence of commands does to a file.
use mitigate_ai_platform.Prelude.{String, Option, none, some, List, ℤ, ◌≡◌, refl, sym, subst}
use mitigate_ai_platform.MissionQueue.Mission.{Queue, Result, ok, err}
use mitigate_ai_platform.MissionQueue.File.{StateFile, save, load, absent}
use mitigate_ai_platform.MissionQueue.Methods.{
  Body, finish, under, locked, enqueue_body, dequeue_body, claim_body, recover_stale_body,
  complete_body, fail_body, retry_body, block_body, cancel_body, resume_body,
}
use mitigate_ai_platform.MissionQueue.Methods.Saves.{Saves}

pub data Command : Type 0 where
  enqueue : String → ℤ → List String → Option ℤ → Command
  dequeue : String → Command
  claim recover_stale : Command
  complete fail retry block cancel resume : String → Command

-- The result of a method without its value.
abbrev pub forget : {A : Type 0} → Result (A × Option Queue) → Result (Unit {0} × Option Queue)
forget (err e) = err e
forget (ok (a, o)) = ok (tt, o)

-- The body of the method, for a queue that was made with this `default_max_retries`.
unfoldable pub command_body : ℤ → Command → Body (Unit {0})
command_body d (enqueue u p deps n) q = enqueue_body d u p deps n q
command_body d (dequeue u) q = dequeue_body u q
command_body d claim q = forget (claim_body q)
command_body d recover_stale q = forget (recover_stale_body q)
command_body d (complete u) q = complete_body u q
command_body d (fail u) q = fail_body u q
command_body d (retry u) q = retry_body u q
command_body d (block u) q = block_body u q
command_body d (cancel u) q = cancel_body u q
command_body d (resume u) q = resume_body u q

-- The file after the call.
unfoldable pub execute : ℤ → Command → StateFile → StateFile
unfolding command_body
execute d c file = (locked (command_body d c) file).1

-- The files that a sequence of calls makes of a queue without a file.
pub data Reachable (d : ℤ) : StateFile → Type 0 where
  fresh : Reachable d absent
  call : {file : StateFile} → Reachable d file → (c : Command) → Reachable d (execute d c file)

abbrev pub file_after : {A : Type 0} → StateFile → Result (A × Option Queue) → StateFile
file_after file (err e) = file
file_after file (ok (a, none)) = file
file_after file (ok (a, some q)) = save q

-- A call on a file that loads.
pub execute-load :
    (d : ℤ) (c : Command) (file : StateFile) (q : Queue)
    → load file ≡ ok q
    → execute d c file ≡ file_after file (command_body d c q)
unfolding execute locked
execute-load d c file q h = go (load file) h
  where
    go :
        (r : Result Queue)
        → r ≡ ok q
        → (under (command_body d c) file r).1 ≡ file_after file (command_body d c q)
    go (err e) h' = cc
    go (ok q') h' =
        let e : q' ≡ q = cc in
        subst (λ x. (under (command_body d c) file (ok x)).1 ≡ file_after file (command_body d c q))
          (sym e) (go' (command_body d c q))
      where
        go' : (r : Result (Unit {0} × Option Queue)) → (finish file r).1 ≡ file_after file r
        go' (err e) = refl
        go' (ok (a, none)) = refl
        go' (ok (a, some x)) = refl

pub Saves-forget :
    {A : Type 0} {P : Queue → Type 0} (r : Result (A × Option Queue))
    → Saves P r
    → Saves P (forget r)
Saves-forget (err e) h = record { saved = tt }
Saves-forget (ok (a, none)) h = record { saved = tt }
Saves-forget (ok (a, some q)) h = record { saved = h.saved }
