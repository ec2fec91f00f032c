-- ===== src/MissionQueue/Methods/Effect.antt =====
-- What one call of a method of agent/runtime/mission_queue.py does to the file.
use mitigate_ai_platform.Prelude.{none, some, Option, ℤ, ◌≡◌, ◌∙◌, ap}
use mitigate_ai_platform.MissionQueue.Mission.{Queue, Result, ok, err}
use mitigate_ai_platform.MissionQueue.File.{StateFile, load}
use mitigate_ai_platform.MissionQueue.File.RoundTrip.{WellFormed, canonical_queue, load-save}
use mitigate_ai_platform.MissionQueue.File.Loading.{load-WellFormed}
use mitigate_ai_platform.MissionQueue.Methods.Saves.{Saves}
use mitigate_ai_platform.MissionQueue.Methods.Command.{
  Command, command_body, execute, execute-load, file_after,
}
use mitigate_ai_platform.MissionQueue.Methods.Keep.{command-WellFormed}
use mitigate_ai_platform.MissionQueue.Methods.Transitions.{Evolves}
use mitigate_ai_platform.MissionQueue.Methods.Evolution.{command-Evolves}

-- What a call on a file that loads as `q` leaves, by what the method's body returns for `q`.
abbrev pub Settles : ℤ → Command → StateFile → Queue → Result (Unit {0} × Option Queue) → Type 0
Settles d c file q (err e) = execute d c file ≡ file
Settles d c file q (ok (a, none)) = execute d c file ≡ file
Settles d c file q (ok (a, some q')) =
    (load (execute d c file) ≡ ok (canonical_queue q')) × WellFormed q' × Evolves q q'

-- A call on a file that loads as `q` leaves a file that loads. Where the method's body raises or saves
-- nothing for `q`, the file is as it was. Where the body returns the queue `q'` to save, the next
-- `_load` returns `q'`, in order; `q'` is well formed, and each mission of `q` is in it with the same
-- priority, dependencies, sequence and budget, no fewer attempts and a state that `Moves` allows, or
-- it is removed and was not running.
pub execute-loads :
    (d : ℤ) (c : Command) (file : StateFile) (q : Queue)
    → load file ≡ ok q
    → Settles d c file q (command_body d c q)
execute-loads d c file q h =
    let w = load-WellFormed file q h in
    go (command_body d c q) (execute-load d c file q h) (command-WellFormed q w d c)
      (command-Evolves q w d c)
  where
    go :
        (r : Result (Unit {0} × Option Queue))
        → execute d c file ≡ file_after file r
        → Saves WellFormed r
        → Saves (Evolves q) r
        → Settles d c file q r
    go (err e) k s v = k
    go (ok (a, none)) k s v = k
    go (ok (a, some q')) k s v = (ap load k ∙ load-save q' s.saved, s.saved, v.saved)
