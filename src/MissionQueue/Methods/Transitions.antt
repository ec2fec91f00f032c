-- ===== src/MissionQueue/Methods/Transitions.antt =====
-- The life of a mission: the state machine that the methods of agent/runtime/mission_queue.py keep.
use mitigate_ai_platform.Prelude.{
  String, Bool, true, false, not, ◌||◌, Option, none, some, ◌≡◌, refl, arith, if◌then◌else◌, pos,
  ◌≤ℤ◌, +ℤ_parts,
}
use mitigate_ai_platform.MissionQueue.Mission.{
  MissionState, pending, running, retrying, completed, failed, blocked, cancelled, Mission, Queue,
  find, is_pending, is_running, is_retrying, is_completed, is_failed, is_blocked, is_cancelled,
}
use mitigate_ai_platform.MissionQueue.Methods.{count_failure, recover_one}

-- The moves of one mission in one call.
pub data Moves : MissionState → MissionState → Type 0 where
  stays : (s : MissionState) → Moves s s
  claims_pending : Moves pending running
  claims_retrying : Moves retrying running
  completes : Moves running completed
  fails_for_now : Moves running retrying
  fails_for_good : Moves running failed
  retries : Moves failed retrying
  blocks_pending : Moves pending blocked
  blocks_retrying : Moves retrying blocked
  blocks_running : Moves running blocked
  cancels_pending : Moves pending cancelled
  cancels_retrying : Moves retrying cancelled
  cancels_running : Moves running cancelled
  cancels_blocked : Moves blocked cancelled
  resumes_blocked : Moves blocked pending
  resumes_cancelled : Moves cancelled pending

-- What one call makes of a mission.
pub record Evolved (m m' : Mission) : Type 0 where
  pub moves : Moves m.state m'.state
  pub same_priority : m.priority ≡ m'.priority
  pub same_dependencies : m.dependencies ≡ m'.dependencies
  pub same_seq : m.created_seq ≡ m'.created_seq
  pub same_retries : m.max_retries ≡ m'.max_retries
  pub counted : m.attempts_done ≤ℤ m'.attempts_done

-- A mission evolves, or it was not running and is removed.
abbrev pub Kept : Mission → Option Mission → Type 0
Kept m none = is_running m.state ≡ false
Kept m (some m') = Evolved m m'

abbrev pub Evolves : Queue → Queue → Type 0
Evolves q q' = (u : String) (m : Mission) → find u q.missions ≡ some m → Kept m (find u q'.missions)

pub Evolved-refl : (m : Mission) → Evolved m m
Evolved-refl m = record {
  moves = stays m.state;
  same_priority = refl;
  same_dependencies = refl;
  same_seq = refl;
  same_retries = refl;
  counted = omega arith;
}

pub Evolved-set :
    (m : Mission) (s : MissionState) → Moves m.state s → Evolved m (record m { state = s })
Evolved-set m s h = record {
  moves = h;
  same_priority = refl;
  same_dependencies = refl;
  same_seq = refl;
  same_retries = refl;
  counted = omega arith;
}

-- The guards of the methods.
pub claim-Moves : (s : MissionState) → (is_pending s || is_retrying s) ≡ true → Moves s running
claim-Moves pending h = claims_pending
claim-Moves retrying h = claims_retrying
claim-Moves _ h = cc

pub block-Moves :
    (s : MissionState) → (is_pending s || is_retrying s || is_running s) ≡ true → Moves s blocked
block-Moves pending h = blocks_pending
block-Moves retrying h = blocks_retrying
block-Moves running h = blocks_running
block-Moves _ h = cc

pub cancel-Moves :
    (s : MissionState)
    → not (is_completed s || is_failed s || is_cancelled s) ≡ true
    → Moves s cancelled
cancel-Moves pending h = cancels_pending
cancel-Moves retrying h = cancels_retrying
cancel-Moves running h = cancels_running
cancel-Moves blocked h = cancels_blocked
cancel-Moves _ h = cc

pub resume-Moves : (s : MissionState) → (is_blocked s || is_cancelled s) ≡ true → Moves s pending
resume-Moves blocked h = resumes_blocked
resume-Moves cancelled h = resumes_cancelled
resume-Moves _ h = cc

pub complete-Moves : (s : MissionState) → is_running s ≡ true → Moves s completed
complete-Moves running h = completes
complete-Moves _ h = cc

pub retry-Moves : (s : MissionState) → is_failed s ≡ true → Moves s retrying
retry-Moves failed h = retries
retry-Moves _ h = cc

fail-Moves :
    (s : MissionState) (b : Bool) → is_running s ≡ true → Moves s (if b then retrying else failed)
fail-Moves running true h = fails_for_now
fail-Moves running false h = fails_for_good
fail-Moves _ b h = cc

pub recover_moves : (m : Mission) → Evolved m (recover_one m)
recover_moves m = go (is_running m.state) refl
  where
    to_retrying : (s : MissionState) → is_running s ≡ true → Moves s retrying
    to_retrying running h = fails_for_now
    to_retrying _ h = cc

    go :
        (b : Bool)
        → is_running m.state ≡ b
        → Evolved m (if b then record m { state = retrying } else m)
    go true h = Evolved-set m retrying (to_retrying m.state h)
    go false h = Evolved-refl m

pub count_failure-Evolved : (m : Mission) → is_running m.state ≡ true → Evolved m (count_failure m)
unfolding count_failure
count_failure-Evolved m h = record {
  moves = fail-Moves m.state _ h;
  same_priority = refl;
  same_dependencies = refl;
  same_seq = refl;
  same_retries = refl;
  counted = omega (arith, +ℤ_parts m.attempts_done (pos 1));
}
