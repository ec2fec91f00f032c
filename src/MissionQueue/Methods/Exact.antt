-- ===== src/MissionQueue/Methods/Exact.antt =====
-- What `complete`, `fail` and `block` of agent/runtime/mission_queue.py do to a running mission: on a
-- well-formed queue the check before the save passes, so the calls succeed.
use mitigate_ai_platform.Prelude.{String, true, ◌||◌, some, ◌≡◌, ◌∙◌, refl, arith, str_lt, eq_refl}
use mitigate_ai_platform.MissionQueue.Mission.{
  MissionState, completed, blocked, running, Mission, Queue, ok, find, put, is_running, is_pending,
  is_retrying,
}
use mitigate_ai_platform.MissionQueue.Validate.Lookup.{find-put}
use mitigate_ai_platform.MissionQueue.File.{by_id}
use mitigate_ai_platform.MissionQueue.File.Sorting.{find-sort_by}
use mitigate_ai_platform.MissionQueue.File.RoundTrip.{WellFormed, canonical, canonical_queue}
use mitigate_ai_platform.MissionQueue.Methods.Evolution.{find-map, at_id}
use mitigate_ai_platform.MissionQueue.Methods.Commit.{commit-ok}
use mitigate_ai_platform.MissionQueue.Methods.{
  complete_body, fail_body, block_body, count_failure, get_mission,
}

abbrev pub with_mission : Mission → Queue → Queue
with_mission m q = record q { missions = put m q.missions }

module _ (q : Queue) (w : WellFormed q) (u : String) (m : Mission) (at : find u q.missions ≡ some m)
    (run : is_running m.state ≡ true) where
  pub complete-ok :
      complete_body u q ≡ ok (tt, some (with_mission (record m { state = completed }) q))
  unfolding complete_body get_mission
  complete-ok =
      rw at (rw run (commit-ok q w (record m { state = completed }) m (at_id q u m at) refl))

  pub fail-ok : fail_body u q ≡ ok (tt, some (with_mission (count_failure m) q))
  unfolding fail_body get_mission
  fail-ok = rw at (
      rw run (
        commit-ok q w (count_failure m) m (unfold count_failure in at_id q u m at)
          (unfold count_failure in refl)))

  pub block-ok : block_body u q ≡ ok (tt, some (with_mission (record m { state = blocked }) q))
  unfolding block_body get_mission
  block-ok =
      rw at (
        rw (may m.state run) (commit-ok q w (record m { state = blocked }) m (at_id q u m at) refl))
    where
      may :
          (s : MissionState)
          → is_running s ≡ true
          → (is_pending s || is_retrying s || is_running s) ≡ true
      may running h = refl
      may _ h = ground arith

-- An entry of the queue that the file has.
pub find-canonical_queue :
    (q : Queue) (u : String) (m : Mission)
    → WellFormed q
    → find u q.missions ≡ some m
    → find u (canonical_queue q).missions ≡ some (canonical m)
find-canonical_queue q u m w at =
    find-map canonical (λ x. refl) u (by_id q.missions)
      (find-sort_by (λ a b. str_lt a.id b.id) u q.missions w.distinct ∙ at)

-- The entry that was put.
pub find-with_mission : (q : Queue) (m : Mission) → find m.id (with_mission m q).missions ≡ some m
find-with_mission q m = rw (find-put m.id m q.missions) (rw eq_refl)
