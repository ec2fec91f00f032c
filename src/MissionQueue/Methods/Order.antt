-- ===== src/MissionQueue/Methods/Order.antt =====
-- The sort key of `claim`, `recover_stale` and `list` in agent/runtime/mission_queue.py:
-- `(-m.priority, m.created_seq, m.id)`.
use mitigate_ai_platform.Prelude.{Bool, ◌&&◌, ◌||◌, str_lt, ltb_ℤ, eq_ℤ}
use mitigate_ai_platform.MissionQueue.Mission.{Mission}

-- The key of `a` is smaller than the key of `b`.
unfoldable pub precedes : Mission → Mission → Bool
precedes a b =
    ltb_ℤ b.priority a.priority
    || (eq_ℤ a.priority b.priority
        && (ltb_ℤ a.created_seq b.created_seq
            || (eq_ℤ a.created_seq b.created_seq && str_lt a.id b.id)))
