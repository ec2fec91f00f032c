-- ===== src/RateLimiter/Methods.antt =====
-- The public methods of `ProviderRateLimiter`, agent/providers/provider_rate_limiter.py, over the state
-- files of all projects. `known` stands for the project resolver; each method is one step, since it
-- holds the lock of the project, and the time of the call is an argument.
pub mod Keep
pub mod Commands
use mitigate_ai_platform.Prelude.{
  ℕ, zero, suc, ◌+◌, ◌-◌, String, Bool, true, false, not, Option, none, some, List, [], ◌∷◌, ◌++◌,
  ◌==◌, if◌then◌else◌, filter_by, length, ℤ, pos, negsuc, Attempt, returned, raised, and_then,
  require,
}
use mitigate_ai_platform.RateLimiter.{
  LimiterError, invalid_project_id, unknown_project, no_active_configuration, answer, Limit, Entry,
  State, Decision, Event, limit_configured, limit_updated, limit_removed, registered_unrestricted,
  request_registered, request_blocked, limit_warning, window, prune, compute_reset_at, capacity,
  Outcome, register_in, check_in, written,
}
use mitigate_ai_platform.RateLimiter.Config.{
  Limiter, RawLimit, is_safe_project, validate_request_id, validate_new_config,
  validate_update_fields, changed, validate_existing, load_state, put, commit,
}

abbrev pub emptied : Option Limit → State
emptied o = record { config = o; entries = [] }

-- `update_limit`, between the locks.
unfoldable pub update_in : RawLimit → State → Outcome Limit
unfolding validate_existing changed written
update_in raw s = of_config s.config
  where
    of_config : Option Limit → Outcome Limit
    of_config none = (raised no_active_configuration, s, [])
    of_config (some c) = answer s (validate_existing c (changed c raw)) λ c'. (
      returned c',
      record { config = some c'; entries = written s.entries },
      limit_updated c' ∷ [],
    )

abbrev pub is_set : Option Limit → Bool
is_set none = false
is_set (some c) = true

-- `remove_limit`, between the locks.
unfoldable pub remove_in : String → State → Outcome Bool
remove_in pid s = (
  returned (is_set s.config),
  emptied none,
  (if is_set s.config then limit_removed pid ∷ [] else []),
)

-- `remaining`: nothing without an enabled limit.
unfoldable pub remaining_in : ℕ → State → Attempt LimiterError (Option ℕ)
unfolding prune
remaining_in now s = of_config s.config
  where
    of_config : Option Limit → Attempt LimiterError (Option ℕ)
    of_config none = returned none
    of_config (some c) =
        if c.enabled
        then and_then (prune (window c) now s.entries)
            (λ left. returned (some (capacity c - length left)))
        else returned none

pub record Status : Type 0 where
  pub configured : Bool
  pub enabled : Option Bool
  pub limit : Option Limit
  pub current_count : ℕ
  pub remaining : Option ℕ
  pub reset_at : Option ℕ

-- `_project_status`; the field `limit` has its three numbers.
unfoldable pub project_status : ℕ → State → Attempt LimiterError Status
unfolding prune compute_reset_at
project_status now s = of_config s.config
  where
    idle : Bool → Option Bool → Status
    idle configured enabled = record {
      configured = configured;
      enabled = enabled;
      limit = s.config;
      current_count = length s.entries;
      remaining = none;
      reset_at = none;
    }

    of_config : Option Limit → Attempt LimiterError Status
    of_config none = returned (idle false none)
    of_config (some c) =
        if c.enabled
        then and_then (prune (window c) now s.entries) (λ left.
          and_then (compute_reset_at (window c) left) λ reset. returned (record {
            configured = true;
            enabled = some true;
            limit = some c;
            current_count = length left;
            remaining = some (capacity c - length left);
            reset_at = reset;
          }))
        else returned (idle true (some false))

abbrev project_of : Event → String
project_of (limit_configured c) = c.project_id
project_of (limit_updated c) = c.project_id
project_of (limit_removed p) = p
project_of (registered_unrestricted p r t) = p
project_of (request_registered p r t n) = p
project_of (request_blocked p r t why) = p
project_of (limit_warning p t n k) = p

abbrev drop : {A : Type 0} → ℕ → List A → List A
drop zero xs = xs
drop (suc n) [] = []
drop (suc n) (x ∷ xs) = drop n xs

-- `events[-limit:]`, for a positive limit.
abbrev latest : ℤ → List Event → List Event
latest (pos zero) es = []
latest (pos (suc n)) es = drop (length es - suc n) es
latest (negsuc n) es = []

-- A method that raises before it takes the lock leaves everything.
abbrev pub guarded :
    {A : Type 0}
    → Limiter
    → Attempt LimiterError (Unit {0})
    → Attempt LimiterError A × Limiter
    → Attempt LimiterError A × Limiter
guarded l (returned u) after = after
guarded l (raised e) after = (raised e, l)

abbrev pub configured :
    String → Limiter → Attempt LimiterError Limit → Attempt LimiterError Limit × Limiter
configured pid l (returned c) = commit pid l (returned c, emptied (some c), limit_configured c ∷ [])
configured pid l (raised e) = (raised e, l)

module _ (known : String → Bool) where
  -- `_validate_project_id` and `_ensure_known_project`.
  unfoldable pub check_project : String → Attempt LimiterError (Unit {0})
  unfolding is_safe_project
  check_project pid =
      and_then (require (is_safe_project pid) invalid_project_id)
        λ _. require (known pid) unknown_project

  unfoldable pub configure_limit :
      String → RawLimit → Limiter → Attempt LimiterError Limit × Limiter
  unfolding check_project validate_new_config commit
  configure_limit pid raw l =
      guarded l (check_project pid) (configured pid l (validate_new_config pid raw))

  unfoldable pub update_limit : String → RawLimit → Limiter → Attempt LimiterError Limit × Limiter
  unfolding check_project validate_update_fields update_in commit load_state
  update_limit pid raw l =
      guarded l (and_then (check_project pid) λ _. validate_update_fields raw)
        (commit pid l (update_in raw (load_state pid l)))

  unfoldable pub get_limit : String → Limiter → Attempt LimiterError (Option Limit) × Limiter
  unfolding check_project commit load_state
  get_limit pid l =
      let s = load_state pid l in
      guarded l (check_project pid) (commit pid l (returned s.config, s, []))

  unfoldable pub remove_limit : String → Limiter → Attempt LimiterError Bool × Limiter
  unfolding check_project remove_in commit load_state
  remove_limit pid l =
      guarded l (check_project pid) (commit pid l (remove_in pid (load_state pid l)))

  abbrev pub check_both : String → String → Attempt LimiterError (Unit {0})
  check_both pid rid = and_then (check_project pid) λ _. validate_request_id rid

  unfoldable pub check_request :
      String → String → ℕ → Limiter → Attempt LimiterError Decision × Limiter
  unfolding check_project validate_request_id check_in commit load_state
  check_request pid rid now l =
      let s = load_state pid l in
      guarded l (check_both pid rid) (commit pid l (check_in pid rid now s, s, []))

  -- `check_and_register`, and `register_request`, which calls it.
  unfoldable pub check_and_register :
      String → String → ℕ → Limiter → Attempt LimiterError Decision × Limiter
  unfolding check_project validate_request_id register_in commit load_state
  check_and_register pid rid now l =
      guarded l (check_both pid rid) (commit pid l (register_in pid rid now (load_state pid l)))

  unfoldable pub remaining : String → ℕ → Limiter → Attempt LimiterError (Option ℕ) × Limiter
  unfolding check_project remaining_in commit load_state
  remaining pid now l =
      let s = load_state pid l in
      guarded l (check_project pid) (commit pid l (remaining_in now s, s, []))

  -- `status` of one project.
  unfoldable pub status : String → ℕ → Limiter → Attempt LimiterError Status × Limiter
  unfolding check_project project_status commit load_state
  status pid now l =
      let s = load_state pid l in
      guarded l (check_project pid) (commit pid l (project_status now s, s, []))

  -- `latest_events` of one project.
  unfoldable pub latest_events : ℤ → String → Limiter → Attempt LimiterError (List Event)
  unfolding is_safe_project
  latest_events (pos zero) pid l = returned []
  latest_events (negsuc n) pid l = returned []
  latest_events (pos (suc n)) pid l =
      and_then (require (is_safe_project pid) invalid_project_id)
        λ _. returned (latest (pos (suc n)) (filter_by (λ e. project_of e == pid) l.events))
