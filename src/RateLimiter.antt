-- ===== src/RateLimiter.antt =====
-- `ProviderRateLimiter`, agent/providers/provider_rate_limiter.py: the window of one project. A time is
-- a number of microseconds since the least `datetime`, and the text of a time is that time; the times
-- of creation and of the last change, which nothing reads, are left out.
pub mod Config
pub mod Methods
pub mod Window
pub mod Refines
pub mod Bound
pub mod Checking
use mitigate_ai_platform.Prelude.{
  ℕ, zero, suc, ◌+◌, ◌-◌, String, Bool, true, false, not, ◌&&◌, ◌||◌, Option, none, some, List, [],
  ◌∷◌, ◌++◌, ◌==◌, eqb, leb, ltb, str_lt, if◌then◌else◌, any, filter_by, sort_by, length, has_char,
  Attempt, returned, raised, and_then, require,
}
use Prim.Native.Nat.{◌*◌, ◌/◌}
use Prim.Native.Char.{code}

pub data LimiterError : Type 0 where
  invalid_project_id unknown_project invalid_request_id invalid_request_characters : LimiterError
  unknown_config_field unknown_update_field : String → LimiterError
  missing_config_field project_id_mismatch enabled_not_boolean request_limit_not_positive :
      LimiterError
  window_not_positive burst_limit_negative no_active_configuration time_overflow : LimiterError

pub record Limit : Type 0 where
  pub project_id : String
  pub enabled : Bool
  pub request_limit : ℕ
  pub window_seconds : ℕ
  pub burst_limit : Option ℕ

-- A request id and its time.
abbrev pub Entry : Type 0
Entry = String × ℕ

-- `state.json`
pub record State : Type 0 where
  pub config : Option Limit
  pub entries : List Entry

pub data Reason : Type 0 where
  duplicate_request rate_limit_exceeded : Reason

pub record Decision : Type 0 where
  pub allowed : Bool
  pub blocked_reason : Option Reason
  pub remaining_requests : Option ℕ
  pub reset_at : Option ℕ
  pub project_id : String
  pub request_id : String
  pub evaluated_at : ℕ

pub data Event : Type 0 where
  limit_configured limit_updated : Limit → Event
  limit_removed : String → Event
  registered_unrestricted : (project_id request_id : String) → ℕ → Event
  request_registered : (project_id request_id : String) (timestamp remaining : ℕ) → Event
  request_blocked : (project_id request_id : String) → ℕ → Reason → Event
  limit_warning : (project_id : String) (timestamp remaining capacity : ℕ) → Event

-- The greatest `datetime`.
abbrev pub max_time : ℕ
max_time = 315537897599999999

-- The length of the window in microseconds.
abbrev pub window : Limit → ℕ
window c = c.window_seconds * 1000000

-- Whether an entry is after the cutoff `now - window`.
abbrev pub is_live : ℕ → ℕ → Entry → Bool
is_live w now e = not (leb (e.1 + w) now)

-- `_prune_entries_inplace`: the cutoff may lie before the least time.
unfoldable pub prune : ℕ → ℕ → List Entry → Attempt LimiterError (List Entry)
prune w now entries =
    and_then (require (leb w now) time_overflow) λ _. returned (filter_by (is_live w now) entries)

abbrev pub has_id : String → List Entry → Bool
has_id rid entries = any (λ e. e.0 == rid) entries

abbrev earlier : ℕ → Option ℕ → ℕ
earlier n none = n
earlier n (some m) = if leb n m then n else m

unfoldable pub earliest : List Entry → Option ℕ
earliest [] = none
earliest (e ∷ es) = some (earlier e.1 (earliest es))

abbrev pub after_window : ℕ → Option ℕ → Attempt LimiterError (Option ℕ)
after_window w none = returned none
after_window w (some n) =
    and_then (require (leb (n + w) max_time) time_overflow) λ _. returned (some (n + w))

-- `_compute_reset_at`
unfoldable pub compute_reset_at : ℕ → List Entry → Attempt LimiterError (Option ℕ)
unfolding earliest
compute_reset_at w entries = after_window w (earliest entries)

abbrev burst_or : Option ℕ → ℕ → ℕ
burst_or (some burst) n = burst
burst_or none n = n

-- `burst_limit` if there is one, and else `request_limit`.
abbrev pub capacity : Limit → ℕ
capacity c = burst_or c.burst_limit c.request_limit

abbrev before_in_time : Entry → Entry → Bool
before_in_time a b = ltb a.1 b.1 || (eqb a.1 b.1 && str_lt a.0 b.0)

-- What `_write_state` leaves of the entries: `_sorted_entries_dict`, and the keys that
-- `json.dumps` sorts.
unfoldable pub written : List Entry → List Entry
unfolding sort_by
written entries = sort_by (λ a b. str_lt a.0 b.0) (sort_by before_in_time entries)

abbrev unrestricted : String → String → ℕ → Decision
unrestricted pid rid now = record {
  allowed = true;
  blocked_reason = none;
  remaining_requests = none;
  reset_at = none;
  project_id = pid;
  request_id = rid;
  evaluated_at = now;
}

abbrev pub refused : Reason → Option ℕ → Option ℕ → String → String → ℕ → Decision
refused why remaining reset pid rid now = record {
  allowed = false;
  blocked_reason = some why;
  remaining_requests = remaining;
  reset_at = reset;
  project_id = pid;
  request_id = rid;
  evaluated_at = now;
}

abbrev pub granted : ℕ → Option ℕ → String → String → ℕ → Decision
granted remaining reset pid rid now = record {
  allowed = true;
  blocked_reason = none;
  remaining_requests = some remaining;
  reset_at = reset;
  project_id = pid;
  request_id = rid;
  evaluated_at = now;
}

-- What a call answers, the state it leaves, and the events it adds.
abbrev pub Outcome : Type 0 → Type 0
Outcome A = Attempt LimiterError A × State × List Event

abbrev pub answer : {A B : Type 0} → State → Attempt LimiterError A → (A → Outcome B) → Outcome B
answer s (returned a) f = f a
answer s (raised e) f = (raised e, s, [])

abbrev pub warning : String → ℕ → ℕ → ℕ → List Event
warning pid now remaining cap =
    if leb remaining (if leb (cap / 10) 1 then 1 else cap / 10)
    then limit_warning pid now remaining cap ∷ []
    else []

module _ (pid rid : String) (now : ℕ) where
  -- A refusal, whose event follows the computation of `reset_at`.
  abbrev refuse : State → ℕ → List Entry → Reason → Option ℕ → Outcome Decision
  refuse s w entries why remaining = answer s (compute_reset_at w entries) λ reset.
      (returned (refused why remaining reset pid rid now), s, request_blocked pid rid now why ∷ [])

  -- The answer after the new entry is stored.
  abbrev grant : Limit → State → List Entry → Outcome Decision
  grant c s entries =
      let remaining = capacity c - length entries in
      answer s (compute_reset_at (window c) entries) λ reset. (
        returned (granted remaining reset pid rid now),
        s,
        request_registered pid rid now remaining ∷ warning pid now remaining (capacity c),
      )

  -- `check_and_register` under an enabled limit, on the entries that are left.
  unfoldable pub enforce : Limit → State → List Entry → Outcome Decision
  unfolding compute_reset_at written
  enforce c s entries =
      if has_id rid entries
      then refuse s (window c) entries duplicate_request none
      else if leb (capacity c) (length entries)
      then refuse s (window c) entries rate_limit_exceeded (some 0)
      else let more = entries ++ (rid, now) ∷ [] in
        grant c (record { config = s.config; entries = written more }) more

  -- `check_and_register`, between the locks.
  unfoldable pub register_in : State → Outcome Decision
  unfolding enforce prune
  register_in s = limited s.config
    where
      limited : Option Limit → Outcome Decision
      limited none =
          (returned (unrestricted pid rid now), s, registered_unrestricted pid rid now ∷ [])
      limited (some c) =
          if c.enabled
          then answer s (prune (window c) now s.entries) (λ entries. enforce c s entries)
          else (returned (unrestricted pid rid now), s, registered_unrestricted pid rid now ∷ [])

  abbrev inspect : Limit → List Entry → Attempt LimiterError Decision
  inspect c entries = and_then (compute_reset_at (window c) entries) λ reset. returned (
      if has_id rid entries
      then refused duplicate_request (some (length entries - 1)) reset pid rid now
      else if leb (capacity c) (length entries)
      then refused rate_limit_exceeded (some 0) reset pid rid now
      else granted (capacity c - length entries) reset pid rid now)

  -- `check_request`, between the locks.
  unfoldable pub check_in : State → Attempt LimiterError Decision
  unfolding prune compute_reset_at
  check_in s = limited s.config
    where
      limited : Option Limit → Attempt LimiterError Decision
      limited none = returned (unrestricted pid rid now)
      limited (some c) =
          if c.enabled
          then and_then (prune (window c) now s.entries) (λ entries. inspect c entries)
          else returned (unrestricted pid rid now)
