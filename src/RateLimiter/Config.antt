-- ===== src/RateLimiter/Config.antt =====
-- The validations of `ProviderRateLimiter`, agent/providers/provider_rate_limiter.py, and its state files.
use mitigate_ai_platform.Prelude.{
  ℕ, suc, String, Bool, true, false, not, ◌&&◌, ◌||◌, Option, none, some, List, [], ◌∷◌, ◌++◌, ◌==◌,
  leb, if◌then◌else◌, contains, all, has_char, ℤ, pos, Attempt, returned, raised, and_then, require,
  Value, str, number, flag, missing,
}
use Prim.Native.Char.{code}
use mitigate_ai_platform.RateLimiter.{
  LimiterError, invalid_project_id, invalid_request_id, invalid_request_characters,
  unknown_config_field, unknown_update_field, missing_config_field, project_id_mismatch,
  enabled_not_boolean, request_limit_not_positive, window_not_positive, burst_limit_negative, Limit,
  State, Event, Outcome,
}

-- The state files by project, and `events.json`.
pub record Limiter : Type 0 where
  pub states : String → Option State
  pub events : List Event

-- The entries of a configuration, or of the changes to one; a key that is not there has `missing`.
pub record RawLimit : Type 0 where
  pub keys : List String
  pub project_id : Value
  pub enabled : Value
  pub request_limit : Value
  pub window_seconds : Value
  pub burst_limit : Value

abbrev is_id_code : ℕ → Bool
is_id_code c =
    (leb 48 c && leb c 57)
    || (leb 65 c && leb c 90)
    || (leb 97 c && leb c 122)
    || (leb 95 c && leb c 95)
    || (leb 45 c && leb c 45)

abbrev all_id_codes : String → Bool
all_id_codes String.[] = true
all_id_codes (String.◌∷◌ c s) = is_id_code (code c) && all_id_codes s

-- `len` of a text.
abbrev pub characters : String → ℕ
characters String.[] = 0
characters (String.◌∷◌ c s) = suc (characters s)

-- `_SAFE_PROJECT_ID.fullmatch`
unfoldable pub is_safe_project : String → Bool
is_safe_project s = all_id_codes s && leb 1 (characters s) && leb (characters s) 128

-- `_validate_request_id`
unfoldable pub validate_request_id : String → Attempt LimiterError (Unit {0})
unfolding has_char
validate_request_id s =
    and_then (require (leb 1 (characters s) && leb (characters s) 256) invalid_request_id) λ _.
      require
        (not (has_char 47 s || has_char 92 s || has_char 10 s || has_char 13 s || has_char 9 s))
        invalid_request_characters

-- `isinstance(v, int)`, which a Boolean passes, and `int(v)`.
abbrev pub int_of : Value → Option ℤ
int_of (number n) = some n
int_of (flag true) = some (pos 1)
int_of (flag false) = some (pos 0)
int_of _ = none

abbrev pub positive : Option ℤ → LimiterError → Attempt LimiterError ℕ
positive (some (pos n)) e = and_then (require (leb 1 n) e) λ _. returned n
positive _ e = raised e

abbrev non_negative : Option ℤ → Attempt LimiterError (Option ℕ)
non_negative (some (pos n)) = returned (some n)
non_negative _ = raised burst_limit_negative

abbrev pub burst_of : Value → Attempt LimiterError (Option ℕ)
burst_of missing = returned none
burst_of v = non_negative (int_of v)

abbrev pub boolean : Value → Attempt LimiterError Bool
boolean (flag b) = returned b
boolean _ = raised enabled_not_boolean

-- The tests that `_validate_new_config` and `_validate_existing_config_update` share.
unfoldable pub checked_limit : String → RawLimit → Attempt LimiterError Limit
checked_limit pid raw = and_then (boolean raw.enabled) λ enabled.
    and_then (positive (int_of raw.request_limit) request_limit_not_positive) λ request_limit.
      and_then (positive (int_of raw.window_seconds) window_not_positive) λ window_seconds.
        and_then (burst_of raw.burst_limit) λ burst_limit. returned (record {
          project_id = pid;
          enabled = enabled;
          request_limit = request_limit;
          window_seconds = window_seconds;
          burst_limit = burst_limit;
        })

abbrev pub required_keys : List String
required_keys = "project_id" ∷ "enabled" ∷ "request_limit" ∷ "window_seconds" ∷ "burst_limit" ∷ []

abbrev pub allowed_keys : List String
allowed_keys = "created_at" ∷ "updated_at" ∷ required_keys

abbrev update_keys : List String
update_keys = "enabled" ∷ "request_limit" ∷ "window_seconds" ∷ "burst_limit" ∷ []

-- The first key that is not allowed is refused.
unfoldable pub refuse_unknown :
    (String → LimiterError) → List String → List String → Attempt LimiterError (Unit {0})
unfolding contains
refuse_unknown error allowed [] = returned tt
refuse_unknown error allowed (k ∷ ks) =
    and_then (require (contains k allowed) (error k)) λ _. refuse_unknown error allowed ks

abbrev pub same_text : Value → String → Bool
same_text (str s) t = s == t
same_text _ t = false

-- `_validate_new_config`
unfoldable pub validate_new_config : String → RawLimit → Attempt LimiterError Limit
unfolding checked_limit refuse_unknown contains
validate_new_config pid raw =
    and_then (refuse_unknown unknown_config_field allowed_keys raw.keys) λ _.
      and_then (require (all (λ k. contains k raw.keys) required_keys) missing_config_field) λ _.
        and_then (require (same_text raw.project_id pid) project_id_mismatch)
          λ _. checked_limit pid raw

-- A test of an entry that is there.
abbrev if_there : {A : Type 0} → Bool → Attempt LimiterError A → Attempt LimiterError (Unit {0})
if_there true m = and_then m λ _. returned tt
if_there false m = returned tt

-- `_validate_update_fields`
unfoldable pub validate_update_fields : RawLimit → Attempt LimiterError (Unit {0})
unfolding refuse_unknown contains
validate_update_fields raw =
    let there = λ (k : String). contains k raw.keys in
    and_then (refuse_unknown unknown_update_field update_keys raw.keys) λ _.
      and_then (if_there (there "enabled") (boolean raw.enabled)) λ _.
        and_then
          (if_there (there "request_limit")
            (positive (int_of raw.request_limit) request_limit_not_positive))
          λ _.
            and_then
              (if_there (there "window_seconds")
                (positive (int_of raw.window_seconds) window_not_positive))
              λ _. if_there (there "burst_limit") (burst_of raw.burst_limit)

abbrev burst_value : Option ℕ → Value
burst_value none = missing
burst_value (some n) = number (pos n)

-- The configuration with the changes in place.
unfoldable pub changed : Limit → RawLimit → RawLimit
unfolding contains
changed c raw = record {
  keys = required_keys;
  project_id = str c.project_id;
  enabled = if contains "enabled" raw.keys then raw.enabled else flag c.enabled;
  request_limit =
      if contains "request_limit" raw.keys then raw.request_limit else number (pos c.request_limit);
  window_seconds =
      if contains "window_seconds" raw.keys
      then raw.window_seconds
      else number (pos c.window_seconds);
  burst_limit =
      if contains "burst_limit" raw.keys then raw.burst_limit else burst_value c.burst_limit;
}

-- `_validate_existing_config_update`
unfoldable pub validate_existing : Limit → RawLimit → Attempt LimiterError Limit
unfolding is_safe_project checked_limit
validate_existing c raw =
    and_then (require (is_safe_project c.project_id) invalid_project_id)
      λ _. checked_limit c.project_id raw

abbrev pub fresh_state : State
fresh_state = record { config = none; entries = [] }

abbrev pub or_fresh : Option State → State
or_fresh none = fresh_state
or_fresh (some s) = s

-- `_load_state`: a project without a file gets one.
unfoldable pub load_state : String → Limiter → State
load_state pid l = or_fresh (l.states pid)

abbrev pub put : String → State → (String → Option State) → String → Option State
put pid s states q = if pid == q then some s else states q

-- What a method leaves of the limiter.
unfoldable pub commit :
    {A : Type 0} → String → Limiter → Outcome A → Attempt LimiterError A × Limiter
commit pid l (r, s, es) = (r, record { states = put pid s l.states; events = l.events ++ es })
