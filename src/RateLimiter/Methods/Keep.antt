-- ===== src/RateLimiter/Methods/Keep.antt =====
-- The limits that the rate limiter (agent/providers/provider_rate_limiter.py) stores.
use mitigate_ai_platform.Prelude.{
  ℕ, all, contains, ◌≤◌, String, Bool, true, false, Option, none, some, List, [], ◌∷◌, ◌++◌, leb,
  if◌then◌else◌, ℤ, pos, negsuc, length, Attempt, returned, raised, require, require-true, Ensures,
  Ensures-bind, Ensures-returned, ◌≡◌, refl, arith,
}
use mitigate_ai_platform.RateLimiter.{
  LimiterError, unknown_config_field, missing_config_field, project_id_mismatch, invalid_project_id,
  Limit, Entry, State, Decision, Outcome, answer, prune, window, has_id, capacity, enforce,
  register_in, compute_reset_at,
}
use mitigate_ai_platform.RateLimiter.Config.{
  RawLimit, refuse_unknown, allowed_keys, required_keys, same_text, is_safe_project, checked_limit,
  positive, boolean, burst_of, int_of, validate_new_config, validate_existing, changed,
}
use mitigate_ai_platform.RateLimiter.Methods.{update_in}

-- The limit of a state, if it has one, admits something in a window of positive length.
abbrev pub IsLimit : Option Limit → Type 0
IsLimit none = Unit
IsLimit (some c) = (1 ≤ c.request_limit) × (1 ≤ c.window_seconds)

positive-Ensures : (o : Option ℤ) (e : LimiterError) → Ensures (λ n. 1 ≤ n) (positive o e)
positive-Ensures (some (pos m)) e =
    Ensures-bind (require (leb 1 m) e) _
      λ _ ok. let le = require-true (leb 1 m) e ok in record { ensured = ground (arith, le) }
positive-Ensures (some (negsuc m)) e = record { ensured = tt }
positive-Ensures none e = record { ensured = tt }

checked_limit-Ensures :
    (pid : String) (raw : RawLimit) → Ensures (λ c. IsLimit (some c)) (checked_limit pid raw)
unfolding checked_limit
checked_limit-Ensures pid raw = Ensures-bind (boolean raw.enabled) _ λ enabled _.
    Ensures-bind (positive (int_of raw.request_limit) _) _ λ n hn.
      Ensures-bind (positive (int_of raw.window_seconds) _) _ λ w hw.
        Ensures-bind (burst_of raw.burst_limit) _ λ b _. record {
          ensured = (
            Ensures-returned _ (positive-Ensures (int_of raw.request_limit) _) hn,
            Ensures-returned _ (positive-Ensures (int_of raw.window_seconds) _) hw,
          );
        }

pub validate_new_config-Ensures :
    (pid : String) (raw : RawLimit) → Ensures (λ c. IsLimit (some c)) (validate_new_config pid raw)
unfolding validate_new_config
validate_new_config-Ensures pid raw =
    Ensures-bind (refuse_unknown unknown_config_field allowed_keys raw.keys) _ λ _ _.
      Ensures-bind (require (all (λ k. contains k raw.keys) required_keys) missing_config_field) _
        λ _ _.
          Ensures-bind (require (same_text raw.project_id pid) project_id_mismatch) _
            λ _ _. checked_limit-Ensures pid raw

validate_existing-Ensures :
    (c : Limit) (raw : RawLimit) → Ensures (λ c. IsLimit (some c)) (validate_existing c raw)
unfolding validate_existing
validate_existing-Ensures c raw =
    Ensures-bind (require (is_safe_project c.project_id) invalid_project_id) _
      λ _ _. checked_limit-Ensures c.project_id raw

answer-keeps :
    {A : Type 0} (P : State → Type 0) (s : State) (m : Attempt LimiterError A) {B : Type 0}
    (f : A → Outcome B)
    → P s
    → ((a : A) → m ≡ returned a → P (f a).1)
    → P (answer s m f).1
answer-keeps P s (returned a) f h k = k a refl
answer-keeps P s (raised e) f h k = h

either-keeps :
    {A : Type 0} (P : A → Type 0) (b : Bool) {x y : A} → P x → P y → P (if b then x else y)
either-keeps P true hx hy = hx
either-keeps P false hx hy = hy

abbrev pub HasLimit : State → Type 0
HasLimit s = IsLimit s.config

enforce-HasLimit :
    (pid rid : String) (now : ℕ) (c : Limit) (s : State) (entries : List Entry)
    → HasLimit s
    → HasLimit (enforce pid rid now c s entries).1
unfolding enforce
enforce-HasLimit pid rid now c s entries h =
    either-keeps (λ (o : Outcome Decision). HasLimit o.1) (has_id rid entries)
      (answer-keeps HasLimit s (compute_reset_at (window c) entries) _ h λ a e. h)
      (either-keeps (λ (o : Outcome Decision). HasLimit o.1) (leb (capacity c) (length entries))
        (answer-keeps HasLimit s (compute_reset_at (window c) entries) _ h λ a e. h)
        (answer-keeps HasLimit _ (compute_reset_at (window c) (entries ++ (rid, now) ∷ [])) _ h
          λ a e. h))

pub register_in-HasLimit :
    (pid rid : String) (now : ℕ) (o : Option Limit) (es : List Entry)
    → IsLimit o
    → HasLimit (register_in pid rid now (record { config = o; entries = es })).1
unfolding register_in
register_in-HasLimit pid rid now none es h = h
register_in-HasLimit pid rid now (some c) es h =
    either-keeps (λ (o : Outcome Decision). HasLimit o.1) c.enabled
      (answer-keeps HasLimit _ (prune (window c) now es) _ h
        λ left _. enforce-HasLimit pid rid now c (record { config = some c; entries = es }) left h)
      h

pub update_in-HasLimit :
    (raw : RawLimit) (o : Option Limit) (es : List Entry)
    → IsLimit o
    → HasLimit (update_in raw (record { config = o; entries = es })).1
unfolding update_in
update_in-HasLimit raw none es h = h
update_in-HasLimit raw (some c) es h =
    answer-keeps HasLimit _ (validate_existing c (changed c raw)) _ h λ c' e.
      Ensures-returned (validate_existing c (changed c raw))
        (validate_existing-Ensures c (changed c raw)) e
