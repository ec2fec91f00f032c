-- ===== src/RetryBudget/Classification.antt =====
-- The retry classifier, agent/resilience/retry_classification.py.
use mitigate_ai_platform.Prelude.{
  String, Bool, true, false, not, ◌||◌, ◌&&◌, Option, none, some, List, map, if◌then◌else◌,
  is_empty, Attempt, returned, and_then, require,
}

pub data RetryCategory : Type 0 where
  retryable non_retryable cancelled deadline_exceeded exhausted : RetryCategory

-- The metadata is a mapping to texts; `none` as a value is Python's `None`.
pub record ClassificationResult : Type 0 where
  pub category : RetryCategory
  pub reason : String
  pub metadata : Option (List (String × String))

-- The exception to classify, by the classes that the classifier tests.
pub data Failure : Type 0 where
  no_error cancelled_error timeout_error other_error : Failure

-- The keyword arguments of `classify`.
pub record Flags : Type 0 where
  pub exhausted : Bool
  pub cancelled : Bool
  pub deadline_exceeded : Bool
  pub retryable_hint : Option Bool
  pub reason : Option String
  pub metadata : Option (List (String × Option String))

pub data ClassifierError : Type 0 where
  nothing_to_classify : ClassifierError

abbrev is_missing : Failure → Bool
is_missing no_error = true
is_missing _ = false

abbrev is_cancelled_error : Failure → Bool
is_cancelled_error cancelled_error = true
is_cancelled_error _ = false

abbrev is_timeout : Failure → Bool
is_timeout timeout_error = true
is_timeout _ = false

abbrev has_hint : Option Bool → Bool
has_hint none = false
has_hint (some b) = true

-- `reason or default`
abbrev reason_or : Option String → String → String
reason_or none d = d
reason_or (some r) d = if is_empty r then d else r

abbrev or_blank : Option String → String
or_blank none = ""
or_blank (some v) = v

-- `_sanitize_meta`
unfoldable pub sanitize_meta :
    Option (List (String × Option String)) → Option (List (String × String))
sanitize_meta none = none
sanitize_meta (some m) = some (map (λ e. (e.0, or_blank e.1)) m)

abbrev by_hint : Flags → Option Bool → ClassificationResult
by_hint f (some true) = record {
  category = retryable;
  reason = reason_or f.reason "hint_retryable";
  metadata = sanitize_meta f.metadata;
}
by_hint f (some false) = record {
  category = non_retryable;
  reason = reason_or f.reason "hint_non_retryable";
  metadata = sanitize_meta f.metadata;
}
by_hint f none = record {
  category = non_retryable;
  reason = reason_or f.reason "non_retryable";
  metadata = sanitize_meta f.metadata;
}

abbrev bare : RetryCategory → String → ClassificationResult
bare c r = record { category = c; reason = r; metadata = none }

-- `RetryClassifier.classify`
unfoldable pub classify : Failure → Flags → Attempt ClassifierError ClassificationResult
unfolding sanitize_meta is_empty
classify e f =
    and_then
      (require
        (not (
          is_missing e
          && not (f.exhausted || f.cancelled || f.deadline_exceeded || has_hint f.retryable_hint)))
        nothing_to_classify)
      λ _. returned (
        if f.exhausted
        then bare exhausted (reason_or f.reason "budget_exhausted")
        else if f.cancelled || is_cancelled_error e
        then bare cancelled (reason_or f.reason "cancelled")
        else if f.deadline_exceeded || is_timeout e
        then bare deadline_exceeded (reason_or f.reason "deadline_exceeded")
        else by_hint f f.retryable_hint)
