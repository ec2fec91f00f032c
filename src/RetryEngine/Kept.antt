-- ===== src/RetryEngine/Kept.antt =====
-- What `RetryEngine` (agent/ai/retry_engine.py) keeps over any sequence of recorded attempts.
use mitigate_ai_platform.Prelude.{
  ℕ, suc, ◌+◌, ◌-◌, ◌≤◌, ◌<◌, String, Bool, true, false, ◌&&◌, ◌||◌, Option, none, some, List, [],
  ◌∷◌, ◌++◌, leb, if◌then◌else◌, is_empty, any, length, All, All-append, Bool-cases, inl, inr, ◌≡◌,
  ◌∙◌, refl, sym, ap, subst, arith,
}
use mathlib.Core.Bool.{false≢true}
use Prim.Native.Char.{code}
use mitigate_ai_platform.RetryEngine.{
  RetryConfiguration, RetryDecision, RetryAttempt, RetryEngine, FinalStatus, succeeded, blocked,
  exhausted, failed, final_status, new_engine, evaluate_failure, width, byte_length, truncate_utf8,
  sanitize, sanitized, limited, record_failure, record_success,
}
use mitigate_ai_platform.RetryEngine.Guidance.{FailureContext}

-- The truncation keeps to the limit.
pub truncate-le : (s : String) (n : ℕ) → byte_length (truncate_utf8 s n) ≤ n
unfolding truncate_utf8
truncate-le String.[] n = omega arith
truncate-le (String.◌∷◌ c s) n = elim (Bool-cases (leb (width (code c)) n)) [
  | inl fits ↦
      rw fits (let rest = truncate-le s (n - width (code c)) in within (width (code c)) fits rest)
  | inr over ↦ rw over (omega arith)
]
  where
    within :
        (w : ℕ)
        → leb w n ≡ true
        → byte_length (truncate_utf8 s (n - w)) ≤ n - w
        → w + byte_length (truncate_utf8 s (n - w)) ≤ n
    within w fits rest = ground (arith, fits, rest)

pub data Entry : Type 0 where
  failure : FailureContext → String → Entry
  success : (summary now : String) → Entry

abbrev was_blocked : Option RetryDecision → Bool
was_blocked none = false
was_blocked (some d) = d.is_blocked

abbrev pub RetriesBelow : ℕ → ℕ → Option RetryDecision → Type 0
RetriesBelow number max none = Unit
RetriesBelow number max (some d) = d.retryable ≡ true → number < max

abbrev pub FitsIn : ℕ → Option String → Type 0
FitsIn bytes none = Unit
FitsIn bytes (some text) = byte_length text ≤ bytes

-- The attempts have the numbers from `k` on.
abbrev pub Numbered : ℕ → List RetryAttempt → Type 0
Numbered k [] = Unit
Numbered k (a ∷ xs) = (a.number ≡ k) × Numbered (suc k) xs

-- An attempt is answered xs retryable only below the limit, and its snippet fits.
abbrev pub IsFair : RetryConfiguration → RetryAttempt → Type 0
IsFair c a = RetriesBelow a.number c.max_attempts a.decision × FitsIn c.safe_error_bytes a.snippet

abbrev pub any_blocked : List RetryAttempt → Bool
any_blocked xs = any (λ a. was_blocked a.decision) xs

-- The status by the attempts alone.
abbrev pub status_of : RetryConfiguration → List RetryAttempt → FinalStatus
status_of c xs =
    if any (λ a. a.is_success) xs
    then succeeded
    else if any_blocked xs
    then blocked
    else if leb c.max_attempts (length xs)
    then exhausted
    else failed

-- What holds after any sequence of attempts.
pub record Kept (c : RetryConfiguration) (e : RetryEngine) : Type 0 where
  pub same_config : e.config ≡ c
  pub numbered : Numbered 1 e.attempts
  pub fair : All (IsFair c) e.attempts
  pub remembers : e.blocked_once ≡ any_blocked e.attempts

Numbered-append :
    (k : ℕ) (xs : List RetryAttempt) (a : RetryAttempt)
    → Numbered k xs
    → a.number ≡ k + length xs
    → Numbered k (xs ++ a ∷ [])
Numbered-append k [] a h e = (omega (arith, e), tt)
Numbered-append k (b ∷ bs) a h e = (h.0, Numbered-append (suc k) bs a h.1 (omega (arith, e)))

any_blocked-append :
    (xs : List RetryAttempt) (a : RetryAttempt)
    → any_blocked (xs ++ a ∷ []) ≡ (was_blocked a.decision || any_blocked xs)
any_blocked-append [] a = refl
any_blocked-append (b ∷ bs) a = ground (arith, any_blocked-append bs a)

-- A fair attempt with the next number keeps everything.
Kept-append :
    (c : RetryConfiguration) (e : RetryEngine) (a : RetryAttempt)
    → Kept c e
    → a.number ≡ suc (length e.attempts)
    → IsFair c a
    → Kept c (record {
      config = e.config;
      requirements = e.requirements;
      attempts = e.attempts ++ a ∷ [];
      blocked_once = was_blocked a.decision || e.blocked_once;
    })
Kept-append c e a h n fair = record {
  same_config = h.same_config;
  numbered = Numbered-append 1 e.attempts a h.numbered (omega (arith, n));
  fair = All-append (IsFair c) e.attempts (a ∷ []) h.fair (fair, tt);
  remembers =
      ap (λ b. was_blocked a.decision || b) h.remembers ∙ sym (any_blocked-append e.attempts a);
}

limited-below :
    (e : RetryEngine) (number : ℕ) (d : RetryDecision)
    → (limited e number d).retryable ≡ true
    → number < e.config.max_attempts
limited-below e number d h = elim (Bool-cases (d.retryable && leb e.config.max_attempts number)) [
  | inl spent ↦ absurd (false≢true (rw spent at h))
  | inr left ↦ let again : d.retryable ≡ true = rw left at h in ground (arith, left, again)
]

module _ (redact : String → String) where
  sanitized-FitsIn :
      (c : RetryConfiguration) (o : Option String)
      → FitsIn c.safe_error_bytes (sanitized redact c o)
  unfolding sanitize
  sanitized-FitsIn c none = tt
  sanitized-FitsIn c (some text) = elim (Bool-cases (is_empty text)) [
    | inl nothing ↦ rw nothing tt
    | inr full ↦ rw full (truncate-le (redact text) c.safe_error_bytes)
  ]

  -- The engine after an attempt.
  unfoldable pub record_entry : Entry → RetryEngine → RetryEngine
  unfolding record_failure record_success
  record_entry (failure f now) e = (record_failure redact f now e).1
  record_entry (success summary now) e = record_success redact summary now e

  unfoldable pub record_all : List Entry → RetryEngine → RetryEngine
  unfolding record_entry
  record_all [] e = e
  record_all (x ∷ xs) e = record_all xs (record_entry x e)

  record_entry-Kept :
      (c : RetryConfiguration) (x : Entry) (e : RetryEngine) → Kept c e → Kept c (record_entry x e)
  unfolding record_entry
  record_entry-Kept c (failure f now) e h = Kept-append c e _ h refl (
    (λ k.
        subst (λ d. suc (length e.attempts) < d.max_attempts) h.same_config
          (limited-below e (suc (length e.attempts)) (evaluate_failure f) k)),
    subst (λ d. FitsIn d.safe_error_bytes (sanitized redact e.config f.error_output)) h.same_config
        (sanitized-FitsIn e.config f.error_output),
  )
  record_entry-Kept c (success summary now) e h = Kept-append c e _ h refl (tt, tt)

  record_all-Kept :
      (c : RetryConfiguration) (xs : List Entry) (e : RetryEngine)
      → Kept c e
      → Kept c (record_all xs e)
  unfolding record_all
  record_all-Kept c [] e h = h
  record_all-Kept c (x ∷ xs) e h =
      record_all-Kept c xs (record_entry x e) (record_entry-Kept c x e h)

  -- Any sequence of failures and successes that a new engine records keeps its bounds: the attempts are
  -- numbered from 1 on, a failure is answered as retryable only if its number is below
  -- `max_attempts`, no error snippet has more than `safe_error_bytes` bytes in UTF-8, and the final
  -- status is `succeeded` if an attempt succeeded, else `blocked` if any decision blocked, however long
  -- ago, else `exhausted` if the attempts reach the limit, and else `failed`.
  pub record_all-bounded :
      (c : RetryConfiguration) (requirements : String) (xs : List Entry)
      → Kept c (record_all xs (new_engine c requirements))
        × (final_status (record_all xs (new_engine c requirements))
            ≡ status_of c (record_all xs (new_engine c requirements)).attempts)
  record_all-bounded c requirements xs =
      let start : Kept c (new_engine c requirements) = record {
        same_config = refl;
        numbered = tt;
        fair = tt;
        remembers = refl;
      } in
      let kept = record_all-Kept c xs (new_engine c requirements) start in
      (kept, unfold final_status in by_attempts kept)
    where
      by_attempts :
          {e : RetryEngine}
          → Kept c e
          → (if any (λ a. a.is_success) e.attempts
              then succeeded
              else if e.blocked_once
              then blocked
              else if leb e.config.max_attempts (length e.attempts)
              then exhausted
              else failed)
            ≡ status_of c e.attempts
      by_attempts {e} kept =
          ap
            (λ b.
              if any (λ a. a.is_success) e.attempts
              then succeeded
              else if b
              then blocked
              else if leb e.config.max_attempts (length e.attempts)
              then exhausted
              else failed)
            kept.remembers
          ∙ ap
              (λ d.
                if any (λ a. a.is_success) e.attempts
                then succeeded
                else if any_blocked e.attempts
                then blocked
                else if leb d.max_attempts (length e.attempts)
                then exhausted
                else failed)
              kept.same_config
