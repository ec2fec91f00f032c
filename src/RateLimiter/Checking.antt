-- ===== src/RateLimiter/Checking.antt =====
-- `check_request` against `check_and_register` (agent/providers/provider_rate_limiter.py).
use mitigate_ai_platform.Prelude.{
  ℕ, String, true, false, Option, none, some, List, [], ◌∷◌, ◌++◌, leb, length, Attempt, returned,
  raised, and_then, Attempt-cases, Bool-cases, inl, inr, ◌≡◌, refl, sym, subst,
}
use mathlib.Core.Bool.{false≢true}
use mitigate_ai_platform.RateLimiter.{
  LimiterError, Limit, Entry, State, Decision, Event, window, prune, has_id, compute_reset_at,
  capacity, answer, inspect, enforce, register_in, check_in, Outcome,
}

-- The two answers agree: the same decision for the same reason, and only an allowed registration
-- changes the state.
abbrev pub SameDecision : Decision → Decision → State → State → Type 0
SameDecision d d' s s' =
    (d.blocked_reason ≡ d'.blocked_reason)
    × (d.allowed ≡ d'.allowed)
    × (d'.allowed ≡ false → s' ≡ s)

abbrev Agreeing : State → Attempt LimiterError Decision → Outcome Decision → Type 0
Agreeing s checked (returned d', s', events) =
    (d : Decision) → checked ≡ returned d → SameDecision d d' s s'
Agreeing s checked (raised e, s', events) = Unit

-- What the check says of the outcome of the registration.
record Foretells (s : State) (checked : Attempt LimiterError Decision) (o : Outcome Decision)
    : Type 0 where
  holds : Agreeing s checked o

of_returned :
    {a b : Decision} → ◌≡◌ {A = Attempt LimiterError Decision} (returned a) (returned b) → a ≡ b
of_returned e = cc

agreed :
    {x d' : Decision} {s s' : State} {events : List Event}
    → SameDecision x d' s s'
    → Foretells s (returned x) (returned d', s', events)
agreed {d' = d'} {s = s} {s' = s'} h = record {
  holds = λ d e. subst (λ y. SameDecision y d' s s') (of_returned e) h;
}

silent : (s : State) (x : LimiterError) (o : Outcome Decision) → Foretells s (raised x) o
silent s x (returned d', s', events) = record { holds = λ d e. cc }
silent s x (raised e, s', events) = record { holds = tt }

unanswered :
    {s s' : State} {checked : Attempt LimiterError Decision} {x : LimiterError}
    {events : List Event}
    → Foretells s checked (raised x, s', events)
unanswered = record { holds = tt }

module _ (pid rid : String) (now : ℕ) (s : State) where
  inspect-Foretells :
      (c : Limit) (entries : List Entry)
      → Foretells s (inspect pid rid now c entries) (enforce pid rid now c s entries)
  unfolding enforce
  inspect-Foretells c entries = elim (Attempt-cases (compute_reset_at (window c) entries)) [
    | inl (reset, run) ↦ elim (Bool-cases (has_id rid entries)) [
      | inl old ↦ rw run (rw old (agreed (refl, refl, λ k. refl)))
      | inr new ↦ elim (Bool-cases (leb (capacity c) (length entries))) [
        | inl full ↦ rw run (rw new (rw full (agreed (refl, refl, λ k. refl))))
        | inr room ↦
            elim (Attempt-cases (compute_reset_at (window c) (entries ++ (rid, now) ∷ []))) [
              | inl (later, run') ↦ rw run (
                  rw new
                    (rw room (rw run' (agreed (refl, refl, λ k. absurd (false≢true (sym k)))))))
              | inr (e, run') ↦ rw run (rw new (rw room (rw run' unanswered)))
            ]
      ]
    ]
    | inr (x, run) ↦ rw run (silent s x _)
  ]

  -- Both calls under an enabled limit.
  check_in_on :
      (c : Limit)
      → s.config ≡ some c
      → c.enabled ≡ true
      → check_in pid rid now s
        ≡ and_then (prune (window c) now s.entries) (λ entries. inspect pid rid now c entries)
  unfolding check_in
  check_in_on c set on = rw set (rw on refl)

  register_in_on :
      (c : Limit)
      → s.config ≡ some c
      → c.enabled ≡ true
      → register_in pid rid now s
        ≡ answer s (prune (window c) now s.entries) (λ entries. enforce pid rid now c s entries)
  unfolding register_in
  register_in_on c set on = rw set (rw on refl)

  meet :
      {checked checked' : Attempt LimiterError Decision} {o o' : Outcome Decision}
      → checked ≡ checked'
      → o ≡ o'
      → Foretells s checked' o'
      → Foretells s checked o
  meet {checked' = checked'} {o = o} e e' h =
      subst (λ r. Foretells s r o) (sym e) (subst (Foretells s checked') (sym e') h)

  by_config :
      (o : Option Limit)
      → s.config ≡ o
      → Foretells s (check_in pid rid now s) (register_in pid rid now s)
  unfolding check_in register_in
  by_config none none_set = rw none_set (agreed (refl, refl, λ k. refl))
  by_config (some c) set = elim (Bool-cases c.enabled) [
    | inl on ↦ elim (Attempt-cases (prune (window c) now s.entries)) [
      | inl (left, run) ↦
          meet (check_in_on c set on) (register_in_on c set on) (rw run (inspect-Foretells c left))
      | inr (x, run) ↦ meet (check_in_on c set on) (register_in_on c set on) (rw run unanswered)
    ]
    | inr off ↦ rw set (rw off (agreed (refl, refl, λ k. refl)))
  ]

  -- `check_request` foretells `check_and_register`: if both return, they say the same of the request and
  -- for the same reason, and a registration that is refused leaves the state as it was.
  pub check-register :
      (d d' : Decision)
      → check_in pid rid now s ≡ returned d
      → (register_in pid rid now s).0 ≡ returned d'
      → SameDecision d d' s (register_in pid rid now s).1
  check-register d d' checked asked =
      both (register_in pid rid now s) (by_config s.config refl).holds asked
    where
      both :
          (o : Outcome Decision)
          → Agreeing s (check_in pid rid now s) o
          → o.0 ≡ returned d'
          → SameDecision d d' s o.1
      both (returned d₁, s', events) h e =
          subst (λ d₂. SameDecision d d₂ s s') (of_returned e) (h d checked)
      both (raised x, s', events) h e = cc
