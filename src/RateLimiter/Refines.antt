-- ===== src/RateLimiter/Refines.antt =====
-- The rate limiter (agent/providers/provider_rate_limiter.py) decides as a log of all the requests that
-- were ever accepted decides, over sequences of calls.
use mitigate_ai_platform.Prelude.{
  ℕ, suc, ◌+◌, ◌-◌, ◌≤◌, String, Bool, true, false, Option, none, some, List, [], ◌∷◌, ◌++◌, leb,
  if◌then◌else◌, filter_by, length, map, All, All-mono, All-append, All-filter_by, Attempt,
  returned, raised, ◌≡◌, ◌∙◌, refl, sym, ap, subst, arith,
}
use mitigate_ai_platform.RateLimiter.{
  LimiterError, Limit, Entry, State, Reason, duplicate_request, rate_limit_exceeded, Decision,
  max_time, window, is_live, prune, has_id, refused, granted, warning, request_blocked,
  request_registered, capacity, enforce, register_in,
}
use mitigate_ai_platform.RateLimiter.Window.{
  verdict, logged, Tracks, Agrees, recent_id, recent_length, Tracks-kept, stored, Tracks-stored,
  compute_reset_at-returns,
}

module _ (pid : String) (c : Limit) (enabled : c.enabled ≡ true) where
  -- The call under an enabled limit.
  register_in_limited :
      (rid : String) (now : ℕ) (s : State)
      → s.config ≡ some c
      → window c ≤ now
      → register_in pid rid now s
        ≡ enforce pid rid now c s (filter_by (is_live (window c) now) s.entries)
  unfolding register_in prune
  register_in_limited rid now s limited wide =
      let within : leb (window c) now ≡ true = ground arith in
      rw limited (rw enabled (rw within refl))

  pub register_in-Agrees :
      (rid : String) (now t : ℕ) (s : State) (log : List Entry)
      → Tracks c t s log
      → t ≤ now
      → window c ≤ now
      → now + window c ≤ max_time
      → Agrees pid c (rid, now) log (register_in pid rid now s).0 (register_in pid rid now s).1
  register_in-Agrees rid now t s log tr later wide small =
      subst (λ o. Agrees pid c (rid, now) log o.0 o.1)
        (sym (register_in_limited rid now s tr.limited wide))
        (cases (has_id rid left) refl (leb (capacity c) (length left)) refl)
    where
      left : List Entry
      left = filter_by (is_live (window c) now) s.entries

      past : All (λ e. e.1 ≤ now) left
      past =
          All-filter_by _ (is_live (window c) now) s.entries
            (All-mono _ _ (λ e h. omega arith) s.entries tr.past)

      by_log : verdict c log (rid, now) ≡ (
          if has_id rid left
          then some duplicate_request
          else if leb (capacity c) (length left)
          then some rate_limit_exceeded
          else none)
      by_log =
          unfold verdict in
          rw (sym (recent_id pid c rid now t s log tr later))
            (rw (sym (recent_length pid c rid now t s log tr later)) refl)

      refusal :
          (why : Reason) (remaining reset : Option ℕ)
          → verdict c log (rid, now) ≡ some why
          → enforce pid rid now c s left ≡ (
            returned (refused why remaining reset pid rid now),
            s,
            request_blocked pid rid now why ∷ [],
          )
          → Agrees pid c
              (rid, now)
              log
              (enforce pid rid now c s left).0
              (enforce pid rid now c s left).1
      refusal why remaining reset v e =
          subst (λ o. Agrees pid c (rid, now) log o.0 o.1) (sym e)
            (record {
              decision = refused why remaining reset pid rid now;
              answered = refl;
              blocked = sym v;
              allowed = refl;
              asked = refl;
              tracks = rw v (Tracks-kept pid c rid now t s log tr later);
            })

      acceptance :
          (reset : Option ℕ)
          → verdict c log (rid, now) ≡ none
          → suc (length (filter_by (is_live (window c) now) log)) ≤ capacity c
          → enforce pid rid now c s left ≡ (
            returned (granted (capacity c - length (left ++ (rid, now) ∷ [])) reset pid rid now),
            stored pid c rid now t s log tr later,
            request_registered pid rid now (capacity c - length (left ++ (rid, now) ∷ []))
                ∷ warning pid now (capacity c - length (left ++ (rid, now) ∷ [])) (capacity c),
          )
          → Agrees pid c
              (rid, now)
              log
              (enforce pid rid now c s left).0
              (enforce pid rid now c s left).1
      acceptance reset v room e =
          subst (λ o. Agrees pid c (rid, now) log o.0 o.1) (sym e)
            (record {
              decision = granted (capacity c - length (left ++ (rid, now) ∷ [])) reset pid rid now;
              answered = refl;
              blocked = sym v;
              allowed = refl;
              asked = refl;
              tracks = rw v (Tracks-stored pid c rid now t s log tr later room);
            })

      cases :
          (b : Bool)
          → has_id rid left ≡ b
          → (full : Bool) → leb (capacity c) (length left) ≡ full
          → Agrees pid c
              (rid, now)
              log
              (enforce pid rid now c s left).0
              (enforce pid rid now c s left).1
      cases true dup full k =
          let (reset, run) = compute_reset_at-returns (window c) now left past small in
          refusal duplicate_request none reset (by_log ∙ (rw dup refl))
            (unfold enforce in rw dup (rw run refl))
      cases false new true k =
          let (reset, run) = compute_reset_at-returns (window c) now left past small in
          refusal rate_limit_exceeded (some 0) reset (by_log ∙ (rw new (rw k refl)))
            (unfold enforce in rw new (rw k (rw run refl)))
      cases false new false k =
          let more = left ++ (rid, now) ∷ [] in
          let (reset, run) =
            compute_reset_at-returns (window c) now more
              (All-append _ left _ past (omega arith, tt)) small in
          acceptance reset (by_log ∙ (rw new (rw k refl)))
            (let size = recent_length pid c rid now t s log tr later in ground (arith, k, size))
            (unfold enforce in rw new (rw k (rw run refl)))

-- The calls of one project, one after another: the request ids and the times they are given.
unfoldable pub register_all :
    String → List Entry → State → List (Attempt LimiterError Decision) × State
unfolding register_in
register_all pid [] s = ([], s)
register_all pid (e ∷ es) s =
    let first = register_in pid e.0 e.1 s in
    let rest = register_all pid es first.1 in (first.0 ∷ rest.0, rest.1)

-- The decisions by the log, and the log that they make.
unfoldable pub verdicts : Limit → List Entry → List Entry → List (Option Reason)
unfolding verdict
verdicts c [] log = []
verdicts c (e ∷ es) log = verdict c log e ∷ verdicts c es (logged (verdict c log e) e log)

unfoldable pub log_after : Limit → List Entry → List Entry → List Entry
unfolding verdict
log_after c [] log = log
log_after c (e ∷ es) log = log_after c es (logged (verdict c log e) e log)

-- The times do not go back, and the window about each of them is one of `datetime`.
abbrev pub InOrder : Limit → ℕ → List Entry → Type 0
InOrder c t [] = Unit
InOrder c t (e ∷ es) = (t ≤ e.1) × (window c ≤ e.1) × (e.1 + window c ≤ max_time) × InOrder c e.1 es

abbrev pub reason_of : Attempt LimiterError Decision → Attempt LimiterError (Option Reason)
reason_of (returned d) = returned d.blocked_reason
reason_of (raised e) = raised e

abbrev pub if_allowed : Bool → Entry → List Entry → List Entry
if_allowed true e es = e ∷ es
if_allowed false e es = es

-- The requests that were allowed, with the times of the decisions.
unfoldable pub accepted : List (Attempt LimiterError Decision) → List Entry
accepted [] = []
accepted (returned d ∷ rs) =
    let rest = accepted rs in if_allowed d.allowed (d.request_id, d.evaluated_at) rest
accepted (raised e ∷ rs) = accepted rs

-- A project with a limit and no entries.
abbrev pub fresh : Limit → State
fresh c = record { config = some c; entries = [] }

pub Tracks-fresh : (c : Limit) → Tracks c 0 (fresh c) []
Tracks-fresh c = record {
  limited = refl;
  same = λ now h p. refl;
  past = tt;
  past_log = tt;
  sound = tt;
}

module _ (pid : String) (c : Limit) (enabled : c.enabled ≡ true) where
  verdicts-eq :
      (calls : List Entry) (t : ℕ) (s : State) (log : List Entry)
      → Tracks c t s log
      → InOrder c t calls
      → map reason_of (register_all pid calls s).0 ≡ map returned (verdicts c calls log)
  unfolding register_all verdicts
  verdicts-eq [] t s log tr h = refl
  verdicts-eq ((rid, now) ∷ es) t s log tr (later, wide, small, rest) =
      let step = register_in-Agrees pid c enabled rid now t s log tr later wide small in
      let again =
        verdicts-eq es now (register_in pid rid now s).1
          (logged (verdict c log (rid, now)) (rid, now) log) step.tracks rest in
      ap (λ r. reason_of r ∷ map reason_of (register_all pid es (register_in pid rid now s).1).0)
        step.answered
      ∙ ap (λ v. returned v ∷ map reason_of (register_all pid es (register_in pid rid now s).1).0)
          step.blocked
      ∙ ap (λ vs. returned (verdict c log (rid, now)) ∷ vs) again

  -- The limiter refines the log: for an enabled limit, a project without entries, and calls whose
  -- times do not go back and whose windows are times of `datetime`, `check_and_register` raises
  -- nothing and answers each call as the log of all the accepted requests does, that is, as a
  -- duplicate if the id was accepted within the window, as over the limit if the accepted requests
  -- within the window reach the capacity, and as allowed otherwise.
  pub register_all-verdicts :
      (calls : List Entry)
      → InOrder c 0 calls
      → map reason_of (register_all pid calls (fresh c)).0 ≡ map returned (verdicts c calls [])
  register_all-verdicts calls h = verdicts-eq calls 0 (fresh c) [] (Tracks-fresh c) h
