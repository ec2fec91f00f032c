-- ===== src/RateLimiter/Bound.antt =====
-- No window of the rate limiter (agent/providers/provider_rate_limiter.py) has more requests than the
-- capacity.
use mitigate_ai_platform.Prelude.{
  ℕ, ◌+◌, ◌≤◌, String, Bool, true, ◌&&◌, Option, none, some, List, [], ◌∷◌, leb, All, All-mono,
  Attempt, ◌≡◌, ◌∙◌, refl, ap, arith,
}
use mitigate_ai_platform.RateLimiter.{
  LimiterError, Limit, Entry, State, Reason, Decision, window, is_live, register_in, capacity,
}
use mitigate_ai_platform.RateLimiter.Window.{count, verdict, logged, is_none, IsSound, Tracks}
use mitigate_ai_platform.RateLimiter.Refines.{
  register_in-Agrees, register_all, log_after, InOrder, if_allowed, accepted, fresh, Tracks-fresh,
}

-- Whether the entry is in the window that ends at `t`.
abbrev pub is_within : ℕ → ℕ → Entry → Bool
is_within w t e = leb e.1 t && is_live w t e

count_mono :
    (p q : Entry → Bool) (xs : List Entry)
    → All (λ e. p e ≡ true → q e ≡ true) xs
    → count p xs ≤ count q xs
unfolding count
count_mono p q [] h = omega arith
count_mono p q (x ∷ xs) h = let first = h.0 in ground (arith, count_mono p q xs h.1, first)

-- An accepted request is the newest of each window that it is in.
IsSound-bound :
    (c : Limit) (t : ℕ) (log : List Entry)
    → IsSound c log
    → count (is_within (window c) t) log ≤ capacity c
unfolding count
IsSound-bound c t [] h = omega arith
IsSound-bound c t (e ∷ log) (room, past, sound) =
    let rest = IsSound-bound c t log sound in
    let fewer : e.1 ≤ t → count (is_within (window c) t) log ≤ count (is_live (window c) e.1) log =
      λ h. count_mono _ _ log (All-mono _ _ (λ d le k. ground (arith, h, k)) log past) in
    ground (arith, rest, fewer, room)

module _ (pid : String) (c : Limit) (enabled : c.enabled ≡ true) where
  -- The accepted requests of a run, and the log.
  accepted-log :
      (calls : List Entry) (t : ℕ) (s : State) (log : List Entry) (p : Entry → Bool)
      → Tracks c t s log
      → InOrder c t calls
      → (count p (accepted (register_all pid calls s).0) + count p log
          ≡ count p (log_after c calls log))
        × IsSound c (log_after c calls log)
  unfolding register_all log_after accepted count
  accepted-log [] t s log p tr h = (omega arith, tr.sound)
  accepted-log ((rid, now) ∷ es) t s log p tr (later, wide, small, rest) =
      let step = register_in-Agrees pid c enabled rid now t s log tr later wide small in
      let (sum, sound) =
        accepted-log es now (register_in pid rid now s).1
          (logged (verdict c log (rid, now)) (rid, now) log) p step.tracks rest in
      (
        ap (λ r. count p (accepted (r ∷ others)) + count p log) step.answered
            ∙ ap
                (λ b.
                  count p (
                    if_allowed b (step.decision.request_id, step.decision.evaluated_at)
                      (accepted others))
                  + count p log)
                (step.allowed ∙ ap is_none step.blocked)
            ∙ ap
                (λ e.
                  count p (if_allowed (is_none (verdict c log (rid, now))) e (accepted others))
                  + count p log)
                step.asked
            ∙ either (verdict c log (rid, now)) (accepted others)
            ∙ sum,
        sound,
      )
    where
      others : List (Attempt LimiterError Decision)
      others = (register_all pid es (register_in pid rid now s).1).0

      either :
          (v : Option Reason) (rest : List Entry)
          → count p (if_allowed (is_none v) (rid, now) rest) + count p log
            ≡ count p rest + count p (logged v (rid, now) log)
      either none rest = ground arith
      either (some why) rest = refl

  -- The limit is kept: for an enabled limit, a project without entries, and calls whose times do not go
  -- back and whose windows are times of `datetime`, in every window that ends at any time `t` no more
  -- requests are allowed by `check_and_register` than the capacity.
  pub register_all-within :
      (calls : List Entry) (t : ℕ)
      → InOrder c 0 calls
      → count (is_within (window c) t) (accepted (register_all pid calls (fresh c)).0) ≤ capacity c
  unfolding count
  register_all-within calls t h =
      let (sum, sound) =
        accepted-log calls 0 (fresh c) [] (is_within (window c) t) (Tracks-fresh c) h in
      let bound = IsSound-bound c t (log_after c calls []) sound in omega arith
