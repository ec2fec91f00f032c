-- ===== src/RateLimiter/Window.antt =====
-- The window of the rate limiter (agent/providers/provider_rate_limiter.py) against a log of all the
-- requests that were ever accepted.
use mitigate_ai_platform.Prelude.{
  ℕ, suc, ◌+◌, ◌≤◌, String, Bool, true, false, ◌&&◌, Option, none, some, List, [], ◌∷◌, ◌++◌, ◌==◌,
  leb, ltb, if◌then◌else◌, any, filter_by, sort_by, insert_by, length, All, All-mono, All-append,
  All-filter_by, All-sort_by, Attempt, returned, ◌≡◌, ◌∙◌, refl, sym, ap, subst, arith,
}
use mitigate_ai_platform.RateLimiter.{
  LimiterError, Limit, Entry, State, Reason, duplicate_request, rate_limit_exceeded, Decision,
  max_time, window, is_live, has_id, earlier, earliest, compute_reset_at, capacity, written,
}

-- How many entries pass the test.
unfoldable pub count : (Entry → Bool) → List Entry → ℕ
count p [] = 0
count p (e ∷ es) = let rest = count p es in if p e then suc rest else rest

pub count-append :
    (p : Entry → Bool) (xs ys : List Entry) → count p (xs ++ ys) ≡ count p xs + count p ys
unfolding count
count-append p [] ys = omega arith
count-append p (x ∷ xs) ys = ground (arith, count-append p xs ys)

count-insert_by :
    (p : Entry → Bool) (before : Entry → Entry → Bool) (x : Entry) (xs : List Entry)
    → count p (insert_by before x xs) ≡ count p (x ∷ xs)
unfolding count insert_by
count-insert_by p before x [] = refl
count-insert_by p before x (y ∷ ys) = ground (arith, count-insert_by p before x ys)

count-sort_by :
    (p : Entry → Bool) (before : Entry → Entry → Bool) (xs : List Entry)
    → count p (sort_by before xs) ≡ count p xs
unfolding count sort_by
count-sort_by p before [] = refl
count-sort_by p before (x ∷ xs) =
    ground (arith, count-insert_by p before x (sort_by before xs), count-sort_by p before xs)

count-written : (p : Entry → Bool) (xs : List Entry) → count p (written xs) ≡ count p xs
unfolding written
count-written p xs = count-sort_by p _ (sort_by _ xs) ∙ count-sort_by p _ xs

count-filter_by :
    (p q : Entry → Bool) (xs : List Entry) → count p (filter_by q xs) ≡ count (λ e. p e && q e) xs
unfolding count
count-filter_by p q [] = refl
count-filter_by p q (x ∷ xs) = ground (arith, count-filter_by p q xs)

pub count_ext :
    (p q : Entry → Bool) (xs : List Entry) → All (λ e. p e ≡ q e) xs → count p xs ≡ count q xs
unfolding count
count_ext p q [] h = refl
count_ext p q (x ∷ xs) h = let same = h.0 in ground (arith, count_ext p q xs h.1, same)

pub All-any : {P : Entry → Type 0} → ((e : Entry) → P e) → (xs : List Entry) → All P xs
All-any f [] = tt
All-any f (x ∷ xs) = (f x, All-any f xs)

pub length-filter_by : (q : Entry → Bool) (xs : List Entry) → length (filter_by q xs) ≡ count q xs
unfolding count
length-filter_by q [] = refl
length-filter_by q (x ∷ xs) = ground (arith, length-filter_by q xs)

any-filter_by :
    (p q : Entry → Bool) (xs : List Entry)
    → any p (filter_by q xs) ≡ ltb 0 (count (λ e. p e && q e) xs)
unfolding count
any-filter_by p q [] = refl
any-filter_by p q (x ∷ xs) = ground (arith, any-filter_by p q xs)

-- The reset time does not overflow when the entries are not later than `t`.
earliest-le :
    (t : ℕ) (es : List Entry) (e : Entry)
    → All (λ d. d.1 ≤ t) (e ∷ es)
    → earlier e.1 (earliest es) ≤ t
unfolding earliest
earliest-le t [] e h = h.0
earliest-le t (d ∷ es) e h =
    let rest = earliest-le t es d h.1 in let first = h.0 in ground (arith, rest, first)

pub compute_reset_at-returns :
    (w t : ℕ) (entries : List Entry)
    → All (λ e. e.1 ≤ t) entries
    → t + w ≤ max_time
    → (reset : Option ℕ) × (compute_reset_at w entries ≡ returned reset)
unfolding compute_reset_at earliest
compute_reset_at-returns w t [] h small = (none, refl)
compute_reset_at-returns w t (e ∷ es) h small =
    let le = earliest-le t es e h in
    let fits : leb (earlier e.1 (earliest es) + w) max_time ≡ true = ground (arith, le) in
    (some (earlier e.1 (earliest es) + w), rw fits refl)

-- The decision by the log: which of the accepted requests are in the window at `now`.
unfoldable pub verdict : Limit → List Entry → Entry → Option Reason
verdict c log (rid, now) =
    let recent = filter_by (is_live (window c) now) log in
    if has_id rid recent
    then some duplicate_request
    else if leb (capacity c) (length recent)
    then some rate_limit_exceeded
    else none

abbrev pub logged : Option Reason → Entry → List Entry → List Entry
logged none e log = e ∷ log
logged (some why) e log = log

-- Each request of the log was accepted under the capacity, and the newest is the first.
abbrev pub IsSound : Limit → List Entry → Type 0
IsSound c [] = Unit
IsSound c (e ∷ log) =
    (suc (count (is_live (window c) e.1) log) ≤ capacity c)
    × All (λ d. d.1 ≤ e.1) log
    × IsSound c log

-- The state of a project at `t`, and the log: at any later time, the same entries are in the window.
pub record Tracks (c : Limit) (t : ℕ) (s : State) (log : List Entry) : Type 0 where
  pub limited : s.config ≡ some c
  pub same :
      (now : ℕ)
      → t ≤ now
      → (p : Entry → Bool)
      → count (λ e. p e && is_live (window c) now e) s.entries
        ≡ count (λ e. p e && is_live (window c) now e) log
  pub past : All (λ e. e.1 ≤ t) s.entries
  pub past_log : All (λ e. e.1 ≤ t) log
  pub sound : IsSound c log

abbrev pub is_none : Option Reason → Bool
is_none none = true
is_none (some why) = false

-- One answer of the limiter, and the log after it.
pub record Agrees (pid : String) (c : Limit) (e : Entry) (log : List Entry)
    (r : Attempt LimiterError Decision) (after : State) : Type 0 where
  pub decision : Decision
  pub answered : r ≡ returned decision
  pub blocked : decision.blocked_reason ≡ verdict c log e
  pub allowed : decision.allowed ≡ is_none decision.blocked_reason
  pub asked : (decision.request_id, decision.evaluated_at) ≡ e
  pub tracks : Tracks c e.1 after (logged (verdict c log e) e log)

module _ (pid : String) (c : Limit) (rid : String) (now : ℕ) (t : ℕ) (s : State) (log : List Entry)
    (tr : Tracks c t s log) (later : t ≤ now) where
  abbrev pub live : Entry → Bool
  live e = is_live (window c) now e

  pub recent_id : has_id rid (filter_by live s.entries) ≡ has_id rid (filter_by live log)
  recent_id =
      any-filter_by (λ e. e.0 == rid) live s.entries
      ∙ ap (λ n. ltb 0 n) (tr.same now later (λ e. e.0 == rid))
      ∙ sym (any-filter_by (λ e. e.0 == rid) live log)

  pub recent_length : length (filter_by live s.entries) ≡ length (filter_by live log)
  recent_length =
      length-filter_by live s.entries
      ∙ tr.same now later (λ e. true)
      ∙ sym (length-filter_by live log)

  not_later : (e : Entry) → e.1 ≤ t → e.1 ≤ now
  not_later e h = omega arith

  -- Nothing is stored.
  pub Tracks-kept : Tracks c now s log
  Tracks-kept = record {
    limited = tr.limited;
    same = λ now' h p. tr.same now' (omega (arith, h)) p;
    past = All-mono _ _ not_later s.entries tr.past;
    past_log = All-mono _ _ not_later log tr.past_log;
    sound = tr.sound;
  }

  abbrev pub stored : State
  stored = record {
    config = s.config;
    entries = written (filter_by live s.entries ++ (rid, now) ∷ []);
  }

  -- The new entry is stored with those that are left, and logged.
  pub Tracks-stored :
      suc (length (filter_by live log)) ≤ capacity c → Tracks c now stored ((rid, now) ∷ log)
  unfolding count written
  Tracks-stored room = record {
    limited = tr.limited;
    same = same';
    past = All-sort_by _ _ _ (
        All-sort_by _ _ _ (
          All-append _ (filter_by live s.entries) _ (All-filter_by _ live s.entries past')
            (omega arith, tt)));
    past_log = (omega arith, All-mono _ _ not_later log tr.past_log);
    sound = (
      subst (λ n. suc n ≤ capacity c) (length-filter_by live log) room,
      All-mono _ _ not_later log tr.past_log,
      tr.sound,
    );
  }
    where
      past' : All (λ e. e.1 ≤ now) s.entries
      past' = All-mono _ _ not_later s.entries tr.past

      still :
          (now' : ℕ)
          → now ≤ now'
          → (p : Entry → Bool) (e : Entry)
          → ((p e && is_live (window c) now' e) && live e) ≡ (p e && is_live (window c) now' e)
      still now' h p e = ground (arith, h)

      same' :
          (now' : ℕ)
          → now ≤ now'
          → (p : Entry → Bool)
          → count (λ e. p e && is_live (window c) now' e) stored.entries
            ≡ count (λ e. p e && is_live (window c) now' e) ((rid, now) ∷ log)
      same' now' h p =
          let q : Entry → Bool = λ e. p e && is_live (window c) now' e in
          let old : count q (filter_by live s.entries) ≡ count q log =
            count-filter_by q live s.entries
            ∙ count_ext (λ e. q e && live e) q s.entries (All-any (still now' h p) s.entries)
            ∙ tr.same now' (omega arith) p in
          count-written q (filter_by live s.entries ++ (rid, now) ∷ [])
          ∙ count-append q (filter_by live s.entries) ((rid, now) ∷ [])
          ∙ ground (arith, old)
