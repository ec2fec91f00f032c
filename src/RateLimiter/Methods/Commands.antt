-- ===== src/RateLimiter/Methods/Commands.antt =====
-- What sequences of calls of the rate limiter (agent/providers/provider_rate_limiter.py) keep.
use mitigate_ai_platform.Prelude.{
  ℕ, All, String, Bool, false, some, List, [], ◌∷◌, ◌==◌, and_then, Attempt, returned, raised,
  Ensures-returned, Bool-cases, inl, inr, ◌≡◌, ◌∙◌, refl,
}
use mitigate_ai_platform.RateLimiter.{
  LimiterError, Limit, Outcome, limit_configured, register_in, check_in,
}
use mitigate_ai_platform.RateLimiter.Config.{
  Limiter, RawLimit, validate_new_config, validate_update_fields, load_state, commit,
}
use mitigate_ai_platform.RateLimiter.Methods.{
  emptied, update_in, remove_in, remaining_in, project_status, check_project, check_both,
  configure_limit, update_limit, get_limit, remove_limit, check_request, check_and_register,
  remaining, status, guarded, configured,
}
use mitigate_ai_platform.RateLimiter.Methods.Keep.{
  IsLimit, HasLimit, validate_new_config-Ensures, register_in-HasLimit, update_in-HasLimit,
}

pub data Command : Type 0 where
  configure update : String → RawLimit → Command
  get remove : String → Command
  check register : (project_id request_id : String) → ℕ → Command
  ask_remaining ask_status : String → ℕ → Command

module _ (known : String → Bool) where
  -- The limiter after a call.
  unfoldable pub exec : Command → Limiter → Limiter
  unfolding configure_limit update_limit get_limit remove_limit check_request check_and_register
      remaining status
  exec (configure pid raw) l = (configure_limit known pid raw l).1
  exec (update pid raw) l = (update_limit known pid raw l).1
  exec (get pid) l = (get_limit known pid l).1
  exec (remove pid) l = (remove_limit known pid l).1
  exec (check pid rid now) l = (check_request known pid rid now l).1
  exec (register pid rid now) l = (check_and_register known pid rid now l).1
  exec (ask_remaining pid now) l = (remaining known pid now l).1
  exec (ask_status pid now) l = (status known pid now l).1

  unfoldable pub exec_all : List Command → Limiter → Limiter
  unfolding exec
  exec_all [] l = l
  exec_all (k ∷ ks) l = exec_all ks (exec k l)

-- The project that a command is about.
abbrev pub subject : Command → String
subject (configure pid raw) = pid
subject (update pid raw) = pid
subject (get pid) = pid
subject (remove pid) = pid
subject (check pid rid now) = pid
subject (register pid rid now) = pid
subject (ask_remaining pid now) = pid
subject (ask_status pid now) = pid

-- Every project has a limit in order, or none.
abbrev pub IsOrderly : Limiter → Type 0
IsOrderly l = (q : String) → HasLimit (load_state q l)

-- What a call may do to a limiter: keep it orderly, and change the state of its own project alone.
record Decent (pid : String) (l l' : Limiter) : Type 0 where
  orderly : IsOrderly l → IsOrderly l'
  others : (q : String) → pid == q ≡ false → l'.states q ≡ l.states q

Decent-same : (pid : String) (l : Limiter) → Decent pid l l
Decent-same pid l = record { orderly = λ h. h; others = λ q k. refl }

Decent-commit :
    {A : Type 0} (pid : String) (l : Limiter) (o : Outcome A)
    → (HasLimit (load_state pid l) → HasLimit o.1)
    → Decent pid l (commit pid l o).1
unfolding commit load_state
Decent-commit pid l o h = record {
  orderly = λ old q. elim (Bool-cases (pid == q)) [
    | inl same ↦ rw same (h (old pid))
    | inr other ↦ rw other (old q)
  ];
  others = λ q k. rw k refl;
}

Decent-guarded :
    {A : Type 0} (pid : String) (l : Limiter) (m : Attempt LimiterError (Unit {0}))
    (after : Attempt LimiterError A × Limiter)
    → Decent pid l after.1
    → Decent pid l (guarded l m after).1
Decent-guarded pid l (returned u) after h = h
Decent-guarded pid l (raised e) after h = Decent-same pid l

Decent-configured :
    (pid : String) (l : Limiter) (m : Attempt LimiterError Limit)
    → ((c : Limit) → m ≡ returned c → IsLimit (some c))
    → Decent pid l (configured pid l m).1
Decent-configured pid l (returned c) h =
    Decent-commit pid l (returned c, emptied (some c), limit_configured c ∷ []) (λ _. h c refl)
Decent-configured pid l (raised e) h = Decent-same pid l

-- The methods that only read.
Decent-read :
    {A : Type 0} (pid : String) (l : Limiter) (m : Attempt LimiterError (Unit {0}))
    (r : Attempt LimiterError A)
    → Decent pid l (guarded l m (commit pid l (r, load_state pid l, []))).1
Decent-read pid l m r =
    Decent-guarded pid l m _ (Decent-commit pid l (r, load_state pid l, []) (λ h. h))

module _ (known : String → Bool) where
  exec-Decent : (k : Command) (l : Limiter) → Decent (subject k) l (exec known k l)
  unfolding exec
  exec-Decent (configure pid raw) l = Decent-guarded pid l (check_project known pid) _ (
      Decent-configured pid l (validate_new_config pid raw) λ c e.
        Ensures-returned (validate_new_config pid raw) (validate_new_config-Ensures pid raw) e)
  exec-Decent (update pid raw) l =
      Decent-guarded pid l (and_then (check_project known pid) λ _. validate_update_fields raw) _ (
        Decent-commit pid l (update_in raw (load_state pid l))
          (update_in-HasLimit raw (load_state pid l).config (load_state pid l).entries))
  exec-Decent (get pid) l =
      Decent-read pid l (check_project known pid) (returned (load_state pid l).config)
  exec-Decent (remove pid) l =
      Decent-guarded pid l (check_project known pid) _
        (Decent-commit pid l (remove_in pid (load_state pid l)) λ _. unfold remove_in in tt)
  exec-Decent (check pid rid now) l =
      Decent-read pid l (check_both known pid rid) (check_in pid rid now (load_state pid l))
  exec-Decent (register pid rid now) l = Decent-guarded pid l (check_both known pid rid) _ (
      Decent-commit pid l (register_in pid rid now (load_state pid l))
        (register_in-HasLimit pid rid now (load_state pid l).config (load_state pid l).entries))
  exec-Decent (ask_remaining pid now) l =
      Decent-read pid l (check_project known pid) (remaining_in now (load_state pid l))
  exec-Decent (ask_status pid now) l =
      Decent-read pid l (check_project known pid) (project_status now (load_state pid l))

  -- Any sequence of calls, whatever their arguments and times are, keeps two things: if each limit that
  -- is stored has a positive request limit and a positive window, so it is after the calls; and the
  -- state file of a project that is the subject of none of the calls is as it was.
  pub exec_all-keeps :
      (ks : List Command) (l : Limiter) (q : String)
      → IsOrderly l
      → IsOrderly (exec_all known ks l)
        × (All (λ k. subject k == q ≡ false) ks → (exec_all known ks l).states q ≡ l.states q)
  unfolding exec_all
  exec_all-keeps [] l q h = (h, λ a. refl)
  exec_all-keeps (k ∷ ks) l q h =
      let one = exec-Decent k l in
      let (orderly, same) = exec_all-keeps ks (exec known k l) q (one.orderly h) in
      (orderly, λ a. same a.1 ∙ one.others q a.0)
