-- ===== src/Capabilities/Answers.antt =====
-- When the router of agent/resilience/capability_kernel.py answers.
use mitigate_ai_platform.Prelude.{
  ℕ, none, String, true, false, List, [], ◌∷◌, ◌++◌, map, ◌==◌, contains, prefix, Bool-cases, ◌⊎◌,
  inl, inr, Attempt, returned, raised, Attempt-cases, ◌≡◌, ◌∙◌, refl, sym, ap, subst, ℤ, sort_by,
  filter_by, All, All-mono, All-sort_by, All-filter_by, Elem, Elem-sort_by, Elem-filter_by, strip,
  is_empty,
}
use mitigate_ai_platform.Capabilities.{
  CapabilityProvider, healthy, RegisteredProvider, KernelError, provider_not_found, Answer,
  Registry, keys, get, update, with_health, succeeded, failed_with, register, record_success,
  record_failure, offers, preferred, providers_for, route, execute, attempt_any,
}
use mitigate_ai_platform.Capabilities.Routing.{answer_of}
use mitigate_ai_platform.Capabilities.Breaker.{keys-update, get_known, with_health-ok}

module _ {P V : Type 0} where
  -- The provider can be looked up by its own id.
  abbrev pub IsKnown : Registry P V → RegisteredProvider P V → Type 0
  IsKnown reg r = contains r.provider.provider_id (keys reg) ≡ true

  record_success-ok :
      (key : String) (reg : Registry P V)
      → contains key (keys reg) ≡ true
      → record_success key reg ≡ returned (update key succeeded reg)
  unfolding record_success
  record_success-ok key reg k = with_health-ok key succeeded reg (get_known key reg k).1

  record_failure-ok :
      (threshold : ℕ) (key error : String) (reg : Registry P V)
      → contains key (keys reg) ≡ true
      → record_failure threshold key error reg
        ≡ returned (update key (failed_with threshold error) reg)
  unfolding record_failure
  record_failure-ok threshold key error reg k =
      with_health-ok key (failed_with threshold error) reg (get_known key reg k).1

  module _ (threshold : ℕ) (capability : String) (payload : P) where
    route-answers :
        (rs : List (RegisteredProvider P V)) (errors : List (String × String)) (reg : Registry P V)
        (x : RegisteredProvider P V) (v : V)
        → All (IsKnown reg) rs
        → Elem x rs
        → x.provider.perform capability payload ≡ returned v
        → (a : Answer V) × (reg' : Registry P V) × (route threshold capability payload rs errors reg
            ≡ (returned a, reg'))
    unfolding route
    route-answers [] errors reg x v k e h = absurd e
    route-answers (r ∷ rs) errors reg x v k e h =
        let key = r.provider.provider_id in
        elim (Attempt-cases (r.provider.perform capability payload)) [
          | inl (w, does) ↦ (
            answer_of r.provider w,
            update key succeeded reg,
            rw does (rw (record_success-ok key reg k.0) refl),
          )
          | inr (error, fails) ↦
              let reg₁ = update key (failed_with threshold error) reg in
              let k₁ : All (IsKnown reg₁) rs =
                All-mono (IsKnown reg) (IsKnown reg₁)
                  (λ y known.
                    ap (contains y.provider.provider_id)
                      (keys-update key (failed_with threshold error) reg)
                    ∙ known)
                  rs k.1 in
              let (a, reg', run) =
                route-answers rs (errors ++ (key, prefix 200 error) ∷ []) reg₁ x v k₁
                  (later error fails e) h in
              (a, reg', rw fails (rw (record_failure-ok threshold key error reg k.0) run))
        ]
      where
        later :
            (error : String)
            → r.provider.perform capability payload ≡ raised error
            → (r ≡ x) ⊎ Elem x rs
            → Elem x rs
        later error fails (inl same) =
            let clash : returned v ≡ raised error =
              sym h ∙ ap (λ y. y.provider.perform capability payload) (sym same) ∙ fails in
            cc
        later error fails (inr m) = m

    All-seconds :
        (Q : RegisteredProvider P V → Type 0) (reg : Registry P V)
        → All (λ e. Q e.1) reg
        → All Q (map (λ e. e.1) reg)
    All-seconds Q [] k = tt
    All-seconds Q (e ∷ es) k = (k.0, All-seconds Q es k.1)

    -- The router answers whenever some provider can: if every provider of the registry can be looked up
    -- by its own id, and a provider that offers the capability and is neither unavailable nor isolated
    -- returns on the payload, then `execute` returns an answer.
    pub execute-answers :
        (reg : Registry P V) (x : RegisteredProvider P V) (v : V)
        → All (λ e. IsKnown reg e.1) reg
        → Elem x (map (λ e. e.1) reg)
        → offers capability x ≡ true
        → x.provider.perform capability payload ≡ returned v
        → (a : Answer V) × (reg' : Registry P V) × (execute threshold capability payload reg
            ≡ (returned a, reg'))
    unfolding execute providers_for
    execute-answers reg x v known e may h =
        let all = map (λ e. e.1) reg in
        let fits = filter_by (offers capability) all in
        start (sort_by preferred fits)
          (All-sort_by (IsKnown reg) preferred fits (
            All-filter_by (IsKnown reg) (offers capability) all
              (All-seconds (IsKnown reg) reg known)))
          (Elem-sort_by preferred x fits (Elem-filter_by (offers capability) x all e may))
      where
        start :
            (rs : List (RegisteredProvider P V))
            → All (IsKnown reg) rs
            → Elem x rs
            → (a : Answer V) × (reg' : Registry P V) × (attempt_any threshold capability payload rs
                  reg
                ≡ (returned a, reg'))
        start [] k m = absurd m
        start (r ∷ rs) k m = route-answers (r ∷ rs) [] reg x v k m h

    abbrev fresh_entry : String → CapabilityProvider P V → ℤ → RegisteredProvider P V
    fresh_entry key p priority = record {
      provider = p;
      priority = priority;
      health = record {
        provider_id = key;
        state = healthy;
        consecutive_failures = 0;
        last_error = none;
      };
    }

    -- The only entry has a key that is not the id of its provider.
    lone-lost :
        (key : String) (p : CapabilityProvider P V) (priority : ℤ) (v : V)
        → (key == p.provider_id) ≡ false
        → contains capability p.capabilities ≡ true
        → p.perform capability payload ≡ returned v
        → (execute threshold capability payload ((key, fresh_entry key p priority) ∷ [])).0
          ≡ raised provider_not_found
    unfolding execute providers_for offers route record_success with_health get sort_by
    lone-lost key p priority v padded may does = rw may (rw does (rw padded refl))

    -- An id with spaces around it is stripped as the key of the entry, but looked up as it is: a
    -- provider that is registered with such an id into an empty registry, and that offers the
    -- capability and returns on the payload, is lost, since `execute` raises that it is not found.
    pub padded-lost :
        (p : CapabilityProvider P V) (priority : ℤ) (reg : Registry P V) (v : V)
        → register p priority [] ≡ returned reg
        → (strip p.provider_id == p.provider_id) ≡ false
        → contains capability p.capabilities ≡ true
        → p.perform capability payload ≡ returned v
        → (execute threshold capability payload reg).0 ≡ raised provider_not_found
    unfolding register
    padded-lost p priority reg v h padded may does =
        elim (Bool-cases (is_empty (strip p.provider_id))) [
          | inl blank ↦ cc (rw blank at h)
          | inr id ↦
              let same : ((strip p.provider_id, fresh_entry (strip p.provider_id) p priority) ∷ [])
                  ≡ reg =
                inner (rw id at h) in
              subst
                (λ reg₁. (execute threshold capability payload reg₁).0 ≡ raised provider_not_found)
                same (lone-lost (strip p.provider_id) p priority v padded may does)
        ]
      where
        inner :
            {x y : Registry P V}
            → ◌≡◌ {A = Attempt KernelError (Registry P V)} (returned x) (returned y)
            → x ≡ y
        inner e = cc
