-- ===== src/Capabilities/Breaker.antt =====
-- The circuit breaker of agent/resilience/capability_kernel.py: what successes and failures make of
-- the health of a provider.
use mitigate_ai_platform.Prelude.{
  some, prefix, ℕ, ◌+◌, ◌≤◌, String, Bool, true, false, ◌&&◌, List, [], ◌∷◌, ◌==◌, leb, length,
  if◌then◌else◌, contains, Bool-cases, inl, inr, Attempt, returned, and_then, ◌≡◌, refl, ap, arith,
}
use mitigate_ai_platform.Capabilities.{
  ProviderState, healthy, degraded, unavailable, isolated, CapabilityHealth, RegisteredProvider,
  KernelError, Registry, keys, get, update, with_health, succeeded, failed_with, record_success,
  record_failure, is_available, is_isolated, offers, isolate,
}

-- What `isolate` makes of the health of a provider.
abbrev isolated_for : String → CapabilityHealth → CapabilityHealth
isolated_for reason h = record h { state = isolated; last_error = some (prefix 500 reason) }

module _ {P V : Type 0} where
  -- The entry of a provider with its health changed.
  abbrev pub changed :
      (CapabilityHealth → CapabilityHealth) → RegisteredProvider P V → RegisteredProvider P V
  changed f r = record r { health = f r.health }

  get-update :
      (key : String) (f : CapabilityHealth → CapabilityHealth) (reg : Registry P V)
      {r : RegisteredProvider P V}
      → get key reg ≡ returned r
      → get key (update key f reg) ≡ returned (changed f r)
  unfolding get update
  get-update key f [] h = cc
  get-update key f (e ∷ es) {r} h = elim (Bool-cases (e.0 == key)) [
    | inl k ↦
        let here : e.1 ≡ r = cc (rw k at h) in rw k (rw k (ap (λ x. returned (changed f x)) here))
    | inr k ↦ rw k (rw k (get-update key f es {r = r} (rw k at h)))
  ]

  pub keys-update :
      (key : String) (f : CapabilityHealth → CapabilityHealth) (reg : Registry P V)
      → keys (update key f reg) ≡ keys reg
  unfolding update
  keys-update key f [] = refl
  keys-update key f (e ∷ es) = elim (Bool-cases (e.0 == key)) [
    | inl k ↦ rw k refl
    | inr k ↦ rw k (ap (λ ks. e.0 ∷ ks) (keys-update key f es))
  ]

  pub get_known :
      (key : String) (reg : Registry P V)
      → contains key (keys reg) ≡ true
      → (r : RegisteredProvider P V) × (get key reg ≡ returned r)
  unfolding get contains
  get_known key [] h = cc
  get_known key (e ∷ es) h = elim (Bool-cases (e.0 == key)) [
    | inl k ↦ (e.1, rw k refl)
    | inr k ↦ let (r, at) = get_known key es (rw k at h) in (r, rw k at)
  ]

  pub with_health-ok :
      (key : String) (f : CapabilityHealth → CapabilityHealth) (reg : Registry P V)
      {r : RegisteredProvider P V}
      → get key reg ≡ returned r
      → with_health key f reg ≡ returned (update key f reg)
  unfolding with_health
  with_health-ok key f reg h = rw h refl

  -- One failure after another.
  unfoldable pub record_failures :
      ℕ → String → List String → Registry P V → Attempt KernelError (Registry P V)
  unfolding record_failure
  record_failures threshold key [] reg = returned reg
  record_failures threshold key (e ∷ es) reg =
      and_then (record_failure threshold key e reg) λ reg'. record_failures threshold key es reg'

  -- The failures of an entry after some more, and that it is isolated from the threshold on.
  counted_failures :
      (threshold : ℕ) (key : String) (errors : List String) (reg : Registry P V)
      (r : RegisteredProvider P V)
      → get key reg ≡ returned r
      → (leb threshold r.health.consecutive_failures ≡ true → is_isolated r.health.state ≡ true)
      → (reg' : Registry P V) × (r' : RegisteredProvider P V) × (record_failures threshold key
            errors reg
          ≡ returned reg')
        × (get key reg' ≡ returned r')
        × (r'.health.consecutive_failures ≡ r.health.consecutive_failures + length errors)
        × (leb threshold r'.health.consecutive_failures ≡ true → is_isolated r'.health.state ≡ true)
  unfolding record_failures record_failure
  counted_failures threshold key [] reg r at inv = (reg, r, refl, at, omega arith, inv)
  counted_failures threshold key (e ∷ es) reg r at inv =
      let f = failed_with threshold e in
      let step : (leb threshold (r.health.consecutive_failures + 1) ≡ true
          → is_isolated (f r.health).state ≡ true) =
        λ k. rw k refl in
      let (reg', r', run, at', count, inv') =
        counted_failures threshold key es (update key f reg) (changed f r) (get-update key f reg at)
          step in
      (reg', r', rw (with_health-ok key f reg at) run, at', omega arith, inv')

  -- A provider that fails `threshold` times in a row is isolated: for a registered
  -- provider without failures so far, and a threshold of at least 1, the failures are all recorded,
  -- and the provider is then no longer offered for any capability.
  pub failures-isolate :
      (threshold : ℕ) (key : String) (errors : List String) (reg : Registry P V)
      (r : RegisteredProvider P V) (capability : String)
      → get key reg ≡ returned r
      → r.health.consecutive_failures ≡ 0
      → 1 ≤ threshold
      → threshold ≤ length errors
      → (reg' : Registry P V) × (r' : RegisteredProvider P V) × (record_failures threshold key
            errors reg
          ≡ returned reg')
        × (get key reg' ≡ returned r')
        × (offers capability r' ≡ false)
  unfolding offers
  failures-isolate threshold key errors reg r capability at fresh low high =
      let (reg', r', run, at', count, inv) =
        counted_failures threshold key errors reg r at (λ k. ground (arith, k)) in
      let spent : leb threshold r'.health.consecutive_failures ≡ true = ground arith in
      (
        reg',
        r',
        run,
        at',
        hidden r'.health.state (inv spent) (contains capability r'.provider.capabilities),
      )
    where
      hidden :
          (s : ProviderState) → is_isolated s ≡ true → (b : Bool) → (b && is_available s) ≡ false
      hidden isolated h true = refl
      hidden isolated h false = refl
      hidden healthy h b = cc
      hidden degraded h b = cc
      hidden unavailable h b = cc

  -- A failure lifts an isolation by hand: a registered provider, whose failures with one more stay
  -- below the threshold, is isolated, and is then not offered for its capability; one failure that is
  -- recorded of it makes it degraded, and it is offered again.
  pub failure-reinstates :
      (threshold : ℕ) (key reason error : String) (reg : Registry P V) (r : RegisteredProvider P V)
      (capability : String)
      → get key reg ≡ returned r
      → contains capability r.provider.capabilities ≡ true
      → leb threshold (r.health.consecutive_failures + 1) ≡ false
      → (reg₁ : Registry P V) × (reg₂ : Registry P V) × (r₁ : RegisteredProvider P V)
        × (r₂ : RegisteredProvider P V) × (isolate key reason reg ≡ returned reg₁)
        × (get key reg₁ ≡ returned r₁)
        × (offers capability r₁ ≡ false)
        × (record_failure threshold key error reg₁ ≡ returned reg₂)
        × (get key reg₂ ≡ returned r₂)
        × (r₂.health.state ≡ degraded)
        × (offers capability r₂ ≡ true)
  unfolding record_failure isolate offers
  failure-reinstates threshold key reason error reg r capability at able below =
      let f = isolated_for reason in
      let g = failed_with threshold error in
      let reg₁ = update key f reg in
      let at₁ = get-update key f reg at in
      (
        reg₁,
        update key g reg₁,
        changed f r,
        changed g (changed f r),
        with_health-ok key f reg at,
        at₁,
        rw able refl,
        with_health-ok key g reg₁ at₁,
        get-update key g reg₁ at₁,
        rw below refl,
        rw (able, below) refl,
      )

  -- A success clears the failures of a registered provider, and it is isolated after it just where it
  -- was before.
  pub success-keeps_isolation :
      (key : String) (reg : Registry P V) (r : RegisteredProvider P V)
      → get key reg ≡ returned r
      → (reg' : Registry P V) × (r' : RegisteredProvider P V) × (record_success key reg
          ≡ returned reg')
        × (get key reg' ≡ returned r')
        × (r'.health.consecutive_failures ≡ 0)
        × (is_isolated r'.health.state ≡ is_isolated r.health.state)
  unfolding record_success
  success-keeps_isolation key reg r at = (
    update key succeeded reg,
    changed succeeded r,
    with_health-ok key succeeded reg at,
    get-update key succeeded reg at,
    refl,
    same (is_isolated r.health.state),
  )
    where
      same : (b : Bool) → is_isolated (if b then isolated else healthy) ≡ b
      same true = refl
      same false = refl
