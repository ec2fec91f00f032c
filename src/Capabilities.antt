-- ===== src/Capabilities.antt =====
-- The capability kernel, agent/resilience/capability_kernel.py: the registry of providers, the
-- circuit breaker, the gap detector, the replacement mission and the native-first router. The
-- providers are the objects that are registered: each `execute` is an argument of the model, a
-- function that returns or raises. The registry is the list of its entries in the order of insertion.
pub mod Breaker
pub mod Routing
pub mod Answers
use mitigate_ai_platform.Prelude.{
  ℕ, ◌+◌, String, Bool, true, false, not, ◌&&◌, ◌||◌, Option, none, some, List, [], ◌∷◌, ◌++◌, map,
  ◌==◌, leb, if◌then◌else◌, ℤ, pos, ltb_ℤ, eq_ℤ, str_lt, contains, filter_by, sort_by, any, strip,
  is_empty, prefix, Attempt, returned, raised, and_then, require,
}

pub data ProviderKind : Type 0 where
  native external : ProviderKind

pub data ProviderState : Type 0 where
  healthy degraded unavailable isolated : ProviderState

pub record CapabilityHealth : Type 0 where
  pub provider_id : String
  pub state : ProviderState
  pub consecutive_failures : ℕ
  pub last_error : Option String

-- A provider, with payloads in `P` and results in `V`.
pub record CapabilityProvider (P V : Type 0) : Type 0 where
  pub provider_id : String
  pub provider_kind : ProviderKind
  pub capabilities : List String
  pub perform : String → P → Attempt String V

pub record RegisteredProvider (P V : Type 0) : Type 0 where
  pub provider : CapabilityProvider P V
  pub priority : ℤ
  pub health : CapabilityHealth

pub data KernelError : Type 0 where
  invalid_provider_id provider_already_registered provider_not_found : KernelError
  invalid_failure_threshold capability_unavailable : KernelError
  capability_execution_failed : List (String × String) → KernelError

pub record CapabilityGap : Type 0 where
  pub capability_id : String
  pub external_provider_id : Option String
  pub native_provider_available : Bool
  pub reason : String

pub record ReplacementMission : Type 0 where
  pub mission_type : String
  pub capability_id : String
  pub goal : String × String
  pub source_provider_id : Option String
  pub constraints : List String

-- What the router returns.
pub record Answer (V : Type 0) : Type 0 where
  pub provider_id : String
  pub provider_kind : ProviderKind
  pub fallback_used : Bool
  pub result : V

abbrev pub is_native : ProviderKind → Bool
is_native native = true
is_native external = false

abbrev pub is_available : ProviderState → Bool
is_available unavailable = false
is_available isolated = false
is_available _ = true

abbrev pub is_isolated : ProviderState → Bool
is_isolated isolated = true
is_isolated _ = false

-- `self._providers`
abbrev pub Registry : Type 0 → Type 0 → Type 0
Registry P V = List (String × RegisteredProvider P V)

-- The constructor of the breaker.
unfoldable pub circuit_breaker : ℕ → Attempt KernelError ℕ
circuit_breaker threshold =
    and_then (require (leb 1 threshold) invalid_failure_threshold) λ _. returned threshold

abbrev pub succeeded : CapabilityHealth → CapabilityHealth
succeeded h = record h {
  consecutive_failures = 0;
  last_error = none;
  state = if is_isolated h.state then isolated else healthy;
}

abbrev pub failed_with : ℕ → String → CapabilityHealth → CapabilityHealth
failed_with threshold error h =
    let failures = h.consecutive_failures + 1 in
    record h {
      consecutive_failures = failures;
      last_error = some (prefix 500 error);
      state = if leb threshold failures then isolated else degraded;
    }

module _ {P V : Type 0} where
  abbrev pub keys : Registry P V → List String
  keys = map (λ e. e.0)

  -- `register`
  unfoldable pub register :
      CapabilityProvider P V → ℤ → Registry P V → Attempt KernelError (Registry P V)
  unfolding strip is_empty contains
  register provider priority reg =
      let provider_id = strip provider.provider_id in
      and_then (require (not (is_empty provider_id)) invalid_provider_id) λ _.
        and_then (require (not (contains provider_id (keys reg))) provider_already_registered) λ _.
          returned (
            reg
            ++ (
              provider_id,
              record {
                provider = provider;
                priority = priority;
                health = record {
                  provider_id = provider_id;
                  state = healthy;
                  consecutive_failures = 0;
                  last_error = none;
                };
              },
            )
              ∷ [])

  -- `get`
  unfoldable pub get : String → Registry P V → Attempt KernelError (RegisteredProvider P V)
  get key [] = raised provider_not_found
  get key (e ∷ es) = if e.0 == key then returned e.1 else get key es

  -- The sort key of `providers_for`.
  unfoldable pub preferred : RegisteredProvider P V → RegisteredProvider P V → Bool
  preferred a b =
      let p = a.provider in
      let q = b.provider in
      let m = is_native p.provider_kind in
      let n = is_native q.provider_kind in
      (m && not n)
      || (((m && n) || (not m && not n))
          && (ltb_ℤ a.priority b.priority
              || (eq_ℤ a.priority b.priority && str_lt p.provider_id q.provider_id)))

  -- The two `continue` tests of `providers_for`.
  unfoldable pub offers : String → RegisteredProvider P V → Bool
  unfolding contains
  offers capability r = contains capability r.provider.capabilities && is_available r.health.state

  unfoldable pub providers_for : String → Registry P V → List (RegisteredProvider P V)
  unfolding offers sort_by preferred
  providers_for capability reg =
      sort_by preferred (filter_by (offers capability) (map (λ e. e.1) reg))

  -- The health record of the entry is shared, so a change of it is a change of the entry.
  unfoldable pub update :
      String → (CapabilityHealth → CapabilityHealth) → Registry P V → Registry P V
  update key f [] = []
  update key f (e ∷ es) =
      let rest = update key f es in
      if e.0 == key then (e.0, record e.1 { health = f e.1.health }) ∷ es else e ∷ rest

  -- `health = self._registry.health(provider_id)`, then the change `f` of it.
  unfoldable pub with_health :
      String
      → (CapabilityHealth → CapabilityHealth)
      → Registry P V
      → Attempt KernelError (Registry P V)
  unfolding get update
  with_health key f reg = and_then (get key reg) λ _. returned (update key f reg)

  unfoldable pub record_success : String → Registry P V → Attempt KernelError (Registry P V)
  unfolding with_health
  record_success key = with_health key succeeded

  unfoldable pub record_failure :
      ℕ → String → String → Registry P V → Attempt KernelError (Registry P V)
  unfolding with_health prefix
  record_failure threshold key error = with_health key (failed_with threshold error)

  unfoldable pub isolate : String → String → Registry P V → Attempt KernelError (Registry P V)
  unfolding with_health prefix
  isolate key reason =
      with_health key λ h. record h { state = isolated; last_error = some (prefix 500 reason) }

  abbrev first_external : List (RegisteredProvider P V) → Option String
  first_external [] = none
  first_external (r ∷ rs) =
      if is_native r.provider.provider_kind then first_external rs else some r.provider.provider_id

  -- `CapabilityGapDetector.detect`
  unfoldable pub detect : String → Registry P V → Option CapabilityGap
  unfolding providers_for
  detect capability reg =
      let providers = providers_for capability reg in
      if any (λ r. is_native r.provider.provider_kind) providers
      then none
      else some (record {
        capability_id = capability;
        external_provider_id = first_external providers;
        native_provider_available = false;
        reason = "native_capability_missing";
      })

  abbrev pub after_failure :
      Attempt KernelError (Registry P V)
      → Registry P V
      → (Registry P V → Attempt KernelError (Answer V) × Registry P V)
      → Attempt KernelError (Answer V) × Registry P V
  after_failure (raised k) reg next = (raised k, reg)
  after_failure (returned reg') reg next = next reg'

  -- A success that the breaker cannot record raises `KeyError`; its handler calls `record_failure`,
  -- which raises the same error out of `execute`.
  abbrev pub after_success :
      CapabilityProvider P V
      → V
      → Attempt KernelError (Registry P V)
      → Registry P V
      → Attempt KernelError (Answer V) × Registry P V
  after_success p v (raised k) reg = (raised k, reg)
  after_success p v (returned reg') reg = (
    returned (record {
      provider_id = p.provider_id;
      provider_kind = p.provider_kind;
      fallback_used = not (is_native p.provider_kind);
      result = v;
    }),
    reg',
  )

  -- The loop of `execute`, with the errors so far.
  unfoldable pub route :
      ℕ
      → String
      → P
      → List (RegisteredProvider P V)
      → List (String × String)
      → Registry P V
      → Attempt KernelError (Answer V) × Registry P V
  unfolding record_success record_failure prefix
  route threshold capability payload [] errors reg =
      (raised (capability_execution_failed errors), reg)
  route threshold capability payload (r ∷ rs) errors reg =
      let p = r.provider in
      elim (p.perform capability payload) [
        | returned v ↦ after_success p v (record_success p.provider_id reg) reg
        | raised error ↦
            after_failure (record_failure threshold p.provider_id error reg) reg λ reg'.
              route threshold capability payload rs
                (errors ++ (p.provider_id, prefix 200 error) ∷ []) reg'
      ]

  abbrev pub attempt_any :
      ℕ
      → String
      → P
      → List (RegisteredProvider P V)
      → Registry P V
      → Attempt KernelError (Answer V) × Registry P V
  attempt_any threshold capability payload [] reg = (raised capability_unavailable, reg)
  attempt_any threshold capability payload (r ∷ rs) reg =
      route threshold capability payload (r ∷ rs) [] reg

  -- `FallbackRouter.execute`
  unfoldable pub execute :
      ℕ → String → P → Registry P V → Attempt KernelError (Answer V) × Registry P V
  unfolding route providers_for
  execute threshold capability payload reg =
      attempt_any threshold capability payload (providers_for capability reg) reg

-- `ReplacementMissionFactory.build`; the goal is the text with the capability in it.
unfoldable pub build : CapabilityGap → ReplacementMission
build gap = record {
  mission_type = "native_capability_replacement";
  capability_id = gap.capability_id;
  source_provider_id = gap.external_provider_id;
  goal = ("Implement a MITIGATE-native replacement for capability", gap.capability_id);
  constraints =
      "must_not_require_external_provider" ∷ "must_preserve_existing_core_contracts"
      ∷ "must_add_regression_tests" ∷ "must_support_safe_fallback" ∷ "must_be_portable_via_github"
      ∷ [];
}
