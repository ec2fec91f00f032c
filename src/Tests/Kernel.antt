-- ===== src/Tests/Kernel.antt =====
-- The theorems on agent/resilience/capability_kernel.py at a registry with a native provider that
-- raises and an external one that answers.
use mitigate_ai_platform.Prelude.{
  String, true, false, none, [], ◌∷◌, pos, ◌≡◌, refl, inl, inr, returned, raised, arith,
}
use mitigate_ai_platform.Capabilities.{
  native, external, ProviderState, healthy, degraded, isolated, isolate, CapabilityProvider,
  RegisteredProvider, Registry, Answer, get, offers, execute, record_success, record_failure,
  is_isolated,
}
use mitigate_ai_platform.Prelude.{contains, strip}
use mitigate_ai_platform.Capabilities.{register, provider_not_found}
use mitigate_ai_platform.Capabilities.Answers.{execute-answers, padded-lost}
use mitigate_ai_platform.Capabilities.Breaker.{
  record_failures, failures-isolate, failure-reinstates, success-keeps_isolation,
}
use mitigate_ai_platform.Capabilities.Routing.{fallback-native_failed}

abbrev native_provider : CapabilityProvider String String
native_provider = record {
  provider_id = "local";
  provider_kind = native;
  capabilities = "search" ∷ [];
  perform = λ c p. raised "offline";
}

abbrev external_provider : CapabilityProvider String String
external_provider = record {
  provider_id = "cloud";
  provider_kind = external;
  capabilities = "search" ∷ [];
  perform = λ c p. returned p;
}

abbrev entry_of :
    CapabilityProvider String String → ProviderState → RegisteredProvider String String
entry_of p s = record {
  provider = p;
  priority = pos 100;
  health = record {
    provider_id = p.provider_id;
    state = s;
    consecutive_failures = 0;
    last_error = none;
  };
}

abbrev two_providers : Registry String String
two_providers =
    ("local", entry_of native_provider healthy) ∷ ("cloud", entry_of external_provider healthy) ∷ []

abbrev cloud_answer : Answer String
cloud_answer = record {
  provider_id = "cloud";
  provider_kind = external;
  fallback_used = true;
  result = "query";
}

cloud-answers : (execute 3 "search" "query" two_providers).0 ≡ returned cloud_answer
unfolding execute
cloud-answers = refl

cloud-executes :
    execute 3 "search" "query" two_providers
    ≡ (returned cloud_answer, (execute 3 "search" "query" two_providers).1)
unfolding execute
cloud-executes = refl

fallback-native_failed_example :
    (error : String) × (native_provider.perform "search" "query" ≡ raised error)
fallback-native_failed_example =
    fallback-native_failed 3 "search" "query" two_providers
      (execute 3 "search" "query" two_providers).1 cloud_answer (entry_of native_provider healthy)
      cloud-executes refl (inl refl) (unfold offers in refl) refl

local-get : get "local" two_providers ≡ returned (entry_of native_provider healthy)
unfolding get
local-get = refl

failures-isolate_example :
    (reg' : Registry String String) × (r' : RegisteredProvider String String) × (record_failures 2
        "local"
        ("x" ∷ "y" ∷ [])
        two_providers
      ≡ returned reg')
    × (get "local" reg' ≡ returned r')
    × (offers "search" r' ≡ false)
failures-isolate_example =
    failures-isolate 2 "local" ("x" ∷ "y" ∷ []) two_providers (entry_of native_provider healthy)
      "search" local-get refl (omega arith) (omega arith)

abbrev isolated_provider : Registry String String
isolated_provider = ("local", entry_of native_provider isolated) ∷ []

isolated-get : get "local" isolated_provider ≡ returned (entry_of native_provider isolated)
unfolding get
isolated-get = refl

failure-reinstates_example :
    (reg₁ : Registry String String) × (reg₂ : Registry String String) × (r₁ : RegisteredProvider
      String String)
    × (r₂ : RegisteredProvider String String) × (isolate "local" "by hand" two_providers
        ≡ returned reg₁)
    × (get "local" reg₁ ≡ returned r₁)
    × (offers "search" r₁ ≡ false)
    × (record_failure 3 "local" "x" reg₁ ≡ returned reg₂)
    × (get "local" reg₂ ≡ returned r₂)
    × (r₂.health.state ≡ degraded)
    × (offers "search" r₂ ≡ true)
failure-reinstates_example =
    failure-reinstates 3 "local" "by hand" "x" two_providers (entry_of native_provider healthy)
      "search" local-get (unfold contains in refl) refl

success-keeps_isolation_example :
    (reg' : Registry String String) × (r' : RegisteredProvider String String) × (record_success
        "local" isolated_provider
      ≡ returned reg')
    × (get "local" reg' ≡ returned r')
    × (r'.health.consecutive_failures ≡ 0)
    × (is_isolated r'.health.state ≡ true)
success-keeps_isolation_example =
    success-keeps_isolation "local" isolated_provider (entry_of native_provider isolated)
      isolated-get

execute-answers_example :
    (a : Answer String) × (reg' : Registry String String) × (execute 3 "search" "query"
        two_providers
      ≡ (returned a, reg'))
execute-answers_example =
    execute-answers 3 "search" "query" two_providers (entry_of external_provider healthy) "query"
      (unfold contains in (refl, (refl, tt))) (inr (inl refl)) (unfold offers in refl) refl

abbrev padded_provider : CapabilityProvider String String
padded_provider = record external_provider { provider_id = " cloud " }

abbrev padded_registry : Registry String String
padded_registry =
    (
      "cloud",
      record {
        provider = padded_provider;
        priority = pos 100;
        health = record {
          provider_id = "cloud";
          state = healthy;
          consecutive_failures = 0;
          last_error = none;
        };
      },
    )
    ∷ []

padded-register : register padded_provider (pos 100) [] ≡ returned padded_registry
unfolding register
padded-register = refl

padded-lost_example : (execute 3 "search" "query" padded_registry).0 ≡ raised provider_not_found
padded-lost_example =
    padded-lost 3 "search" "query" padded_provider (pos 100) padded_registry "query" padded-register
      (unfold strip in refl) (unfold contains in refl) refl
