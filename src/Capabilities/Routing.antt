-- ===== src/Capabilities/Routing.antt =====
-- The native-first router of agent/resilience/capability_kernel.py: which provider answers.
use mitigate_ai_platform.Prelude.{
  ℕ, String, Bool, true, false, not, ◌&&◌, ◌||◌, List, [], ◌∷◌, ◌++◌, map, prefix, ◌⊎◌, inl, inr,
  Attempt, returned, raised, ◌≡◌, ◌∙◌, sym, ap, arith, ltb_ℤ, eq_ℤ, str_lt, lex_cotrans,
  ltb_ℤ_cotrans, eq_ℤ_split, str_lt_cotrans, str_lt_asym, filter_by, All-Elem, Elem, Elem-sort_by,
  Elem-filter_by, IsStrict, IsSorted, sort_by-IsSorted,
}
use mathlib.Core.Bool.{false≢true}
use mitigate_ai_platform.Capabilities.{
  CapabilityProvider, RegisteredProvider, KernelError, Answer, Registry, record_success,
  record_failure, is_native, offers, preferred, providers_for, route, execute, after_success,
  after_failure, attempt_any,
}
use mitigate_ai_platform.Prelude.{Attempt-cases}

kind_cotrans : (m k n : Bool) → (m && not n) ≡ true → ((m && not k) || (k && not n)) ≡ true
kind_cotrans m k n h = ground arith

kind_split :
    (m k n : Bool)
    → ((m && n) || (not m && not n)) ≡ true
    → ((((m && k) || (not m && not k)) && ((k && n) || (not k && not n)))
        || ((m && not k) || (k && not n)))
      ≡ true
kind_split m k n h = ground arith

module _ {P V : Type 0} where
  preferred-IsStrict : IsStrict (preferred {P = P} {V = V})
  unfolding preferred
  preferred-IsStrict = record {
    asym = λ a b h. ground (arith, str_lt_asym a.provider.provider_id b.provider.provider_id);
    cotrans =
        lex_cotrans
          (λ a b. is_native a.provider.provider_kind && not (is_native b.provider.provider_kind))
          (λ a b.
            (is_native a.provider.provider_kind && is_native b.provider.provider_kind)
            || (not (is_native a.provider.provider_kind)
                && not (is_native b.provider.provider_kind)))
          (λ a b.
            ltb_ℤ a.priority b.priority
            || (eq_ℤ a.priority b.priority && str_lt a.provider.provider_id b.provider.provider_id))
          (λ a b c.
            kind_cotrans (is_native a.provider.provider_kind) (is_native b.provider.provider_kind)
              (is_native c.provider.provider_kind))
          (λ a b c.
            kind_split (is_native a.provider.provider_kind) (is_native b.provider.provider_kind)
              (is_native c.provider.provider_kind))
          (lex_cotrans (λ a b. ltb_ℤ a.priority b.priority) (λ a b. eq_ℤ a.priority b.priority)
            (λ a b. str_lt a.provider.provider_id b.provider.provider_id)
            (λ a b c. ltb_ℤ_cotrans a.priority b.priority c.priority)
            (λ a b c. eq_ℤ_split a.priority b.priority c.priority)
            (λ a b c.
              str_lt_cotrans a.provider.provider_id b.provider.provider_id c.provider.provider_id));
  }

  -- What the router returns for a provider's result.
  abbrev pub answer_of : CapabilityProvider P V → V → Answer V
  answer_of p v = record {
    provider_id = p.provider_id;
    provider_kind = p.provider_kind;
    fallback_used = not (is_native p.provider_kind);
    result = v;
  }

  -- The answer is that of the first provider that returns.
  abbrev pub Served : String → P → Answer V → List (RegisteredProvider P V) → Type 0
  Served capability payload a [] = ⊥
  Served capability payload a (r ∷ rs) =
      ((v : V) × (r.provider.perform capability payload ≡ returned v)
        × (a ≡ answer_of r.provider v))
      ⊎ ((error : String) × (r.provider.perform capability payload ≡ raised error)
          × Served capability payload a rs)

  module _ (threshold : ℕ) (capability : String) (payload : P) where
    route-Served :
        (rs : List (RegisteredProvider P V)) (errors : List (String × String))
        (reg reg' : Registry P V) (a : Answer V)
        → route threshold capability payload rs errors reg ≡ (returned a, reg')
        → Served capability payload a rs
    unfolding route
    route-Served [] errors reg reg' a h = cc
    route-Served (r ∷ rs) errors reg reg' a h =
        elim (Attempt-cases (r.provider.perform capability payload)) [
          | inl (v, does) ↦
              inl (v, does, won v (record_success r.provider.provider_id reg) (rw does at h))
          | inr (error, fails) ↦ inr (
            error,
            fails,
            next error (record_failure threshold r.provider.provider_id error reg)
                (λ reg₁.
                  route-Served rs (errors ++ (r.provider.provider_id, prefix 200 error) ∷ []) reg₁
                    reg' a)
                (rw fails at h),
          )
        ]
      where
        won :
            (v : V) (m : Attempt KernelError (Registry P V))
            → after_success r.provider v m reg ≡ (returned a, reg')
            → a ≡ answer_of r.provider v
        won v (returned reg₁) k = cc
        won v (raised e) k = cc

        next :
            (error : String) (m : Attempt KernelError (Registry P V))
            → ((reg₁ : Registry P V)
                → route threshold capability payload rs
                    (errors ++ (r.provider.provider_id, prefix 200 error) ∷ [])
                    reg₁
                  ≡ (returned a, reg')
                → Served capability payload a rs)
            → after_failure m reg (λ reg₁.
              route threshold capability payload rs
                (errors ++ (r.provider.provider_id, prefix 200 error) ∷ [])
                reg₁)
              ≡ (returned a, reg')
            → Served capability payload a rs
        next error (returned reg₁) rest k = rest reg₁ k
        next error (raised e) rest k = cc

    -- Behind a provider that is not native, a sorted list has no native one.
    native_before :
        (rs : List (RegisteredProvider P V)) (a : Answer V) (x : RegisteredProvider P V)
        → IsSorted preferred rs
        → Served capability payload a rs
        → a.fallback_used ≡ true
        → Elem x rs
        → is_native x.provider.provider_kind ≡ true
        → (error : String) × (x.provider.perform capability payload ≡ raised error)
    native_before [] a x s sv fb e nat = absurd e
    native_before (r ∷ rs) a x s (inl (v, does, same)) fb (inl e) nat =
        let used : a.fallback_used ≡ not (is_native r.provider.provider_kind) =
          ap (λ b. b.fallback_used) same in
        let nat' : is_native r.provider.provider_kind ≡ true =
          ap (λ y. is_native y.provider.provider_kind) e ∙ nat in
        absurd (false≢true (ground (arith, used, nat')))
    native_before (r ∷ rs) a x s (inl (v, does, same)) fb (inr e) nat =
        let used : a.fallback_used ≡ not (is_native r.provider.provider_kind) =
          ap (λ b. b.fallback_used) same in
        let behind = All-Elem (λ y. preferred y r ≡ false) rs s.0 e in
        absurd (false≢true (unfold preferred in ground (arith, used, behind)))
    native_before (r ∷ rs) a x s (inr (error, fails, sv)) fb (inl e) nat =
        (error, ap (λ y. y.provider.perform capability payload) (sym e) ∙ fails)
    native_before (r ∷ rs) a x s (inr (error, fails, sv)) fb (inr e) nat =
        native_before rs a x s.1 sv fb e nat

  -- The router uses a provider that is not native only where every native one fails: if `execute`
  -- answers with `fallback_used`, each native provider of the registry that offers the capability
  -- and is neither unavailable nor isolated has raised on the payload.
  pub fallback-native_failed :
      (threshold : ℕ) (capability : String) (payload : P) (reg reg' : Registry P V) (a : Answer V)
      (x : RegisteredProvider P V)
      → execute threshold capability payload reg ≡ (returned a, reg')
      → a.fallback_used ≡ true
      → Elem x (map (λ e. e.1) reg)
      → offers capability x ≡ true
      → is_native x.provider.provider_kind ≡ true
      → (error : String) × (x.provider.perform capability payload ≡ raised error)
  unfolding execute providers_for
  fallback-native_failed threshold capability payload reg reg' a x h fb e may nat =
      let rs = providers_for capability reg in
      native_before threshold capability payload rs a x
        (sort_by-IsSorted preferred preferred-IsStrict
          (filter_by (offers capability) (map (λ e. e.1) reg)))
        (served rs h) fb
        (Elem-sort_by preferred x (filter_by (offers capability) (map (λ e. e.1) reg))
          (Elem-filter_by (offers capability) x (map (λ e. e.1) reg) e may))
        nat
    where
      served :
          (rs : List (RegisteredProvider P V))
          → attempt_any threshold capability payload rs reg ≡ (returned a, reg')
          → Served capability payload a rs
      served [] k = cc
      served (r ∷ rs) k = route-Served threshold capability payload (r ∷ rs) [] reg reg' a k
