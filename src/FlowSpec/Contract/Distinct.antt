-- ===== src/FlowSpec/Contract/Distinct.antt =====
-- Ids that stay apart: those of ordered steps, and those of their missions, for the contract of
-- agent/runtime/flowspec_execution_contract.py.
use mitigate_ai_platform.Prelude.{
  String, true, false, List, [], ◌∷◌, map, ◌==◌, eq_iff, eq_refl, contains, strip, is_empty, All,
  returned, str, ◌≡◌, ◌∙◌, refl, sym, ap, subst, arith, Bool-cases, inl, inr,
}
use mathlib.Core.Bool.{false≢true}
use mitigate_ai_platform.FlowSpec.{FlowStep, step_ids, all_distinct}
use mitigate_ai_platform.FlowSpec.Parsed.{IsClean}
use mitigate_ai_platform.FlowSpec.Topology.{Follows}
use mitigate_ai_platform.FlowSpec.Contract.{text_field}

-- The function keeps apart what the list contains.
abbrev pub IsInjectiveOn : List String → (String → String) → Type 0
IsInjectiveOn known f =
    (u v : String) → contains u known ≡ true → contains v known ≡ true → f u ≡ f v → u ≡ v

module _ (known : List String) (f : String → String) (apart : IsInjectiveOn known f) where
  pub contains-map :
      (u : String) (vs : List String)
      → contains u known ≡ true
      → All (λ v. contains v known ≡ true) vs
      → contains (f u) (map f vs) ≡ contains u vs
  unfolding contains
  contains-map u [] hu h = refl
  contains-map u (v ∷ vs) hu h = elim (Bool-cases (f v == f u)) [
    | inl same ↦
        let e : v ≡ u = apart v u h.0 hu ((eq_iff (f v) (f u)).0 same) in
        ground (arith, same, (eq_iff v u).1 e)
    | inr other ↦ elim (Bool-cases (v == u)) [
      | inl equal ↦
          absurd (false≢true (sym other ∙ (eq_iff (f v) (f u)).1 (ap f ((eq_iff v u).0 equal))))
      | inr differ ↦ ground (arith, other, differ, contains-map u vs hu h.1)
    ]
  ]

  pub all_distinct-map :
      (vs : List String)
      → All (λ v. contains v known ≡ true) vs
      → all_distinct (map f vs) ≡ all_distinct vs
  unfolding all_distinct
  all_distinct-map [] h = refl
  all_distinct-map (v ∷ vs) h = ground (arith, contains-map v vs h.0 h.1, all_distinct-map vs h.1)

pub text_field_clean : (s field : String) → IsClean s → text_field (str s) field ≡ returned s
unfolding text_field
text_field_clean s field h =
    let same = h.0 in
    let full : is_empty (strip s) ≡ false = ap is_empty same ∙ h.1 in rw full (ap returned same)

module _ {O : Type 0} (steps : List (FlowStep O)) where
  -- What is done does not come again.
  pub Follows-apart :
      (v : String) (done : List String) (ss : List (FlowStep O))
      → Follows steps done ss
      → contains v done ≡ true
      → contains v (step_ids ss) ≡ false
  unfolding contains
  Follows-apart v done [] f h = refl
  Follows-apart v done (s ∷ ss) (m, new, ds, rest) h =
      let again = Follows-apart v (s.step_id ∷ done) ss rest (ground (arith, h)) in
      elim (Bool-cases (s.step_id == v)) [
        | inl same ↦ absurd (
            false≢true
              (sym new ∙ subst (λ w. contains w done ≡ true) (sym ((eq_iff s.step_id v).0 same)) h))
        | inr other ↦ ground (arith, other, again)
      ]

  pub Follows-all_distinct :
      (done : List String) (ss : List (FlowStep O))
      → Follows steps done ss
      → all_distinct (step_ids ss) ≡ true
  unfolding all_distinct contains
  Follows-all_distinct done [] f = refl
  Follows-all_distinct done (s ∷ ss) (m, new, ds, rest) =
      let here : contains s.step_id (s.step_id ∷ done) ≡ true = rw (eq_refl s.step_id) refl in
      ground (
        arith,
        Follows-apart s.step_id (s.step_id ∷ done) ss rest here,
        Follows-all_distinct (s.step_id ∷ done) ss rest,
      )
