-- ===== src/MissionQueue/Validate/Acyclic.antt =====
-- `_validate_no_cycles` accepts a dictionary of missions exactly when no mission depends on itself,
-- directly or through others, and its recursion ends.
use mitigate_ai_platform.Prelude.{
  String, Bool-cases, Option-cases, subst, sym, inl, inr, true, ◌&&◌, Option, none, some, List, [],
  ◌∷◌, ◌≡◌, ◌≢◌, refl, ◌∙◌, arith, eq_refl, contains, filter_by, str_lt, length, contains-sort_by,
  contains-filter_by,
}
use mathlib.Core.Bool.{false≢true}
use mitigate_ai_platform.MissionQueue.Graph.{
  gray, Colors, Walk, done, circular, no_fuel, roots, all_white,
}
use mitigate_ai_platform.MissionQueue.Graph.Paths.{
  Edge, Chain, one, Grounded, ground_at, Grounded→not-Chain, Chain-map,
}
use mitigate_ai_platform.MissionQueue.Graph.Sound.{roots-Scanned}
use mitigate_ai_platform.MissionQueue.Graph.Complete.{roots-HasCycle}
use mitigate_ai_platform.MissionQueue.Graph.Total.{roots_fuel}
use mitigate_ai_platform.MissionQueue.Mission.{
  Mission, ok, err, search_out_of_fuel, ids, find, Distinct,
}
use mitigate_ai_platform.MissionQueue.Validate.{
  sorted, self_dependent, known_dependencies, graph, report, check_self, validate_no_cycles,
}
use mitigate_ai_platform.MissionQueue.Validate.Lookup.{contains_of_find, find_later}

-- The mission `u` names the mission `v` of the queue among its dependencies.
pub record DependsOn (ms : List Mission) (u v : String) : Type 0 where
  pub mission : Mission
  pub at_key : find u ms ≡ some mission
  pub named : contains v mission.dependencies ≡ true
  pub known : contains v (ids ms) ≡ true

-- No mission depends on itself, in one step or in several.
abbrev pub Acyclic : List Mission → Type 0
Acyclic ms = (u : String) → ¬ Chain (DependsOn ms) u u

module _ (ms : List Mission) where
  contains-known_dependencies :
      (m : Mission) (v : String)
      → contains v (known_dependencies ms m) ≡ (contains v m.dependencies && contains v (ids ms))
  unfolding known_dependencies
  contains-known_dependencies m v =
      contains-sort_by str_lt v (filter_by (λ d. contains d (ids ms)) m.dependencies)
      ∙ contains-filter_by (λ d. contains d (ids ms)) v m.dependencies

  DependsOn→Edge : (u v : String) → DependsOn ms u v → Edge (graph ms) u v
  unfolding graph
  DependsOn→Edge u v d =
      rw (d.at_key) (rw (contains-known_dependencies d.mission v) (rw d.named (rw d.known refl)))

  Edge→DependsOn : (u v : String) → Edge (graph ms) u v → DependsOn ms u v
  unfolding graph contains
  Edge→DependsOn u v e = elim (Option-cases (find u ms)) [
    | inl absent ↦ cc (rw (absent, graph) at e)
    | inr (m, at) ↦
        let both = contains-known_dependencies m v in
        let found : contains v (known_dependencies ms m) ≡ true = rw (at, graph) at e in
        record { mission = m; at_key = at; named = ground arith; known = ground arith }
  ]

-- A mission that depends on itself is in the way of `Acyclic`.
self_dependent_entry :
    (xs : List Mission) (u : String)
    → Distinct xs
    → self_dependent xs ≡ some u
    → (m : Mission) × (find u xs ≡ some m) × (contains u m.dependencies ≡ true)
unfolding self_dependent find
self_dependent_entry [] u d h = cc
self_dependent_entry (x ∷ xs) u d h = elim (Bool-cases (contains x.id x.dependencies)) [
  | inl self ↦
      let e : x.id ≡ u = ground arith in
      subst (λ k. (m : Mission) × (find k (x ∷ xs) ≡ some m) × (contains k m.dependencies ≡ true)) e
        (x, rw eq_refl, self)
  | inr other ↦
      let (m, at, named) = self_dependent_entry xs u d.1 (ground (arith, other)) in
      (m, find_later u x xs d.0 at, named)
]

module _ (ms : List Mission) where
  no_gray : (v : String) → all_white v ≡ gray → ⊥
  no_gray v h = cc

  inside : (w : String) → contains w (sorted (ids ms)) ≡ true → contains w (ids ms) ≡ true
  inside w h = rw (← contains-sort_by str_lt w (ids ms)) h

  closed : (u w : String) → Edge (graph ms) u w → contains w (ids ms) ≡ true
  closed u w e = (Edge→DependsOn ms u w e).known

  -- Every vertex is grounded once the walk is done.
  walk-Grounded :
      (c : Colors)
      → roots (graph ms) (length (ids ms)) (sorted (ids ms)) all_white ≡ done c
      → (u : String) → Grounded (Edge (graph ms)) u
  walk-Grounded c h u =
      let s = roots-Scanned (graph ms) (length (ids ms)) (sorted (ids ms)) all_white c h no_gray in
      elim (Bool-cases (contains u (ids ms))) [
        | inl known ↦
            s.sound (λ v e. cc) u (s.finished u (contains-sort_by str_lt u (ids ms) ∙ known))
        | inr unknown ↦ ground_at λ v e.
            let d = Edge→DependsOn ms u v e in
            absurd (false≢true (sym unknown ∙ contains_of_find u ms d.at_key))
      ]

  walk-Acyclic :
      (c : Colors)
      → roots (graph ms) (length (ids ms)) (sorted (ids ms)) all_white ≡ done c
      → Acyclic ms
  walk-Acyclic c h u p =
      Grounded→not-Chain (Edge (graph ms)) (walk-Grounded c h u)
        (Chain-map (DependsOn ms) (Edge (graph ms)) (DependsOn→Edge ms) p)

  -- Where the check of the dependencies accepts a dictionary, no mission depends on itself, in one
  -- step or in several.
  pub validate-Acyclic : validate_no_cycles ms ≡ ok tt → Acyclic ms
  unfolding validate_no_cycles
  validate-Acyclic h =
      go (self_dependent ms) (roots (graph ms) (length (ids ms)) (sorted (ids ms)) all_white) refl h
    where
      go :
          (o : Option String) (w : Walk)
          → roots (graph ms) (length (ids ms)) (sorted (ids ms)) all_white ≡ w
          → check_self o (report w) ≡ ok tt
          → Acyclic ms
      go (some u) w e r = cc
      go none (done c) e r = walk-Acyclic c e
      go none (circular p) e r = cc
      go none no_fuel e r = cc

  -- The check never ends for want of fuel, which is the number of missions, whatever the dictionary.
  pub validate-ne-out_of_fuel : validate_no_cycles ms ≢ err search_out_of_fuel
  unfolding validate_no_cycles
  validate-ne-out_of_fuel h =
      go (self_dependent ms) (roots (graph ms) (length (ids ms)) (sorted (ids ms)) all_white) refl h
    where
      go :
          (o : Option String) (w : Walk)
          → roots (graph ms) (length (ids ms)) (sorted (ids ms)) all_white ≡ w
          → check_self o (report w) ≢ err search_out_of_fuel
      go (some u) w e r = cc
      go none (done c) e r = cc
      go none (circular p) e r = cc
      go none no_fuel e r = roots_fuel (graph ms) (ids ms) closed (sorted (ids ms)) inside e

  -- The check of the dependencies accepts every dictionary with distinct keys in which no mission
  -- depends on itself, in one step or in several.
  pub Acyclic-validate : Distinct ms → Acyclic ms → validate_no_cycles ms ≡ ok tt
  unfolding validate_no_cycles
  Acyclic-validate d acyclic =
      go (self_dependent ms) (roots (graph ms) (length (ids ms)) (sorted (ids ms)) all_white) refl
        refl
    where
      go :
          (o : Option String) (w : Walk)
          → self_dependent ms ≡ o
          → roots (graph ms) (length (ids ms)) (sorted (ids ms)) all_white ≡ w
          → check_self o (report w) ≡ ok tt
      go (some u) w self e =
          let (m, at, named) = self_dependent_entry ms u d self in
          absurd (
            acyclic u (
              one (record {
                mission = m;
                at_key = at;
                named = named;
                known = contains_of_find u ms at;
              })))
      go none (done c) self e = refl
      go none (circular p) self e =
          let (v, chain) =
            roots-HasCycle (graph ms) (length (ids ms)) (sorted (ids ms)) all_white p no_gray e in
          absurd (acyclic v (Chain-map (Edge (graph ms)) (DependsOn ms) (Edge→DependsOn ms) chain))
      go none no_fuel self e =
          absurd (roots_fuel (graph ms) (ids ms) closed (sorted (ids ms)) inside e)
