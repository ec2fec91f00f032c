-- ===== src/MissionQueue/Graph/Complete.antt =====
-- A walk that ends on a back edge has met a cycle: the gray vertices lead to the one that is
-- being visited.
use mitigate_ai_platform.Prelude.{
  ℕ, zero, suc, String, true, inl, inr, ◌⊎◌, Bool-cases, List, [], ◌∷◌, ◌++◌, ◌≡◌, refl, sym, subst,
  arith, ◌==◌, eq_iff, eq_refl, contains,
}
use mitigate_ai_platform.MissionQueue.Graph.Paths.{Edge, Chain, one, Chain-snoc}
use mitigate_ai_platform.MissionQueue.Graph.Sound.{Visits, dfs-Visited}
use mitigate_ai_platform.MissionQueue.Graph.{
  Color, white, gray, black, Colors, paint, Walk, done, circular, no_fuel, ◌>>=◌, scan, dfs, roots,
}

>>=-eq-circular :
    (m : Walk) (f : Colors → Walk) (p : List String)
    → (m >>= f) ≡ circular p
    → (m ≡ circular p) ⊎ ((c : Colors) × (m ≡ done c) × (f c ≡ circular p))
>>=-eq-circular (done c) f p h = inr (c, refl, h)
>>=-eq-circular (circular q) f p h = inl h
>>=-eq-circular no_fuel f p h = cc

module _ (adj : String → List String) where
  abbrev pub HasCycle : Type 0
  HasCycle = (v : String) × Chain (Edge adj) v v

  -- Every gray vertex leads to `u`.
  abbrev Leads : Colors → String → Type 0
  Leads c u = (g : String) → c g ≡ gray → Chain (Edge adj) g u

  -- Every gray vertex is `u` or leads to it.
  abbrev Below : Colors → String → Type 0
  Below c u = (g : String) → c g ≡ gray → (g ≡ u) ⊎ Chain (Edge adj) g u

  abbrev Faults : (String → Colors → Walk) → Type 0
  Faults visit =
      (v : String) (c : Colors) (p : List String)
      → c v ≡ white
      → Leads c v
      → visit v c ≡ circular p
      → HasCycle

  extend : {g u v : String} → (g ≡ u) ⊎ Chain (Edge adj) g u → Edge adj u v → Chain (Edge adj) g v
  extend {v = v} (inl same) e = subst (λ x. Chain (Edge adj) x v) (sym same) (one e)
  extend (inr chain) e = Chain-snoc (Edge adj) chain e

  contains-tail :
      (w v : String) (vs : List String) → contains w vs ≡ true → contains w (v ∷ vs) ≡ true
  unfolding contains
  contains-tail w v vs h = ground arith

  contains-head : (v : String) (vs : List String) → contains v (v ∷ vs) ≡ true
  unfolding contains
  contains-head v vs = rw eq_refl

  scan-HasCycle :
      (visit : String → Colors → Walk)
      → Visits adj visit
      → Faults visit
      → (stack : List String) (u : String) (vs : List String) (c : Colors) (p : List String)
      → ((w : String) → contains w vs ≡ true → Edge adj u w)
      → Below c u
      → scan adj visit stack vs c ≡ circular p
      → HasCycle
  unfolding scan
  scan-HasCycle visit ok faults stack u [] c p edges below h = cc
  scan-HasCycle visit ok faults stack u (v ∷ vs) c p edges below h = go (c v) refl h (λ d b r.
      scan-HasCycle visit ok faults stack u vs d p (λ w m. edges w (contains-tail w v vs m)) b r)
    where
      edge : Edge adj u v
      edge = edges v (contains-head v vs)

      go :
          (k : Color)
          → c v ≡ k
          → (elim k [
            | white ↦ visit v c >>= scan adj visit stack vs
            | gray ↦ circular (stack ++ v ∷ [])
            | black ↦ scan adj visit stack vs c
          ])
            ≡ circular p
          → ((d : Colors) → Below d u → scan adj visit stack vs d ≡ circular p → HasCycle)
          → HasCycle
      go white e r rest = elim (>>=-eq-circular (visit v c) (scan adj visit stack vs) p r) [
        | inl fault ↦ faults v c p e (λ g gr. extend (below g gr) edge) fault
        | inr (d, first, later) ↦
            rest d (λ g gr. below g ((ok v c d e first).grows.gray_old g gr)) later
      ]
      go gray e r rest = (v, extend (below v e) edge)
      go black e r rest = rest c below r

  Below-paint : (u : String) (c : Colors) → Leads c u → Below (paint c u gray) u
  Below-paint u c leads g e = elim (Bool-cases (u == g)) [
    | inl same ↦ inl (sym ((eq_iff u g).0 same))
    | inr other ↦ inr (leads g (rw other at e))
  ]

  dfs-HasCycle :
      (n : ℕ) (stack : List String) (u : String) (c : Colors) (p : List String)
      → c u ≡ white
      → Leads c u
      → dfs adj n stack u c ≡ circular p
      → HasCycle
  unfolding dfs
  dfs-HasCycle zero stack u c p w leads h = cc
  dfs-HasCycle (suc n) stack u c p w leads h =
      let visit = λ (v : String). dfs adj n (stack ++ v ∷ []) v in
      let walk = scan adj visit stack (adj u) (paint c u gray) in
      elim (>>=-eq-circular walk (λ d. done (paint d u black)) p h) [
        | inl fault ↦
            scan-HasCycle visit (λ v a b. dfs-Visited adj n (stack ++ v ∷ []) v a b)
              (λ v a q. dfs-HasCycle n (stack ++ v ∷ []) v a q) stack u (adj u) (paint c u gray) p
              (λ w m. m) (Below-paint u c leads) fault
        | inr (d, first, later) ↦ cc
      ]

  pub roots-HasCycle :
      (n : ℕ) (us : List String) (c : Colors) (p : List String)
      → ((v : String) → (c v ≡ gray) → ⊥)
      → roots adj n us c ≡ circular p
      → HasCycle
  unfolding roots
  roots-HasCycle n [] c p free h = cc
  roots-HasCycle n (u ∷ us) c p free h = go (c u) refl h (λ d. roots-HasCycle n us d p)
    where
      go :
          (k : Color)
          → c u ≡ k
          → (elim k [ white ↦ dfs adj n (u ∷ []) u c >>= roots adj n us | _ ↦ roots adj n us c ])
            ≡ circular p
          → ((d : Colors)
              → ((v : String) → (d v ≡ gray) → ⊥)
              → roots adj n us d ≡ circular p
              → HasCycle)
          → HasCycle
      go white e r rest = elim (>>=-eq-circular (dfs adj n (u ∷ []) u c) (roots adj n us) p r) [
        | inl fault ↦ dfs-HasCycle n (u ∷ []) u c p e (λ g gr. absurd (free g gr)) fault
        | inr (d, first, later) ↦
            rest d (λ v g. free v ((dfs-Visited adj n (u ∷ []) u c d e first).grows.gray_old v g))
              later
      ]
      go gray e r rest = rest c free r
      go black e r rest = rest c free r
