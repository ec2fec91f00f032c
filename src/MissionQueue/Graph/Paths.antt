-- ===== src/MissionQueue/Graph/Paths.antt =====
-- Chains of a relation, and the vertices from which every chain is finite.
use mitigate_ai_platform.Prelude.{String, ◌≡◌, true, List, contains}

-- `v` is one of the vertices that `adj` lists at `u`.
abbrev pub Edge : (String → List String) → String → String → Type 0
Edge adj u v = contains v (adj u) ≡ true

module _ (R : String → String → Type 0) where
  -- A path of at least one edge.
  pub data Chain : String → String → Type 0 where
    one : {u v : String} → R u v → Chain u v
    more : {u v w : String} → R u v → Chain v w → Chain u w

  -- Every chain from `u` is finite.
  pub data Grounded : String → Type 0 where
    ground_at : {u : String} → ((v : String) → R u v → Grounded v) → Grounded u

  pub Chain-snoc : {u v w : String} → Chain u v → R v w → Chain u w
  Chain-snoc (one e) f = more e (one f)
  Chain-snoc (more e p) f = more e (Chain-snoc p f)

  -- A grounded vertex lies on no cycle.
  pub Grounded→not-Chain : {u : String} → Grounded u → ¬ Chain u u
  Grounded→not-Chain (ground_at below) (one e) = Grounded→not-Chain (below _ e) (one e)
  Grounded→not-Chain (ground_at below) (more e p) = Grounded→not-Chain (below _ e) (Chain-snoc p e)

pub Chain-map :
    (R S : String → String → Type 0)
    → ((u v : String) → R u v → S u v)
    → {u v : String} → Chain R u v
    → Chain S u v
Chain-map R S f (one e) = one (f _ _ e)
Chain-map R S f (more e p) = more (f _ _ e) (Chain-map R S f p)
