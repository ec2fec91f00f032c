-- ===== src/MissionQueue/Graph.antt =====
-- The depth-first search of `MissionQueue._validate_no_cycles` (agent/runtime/mission_queue.py),
-- over any graph: `adj u` is `graph.get(u, [])`, and the dictionary of colours is a function.
pub mod Paths
pub mod Sound
pub mod Complete
pub mod Total
use mitigate_ai_platform.Prelude.{
  ℕ, zero, suc, String, Bool, List, [], ◌∷◌, ◌++◌, ◌==◌, if◌then◌else◌,
}

pub data Color : Type 0 where
  white gray black : Color

abbrev pub Colors : Type 0
Colors = String → Color

-- `color[u] = k`
abbrev pub paint : Colors → String → Color → Colors
paint c u k v = if u == v then k else c v

-- How a walk ends: with the colours, with `raise ValueError` on a back edge, whose message lists
-- the stack, or without fuel, which `Total` excludes.
pub data Walk : Type 0 where
  done : Colors → Walk
  circular : List String → Walk
  no_fuel : Walk

infixl 5 ◌>>=◌
abbrev pub ◌>>=◌ : Walk → (Colors → Walk) → Walk
done c >>= f = f c
circular p >>= f = circular p
no_fuel >>= f = no_fuel

module _ (adj : String → List String) where
  -- The loop `for v in graph.get(u, [])`; `visit` is the call `dfs(v, stack + (v,))`.
  unfoldable pub scan : (String → Colors → Walk) → List String → List String → Colors → Walk
  scan visit stack [] c = done c
  scan visit stack (v ∷ vs) c = elim (c v) [
    | white ↦ visit v c >>= scan visit stack vs
    | gray ↦ circular (stack ++ v ∷ [])
    | black ↦ scan visit stack vs c
  ]

  unfoldable pub dfs : ℕ → List String → String → Colors → Walk
  dfs zero stack u c = no_fuel
  dfs (suc n) stack u c = do
    c' ← scan (λ v. dfs n (stack ++ v ∷ []) v) stack (adj u) (paint c u gray)
    done (paint c' u black)

  -- The loop `for node in sorted(graph.keys())`.
  unfoldable pub roots : ℕ → List String → Colors → Walk
  roots n [] c = done c
  roots n (u ∷ us) c = elim (c u) [ white ↦ dfs n (u ∷ []) u c >>= roots n us | _ ↦ roots n us c ]

abbrev pub all_white : Colors
all_white u = white
