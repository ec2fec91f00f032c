-- ===== src/MissionQueue/Validate.antt =====
-- `MissionQueue._validate_no_cycles` of agent/runtime/mission_queue.py.
pub mod Lookup
pub mod Acyclic
use mitigate_ai_platform.Prelude.{
  String, Option, none, some, List, [], ◌∷◌, if◌then◌else◌, contains, str_lt, sort_by, filter_by,
  length,
}
use mitigate_ai_platform.MissionQueue.Graph.{
  Walk, done, circular, no_fuel, scan, dfs, roots, all_white,
}
use mitigate_ai_platform.MissionQueue.Mission.{
  Mission, Result, ok, err, self_dependency, circular_dependency, search_out_of_fuel, ids, find,
}

-- `sorted` on texts.
abbrev pub sorted : List String → List String
sorted = sort_by str_lt

-- The first mission that depends on itself.
unfoldable pub self_dependent : List Mission → Option String
unfolding contains
self_dependent [] = none
self_dependent (m ∷ ms) = if contains m.id m.dependencies then some m.id else self_dependent ms

-- `sorted([d for d in m.dependencies if d in self._missions])`
unfoldable pub known_dependencies : List Mission → Mission → List String
unfolding contains sort_by
known_dependencies ms m = sorted (filter_by (λ d. contains d (ids ms)) m.dependencies)

abbrev listed : List Mission → Option Mission → List String
listed ms none = []
listed ms (some m) = known_dependencies ms m

-- `graph.get(u, [])`
unfoldable pub graph : List Mission → String → List String
unfolding find known_dependencies
graph ms u = listed ms (find u ms)

abbrev report : Walk → Result (Unit {0})
report (done c) = ok tt
report (circular p) = err (circular_dependency p)
report no_fuel = err search_out_of_fuel

abbrev check_self : Option String → Result (Unit {0}) → Result (Unit {0})
check_self none rest = rest
check_self (some u) rest = err (self_dependency u)

unfoldable pub validate_no_cycles : List Mission → Result (Unit {0})
unfolding self_dependent graph roots dfs scan sort_by
validate_no_cycles ms =
    check_self (self_dependent ms)
      (report (roots (graph ms) (length (ids ms)) (sorted (ids ms)) all_white))
