-- ===== src/MissionQueue/File/RoundTrip.antt =====
-- What `_save` writes, `_load` reads back, up to the order that the file has.
use mitigate_ai_platform.Prelude.{
  String, Bool, Bool-cases, inl, inr, false, ◌||◌, some, List, [], ◌∷◌, ◌++◌, map, ◌≡◌, ◌∙◌, refl,
  ap, sym, arith, ◌==◌, eq_iff, eq_refl, contains, str_lt, ℤ, pos, ◌≤ℤ◌, max_ℤ, All,
  contains-sort_by,
}
use mathlib.Core.List.{append_assoc, append-nil}
use mitigate_ai_platform.MissionQueue.Mission.{
  Mission, MissionState, pending, running, retrying, completed, failed, blocked, cancelled, Queue,
  ok, ids, find, Distinct,
}
use mitigate_ai_platform.MissionQueue.Graph.Paths.{Chain-map}
use mitigate_ai_platform.MissionQueue.Validate.{sorted}
use mitigate_ai_platform.MissionQueue.Validate.Acyclic.{DependsOn, Acyclic, Acyclic-validate}
use mitigate_ai_platform.MissionQueue.File.Sorting.{
  contains-sort_by as contains-by_order, Distinct-sort_by, find-sort_by,
}
use mitigate_ai_platform.MissionQueue.File.{
  raw_mission, raw_entry, RawEntry, load_object, value, state_of, to_dict, from_dict, by_id,
  serialize_state, load_missions, load, save,
}

-- The state that `_load` and every method keep.
pub record WellFormed (q : Queue) : Type 0 where
  pub distinct : Distinct q.missions
  pub acyclic : Acyclic q.missions
  pub counting : pos 1 ≤ℤ q.next_seq

-- A mission with its dependencies in order, as the file has it.
abbrev pub canonical : Mission → Mission
canonical m = record m { dependencies = sorted m.dependencies }

-- The queue as the file has it.
abbrev pub canonical_queue : Queue → Queue
canonical_queue q = record q { missions = map canonical (by_id q.missions) }

state_of-value : (s : MissionState) → state_of (value s) ≡ some s
unfolding state_of value
state_of-value pending = refl
state_of-value running = refl
state_of-value retrying = refl
state_of-value completed = refl
state_of-value failed = refl
state_of-value blocked = refl
state_of-value cancelled = refl

-- A mission survives `to_dict` and `from_dict`; only the order of its dependencies may change.
pub from_dict-to_dict : (m : Mission) → from_dict (raw_mission (to_dict m)) ≡ ok (canonical m)
unfolding from_dict to_dict
from_dict-to_dict m = rw (state_of-value m.state)

ids-canonical : (ms : List Mission) → ids (map canonical ms) ≡ ids ms
ids-canonical [] = refl
ids-canonical (m ∷ ms) = cc (ids-canonical ms)

abbrev entries : List Mission → List (String × RawEntry)
entries ms = map raw_entry (map (λ m. (m.id, to_dict m)) ms)

pub contains_snoc :
    (u : String) (ms : List Mission) (m : Mission)
    → contains u (ids (ms ++ m ∷ [])) ≡ (contains u (ids ms) || m.id == u)
unfolding contains
contains_snoc u [] m = ground arith
contains_snoc u (x ∷ xs) m = ground (arith, contains_snoc u xs m)

-- The keys of the second list are new to the first.
abbrev New : List Mission → List Mission → Type 0
New acc ms = All (λ m. contains m.id (ids acc) ≡ false) ms

New-snoc :
    (acc : List Mission) (m : Mission) (ms : List Mission)
    → New acc ms
    → contains m.id (ids ms) ≡ false
    → New (acc ++ canonical m ∷ []) ms
unfolding contains
New-snoc acc m [] n d = tt
New-snoc acc m (x ∷ xs) n d = (
  ground (arith, contains_snoc x.id acc (canonical m), eq_iff m.id x.id, eq_iff x.id m.id, n.0),
  New-snoc acc m xs n.1 (ground arith),
)

load_missions-entries :
    (acc ms : List Mission)
    → New acc ms
    → Distinct ms
    → load_missions acc (entries ms) ≡ ok (acc ++ map canonical ms)
unfolding load_missions
load_missions-entries acc [] n d = ap ok (sym (append-nil acc))
load_missions-entries acc (m ∷ ms) n d = rw (from_dict-to_dict m) (
    rw eq_refl (
      rw n.0 (
        load_missions-entries (acc ++ canonical m ∷ []) ms (New-snoc acc m ms n.1 d.0) d.1
        ∙ ap ok (append_assoc acc (canonical m ∷ []) (map canonical ms)))))

New-nil : (ms : List Mission) → New [] ms
unfolding contains
New-nil [] = tt
New-nil (m ∷ ms) = (refl, New-nil ms)

Distinct-canonical : (ms : List Mission) → Distinct ms → Distinct (map canonical ms)
Distinct-canonical [] d = tt
Distinct-canonical (m ∷ ms) d = (rw (ids-canonical ms) d.0, Distinct-canonical ms d.1)

find-canonical :
    (u : String) (ms : List Mission) (m' : Mission)
    → find u (map canonical ms) ≡ some m'
    → (m : Mission) × (find u ms ≡ some m) × (canonical m ≡ m')
unfolding find
find-canonical u [] m' h = cc
find-canonical u (x ∷ xs) m' h = elim (Bool-cases (x.id == u)) [
  | inl same ↦ let e : some (canonical x) ≡ some m' = rw same at h in (x, rw same, cc)
  | inr other ↦ let (m, at, e) = find-canonical u xs m' (rw other at h) in (m, rw other at, e)
]

-- The dependencies that the file records are those of the queue.
DependsOn-canonical :
    (ms : List Mission)
    → Distinct ms
    → (u v : String) → DependsOn (map canonical (by_id ms)) u v
    → DependsOn ms u v
DependsOn-canonical ms distinct u v d =
    let before : Mission → Mission → Bool = λ a b. str_lt a.id b.id in
    let (m, at, e) = find-canonical u (by_id ms) d.mission d.at_key in
    record {
      mission = m;
      at_key = sym (find-sort_by before u ms distinct) ∙ at;
      named =
          sym (contains-sort_by str_lt v m.dependencies)
          ∙ ap (λ (x : Mission). contains v x.dependencies) e
          ∙ d.named;
      known =
          sym (contains-by_order before v ms)
          ∙ sym (ap (contains v) (ids-canonical (by_id ms)))
          ∙ d.known;
    }

-- The queue that the file has is well formed too.
pub WellFormed-canonical : (q : Queue) → WellFormed q → WellFormed (canonical_queue q)
WellFormed-canonical q w = record {
  distinct = Distinct-canonical (by_id q.missions) (Distinct-sort_by _ q.missions w.distinct);
  acyclic = λ u p. w.acyclic u (Chain-map _ _ (DependsOn-canonical q.missions w.distinct) p);
  counting = w.counting;
}

max-next_seq : (n : ℤ) → pos 1 ≤ℤ n → max_ℤ (pos 1) n ≡ n
max-next_seq n h = ground arith

-- A well-formed queue that is saved is loaded again as it was, with its missions and their
-- dependencies in order.
pub load-save : (q : Queue) → WellFormed q → load (save q) ≡ ok (canonical_queue q)
unfolding load load_object save serialize_state
load-save q w =
    let sorted_distinct = Distinct-sort_by _ q.missions w.distinct in
    let back = WellFormed-canonical q w in
    rw (load_missions-entries [] (by_id q.missions) (New-nil _) sorted_distinct) (
      rw (Acyclic-validate (canonical_queue q).missions back.distinct back.acyclic)
        (rw (max-next_seq q.next_seq w.counting)))
