-- ===== src/MissionQueue/Mission.antt =====
-- `MissionState`, `Mission` and the dictionary of missions of agent/runtime/mission_queue.py.
-- The keys of the dictionary are the missions' ids, as `_load` checks, so it is a list of missions
-- in the order of insertion.
use mitigate_ai_platform.Prelude.{
  String, ◌≡◌, refl, Bool, true, false, Option, none, some, List, [], ◌∷◌, map, ◌==◌, if◌then◌else◌,
  contains, ℤ,
}

pub data MissionState : Type 0 where
  pending running retrying completed failed blocked cancelled : MissionState

pub record Mission : Type 0 where
  pub id : String
  pub priority : ℤ
  pub dependencies : List String
  pub state : MissionState
  pub created_seq : ℤ
  pub attempts_done : ℤ
  pub max_retries : ℤ

pub record Queue : Type 0 where
  pub missions : List Mission
  pub next_seq : ℤ

-- The exceptions that the methods raise.
pub data QueueError : Type 0 where
  mission_exists mission_not_found : String → QueueError
  self_dependency : String → QueueError
  circular_dependency : List String → QueueError
  dequeue_running dequeue_dependency : QueueError
  complete_not_running fail_not_running retry_not_failed no_retry_left : QueueError
  block_not_active cancel_final resume_not_blocked : QueueError
  not_valid_json root_not_object unsupported_version missions_not_mapping : QueueError
  invalid_entry id_mismatch duplicate_id : QueueError
  invalid_state invalid_dependencies missing_key refused_conversion : QueueError
  search_out_of_fuel : QueueError

pub data Result {ℓ} (A : Type ℓ) : Type ℓ where
  ok : A → Result A
  err : QueueError → Result A

-- `if not condition: raise`
abbrev pub guard : (condition : Bool) → QueueError → Result (Unit {0})
guard false raised = err raised
guard true _ = ok tt

infixl 5 ◌>>=◌ ◌>>◌
abbrev pub ◌>>=◌ {ℓ κ} : {A : Type ℓ} {B : Type κ} → Result A → (A → Result B) → Result B
err raised >>= next = err raised
ok value >>= next = next value

-- Inversion of a bind that succeeds.
pub bind-ok {κ ℓ} :
    {B : Type κ} {A : Type ℓ} (call : Result A) (next : A → Result B) {final : B}
    → (call >>= next) ≡ ok final
    → (value : A) × (call ≡ ok value) × (next value ≡ ok final)
bind-ok (err raised) next returns = cc
bind-ok (ok value) next returns = (value, refl, returns)

abbrev pub ◌>>◌ {ℓ} : {B : Type ℓ} → Result (Unit {0}) → Result B → Result B
first >> second = first >>= λ _. second

-- Tests on the enumeration.
abbrev pub is_pending : MissionState → Bool
is_pending pending = true
is_pending _ = false

abbrev pub is_running : MissionState → Bool
is_running running = true
is_running _ = false

abbrev pub is_retrying : MissionState → Bool
is_retrying retrying = true
is_retrying _ = false

abbrev pub is_completed : MissionState → Bool
is_completed completed = true
is_completed _ = false

abbrev pub is_failed : MissionState → Bool
is_failed failed = true
is_failed _ = false

abbrev pub is_blocked : MissionState → Bool
is_blocked blocked = true
is_blocked _ = false

abbrev pub is_cancelled : MissionState → Bool
is_cancelled cancelled = true
is_cancelled _ = false

abbrev pub ids : List Mission → List String
ids ms = map (λ m. m.id) ms

-- `self._missions.get(mission_id)`
unfoldable pub find : String → List Mission → Option Mission
find u [] = none
find u (m ∷ ms) = if m.id == u then some m else find u ms

-- `self._missions[m.id] = m`: in place of the entry with that key, else at the end.
unfoldable pub put : Mission → List Mission → List Mission
put m [] = m ∷ []
put m (x ∷ xs) = let rest = put m xs in if x.id == m.id then m ∷ xs else x ∷ rest

-- `del self._missions[mission_id]`
unfoldable pub remove : String → List Mission → List Mission
remove u [] = []
remove u (m ∷ ms) = let rest = remove u ms in if m.id == u then ms else m ∷ rest

-- The keys of a dictionary are distinct.
abbrev pub Distinct : List Mission → Type 0
Distinct [] = Unit
Distinct (m ∷ ms) = (contains m.id (ids ms) ≡ false) × Distinct ms
