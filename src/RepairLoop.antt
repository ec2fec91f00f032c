-- ===== src/RepairLoop.antt =====
-- `RepairLoop`, agent/repair/repair_loop.py. `F` are the failure records, which are only kept, and
-- `make` stands for what `plan_repair` does from `_deep_freeze` to the new `RepairPlan`: it builds the
-- plan of an attempt number from the other arguments, without a look at the loop, and gives `none`
-- where that raises, as for constraints that cannot be sorted or encoded.
pub mod Plans
use mitigate_ai_platform.Prelude.{
  ℕ, suc, String, Bool, true, false, not, ◌&&◌, ◌||◌, Option, none, some, List, [], ◌∷◌, ◌++◌, leb,
  ltb, if◌then◌else◌, contains, ℤ, pos, negsuc,
}

pub data RepairState : Type 0 where
  pending diagnosing repair_planned validating succeeded exhausted blocked : RepairState

-- The constraints of a plan: texts, mappings, lists, tuples and sets, and values of other types.
mutual
  pub data Constraint : Type 0 where
    no_constraint other_value : Constraint
    text : String → Constraint
    mapping : Pairs → Constraint
    sequence : Items → Constraint

  pub data Items : Type 0 where
    no_items : Items
    item : Constraint → Items → Items

  pub data Pairs : Type 0 where
    no_pairs : Pairs
    pair : Constraint → Constraint → Pairs → Pairs

abbrev blocking_flags : List String
blocking_flags =
    "protected_core_access" ∷ "canonical_recovery_test_access" ∷ "unavailable_core_protection"
    ∷ "security_policy_bypass" ∷ "repository_safety_bypass" ∷ "provider_auth_intervention" ∷ []

-- `_has_blocking_flag`
unfoldable mutual
  unfolding contains

  pub has_blocking_flag : Constraint → Bool
  has_blocking_flag no_constraint = false
  has_blocking_flag other_value = false
  has_blocking_flag (text s) = contains s blocking_flags
  has_blocking_flag (mapping ps) = pairs_have_flag ps
  has_blocking_flag (sequence xs) = items_have_flag xs

  pub items_have_flag : Items → Bool
  items_have_flag no_items = false
  items_have_flag (item c xs) = has_blocking_flag c || items_have_flag xs

  pub pairs_have_flag : Pairs → Bool
  pairs_have_flag no_pairs = false
  pairs_have_flag (pair k v ps) = (has_blocking_flag k || has_blocking_flag v) || pairs_have_flag ps

pub record RepairLoop (F : Type 0) : Type 0 where
  pub max_attempts : ℕ
  pub state : RepairState
  pub attempt_number : ℕ
  pub history : List F

-- `max_attempts must be a positive integer`
unfoldable pub new_loop : {F : Type 0} → ℤ → Option (RepairLoop F)
new_loop (pos n) =
    if leb 1 n
    then some (record { max_attempts = n; state = pending; attempt_number = 0; history = [] })
    else none
new_loop (negsuc n) = none

abbrev pub is_settled : RepairState → Bool
is_settled blocked = true
is_settled succeeded = true
is_settled _ = false

-- What `plan_repair` does: it returns a plan, it returns `None`, or it raises.
pub data Planned (P : Type 0) : Type 0 where
  plan_of : P → Planned P
  no_plan plan_raises : Planned P

module _ {F : Type 0} where
  abbrev pub in_state : RepairState → RepairLoop F → RepairLoop F
  in_state s l = record {
    max_attempts = l.max_attempts;
    state = s;
    attempt_number = l.attempt_number;
    history = l.history;
  }

  unfoldable pub record_failure : F → RepairLoop F → RepairLoop F
  record_failure f l = record {
    max_attempts = l.max_attempts;
    state = diagnosing;
    attempt_number = l.attempt_number;
    history = l.history ++ f ∷ [];
  }

  -- `self._attempt_number += 1`
  abbrev pub bump : RepairLoop F → RepairLoop F
  bump l = record {
    max_attempts = l.max_attempts;
    state = l.state;
    attempt_number = suc l.attempt_number;
    history = l.history;
  }

  -- The end of `plan_repair`, on the loop whose number is bumped: the state changes only where the plan
  -- is built.
  abbrev pub planned : {P : Type 0} → RepairLoop F → Option P → Planned P × RepairLoop F
  planned l none = (plan_raises, l)
  planned l (some p) = (plan_of p, in_state repair_planned l)

  unfoldable pub plan_repair :
      {P : Type 0} → (ℕ → Option P) → Constraint → RepairLoop F → Planned P × RepairLoop F
  unfolding has_blocking_flag
  plan_repair make constraints l =
      if has_blocking_flag constraints
      then (no_plan, in_state blocked l)
      else if leb l.max_attempts l.attempt_number
      then (no_plan, in_state exhausted l)
      else planned (bump l) (make (suc l.attempt_number))

  unfoldable pub mark_validating : RepairLoop F → RepairLoop F
  mark_validating l = in_state validating l

  unfoldable pub mark_succeeded : RepairLoop F → RepairLoop F
  mark_succeeded l = in_state succeeded l

  unfoldable pub can_retry : RepairLoop F → Bool
  can_retry l = ltb l.attempt_number l.max_attempts && not (is_settled l.state)

  unfoldable pub maybe_exhaust : RepairLoop F → RepairLoop F
  maybe_exhaust l =
      if leb l.max_attempts l.attempt_number && not (is_settled l.state)
      then in_state exhausted l
      else l
