-- ===== src/RepairLoop/Plans.antt =====
-- The plans of `RepairLoop` (agent/repair/repair_loop.py) over any sequence of calls.
use mitigate_ai_platform.Prelude.{
  ℕ, suc, ◌+◌, ◌≤◌, ◌<◌, Bool, true, false, not, ◌&&◌, Option, none, some, List, [], ◌∷◌, length,
  leb, if◌then◌else◌, Bool-cases, inl, inr, ◌≡◌, ◌⊎◌, pos, refl, subst, arith,
}
use mitigate_ai_platform.RepairLoop.{
  RepairLoop, Planned, plan_of, no_plan, plan_raises, planned, bump, new_loop, pending, Constraint,
  has_blocking_flag, record_failure, plan_repair, mark_validating, mark_succeeded, maybe_exhaust,
  is_settled,
}

-- A call of a method. `plan_repair` is called with constraints, and with arguments from which the plan
-- can be built, or not.
pub data Call (F : Type 0) : Type 0 where
  fail : F → Call F
  plan : Constraint → (builds : Bool) → Call F
  validate succeed exhaust : Call F

-- A plan, of which only the attempt number matters here.
abbrev make_of : Bool → ℕ → Option ℕ
make_of true n = some n
make_of false n = none

-- The numbers in their order: each one is above `k` and those before it, and none is above `limit`.
abbrev pub Ascending : ℕ → List ℕ → ℕ → Type 0
Ascending k [] limit = Unit
Ascending k (n ∷ ns) limit = (k < n) × (n ≤ limit) × Ascending n ns limit

abbrev collect : Planned ℕ → List ℕ → List ℕ
collect (plan_of n) ns = n ∷ ns
collect no_plan ns = ns
collect plan_raises ns = ns

-- Numbers above a larger one are above a smaller one.
Ascending-lower :
    (j k limit : ℕ) (ns : List ℕ) → j ≤ k → Ascending k ns limit → Ascending j ns limit
Ascending-lower j k limit [] h a = tt
Ascending-lower j k limit (n ∷ ns) h a = (omega (arith, h, a.0), a.1, a.2)

module _ {F : Type 0} where
  -- What a call of `plan_repair` gives, the number of its plan, and the loop after the call.
  unfoldable pub call : Call F → RepairLoop F → Planned ℕ × RepairLoop F
  unfolding plan_repair record_failure mark_validating mark_succeeded maybe_exhaust
  call (fail f) l = (no_plan, record_failure f l)
  call (plan c builds) l = plan_repair (make_of builds) c l
  call validate l = (no_plan, mark_validating l)
  call succeed l = (no_plan, mark_succeeded l)
  call exhaust l = (no_plan, maybe_exhaust l)

  -- The numbers of the plans, in order, and the loop after the calls.
  unfoldable pub call_all : List (Call F) → RepairLoop F → List ℕ × RepairLoop F
  unfolding call
  call_all [] l = ([], l)
  call_all (c ∷ cs) l =
      let first = call c l in let rest = call_all cs first.1 in (collect first.0 rest.0, rest.1)

  -- A call gives no plan and leaves the number; or it uses the next number, within the limit, up, and
  -- returns the plan with that number or raises.
  abbrev IsStep : RepairLoop F → Planned ℕ × RepairLoop F → Type 0
  IsStep l r =
      (r.1.max_attempts ≡ l.max_attempts)
      × ((r.0 ≡ no_plan) × (r.1.attempt_number ≡ l.attempt_number)
          ⊎ ((r.0 ≡ plan_of (suc l.attempt_number)) ⊎ (r.0 ≡ plan_raises))
            × (r.1.attempt_number ≡ suc l.attempt_number)
            × (suc l.attempt_number ≤ l.max_attempts))

  call-IsStep : (c : Call F) (l : RepairLoop F) → IsStep l (call c l)
  unfolding call
  call-IsStep (fail f) l = (refl, inl (refl, refl))
  call-IsStep (plan c builds) l = elim (Bool-cases (has_blocking_flag c)) [
    | inl flagged ↦ rw flagged (refl, inl (refl, refl))
    | inr free ↦ elim (Bool-cases (leb l.max_attempts l.attempt_number)) [
      | inl spent ↦ rw free (rw spent (refl, inl (refl, refl)))
      | inr left ↦ rw free (rw left (bumped builds (ground (arith, left))))
    ]
  ]
    where
      bumped :
          (b : Bool)
          → suc l.attempt_number ≤ l.max_attempts
          → IsStep l (planned (bump l) (make_of b (suc l.attempt_number)))
      bumped true h = (refl, inr (inl refl, refl, h))
      bumped false h = (refl, inr (inr refl, refl, h))
  call-IsStep validate l = (refl, inl (refl, refl))
  call-IsStep succeed l = (refl, inl (refl, refl))
  call-IsStep exhaust l =
      elim (Bool-cases (leb l.max_attempts l.attempt_number && not (is_settled l.state))) [
        | inl over ↦ rw over (refl, inl (refl, refl))
        | inr under ↦ rw under (refl, inl (refl, refl))
      ]

  -- The numbers of the plans that calls return, their count, and the number of the loop after them.
  abbrev IsBounded : RepairLoop F → List ℕ × RepairLoop F → Type 0
  IsBounded l r =
      Ascending l.attempt_number r.0 l.max_attempts
      × (l.attempt_number + length r.0 ≤ r.1.attempt_number)
      × (r.1.attempt_number ≤ l.max_attempts)

  numbers-next :
      (cs : List (Call F)) (l : RepairLoop F)
      → l.attempt_number ≤ l.max_attempts
      → IsBounded l (call_all cs l)
  unfolding call_all
  numbers-next [] l h = (tt, omega arith, h)
  numbers-next (c ∷ cs) l h =
      let r = call c l in
      let (same, either) = call-IsStep c l in
      elim either [
        | inl (nothing, number) ↦
            let rest = numbers-next cs r.1 (omega (arith, h, same, number)) in
            rw nothing (limited r.1 (call_all cs r.1) rest same (omega (arith, number)))
        | inr (result, number, room) ↦
            let rest = numbers-next cs r.1 (omega (arith, room, same, number)) in
            elim result [
              | inl one ↦ rw one (
                (
                  omega arith,
                  room,
                  subst (λ k. Ascending k (call_all cs r.1).0 l.max_attempts) number
                      (subst (λ k. Ascending r.1.attempt_number (call_all cs r.1).0 k) same rest.0),
                ),
                omega (arith, rest.1, number),
                omega (arith, rest.2, same),
              )
              | inr raised ↦
                  rw raised (limited r.1 (call_all cs r.1) rest same (omega (arith, number)))
            ]
      ]
    where
      limited :
          (k : RepairLoop F) (x : List ℕ × RepairLoop F)
          → IsBounded k x
          → k.max_attempts ≡ l.max_attempts
          → l.attempt_number ≤ k.attempt_number
          → IsBounded l x
      limited k x b same le = (
        Ascending-lower l.attempt_number k.attempt_number l.max_attempts x.0 le
            (subst (λ n. Ascending k.attempt_number x.0 n) same b.0),
        omega (arith, b.1, le),
        omega (arith, b.2, same),
      )

  -- The repairs are bounded: whatever calls are made on a new loop, in whatever order, and also where
  -- `plan_repair` raises after it has used a number up, the plans that it returns have numbers from 1 to
  -- `max_attempts` that grow from plan to plan, and plans and raising calls together use up no more
  -- numbers than that.
  pub call_all-bounded :
      (n : ℕ) (l : RepairLoop F) (cs : List (Call F))
      → new_loop (pos n) ≡ some l
      → Ascending 0 (call_all cs l).0 n
        × (length (call_all cs l).0 ≤ (call_all cs l).1.attempt_number)
        × ((call_all cs l).1.attempt_number ≤ n)
  unfolding new_loop
  call_all-bounded n l cs h = started (leb 1 n) h
    where
      start : RepairLoop F
      start = record { max_attempts = n; state = pending; attempt_number = 0; history = [] }

      started :
          (b : Bool)
          → ◌≡◌ {A = Option (RepairLoop F)} (if b then some start else none) (some l)
          → Ascending 0 (call_all cs l).0 n
            × (length (call_all cs l).0 ≤ (call_all cs l).1.attempt_number)
            × ((call_all cs l).1.attempt_number ≤ n)
      started true k =
          let same : start ≡ l = cc in
          subst
            (λ x.
              Ascending 0 (call_all cs x).0 n
              × (length (call_all cs x).0 ≤ (call_all cs x).1.attempt_number)
              × ((call_all cs x).1.attempt_number ≤ n))
            same (let b = numbers-next cs start (omega arith) in (b.0, omega (arith, b.1), b.2))
      started false k = cc
