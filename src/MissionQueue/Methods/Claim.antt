-- ===== src/MissionQueue/Methods/Claim.antt =====
-- Which mission `claim` of agent/runtime/mission_queue.py takes, and what the call changes.
use mitigate_ai_platform.Prelude.{
  true, false, ◌&&◌, ◌||◌, none, some, List, [], ◌∷◌, ◌≡◌, refl, inl, inr, Bool-cases, ℤ, ltb_ℤ,
  eq_ℤ, str_lt, lex_cotrans, ltb_ℤ_cotrans, eq_ℤ_split, arith, subst, str_lt_cotrans, str_lt_asym,
  sort_by, filter_by, All-Elem, Elem, Elem-sort_by, Elem-filter_by, IsStrict, IsSorted,
  sort_by-IsSorted,
}
use mitigate_ai_platform.MissionQueue.Mission.{Mission, Queue, find, put, running, ok}
use mitigate_ai_platform.MissionQueue.File.{to_dict}
use mitigate_ai_platform.MissionQueue.File.RoundTrip.{WellFormed}
use mitigate_ai_platform.MissionQueue.Methods.Order.{precedes}
use mitigate_ai_platform.MissionQueue.Methods.Keep.{choose_sound}
use mitigate_ai_platform.MissionQueue.Methods.{choose, eligible, first, claim_body}
use mitigate_ai_platform.MissionQueue.Methods.Claimable.{
  IsClaimable, GoesFirst, eligible-IsClaimable, IsClaimable-eligible, precedes-GoesFirst,
}

precedes_asym : (a b : Mission) → precedes a b ≡ true → precedes b a ≡ false
unfolding precedes
precedes_asym a b h = ground (arith, str_lt_asym a.id b.id)

-- A larger priority first: the order of the negated priorities.
priority_cotrans : (a b c : ℤ) → ltb_ℤ c a ≡ true → (ltb_ℤ b a || ltb_ℤ c b) ≡ true
priority_cotrans a b c h = ground arith

priority_split :
    (a b c : ℤ) → eq_ℤ a c ≡ true → ((eq_ℤ a b && eq_ℤ b c) || (ltb_ℤ b a || ltb_ℤ c b)) ≡ true
priority_split a b c h = ground arith

precedes_cotrans : (a b c : Mission) → precedes a c ≡ true → (precedes a b || precedes b c) ≡ true
unfolding precedes
precedes_cotrans =
    lex_cotrans (λ a b. ltb_ℤ b.priority a.priority) (λ a b. eq_ℤ a.priority b.priority)
      (λ a b.
        ltb_ℤ a.created_seq b.created_seq || (eq_ℤ a.created_seq b.created_seq && str_lt a.id b.id))
      (λ a b c. priority_cotrans a.priority b.priority c.priority)
      (λ a b c. priority_split a.priority b.priority c.priority)
      (lex_cotrans (λ a b. ltb_ℤ a.created_seq b.created_seq)
        (λ a b. eq_ℤ a.created_seq b.created_seq) (λ a b. str_lt a.id b.id)
        (λ a b c. ltb_ℤ_cotrans a.created_seq b.created_seq c.created_seq)
        (λ a b c. eq_ℤ_split a.created_seq b.created_seq c.created_seq)
        (λ a b c. str_lt_cotrans a.id b.id c.id))

precedes-IsStrict : IsStrict precedes
precedes-IsStrict = record { asym = precedes_asym; cotrans = precedes_cotrans }

-- No mission stands in front of the first of a sorted list.
first_least :
    (ms : List Mission) (m x : Mission)
    → IsSorted precedes ms
    → first ms ≡ some m
    → Elem x ms
    → precedes x m ≡ false
first_least (y ∷ ys) m x s h e =
    let e' : y ≡ m = cc in
    subst (λ z. precedes x z ≡ false) e'
      (elim e [
        | inl here ↦
            subst (λ z. precedes z y ≡ false) here
              (elim (Bool-cases (precedes y y)) [ inl k ↦ precedes_asym y y k | inr k ↦ k ])
        | inr later ↦ All-Elem (λ z. precedes z y ≡ false) ys s.0 later
      ])
first_least [] m x s h e = absurd e

-- Where `claim` chooses a mission `m` of a well-formed queue: it returns `m` as running and saves the
-- queue with it. `m` is a mission of the queue that waits, all whose dependencies are completed, and
-- it goes first among those: no other such mission `x` has a higher priority, the same one and an
-- earlier sequence number, or both the same and a smaller id.
pub choose-least :
    (q : Queue) (m : Mission)
    → WellFormed q
    → choose q.missions ≡ some m
    → (claim_body q
        ≡ ok (
          some (to_dict (record m { state = running })),
          some (record q { missions = put (record m { state = running }) q.missions }),
        ))
      × (find m.id q.missions ≡ some m)
      × IsClaimable q.missions m
      × ((x : Mission) → Elem x q.missions → IsClaimable q.missions x → GoesFirst m x)
unfolding choose claim_body
choose-least q m w h =
    let (at, may) = choose_sound q m w h in
    let fits = filter_by (eligible q.missions) q.missions in
    (
      rw h refl,
      at,
      eligible-IsClaimable q.missions m may,
      λ x e c. precedes-GoesFirst m x (
          first_least (sort_by precedes fits) m x (sort_by-IsSorted precedes precedes-IsStrict fits)
            h
            (Elem-sort_by precedes x fits (
              Elem-filter_by (eligible q.missions) x q.missions e
                (IsClaimable-eligible q.missions x c)))),
    )

-- Where `claim` chooses nothing, it returns nothing and saves nothing, and no mission of the queue
-- waits with all its dependencies completed.
pub choose-none :
    (q : Queue)
    → choose q.missions ≡ none
    → (claim_body q ≡ ok (none, none))
      × ((x : Mission) → Elem x q.missions → ¬ IsClaimable q.missions x)
unfolding choose claim_body
choose-none q h = (
  rw h refl,
  λ x e c. no_first x (sort_by precedes (filter_by (eligible q.missions) q.missions)) h (
      Elem-sort_by precedes x (filter_by (eligible q.missions) q.missions) (
        Elem-filter_by (eligible q.missions) x q.missions e (IsClaimable-eligible q.missions x c))),
)
  where
    no_first : (x : Mission) (ys : List Mission) → first ys ≡ none → ¬ Elem x ys
    no_first x [] r m = m
    no_first x (y ∷ ys) r m = cc
