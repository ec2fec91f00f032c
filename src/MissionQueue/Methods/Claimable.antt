-- ===== src/MissionQueue/Methods/Claimable.antt =====
-- What `claim` of agent/runtime/mission_queue.py promises of the mission that it takes, said without
-- its filter and its sort key: which missions may be claimed, and which of them goes first.
use mitigate_ai_platform.Prelude.{
  String, Bool, true, false, ◌||◌, Option, none, some, List, [], ◌∷◌, ◌≡◌, ◌⊎◌, inl, inr, refl, ap,
  subst, arith, ◌==◌, eq_iff, eq_refl, contains, all, str_lt, ◌<ℤ◌, eq_ℤ, ℤ, Bool-cases,
}
use mitigate_ai_platform.MissionQueue.Mission.{
  Mission, MissionState, pending, retrying, completed, find, is_pending, is_retrying, is_completed,
}
use mitigate_ai_platform.MissionQueue.Methods.Order.{precedes}
use mitigate_ai_platform.MissionQueue.Methods.{eligible, deps_completed, completed_entry}

-- The dependency is the id of a mission that is completed.
pub record IsDone (ms : List Mission) (d : String) : Type 0 where
  pub entry : Mission
  pub at_key : find d ms ≡ some entry
  pub done : entry.state ≡ completed

-- The mission waits, for its first attempt or for another, and all that it depends on is done.
pub record IsClaimable (ms : List Mission) (m : Mission) : Type 0 where
  pub waits : (m.state ≡ pending) ⊎ (m.state ≡ retrying)
  pub ready : (d : String) → contains d m.dependencies ≡ true → IsDone ms d

-- The mission `m` goes no later than `x`: its priority is higher, or it is the same and `m` was
-- created earlier, or that is the same too and the id of `x` is not the smaller one.
abbrev pub GoesFirst : Mission → Mission → Type 0
GoesFirst m x =
    (x.priority <ℤ m.priority)
    ⊎ (m.priority ≡ x.priority)
      × ((m.created_seq <ℤ x.created_seq)
          ⊎ (m.created_seq ≡ x.created_seq) × (str_lt x.id m.id ≡ false))

all-contains :
    (p : String → Bool) (ds : List String) (d : String)
    → all p ds ≡ true
    → contains d ds ≡ true
    → p d ≡ true
unfolding contains
all-contains p [] d h e = cc
all-contains p (x ∷ xs) d h e = elim (Bool-cases (x == d)) [
  | inl same ↦ subst (λ y. p y ≡ true) ((eq_iff x d).0 same) (ground (arith, h))
  | inr other ↦ all-contains p xs d (ground (arith, h)) (rw other at e)
]

all_of_contains :
    (p : String → Bool) (ds : List String)
    → ((d : String) → contains d ds ≡ true → p d ≡ true)
    → all p ds ≡ true
unfolding contains
all_of_contains p [] h = refl
all_of_contains p (x ∷ xs) h =
    rw (h x (rw eq_refl refl)) (all_of_contains p xs λ d e. h d (ground (arith, e)))

completed_entry-IsDone :
    (ms : List Mission) (d : String) → completed_entry (find d ms) ≡ true → IsDone ms d
completed_entry-IsDone ms d h = go (find d ms) refl h
  where
    is_done : (s : MissionState) → is_completed s ≡ true → s ≡ completed
    is_done completed h = refl
    is_done _ h = cc

    go : (o : Option Mission) → find d ms ≡ o → completed_entry o ≡ true → IsDone ms d
    go none e h = cc
    go (some m) e h = record { entry = m; at_key = e; done = is_done m.state h }

-- What passes the test of `claim` may be claimed.
pub eligible-IsClaimable :
    (ms : List Mission) (m : Mission) → eligible ms m ≡ true → IsClaimable ms m
unfolding eligible deps_completed
eligible-IsClaimable ms m h = record {
  waits = waiting m.state (ground (arith, h));
  ready = λ d e.
      completed_entry-IsDone ms d
        (all-contains (λ d. completed_entry (find d ms)) m.dependencies d (ground (arith, h)) e);
}
  where
    waiting :
        (s : MissionState) → (is_pending s || is_retrying s) ≡ true → (s ≡ pending) ⊎ (s ≡ retrying)
    waiting pending h = inl refl
    waiting retrying h = inr refl
    waiting _ h = cc

-- What may be claimed passes the test of `claim`.
pub IsClaimable-eligible :
    (ms : List Mission) (m : Mission) → IsClaimable ms m → eligible ms m ≡ true
unfolding eligible deps_completed
IsClaimable-eligible ms m c =
    let deps : all (λ d. completed_entry (find d ms)) m.dependencies ≡ true =
      all_of_contains (λ d. completed_entry (find d ms)) m.dependencies
        λ d e. let k = c.ready d e in rw k.at_key (ap is_completed k.done) in
    elim c.waits [ inl e ↦ rw e deps | inr e ↦ rw e deps ]

eq_ℤ-≡ : (a b : ℤ) → eq_ℤ a b ≡ true → a ≡ b
eq_ℤ-≡ a b h = ground (arith, h)

-- What does not stand behind another in the order of the sort key goes first.
pub precedes-GoesFirst : (m x : Mission) → precedes x m ≡ false → GoesFirst m x
unfolding precedes
precedes-GoesFirst m x h = ground (arith, h)
