-- ===== src/MissionQueue/Methods/Keep.antt =====
-- Every method saves a well-formed queue, so the next `_load` succeeds.
use mitigate_ai_platform.Prelude.{
  String, true, not, Option, none, some, List, [], ◌∷◌, map, ◌≡◌, refl, subst, arith, eq_refl,
  contains, ℤ, pos, ◌+ℤ◌, +ℤ_parts, sort_by, filter_by, All, All-mono, All-filter_by,
  All-filter_by_self, All-sort_by,
}
use mitigate_ai_platform.MissionQueue.Mission.{
  Mission, Queue, Result, ok, ids, find, put, remove, Distinct, ◌>>◌, mission_exists,
}
use mitigate_ai_platform.MissionQueue.Validate.{validate_no_cycles}
use mitigate_ai_platform.MissionQueue.Validate.Lookup.{Distinct-put, Distinct-remove, find_later}
use mitigate_ai_platform.MissionQueue.Validate.Acyclic.{validate-Acyclic}
use mitigate_ai_platform.MissionQueue.File.{to_dict}
use mitigate_ai_platform.MissionQueue.File.RoundTrip.{WellFormed}
use mitigate_ai_platform.MissionQueue.Methods.Order.{precedes}
use mitigate_ai_platform.MissionQueue.Methods.Commit.{WellFormed-put}
use mitigate_ai_platform.MissionQueue.Methods.Saves.{
  Saves, Saves-guard, Saves-get, Saves-commit, Saves-validate, Saves-some, Saves-none,
}
use mitigate_ai_platform.MissionQueue.Methods.Command.{
  Command, enqueue, dequeue, claim, recover_stale, complete, fail, retry, block, cancel, resume,
  command_body, Saves-forget,
}
use mitigate_ai_platform.MissionQueue.Methods.{
  commit, new_mission, enqueue_body, dequeue_body, claim_body, recover_stale_body, complete_body,
  fail_body, retry_body, block_body, cancel_body, resume_body, choose, eligible, start, recover_one,
  first, take_up, resume_all,
}

abbrev pub saving : Queue → Result (Unit {0} × Option Queue)
saving q = ok (tt, some q)

-- In a dictionary every entry is found under its key.
find_self : (ms : List Mission) → Distinct ms → All (λ m. find m.id ms ≡ some m) ms
unfolding find
find_self [] d = tt
find_self (x ∷ xs) d = (
  rw eq_refl,
  All-mono (λ m. find m.id xs ≡ some m) (λ m. find m.id (x ∷ xs) ≡ some m)
      (λ m h. find_later m.id x xs d.0 h) xs (find_self xs d.1),
)

first_of_All :
    (P : Mission → Type 0) (ms : List Mission) {m : Mission} → All P ms → first ms ≡ some m → P m
first_of_All P [] h e = cc
first_of_All P (x ∷ xs) {m} h e = let e' : x ≡ m = cc in subst P e' h.0

-- The mission that `claim` takes is an entry of the queue, and may be taken.
pub choose_sound :
    (q : Queue) (m : Mission)
    → WellFormed q
    → choose q.missions ≡ some m
    → (find m.id q.missions ≡ some m) × (eligible q.missions m ≡ true)
unfolding choose
choose_sound q m w h =
    let found : Mission → Type 0 = λ x. find x.id q.missions ≡ some x in
    let passed : Mission → Type 0 = λ x. eligible q.missions x ≡ true in
    let fits = filter_by (eligible q.missions) q.missions in
    (
      first_of_All found (sort_by precedes fits)
          (All-sort_by found precedes fits (
            All-filter_by found (eligible q.missions) q.missions (find_self q.missions w.distinct)))
          h,
      first_of_All passed (sort_by precedes fits)
          (All-sort_by passed precedes fits (All-filter_by_self (eligible q.missions) q.missions))
          h,
    )

pub ids-recover : (ms : List Mission) → ids (map recover_one ms) ≡ ids ms
ids-recover [] = refl
ids-recover (m ∷ ms) = ground (arith, ids-recover ms)

pub Distinct-recover : (ms : List Mission) → Distinct ms → Distinct (map recover_one ms)
Distinct-recover [] d = tt
Distinct-recover (m ∷ ms) d = (rw (ids-recover ms) (ground (arith, d.0)), Distinct-recover ms d.1)

module _ (q : Queue) (w : WellFormed q) where
  commit-WellFormed : (m : Mission) → Saves WellFormed (commit m q)
  commit-WellFormed m = Saves-commit m q λ valid. record {
    distinct = Distinct-put m q.missions w.distinct;
    acyclic = validate-Acyclic (put m q.missions) valid;
    counting = w.counting;
  }

  enqueued : Mission → Queue
  enqueued m = record { missions = put m q.missions; next_seq = q.next_seq +ℤ pos 1 }

  enqueued-WellFormed :
      (m : Mission) → validate_no_cycles (put m q.missions) ≡ ok tt → WellFormed (enqueued m)
  unfolding enqueued
  enqueued-WellFormed m valid = record {
    distinct = Distinct-put m q.missions w.distinct;
    acyclic = validate-Acyclic (put m q.missions) valid;
    counting = omega (arith, +ℤ_parts q.next_seq (pos 1), w.counting);
  }

  enqueue-WellFormed :
      (d : ℤ) (u : String) (p : ℤ) (deps : List String) (n : Option ℤ)
      → Saves WellFormed (enqueue_body d u p deps n q)
  unfolding enqueue_body enqueued
  enqueue-WellFormed d u p deps n =
      let m = new_mission d u p deps n q in
      Saves-guard (not (contains u (ids q.missions))) (mission_exists u)
        (validate_no_cycles (put m q.missions) >> ok (tt, some (enqueued m)))
        (λ _. Saves-validate (put m q.missions) tt (enqueued m) (enqueued-WellFormed m))

  removed-WellFormed :
      (u : String)
      → Saves WellFormed (
          validate_no_cycles (remove u q.missions)
          >> saving (record q { missions = remove u q.missions }))
  removed-WellFormed u =
      Saves-validate (remove u q.missions) tt (record q { missions = remove u q.missions })
        λ valid. record {
          distinct = Distinct-remove u q.missions w.distinct;
          acyclic = validate-Acyclic (remove u q.missions) valid;
          counting = w.counting;
        }

  dequeue-WellFormed : (u : String) → Saves WellFormed (dequeue_body u q)
  unfolding dequeue_body
  dequeue-WellFormed u = search (Saves-get, Saves-guard, removed-WellFormed)

  take_up-WellFormed : (o : Option Mission) → choose q.missions ≡ o → Saves WellFormed (take_up q o)
  take_up-WellFormed none e = Saves-none none
  take_up-WellFormed (some m) e =
      Saves-some (some (to_dict (start m))) (record q { missions = put (start m) q.missions })
        (WellFormed-put q w (start m) m (choose_sound q m w e).0 refl)

  claim-WellFormed : Saves WellFormed (claim_body q)
  unfolding claim_body
  claim-WellFormed = take_up-WellFormed (choose q.missions) refl

  resume_all-WellFormed : (rs : List Mission) → Saves WellFormed (resume_all q rs)
  resume_all-WellFormed [] = Saves-none []
  resume_all-WellFormed (r ∷ rs) =
      Saves-validate (map recover_one q.missions) (ids (r ∷ rs))
        (record q { missions = map recover_one q.missions })
        λ valid. record {
          distinct = Distinct-recover q.missions w.distinct;
          acyclic = validate-Acyclic (map recover_one q.missions) valid;
          counting = w.counting;
        }

  recover_stale-WellFormed : Saves WellFormed (recover_stale_body q)
  unfolding recover_stale_body
  recover_stale-WellFormed = resume_all-WellFormed _

  pub command-WellFormed : (d : ℤ) (c : Command) → Saves WellFormed (command_body d c q)
  unfolding command_body complete_body fail_body retry_body block_body cancel_body resume_body
  command-WellFormed d (enqueue u p deps n) = enqueue-WellFormed d u p deps n
  command-WellFormed d (dequeue u) = dequeue-WellFormed u
  command-WellFormed d claim = Saves-forget _ claim-WellFormed
  command-WellFormed d recover_stale = Saves-forget _ recover_stale-WellFormed
  command-WellFormed d (complete u) = search (Saves-get, Saves-guard, commit-WellFormed)
  command-WellFormed d (fail u) = search (Saves-get, Saves-guard, commit-WellFormed)
  command-WellFormed d (retry u) = search (Saves-get, Saves-guard, commit-WellFormed)
  command-WellFormed d (block u) = search (Saves-get, Saves-guard, commit-WellFormed)
  command-WellFormed d (cancel u) = search (Saves-get, Saves-guard, commit-WellFormed)
  command-WellFormed d (resume u) = search (Saves-get, Saves-guard, commit-WellFormed)
