-- ===== src/MissionQueue/Methods/Evolution.antt =====
-- Every call evolves every mission along the state machine.
use mitigate_ai_platform.Prelude.{
  contains, String, Bool, Bool-cases, inl, inr, true, false, not, Option, none, some, List, [], ◌∷◌,
  map, ◌≡◌, ◌∙◌, refl, sym, ap, subst, arith, ◌==◌, eq_iff, if◌then◌else◌, ℤ, pos, ◌+ℤ◌,
}
use mathlib.Core.Bool.{false≢true}
use mitigate_ai_platform.MissionQueue.Mission.{
  MissionState, running, Mission, Queue, mission_exists, ok, find, put, remove, ids, Distinct, ◌>>◌,
  is_running,
}
use mitigate_ai_platform.MissionQueue.Validate.{validate_no_cycles}
use mitigate_ai_platform.MissionQueue.Validate.Lookup.{
  contains_of_find, id_of_find, find-none, find-put,
}
use mitigate_ai_platform.MissionQueue.File.{to_dict}
use mitigate_ai_platform.MissionQueue.File.RoundTrip.{WellFormed}
use mitigate_ai_platform.MissionQueue.Methods.Saves.{
  Saves, Saves-guard, Saves-get, Saves-commit, Saves-validate, Saves-some, Saves-none,
}
use mitigate_ai_platform.MissionQueue.Methods.Keep.{saving, choose_sound}
use mitigate_ai_platform.MissionQueue.Methods.Command.{
  Command, enqueue, dequeue, claim, recover_stale, complete, fail, retry, block, cancel, resume,
  command_body, Saves-forget,
}
use mitigate_ai_platform.MissionQueue.Methods.{
  commit, count_failure, enqueue_body, dequeue_body, claim_body, recover_stale_body, complete_body,
  fail_body, eligible, retry_body, block_body, cancel_body, resume_body, choose, start, recover_one,
  take_up, resume_all, new_mission,
}
use mitigate_ai_platform.MissionQueue.Methods.Transitions.{
  Moves, Evolved, Kept, Evolves, Evolved-refl, Evolved-set, claim-Moves, block-Moves, cancel-Moves,
  resume-Moves, complete-Moves, retry-Moves, recover_moves, count_failure-Evolved,
}

pub find-remove :
    (u v : String) (ms : List Mission)
    → Distinct ms
    → find v (remove u ms) ≡ (if u == v then none else find v ms)
unfolding find remove
find-remove u v [] d = ground arith
find-remove u v (x ∷ xs) d =
    ground (arith, find-remove u v xs, find-none x.id xs, eq_iff x.id u, eq_iff x.id v, eq_iff u v)

pub find-map :
    (f : Mission → Mission)
    → ((m : Mission) → (f m).id ≡ m.id)
    → (u : String) (ms : List Mission) {m : Mission} → find u ms ≡ some m
    → find u (map f ms) ≡ some (f m)
unfolding find
find-map f same u [] h = cc
find-map f same u (x ∷ xs) {m} h = ground (arith, same x, find-map f same u xs {m = m})

module _ (q : Queue) where
  -- One entry is replaced by what it evolves to.
  Evolves-put :
      (m m' : Mission)
      → find m'.id q.missions ≡ some m
      → Evolved m m'
      → Evolves q (record q { missions = put m' q.missions })
  Evolves-put m m' at ev u x h = elim (Bool-cases (m'.id == u)) [
    | inl here ↦
        let e : some m ≡ some x =
          sym at ∙ ap (λ k. find k q.missions) ((eq_iff m'.id u).0 here) ∙ h in
        let e' : m ≡ x = cc in
        rw (find-put u m' q.missions) (rw here (subst (λ y. Evolved y m') e' ev))
    | inr there ↦ rw (find-put u m' q.missions) (rw there (rw h (Evolved-refl x)))
  ]

  -- A mission that `find` returns, with its id spelled out.
  pub at_id :
      (u : String) (m : Mission) → find u q.missions ≡ some m → find m.id q.missions ≡ some m
  at_id u m h = subst (λ k. find k q.missions ≡ some m) (sym (id_of_find u q.missions h)) h

  commit-Evolves :
      (u : String) (m m' : Mission)
      → find u q.missions ≡ some m
      → m'.id ≡ m.id
      → Evolved m m'
      → Saves (Evolves q) (commit m' q)
  commit-Evolves u m m' h same ev =
      Saves-commit m' q
        λ valid. Evolves-put m m' (ap (λ k. find k q.missions) same ∙ at_id u m h) ev

  set-Evolves :
      (u : String) (m : Mission) (s : MissionState)
      → find u q.missions ≡ some m
      → Moves m.state s
      → Saves (Evolves q) (commit (record m { state = s }) q)
  set-Evolves u m s h mv = commit-Evolves u m (record m { state = s }) h refl (Evolved-set m s mv)

  fail-Evolves :
      (u : String) (m : Mission)
      → find u q.missions ≡ some m
      → is_running m.state ≡ true
      → Saves (Evolves q) (commit (count_failure m) q)
  fail-Evolves u m h run =
      commit-Evolves u m (count_failure m) h (unfold count_failure in refl)
        (count_failure-Evolved m run)

  Evolves-recover : Evolves q (record q { missions = map recover_one q.missions })
  Evolves-recover u m h = rw (find-map recover_one recover-id u q.missions h) (recover_moves m)
    where
      recover-id : (m : Mission) → (recover_one m).id ≡ m.id
      recover-id m = ground arith

  resume_all-Evolves : (rs : List Mission) → Saves (Evolves q) (resume_all q rs)
  resume_all-Evolves [] = Saves-none []
  resume_all-Evolves (r ∷ rs) =
      Saves-validate (map recover_one q.missions) (ids (r ∷ rs))
        (record q { missions = map recover_one q.missions }) (λ valid. Evolves-recover)

  Evolves-new :
      (m : Mission) (n : ℤ)
      → not (contains m.id (ids q.missions)) ≡ true
      → Evolves q (record { missions = put m q.missions; next_seq = n })
  Evolves-new m n new u x h = elim (Bool-cases (m.id == u)) [
    | inl here ↦
        let e : m.id ≡ u = (eq_iff m.id u).0 here in
        absurd (false≢true (ground (arith, new, contains_of_find u q.missions h, e)))
    | inr there ↦ rw (find-put u m q.missions) (rw there (rw h (Evolved-refl x)))
  ]

  enqueue-Evolves :
      (d : ℤ) (u : String) (p : ℤ) (deps : List String) (n : Option ℤ)
      → Saves (Evolves q) (enqueue_body d u p deps n q)
  unfolding enqueue_body new_mission
  enqueue-Evolves d u p deps n =
      let m = new_mission d u p deps n q in
      let after : Queue = record { missions = put m q.missions; next_seq = q.next_seq +ℤ pos 1 } in
      Saves-guard (not (contains u (ids q.missions))) (mission_exists u)
        (validate_no_cycles (put m q.missions) >> saving after)
        (λ new.
          Saves-validate (put m q.missions) tt after (λ _. Evolves-new m (q.next_seq +ℤ pos 1) new))

module _ (q : Queue) (w : WellFormed q) where
  removed-Evolves :
      (u : String) (m : Mission)
      → find u q.missions ≡ some m
      → not (is_running m.state) ≡ true
      → Saves (Evolves q) (
          validate_no_cycles (remove u q.missions)
          >> saving (record q { missions = remove u q.missions }))
  removed-Evolves u m at idle =
      Saves-validate (remove u q.missions) tt (record q { missions = remove u q.missions })
        λ _ v x h. rw (find-remove u v q.missions w.distinct) (go v x h (u == v) refl)
    where
      go :
          (v : String) (x : Mission)
          → find v q.missions ≡ some x
          → (b : Bool) → (u == v) ≡ b
          → Kept x (if b then none else find v q.missions)
      go v x h true e =
          let e' : some m ≡ some x = sym at ∙ ap (λ k. find k q.missions) ((eq_iff u v).0 e) ∙ h in
          let e'' : m ≡ x = cc in subst (λ y. is_running y.state ≡ false) e'' (ground (arith, idle))
      go v x h false e = rw h (Evolved-refl x)

  take_up-Evolves : (o : Option Mission) → choose q.missions ≡ o → Saves (Evolves q) (take_up q o)
  take_up-Evolves none e = Saves-none none
  take_up-Evolves (some m) e =
      let (at, may) = choose_sound q m w e in
      Saves-some (some (to_dict (start m))) (record q { missions = put (start m) q.missions })
        (Evolves-put q m (start m) at
          (Evolved-set m running (claim-Moves m.state (unfold eligible in ground (arith, may)))))

  ruleset evolve_rules = (
    Saves-get, Saves-guard, removed-Evolves, set-Evolves, fail-Evolves, complete-Moves, retry-Moves,
    block-Moves, cancel-Moves, resume-Moves,
  )

  -- Whatever the call, every mission of the queue evolves along the state machine.
  pub command-Evolves : (d : ℤ) (c : Command) → Saves (Evolves q) (command_body d c q)
  unfolding command_body complete_body fail_body retry_body block_body cancel_body resume_body
      claim_body recover_stale_body dequeue_body
  command-Evolves d (enqueue u p deps n) = enqueue-Evolves q d u p deps n
  command-Evolves d (dequeue u) = search evolve_rules depth 7
  command-Evolves d claim = Saves-forget _ (take_up-Evolves (choose q.missions) refl)
  command-Evolves d recover_stale = Saves-forget _ (resume_all-Evolves q _)
  command-Evolves d (complete u) = search evolve_rules
  command-Evolves d (fail u) = search evolve_rules
  command-Evolves d (retry u) = search evolve_rules depth 7
  command-Evolves d (block u) = search evolve_rules
  command-Evolves d (cancel u) = search evolve_rules
  command-Evolves d (resume u) = search evolve_rules

-- A call moves a mission only along the state machine: if a call on a well-formed queue saves `q'`,
-- each mission of the queue is in `q'` with the same priority, dependencies, sequence and budget, no
-- fewer attempts and a state that `Moves` allows, or it is removed and was not running.
pub saved_moves :
    (d : ℤ) (c : Command) (q q' : Queue) (u : String) (m : Mission)
    → WellFormed q
    → find u q.missions ≡ some m
    → command_body d c q ≡ ok (tt, some q')
    → Kept m (find u q'.missions)
saved_moves d c q q' u m w at h =
    let evolves : Saves (Evolves q) (ok (tt, some q')) =
      subst (Saves (Evolves q)) h (command-Evolves q w d c) in
    evolves.saved u m at
