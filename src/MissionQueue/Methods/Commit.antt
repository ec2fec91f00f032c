-- ===== src/MissionQueue/Methods/Commit.antt =====
-- Replacing a mission by one with the same key and dependencies leaves the queue well formed, so
-- the check before the save never fails there.
use mitigate_ai_platform.Prelude.{
  String, Bool-cases, inl, inr, true, some, ◌≡◌, ◌∙◌, ap, sym, subst, arith, ◌==◌, eq_iff, contains,
}
use mitigate_ai_platform.MissionQueue.Mission.{Mission, Queue, ok, ids, find, put}
use mitigate_ai_platform.MissionQueue.Graph.Paths.{Chain-map}
use mitigate_ai_platform.MissionQueue.Validate.Lookup.{
  contains_of_find, find-put, contains-put, Distinct-put,
}
use mitigate_ai_platform.MissionQueue.Validate.Acyclic.{DependsOn, Acyclic-validate}
use mitigate_ai_platform.MissionQueue.File.RoundTrip.{WellFormed}
use mitigate_ai_platform.MissionQueue.Methods.{commit}

module _ (q : Queue) (w : WellFormed q) (m old : Mission) (at : find m.id q.missions ≡ some old)
    (same : m.dependencies ≡ old.dependencies) where
  known-put :
      (v : String) → contains v (ids (put m q.missions)) ≡ true → contains v (ids q.missions) ≡ true
  known-put v h =
      ground
        (arith, contains-put v m q.missions, eq_iff m.id v, contains_of_find m.id q.missions at)

  DependsOn-put : (u v : String) → DependsOn (put m q.missions) u v → DependsOn q.missions u v
  DependsOn-put u v d = elim (Bool-cases (m.id == u)) [
    | inl here ↦
        let e : some m ≡ some d.mission = rw here at (sym (find-put u m q.missions) ∙ d.at_key) in
        let e' : m ≡ d.mission = cc in
        record {
          mission = old;
          at_key = subst (λ k. find k q.missions ≡ some old) ((eq_iff m.id u).0 here) at;
          named = ap (contains v) (sym same ∙ ap (λ (x : Mission). x.dependencies) e') ∙ d.named;
          known = known-put v d.known;
        }
    | inr there ↦ record {
      mission = d.mission;
      at_key = rw there at (sym (find-put u m q.missions) ∙ d.at_key);
      named = d.named;
      known = known-put v d.known;
    }
  ]

  pub WellFormed-put : WellFormed (record q { missions = put m q.missions })
  WellFormed-put = record {
    distinct = Distinct-put m q.missions w.distinct;
    acyclic = λ u p. w.acyclic u (Chain-map _ _ DependsOn-put p);
    counting = w.counting;
  }

  -- The commit succeeds: it saves the queue with the mission replaced.
  pub commit-ok : commit m q ≡ ok (tt, some (record q { missions = put m q.missions }))
  unfolding commit
  commit-ok =
      rw (Acyclic-validate (put m q.missions) WellFormed-put.distinct WellFormed-put.acyclic)
