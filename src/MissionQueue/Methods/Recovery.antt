-- ===== src/MissionQueue/Methods/Recovery.antt =====
-- `recover_stale` of agent/runtime/mission_queue.py always succeeds on a well-formed queue.
use mitigate_ai_platform.Prelude.{
  String, Bool-cases, inl, inr, some, List, [], ◌∷◌, map, ◌≡◌, ◌∙◌, refl, sym, ap, arith, ◌==◌,
  contains, sort_by, filter_by,
}
use mitigate_ai_platform.MissionQueue.Mission.{Mission, Queue, ok, find, ids, is_running}
use mitigate_ai_platform.MissionQueue.Graph.Paths.{Chain-map}
use mitigate_ai_platform.MissionQueue.Validate.Acyclic.{DependsOn, Acyclic-validate}
use mitigate_ai_platform.MissionQueue.File.{StateFile, load, save}
use mitigate_ai_platform.MissionQueue.File.RoundTrip.{WellFormed, canonical_queue, load-save}
use mitigate_ai_platform.MissionQueue.Methods.Order.{precedes}
use mitigate_ai_platform.MissionQueue.Methods.Keep.{ids-recover, Distinct-recover}
use mitigate_ai_platform.MissionQueue.Methods.{
  locked, recover_stale_body, recover_one, resume_all, finish,
}

recover-dependencies : (m : Mission) → (recover_one m).dependencies ≡ m.dependencies
recover-dependencies m = ground arith

recover-id : (m : Mission) → (recover_one m).id ≡ m.id
recover-id m = ground arith

find-recover :
    (u : String) (ms : List Mission) (m' : Mission)
    → find u (map recover_one ms) ≡ some m'
    → (m : Mission) × (find u ms ≡ some m) × (recover_one m ≡ m')
unfolding find
find-recover u [] m' h = cc
find-recover u (x ∷ xs) m' h = elim (Bool-cases (x.id == u)) [
  | inl same ↦
      let h' : some (recover_one x) ≡ some m' = rw (recover-id x, same) at h in (x, rw same, cc)
  | inr other ↦
      let (m, at, e) = find-recover u xs m' (rw (recover-id x, other) at h) in (m, rw other at, e)
]

DependsOn-recover :
    (ms : List Mission) (u v : String) → DependsOn (map recover_one ms) u v → DependsOn ms u v
DependsOn-recover ms u v d =
    let (m, at, e) = find-recover u ms d.mission d.at_key in
    record {
      mission = m;
      at_key = at;
      named =
          ap (λ ds. contains v ds)
            (sym (recover-dependencies m) ∙ ap (λ (x : Mission). x.dependencies) e)
          ∙ d.named;
      known = ap (λ us. contains v us) (sym (ids-recover ms)) ∙ d.known;
    }

abbrev recovered_queue : Queue → Queue
recovered_queue q = record q { missions = map recover_one q.missions }

WellFormed-recover : (q : Queue) → WellFormed q → WellFormed (recovered_queue q)
WellFormed-recover q w = record {
  distinct = Distinct-recover q.missions w.distinct;
  acyclic = λ u p. w.acyclic u (Chain-map _ _ (DependsOn-recover q.missions) p);
  counting = w.counting;
}

-- What a call of `recover_stale` leaves.
pub recover_stale-loads :
    (file : StateFile) (q : Queue)
    → load file ≡ ok q
    → WellFormed q
    → (us : List String) × (file' : StateFile) × (q' : Queue) × (locked recover_stale_body file
        ≡ (ok us, file'))
      × (load file' ≡ ok q')
unfolding locked recover_stale_body
recover_stale-loads file q h w =
    rw h (go (sort_by precedes (filter_by (λ m. is_running m.state) q.missions)))
  where
    go :
        (rs : List Mission)
        → (us : List String) × (file' : StateFile) × (q' : Queue) × (finish file (resume_all q rs)
            ≡ (ok us, file'))
          × (load file' ≡ ok q')
    go [] = ([], file, q, refl, h)
    go (r ∷ rs) =
        let w' = WellFormed-recover q w in
        (
          ids (r ∷ rs),
          save (recovered_queue q),
          canonical_queue (recovered_queue q),
          rw (Acyclic-validate (map recover_one q.missions) w'.distinct w'.acyclic) refl,
          load-save (recovered_queue q) w',
        )
