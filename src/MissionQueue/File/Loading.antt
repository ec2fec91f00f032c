-- ===== src/MissionQueue/File/Loading.antt =====
-- Every file that `_load` of agent/runtime/mission_queue.py accepts gives a well-formed queue.
use mitigate_ai_platform.Prelude.{
  String, Bool-cases, inl, inr, false, not, List, [], ◌∷◌, ◌++◌, ◌≡◌, ◌∙◌, refl, ap, subst, arith,
  ◌==◌, eq_iff, contains, ℤ, pos, ◌≤ℤ◌, max_ℤ, eq_ℤ,
}
use mitigate_ai_platform.MissionQueue.Mission.{
  Mission, Queue, Result, ok, err, refused_conversion, missions_not_mapping, id_mismatch,
  duplicate_id, unsupported_version, ids, Distinct, guard, ◌>>=◌, ◌>>◌, bind-ok,
}
use mitigate_ai_platform.MissionQueue.Validate.{validate_no_cycles}
use mitigate_ai_platform.MissionQueue.Validate.Acyclic.{validate-Acyclic}
use mitigate_ai_platform.MissionQueue.File.RoundTrip.{WellFormed, contains_snoc}
use mitigate_ai_platform.MissionQueue.File.{
  RawEntry, RawQueue, read_entry, get_or, load_object, StateFile, absent, no_json, no_mapping,
  stored, load_missions, empty_queue, load,
}

Distinct-snoc :
    (ms : List Mission) (m : Mission)
    → Distinct ms
    → contains m.id (ids ms) ≡ false
    → Distinct (ms ++ m ∷ [])
unfolding contains
Distinct-snoc [] m d fresh = (refl, tt)
Distinct-snoc (x ∷ xs) m d fresh =
    ground
      (arith, contains_snoc x.id xs m, Distinct-snoc xs m d.1, eq_iff x.id m.id, eq_iff m.id x.id)

load_missions-Distinct :
    (acc : List Mission) (es : List (String × RawEntry)) (ms : List Mission)
    → Distinct acc
    → load_missions acc es ≡ ok ms
    → Distinct ms
unfolding load_missions
load_missions-Distinct acc [] ms d h = let e : acc ≡ ms = cc in subst Distinct e d
load_missions-Distinct acc ((mid, entry) ∷ es) ms d h =
    go (read_entry entry) h (λ m. load_missions-Distinct (acc ++ m ∷ []) es ms)
  where
    go :
        (r : Result Mission)
        → (r >>= λ m.
            guard (m.id == mid) id_mismatch
            >> (guard (not (contains mid (ids acc))) duplicate_id
                >> load_missions (acc ++ m ∷ []) es))
          ≡ ok ms
        → ((m : Mission)
            → Distinct (acc ++ m ∷ [])
            → load_missions (acc ++ m ∷ []) es ≡ ok ms
            → Distinct ms)
        → Distinct ms
    go (err e) r rest = cc
    go (ok m) r rest = elim (Bool-cases (m.id == mid)) [
      | inr other ↦ cc (rw other at r)
      | inl same ↦ elim (Bool-cases (contains mid (ids acc))) [
        | inl old ↦ cc (rw (same, old) at r)
        | inr fresh ↦
            rest m
              (Distinct-snoc acc m d
                (ap (λ k. contains k (ids acc)) ((eq_iff m.id mid).0 same) ∙ fresh))
              (rw (same, fresh) at r)
      ]
    ]

max-ge-one : (n : ℤ) → pos 1 ≤ℤ max_ℤ (pos 1) n
max-ge-one n = ground arith

-- A queue without missions.
empty-WellFormed : WellFormed empty_queue
empty-WellFormed = record {
  distinct = tt;
  acyclic = validate-Acyclic [] (unfold validate_no_cycles in refl);
  counting = omega arith;
}

-- The queue that `_load` builds of the missions that it read.
abbrev loaded_queue : ℤ → List Mission → Queue
loaded_queue n ms = record { missions = ms; next_seq = max_ℤ (pos 1) n }

load_object-WellFormed : (d : RawQueue) (q : Queue) → load_object d ≡ ok q → WellFormed q
unfolding load_object
load_object-WellFormed d q h =
    let build = λ (n : ℤ) (ms : List Mission). validate_no_cycles ms >> ok (loaded_queue n ms) in
    let read = λ (n : ℤ) (es : List (String × RawEntry)). load_missions [] es >>= build n in
    let entries = λ (n : ℤ). get_or [] missions_not_mapping d.missions >>= read n in
    let counter = get_or (pos 1) refused_conversion d.next_seq >>= entries in
    let (version, _, h₁) =
      bind-ok (get_or (pos 1) refused_conversion d.version)
        (λ (v : ℤ). guard (eq_ℤ v (pos 1)) unsupported_version >> counter) h in
    let (_, supported, h₂) =
      bind-ok (guard (eq_ℤ version (pos 1)) unsupported_version) (λ _. counter) h₁ in
    let (n, _, h₃) = bind-ok (get_or (pos 1) refused_conversion d.next_seq) entries h₂ in
    let (es, _, h₄) = bind-ok (get_or [] missions_not_mapping d.missions) (read n) h₃ in
    let (ms, loaded, h₅) = bind-ok (load_missions [] es) (build n) h₄ in
    let (_, valid, h₆) = bind-ok (validate_no_cycles ms) (λ _. ok (loaded_queue n ms)) h₅ in
    let e : loaded_queue n ms ≡ q = cc in
    subst WellFormed e (record {
      distinct = load_missions-Distinct [] es ms tt loaded;
      acyclic = validate-Acyclic ms valid;
      counting = max-ge-one n;
    })

-- Whatever file `_load` accepts, also one with keys that are missing, the queue that it returns is
-- well formed: its ids are distinct, it has no circular dependency and its sequence starts at 1.
pub load-WellFormed : (file : StateFile) (q : Queue) → load file ≡ ok q → WellFormed q
unfolding load
load-WellFormed absent q h = let e : empty_queue ≡ q = cc in subst WellFormed e empty-WellFormed
load-WellFormed no_json q h = cc
load-WellFormed no_mapping q h = cc
load-WellFormed (stored d) q h = load_object-WellFormed d q h
