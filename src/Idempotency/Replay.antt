-- ===== src/Idempotency/Replay.antt =====
-- When agent/runtime/idempotent_execution_contract.py calls an execution a replay.
use mitigate_ai_platform.Prelude.{
  arith, String, Bool, true, false, not, List, [], ◌∷◌, ◌==◌, if◌then◌else◌, eq_iff, eq_refl,
  Attempt, returned, raised, and_then, and_then-eq-returned, Value, ◌≡◌, ◌∙◌, refl, sym, ap,
}
use mathlib.Core.Bool.{false≢true}
use mitigate_ai_platform.Idempotency.{
  IdempotencyDecision, replay, IdempotentExecutionIdentity, ValidIdentity, IdempotencyResult,
  ContractError, mapping, validate_identity, entry, required_string, mapping_string,
  compare_identity, decide, classify, attempts,
}

abbrev pub is_replay : IdempotencyDecision → Bool
is_replay replay = true
is_replay _ = false

-- The record that a caller keeps of an identity.
abbrev pub kept : IdempotentExecutionIdentity → List (String × Value)
kept i =
    ("project_id", i.project_id)
    ∷ ("request_id", i.request_id)
    ∷ ("mission_id", i.mission_id)
    ∷ ("execution_id", i.execution_id)
    ∷ []

-- The four texts of a valid identity are those of the fields.
valid_fields :
    (i : IdempotentExecutionIdentity) (v : ValidIdentity)
    → validate_identity i ≡ returned v
    → (required_string i.project_id "project_id" ≡ returned v.project_id)
      × (required_string i.request_id "request_id" ≡ returned v.request_id)
      × (required_string i.mission_id "mission_id" ≡ returned v.mission_id)
      × (required_string i.execution_id "execution_id" ≡ returned v.execution_id)
unfolding validate_identity
valid_fields i v h =
    go (required_string i.project_id "project_id") (required_string i.request_id "request_id")
      (required_string i.mission_id "mission_id") (required_string i.execution_id "execution_id")
      (attempts i.attempts_done) h
  where
    go :
        (p r m e : Attempt ContractError String) (n : Attempt ContractError _)
        → and_then p (λ p'. and_then r λ r'. and_then m λ m'. and_then e λ e'. and_then n λ n'.
          returned (record {
            project_id = p';
            request_id = r';
            mission_id = m';
            execution_id = e';
            attempts_done = n';
          }))
          ≡ returned v
        → (p ≡ returned v.project_id)
          × (r ≡ returned v.request_id)
          × (m ≡ returned v.mission_id)
          × (e ≡ returned v.execution_id)
    go (returned p) (returned r) (returned m) (returned e) (returned n) k =
        (let same : record {
          project_id = p;
          request_id = r;
          mission_id = m;
          execution_id = e;
          attempts_done = n;
        }
              ≡ v =
            cc in
          (
            ap (λ x. returned x.project_id) same,
            ap (λ x. returned x.request_id) same,
            ap (λ x. returned x.mission_id) same,
            ap (λ x. returned x.execution_id) same,
          ))
    go _ _ _ _ _ k = cc

-- An identity that `validate_identity` accepts is a replay of the record that was kept of its four
-- fields as they were given, spaces around them included.
pub kept-replay :
    (i : IdempotentExecutionIdentity) (v : ValidIdentity)
    → validate_identity i ≡ returned v
    → classify i (mapping (kept i))
      ≡ returned (record { decision = replay; reason = "same_logical_execution" })
unfolding classify compare_identity mapping_string entry
kept-replay i v h =
    let (p, r, m, e) = valid_fields i v h in
    rw h (
      rw e (
        rw (eq_refl v.execution_id) (
          rw p (
            rw r (
              rw m (
                rw (eq_refl v.project_id)
                  (rw (eq_refl v.request_id) (rw (eq_refl v.mission_id) refl))))))))

alike : (s t : String) → s == t ≡ true → s ≡ t
alike s t h = ground (arith, eq_iff s t)

-- Only the same logical execution is a replay: if `classify` answers so against a stored mapping, the
-- incoming identity is valid, and the mapping's execution, project, request and mission are, after
-- `strip`, those of the identity.
pub replay-same :
    (i : IdempotentExecutionIdentity) (stored : List (String × Value)) (r : IdempotencyResult)
    → classify i (mapping stored) ≡ returned r
    → is_replay r.decision ≡ true
    → (v : ValidIdentity) × (validate_identity i ≡ returned v)
      × (mapping_string stored "execution_id" ≡ returned v.execution_id)
      × (mapping_string stored "project_id" ≡ returned v.project_id)
      × (mapping_string stored "request_id" ≡ returned v.request_id)
      × (mapping_string stored "mission_id" ≡ returned v.mission_id)
unfolding classify compare_identity
replay-same i stored r h is =
    let (v, valid, h') =
      and_then-eq-returned (validate_identity i) (λ v. compare_identity v (mapping stored)) h in
    let (e, p, q, m) =
      go v (mapping_string stored "execution_id") (mapping_string stored "project_id")
        (mapping_string stored "request_id") (mapping_string stored "mission_id") h' in
    (v, valid, e, p, q, m)
  where
    -- A comparison that does not fail the replay has passed.
    passes :
        (b : Bool) (x : IdempotencyResult) (m : Attempt ContractError IdempotencyResult)
        → is_replay x.decision ≡ false
        → (if not b then returned x else m) ≡ returned r
        → (b ≡ true) × (m ≡ returned r)
    passes true x m denied k = (refl, k)
    passes false x m denied k =
        let same : x ≡ r = cc in
        absurd (false≢true (sym denied ∙ ap (λ y. is_replay y.decision) same ∙ is))

    go :
        (v : ValidIdentity) (e p q m : Attempt ContractError String)
        → decide v e p q m ≡ returned r
        → (e ≡ returned v.execution_id)
          × (p ≡ returned v.project_id)
          × (q ≡ returned v.request_id)
          × (m ≡ returned v.mission_id)
    go v (raised e) p q m k = cc
    go v (returned e) (raised p) q m k = let (_, k₁) = passes (e == v.execution_id) _ _ refl k in cc
    go v (returned e) (returned p) (raised q) m k =
        let (_, k₁) = passes (e == v.execution_id) _ _ refl k in cc
    go v (returned e) (returned p) (returned q) (raised m) k =
        let (_, k₁) = passes (e == v.execution_id) _ _ refl k in cc
    go v (returned e) (returned p) (returned q) (returned m) k =
        let (same_e, k₁) = passes (e == v.execution_id) _ _ refl k in
        let (same_p, k₂) = passes (p == v.project_id) _ _ refl k₁ in
        let (same_q, k₃) = passes (q == v.request_id) _ _ refl k₂ in
        let (same_m, k₄) = passes (m == v.mission_id) _ _ refl k₃ in
        (
          ap returned (alike e v.execution_id same_e),
          ap returned (alike p v.project_id same_p),
          ap returned (alike q v.request_id same_q),
          ap returned (alike m v.mission_id same_m),
        )
