-- ===== src/FlowSpec/Order.antt =====
-- The order that `topological_steps` (agent/runtime/flowspec.py) returns: the invariant of its loop.
use mitigate_ai_platform.Prelude.{
  ℕ, zero, suc, ◌≤◌, String, true, false, ◌&&◌, ◌||◌, Option, none, some, List, [], ◌∷◌, ◌==◌,
  eq_iff, eq_refl, if◌then◌else◌, contains, pos, negsuc, ◌+ℤ◌, ◌≡◌, ◌∙◌, refl, sym, ap, subst,
  arith, Bool-cases, inl, inr, ◌⊎◌,
}
use mathlib.Core.Bool.{false≢true}
use mathlib.Core.Option
use mitigate_ai_platform.FlowSpec.{Degrees, release, drain, all_distinct}
use mitigate_ai_platform.FlowSpec.Release.{
  hits, all_distinct-cons, release-degree, release-contains, release-distinct,
}

-- How many of the ids are not among those that are done.
unfoldable pub remaining : List String → List String → ℕ
unfolding contains
remaining done [] = 0
remaining done (d ∷ ds) = let rest = remaining done ds in if contains d done then rest else suc rest

remaining-le :
    (done : List String) (u : String) (ds : List String)
    → remaining (u ∷ done) ds ≤ remaining done ds
unfolding remaining contains
remaining-le done u [] = omega arith
remaining-le done u (d ∷ ds) = ground (arith, remaining-le done u ds)

remaining_absent :
    (done : List String) (u : String) (ds : List String)
    → contains u ds ≡ false
    → remaining (u ∷ done) ds ≡ remaining done ds
unfolding remaining contains
remaining_absent done u [] h = refl
remaining_absent done u (d ∷ ds) h =
    ground (arith, remaining_absent done u ds (ground (arith, h)), eq_iff u d, eq_iff d u)

remaining_present :
    (done : List String) (u : String) (ds : List String)
    → all_distinct ds ≡ true
    → contains u done ≡ false
    → contains u ds ≡ true
    → remaining done ds ≡ suc (remaining (u ∷ done) ds)
unfolding remaining contains
remaining_present done u [] dist new h = cc
remaining_present done u (d ∷ ds) dist new h = elim (Bool-cases (d == u)) [
  | inl same ↦
      let e : u ≡ d = ground (arith, eq_iff d u) in
      let apart : contains u ds ≡ false =
        subst (λ w. contains w ds ≡ false) (sym e) (all_distinct-cons d ds dist).0 in
      let new' : contains d done ≡ false = subst (λ w. contains w done ≡ false) e new in
      ground (arith, remaining_absent done u ds apart, new', eq_iff u d)
  | inr other ↦ ground (
    arith,
    remaining_present done u ds (all_distinct-cons d ds dist).1 new (rw other at h),
    eq_iff u d,
  )
]

lower_suc : (n : ℕ) → pos (suc n) +ℤ negsuc 0 ≡ pos n
unfolding ◌+ℤ◌
lower_suc n = ground arith

hits-one : (d : Degrees) (v : String) (n : ℕ) → d v ≡ pos n → hits d v ≡ true → n ≡ 1
unfolding ◌+ℤ◌
hits-one d v n e h = ground (arith, h, e)

module _ (ids : List String) (deps : String → List String) where
  -- The ids are taken in an order in which each is new and has all its dependencies behind it.
  abbrev pub Taking : List String → List String → Type 0
  Taking done [] = Unit
  Taking done (u ∷ us) =
      (contains u ids ≡ true)
      × (contains u done ≡ false)
      × (remaining done (deps u) ≡ 0)
      × Taking (u ∷ done) us

  -- The state of the loop after the ids in `done` were taken, the last one first.
  pub record Loop (done : List String) (d : Degrees) (ready : List String) : Type 0 where
    pub degrees : (v : String) → contains v ids ≡ true → d v ≡ pos (remaining done (deps v))
    pub settled :
        (v : String)
        → (contains v ready || contains v done) ≡ true
        → (contains v ids ≡ true) × (remaining done (deps v) ≡ 0)
    pub fresh : (v : String) → contains v ready ≡ true → contains v done ≡ false
    pub distinct : all_distinct ready ≡ true

  module _ (next : String → List String)
      (next-deps : (u v : String) → contains v (next u) ≡ (contains v ids && contains u (deps v)))
      (next-distinct : (u : String) → all_distinct (next u) ≡ true)
      (deps-distinct : (v : String) → all_distinct (deps v) ≡ true) where
    -- A dependent whose degree falls to 0 had one dependency left, so it was neither taken nor ready.
    released-one :
        (done : List String) (d : Degrees) (ready : List String) (u v : String)
        → Loop done d ready
        → contains v (next u) ≡ true
        → hits d v ≡ true
        → (contains v ids ≡ true)
          × (contains u (deps v) ≡ true)
          × (remaining done (deps v) ≡ 1)
          × ((contains v ready || contains v done) ≡ false)
    released-one done d ready u v loop inside hit =
        let both = sym (next-deps u v) ∙ inside in
        let known : contains v ids ≡ true = ground (arith, both) in
        let one = hits-one d v (remaining done (deps v)) (loop.degrees v known) hit in
        (
          known,
          ground (arith, both),
          one,
          elim (Bool-cases (contains v ready || contains v done)) [
            | inl old ↦ absurd (let none_left = (loop.settled v old).1 in omega arith)
            | inr new ↦ new
          ],
        )

    done_more :
        (done : List String) (u v : String)
        → remaining done (deps v) ≡ 0
        → remaining (u ∷ done) (deps v) ≡ 0
    done_more done u v h = let le = remaining-le done u (deps v) in omega arith

    -- One turn of the loop keeps the invariant.
    Loop-step :
        (done : List String) (d : Degrees) (u : String) (us : List String)
        → Loop done d (u ∷ us)
        → Loop (u ∷ done) (release (next u) d us).0 (release (next u) d us).1
    unfolding contains
    Loop-step done d u us loop = record {
      degrees = degrees';
      settled = settled';
      fresh = fresh';
      distinct = distinct';
    }
      where
        dist : all_distinct (next u) ≡ true
        dist = next-distinct u

        here : contains u (u ∷ us) ≡ true
        here = rw (eq_refl u) refl

        new : contains u done ≡ false
        new = loop.fresh u here

        apart : contains u us ≡ false
        apart = (all_distinct-cons u us loop.distinct).0

        in_ready :
            (v : String)
            → contains v (release (next u) d us).1 ≡ true
            → (contains v us ≡ true) ⊎ ((contains v (next u) ≡ true) × (hits d v ≡ true))
        in_ready v h = elim (Bool-cases (contains v us)) [
          | inl old ↦ inl old
          | inr k ↦
              let e = sym (release-contains (next u) d us v dist) ∙ h in
              inr (ground (arith, e, k), ground (arith, e, k))
        ]

        ready_before :
            (v : String) → contains v us ≡ true → (contains v (u ∷ us) || contains v done) ≡ true
        ready_before v h = ground (arith, h)

        degrees' :
            (v : String)
            → contains v ids ≡ true
            → (release (next u) d us).0 v ≡ pos (remaining (u ∷ done) (deps v))
        degrees' v known =
            release-degree (next u) d us v dist ∙ elim (Bool-cases (contains u (deps v))) [
              | inl k ↦
                  let n : contains v (next u) ≡ true = next-deps u v ∙ (rw (known, k) refl) in
                  let one = remaining_present done u (deps v) (deps-distinct v) new k in
                  rw n (
                    ap (λ z. z +ℤ negsuc 0) (loop.degrees v known ∙ ap pos one)
                    ∙ lower_suc (remaining (u ∷ done) (deps v)))
              | inr k ↦
                  let n : contains v (next u) ≡ false = next-deps u v ∙ (rw (known, k) refl) in
                  rw n (loop.degrees v known ∙ ap pos (sym (remaining_absent done u (deps v) k)))
            ]

        settled' :
            (v : String)
            → (contains v (release (next u) d us).1 || contains v (u ∷ done)) ≡ true
            → (contains v ids ≡ true) × (remaining (u ∷ done) (deps v) ≡ 0)
        settled' v h = elim (Bool-cases (contains v (u ∷ us) || contains v done)) [
          | inl old ↦ let (known, z) = loop.settled v old in (known, done_more done u v z)
          | inr k ↦ elim (in_ready v (ground (arith, h, k))) [
            | inl old ↦ absurd (false≢true (sym k ∙ ready_before v old))
            | inr (n, hit) ↦
                let (known, dep, one, _) = released-one done d (u ∷ us) u v loop n hit in
                let drop = remaining_present done u (deps v) (deps-distinct v) new dep in
                (known, omega arith)
          ]
        ]

        fresh' :
            (v : String)
            → contains v (release (next u) d us).1 ≡ true
            → contains v (u ∷ done) ≡ false
        fresh' v h = elim (in_ready v h) [
          | inl old ↦
              let f = loop.fresh v (ground (arith, old)) in
              elim (Bool-cases (u == v)) [
                | inl same ↦
                    let e : u ≡ v = ground (arith, eq_iff u v) in
                    absurd (false≢true (sym (subst (λ w. contains w us ≡ false) e apart) ∙ old))
                | inr other ↦ rw other f
              ]
          | inr (n, hit) ↦
              let (_, _, _, out) = released-one done d (u ∷ us) u v loop n hit in
              ground (arith, out)
        ]

        distinct' : all_distinct (release (next u) d us).1 ≡ true
        distinct' =
            release-distinct (next u) d us dist (all_distinct-cons u us loop.distinct).1 λ v n hit.
              let (_, _, _, out) = released-one done d (u ∷ us) u v loop n hit in
              ground (arith, out)

    -- What the loop takes.
    pub drain-Taking :
        (n : ℕ) (done : List String) (d : Degrees) (ready taken : List String)
        → Loop done d ready
        → drain next n d ready ≡ some taken
        → Taking done taken
    unfolding drain contains
    drain-Taking zero done d ready taken loop h = cc
    drain-Taking (suc n) done d [] taken loop h = subst (Taking done) nothing_taken tt
      where
        nothing_taken : [] ≡ taken
        nothing_taken = cc
    drain-Taking (suc n) done d (u ∷ us) taken loop h =
        let (rest, run, e) =
          mapped (drain next n (release (next u) d us).0 (release (next u) d us).1) h in
        let now : (contains u (u ∷ us) || contains u done) ≡ true = rw (eq_refl u) refl in
        let (known, z) = loop.settled u now in
        subst (Taking done) e (
          known,
          loop.fresh u (rw (eq_refl u) refl),
          z,
          drain-Taking n (u ∷ done) (release (next u) d us).0 (release (next u) d us).1 rest
              (Loop-step done d u us loop) run,
        )
      where
        mapped :
            (o : Option (List String))
            → Option.map (λ t. u ∷ t) o ≡ some taken
            → (rest : List String) × (o ≡ some rest) × (u ∷ rest ≡ taken)
        mapped none k = cc
        mapped (some rest) k = (rest, refl, cc)
