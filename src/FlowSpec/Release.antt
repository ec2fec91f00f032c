-- ===== src/FlowSpec/Release.antt =====
-- What the inner loop of `topological_steps` (agent/runtime/flowspec.py) does to the degrees and to
-- the ready list, for dependents that are distinct.
use mitigate_ai_platform.Prelude.{
  String, Bool, true, false, not, ◌&&◌, ◌||◌, List, [], ◌∷◌, ◌++◌, ◌==◌, eq_iff, eq_refl,
  if◌then◌else◌, contains, str_lt, sort_by, insert_by, pos, negsuc, ◌+ℤ◌, eq_ℤ, ◌≡◌, ◌∙◌, refl, sym,
  ap, subst, arith, Bool-cases, inl, inr, contains-sort_by, contains-insert_by,
}
use mathlib.Core.Bool.{false≢true}
use mitigate_ai_platform.FlowSpec.{Degrees, lowered, release, entries, all_distinct}
use mitigate_ai_platform.FlowSpec.Fuel.{release-ready, entries-contains}

pub contains-append :
    (v : String) (xs ys : List String) → contains v (xs ++ ys) ≡ (contains v xs || contains v ys)
unfolding contains
contains-append v [] ys = refl
contains-append v (x ∷ xs) ys = ground (arith, contains-append v xs ys)

all_distinct-insert_by :
    (x : String) (xs : List String)
    → all_distinct (insert_by str_lt x xs) ≡ (not (contains x xs) && all_distinct xs)
unfolding all_distinct insert_by contains
all_distinct-insert_by x [] = refl
all_distinct-insert_by x (y ∷ ys) =
    ground
      (arith, all_distinct-insert_by x ys, contains-insert_by str_lt y x ys, eq_iff x y, eq_iff y x)

pub all_distinct-sort_by : (xs : List String) → all_distinct (sort_by str_lt xs) ≡ all_distinct xs
unfolding all_distinct sort_by
all_distinct-sort_by [] = refl
all_distinct-sort_by (x ∷ xs) = ground (
  arith,
  all_distinct-insert_by x (sort_by str_lt xs),
  contains-sort_by str_lt x xs,
  all_distinct-sort_by xs,
)

pub all_distinct-snoc :
    (xs : List String) (v : String)
    → all_distinct (xs ++ v ∷ []) ≡ (not (contains v xs) && all_distinct xs)
unfolding all_distinct contains
all_distinct-snoc [] v = refl
all_distinct-snoc (x ∷ xs) v =
    ground (arith, all_distinct-snoc xs v, contains-append x xs (v ∷ []), eq_iff x v, eq_iff v x)

pub all_distinct-entries : (xs : List String) → all_distinct (entries xs) ≡ true
unfolding all_distinct entries
all_distinct-entries [] = refl
all_distinct-entries (x ∷ xs) = elim (Bool-cases (contains x xs)) [
  | inl old ↦ rw old (all_distinct-entries xs)
  | inr new ↦ rw new (ground (arith, all_distinct-entries xs, entries-contains x xs))
]

abbrev pub hits : Degrees → String → Bool
hits d v = eq_ℤ (d v +ℤ negsuc 0) (pos 0)

pub all_distinct-cons :
    (x : String) (xs : List String)
    → all_distinct (x ∷ xs) ≡ true
    → (contains x xs ≡ false) × (all_distinct xs ≡ true)
unfolding all_distinct
all_distinct-cons x xs h = (ground (arith, h), ground (arith, h))

lowered_at :
    (d : Degrees) (x v : String) → lowered d x v ≡ (if x == v then d v +ℤ negsuc 0 else d v)
unfolding lowered
lowered_at d x v = refl

lowered_self : (d : Degrees) (x : String) → lowered d x x ≡ d x +ℤ negsuc 0
lowered_self d x = lowered_at d x x ∙ (rw (eq_refl x) refl)

lowered_other : (d : Degrees) (x v : String) → x == v ≡ false → lowered d x v ≡ d v
lowered_other d x v h = lowered_at d x v ∙ (rw h refl)

-- The release of one dependent, and the rest.
abbrev grown : Bool → List String → String → List String
grown b ready x = if b then sort_by str_lt (ready ++ x ∷ []) else ready

contains-grown :
    (b : Bool) (ready : List String) (x v : String)
    → contains v (grown b ready x) ≡ (contains v ready || (b && x == v))
unfolding contains
contains-grown true ready x v =
    ground (arith, contains-sort_by str_lt v (ready ++ x ∷ []), contains-append v ready (x ∷ []))
contains-grown false ready x v = ground arith

pub release-degree :
    (vs : List String) (d : Degrees) (ready : List String) (v : String)
    → all_distinct vs ≡ true
    → (release vs d ready).0 v ≡ (if contains v vs then d v +ℤ negsuc 0 else d v)
unfolding contains
release-degree [] d ready v h = unfold release in refl
release-degree (x ∷ xs) d ready v h =
    let (apart, h') = all_distinct-cons x xs h in
    let b = eq_ℤ (lowered d x x) (pos 0) in
    ap (λ r. r.0 v) (release-ready x xs d ready b refl)
    ∙ release-degree xs (lowered d x) (grown b ready x) v h'
    ∙ ground (arith, lowered_at d x v, eq_iff x v, apart)

pub release-contains :
    (vs : List String) (d : Degrees) (ready : List String) (v : String)
    → all_distinct vs ≡ true
    → contains v (release vs d ready).1 ≡ (contains v ready || (contains v vs && hits d v))
unfolding contains
release-contains [] d ready v h = unfold release in ground arith
release-contains (x ∷ xs) d ready v h =
    let (apart, h') = all_distinct-cons x xs h in
    let b = eq_ℤ (lowered d x x) (pos 0) in
    ap (λ r. contains v r.1) (release-ready x xs d ready b refl)
    ∙ release-contains xs (lowered d x) (grown b ready x) v h'
    ∙ last (contains-grown b ready x v) apart
  where
    shift : (r b : Bool) → ((r || (b && true)) || false) ≡ (r || b)
    shift r b = ground arith

    neither : (b r c : Bool) → ((r || (b && false)) || c) ≡ (r || c)
    neither b r c = ground arith

    both :
        (b : Bool)
        → eq_ℤ (lowered d x x) (pos 0) ≡ b
        → x == v ≡ true
        → contains v xs ≡ false
        → ((contains v ready || (eq_ℤ (lowered d x x) (pos 0) && x == v))
            || (contains v xs && hits (lowered d x) v))
          ≡ (contains v ready || ((x == v || contains v xs) && b))
    both b e same apart = rw e (rw same (rw apart (shift (contains v ready) b)))

    last :
        contains v (grown (eq_ℤ (lowered d x x) (pos 0)) ready x)
          ≡ (contains v ready || (eq_ℤ (lowered d x x) (pos 0) && x == v))
        → contains x xs ≡ false
        → (contains v (grown (eq_ℤ (lowered d x x) (pos 0)) ready x)
            || (contains v xs && hits (lowered d x) v))
          ≡ (contains v ready || ((x == v || contains v xs) && hits d v))
    last g apart = elim (Bool-cases (x == v)) [
      | inl same ↦
          let e : x ≡ v = ground (arith, eq_iff x v) in
          rw g (
            both (hits d v) (ap (λ z. eq_ℤ z (pos 0)) (lowered_self d x) ∙ ap (hits d) e) same
              (subst (λ w. contains w xs ≡ false) e apart))
      | inr other ↦ rw g (
          rw other (
            rw (ap (λ z. eq_ℤ (z +ℤ negsuc 0) (pos 0)) (lowered_other d x v other)) (
              neither (eq_ℤ (lowered d x x) (pos 0)) (contains v ready)
                (contains v xs && hits d v))))
    ]

pub release-distinct :
    (vs : List String) (d : Degrees) (ready : List String)
    → all_distinct vs ≡ true
    → all_distinct ready ≡ true
    → ((v : String) → contains v vs ≡ true → hits d v ≡ true → contains v ready ≡ false)
    → all_distinct (release vs d ready).1 ≡ true
unfolding contains
release-distinct [] d ready h k new = unfold release in k
release-distinct (x ∷ xs) d ready h k new =
    let (apart, h') = all_distinct-cons x xs h in
    let b = eq_ℤ (lowered d x x) (pos 0) in
    rw (release-ready x xs d ready b refl) (
      release-distinct xs (lowered d x) (grown b ready x) h'
        (kept b (ap (λ z. eq_ℤ z (pos 0)) (lowered_self d x)))
        λ v inside hit. fresh v inside apart (contains-grown b ready x v) hit)
  where
    kept : (b : Bool) → b ≡ hits d x → all_distinct (grown b ready x) ≡ true
    kept false e = k
    kept true e =
        all_distinct-sort_by (ready ++ x ∷ [])
        ∙ all_distinct-snoc ready x
        ∙ (rw (new x (rw (eq_refl x) refl) (sym e)) k)

    nothing : (b : Bool) → (false || (b && false)) ≡ false
    nothing b = ground arith

    fresh :
        (v : String)
        → contains v xs ≡ true
        → contains x xs ≡ false
        → contains v (grown (eq_ℤ (lowered d x x) (pos 0)) ready x)
          ≡ (contains v ready || (eq_ℤ (lowered d x x) (pos 0) && x == v))
        → hits (lowered d x) v ≡ true
        → contains v (grown (eq_ℤ (lowered d x x) (pos 0)) ready x) ≡ false
    fresh v inside apart g hit = elim (Bool-cases (x == v)) [
      | inl same ↦
          let e : x ≡ v = ground (arith, eq_iff x v) in
          absurd (false≢true (sym (subst (λ w. contains w xs ≡ false) e apart) ∙ inside))
      | inr other ↦
          let hit' : hits d v ≡ true =
            sym (ap (λ z. eq_ℤ (z +ℤ negsuc 0) (pos 0)) (lowered_other d x v other)) ∙ hit in
          g
          ∙ (rw other
              (rw (new v (rw (other, inside) refl) hit') (nothing (eq_ℤ (lowered d x x) (pos 0)))))
    ]
