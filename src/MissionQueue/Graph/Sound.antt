-- ===== src/MissionQueue/Graph/Sound.antt =====
-- A walk that ends with colours has found no back edge: every vertex that it painted black is
-- grounded, and it left the gray vertices as they were.
use mitigate_ai_platform.Prelude.{
  ℕ, zero, suc, String, true, inl, inr, Bool-cases, List, [], ◌∷◌, ◌++◌, ◌≡◌, refl, subst, arith,
  eq_refl, ◌==◌, eq_iff, contains,
}
use mitigate_ai_platform.MissionQueue.Graph.Paths.{Edge, Grounded, ground_at}
use mitigate_ai_platform.MissionQueue.Graph.{
  Color, white, gray, black, Colors, paint, Walk, done, circular, no_fuel, ◌>>=◌, scan, dfs, roots,
}

pub >>=-eq-done :
    (m : Walk) (f : Colors → Walk) {c' : Colors}
    → (m >>= f) ≡ done c'
    → (c : Colors) × (m ≡ done c) × (f c ≡ done c')
>>=-eq-done (done c) f h = (c, refl, h)
>>=-eq-done (circular p) f h = cc
>>=-eq-done no_fuel f h = cc

pub record Grows (c c' : Colors) : Type 0 where
  pub black_kept : (v : String) → c v ≡ black → c' v ≡ black
  pub gray_kept : (v : String) → c v ≡ gray → c' v ≡ gray
  pub gray_old : (v : String) → c' v ≡ gray → c v ≡ gray

pub Grows-refl : (c : Colors) → Grows c c
Grows-refl c = record { black_kept = λ v h. h; gray_kept = λ v h. h; gray_old = λ v h. h }

pub Grows-trans : {a b c : Colors} → Grows a b → Grows b c → Grows a c
Grows-trans g h = record {
  black_kept = λ v e. h.black_kept v (g.black_kept v e);
  gray_kept = λ v e. h.gray_kept v (g.gray_kept v e);
  gray_old = λ v e. g.gray_old v (h.gray_old v e);
}

-- Painting `u` gray, walking on, and painting it black.
pub Grows-paint :
    (u : String) (c c' : Colors)
    → c u ≡ white
    → Grows (paint c u gray) c'
    → Grows c (paint c' u black)
Grows-paint u c c' w g = record {
  black_kept = λ v e. ground (arith, eq_iff u v, g.black_kept v);
  gray_kept = λ v e. ground (arith, eq_iff u v, g.gray_kept v);
  gray_old = λ v e. ground (arith, eq_iff u v, g.gray_old v);
}

module _ (adj : String → List String) where
  abbrev pub IsSound : Colors → Type 0
  IsSound c = (v : String) → c v ≡ black → Grounded (Edge adj) v

  pub record Visited (u : String) (c c' : Colors) : Type 0 where
    pub grows : Grows c c'
    pub finished : c' u ≡ black
    pub sound : IsSound c → IsSound c'

  pub record Scanned (vs : List String) (c c' : Colors) : Type 0 where
    pub grows : Grows c c'
    pub finished : (w : String) → contains w vs ≡ true → c' w ≡ black
    pub sound : IsSound c → IsSound c'

  abbrev pub Visits : (String → Colors → Walk) → Type 0
  Visits visit = (v : String) (c c' : Colors) → c v ≡ white → visit v c ≡ done c' → Visited v c c'

  finished_cons :
      (v : String) (vs : List String) (c : Colors)
      → c v ≡ black
      → ((w : String) → contains w vs ≡ true → c w ≡ black)
      → (w : String) → contains w (v ∷ vs) ≡ true
      → c w ≡ black
  unfolding contains
  finished_cons v vs c h rest w e = ground (arith, eq_iff v w, rest w)

  Scanned-nil : (c : Colors) → Scanned [] c c
  unfolding contains
  Scanned-nil c = record { grows = Grows-refl c; finished = λ w e. cc; sound = λ b. b }

  -- A white vertex is visited, and the loop goes on.
  Scanned-visit :
      (v : String) (vs : List String) {c d c' : Colors}
      → Visited v c d
      → Scanned vs d c'
      → Scanned (v ∷ vs) c c'
  Scanned-visit v vs {c' = c'} a b = record {
    grows = Grows-trans a.grows b.grows;
    finished = finished_cons v vs c' (b.grows.black_kept v a.finished) b.finished;
    sound = λ s. b.sound (a.sound s);
  }

  -- A black vertex is passed over.
  Scanned-pass :
      (v : String) (vs : List String) {c c' : Colors}
      → c v ≡ black
      → Scanned vs c c'
      → Scanned (v ∷ vs) c c'
  Scanned-pass v vs {c' = c'} e b = record {
    grows = b.grows;
    finished = finished_cons v vs c' (b.grows.black_kept v e) b.finished;
    sound = b.sound;
  }

  scan-Scanned :
      (visit : String → Colors → Walk)
      → Visits visit
      → (stack vs : List String) (c c' : Colors) → scan adj visit stack vs c ≡ done c'
      → Scanned vs c c'
  unfolding scan
  scan-Scanned visit ok stack [] c c' h =
      let e : c ≡ c' = cc in subst (λ d. Scanned [] c d) e (Scanned-nil c)
  scan-Scanned visit ok stack (v ∷ vs) c c' h =
      go (c v) refl h (λ d. scan-Scanned visit ok stack vs d c')
    where
      go :
          (k : Color)
          → c v ≡ k
          → (elim k [
            | white ↦ visit v c >>= scan adj visit stack vs
            | gray ↦ circular (stack ++ v ∷ [])
            | black ↦ scan adj visit stack vs c
          ])
            ≡ done c'
          → ((d : Colors) → scan adj visit stack vs d ≡ done c' → Scanned vs d c')
          → Scanned (v ∷ vs) c c'
      go white e r rest =
          let (d, first, later) = >>=-eq-done (visit v c) (scan adj visit stack vs) r in
          Scanned-visit v vs (ok v c d e first) (rest d later)
      go gray e r rest = cc
      go black e r rest = Scanned-pass v vs e (rest c r)

  IsSound-paint_gray : (u : String) (c : Colors) → IsSound c → IsSound (paint c u gray)
  IsSound-paint_gray u c b v e = b v (ground (arith, eq_iff u v))

  IsSound-paint_black :
      (u : String) (c : Colors) → Grounded (Edge adj) u → IsSound c → IsSound (paint c u black)
  IsSound-paint_black u c g b v e = elim (Bool-cases (u == v)) [
    | inl same ↦ subst (Grounded (Edge adj)) ((eq_iff u v).0 same) g
    | inr other ↦ b v (rw other at e)
  ]

  -- The vertex and all that it reaches turn black.
  Visited-dfs :
      (u : String) (c c' : Colors)
      → c u ≡ white
      → Scanned (adj u) (paint c u gray) c'
      → Visited u c (paint c' u black)
  Visited-dfs u c c' w s = record {
    grows = Grows-paint u c c' w s.grows;
    finished = rw eq_refl;
    sound = λ b.
        let below = s.sound (IsSound-paint_gray u c b) in
        IsSound-paint_black u c' (ground_at (λ v e. below v (s.finished v e))) below;
  }

  pub dfs-Visited :
      (n : ℕ) (stack : List String) (u : String) (c c' : Colors)
      → c u ≡ white
      → dfs adj n stack u c ≡ done c'
      → Visited u c c'
  unfolding dfs
  dfs-Visited zero stack u c c' w h = cc
  dfs-Visited (suc n) stack u c c' w h =
      let walk = scan adj (λ v. dfs adj n (stack ++ v ∷ []) v) stack (adj u) (paint c u gray) in
      let (d, scanned, painted) = >>=-eq-done walk (λ d. done (paint d u black)) h in
      let s =
        scan-Scanned (λ v. dfs adj n (stack ++ v ∷ []) v)
          (λ v a b. dfs-Visited n (stack ++ v ∷ []) v a b) stack (adj u) (paint c u gray) d
          scanned in
      let e : paint d u black ≡ c' = cc in subst (λ x. Visited u c x) e (Visited-dfs u c d w s)

  -- Every root that the loop met is black.
  pub roots-Scanned :
      (n : ℕ) (us : List String) (c c' : Colors)
      → roots adj n us c ≡ done c'
      → ((v : String) → (c v ≡ gray) → ⊥)
      → Scanned us c c'
  unfolding roots
  roots-Scanned n [] c c' h free =
      let e : c ≡ c' = cc in subst (λ d. Scanned [] c d) e (Scanned-nil c)
  roots-Scanned n (u ∷ us) c c' h free = go (c u) refl h (λ d. roots-Scanned n us d c')
    where
      go :
          (k : Color)
          → c u ≡ k
          → (elim k [ white ↦ dfs adj n (u ∷ []) u c >>= roots adj n us | _ ↦ roots adj n us c ])
            ≡ done c'
          → ((d : Colors)
              → roots adj n us d ≡ done c'
              → ((v : String) → (d v ≡ gray) → ⊥)
              → Scanned us d c')
          → Scanned (u ∷ us) c c'
      go white e r rest =
          let (d, first, later) = >>=-eq-done (dfs adj n (u ∷ []) u c) (roots adj n us) r in
          let a = dfs-Visited n (u ∷ []) u c d e first in
          Scanned-visit u us a (rest d later (λ v g. free v (a.grows.gray_old v g)))
      go gray e r rest = absurd (free u e)
      go black e r rest = Scanned-pass u us e (rest c r free)
