-- ===== src/MissionQueue/Graph/Total.antt =====
-- As much fuel as there are white vertices is enough: each call paints one more of them.
use mitigate_ai_platform.Prelude.{
  ℕ, zero, suc, ◌+◌, ◌≤◌, ◌<◌, String, true, inl, inr, ◌⊎◌, List, [], ◌∷◌, ◌++◌, ◌≡◌, ◌≢◌, refl,
  arith, eq_iff, eq_refl, contains, length,
}
use mitigate_ai_platform.MissionQueue.Graph.Paths.{Edge}
use mitigate_ai_platform.MissionQueue.Graph.Sound.{Grows, Visits, dfs-Visited}
use mitigate_ai_platform.MissionQueue.Graph.{
  Color, white, gray, black, Colors, paint, Walk, done, circular, no_fuel, ◌>>=◌, scan, dfs, roots,
}

>>=-eq-no_fuel :
    (m : Walk) (f : Colors → Walk)
    → (m >>= f) ≡ no_fuel
    → (m ≡ no_fuel) ⊎ ((c : Colors) × (m ≡ done c) × (f c ≡ no_fuel))
>>=-eq-no_fuel (done c) f h = inr (c, refl, h)
>>=-eq-no_fuel (circular q) f h = cc
>>=-eq-no_fuel no_fuel f h = inl h

abbrev white_one : Color → ℕ
white_one white = 1
white_one gray = 0
white_one black = 0

-- How many of the vertices are white.
pub whites : List String → Colors → ℕ
whites [] c = 0
whites (k ∷ ks) c = white_one (c k) + whites ks c

white_one_mono :
    (a b : Color) → (a ≡ black → b ≡ black) → (a ≡ gray → b ≡ gray) → white_one b ≤ white_one a
white_one_mono white white h g = omega arith
white_one_mono white gray h g = omega arith
white_one_mono white black h g = omega arith
white_one_mono gray b h g = rw (g refl) (omega arith)
white_one_mono black b h g = rw (h refl) (omega arith)

pub whites_mono : (ks : List String) {c d : Colors} → Grows c d → whites ks d ≤ whites ks c
unfolding whites
whites_mono [] g = omega arith
whites_mono (k ∷ ks) {c} {d} g =
    omega (arith, whites_mono ks g, white_one_mono (c k) (d k) (g.black_kept k) (g.gray_kept k))

whites-paint-le :
    (ks : List String) (c : Colors) (u : String) → whites ks (paint c u gray) ≤ whites ks c
unfolding whites
whites-paint-le [] c u = omega arith
whites-paint-le (k ∷ ks) c u = ground (arith, whites-paint-le ks c u)

whites-paint-lt :
    (ks : List String) (c : Colors) (u : String)
    → contains u ks ≡ true
    → c u ≡ white
    → whites ks (paint c u gray) < whites ks c
unfolding whites contains
whites-paint-lt [] c u m w = cc
whites-paint-lt (k ∷ ks) c u m w =
    ground (arith, whites-paint-lt ks c u, whites-paint-le ks c u, eq_iff k u, eq_iff u k)

whites-le-length : (ks : List String) (c : Colors) → whites ks c ≤ length ks
unfolding whites
whites-le-length [] c = omega arith
whites-le-length (k ∷ ks) c = ground (arith, whites-le-length ks c)

module _ (adj : String → List String) (ks : List String)
    (closed : (u w : String) → Edge adj u w → contains w ks ≡ true) where
  abbrev Fuels : ℕ → (String → Colors → Walk) → Type 0
  Fuels n visit =
      (v : String) (c : Colors)
      → c v ≡ white
      → contains v ks ≡ true
      → whites ks c ≤ n
      → visit v c ≢ no_fuel

  scan-ne-no_fuel :
      (n : ℕ) (visit : String → Colors → Walk)
      → Visits adj visit
      → Fuels n visit
      → (stack vs : List String) (c : Colors)
      → ((w : String) → contains w vs ≡ true → contains w ks ≡ true)
      → whites ks c ≤ n
      → scan adj visit stack vs c ≢ no_fuel
  unfolding scan contains
  scan-ne-no_fuel n visit ok fuels stack [] c inside le h = cc
  scan-ne-no_fuel n visit ok fuels stack (v ∷ vs) c inside le h =
      go (c v) refl h
        (λ d. scan-ne-no_fuel n visit ok fuels stack vs d (λ w m. inside w (ground (arith, m))))
    where
      go :
          (k : Color)
          → c v ≡ k
          → (elim k [
            | white ↦ visit v c >>= scan adj visit stack vs
            | gray ↦ circular (stack ++ v ∷ [])
            | black ↦ scan adj visit stack vs c
          ])
            ≡ no_fuel
          → ((d : Colors) → whites ks d ≤ n → scan adj visit stack vs d ≢ no_fuel)
          → ⊥
      go white e r rest = elim (>>=-eq-no_fuel (visit v c) (scan adj visit stack vs) r) [
        | inl out ↦ fuels v c e (inside v (rw eq_refl)) le out
        | inr (d, first, later) ↦
            let fewer = whites_mono ks (ok v c d e first).grows in rest d (omega arith) later
      ]
      go gray e r rest = cc
      go black e r rest = rest c le r

  dfs-ne-no_fuel :
      (n : ℕ) (stack : List String) (u : String) (c : Colors)
      → c u ≡ white
      → contains u ks ≡ true
      → whites ks c ≤ n
      → dfs adj n stack u c ≢ no_fuel
  unfolding dfs
  dfs-ne-no_fuel zero stack u c w m le h = omega (arith, whites-paint-lt ks c u m w)
  dfs-ne-no_fuel (suc n) stack u c w m le h =
      let visit = λ (v : String). dfs adj n (stack ++ v ∷ []) v in
      let walk = scan adj visit stack (adj u) (paint c u gray) in
      elim (>>=-eq-no_fuel walk (λ d. done (paint d u black)) h) [
        | inl out ↦
            scan-ne-no_fuel n visit (λ v a b. dfs-Visited adj n (stack ++ v ∷ []) v a b)
              (λ v a. dfs-ne-no_fuel n (stack ++ v ∷ []) v a) stack (adj u) (paint c u gray)
              (closed u) (omega (arith, whites-paint-lt ks c u m w)) out
        | inr (d, first, later) ↦ cc
      ]

  pub roots-ne-no_fuel :
      (n : ℕ) (us : List String) (c : Colors)
      → ((w : String) → contains w us ≡ true → contains w ks ≡ true)
      → whites ks c ≤ n
      → roots adj n us c ≢ no_fuel
  unfolding roots contains
  roots-ne-no_fuel n [] c inside le h = cc
  roots-ne-no_fuel n (u ∷ us) c inside le h =
      go (c u) refl h (λ d. roots-ne-no_fuel n us d (λ w m. inside w (ground (arith, m))))
    where
      go :
          (k : Color)
          → c u ≡ k
          → (elim k [ white ↦ dfs adj n (u ∷ []) u c >>= roots adj n us | _ ↦ roots adj n us c ])
            ≡ no_fuel
          → ((d : Colors) → whites ks d ≤ n → roots adj n us d ≢ no_fuel)
          → ⊥
      go white e r rest = elim (>>=-eq-no_fuel (dfs adj n (u ∷ []) u c) (roots adj n us) r) [
        | inl out ↦ dfs-ne-no_fuel n (u ∷ []) u c e (inside u (rw eq_refl)) le out
        | inr (d, first, later) ↦
            let fewer = whites_mono ks (dfs-Visited adj n (u ∷ []) u c d e first).grows in
            rest d (omega arith) later
      ]
      go gray e r rest = rest c le r
      go black e r rest = rest c le r

  -- `len(graph)` rounds of recursion are never exceeded.
  pub roots_fuel :
      (us : List String)
      → ((w : String) → contains w us ≡ true → contains w ks ≡ true)
      → roots adj (length ks) us (λ u. white) ≢ no_fuel
  roots_fuel us inside = roots-ne-no_fuel (length ks) us (λ u. white) inside (whites-le-length ks _)
