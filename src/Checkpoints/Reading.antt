-- ===== src/Checkpoints/Reading.antt =====
-- `save` and `load` of agent/runtime/checkpoint_store.py together.
use mitigate_ai_platform.Prelude.{
  ℕ, String, Bool, true, false, not, ◌&&◌, Option, some, List, [], ◌∷◌, eq_iff, eq_refl, eqb, eq_ℤ,
  if◌then◌else◌, strip, is_empty, ℤ, pos, negsuc, Attempt, returned, raised, and_then, require,
  Attempt-cases, Ensures, Ensures-bind, Ensures-returned, Bool-cases, inl, inr, ◌≡◌, ◌∙◌, refl, sym,
  ap, arith,
}
use mathlib.Core.Bool.{false≢true}
use mitigate_ai_platform.Checkpoints.{
  CheckpointError, CheckpointRecord, StepDir, same_dir, File, is_file, safe_component,
  validate_identity, step_dir, checkpoint_id, write, find_file, new_record, save, read_record,
  read_found, find_sequence, load, component_required, unsafe_component,
}
use mitigate_ai_platform.FlowSpec.Parse.{is_safe}

pub same_dir-eq : (d e : StepDir) → same_dir d e ≡ true → d ≡ e
same_dir-eq d e h =
    let a : d.project ≡ e.project = (eq_iff d.project e.project).0 (ground (arith, h)) in
    let b : d.execution ≡ e.execution = (eq_iff d.execution e.execution).0 (ground (arith, h)) in
    let c : d.step ≡ e.step = (eq_iff d.step e.step).0 (ground (arith, h)) in
    λ i. record { project = a i; execution = b i; step = c i }

module _ {O : Type 0} where
  find_file-write :
      (d : StepDir) (n : ℕ) (f : File O) (fs : List (File O))
      → find_file d n (write f fs) ≡ (if is_file d n f then some f.content else find_file d n fs)
  find_file-write d n f [] = refl
  find_file-write d n f (g ∷ gs) = elim (Bool-cases (is_file f.dir f.number g)) [
    | inl same ↦
        let dirs : g.dir ≡ f.dir = same_dir-eq g.dir f.dir (ground (arith, same)) in
        let numbers : g.number ≡ f.number = ground (arith, same) in
        let key : is_file d n g ≡ is_file d n f =
          ap (λ e. same_dir e d && eqb g.number n) dirs
          ∙ ap (λ m. same_dir f.dir d && eqb m n) numbers in
        rw same (rw key (twice (is_file d n f)))
    | inr other ↦
        rw other
          (rw (find_file-write d n f gs) (apart (is_file d n f) (is_file d n g) refl refl other))
  ]
    where
      twice :
          (b : Bool)
          → (if b then some f.content else find_file d n gs)
            ≡ (if b then some f.content else (if b then some g.content else find_file d n gs))
      twice true = refl
      twice false = refl

      apart :
          (b c : Bool)
          → is_file d n f ≡ b
          → is_file d n g ≡ c
          → is_file f.dir f.number g ≡ false
          → (if c then some g.content else (if b then some f.content else find_file d n gs))
            ≡ (if b then some f.content else (if c then some g.content else find_file d n gs))
      apart true true hb hc other =
          let dirs : d ≡ f.dir = sym (same_dir-eq f.dir d (ground (arith, hb))) in
          let numbers : n ≡ f.number = ground (arith, hb) in
          absurd (
            false≢true (
              sym other
              ∙ ap (λ e. is_file e f.number g) (sym dirs)
              ∙ ap (λ m. is_file d m g) (sym numbers)
              ∙ hc))
      apart true false hb hc other = refl
      apart false true hb hc other = refl
      apart false false hb hc other = refl

-- The directory, as a function of the stripped components.
pub stripped : String → String → String → StepDir
stripped p e s = record { project = strip p; execution = strip e; step = strip s }

safe_component-Ensures : (v : String) → Ensures (λ c. c ≡ strip v) (safe_component v)
unfolding safe_component
safe_component-Ensures v =
    Ensures-bind (require (not (is_empty (strip v))) component_required) _ λ _ _.
      Ensures-bind (require (is_safe (strip v)) unsafe_component) _ λ _ _. record { ensured = refl }

step_dir-Ensures : (p e s : String) → Ensures (λ d. d ≡ stripped p e s) (step_dir p e s)
unfolding step_dir stripped
step_dir-Ensures p e s = Ensures-bind (validate_identity p e s) _ λ _ _.
    Ensures-bind (safe_component p) _ λ a ha. Ensures-bind (safe_component e) _ λ b hb.
      Ensures-bind (safe_component s) _ λ c hc.
        let ea = Ensures-returned (safe_component p) (safe_component-Ensures p) ha in
        let eb = Ensures-returned (safe_component e) (safe_component-Ensures e) hb in
        let ec = Ensures-returned (safe_component s) (safe_component-Ensures s) hc in
        record { ensured = λ i. record { project = ea i; execution = eb i; step = ec i } }

pub step_dir-eq : (p e s : String) (d : StepDir) → step_dir p e s ≡ returned d → d ≡ stripped p e s
step_dir-eq p e s d h = Ensures-returned (step_dir p e s) (step_dir-Ensures p e s) h

-- Only the stripped components count.
safe_component-strip : (v w : String) → strip v ≡ strip w → safe_component v ≡ safe_component w
unfolding safe_component
safe_component-strip v w h =
    ap
      (λ c.
        and_then (require (not (is_empty c)) component_required)
          λ _. and_then (require (is_safe c) unsafe_component) λ _. returned c)
      h

step_dir-strip :
    (p e s p' e' s' : String)
    → stripped p e s ≡ stripped p' e' s'
    → step_dir p e s ≡ step_dir p' e' s'
unfolding step_dir validate_identity stripped
step_dir-strip p e s p' e' s' h =
    let a = safe_component-strip p p' (ap (λ (d : StepDir). d.project) h) in
    let b = safe_component-strip e e' (ap (λ (d : StepDir). d.execution) h) in
    let c = safe_component-strip s s' (ap (λ (d : StepDir). d.step) h) in rw a (rw b (rw c refl))

-- Whether two calls name the same file.
abbrev pub same_key : String → String → String → ℕ → String → String → String → ℤ → Bool
same_key p e s n p' e' s' m = same_dir (stripped p e s) (stripped p' e' s') && eq_ℤ (pos n) m

module _ {O : Type 0} (digest : String → String) where
  -- A new record passes its own check.
  read_record_new :
      (p e s : String) (n : ℕ) (state metadata : O) (now : String)
      → read_record digest (new_record digest p e s n state metadata now)
        ≡ returned (some (new_record digest p e s n state metadata now))
  unfolding read_record
  read_record_new p e s n state metadata now = rw (eq_refl (checkpoint_id digest p e s n)) refl

  -- A save is what is loaded: if `save` returns, then it returns the record of its arguments, and after
  -- it `load` with the same sequence, and with components that differ at most in the spaces around
  -- them, gives this record, and with any other arguments it gives what it gave before.
  pub save-load :
      (p e s : String) (n : ℕ) (state metadata : O) (now : String) (files : List (File O))
      (r : CheckpointRecord O) (p' e' s' : String) (m : ℤ)
      → (save digest p e s (pos n) state metadata now files).0 ≡ returned r
      → (r ≡ new_record digest p e s n state metadata now)
        × (load digest p' e' s' m (save digest p e s (pos n) state metadata now files).1 ≡ (
            if same_key p e s n p' e' s' m
            then returned (some r)
            else load digest p' e' s' m files))
  unfolding save load
  save-load p e s n state metadata now files r p' e' s' m h =
      elim (Attempt-cases (step_dir p e s)) [
        | inr (x, bad) ↦ absurd (failed (rw bad at h))
        | inl (d, good) ↦
            let this : new_record digest p e s n state metadata now ≡ r =
              of_returned (rw good at h) in
            (sym this, rw good (reads d good this))
      ]
    where
      f : StepDir → File O
      f d = record { dir = d; number = n; content = new_record digest p e s n state metadata now }

      of_returned :
          {a : CheckpointRecord O}
          → ◌≡◌ {A = Attempt CheckpointError (CheckpointRecord O)} (returned a) (returned r)
          → a ≡ r
      of_returned k = cc

      failed :
          {x : CheckpointError}
          → ◌≡◌ {A = Attempt CheckpointError (CheckpointRecord O)} (raised x) (returned r)
          → ⊥
      failed k = cc

      reads :
          (d : StepDir)
          → step_dir p e s ≡ returned d
          → new_record digest p e s n state metadata now ≡ r
          → and_then
              (step_dir p' e' s')
              (λ d'. read_found digest (find_sequence d' m (write (f d) files)))
            ≡ (if same_key p e s n p' e' s' m
                then returned (some r)
                else and_then
                    (step_dir p' e' s')
                    λ d'. read_found digest (find_sequence d' m files))
      reads d good this = elim (Attempt-cases (step_dir p' e' s')) [
        | inr (x, bad) ↦ elim (Bool-cases (same_key p e s n p' e' s' m)) [
          | inl same ↦
              let dirs = same_dir-eq (stripped p e s) (stripped p' e' s') (ground (arith, same)) in
              absurd (clash (sym good ∙ step_dir-strip p e s p' e' s' dirs ∙ bad))
          | inr other ↦ rw bad (rw other refl)
        ]
        | inl (d', good') ↦ rw good' (
            at m d' (
              ap (λ a. same_dir a d') (step_dir-eq p e s d good)
              ∙ ap (same_dir (stripped p e s)) (step_dir-eq p' e' s' d' good')))
      ]
        where
          clash :
              {x : CheckpointError}
              → ◌≡◌ {A = Attempt CheckpointError StepDir} (returned d) (raised x)
              → ⊥
          clash k = cc

          either :
              (b : Bool) (o : Option (CheckpointRecord O))
              → read_found digest
                  (if b then some (new_record digest p e s n state metadata now) else o)
                ≡ (if b then returned (some r) else read_found digest o)
          either true o =
              read_record_new p e s n state metadata now ∙ ap (λ t. returned (some t)) this
          either false o = refl

          at :
              (m : ℤ) (d' : StepDir)
              → same_dir d d' ≡ same_dir (stripped p e s) (stripped p' e' s')
              → read_found digest (find_sequence d' m (write (f d) files)) ≡ (
                  if same_key p e s n p' e' s' m
                  then returned (some r)
                  else read_found digest (find_sequence d' m files))
          at (negsuc k) d' dirs =
              let never : same_key p e s n p' e' s' (negsuc k) ≡ false = ground arith in
              rw never refl
          at (pos k) d' dirs =
              let key : is_file d' k (f d) ≡ same_key p e s n p' e' s' (pos k) =
                ground (arith, dirs) in
              ap (read_found digest) (
                find_file-write d' k (f d) files
                ∙ ap
                    (λ b.
                      if b
                      then some (new_record digest p e s n state metadata now)
                      else find_file d' k files)
                    key)
              ∙ either (same_key p e s n p' e' s' (pos k)) (find_file d' k files)
