-- ===== src/Checkpoints/Latest.antt =====
-- `latest` and `list_sequences` of agent/runtime/checkpoint_store.py together.
use mitigate_ai_platform.Prelude.{
  ℕ, ◌≤◌, String, true, Option, none, some, List, [], ◌∷◌, map, ltb, sort_by, pos, All, All-Elem,
  All-mono, All-filter_by_self, Elem, Attempt, returned, and_then, Attempt-cases, Bool-cases, inl,
  inr, ◌≡◌, ◌∙◌, refl, sym, ap, subst, arith,
}
use mitigate_ai_platform.Checkpoints.{
  CheckpointError, CheckpointRecord, StepDir, same_dir, File, step_dir, find_file, read_found,
  find_sequence, load, candidates, larger, largest, content_of, latest, distinct_numbers,
  list_sequences,
}
use mitigate_ai_platform.Checkpoints.Reading.{same_dir-eq}
use mitigate_ai_platform.Checkpoints.Sequences.{last_of, last_of-sort_by}
use mitigate_ai_platform.Checkpoints.Filing.{IsFiled, find_file-Elem}

module _ {O : Type 0} where
  largest-empty : (P : File O → Type 0) (fs : List (File O)) → largest fs ≡ none → All P fs
  unfolding largest
  largest-empty P [] h = tt
  largest-empty P (f ∷ fs) h = cc

  -- The choice between the first file and the largest of the rest.
  larger-max :
      (f g t : File O) (fs : List (File O))
      → larger f (some t) ≡ g
      → Elem t fs
      → All (λ h. h.number ≤ t.number) fs
      → Elem g (f ∷ fs) × All (λ h. h.number ≤ g.number) (f ∷ fs)
  larger-max f g t fs k m a = elim (Bool-cases (ltb f.number t.number)) [
    | inl less ↦
        let same : t ≡ g = rw less at k in
        subst (λ z. Elem z (f ∷ fs) × All (λ h. h.number ≤ z.number) (f ∷ fs)) same
          (inr m, (ground (arith, less), a))
    | inr more ↦
        let same : f ≡ g = rw more at k in
        subst (λ z. Elem z (f ∷ fs) × All (λ h. h.number ≤ z.number) (f ∷ fs)) same
          (
            inl refl,
            (
              omega arith,
              All-mono (λ h. h.number ≤ t.number) (λ h. h.number ≤ f.number)
                  (λ h le. ground (arith, le, more)) fs a,
            ),
          )
  ]

  largest-max :
      (fs : List (File O)) (g : File O)
      → largest fs ≡ some g
      → Elem g fs × All (λ h. h.number ≤ g.number) fs
  unfolding largest
  largest-max [] g h = cc
  largest-max (f ∷ fs) g h = over (largest fs) refl (λ t e. largest-max fs t e) (some_of h)
    where
      some_of : {a : File O} → ◌≡◌ {A = Option (File O)} (some a) (some g) → a ≡ g
      some_of k = cc

      over :
          (o : Option (File O))
          → largest fs ≡ o
          → ((t : File O) → largest fs ≡ some t → Elem t fs × All (λ h. h.number ≤ t.number) fs)
          → larger f o ≡ g
          → Elem g (f ∷ fs) × All (λ h. h.number ≤ g.number) (f ∷ fs)
      over none e again k =
          subst (λ z. Elem z (f ∷ fs) × All (λ h. h.number ≤ z.number) (f ∷ fs)) k
            (inl refl, (omega arith, largest-empty (λ h. h.number ≤ f.number) fs e))
      over (some t) e again k = larger-max f g t fs k (again t e).0 (again t e).1

  Elem-candidates :
      (d : StepDir) (g : File O) (fs : List (File O)) → Elem g (candidates d fs) → Elem g fs
  Elem-candidates d g [] e = e
  Elem-candidates d g (f ∷ fs) e = elim (Bool-cases (same_dir f.dir d)) [
    | inl here ↦ elim (rw here at e) [ inl k ↦ inl k | inr k ↦ inr (Elem-candidates d g fs k) ]
    | inr away ↦ inr (Elem-candidates d g fs (rw away at e))
  ]

  Elem-map_number :
      (g : File O) (fs : List (File O)) → Elem g fs → Elem g.number (map (λ f. f.number) fs)
  Elem-map_number g [] e = e
  Elem-map_number g (f ∷ fs) (inl e) = inl (ap (λ (h : File O). h.number) e)
  Elem-map_number g (f ∷ fs) (inr e) = inr (Elem-map_number g fs e)

  All-map_number :
      (n : ℕ) (fs : List (File O))
      → All (λ h. h.number ≤ n) fs
      → All (λ m. m ≤ n) (map (λ f. f.number) fs)
  All-map_number n [] h = tt
  All-map_number n (f ∷ fs) h = (h.0, All-map_number n fs h.1)

  abbrev sequences : StepDir → List (File O) → List ℕ
  sequences d files = sort_by ltb (distinct_numbers (map (λ f. f.number) (candidates d files)))

  -- The largest candidate is the file of the last sequence.
  last-largest :
      (d : StepDir) (files : List (File O)) (g : File O)
      → IsFiled files
      → largest (candidates d files) ≡ some g
      → (last_of (sequences d files) ≡ some g.number)
        × (find_file d g.number files ≡ some g.content)
  last-largest d files g u e =
      let (m, a) = largest-max (candidates d files) g e in
      let dirs = same_dir-eq g.dir d (
        All-Elem (λ h. same_dir h.dir d ≡ true) (candidates d files) (All-filter_by_self _ files)
          m) in
      (
        last_of-sort_by g.number _ (Elem-map_number g (candidates d files) m)
            (All-map_number g.number (candidates d files) a),
        subst (λ x. find_file x g.number files ≡ some g.content) dirs
            (find_file-Elem g files u (Elem-candidates d g files m)),
      )

  no-largest :
      (d : StepDir) (files : List (File O))
      → largest (candidates d files) ≡ none
      → last_of (sequences d files) ≡ none
  unfolding largest sort_by
  no-largest d files h = empty (candidates d files) h
    where
      empty :
          (cs : List (File O))
          → largest cs ≡ none
          → last_of (sort_by ltb (distinct_numbers (map (λ f. f.number) cs))) ≡ none
      empty [] k = refl
      empty (c ∷ cs) k = cc

  module _ (digest : String → String) where
    abbrev pub load_last :
        String
        → String
        → String
        → List (File O)
        → Option ℕ
        → Attempt CheckpointError (Option (CheckpointRecord O))
    load_last p e s files none = returned none
    load_last p e s files (some n) = load digest p e s (pos n) files

    -- The latest checkpoint: if no two files have the same name, `latest` does what `load` does with the
    -- last of `list_sequences`, gives `None` if that list is empty, and raises where it raises.
    pub latest-load :
        (p e s : String) (files : List (File O))
        → IsFiled files
        → latest digest p e s files
          ≡ and_then (list_sequences p e s files) (λ ns. load_last p e s files (last_of ns))
    unfolding latest list_sequences load
    latest-load p e s files u = elim (Attempt-cases (step_dir p e s)) [
      | inr (x, bad) ↦ rw bad refl
      | inl (d, good) ↦ rw good (pick d good (largest (candidates d files)) refl)
    ]
      where
        pick :
            (d : StepDir)
            → step_dir p e s ≡ returned d
            → (o : Option (File O)) → largest (candidates d files) ≡ o
            → read_found digest (content_of (largest (candidates d files)))
              ≡ load_last p e s files (last_of (sequences d files))
        pick d good none k = rw k (sym (ap (load_last p e s files) (no-largest d files k)))
        pick d good (some g) k =
            let (last, found) = last-largest d files g u k in
            rw k (
              sym (
                ap (load_last p e s files) last
                ∙ ap
                    (λ r.
                      and_then r (λ x. read_found digest (find_sequence x (pos g.number) files)))
                    good
                ∙ ap (read_found digest) found))
