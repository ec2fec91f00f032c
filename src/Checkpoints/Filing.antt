-- ===== src/Checkpoints/Filing.antt =====
-- The files of agent/runtime/checkpoint_store.py have different names.
use mitigate_ai_platform.Prelude.{
  true, false, some, List, [], ◌∷◌, eq_refl, All, All-Elem, Elem, Bool-cases, inl, inr, ◌≡◌, ◌∙◌,
  refl, sym, ap, subst, arith,
}
use mathlib.Core.Bool.{false≢true}
use mitigate_ai_platform.Checkpoints.{File, is_file, write, find_file}
use mitigate_ai_platform.Checkpoints.Reading.{same_dir-eq}

module _ {O : Type 0} where
  -- No two files have the same name.
  abbrev pub IsFiled : List (File O) → Type 0
  IsFiled [] = Unit
  IsFiled (f ∷ fs) = All (λ g. is_file f.dir f.number g ≡ false) fs × IsFiled fs

  is_file_self : (h : File O) → is_file h.dir h.number h ≡ true
  is_file_self h =
      ground (arith, eq_refl h.dir.project, eq_refl h.dir.execution, eq_refl h.dir.step)

  -- Two files of the same name.
  is_file_same :
      (f g : File O) → is_file f.dir f.number g ≡ true → (f.dir ≡ g.dir) × (f.number ≡ g.number)
  is_file_same f g h = (sym (same_dir-eq g.dir f.dir (ground (arith, h))), ground (arith, h))

  is_file_apart :
      (f g : File O) → is_file f.dir f.number g ≡ false → is_file g.dir g.number f ≡ false
  is_file_apart f g h = elim (Bool-cases (is_file g.dir g.number f)) [
    | inl same ↦
        let (dirs, numbers) = is_file_same g f same in
        let back : is_file f.dir f.number g ≡ true =
          ap (λ d. is_file d f.number g) (sym dirs)
          ∙ ap (λ n. is_file g.dir n g) (sym numbers)
          ∙ is_file_self g in
        absurd (false≢true (sym h ∙ back))
    | inr other ↦ other
  ]

  pub find_file-Elem :
      (g : File O) (fs : List (File O))
      → IsFiled fs
      → Elem g fs
      → find_file g.dir g.number fs ≡ some g.content
  find_file-Elem g [] u e = absurd e
  find_file-Elem g (f ∷ fs) u (inl e) =
      subst (λ h. find_file h.dir h.number (f ∷ fs) ≡ some h.content) e (rw (is_file_self f) refl)
  find_file-Elem g (f ∷ fs) u (inr e) =
      let apart = All-Elem (λ h. is_file f.dir f.number h ≡ false) fs u.0 e in
      rw (is_file_apart f g apart) (find_file-Elem g fs u.1 e)

  All-write :
      (P : File O → Type 0) (f : File O) (fs : List (File O)) → P f → All P fs → All P (write f fs)
  All-write P f [] hf h = (hf, tt)
  All-write P f (g ∷ gs) hf h = elim (Bool-cases (is_file f.dir f.number g)) [
    | inl same ↦ rw same (hf, h.1)
    | inr other ↦ rw other (h.0, All-write P f gs hf h.1)
  ]

  -- A file that is written leaves the names apart.
  pub write-IsFiled : (f : File O) (fs : List (File O)) → IsFiled fs → IsFiled (write f fs)
  write-IsFiled f [] u = (tt, tt)
  write-IsFiled f (g ∷ gs) u = elim (Bool-cases (is_file f.dir f.number g)) [
    | inl same ↦
        let (dirs, numbers) = is_file_same f g same in
        rw same (
          subst (λ n. All (λ h. is_file f.dir n h ≡ false) gs) (sym numbers)
              (subst (λ d. All (λ h. is_file d g.number h ≡ false) gs) (sym dirs) u.0),
          u.1,
        )
    | inr other ↦ rw other (
      All-write (λ h. is_file g.dir g.number h ≡ false) f gs (is_file_apart f g other) u.0,
      write-IsFiled f gs u.1,
    )
  ]
