-- ===== src/Tests/Stores.antt =====
-- Examples for agent/runtime/checkpoint_store.py: two checkpoints of one step.
use mitigate_ai_platform.Prelude.{
  ℕ, String, some, List, [], ◌∷◌, pos, returned, and_then, if◌then◌else◌, ◌≡◌, refl,
}
use mitigate_ai_platform.Checkpoints.{
  CheckpointRecord, File, new_record, save, load, latest, list_sequences,
}
use mitigate_ai_platform.Checkpoints.Reading.{same_key, save-load}
use mitigate_ai_platform.Checkpoints.Sequences.{last_of}
use mitigate_ai_platform.Checkpoints.Latest.{load_last, latest-load}

abbrev same_text : String → String
same_text t = t

abbrev numbered : ℕ → CheckpointRecord String
numbered n = new_record same_text "p" "e " "s" n "{}" "{}" "now"

abbrev filed : ℕ → File String
filed n = record {
  dir = record { project = "p"; execution = "e"; step = "s" };
  number = n;
  content = numbered n;
}

abbrev two_files : List (File String)
two_files = filed 10 ∷ filed 2 ∷ []

two_files-saved :
    (save same_text "p" "e " "s" (pos 2) "{}" "{}" "now" (filed 10 ∷ []))
    ≡ (returned (numbered 2), two_files)
unfolding save
two_files-saved = refl

save-load_example :
    (numbered 2 ≡ new_record same_text "p" "e " "s" 2 "{}" "{}" "now")
    × (load same_text "p" " e" "s"
          (pos 2)
          (save same_text "p" "e " "s" (pos 2) "{}" "{}" "now" (filed 10 ∷ [])).1
        ≡ (if same_key "p" "e " "s" 2 "p" " e" "s" (pos 2)
            then returned (some (numbered 2))
            else load same_text "p" " e" "s" (pos 2) (filed 10 ∷ [])))
unfolding save
save-load_example =
    save-load same_text "p" "e " "s" 2 "{}" "{}" "now" (filed 10 ∷ []) (numbered 2) "p" " e" "s"
      (pos 2) refl

latest-load_example :
    latest same_text "p" "e" "s" two_files
    ≡ and_then
        (list_sequences "p" "e" "s" two_files)
        (λ ns. load_last same_text "p" "e" "s" two_files (last_of ns))
latest-load_example = latest-load same_text "p" "e" "s" two_files ((refl, tt), (tt, tt))

two_files-latest : latest same_text "p" "e" "s" two_files ≡ returned (some (numbered 10))
unfolding latest
two_files-latest = refl
