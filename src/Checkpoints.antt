-- ===== src/Checkpoints.antt =====
-- `DurableCheckpointStore`, agent/runtime/checkpoint_store.py. The files are a list of records by the
-- components of their paths; `O` are the objects of JSON, which a file gives back as they were, and
-- `digest` stands for the first 24 characters of `sha256(...).hexdigest()`.
pub mod Reading
pub mod Sequences
pub mod Filing
pub mod Latest
use Prim.Native.Nat.{◌/◌, ◌%◌}
use Prim.Native.String.{◌++◌}
use mitigate_ai_platform.Prelude.{
  ℕ, zero, suc, ◌≤◌, String, Bool, true, false, not, ◌&&◌, ◌||◌, Option, none, some, List, [], ◌∷◌,
  map, ◌==◌, eqb, ltb, if◌then◌else◌, filter_by, any, sort_by, strip, is_empty, ℤ, pos, negsuc,
  Attempt, returned, raised, and_then, require,
}
use mitigate_ai_platform.FlowSpec.Parse.{is_safe}

pub data CheckpointError : Type 0 where
  component_required unsafe_component sequence_negative identity_mismatch : CheckpointError

pub record CheckpointRecord (O : Type 0) : Type 0 where
  pub checkpoint_id : String
  pub project_id : String
  pub execution_id : String
  pub step_id : String
  pub sequence : ℕ
  pub state : O
  pub metadata : O
  pub created_at : String

-- The directory of a step below the storage directory.
pub record StepDir : Type 0 where
  pub project : String
  pub execution : String
  pub step : String

abbrev pub same_dir : StepDir → StepDir → Bool
same_dir d e = (d.project == e.project && d.execution == e.execution) && d.step == e.step

-- A file `<sequence>.json` of a directory. The sequence, in twenty or more digits, names the file.
pub record File (O : Type 0) : Type 0 where
  pub dir : StepDir
  pub number : ℕ
  pub content : CheckpointRecord O

abbrev pub is_file : {O : Type 0} → StepDir → ℕ → File O → Bool
is_file d n f = same_dir f.dir d && eqb f.number n

abbrev digit : ℕ → String
digit n =
    if eqb n 0
    then "0"
    else if eqb n 1
    then "1"
    else if eqb n 2
    then "2"
    else if eqb n 3
    then "3"
    else if eqb n 4
    then "4"
    else if eqb n 5
    then "5"
    else if eqb n 6
    then "6"
    else if eqb n 7
    then "7"
    else if eqb n 8
    then "8"
    else "9"

-- The digits of a number before a text; each turn divides by ten, so `suc n` turns are enough for `n`.
unfoldable digits : ℕ → ℕ → String → String
digits zero n rest = rest
digits (suc fuel) n rest =
    let more = digits fuel (n / 10) (digit (n % 10) ++ rest) in
    if ltb n 10 then digit n ++ rest else more

-- `str(sequence)`
unfoldable pub decimal : ℕ → String
unfolding digits
decimal n = digits (suc n) n ""

-- `_safe_component`
unfoldable pub safe_component : String → Attempt CheckpointError String
unfolding strip is_empty is_safe
safe_component value =
    let cleaned = strip value in
    and_then (require (not (is_empty cleaned)) component_required)
      λ _. and_then (require (is_safe cleaned) unsafe_component) λ _. returned cleaned

-- `_validate_identity`
unfoldable pub validate_identity : String → String → String → Attempt CheckpointError (Unit {0})
unfolding safe_component
validate_identity p e s =
    and_then (safe_component p)
      λ _. and_then (safe_component e) λ _. and_then (safe_component s) λ _. returned tt

-- `_step_dir`
unfoldable pub step_dir : String → String → String → Attempt CheckpointError StepDir
unfolding validate_identity safe_component
step_dir p e s = and_then (validate_identity p e s) λ _. and_then (safe_component p) λ project.
    and_then (safe_component e) λ execution.
      and_then (safe_component s)
        λ step. returned (record { project = project; execution = execution; step = step })

-- `_checkpoint_id`
unfoldable pub checkpoint_id : (String → String) → String → String → String → ℕ → String
unfolding strip decimal
checkpoint_id digest p e s n =
    "checkpoint-" ++ digest (strip p ++ "|" ++ strip e ++ "|" ++ strip s ++ "|" ++ decimal n)

-- The elements of a list of numbers without repetition.
abbrev pub distinct_numbers : List ℕ → List ℕ
distinct_numbers [] = []
distinct_numbers (n ∷ ns) =
    let rest = distinct_numbers ns in if any (λ m. eqb m n) rest then rest else n ∷ rest

module _ {O : Type 0} where
  -- `_atomic_write`: the file takes the place of one of the same name.
  abbrev pub write : File O → List (File O) → List (File O)
  write f [] = f ∷ []
  write f (g ∷ gs) = let rest = write f gs in if is_file f.dir f.number g then f ∷ gs else g ∷ rest

  abbrev pub find_file : StepDir → ℕ → List (File O) → Option (CheckpointRecord O)
  find_file d n [] = none
  find_file d n (f ∷ fs) =
      let rest = find_file d n fs in if is_file d n f then some f.content else rest

  abbrev pub find_sequence : StepDir → ℤ → List (File O) → Option (CheckpointRecord O)
  find_sequence d (pos n) files = find_file d n files
  find_sequence d (negsuc n) files = none

  -- The files of a directory.
  abbrev pub candidates : StepDir → List (File O) → List (File O)
  candidates d files = filter_by (λ f. same_dir f.dir d) files

  abbrev pub larger : File O → Option (File O) → File O
  larger f none = f
  larger f (some g) = if ltb f.number g.number then g else f

  -- `max(candidates, key=...)`
  unfoldable pub largest : List (File O) → Option (File O)
  largest [] = none
  largest (f ∷ fs) = some (larger f (largest fs))

  abbrev pub content_of : Option (File O) → Option (CheckpointRecord O)
  content_of none = none
  content_of (some f) = some f.content

  -- `list_sequences`
  unfoldable pub list_sequences :
      String → String → String → List (File O) → Attempt CheckpointError (List ℕ)
  unfolding step_dir sort_by
  list_sequences p e s files =
      and_then (step_dir p e s)
        λ d. returned (sort_by ltb (distinct_numbers (map (λ f. f.number) (candidates d files))))

  module _ (digest : String → String) where
    abbrev pub new_record : String → String → String → ℕ → O → O → String → CheckpointRecord O
    new_record p e s n state metadata now = record {
      checkpoint_id = checkpoint_id digest p e s n;
      project_id = p;
      execution_id = e;
      step_id = s;
      sequence = n;
      state = state;
      metadata = metadata;
      created_at = now;
    }

    abbrev stored :
        Attempt CheckpointError StepDir
        → CheckpointRecord O
        → List (File O)
        → Attempt CheckpointError (CheckpointRecord O) × List (File O)
    stored (raised e) r files = (raised e, files)
    stored (returned d) r files =
        (returned r, write (record { dir = d; number = r.sequence; content = r }) files)

    -- `save`; `now` is the time of the call.
    unfoldable pub save :
        String
        → String
        → String
        → ℤ
        → O
        → O
        → String
        → List (File O)
        → Attempt CheckpointError (CheckpointRecord O) × List (File O)
    unfolding step_dir checkpoint_id
    save p e s (pos n) state metadata now files =
        stored (step_dir p e s) (new_record p e s n state metadata now) files
    save p e s (negsuc n) state metadata now files =
        (and_then (validate_identity p e s) (λ _. raised sequence_negative), files)

    -- `_read_record`
    unfoldable pub read_record :
        CheckpointRecord O → Attempt CheckpointError (Option (CheckpointRecord O))
    unfolding checkpoint_id
    read_record r =
        and_then
          (require
            (r.checkpoint_id
              == checkpoint_id digest r.project_id r.execution_id r.step_id r.sequence)
            identity_mismatch)
          λ _. returned (some r)

    abbrev pub read_found :
        Option (CheckpointRecord O) → Attempt CheckpointError (Option (CheckpointRecord O))
    read_found none = returned none
    read_found (some r) = read_record r

    -- `load`: no file has a negative number.
    unfoldable pub load :
        String
        → String
        → String
        → ℤ
        → List (File O)
        → Attempt CheckpointError (Option (CheckpointRecord O))
    unfolding step_dir read_record
    load p e s n files = and_then (step_dir p e s) λ d. read_found (find_sequence d n files)

    -- `latest`
    unfoldable pub latest :
        String
        → String
        → String
        → List (File O)
        → Attempt CheckpointError (Option (CheckpointRecord O))
    unfolding step_dir read_record largest
    latest p e s files =
        and_then (step_dir p e s) λ d. read_found (content_of (largest (candidates d files)))
