-- ===== src/MissionQueue/Methods/Saves.antt =====
-- A rule for each way in which the body of a method is built: what holds of the queue that it saves.
use mitigate_ai_platform.Prelude.{◌≡◌, refl, Option, none, some, Bool, true, false, String, List}
use mitigate_ai_platform.MissionQueue.Mission.{
  Mission, Queue, QueueError, Result, ok, err, ◌>>=◌, ◌>>◌, guard, find, put,
}
use mitigate_ai_platform.MissionQueue.Methods.{or_missing, get_mission, commit}
use mitigate_ai_platform.MissionQueue.Validate.{validate_no_cycles}

-- `P` holds of the queue to save, if there is one.
abbrev pub Saved : {A : Type 0} → (Queue → Type 0) → Result (A × Option Queue) → Type 0
Saved P (err e) = Unit
Saved P (ok (a, none)) = Unit
Saved P (ok (a, some q)) = P q

pub record Saves {A : Type 0} (P : Queue → Type 0) (r : Result (A × Option Queue)) : Type 0 where
  pub saved : Saved P r

module _ {A : Type 0} {P : Queue → Type 0} where
  pub Saves-err : (e : QueueError) → Saves {A = A} P (err e)
  Saves-err e = record { saved = tt }

  pub Saves-none : (a : A) → Saves P (ok (a, none))
  Saves-none a = record { saved = tt }

  pub Saves-some : (a : A) (q : Queue) → P q → Saves P (ok (a, some q))
  Saves-some a q h = record { saved = h }

module _ {A B : Type 0} {P : Queue → Type 0} where
  pub Saves-bind :
      (m : Result B) (f : B → Result (A × Option Queue))
      → ((b : B) → m ≡ ok b → Saves P (f b))
      → Saves P (m >>= f)
  Saves-bind (ok b) f h = h b refl
  Saves-bind (err e) f h = Saves-err e

module _ {A : Type 0} {P : Queue → Type 0} where
  -- A guard: the rest may use that its test is true.
  pub Saves-guard :
      (b : Bool) (e : QueueError) (rest : Result (A × Option Queue))
      → (b ≡ true → Saves P rest)
      → Saves P (guard b e >> rest)
  Saves-guard true e rest h = h refl
  Saves-guard false e rest h = Saves-err e

  -- A method that first looks its mission up.
  pub Saves-get :
      (u : String) (q : Queue) (f : Mission → Result (A × Option Queue))
      → ((m : Mission) → find u q.missions ≡ some m → Saves P (f m))
      → Saves P (get_mission u q >>= f)
  unfolding get_mission
  Saves-get u q f h = go (find u q.missions) refl
    where
      go : (o : Option Mission) → find u q.missions ≡ o → Saves P (or_missing u o >>= f)
      go none e = Saves-err _
      go (some m) e = h m e

  -- What the check has accepted is saved.
  pub Saves-validate :
      (ms : List Mission) (a : A) (q : Queue)
      → (validate_no_cycles ms ≡ ok tt → P q)
      → Saves P (validate_no_cycles ms >> ok (a, some q))
  Saves-validate ms a q h = Saves-bind (validate_no_cycles ms) _ (λ t e. Saves-some a q (h e))

module _ {P : Queue → Type 0} where
  pub Saves-commit :
      (m : Mission) (q : Queue)
      → (validate_no_cycles (put m q.missions) ≡ ok tt
          → P (record q { missions = put m q.missions }))
      → Saves P (commit m q)
  unfolding commit
  Saves-commit m q h = Saves-validate (put m q.missions) tt _ h
