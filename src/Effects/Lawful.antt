-- ===== src/Effects/Lawful.antt =====
-- What every handler keeps to when it writes a job row, and what that gives for all interleavings.
use distributed_task_platfor.Prelude.{
  ℕ, ◌≤◌, ◌<◌, ◌≡◌, refl, ◌∙◌, ◌⊎◌, inl, inr, Bool, true, false, ◌&&◌, Option, none, some, List, [],
  ◌∷◌, ◌==◌, arith, is_some, Option-cases, Bool-cases,
}
use distributed_task_platfor.Jobs.{Job, pending, queued, running, completed}
use distributed_task_platfor.Effects.{
  Call, update_job, update_jobs, complete_job, create_job, Prog, ret, throw, call,
}
use distributed_task_platfor.Effects.Always.{Always}
use distributed_task_platfor.Effects.Interleave.{
  touch, Applied, IsNew, Store, System, advance, step, run, at_version, is_running, claims,
}

-- One write of a row. The id stays and the version never falls. A row becomes RUNNING only from
-- QUEUED, with a worker and a higher version; it becomes COMPLETED only from RUNNING, with a
-- higher version, no worker and a completion time.
pub record Lawful (j j' : Job) : Type 0 where
  pub same_id : j'.id ≡ j.id
  pub version_grows : j.version ≤ j'.version
  pub to_running :
      j'.status ≡ running
      → ((j.status ≡ running) × (j'.worker_id ≡ j.worker_id))
        ⊎ ((j.status ≡ queued) × (j.version < j'.version) × (is_some j'.worker_id ≡ true))
  pub to_completed :
      j'.status ≡ completed
      → ((j.status ≡ completed) × (j'.completed_at ≡ j.completed_at))
        ⊎ ((j.status ≡ running)
            × (j.version < j'.version)
            × (j'.worker_id ≡ none)
            × (is_some j'.completed_at ≡ true))

pub Lawful-refl : (j : Job) → Lawful j j
Lawful-refl j = ground arith

-- The writes of a call are lawful on every row that its `where` selects.
abbrev pub IsLawful : Call → Type 0
IsLawful (update_job id set) = (j : Job) → Lawful j (set j)
IsLawful (update_jobs id where_ set) = (j : Job) → where_ j ≡ true → Lawful j (set j)
IsLawful (complete_job id where_ set r) = (j : Job) → where_ j ≡ true → Lawful j (set j)
IsLawful _ = Unit

-- A row that RUNNING has a worker, and one that is COMPLETED has its time.
pub record IsValid (j : Job) : Type 0 where
  pub owned : j.status ≡ running → is_some j.worker_id ≡ true
  pub timed : j.status ≡ completed → is_some j.completed_at ≡ true

pub Lawful-IsValid : (j j' : Job) → Lawful j j' → IsValid j → IsValid j'
Lawful-IsValid j j' l v = record {
  owned = λ e. ground (arith, l.to_running e, v.owned);
  timed = λ e. ground (arith, l.to_completed e, v.timed);
}

touch-Lawful : (j j' : Job) (time : ℕ) → Lawful j j' → Lawful j (touch time j')
touch-Lawful j j' time l = record {
  same_id = l.same_id;
  version_grows = l.version_grows;
  to_running = l.to_running;
  to_completed = l.to_completed;
}

-- A lawful call leaves each row as it was or writes it lawfully.
Applied-Lawful :
    (o : Call) (k : ℕ) (j j' : Job) → IsLawful o → (j' ≡ j) ⊎ Applied o k j j' → Lawful j j'
Applied-Lawful o k j j' l (inl e) = rw e (Lawful-refl j)
Applied-Lawful (update_job id set) k j j' l (inr (_, time, e)) =
    rw e (touch-Lawful j (set j) time (l j))
Applied-Lawful (update_jobs id where_ set) k j j' l (inr (_, w, time, e)) =
    rw e (touch-Lawful j (set j) time (l j w))
Applied-Lawful (complete_job id where_ set r) k j j' l (inr (_, w, time, e)) =
    rw e (touch-Lawful j (set j) time (l j w))
Applied-Lawful _ k j j' l (inr h) = absurd h

IsNew-pending : (o : Call) (j : Job) → IsNew o j → j.status ≡ pending
IsNew-pending (create_job n) j h = h.0
IsNew-pending _ j h = absurd h

-- Every row of the table is valid.
abbrev pub RowIsValid : Option Job → Type 0
RowIsValid none = Unit
RowIsValid (some j) = IsValid j

-- What a step does to one row: it is still missing, it is new and PENDING, or it is written
-- lawfully.
abbrev pub RowStep : Option Job → Option Job → Type 0
RowStep none none = Unit
RowStep none (some j') = j'.status ≡ pending
RowStep (some j) none = ⊥
RowStep (some j) (some j') = Lawful j j'

RowStep-refl : (o : Option Job) → RowStep o o
RowStep-refl none = tt
RowStep-refl (some j) = Lawful-refl j

RowStep-IsValid : (a b : Option Job) → RowStep a b → RowIsValid a → RowIsValid b
RowStep-IsValid none none r v = tt
RowStep-IsValid none (some j) r v = record { owned = λ e. ground arith; timed = λ e. ground arith }
RowStep-IsValid (some j) none r v = absurd r
RowStep-IsValid (some j) (some j') r v = Lawful-IsValid j j' r v

module _ (store : Store) where
  open store use {World, answer, row, row_law, new_row_law}

  abbrev pub AllLawful : System store → Type 0
  AllLawful s = (n : ℕ) → Always IsLawful (s.threads n)

  answer-RowStep :
      (o : Call) (w : World) (k : ℕ) → IsLawful o → RowStep (row w k) (row (answer o w).1 k)
  answer-RowStep o w k l = elim (Option-cases (row w k)) [
    | inl e ↦ elim (new_row_law o w k e) [
      | inl e' ↦ rw (e, e') tt
      | inr (j', e', n) ↦ rw (e, e') (IsNew-pending o j' n)
    ]
    | inr (j, e) ↦ let (j', e', h) = row_law o w k j e in rw (e, e') (Applied-Lawful o k j j' l h)
  ]

  advance-RowStep :
      (p : Prog (Unit {0})) (w : World) (k : ℕ)
      → Always IsLawful p
      → RowStep (row w k) (row (advance store p w).1 k)
  unfolding advance
  advance-RowStep (ret a) w k l = RowStep-refl (row w k)
  advance-RowStep (throw e) w k l = RowStep-refl (row w k)
  advance-RowStep (call o f) w k l = answer-RowStep o w k l.0

  advance-Always :
      (p : Prog (Unit {0})) (w : World) → Always IsLawful p → Always IsLawful (advance store p w).0
  unfolding advance
  advance-Always (ret a) w l = tt
  advance-Always (throw e) w l = tt
  advance-Always (call o f) w l = l.1 (answer o w).0

  step-RowStep :
      (i : ℕ) (s : System store) (k : ℕ)
      → AllLawful s
      → RowStep (row s.world k) (row (step store i s).world k)
  unfolding step
  step-RowStep i s k l = advance-RowStep (s.threads i) s.world k (l i)

  step-AllLawful : (i : ℕ) (s : System store) → AllLawful s → AllLawful (step store i s)
  unfolding step
  step-AllLawful i s l n = elim (Bool-cases (n == i)) [
    | inl e ↦ rw e (advance-Always (s.threads i) s.world (l i))
    | inr e ↦ rw e (l n)
  ]

  -- In any interleaving of lawful programs, rows that were valid stay valid, new ones included.
  pub run-RowIsValid :
      (is : List ℕ) (s : System store) (k : ℕ)
      → AllLawful s
      → RowIsValid (row s.world k)
      → RowIsValid (row (run store is s).world k)
  unfolding run
  run-RowIsValid [] s k l v = v
  run-RowIsValid (i ∷ is) s k l v =
      run-RowIsValid is (step store i s) k (step-AllLawful i s l)
        (RowStep-IsValid _ _ (step-RowStep i s k l) v)

  RowStep-some :
      (b : Option Job) (j : Job) → RowStep (some j) b → (j' : Job) × (b ≡ some j') × Lawful j j'
  RowStep-some none j r = absurd r
  RowStep-some (some j') j r = (j', refl, r)

  -- In any interleaving of lawful programs, a row stays, keeps its id, and its version grows.
  pub run-version :
      (is : List ℕ) (s : System store) (k : ℕ)
      → AllLawful s
      → (j : Job) → row s.world k ≡ some j
      → (j' : Job) × (row (run store is s).world k ≡ some j')
        × (j'.id ≡ j.id)
        × (j.version ≤ j'.version)
  unfolding run
  run-version [] s k l j e = (j, e, refl, omega arith)
  run-version (i ∷ is) s k l j e =
      let (j1, e1, l1) = RowStep-some _ j (rw e at (step-RowStep i s k l)) in
      let (j2, e2, same, grows) = run-version is (step store i s) k (step-AllLawful i s l) j1 e1 in
      (j2, e2, same ∙ l1.same_id, omega (arith, l1.version_grows))

  -- The version of a row that is there, and a bound that every missing row meets.
  abbrev Past : ℕ → Option Job → Type 0
  Past v none = ⊥
  Past v (some j) = v < j.version

  RowStep-Past : (v : ℕ) (a b : Option Job) → RowStep a b → Past v a → Past v b
  RowStep-Past v none b r p = absurd p
  RowStep-Past v (some j) none r p = absurd r
  RowStep-Past v (some j) (some j') r p = omega (arith, r.version_grows)

  Past-unclaimed : (v : ℕ) (a b : Option Job) → Past v a → (at_version v a && is_running b) ≡ false
  Past-unclaimed v none b p = absurd p
  Past-unclaimed v (some j) b p = ground arith

  -- Past the version no claim of it is left.
  claims-Past :
      (k v : ℕ) (is : List ℕ) (s : System store)
      → AllLawful s
      → Past v (row s.world k)
      → claims store k v is s ≡ 0
  unfolding claims
  claims-Past k v [] s l p = refl
  claims-Past k v (i ∷ is) s l p =
      let rest =
        claims-Past k v is (step store i s) (step-AllLawful i s l)
          (RowStep-Past v _ _ (step-RowStep i s k l) p) in
      rw (Past-unclaimed v (row s.world k) (row (step store i s).world k) p) (omega (arith, rest))

  claim_passes :
      (v : ℕ) (a b : Option Job) → RowStep a b → (at_version v a && is_running b) ≡ true → Past v b
  claim_passes v none b r h = cc
  claim_passes v (some j) none r h = absurd r
  claim_passes v (some j) (some j') r h = ground (arith, r.to_running)

  -- In any interleaving of lawful programs, a version of a job is claimed at most once.
  pub claims_unique :
      (k v : ℕ) (is : List ℕ) (s : System store) → AllLawful s → claims store k v is s ≤ 1
  unfolding claims
  claims_unique k v [] s l = omega arith
  claims_unique k v (i ∷ is) s l = elim (Bool-cases claimed) [
    | inl e ↦
        rw e (omega (arith, claims-Past k v is next next_lawful (claim_passes v _ _ row_step e)))
    | inr e ↦ rw e (omega (arith, claims_unique k v is next next_lawful))
  ]
    where
      next : System store
      next = step store i s

      next_lawful : AllLawful next
      next_lawful = step-AllLawful i s l

      row_step : RowStep (row s.world k) (row next.world k)
      row_step = step-RowStep i s k l

      claimed : Bool
      claimed = at_version v (row s.world k) && is_running (row next.world k)
