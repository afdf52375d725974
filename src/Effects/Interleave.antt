-- ===== src/Effects/Interleave.antt =====
-- Any number of handlers at work on one job table: each step lets one thread make its next call.
-- The table belongs to PostgreSQL, so what a call does to a row is stated as the laws of `Store`.
use distributed_task_platfor.Prelude.{
  ℕ, ◌+◌, ◌≡◌, ◌⊎◌, Bool, true, false, ◌&&◌, not, Option, none, some, List, [], ◌∷◌, ◌==◌,
  if◌then◌else◌,
}
use distributed_task_platfor.Jobs.{Job, pending, running, status_eq}
use distributed_task_platfor.Effects.{
  Call, update_job, update_jobs, complete_job, create_job, Reply, Settled, Prog, ret, throw, call,
}

-- `@updatedAt`: an update may stamp the row.
abbrev pub touch : ℕ → Job → Job
touch time j = record j { updated_at = time }

-- The call wrote the row `k`, which was `j` and is now `j'`.
abbrev pub Applied : Call → ℕ → Job → Job → Type 0
Applied (update_job id set) k j j' = (k ≡ id) × (time : ℕ) × (j' ≡ touch time (set j))
Applied (update_jobs id where_ set) k j j' =
    (k ≡ id) × (where_ j ≡ true) × (time : ℕ) × (j' ≡ touch time (set j))
Applied (complete_job id where_ set r) k j j' =
    (k ≡ id) × (where_ j ≡ true) × (time : ℕ) × (j' ≡ touch time (set j))
Applied _ k j j' = ⊥

-- The call made the row: the schema's defaults.
abbrev pub IsNew : Call → Job → Type 0
IsNew (create_job n) j = (j.status ≡ pending) × (j.worker_id ≡ none) × (j.version ≡ 1)
IsNew _ j = ⊥

-- The service that answers the calls, and what is relied on: each statement is atomic, an update
-- writes the rows that its `where` selects and no other, whether or not its promise settles well,
-- and no call deletes a row.
pub record Store : Type 1 where
  pub World : Type 0
  pub answer : (o : Call) → World → Settled (Reply o) × World
  pub row : World → ℕ → Option Job
  pub row_law :
      (o : Call) (w : World) (k : ℕ) (j : Job)
      → row w k ≡ some j
      → (j' : Job) × (row (answer o w).1 k ≡ some j') × ((j' ≡ j) ⊎ Applied o k j j')
  pub new_row_law :
      (o : Call) (w : World) (k : ℕ)
      → row w k ≡ none
      → (row (answer o w).1 k ≡ none) ⊎ ((j' : Job) × (row (answer o w).1 k ≡ some j') × IsNew o j')

abbrev pub at_version : ℕ → Option Job → Bool
at_version v none = false
at_version v (some j) = j.version == v && not (status_eq j.status running)

abbrev pub is_running : Option Job → Bool
is_running none = false
is_running (some j) = status_eq j.status running

module _ (store : Store) where
  open store use {World, answer, row}

  pub record System : Type 0 where
    pub threads : ℕ → Prog (Unit {0})
    pub world : World

  -- A thread's next call; one that has ended makes none.
  unfoldable pub advance : Prog (Unit {0}) → World → Prog (Unit {0}) × World
  advance (ret a) w = (ret a, w)
  advance (throw e) w = (throw e, w)
  advance (call o k) w = let (r, w') = answer o w in (k r, w')

  unfoldable pub step : ℕ → System → System
  step i s =
      let (p, w) = advance (s.threads i) s.world in
      record { threads = λ n. if n == i then p else s.threads n; world = w }

  -- The threads move in the order of the schedule.
  unfoldable pub run : List ℕ → System → System
  run [] s = s
  run (i ∷ is) s = run is (step i s)

  -- How often the row `k` goes to RUNNING from version `v`.
  unfoldable pub claims : ℕ → ℕ → List ℕ → System → ℕ
  claims k v [] s = 0
  claims k v (i ∷ is) s =
      (if at_version v (row s.world k) && is_running (row (step i s).world k) then 1 else 0)
      + claims k v is (step i s)
