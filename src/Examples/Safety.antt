-- ===== src/Examples/Safety.antt =====
-- Two workers and a cancellation race for one job.
use distributed_task_platfor.Prelude.{
  ℕ, ◌≤◌, ◌≡◌, refl, none, some, List, [], ◌∷◌, String, ◌==◌, if◌then◌else◌,
}
use distributed_task_platfor.Jobs.{Job}
use distributed_task_platfor.Effects.{Prog, ret, ◌>>◌}
use distributed_task_platfor.Effects.Interleave.{run, claims}
use distributed_task_platfor.Effects.Lawful.{RowIsValid}
use distributed_task_platfor.Worker.{Output, update_progress}
use distributed_task_platfor.Safety.Rules.{Writes, Writes->>, Writes-ret}
use distributed_task_platfor.Safety.Workers.{update_progress-Writes}
use distributed_task_platfor.Safety.{
  Handler, worker_round, cancel, start, rows_stay_valid, claimed_at_most_once, versions_grow,
}
use distributed_task_platfor.Examples.Memory.{memory, lookup, waiting_job}

-- A processor that reports progress and returns.
abbrev reporting : ℕ → String → String → Prog Output
reporting id job_type payload =
    update_progress id 100 >> ret (record { result_type = "JSON"; payload = "{}" })

reporting-Writes : (id : ℕ) (t p : String) → Writes (reporting id t p)
reporting-Writes id t p = Writes->> (update_progress-Writes id 100) (Writes-ret _)

-- Thread 0 and thread 1 are workers, the others are cancellations.
abbrev pub racers : ℕ → Handler
racers n =
    if n == 0 then worker_round 1 10 else if n == 1 then worker_round 1 11 else cancel 1 7 none

abbrev pub race : List ℕ
race = 0 ∷ 1 ∷ 0 ∷ 1 ∷ 0 ∷ 1 ∷ 0 ∷ 1 ∷ 2 ∷ 0 ∷ 1 ∷ 0 ∷ 0 ∷ []

rows_stay_valid_example :
    RowIsValid (lookup (run memory race (start reporting memory racers (some waiting_job))).world 1)
rows_stay_valid_example =
    rows_stay_valid reporting memory reporting-Writes racers race (some waiting_job) 1
      (record { owned = λ e. cc; timed = λ e. cc })

claimed_at_most_once_example :
    claims memory 1 2 race (start reporting memory racers (some waiting_job)) ≤ 1
claimed_at_most_once_example =
    claimed_at_most_once reporting memory reporting-Writes racers race (some waiting_job) 1 2

versions_grow_example :
    (j' : Job) × (lookup
        (run memory race (start reporting memory racers (some waiting_job))).world
        1
      ≡ some j')
    × (j'.id ≡ 1)
    × (2 ≤ j'.version)
versions_grow_example =
    versions_grow reporting memory reporting-Writes racers race (some waiting_job) 1 waiting_job
      refl
