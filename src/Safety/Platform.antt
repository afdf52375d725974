-- ===== src/Safety/Platform.antt =====
-- All handlers at work on one job table, with the repository's own job processor.
use distributed_task_platfor.Prelude.{ℕ, ◌≤◌, ◌≡◌, sym, subst, String, some, List}
use distributed_task_platfor.Jobs.{Job}
use distributed_task_platfor.Effects.{
  Call, update_job, update_jobs, complete_job, Prog, ret, throw, call,
}
use distributed_task_platfor.Effects.Always.{Always}
use distributed_task_platfor.Effects.Interleave.{Store, run, claims}
use distributed_task_platfor.Effects.Single.{IsNeutral}
use distributed_task_platfor.Effects.Lawful.{Lawful, IsLawful, RowIsValid}
use distributed_task_platfor.Worker.Payload.{Libraries, Settings}
use distributed_task_platfor.Worker.Processor.{process_job}
use distributed_task_platfor.Worker.Processor.Progress.{Reports}
use distributed_task_platfor.Worker.Processor.Reported.{process_job-Reports}
use distributed_task_platfor.Safety.Rules.{Writes}
use distributed_task_platfor.Safety.Workers.{progress-Lawful}
use distributed_task_platfor.Safety.{
  Handler, start, rows_stay_valid, claimed_at_most_once, versions_grow,
}

neutral-IsLawful : (o : Call) → IsNeutral o → IsLawful o
neutral-IsLawful (update_job id set) h = absurd h
neutral-IsLawful (update_jobs id where_ set) h = absurd h
neutral-IsLawful (complete_job id where_ set r) h = absurd h
neutral-IsLawful o h = tt

Reports-IsLawful :
    {A : Type 0} (id : ℕ) (Q : ℕ → Type 0) (from : ℕ) (m : Prog A)
    → Reports id Q from m
    → Always IsLawful m
Reports-IsLawful id Q from (ret a) h = tt
Reports-IsLawful id Q from (throw e) h = tt
Reports-IsLawful id Q from (call (update_job i set) k) (r, h) = (
  λ j. subst (λ f. Lawful j (f j)) (sym r.only_progress) (progress-Lawful r.progress j),
  λ s. Reports-IsLawful id Q r.progress (k s) (h s),
)
Reports-IsLawful id Q from (call o k) (neutral, h) =
    (neutral-IsLawful o neutral, λ s. Reports-IsLawful id Q from (k s) (h s))

pub process_job-Writes :
    (lib : Libraries) (env : Settings) (id : ℕ) (t p : String) → Writes (process_job lib env id t p)
process_job-Writes lib env id t p = record {
  lawful =
      Reports-IsLawful id (λ n. n ≡ 100) 0 (process_job lib env id t p)
        (process_job-Reports id lib env t p);
}

-- With the repository's own job processor, and with nothing supposed of the libraries that it
-- calls: however worker rounds, sweeps and requests interleave, and whichever calls fail, a row at
-- a given version goes to RUNNING at most once; a row that is missing or valid stays so; and a
-- row is never lost, keeps its id, and its version never falls.
pub platform_keeps_jobs :
    (lib : Libraries) (env : Settings) (store : Store) (handlers : ℕ → Handler) (schedule : List ℕ)
    (w : store.World) (k : ℕ)
    → let end = run store schedule (start (process_job lib env) store handlers w) in
      ((v : ℕ) → claims store k v schedule (start (process_job lib env) store handlers w) ≤ 1)
      × (RowIsValid (store.row w k) → RowIsValid (store.row end.world k))
      × ((j : Job)
          → store.row w k ≡ some j
          → (j' : Job) × (store.row end.world k ≡ some j')
            × (j'.id ≡ j.id)
            × (j.version ≤ j'.version))
platform_keeps_jobs lib env store handlers schedule w k =
    let processor = process_job-Writes lib env in
    (
      claimed_at_most_once (process_job lib env) store processor handlers schedule w k,
      rows_stay_valid (process_job lib env) store processor handlers schedule w k,
      versions_grow (process_job lib env) store processor handlers schedule w k,
    )
