-- ===== src/Safety.antt =====
-- All handlers of the platform at work on one job table, in any order of their calls.
pub mod Rules
pub mod Workers
pub mod Sweeps
pub mod Requests
pub mod Platform
use distributed_task_platfor.Prelude.{
  ℕ, ◌≤◌, ◌<◌, ◌≡◌, refl, Bool, true, Option, some, List, String, arith, Option-cases,
}
use distributed_task_platfor.Jobs.{Job}
use distributed_task_platfor.Effects.{Prog, ret, ◌>>◌}
use distributed_task_platfor.Effects.Always.{Always}
use distributed_task_platfor.Effects.Interleave.{Store, System, run, claims}
use distributed_task_platfor.Effects.Lawful.{
  IsLawful, RowIsValid, AllLawful, run-RowIsValid, claims_unique, run-version,
}
use distributed_task_platfor.Worker.{Output, process_one_job, update_progress}
use distributed_task_platfor.Scheduler.Retry.{process_retries}
use distributed_task_platfor.Scheduler.Reconcile.{process_pending_jobs, process_stale_queued_jobs}
use distributed_task_platfor.Scheduler.Recovery.{recover_processing_queue}
use distributed_task_platfor.Scheduler.Monitor.{Misses, monitor_workers}
use distributed_task_platfor.Api.Jobs.{CreateJobDto, create_job, cancel_job, retry_job, get_job}
use Rules.{Writes, Writes->>, Writes-ret}
use Workers.{process_one_job-Writes}
use Sweeps.{
  process_retries-Writes, process_pending_jobs-Writes, process_stale_queued_jobs-Writes,
  recover_processing_queue-Writes, monitor_workers-Writes,
}
use Requests.{create_job-Writes, cancel_job-Writes, retry_job-Writes, get_job-Writes}

-- What a thread of the platform may run, with its arguments.
pub data Handler : Type 0 where
  worker_round : (rounds worker_id : ℕ) → Handler
  retry_sweep : Handler
  pending_sweep stale_sweep processing_sweep : ℕ → Handler
  monitor_sweep : Misses → Handler
  create : ℕ → CreateJobDto → Handler
  cancel retry get : (job_id user_id : ℕ) → Option String → Handler

module _ (process_job : ℕ → String → String → Prog Output) where
  pub program : Handler → Prog (Unit {0})
  program (worker_round rounds w) = process_one_job process_job rounds w >> ret tt
  program retry_sweep = process_retries >> ret tt
  program (pending_sweep grace) = process_pending_jobs grace >> ret tt
  program (stale_sweep threshold) = process_stale_queued_jobs threshold >> ret tt
  program (processing_sweep threshold) = recover_processing_queue threshold >> ret tt
  program (monitor_sweep misses) = monitor_workers misses >> ret tt
  program (create user dto) = create_job user dto >> ret tt
  program (cancel id user role) = cancel_job id user role >> ret tt
  program (retry id user role) = retry_job id user role >> ret tt
  program (get id user role) = get_job id user role >> ret tt

  module _ (processor : (id : ℕ) (t p : String) → Writes (process_job id t p)) where
    program-Writes : (h : Handler) → Writes (program h)
    unfolding program
    program-Writes (worker_round rounds w) =
        Writes->> (process_one_job-Writes process_job processor rounds w) (Writes-ret tt)
    program-Writes retry_sweep = Writes->> process_retries-Writes (Writes-ret tt)
    program-Writes (pending_sweep grace) =
        Writes->> (process_pending_jobs-Writes grace) (Writes-ret tt)
    program-Writes (stale_sweep threshold) =
        Writes->> (process_stale_queued_jobs-Writes threshold) (Writes-ret tt)
    program-Writes (processing_sweep threshold) =
        Writes->> (recover_processing_queue-Writes threshold) (Writes-ret tt)
    program-Writes (monitor_sweep m) = Writes->> (monitor_workers-Writes m) (Writes-ret tt)
    program-Writes (create user dto) = Writes->> (create_job-Writes user dto) (Writes-ret tt)
    program-Writes (cancel id user role) =
        Writes->> (cancel_job-Writes id user role) (Writes-ret tt)
    program-Writes (retry id user role) = Writes->> (retry_job-Writes id user role) (Writes-ret tt)
    program-Writes (get id user role) = Writes->> (get_job-Writes id user role) (Writes-ret tt)

  module _ (store : Store) where
    open store use {World, row}

    -- Each thread runs one handler from its start.
    pub start : (ℕ → Handler) → World → System store
    start handlers w = record { threads = λ n. program (handlers n); world = w }

    module _ (processor : (id : ℕ) (t p : String) → Writes (process_job id t p))
        (handlers : ℕ → Handler) (schedule : List ℕ) (w : World) (k : ℕ) where
      start-AllLawful : AllLawful store (start handlers w)
      unfolding start
      start-AllLawful n = (program-Writes processor (handlers n)).lawful

      -- Whatever handlers run, in whatever order their calls are served, and whether or not calls
      -- fail: if a job's row is missing or valid at the start (RUNNING with a worker, COMPLETED
      -- with its time), it is so at the end.
      pub rows_stay_valid :
          RowIsValid (row w k) → RowIsValid (row (run store schedule (start handlers w)).world k)
      unfolding start
      rows_stay_valid v = run-RowIsValid store schedule (start handlers w) k start-AllLawful v

      -- Under the same conditions, a row at a given version goes to RUNNING at most once: two
      -- workers never both claim one version of a job.
      pub claimed_at_most_once : (v : ℕ) → claims store k v schedule (start handlers w) ≤ 1
      claimed_at_most_once v = claims_unique store k v schedule (start handlers w) start-AllLawful

      -- Under the same conditions, a job's row is never lost, keeps its id, and its version never
      -- falls.
      pub versions_grow :
          (j : Job)
          → row w k ≡ some j
          → (j' : Job) × (row (run store schedule (start handlers w)).world k ≡ some j')
            × (j'.id ≡ j.id)
            × (j.version ≤ j'.version)
      unfolding start
      versions_grow j e = run-version store schedule (start handlers w) k start-AllLawful j e
