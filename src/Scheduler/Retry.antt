-- ===== src/Scheduler/Retry.antt =====
-- services/retry.service.ts of the scheduler.
use distributed_task_platfor.Prelude.{
  ℕ, ◌+◌, Bool, true, ◌&&◌, Option, none, some, List, [], ◌∷◌, ◌==◌, leb, if◌then◌else◌, is_none,
}
use distributed_task_platfor.Jobs.{Job, queued, retrying, status_eq}
use distributed_task_platfor.Effects.{
  updated_asc, job_requeued, count_details, find_jobs, update_jobs, now, Prog, ret, ◌>>=◌, ◌>>◌,
  await, try_catch,
}
use distributed_task_platfor.Scheduler.Common.{emit, enqueue}

-- OR: [{ nextRetryAt: { lte: new Date() } }, { nextRetryAt: null }]
abbrev pub is_due : ℕ → Option ℕ → Bool
is_due time none = true
is_due time (some at) = leb at time

-- getRetryingJobs
abbrev pub get_retrying_jobs : Prog (List Job)
get_retrying_jobs = do
  time ← await now
  await (
      find_jobs (record {
        filter = λ j. status_eq j.status retrying && is_due time j.next_retry_at;
        order = updated_asc;
        limit = some 100;
        skip = 0;
      }))

abbrev pub requeue_where : ℕ → Job → Bool
requeue_where version j = status_eq j.status retrying && j.version == version

abbrev pub requeue_data : Job → Job
requeue_data j = record j { status = queued; next_retry_at = none; version = j.version + 1 }

abbrev pub rollback_where : ℕ → Job → Bool
rollback_where version j =
    status_eq j.status queued && (is_none j.worker_id && j.version == version)

abbrev pub rollback_data : ℕ → Job → Job
rollback_data next_retry_at j = record j {
  status = retrying;
  next_retry_at = some next_retry_at;
  version = j.version + 1;
}

-- The rollback after a failed enqueue; its own failure is only logged.
abbrev pub rollback : Job → Prog (Unit {0})
rollback job =
    try_catch
      (do
        time ← await now
        await (update_jobs job.id (rollback_where (job.version + 1)) (rollback_data (time + 5000)))
        ret tt)
      (λ _. ret tt)

-- The body of the loop behind a successful transition: 1 if the job counts as requeued.
abbrev pub dispatch : Job → Prog ℕ
dispatch job = do
  sent ← try_catch (do enqueue job; ret 1) (λ _. do rollback job; ret 0)
  if sent == 0 then ret 0 else do
    try_catch (emit job.id job_requeued (count_details job.retry_count)) (λ _. ret tt)
    ret 1

abbrev pub requeue : Job → Prog ℕ
requeue job = do
  count ← await (update_jobs job.id (requeue_where job.version) requeue_data)
  if count == 0 then ret 0 else dispatch job

abbrev pub requeue_all : List Job → Prog ℕ
requeue_all [] = ret 0
requeue_all (job ∷ jobs) = do n ← requeue job; m ← requeue_all jobs; ret (n + m)

-- processRetries
unfoldable pub process_retries : Prog ℕ
process_retries = do jobs ← get_retrying_jobs; requeue_all jobs
