-- ===== src/Scheduler/Reconcile.antt =====
-- services/pending-reconciler.service.ts of the scheduler.
use distributed_task_platfor.Prelude.{
  ℕ, ◌+◌, Bool, true, false, ◌&&◌, List, [], ◌∷◌, ◌==◌, leb, if◌then◌else◌, is_none, is_some, some,
  ◌||◌,
}
use distributed_task_platfor.Jobs.{
  Job, Queue, pending, queued, status_eq, main_queue, processing_queue, queue_critical, queue_high,
  queue_medium, queue_low,
}
use distributed_task_platfor.Effects.{
  created_asc, updated_asc, job_queued, reason_details, find_jobs, update_jobs, lpos, lrange, now,
  Prog, ret, ◌>>=◌, ◌>>◌, await, try_catch,
}
use distributed_task_platfor.Scheduler.Common.{emit, enqueue}

-- const DEFAULT_PENDING_GRACE_PERIOD_MS
abbrev pub default_grace_period_ms : ℕ
default_grace_period_ms = 10000

-- getUndispatchedPendingJobs
abbrev pub get_undispatched_pending_jobs : ℕ → Prog (List Job)
get_undispatched_pending_jobs grace = do
  time ← await now
  await (
      find_jobs (record {
        filter = λ j. status_eq j.status pending && leb (j.created_at + grace) time;
        order = created_asc;
        limit = some 100;
        skip = 0;
      }))

abbrev pub dispatch_where : ℕ → Job → Bool
dispatch_where version j = status_eq j.status pending && j.version == version

abbrev pub dispatch_data : Job → Job
dispatch_data j = record j { status = queued; version = j.version + 1 }

-- The body of the loop of processPendingJobs: the list first, then the row.
abbrev pub reconcile_pending : Job → Prog ℕ
reconcile_pending job =
    try_catch
      (do
        enqueue job
        count ← await (update_jobs job.id (dispatch_where job.version) dispatch_data)
        if count == 0
            then ret 0
            else do emit job.id job_queued (reason_details "RECONCILED_FROM_PENDING"); ret 1)
      (λ _. ret 0)

abbrev pub reconcile_pending_all : List Job → Prog ℕ
reconcile_pending_all [] = ret 0
reconcile_pending_all (job ∷ jobs) = do
  n ← reconcile_pending job
  m ← reconcile_pending_all jobs
  ret (n + m)

-- processPendingJobs
unfoldable pub process_pending_jobs : ℕ → Prog ℕ
process_pending_jobs grace = do
  jobs ← get_undispatched_pending_jobs grace
  reconcile_pending_all jobs

abbrev pub all_queues : List Queue
all_queues =
    queue_critical ∷ queue_high ∷ queue_medium ∷ queue_low ∷ main_queue ∷ processing_queue ∷ []

-- items.includes(jobId)
abbrev pub includes : ℕ → List ℕ → Bool
includes id [] = false
includes id (x ∷ xs) = x == id || includes id xs

-- One queue of isJobInAnyQueue: LPOS, or a scan of the list where LPOS fails.
abbrev pub is_in_queue : ℕ → Queue → Prog Bool
is_in_queue id q =
    try_catch (do pos ← await (lpos q id); ret (is_some pos))
      (λ _. do items ← await (lrange q); ret (includes id items))

abbrev pub is_in_queues : ℕ → List Queue → Prog Bool
is_in_queues id [] = ret false
is_in_queues id (q ∷ qs) = do
  found ← is_in_queue id q
  if found then ret true else is_in_queues id qs

-- isJobInAnyQueue
abbrev pub is_job_in_any_queue : ℕ → Prog Bool
is_job_in_any_queue id = is_in_queues id all_queues

abbrev pub stale_where : ℕ → Job → Bool
stale_where version j = status_eq j.status queued && (is_none j.worker_id && j.version == version)

abbrev pub stale_data : ℕ → Job → Job
stale_data time j = record j { version = j.version + 1; updated_at = time }

-- The claim of a stale QUEUED row that no list holds, and its dispatch.
abbrev pub recover_stale : Job → Prog ℕ
recover_stale job = do
  time ← await now
  count ← await (update_jobs job.id (stale_where job.version) (stale_data time))
  if count == 0 then ret 0 else do
    enqueue job
    emit job.id job_queued (reason_details "RECONCILED_STALE_QUEUED_MISSING_FROM_REDIS")
    ret 1

-- The body of the loop of processStaleQueuedJobs.
abbrev pub reconcile_stale : Job → Prog ℕ
reconcile_stale job =
    try_catch (do found ← is_job_in_any_queue job.id; if found then ret 0 else recover_stale job)
      (λ _. ret 0)

abbrev pub reconcile_stale_all : List Job → Prog ℕ
reconcile_stale_all [] = ret 0
reconcile_stale_all (job ∷ jobs) = do
  n ← reconcile_stale job
  m ← reconcile_stale_all jobs
  ret (n + m)

-- processStaleQueuedJobs
unfoldable pub process_stale_queued_jobs : ℕ → Prog ℕ
process_stale_queued_jobs threshold = do
  time ← await now
  jobs ← await (
      find_jobs (record {
        filter = λ j.
            status_eq j.status queued
            && (is_none j.worker_id && leb (j.updated_at + threshold) time);
        order = updated_asc;
        limit = some 100;
        skip = 0;
      }))
  reconcile_stale_all jobs

-- reconcile
unfoldable pub reconcile : ℕ → Prog (ℕ × ℕ)
reconcile grace = do p ← process_pending_jobs grace; s ← process_stale_queued_jobs grace; ret (p, s)
