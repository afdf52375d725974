-- ===== src/Scheduler/Recovery.antt =====
-- services/recovery.service.ts of the scheduler.
use distributed_task_platfor.Prelude.{
  ℕ, ◌+◌, Bool, ◌&&◌, ◌||◌, Option, none, some, List, [], ◌∷◌, ◌==◌, leb, opt_eq, is_none,
  if◌then◌else◌,
}
use distributed_task_platfor.Jobs.{
  Job, queued, running, completed, failed, retrying, cancelled, status_eq, processing_queue,
}
use distributed_task_platfor.Effects.{
  unordered, job_recovered, worker_details, reason_details, find_job, find_jobs, update_jobs, lrem,
  lrange, now, Prog, ret, ◌>>=◌, ◌>>◌, await,
}
use distributed_task_platfor.Scheduler.Common.{emit, enqueue}

-- { id, version, workerId, status: "RUNNING" } and its data.
abbrev pub recover_where : ℕ → ℕ → Job → Bool
recover_where version worker_id j =
    j.version == version && (opt_eq j.worker_id (some worker_id) && status_eq j.status running)

abbrev pub recover_data : ℕ → Job → Job
recover_data time j = record j {
  status = retrying;
  worker_id = none;
  next_retry_at = some time;
  version = j.version + 1;
}

-- The body of the loop of recoverWorkerJobs.
abbrev pub recover_job : ℕ → Job → Prog ℕ
recover_job worker_id job = do
  time ← await now
  count ← await (update_jobs job.id (recover_where job.version worker_id) (recover_data time))
  if count == 0 then ret 0 else do
    await (lrem processing_queue job.id)
    emit job.id job_recovered (worker_details worker_id)
    ret 1

abbrev pub recover_jobs : ℕ → List Job → Prog ℕ
recover_jobs worker_id [] = ret 0
recover_jobs worker_id (job ∷ jobs) = do
  n ← recover_job worker_id job
  m ← recover_jobs worker_id jobs
  ret (n + m)

-- recoverWorkerJobs. This findMany has no `take`.
unfoldable pub recover_worker_jobs : ℕ → Prog ℕ
recover_worker_jobs worker_id = do
  jobs ← await (
      find_jobs (record {
        filter = λ j. status_eq j.status running && opt_eq j.worker_id (some worker_id);
        order = unordered;
        limit = none;
        skip = 0;
      }))
  recover_jobs worker_id jobs

abbrev pub is_finished : Job → Bool
is_finished job =
    status_eq job.status completed
    || (status_eq job.status failed || status_eq job.status cancelled)

abbrev pub stranded_where : ℕ → Job → Bool
stranded_where version j =
    status_eq j.status queued && (is_none j.worker_id && j.version == version)

abbrev pub stranded_data : Job → Job
stranded_data j = record j { version = j.version + 1 }

-- Case 4: QUEUED with no worker, and old enough.
abbrev pub recover_stranded : ℕ → Job → Prog ℕ
recover_stranded threshold job = do
  time ← await now
  if leb (job.updated_at + threshold) time
      then (do
        count ← await (update_jobs job.id (stranded_where job.version) stranded_data)
        if count == 0 then ret 0 else do
          enqueue job
          await (lrem processing_queue job.id)
          emit job.id job_recovered (reason_details "STRANDED_IN_PROCESSING_QUEUE")
          ret 1)
      else ret 0

-- The four cases of the loop body of recoverProcessingQueue.
abbrev pub recover_entry : ℕ → ℕ → Option Job → Prog ℕ
recover_entry threshold id none = await (lrem processing_queue id) >> ret 1
recover_entry threshold id (some job) =
    if is_finished job
    then await (lrem processing_queue id) >> ret 1
    else if status_eq job.status retrying
    then await (lrem processing_queue id) >> ret 1
    else if status_eq job.status queued && is_none job.worker_id
    then recover_stranded threshold job
    else ret 0

abbrev pub recover_entries : ℕ → List ℕ → Prog ℕ
recover_entries threshold [] = ret 0
recover_entries threshold (id ∷ ids) = do
  job ← await (find_job id)
  n ← recover_entry threshold id job
  m ← recover_entries threshold ids
  ret (n + m)

-- recoverProcessingQueue; the scheduler calls it with its default of 30000 ms.
unfoldable pub recover_processing_queue : ℕ → Prog ℕ
recover_processing_queue threshold = do
  ids ← await (lrange processing_queue)
  recover_entries threshold ids
