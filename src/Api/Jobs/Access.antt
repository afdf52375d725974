-- ===== src/Api/Jobs/Access.antt =====
-- services/api-service/src/services/job.service.ts and repositories/job.repository.ts: what a user reads,
-- cancels and retries. Event ids and times, and the url and size of a result, are left out.
use distributed_task_platfor.Prelude.{
  ℕ, ◌+◌, String, Bool, true, false, ◌||◌, Option, none, some, List, map, ◌==◌, str_eq,
  if◌then◌else◌,
}
use distributed_task_platfor.Jobs.{
  Job, JobStatus, JobResult, Error, job_not_found, forbidden, result_not_found, cannot_cancel,
  cannot_retry, pending, queued, failed, retrying, cancelled, status_eq,
}
use distributed_task_platfor.Effects.{
  created_desc, NewEvent, find_job, find_by_key, find_jobs, update_job, find_result, find_events,
  Prog, ret, throw, ◌>>=◌, ◌>>◌, await,
}
use distributed_task_platfor.Api.Jobs.Creation.{status_data}

-- The data of retryJob: the version stays.
abbrev pub retry_data : Job → Job
retry_data j = record j { status = pending; retry_count = j.retry_count + 1; failure_reason = none }

-- `role === name`, where the role may be absent.
abbrev pub has_role : String → Option String → Bool
has_role name none = false
has_role name (some role) = str_eq role name

-- The rows that getJob and getJobByIdempotencyKey show.
abbrev pub may_read : ℕ → Option String → Job → Bool
may_read user_id role job =
    has_role "ADMIN" role || (has_role "DISPATCHER" role || job.user_id == user_id)

-- The rows that cancelJob, retryJob and getJobResult act on.
abbrev pub may_change : ℕ → Option String → Job → Bool
may_change user_id role job = has_role "ADMIN" role || job.user_id == user_id

abbrev pub require_job : Option Job → Prog Job
require_job none = throw job_not_found
require_job (some job) = ret job

abbrev pub require_access : Bool → Prog (Unit {0})
require_access true = ret tt
require_access false = throw forbidden

-- JobDto
pub record JobDto : Type 0 where
  pub job_id : ℕ
  pub job_type : String
  pub status : JobStatus
  pub progress : ℕ
  pub worker_id : Option ℕ
  pub retry_count : ℕ
  pub created_at : ℕ
  pub updated_at : ℕ
  pub events : Option (List NewEvent)

abbrev pub job_dto : Job → Option (List NewEvent) → JobDto
job_dto job events = record {
  job_id = job.id;
  job_type = job.job_type;
  status = job.status;
  progress = job.progress;
  worker_id = job.worker_id;
  retry_count = job.retry_count;
  created_at = job.created_at;
  updated_at = job.updated_at;
  events = events;
}

-- getJob
unfoldable pub get_job : ℕ → ℕ → Option String → Prog JobDto
get_job job_id user_id role = do
  found ← await (find_job job_id)
  job ← require_job found
  require_access (may_read user_id role job)
  events ← await (find_events job_id)
  ret (job_dto job (some events))

-- The answer of getJobByIdempotencyKey: a JobDto with the result and the error.
pub record KeyedJobDto : Type 0 where
  pub job : JobDto
  pub result : Option String
  pub error : Option Error

abbrev pub result_payload : Option JobResult → Option String
result_payload none = none
result_payload (some r) = some r.payload

-- getJobByIdempotencyKey
unfoldable pub get_job_by_idempotency_key : ℕ → ℕ → Option String → Prog KeyedJobDto
get_job_by_idempotency_key key user_id role = do
  found ← await (find_by_key key)
  job ← require_job found
  require_access (may_read user_id role job)
  events ← await (find_events job.id)
  result ← await (find_result job.id)
  ret (record {
    job = job_dto job (some events);
    result = result_payload result;
    error = job.failure_reason;
  })

-- findByUserId: dispatchers and administrators see every row.
abbrev pub visible : ℕ → Option String → Job → Bool
visible user_id role j =
    if has_role "ADMIN" role || has_role "DISPATCHER" role then true else j.user_id == user_id

-- getUserJobs
unfoldable pub get_user_jobs : ℕ → Option String → ℕ → ℕ → Prog (List JobDto)
get_user_jobs user_id role limit offset = do
  jobs ← await (
      find_jobs (record {
        filter = visible user_id role;
        order = created_desc;
        limit = some limit;
        skip = offset;
      }))
  ret (map (λ j. job_dto j none) jobs)

-- allowedStatuses.includes(job.status)
abbrev pub is_cancellable : JobStatus → Bool
is_cancellable s = status_eq s pending || (status_eq s queued || status_eq s retrying)

pub record StatusDto : Type 0 where
  pub job_id : ℕ
  pub status : JobStatus

-- The rest of cancelJob, from the row that was read.
abbrev pub cancel_found : ℕ → ℕ → Option String → Option Job → Prog StatusDto
cancel_found job_id user_id role found = do
  job ← require_job found
  require_access (may_change user_id role job)
  if is_cancellable job.status
      then (do
        updated ← await (update_job job_id (status_data cancelled))
        ret (record { job_id = updated.id; status = updated.status }))
      else throw (cannot_cancel job.status)

-- cancelJob: the check and the update are two statements.
unfoldable pub cancel_job : ℕ → ℕ → Option String → Prog StatusDto
cancel_job job_id user_id role = do
  found ← await (find_job job_id)
  cancel_found job_id user_id role found

pub record RetryDto : Type 0 where
  pub job_id : ℕ
  pub status : JobStatus
  pub retry_count : ℕ

-- The rest of retryJob, from the row that was read.
abbrev pub retry_found : ℕ → ℕ → Option String → Option Job → Prog RetryDto
retry_found job_id user_id role found = do
  job ← require_job found
  require_access (may_change user_id role job)
  if status_eq job.status failed
      then (do
        updated ← await (update_job job_id retry_data)
        ret (record {
          job_id = updated.id;
          status = updated.status;
          retry_count = updated.retry_count;
        }))
      else throw (cannot_retry job.status)

-- retryJob
unfoldable pub retry_job : ℕ → ℕ → Option String → Prog RetryDto
retry_job job_id user_id role = do
  found ← await (find_job job_id)
  retry_found job_id user_id role found

abbrev pub require_result : Option JobResult → Prog JobResult
require_result none = throw result_not_found
require_result (some r) = ret r

-- getJobResult
unfoldable pub get_job_result : ℕ → ℕ → Option String → Prog JobResult
get_job_result job_id user_id role = do
  found ← await (find_job job_id)
  job ← require_job found
  require_access (may_change user_id role job)
  result ← await (find_result job_id)
  require_result result
