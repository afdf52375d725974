-- ===== src/Api/Jobs/Creation.antt =====
-- services/api-service/src/services/job.service.ts and repositories/job.repository.ts: createJob, with
-- the api's services/event.service.ts and redis/queues.ts. Event ids and times are left out.
use distributed_task_platfor.Prelude.{
  ℕ, ◌+◌, String, Bool, ◌&&◌, Option, none, some, ltb, if◌then◌else◌, is_none,
}
use distributed_task_platfor.Jobs.{
  Job, JobStatus, JobPriority, Error, unique_violation, pending, queued, status_eq, priority_name,
  get_queue_for_priority,
}
use distributed_task_platfor.Effects.{
  EventType, job_created, job_queued, no_details, NewJob, find_job, find_by_key,
  create_job as insert_job, update_job, update_jobs, create_event, lpush, publish, Prog, ret, throw,
  ◌>>=◌, ◌>>◌, await, try_catch, fire_and_forget,
}

-- EventService.createEvent, with no worker and no details.
abbrev pub emit : ℕ → EventType → Prog (Unit {0})
emit job_id event_type = do
  await (
      create_event (record {
        job_id = job_id;
        event_type = event_type;
        worker_id = none;
        details = no_details;
      }))
  fire_and_forget (publish event_type job_id)

-- enqueueJob
abbrev pub enqueue_job : ℕ → String → Prog (Unit {0})
enqueue_job job_id priority = await (lpush (get_queue_for_priority priority) job_id)

-- CreateJobDto: `priority` has the schema's default, so it is never absent.
pub record CreateJobDto : Type 0 where
  pub idempotency_key : Option ℕ
  pub job_type : String
  pub payload : String
  pub callback : Option String
  pub priority : JobPriority

pub record CreatedDto : Type 0 where
  pub job_id : ℕ
  pub status : JobStatus
  pub priority : JobPriority

abbrev pub created_dto : Job → CreatedDto
created_dto job = record { job_id = job.id; status = job.status; priority = job.priority }

-- updateStatus: by id alone, and the version stays.
abbrev pub status_data : JobStatus → Job → Job
status_data status j = record j { status = status }

-- rollbackStatusIfQueued(jobId, "QUEUED", "PENDING")
abbrev pub rollback_where : Job → Bool
rollback_where j = status_eq j.status queued && is_none j.worker_id

abbrev pub rollback_data : Job → Job
rollback_data j = record j { status = pending; version = j.version + 1 }

abbrev pub find_existing : Option ℕ → Prog (Option Job)
find_existing none = ret none
find_existing (some key) = await (find_by_key key)

abbrev pub new_job : ℕ → CreateJobDto → NewJob
new_job user_id dto = record {
  user_id = user_id;
  job_type = dto.job_type;
  payload = dto.payload;
  priority = dto.priority;
  idempotency_key = dto.idempotency_key;
  callback = dto.callback;
}

-- latestJob?.status || (rollback.count > 0 ? "PENDING" : "QUEUED")
abbrev pub latest_status : ℕ → Option Job → JobStatus
latest_status count none = if ltb 0 count then pending else queued
latest_status count (some latest) = latest.status

-- The inner `catch`: the row stays for the reconciler.
abbrev pub leave_pending : Job → Prog CreatedDto
leave_pending job = do
  count ← await (update_jobs job.id rollback_where rollback_data)
  latest ← await (find_job job.id)
  ret (record { job_id = job.id; status = latest_status count latest; priority = job.priority })

-- The inner `try`: the row first, then the list.
abbrev pub queue_new : CreateJobDto → Job → Prog CreatedDto
queue_new dto job = do
  await (update_job job.id (status_data queued))
  enqueue_job job.id (priority_name dto.priority)
  emit job.id job_queued
  ret (record { job_id = job.id; status = queued; priority = job.priority })

-- createJob from the new row on.
abbrev pub dispatch_new : CreateJobDto → Job → Prog CreatedDto
dispatch_new dto job = do
  emit job.id job_created
  try_catch (queue_new dto job) (λ _. leave_pending job)

-- A new row, or the row that won the race for the idempotency key.
pub data Inserted : Type 0 where
  inserted existing : Job → Inserted

abbrev pub won_race : Option Job → Prog Inserted
won_race none = throw unique_violation
won_race (some job) = ret (existing job)

abbrev pub on_insert_error : CreateJobDto → Error → Prog Inserted
on_insert_error dto unique_violation = find_existing dto.idempotency_key >>= won_race
on_insert_error dto e = throw e

abbrev pub insert : ℕ → CreateJobDto → Prog Inserted
insert user_id dto =
    try_catch (do job ← await (insert_job (new_job user_id dto)); ret (inserted job))
      (on_insert_error dto)

abbrev pub after_insert : CreateJobDto → Inserted → Prog CreatedDto
after_insert dto (existing job) = ret (created_dto job)
after_insert dto (inserted job) = dispatch_new dto job

abbrev pub create_unless : ℕ → CreateJobDto → Option Job → Prog CreatedDto
create_unless user_id dto (some job) = ret (created_dto job)
create_unless user_id dto none = do result ← insert user_id dto; after_insert dto result

-- createJob
unfoldable pub create_job : ℕ → CreateJobDto → Prog CreatedDto
create_job user_id dto = do
  found ← find_existing dto.idempotency_key
  create_unless user_id dto found
