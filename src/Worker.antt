-- ===== src/Worker.antt =====
-- services/worker-service/src: worker.ts (processOneJob), queue/consumer.ts, utils/retry.ts,
-- services/event.service.ts, services/worker.service.ts and services/progress.service.ts.
-- The Prometheus counters and the console are left out. `processJob` is an argument, as the
-- comment at its call says that tests mock it.
pub mod Claim
pub mod Success
pub mod Failure
pub mod Payload
pub mod Handlers
pub mod Processor
use distributed_task_platfor.Prelude.{
  ℕ, zero, suc, ◌+◌, ◌-◌, ◌*◌, ◌/◌, ◌^◌, String, Bool, true, false, ◌&&◌, Option, none, some, List,
  [], ◌∷◌, ◌==◌, ltb, opt_eq, if◌then◌else◌,
}
use distributed_task_platfor.Jobs.{
  Job, Error, Queue, queued, running, completed, failed, retrying, status_eq, main_queue,
  processing_queue, priority_queues,
}
use distributed_task_platfor.Effects.{
  EventType, job_started, job_completed, job_failed, job_retry_scheduled, job_dlq, Details,
  no_details, retry_details, retries_details, find_job, update_job, update_jobs, complete_job,
  create_event, rpoplpush, lrem, publish, load_worker, save_worker, sadd_active, now, random,
  is_shutting_down, sleep, Prog, ret, ◌>>=◌, ◌>>◌, await, try_catch, fire_and_forget,
}

-- utils/retry.ts: seconds
unfoldable pub get_retry_delay : ℕ → ℕ
get_retry_delay retry_count =
    if retry_count == 1
    then 10
    else if retry_count == 2
    then 30
    else if retry_count == 3
    then 60
    else if retry_count == 4
    then 120
    else 120

-- const MAX_RETRIES
abbrev pub max_retries : ℕ
max_retries = 4

-- baseDelaySeconds * (0.5 + Math.random() * 0.5), in whole milliseconds. The source computes
-- in doubles and keeps the whole milliseconds of the due time; `r` over 2 ^ 53 stands for what
-- Math.random() gives together with that rounding, so it may be 1: each number of whole
-- milliseconds from half the delay to all of it is the delay for some `r`.
unfoldable pub jittered_delay_ms : ℕ → ℕ → ℕ
jittered_delay_ms base r = base * 500 + base * 500 * r / 2 ^ 53

-- EventService.createEvent: the row, then a publication whose failure is only logged.
abbrev pub emit : ℕ → EventType → ℕ → Details → Prog (Unit {0})
emit job_id event_type worker_id details = do
  await (
      create_event (record {
        job_id = job_id;
        event_type = event_type;
        worker_id = some worker_id;
        details = details;
      }))
  fire_and_forget (publish event_type job_id)

-- WorkerService.registerWorker: the set, then the key with no load.
abbrev pub register_worker : ℕ → ℕ → Prog (Unit {0})
register_worker worker_id capacity = do
  await (sadd_active worker_id)
  await (save_worker worker_id capacity 0)
  await (load_worker worker_id)
  ret tt

abbrev pub after_increment : ℕ → Option (ℕ × ℕ) → Prog (Unit {0})
after_increment worker_id none = ret tt
after_increment worker_id (some (capacity, load)) =
    await (save_worker worker_id capacity (load + 1))

abbrev pub after_decrement : ℕ → Option (ℕ × ℕ) → Prog (Unit {0})
after_decrement worker_id none = ret tt
after_decrement worker_id (some (capacity, load)) =
    await (save_worker worker_id capacity (load - 1))

-- WorkerService.incrementLoad
abbrev pub increment_load : ℕ → Prog (Unit {0})
increment_load worker_id = do data_ ← await (load_worker worker_id); after_increment worker_id data_

-- WorkerService.decrementLoad: Math.max(0, load - 1) is the truncated subtraction.
abbrev pub decrement_load : ℕ → Prog (Unit {0})
decrement_load worker_id = do data_ ← await (load_worker worker_id); after_decrement worker_id data_

abbrev pub after_heartbeat : ℕ → ℕ → Option (ℕ × ℕ) → Prog (Unit {0})
after_heartbeat worker_id capacity none = register_worker worker_id capacity
after_heartbeat worker_id capacity (some (cap, load)) = await (save_worker worker_id cap load)

-- WorkerService.heartbeat: writes the key back, or registers the worker again.
abbrev pub heartbeat : ℕ → ℕ → Prog (Unit {0})
heartbeat worker_id capacity = do
  data_ ← await (load_worker worker_id)
  after_heartbeat worker_id capacity data_

-- ProgressService.updateProgress: by id alone, whoever owns the job.
abbrev pub progress_data : ℕ → Job → Job
progress_data progress j = record j { progress = progress }

abbrev pub update_progress : ℕ → ℕ → Prog (Unit {0})
update_progress job_id progress = do await (update_job job_id (progress_data progress)); ret tt

-- if (jobId) return jobId;
abbrev pub return_or : Option ℕ → Prog (Option ℕ) → Prog (Option ℕ)
return_or (some id) next = ret (some id)
return_or none next = next

-- The `for` loop of waitForJob over the queues.
abbrev pub poll_queues : List Queue → Prog (Option ℕ)
poll_queues [] = ret none
poll_queues (q ∷ qs) = do got ← await (rpoplpush q processing_queue); return_or got (poll_queues qs)

-- One round of the `while` loop: the priority queues, then the old main queue.
abbrev pub poll_round : Prog (Option ℕ)
poll_round = do
  got ← poll_queues priority_queues
  return_or got (await (rpoplpush main_queue processing_queue))

-- How polling ends. `polling` says that the rounds given have run out.
pub data Waited : Type 0 where
  got_job : ℕ → Waited
  shut_down polling : Waited

abbrev pub wait_or : Option ℕ → Prog Waited → Prog Waited
wait_or (some id) next = ret (got_job id)
wait_or none next = do await (sleep 500); next

-- waitForJob, for a number of rounds of its `while` loop.
abbrev pub wait_for_job : ℕ → Prog Waited
wait_for_job zero = ret polling
wait_for_job (suc rounds) = do
  stop ← await is_shutting_down
  if stop then ret shut_down else do got ← poll_round; wait_or got (wait_for_job rounds)

-- The claim: { id, version, status: "QUEUED" } and its data.
abbrev pub claim_where : ℕ → Job → Bool
claim_where version j = j.version == version && status_eq j.status queued

abbrev pub claim_data : ℕ → Job → Job
claim_data worker_id j = record j {
  status = running;
  worker_id = some worker_id;
  progress = 0;
  version = j.version + 1;
}

-- The completion: { id, version, workerId, status: "RUNNING" } and its data.
abbrev pub complete_where : ℕ → ℕ → Job → Bool
complete_where version worker_id j =
    j.version == version && (opt_eq j.worker_id (some worker_id) && status_eq j.status running)

abbrev pub complete_data : ℕ → Job → Job
complete_data time j = record j {
  status = completed;
  completed_at = some time;
  failure_reason = none;
  progress = 100;
  worker_id = none;
  version = j.version + 1;
}

-- The failure paths: { id, version, workerId }, with no condition on the status.
abbrev pub owned_where : ℕ → ℕ → Job → Bool
owned_where version worker_id j = j.version == version && opt_eq j.worker_id (some worker_id)

abbrev pub retry_data : ℕ → Error → Job → Job
retry_data next_retry_at reason j = record j {
  status = retrying;
  retry_count = j.retry_count + 1;
  next_retry_at = some next_retry_at;
  failure_reason = some reason;
  worker_id = none;
  version = j.version + 1;
}

abbrev pub fail_data : Error → Job → Job
fail_data reason j = record j {
  status = failed;
  failure_reason = some reason;
  worker_id = none;
  version = j.version + 1;
}

-- What processJob resolves to.
pub record Output : Type 0 where
  pub result_type : String
  pub payload : String

-- The retry branch of the `catch` block.
abbrev pub schedule_retry : ℕ → Job → Error → Prog Bool
schedule_retry worker_id fresh reason = do
  r ← await random
  time ← await now
  let next = time + jittered_delay_ms (get_retry_delay (fresh.retry_count + 1)) r
  count ←
      await (update_jobs fresh.id (owned_where fresh.version worker_id) (retry_data next reason))
  if count == 0 then decrement_load worker_id >> ret false else do
    await (lrem processing_queue fresh.id)
    decrement_load worker_id
    emit fresh.id job_retry_scheduled worker_id (retry_details (fresh.retry_count + 1) reason)
    ret false

-- The other branch: the retries are used up.
abbrev pub give_up : ℕ → Job → Error → Prog Bool
give_up worker_id fresh reason = do
  count ← await (update_jobs fresh.id (owned_where fresh.version worker_id) (fail_data reason))
  if count == 0 then decrement_load worker_id >> ret false else do
    decrement_load worker_id
    await (lrem processing_queue fresh.id)
    emit fresh.id job_dlq worker_id (retries_details fresh.retry_count reason)
    emit fresh.id job_failed worker_id (retries_details fresh.retry_count reason)
    ret false

abbrev pub fail_with : ℕ → Error → Option Job → Prog Bool
fail_with worker_id reason none = decrement_load worker_id >> ret false
fail_with worker_id reason (some fresh) =
    if ltb fresh.retry_count max_retries
    then schedule_retry worker_id fresh reason
    else give_up worker_id fresh reason

-- The `catch` block: it works on the row as it is now.
abbrev pub on_failure : ℕ → ℕ → Error → Prog Bool
on_failure worker_id job_id reason = do
  fresh ← await (find_job job_id)
  fail_with worker_id reason fresh

abbrev pub finish : ℕ → ℕ → ℕ → Prog Bool
finish worker_id job_id count = if count == 0 then (decrement_load worker_id >> ret false) else do
  await (lrem processing_queue job_id)
  decrement_load worker_id
  emit job_id job_completed worker_id no_details
  ret true

-- The completion transaction and what follows it.
abbrev pub commit : ℕ → Job → ℕ → Output → Prog Bool
commit worker_id job version out = do
  time ← await now
  count ← await (
      complete_job job.id (complete_where version worker_id) (complete_data time)
        (record { job_id = job.id; result_type = out.result_type; payload = out.payload }))
  finish worker_id job.id count

module _ (process_job : ℕ → String → String → Prog Output) where
  -- The `try` block, behind a successful claim at version `version`.
  abbrev pub execute : ℕ → Job → ℕ → Prog Bool
  execute worker_id job version = do
    increment_load worker_id
    emit job.id job_started worker_id no_details
    out ← process_job job.id job.job_type job.payload
    commit worker_id job version out

  -- The whole `try` block.
  abbrev pub attempt : ℕ → Job → Prog Bool
  attempt worker_id job = do
    count ← await (update_jobs job.id (claim_where job.version) (claim_data worker_id))
    if count == 0 then ret false else execute worker_id job (job.version + 1)

  abbrev pub with_job : ℕ → Option Job → Prog Bool
  with_job worker_id none = ret false
  with_job worker_id (some job) =
      if status_eq job.status queued
      then try_catch (attempt worker_id job) (on_failure worker_id job.id)
      else ret false

  -- processOneJob, from the job id that waitForJob returned.
  unfoldable pub process_claimed : ℕ → ℕ → Prog Bool
  process_claimed worker_id job_id = do job ← await (find_job job_id); with_job worker_id job

  abbrev pub after_wait : ℕ → Waited → Prog Bool
  after_wait worker_id (got_job id) = process_claimed worker_id id
  after_wait worker_id _ = ret false

  -- processOneJob
  unfoldable pub process_one_job : ℕ → ℕ → Prog Bool
  process_one_job rounds worker_id = do waited ← wait_for_job rounds; after_wait worker_id waited
