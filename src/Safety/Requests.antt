-- ===== src/Safety/Requests.antt =====
-- The calls of the api's handlers, by the rules of Safety/Rules.
use distributed_task_platfor.Prelude.{ℕ, ◌≡◌, true, Bool, false, Option, none, some, String, arith}
use distributed_task_platfor.Jobs.{
  Job, queued, cancelled, Error, job_not_found, forbidden, unique_violation, get_queue_for_priority,
}
use distributed_task_platfor.Effects.{EventType, find_by_key, lpush}
use distributed_task_platfor.Effects.Lawful.{Lawful}
use distributed_task_platfor.Api.Jobs
use distributed_task_platfor.Api.Jobs.{CreateJobDto, Inserted, inserted, existing}
use distributed_task_platfor.Safety.Rules.{
  Writes, write_rules, Writes-ret, Writes-throw, Writes->>=, Writes-await,
}

queued-Lawful : (j : Job) → Lawful j (Jobs.status_data queued j)
queued-Lawful j = ground arith

cancelled-Lawful : (j : Job) → Lawful j (Jobs.status_data cancelled j)
cancelled-Lawful j = ground arith

rollback-Lawful : (j : Job) → Jobs.rollback_where j ≡ true → Lawful j (Jobs.rollback_data j)
rollback-Lawful j h = ground arith

retry-Lawful : (j : Job) → Lawful j (Jobs.retry_data j)
retry-Lawful j = ground arith

emit-Writes : (id : ℕ) (t : EventType) → Writes (Jobs.emit id t)
emit-Writes id t = search write_rules

require_job-Writes : (o : Option Job) → Writes (Jobs.require_job o)
require_job-Writes none = Writes-throw job_not_found
require_job-Writes (some j) = Writes-ret j

require_access-Writes : (b : Bool) → Writes (Jobs.require_access b)
require_access-Writes true = Writes-ret tt
require_access-Writes false = Writes-throw forbidden

ruleset request_rules = (
  write_rules, queued-Lawful, cancelled-Lawful, rollback-Lawful, retry-Lawful, emit-Writes,
  require_job-Writes, require_access-Writes,
)

find_existing-Writes : (key : Option ℕ) → Writes (Jobs.find_existing key)
find_existing-Writes none = Writes-ret _
find_existing-Writes (some key) = Writes-await (find_by_key key) tt

won_race-Writes : (o : Option Job) → Writes (Jobs.won_race o)
won_race-Writes none = Writes-throw unique_violation
won_race-Writes (some j) = Writes-ret _

on_insert_error-Writes : (dto : CreateJobDto) (e : Error) → Writes (Jobs.on_insert_error dto e)
on_insert_error-Writes dto unique_violation =
    Writes->>= (find_existing-Writes dto.idempotency_key) won_race-Writes
on_insert_error-Writes dto e = Writes-throw e

insert-Writes : (user : ℕ) (dto : CreateJobDto) → Writes (Jobs.insert user dto)
insert-Writes user dto = search (request_rules, on_insert_error-Writes) depth 12

leave_pending-Writes : (j : Job) → Writes (Jobs.leave_pending j)
leave_pending-Writes j = search request_rules depth 12

enqueue_job-Writes : (id : ℕ) (priority : String) → Writes (Jobs.enqueue_job id priority)
enqueue_job-Writes id priority = Writes-await (lpush (get_queue_for_priority priority) id) tt

queue_new-Writes : (dto : CreateJobDto) (j : Job) → Writes (Jobs.queue_new dto j)
queue_new-Writes dto j = search (request_rules, enqueue_job-Writes) depth 12

dispatch_new-Writes : (dto : CreateJobDto) (j : Job) → Writes (Jobs.dispatch_new dto j)
dispatch_new-Writes dto j = search (request_rules, queue_new-Writes, leave_pending-Writes) depth 12

after_insert-Writes : (dto : CreateJobDto) (o : Inserted) → Writes (Jobs.after_insert dto o)
after_insert-Writes dto (existing j) = Writes-ret _
after_insert-Writes dto (inserted j) = dispatch_new-Writes dto j

create_unless-Writes :
    (user : ℕ) (dto : CreateJobDto) (o : Option Job) → Writes (Jobs.create_unless user dto o)
create_unless-Writes user dto (some j) = Writes-ret _
create_unless-Writes user dto none = search (request_rules, insert-Writes, after_insert-Writes)

pub create_job-Writes : (user : ℕ) (dto : CreateJobDto) → Writes (Jobs.create_job user dto)
unfolding Jobs.create_job
create_job-Writes user dto = search (request_rules, find_existing-Writes, create_unless-Writes)

pub cancel_job-Writes : (id user : ℕ) (role : Option String) → Writes (Jobs.cancel_job id user role)
unfolding Jobs.cancel_job
cancel_job-Writes id user role = search request_rules depth 12

pub retry_job-Writes : (id user : ℕ) (role : Option String) → Writes (Jobs.retry_job id user role)
unfolding Jobs.retry_job
retry_job-Writes id user role = search request_rules depth 12

pub get_job-Writes : (id user : ℕ) (role : Option String) → Writes (Jobs.get_job id user role)
unfolding Jobs.get_job
get_job-Writes id user role = search request_rules depth 12
