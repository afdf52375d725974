-- ===== src/Effects.antt =====
-- Programs over the external services. PostgreSQL (through Prisma), Redis and the clock are not
-- part of the repository: a handler is a tree of awaited calls whose answers come from outside.
pub mod Always
pub mod Interleave
pub mod Lawful
pub mod Single
use distributed_task_platfor.Prelude.{ℕ, String, Bool, Option, List}
use distributed_task_platfor.Json.{Json, Fields}
use distributed_task_platfor.Jobs.{Job, JobResult, JobPriority, Error, Queue}

-- Event names of JOB_EVENTS and of the services.
pub data EventType : Type 0 where
  job_created job_queued job_started job_completed job_failed : EventType
  job_retry_scheduled job_requeued job_dlq job_recovered : EventType

-- The `details` object of an event.
pub data Details : Type 0 where
  no_details : Details
  retry_details : (retry_count : ℕ) (reason : Error) → Details
  retries_details : (retries : ℕ) (reason : Error) → Details
  count_details : (retry_count : ℕ) → Details
  worker_details : (worker_id : ℕ) → Details
  reason_details : String → Details

pub record NewEvent : Type 0 where
  pub job_id : ℕ
  pub event_type : EventType
  pub worker_id : Option ℕ
  pub details : Details

pub record NewJob : Type 0 where
  pub user_id : ℕ
  pub job_type : String
  pub payload : String
  pub priority : JobPriority
  pub idempotency_key : Option ℕ
  pub callback : Option String

-- The `orderBy` of a findMany.
pub data Order : Type 0 where
  unordered created_asc created_desc updated_asc : Order

-- A findMany: the filter, the order, and the bounds of the page.
pub record Query : Type 0 where
  pub filter : Job → Bool
  pub order : Order
  pub limit : Option ℕ
  pub skip : ℕ

-- fetch(url, { method, headers, body }), its response with the text that it has read, a mail and
-- what the transporter answers, and a script with the values that it can see.
pub record HttpRequest : Type 0 where
  pub url : String
  pub method : Json
  pub headers : Json
  pub body : Option String

pub record HttpResponse : Type 0 where
  pub status : ℕ
  pub headers : Fields
  pub text : String

pub record Mail : Type 0 where
  pub from : Json
  pub to : Json
  pub subject : Json
  pub text : Json
  pub html : String

pub record MailInfo : Type 0 where
  pub message_id : Json
  pub accepted : Json

pub record Script : Type 0 where
  pub code : String
  pub globals : Fields

-- The external calls, with the arguments that the source passes.
pub data Call : Type 0 where
  -- prisma.job.findUnique, by id and by idempotency key
  find_job : ℕ → Call
  find_by_key : ℕ → Call
  -- prisma.job.findMany
  find_jobs : Query → Call
  -- prisma.job.create
  create_job : NewJob → Call
  -- prisma.job.update({ where: { id }, data })
  update_job : ℕ → (Job → Job) → Call
  -- prisma.job.updateMany({ where: { id, … }, data }): the number of rows changed
  update_jobs : ℕ → (Job → Bool) → (Job → Job) → Call
  -- prisma.$transaction: the updateMany above and, if it changed a row, result.create
  complete_job : ℕ → (Job → Bool) → (Job → Job) → JobResult → Call
  find_result : ℕ → Call
  create_event : NewEvent → Call
  find_events : ℕ → Call
  -- redis
  lpush : Queue → ℕ → Call
  rpoplpush : Queue → Queue → Call
  lrem : Queue → ℕ → Call
  lrange : Queue → Call
  lpos : Queue → ℕ → Call
  publish : EventType → ℕ → Call
  -- the worker's key in Redis, and the set workers:active
  load_worker : ℕ → Call
  save_worker : (worker_id capacity current_load : ℕ) → Call
  sadd_active : ℕ → Call
  srem_active : ℕ → Call
  smembers_active : Call
  -- Date.now(), Math.random() over 2 ^ 53, the worker's shutdown flag, setTimeout
  now : Call
  random : Call
  is_shutting_down : Call
  sleep : ℕ → Call
  -- the job processor's libraries: dns.lookup, fetch, nodemailer and isolated-vm
  dns_lookup : String → Call
  fetch : HttpRequest → Call
  create_test_account : Call
  send_mail : Mail → Call
  run_script : Script → Call

-- The value that a call resolves to.
abbrev pub Reply : Call → Type 0
Reply (find_job id) = Option Job
Reply (find_by_key key) = Option Job
Reply (find_jobs q) = List Job
Reply (create_job n) = Job
Reply (update_job id set) = Job
Reply (update_jobs id where_ set) = ℕ
Reply (complete_job id where_ set r) = ℕ
Reply (find_result id) = Option JobResult
Reply (find_events id) = List NewEvent
Reply (rpoplpush from to) = Option ℕ
Reply (lrange q) = List ℕ
Reply (lpos q id) = Option ℕ
Reply (load_worker w) = Option (ℕ × ℕ)
Reply smembers_active = List ℕ
Reply now = ℕ
Reply random = ℕ
Reply is_shutting_down = Bool
Reply (dns_lookup host) = String
Reply (fetch r) = HttpResponse
Reply (send_mail m) = MailInfo
Reply (run_script s) = Option Json × List String
Reply _ = Unit {0}

-- How an awaited promise settles.
pub data Settled (A : Type 0) : Type 0 where
  resolved : A → Settled A
  rejected : Error → Settled A

pub data Prog (A : Type 0) : Type 0 where
  ret : A → Prog A
  throw : Error → Prog A
  call : (o : Call) → (Settled (Reply o) → Prog A) → Prog A

infixl 5 ◌>>=◌ ◌>>◌
abbrev pub ◌>>=◌ : {A B : Type 0} → Prog A → (A → Prog B) → Prog B
ret a >>= f = f a
throw e >>= f = throw e
call o k >>= f = call o (λ r. k r >>= f)

abbrev pub ◌>>◌ : {A B : Type 0} → Prog A → Prog B → Prog B
m >> n = m >>= λ _. n

abbrev pub settle : {A : Type 0} → Settled A → Prog A
settle (resolved a) = ret a
settle (rejected e) = throw e

abbrev pub await : (o : Call) → Prog (Reply o)
await o = call o settle

-- try { m } catch (e) { h(e) }
abbrev pub try_catch : {A : Type 0} → Prog A → (Error → Prog A) → Prog A
try_catch (ret a) h = ret a
try_catch (throw e) h = h e
try_catch (call o k) h = call o (λ r. try_catch (k r) h)

-- promise.catch(err => log): the answer is dropped.
abbrev pub fire_and_forget : Call → Prog (Unit {0})
fire_and_forget o = call o (λ _. ret tt)
