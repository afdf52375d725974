-- ===== src/Jobs.antt =====
-- The job row and its neighbours: services/*/prisma/schema.prisma and shared/constants/redis.ts.
-- Identifiers (uuids) are compared only for equality and are numbers here; JSON values that the
-- code only passes on are their text.
use distributed_task_platfor.Prelude.{
  ℕ, String, Bool, Option, List, [], ◌∷◌, ◌==◌, str_eq, if◌then◌else◌,
}

-- enum JobStatus
pub data JobStatus : Type 0 where
  pending queued running completed failed retrying cancelled : JobStatus

-- enum JobPriority
pub data JobPriority : Type 0 where
  low medium high critical : JobPriority

-- What the code throws, or receives as a thrown error.
pub data Error : Type 0 where
  job_not_found forbidden result_not_found : Error
  cannot_cancel cannot_retry : JobStatus → Error
  unique_violation : Error
  message : String → Error

-- model Job
pub record Job : Type 0 where
  pub id : ℕ
  pub user_id : ℕ
  pub job_type : String
  pub status : JobStatus
  pub priority : JobPriority
  pub payload : String
  pub idempotency_key : Option ℕ
  pub callback : Option String
  pub progress : ℕ
  pub retry_count : ℕ
  pub next_retry_at : Option ℕ
  pub worker_id : Option ℕ
  pub version : ℕ
  pub failure_reason : Option Error
  pub created_at : ℕ
  pub updated_at : ℕ
  pub completed_at : Option ℕ

-- model Result
pub record JobResult : Type 0 where
  pub job_id : ℕ
  pub result_type : String
  pub payload : String

abbrev pub status_code : JobStatus → ℕ
status_code pending = 0
status_code queued = 1
status_code running = 2
status_code completed = 3
status_code failed = 4
status_code retrying = 5
status_code cancelled = 6

-- `a === b` on statuses.
abbrev pub status_eq : JobStatus → JobStatus → Bool
status_eq s t = status_code s == status_code t

-- The Redis lists of REDIS_KEYS.
pub data Queue : Type 0 where
  main_queue processing_queue queue_critical queue_high queue_medium queue_low : Queue

abbrev pub queue_code : Queue → ℕ
queue_code main_queue = 0
queue_code processing_queue = 1
queue_code queue_critical = 2
queue_code queue_high = 3
queue_code queue_medium = 4
queue_code queue_low = 5

abbrev pub queue_eq : Queue → Queue → Bool
queue_eq p q = queue_code p == queue_code q

-- The names of the enum's values, as Prisma returns them.
abbrev pub priority_name : JobPriority → String
priority_name low = "LOW"
priority_name medium = "MEDIUM"
priority_name high = "HIGH"
priority_name critical = "CRITICAL"

-- PRIORITY_QUEUES
abbrev pub priority_queues : List Queue
priority_queues = queue_critical ∷ queue_high ∷ queue_medium ∷ queue_low ∷ []

-- getQueueForPriority
unfoldable pub get_queue_for_priority : String → Queue
get_queue_for_priority p =
    if str_eq p "CRITICAL"
    then queue_critical
    else if str_eq p "HIGH"
    then queue_high
    else if str_eq p "LOW"
    then queue_low
    else queue_medium
