-- ===== src/Examples/Requests.antt =====
-- Requests of user 8 about the job of user 7, and of user 7 about a job that runs, and one retry
-- delay.
use distributed_task_platfor.Prelude.{◌*◌, ◌^◌, ◌≤◌, ◌≡◌, refl, inl, inr, some, arith}
use distributed_task_platfor.Jobs.{Job, running, forbidden, cannot_cancel}
use distributed_task_platfor.Effects.Single.{Ends}
use distributed_task_platfor.Api.Controller.{User, cancel, retry}
use distributed_task_platfor.Api.Refusals.{Answers, cancel_refuses, retry_refuses}
use distributed_task_platfor.Worker.{get_retry_delay, jittered_delay_ms}
use distributed_task_platfor.Scheduler.Backoff.{get_delay_ms, jittered_delay_bounds}
use distributed_task_platfor.Examples.Memory.{memory, memory-IsReliable, waiting_job}

abbrev owner : User
owner = record { user_id = 7; role = some "USER" }

abbrev stranger : User
stranger = record { user_id = 8; role = some "USER" }

abbrev running_job : Job
running_job = record waiting_job { status = running; worker_id = some 10; version = 3 }

cancel_refuses_example :
    Ends memory
      (cancel owner 1)
      (some running_job)
      (Answers memory memory-IsReliable owner 1 (some running_job) (cannot_cancel running))
cancel_refuses_example =
    cancel_refuses memory memory-IsReliable owner 1 (some running_job) (cannot_cancel running)
      (inr (refl, refl, refl))

retry_refuses_example :
    Ends memory
      (retry stranger 1)
      (some waiting_job)
      (Answers memory memory-IsReliable stranger 1 (some waiting_job) forbidden)
retry_refuses_example =
    retry_refuses memory memory-IsReliable stranger 1 (some waiting_job) forbidden
      (inl (refl, refl))

jittered_delay_bounds_example :
    (get_delay_ms 2 ≡ get_retry_delay 2 * 1000)
    × (get_delay_ms 2 ≤ 2 * jittered_delay_ms (get_retry_delay 2) (2 ^ 52))
    × (jittered_delay_ms (get_retry_delay 2) (2 ^ 52) ≤ get_delay_ms 2)
    × (2 * jittered_delay_ms (get_retry_delay 2) 0 ≡ get_delay_ms 2)
    × (jittered_delay_ms (get_retry_delay 2) (2 ^ 53) ≡ get_delay_ms 2)
jittered_delay_bounds_example = jittered_delay_bounds 2 (2 ^ 52) (omega arith)
