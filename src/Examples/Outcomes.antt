-- ===== src/Examples/Outcomes.antt =====
-- One worker and one job, with processors that return and that throw.
use distributed_task_platfor.Prelude.{ℕ, ◌≡◌, refl, String, true, false, some}
use distributed_task_platfor.Jobs.{Job, Error, message, cancelled}
use distributed_task_platfor.Effects.{Prog, ret, throw, resolved, rejected}
use distributed_task_platfor.Effects.Single.{Ends}
use distributed_task_platfor.Worker.{Output, process_claimed, on_failure}
use distributed_task_platfor.Worker.Claim.{ProcessorEnds}
use distributed_task_platfor.Worker.Success.{IsCompleted, success_completes}
use distributed_task_platfor.Worker.Failure.{AfterFailure, failure_retries, cancelled_job_returns}
use distributed_task_platfor.Examples.Memory.{memory, memory-IsReliable, lookup, waiting_job}

abbrev answer_42 : Output
answer_42 = record { result_type = "JSON"; payload = "42" }

abbrev returning : ℕ → String → String → Prog Output
returning id job_type payload = ret answer_42

abbrev boom : Error
boom = message "boom"

abbrev throwing : ℕ → String → String → Prog Output
throwing id job_type payload = throw boom

returning-ProcessorEnds :
    ProcessorEnds memory returning 10 waiting_job (λ s. (out : Output) × (s ≡ resolved out))
unfolding Ends
returning-ProcessorEnds w j there c = ((answer_42, refl), j, there, c)

throwing-ProcessorEnds : ProcessorEnds memory throwing 10 waiting_job (λ s. s ≡ rejected boom)
unfolding Ends
throwing-ProcessorEnds w j there c = (refl, j, there, c)

success_completes_example :
    Ends memory
      (process_claimed returning 10 1)
      (some waiting_job)
      (λ s w. (s ≡ resolved true) × (j : Job) × (lookup w 1 ≡ some j) × IsCompleted waiting_job j)
success_completes_example =
    success_completes memory memory-IsReliable returning 10 waiting_job refl (some waiting_job) refl
      returning-ProcessorEnds

failure_retries_example : Ends memory (process_claimed throwing 10 1) (some waiting_job) (λ s w.
    (s ≡ resolved false) × (j : Job) × (lookup w 1 ≡ some j) × AfterFailure waiting_job boom j)
failure_retries_example =
    failure_retries memory memory-IsReliable throwing 10 waiting_job refl boom (some waiting_job)
      refl throwing-ProcessorEnds

-- The job as it stands when the owner of a RUNNING job, worker 10, finds it CANCELLED.
abbrev lost_job : Job
lost_job = record waiting_job { status = cancelled; worker_id = some 10; version = 3 }

cancelled_job_returns_example :
    Ends memory
      (on_failure 10 1 boom)
      (some lost_job)
      (λ s w. (j : Job) × (lookup w 1 ≡ some j) × AfterFailure waiting_job boom j)
cancelled_job_returns_example =
    cancelled_job_returns memory memory-IsReliable returning 10 waiting_job refl boom
      (some lost_job) lost_job refl
      (record { is_owned = refl; at_version = refl; same_id = refl; same_retries = refl }) refl
