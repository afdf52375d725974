-- ===== src/Examples/Sweeps.antt =====
-- The scheduler's loop bodies on the job with id 1.
use distributed_task_platfor.Prelude.{refl, some}
use distributed_task_platfor.Jobs.{Job, pending, retrying, cancelled}
use distributed_task_platfor.Effects.Single.{Ends}
use distributed_task_platfor.Scheduler.Retry.{requeue}
use distributed_task_platfor.Scheduler.Reconcile.{reconcile_pending}
use distributed_task_platfor.Scheduler.Outcomes.{
  Requeues, requeue-Requeues, reconcile_pending-Requeues,
}
use distributed_task_platfor.Examples.Memory.{memory, memory-IsReliable, waiting_job}

abbrev failed_once : Job
failed_once = record waiting_job { status = retrying; retry_count = 1; version = 4 }

abbrev created_job : Job
created_job = record waiting_job { status = pending; version = 1 }

requeue-Requeues_example :
    Ends memory
      (requeue failed_once)
      (some failed_once)
      (Requeues memory memory-IsReliable retrying failed_once failed_once)
requeue-Requeues_example =
    requeue-Requeues memory memory-IsReliable failed_once failed_once (some failed_once) refl

-- The row was cancelled after it had been read.
reconcile_pending-Requeues_example :
    Ends memory (reconcile_pending created_job) (some (record created_job { status = cancelled })) (
      Requeues memory memory-IsReliable pending created_job
        (record created_job { status = cancelled }))
reconcile_pending-Requeues_example =
    reconcile_pending-Requeues memory memory-IsReliable created_job
      (record created_job { status = cancelled }) (some (record created_job { status = cancelled }))
      refl
