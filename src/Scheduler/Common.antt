-- ===== src/Scheduler/Common.antt =====
-- services/event.service.ts and services/queue.service.ts of the scheduler.
use distributed_task_platfor.Prelude.{ℕ, none}
use distributed_task_platfor.Jobs.{Job, priority_name, get_queue_for_priority}
use distributed_task_platfor.Effects.{
  EventType, Details, create_event, lpush, publish, Prog, ◌>>◌, await, fire_and_forget,
}

-- EventService.createEvent
abbrev pub emit : ℕ → EventType → Details → Prog (Unit {0})
emit job_id event_type details = do
  await (
      create_event
        (record { job_id = job_id; event_type = event_type; worker_id = none; details = details }))
  fire_and_forget (publish event_type job_id)

-- QueueService.enqueue, at the priority of the row.
abbrev pub enqueue : Job → Prog (Unit {0})
enqueue job = await (lpush (get_queue_for_priority (priority_name job.priority)) job.id)
