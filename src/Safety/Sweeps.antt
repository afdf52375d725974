-- ===== src/Safety/Sweeps.antt =====
-- The calls of the scheduler's sweeps, by the rules of Safety/Rules.
use distributed_task_platfor.Prelude.{
  ℕ, ◌≡◌, Bool, true, false, Option, none, some, List, [], ◌∷◌, arith,
}
use distributed_task_platfor.Jobs.{
  Job, Queue, processing_queue, get_queue_for_priority, priority_name,
}
use distributed_task_platfor.Effects.{EventType, Details, find_job, lrem, lpush, Prog}
use distributed_task_platfor.Effects.Lawful.{Lawful}
use distributed_task_platfor.Scheduler.Common.{emit, enqueue}
use distributed_task_platfor.Scheduler.Retry
use distributed_task_platfor.Scheduler.Reconcile
use distributed_task_platfor.Scheduler.Recovery
use distributed_task_platfor.Scheduler.Monitor
use distributed_task_platfor.Scheduler.Monitor.{Misses}
use distributed_task_platfor.Safety.Rules.{
  Writes, write_rules, Writes-ret, Writes->>=, Writes->>, Writes-if, Writes-await, Writes-sum,
  Writes-query,
}

emit-Writes : (id : ℕ) (t : EventType) (d : Details) → Writes (emit id t d)
emit-Writes id t d = search write_rules

enqueue-Writes : (j : Job) → Writes (enqueue j)
enqueue-Writes j = Writes-await (lpush (get_queue_for_priority (priority_name j.priority)) j.id) tt

requeue-Lawful :
    (v : ℕ) (j : Job) → Retry.requeue_where v j ≡ true → Lawful j (Retry.requeue_data j)
requeue-Lawful v j h = ground arith

rollback-Lawful :
    (v t : ℕ) (j : Job) → Retry.rollback_where v j ≡ true → Lawful j (Retry.rollback_data t j)
rollback-Lawful v t j h = ground arith

dispatch-Lawful :
    (v : ℕ) (j : Job) → Reconcile.dispatch_where v j ≡ true → Lawful j (Reconcile.dispatch_data j)
dispatch-Lawful v j h = ground arith

stale-Lawful :
    (v t : ℕ) (j : Job) → Reconcile.stale_where v j ≡ true → Lawful j (Reconcile.stale_data t j)
stale-Lawful v t j h = ground arith

recover-Lawful :
    (v w t : ℕ) (j : Job)
    → Recovery.recover_where v w j ≡ true
    → Lawful j (Recovery.recover_data t j)
recover-Lawful v w t j h = ground arith

stranded-Lawful :
    (v : ℕ) (j : Job) → Recovery.stranded_where v j ≡ true → Lawful j (Recovery.stranded_data j)
stranded-Lawful v j h = ground arith

ruleset sweep_rules = (
  write_rules, emit-Writes, enqueue-Writes, requeue-Lawful, rollback-Lawful, dispatch-Lawful,
  stale-Lawful, recover-Lawful, stranded-Lawful,
)

rollback-Writes : (j : Job) → Writes (Retry.rollback j)
rollback-Writes j = search sweep_rules depth 12

dispatch-Writes : (j : Job) → Writes (Retry.dispatch j)
dispatch-Writes j = search (sweep_rules, rollback-Writes) depth 12

requeue-Writes : (j : Job) → Writes (Retry.requeue j)
requeue-Writes j = search (sweep_rules, dispatch-Writes) depth 12

requeue_all-Writes : (js : List Job) → Writes (Retry.requeue_all js)
requeue_all-Writes [] = Writes-ret _
requeue_all-Writes (j ∷ js) = Writes-sum (requeue-Writes j) (requeue_all-Writes js)

pub process_retries-Writes : Writes Retry.process_retries
unfolding Retry.process_retries
process_retries-Writes = Writes->>= (Writes-query _) requeue_all-Writes

reconcile_pending-Writes : (j : Job) → Writes (Reconcile.reconcile_pending j)
reconcile_pending-Writes j = search sweep_rules depth 12

reconcile_pending_all-Writes : (js : List Job) → Writes (Reconcile.reconcile_pending_all js)
reconcile_pending_all-Writes [] = Writes-ret _
reconcile_pending_all-Writes (j ∷ js) =
    Writes-sum (reconcile_pending-Writes j) (reconcile_pending_all-Writes js)

pub process_pending_jobs-Writes : (grace : ℕ) → Writes (Reconcile.process_pending_jobs grace)
unfolding Reconcile.process_pending_jobs
process_pending_jobs-Writes grace = Writes->>= (Writes-query _) reconcile_pending_all-Writes

is_in_queue-Writes : (id : ℕ) (q : Queue) → Writes (Reconcile.is_in_queue id q)
is_in_queue-Writes id q = search sweep_rules depth 12

is_in_queues-Writes : (id : ℕ) (qs : List Queue) → Writes (Reconcile.is_in_queues id qs)
is_in_queues-Writes id [] = Writes-ret _
is_in_queues-Writes id (q ∷ qs) =
    Writes->>= (is_in_queue-Writes id q)
      (λ found. Writes-if found _ _ (Writes-ret true) (is_in_queues-Writes id qs))

recover_stale-Writes : (j : Job) → Writes (Reconcile.recover_stale j)
recover_stale-Writes j = search sweep_rules depth 12

is_job_in_any_queue-Writes : (id : ℕ) → Writes (Reconcile.is_job_in_any_queue id)
is_job_in_any_queue-Writes id = is_in_queues-Writes id Reconcile.all_queues

reconcile_stale-Writes : (j : Job) → Writes (Reconcile.reconcile_stale j)
reconcile_stale-Writes j =
    search (sweep_rules, is_job_in_any_queue-Writes, recover_stale-Writes) depth 12

reconcile_stale_all-Writes : (js : List Job) → Writes (Reconcile.reconcile_stale_all js)
reconcile_stale_all-Writes [] = Writes-ret _
reconcile_stale_all-Writes (j ∷ js) =
    Writes-sum (reconcile_stale-Writes j) (reconcile_stale_all-Writes js)

pub process_stale_queued_jobs-Writes : (t : ℕ) → Writes (Reconcile.process_stale_queued_jobs t)
unfolding Reconcile.process_stale_queued_jobs
process_stale_queued_jobs-Writes t = search (sweep_rules, reconcile_stale_all-Writes) depth 12

recover_job-Writes : (w : ℕ) (j : Job) → Writes (Recovery.recover_job w j)
recover_job-Writes w j = search sweep_rules depth 12

recover_jobs-Writes : (w : ℕ) (js : List Job) → Writes (Recovery.recover_jobs w js)
recover_jobs-Writes w [] = Writes-ret _
recover_jobs-Writes w (j ∷ js) = Writes-sum (recover_job-Writes w j) (recover_jobs-Writes w js)

pub recover_worker_jobs-Writes : (w : ℕ) → Writes (Recovery.recover_worker_jobs w)
unfolding Recovery.recover_worker_jobs
recover_worker_jobs-Writes w = search (sweep_rules, recover_jobs-Writes) depth 12

recover_stranded-Writes : (t : ℕ) (j : Job) → Writes (Recovery.recover_stranded t j)
recover_stranded-Writes t j = search sweep_rules depth 12

recover_entry-Writes : (t id : ℕ) (j : Option Job) → Writes (Recovery.recover_entry t id j)
recover_entry-Writes t id none =
    Writes->> (Writes-await (lrem processing_queue id) tt) (Writes-ret _)
recover_entry-Writes t id (some j) = search (sweep_rules, recover_stranded-Writes) depth 12

recover_entries-Writes : (t : ℕ) (ids : List ℕ) → Writes (Recovery.recover_entries t ids)
recover_entries-Writes t [] = Writes-ret _
recover_entries-Writes t (id ∷ ids) =
    Writes->>= (Writes-await (find_job id) tt)
      (λ job. Writes-sum (recover_entry-Writes t id job) (recover_entries-Writes t ids))

pub recover_processing_queue-Writes : (t : ℕ) → Writes (Recovery.recover_processing_queue t)
unfolding Recovery.recover_processing_queue
recover_processing_queue-Writes t = search (sweep_rules, recover_entries-Writes) depth 12

bury-Writes : (w : ℕ) → Writes (Monitor.bury w)
bury-Writes w = search (sweep_rules, recover_worker_jobs-Writes) depth 12

module _ (next : Misses → Prog Misses) (rest : (m : Misses) → Writes (next m)) where
  after_bury-Writes : (m : Misses) (o : Option ℕ) → Writes (Monitor.after_bury m next o)
  after_bury-Writes m none = Writes-ret m
  after_bury-Writes m (some n) = rest m

  after_check-Writes :
      (m : Misses) (w : ℕ) (o : Option Bool) → Writes (Monitor.after_check m w next o)
  after_check-Writes m w none = Writes-ret m
  after_check-Writes m w (some true) = rest _
  after_check-Writes m w (some false) =
      Writes-if _ _ _ (Writes->>= (bury-Writes w) (after_bury-Writes _)) (rest _)

is_worker_alive-Writes : (w : ℕ) → Writes (Monitor.catching (Monitor.is_worker_alive w))
is_worker_alive-Writes w = search sweep_rules depth 12

monitor_all-Writes : (ws : List ℕ) (m : Misses) → Writes (Monitor.monitor_all ws m)
monitor_all-Writes [] m = Writes-ret m
monitor_all-Writes (w ∷ ws) m =
    Writes->>= (is_worker_alive-Writes w)
      (after_check-Writes (Monitor.monitor_all ws) (monitor_all-Writes ws) m w)

monitor_active-Writes : (m : Misses) (o : Option (List ℕ)) → Writes (Monitor.monitor_active m o)
monitor_active-Writes m none = Writes-ret m
monitor_active-Writes m (some ws) = monitor_all-Writes ws m

pub monitor_workers-Writes : (m : Misses) → Writes (Monitor.monitor_workers m)
unfolding Monitor.monitor_workers
monitor_workers-Writes m = search (sweep_rules, monitor_active-Writes) depth 12
