-- ===== src/Safety/Workers.antt =====
-- The calls of the worker's programs, by the rules of Safety/Rules.
use distributed_task_platfor.Prelude.{
  ℕ, zero, suc, ◌+◌, ◌-◌, ◌≡◌, true, Option, none, some, List, [], ◌∷◌, String, arith,
}
use distributed_task_platfor.Jobs.{Job, Error, Queue, main_queue, processing_queue, priority_queues}
use distributed_task_platfor.Effects.{
  EventType, Details, rpoplpush, save_worker, is_shutting_down, Prog,
}
use distributed_task_platfor.Effects.Lawful.{Lawful}
use distributed_task_platfor.Worker.{
  emit, after_increment, after_decrement, increment_load, decrement_load, claim_where, claim_data,
  complete_where, complete_data, owned_where, retry_data, fail_data, progress_data, update_progress,
  schedule_retry, give_up, fail_with, on_failure, Output, return_or, poll_queues, poll_round,
  Waited, got_job, wait_or, wait_for_job, finish, commit, execute, attempt, with_job,
  process_claimed, after_wait, process_one_job,
}
use distributed_task_platfor.Safety.Rules.{
  Writes, write_rules, Writes-ret, Writes->>=, Writes->>, Writes-if, Writes-await,
}

claim-Lawful : (w v : ℕ) (j : Job) → claim_where v j ≡ true → Lawful j (claim_data w j)
claim-Lawful w v j h = ground arith

complete-Lawful : (w v t : ℕ) (j : Job) → complete_where v w j ≡ true → Lawful j (complete_data t j)
complete-Lawful w v t j h = ground arith

retry-Lawful :
    (w v t : ℕ) (e : Error) (j : Job) → owned_where v w j ≡ true → Lawful j (retry_data t e j)
retry-Lawful w v t e j h = ground arith

fail-Lawful : (w v : ℕ) (e : Error) (j : Job) → owned_where v w j ≡ true → Lawful j (fail_data e j)
fail-Lawful w v e j h = ground arith

pub progress-Lawful : (p : ℕ) (j : Job) → Lawful j (progress_data p j)
progress-Lawful p j = ground arith

emit-Writes : (id : ℕ) (t : EventType) (w : ℕ) (d : Details) → Writes (emit id t w d)
emit-Writes id t w d = search write_rules

pub update_progress-Writes : (id p : ℕ) → Writes (update_progress id p)
update_progress-Writes id p = search (write_rules, progress-Lawful)

after_increment-Writes : (w : ℕ) (d : Option (ℕ × ℕ)) → Writes (after_increment w d)
after_increment-Writes w none = search write_rules
after_increment-Writes w (some (c, l)) = Writes-await (save_worker w c (l + 1)) tt

increment_load-Writes : (w : ℕ) → Writes (increment_load w)
increment_load-Writes w = search (write_rules, after_increment-Writes)

after_decrement-Writes : (w : ℕ) (d : Option (ℕ × ℕ)) → Writes (after_decrement w d)
after_decrement-Writes w none = search write_rules
after_decrement-Writes w (some (c, l)) = Writes-await (save_worker w c (l - 1)) tt

decrement_load-Writes : (w : ℕ) → Writes (decrement_load w)
decrement_load-Writes w = search (write_rules, after_decrement-Writes)

ruleset worker_rules = (
  write_rules, emit-Writes, increment_load-Writes, decrement_load-Writes, claim-Lawful,
  complete-Lawful, retry-Lawful, fail-Lawful,
)

schedule_retry-Writes : (w : ℕ) (j : Job) (e : Error) → Writes (schedule_retry w j e)
schedule_retry-Writes w j e = search worker_rules depth 12

give_up-Writes : (w : ℕ) (j : Job) (e : Error) → Writes (give_up w j e)
give_up-Writes w j e = search worker_rules depth 12

fail_with-Writes : (w : ℕ) (e : Error) (j : Option Job) → Writes (fail_with w e j)
fail_with-Writes w e none = search worker_rules
fail_with-Writes w e (some j) = search (worker_rules, schedule_retry-Writes, give_up-Writes)

on_failure-Writes : (w id : ℕ) (e : Error) → Writes (on_failure w id e)
on_failure-Writes w id e = search (worker_rules, fail_with-Writes)

return_or-Writes : (o : Option ℕ) (m : Prog (Option ℕ)) → Writes m → Writes (return_or o m)
return_or-Writes (some id) m h = Writes-ret _
return_or-Writes none m h = h

poll_queues-Writes : (qs : List Queue) → Writes (poll_queues qs)
poll_queues-Writes [] = Writes-ret _
poll_queues-Writes (q ∷ qs) =
    Writes->>= (Writes-await _ tt) (λ got. return_or-Writes got _ (poll_queues-Writes qs))

poll_round-Writes : Writes poll_round
poll_round-Writes =
    Writes->>= (poll_queues-Writes priority_queues)
      (λ got. return_or-Writes got _ (Writes-await (rpoplpush main_queue processing_queue) tt))

wait_or-Writes : (o : Option ℕ) (m : Prog Waited) → Writes m → Writes (wait_or o m)
wait_or-Writes (some id) m h = Writes-ret _
wait_or-Writes none m h = Writes->> (Writes-await _ tt) h

wait_for_job-Writes : (rounds : ℕ) → Writes (wait_for_job rounds)
wait_for_job-Writes zero = Writes-ret _
wait_for_job-Writes (suc rounds) = Writes->>= (Writes-await is_shutting_down tt) λ stop.
    Writes-if stop _ _ (Writes-ret _)
      (Writes->>= poll_round-Writes (λ got. wait_or-Writes got _ (wait_for_job-Writes rounds)))

finish-Writes : (w id n : ℕ) → Writes (finish w id n)
finish-Writes w id n = search worker_rules depth 12

commit-Writes : (w : ℕ) (j : Job) (v : ℕ) (out : Output) → Writes (commit w j v out)
commit-Writes w j v out = search (worker_rules, finish-Writes) depth 12

-- The processor of a worker writes lawfully too.
module _ (process_job : ℕ → String → String → Prog Output)
    (processor : (id : ℕ) (t p : String) → Writes (process_job id t p)) where
  execute-Writes : (w : ℕ) (j : Job) (v : ℕ) → Writes (execute process_job w j v)
  execute-Writes w j v = search (worker_rules, processor, commit-Writes) depth 12

  attempt-Writes : (w : ℕ) (j : Job) → Writes (attempt process_job w j)
  attempt-Writes w j = search (worker_rules, execute-Writes) depth 12

  with_job-Writes : (w : ℕ) (j : Option Job) → Writes (with_job process_job w j)
  with_job-Writes w none = Writes-ret _
  with_job-Writes w (some j) = search (worker_rules, attempt-Writes, on_failure-Writes)

  pub process_claimed-Writes : (w id : ℕ) → Writes (process_claimed process_job w id)
  unfolding process_claimed
  process_claimed-Writes w id = search (worker_rules, with_job-Writes)

  after_wait-Writes : (w : ℕ) (o : Waited) → Writes (after_wait process_job w o)
  after_wait-Writes w (got_job id) = process_claimed-Writes w id
  after_wait-Writes w _ = Writes-ret _

  pub process_one_job-Writes : (rounds w : ℕ) → Writes (process_one_job process_job rounds w)
  unfolding process_one_job
  process_one_job-Writes rounds w = search (worker_rules, wait_for_job-Writes, after_wait-Writes)
