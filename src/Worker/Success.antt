-- ===== src/Worker/Success.antt =====
-- worker.ts, processOneJob: the row of a job whose processor returns.
use distributed_task_platfor.Prelude.{
  ℕ, ◌+◌, ◌≡◌, refl, ap, ◌∙◌, String, Bool, true, is_some, none, some, arith,
}
use distributed_task_platfor.Jobs.{Job, JobResult, queued, completed, processing_queue}
use distributed_task_platfor.Effects.{
  job_completed, no_details, Call, Settled, resolved, Prog, complete_job, lrem, now, await,
}
use distributed_task_platfor.Effects.Interleave.{Store, touch}
use distributed_task_platfor.Effects.Single.{
  IsReliable, hits, written, Ends, Ends->>=, Ends-call, Ends-then, Ends-ret, Ends-mono,
}
use distributed_task_platfor.Worker.{
  Output, emit, decrement_load, commit, complete_where, complete_data, process_claimed,
}
use distributed_task_platfor.Worker.Claim.{
  IsClaimed, ProcessorEnds, reach_processor, emit-Calm, decrement_load-Calm,
}

-- The final row of a completed job.
pub record IsCompleted (job j : Job) : Type 0 where
  pub is_completed : j.status ≡ completed
  pub not_owned : j.worker_id ≡ none
  pub full_progress : j.progress ≡ 100
  pub version_two_on : j.version ≡ job.version + 2
  pub same_retries : j.retry_count ≡ job.retry_count
  pub no_reason : j.failure_reason ≡ none
  pub has_time : is_some j.completed_at ≡ true

module _ (store : Store) (reliable : IsReliable store)
    (process_job : ℕ → String → String → Prog Output) (worker_id : ℕ) (job : Job)
    (is_queued : job.status ≡ queued) where
  open store use {World, row, answer}

  commit_ends :
      (out : Output) (w : World) (j : Job) (Q : Settled Bool → World → Type 0)
      → row w job.id ≡ some j
      → IsClaimed worker_id job j
      → ((w' : World) (j' : Job)
          → row w' job.id ≡ some j'
          → IsCompleted job j'
          → Q (resolved true) w')
      → Ends store (commit worker_id job (job.version + 1) out) w Q
  commit_ends out w j Q there c go = Ends-call store now _ w Q time clock.1 (
      Ends-call store complete _ w1 Q 1
        ((reliable.complete_law job.id (complete_where (job.version + 1) worker_id)
            (complete_data time) result w1).0
          ∙ ap resolved counted)
        (Ends-then store reliable (await (lrem processing_queue job.id)) _ w2 job.id Q (tt, λ _. tt)
          λ _ w3 same3.
            Ends-then store reliable (decrement_load worker_id) _ w3 job.id Q
              (decrement_load-Calm worker_id)
              λ _ w4 same4.
                Ends-then store reliable (emit job.id job_completed worker_id no_details) _ w4
                  job.id Q (emit-Calm job.id job_completed worker_id no_details)
                  λ _ w5 same5. Ends-ret store true w5 Q (
                    go w5 _
                      (same5
                        ∙ same4
                        ∙ same3
                        ∙ (reliable.complete_law job.id (complete_where (job.version + 1) worker_id)
                            (complete_data time) result w1).1
                        ∙ wrote)
                      done)))
    where
      clock :
          (t : ℕ) × ((answer now w).0 ≡ resolved t) × ((k : ℕ) → row (answer now w).1 k ≡ row w k)
      clock = reliable.neutral_law now w tt

      time : ℕ
      time = clock.0

      w1 : World
      w1 = (answer now w).1

      there1 : row w1 job.id ≡ some j
      there1 = clock.2 job.id ∙ there

      result : JobResult
      result = record { job_id = job.id; result_type = out.result_type; payload = out.payload }

      complete : Call
      complete =
          complete_job job.id (complete_where (job.version + 1) worker_id) (complete_data time)
            result

      w2 : World
      w2 = (answer complete w1).1

      counted : hits (complete_where (job.version + 1) worker_id) (row w1 job.id) ≡ 1
      counted = rw there1 (ground arith)

      wrote :
          written
            (reliable.time w1)
            (complete_where (job.version + 1) worker_id)
            (complete_data time)
            (row w1 job.id)
          ≡ some (touch (reliable.time w1) (complete_data time j))
      wrote = rw there1 (ground arith)

      done : IsCompleted job (touch (reliable.time w1) (complete_data time j))
      done = ground arith

  -- A QUEUED job whose processor succeeds is left COMPLETED.
  pub success_completes :
      (w : World)
      → row w job.id ≡ some job
      → ProcessorEnds store process_job worker_id job (λ s. (out : Output) × (s ≡ resolved out))
      → Ends store
          (process_claimed process_job worker_id job.id)
          w
          (λ s w'. (s ≡ resolved true) × (j : Job) × (row w' job.id ≡ some j) × IsCompleted job j)
  success_completes w there processor =
      reach_processor store reliable process_job worker_id job is_queued w _ there λ w1 j there1 c.
        Ends->>= store (process_job job.id job.job_type job.payload)
          (commit worker_id job (job.version + 1)) w1 _
          (Ends-mono store (process_job job.id job.job_type job.payload) w1 _ _
            (processor w1 j there1 c)
            λ s w2 ((out, e), j2, there2, c2).
              rw e (commit_ends out w2 j2 _ there2 c2 (λ w3 j3 there3 d. (refl, j3, there3, d))))
