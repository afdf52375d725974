-- ===== src/Worker/Failure.antt =====
-- worker.ts, processOneJob: the row of a job whose processor throws.
use distributed_task_platfor.Prelude.{
  ℕ, ◌+◌, ◌≤◌, ◌<◌, ◌≡◌, ◌⊎◌, inl, inr, refl, sym, ap, ◌∙◌, String, Bool, true, false, is_some,
  none, some, ltb, arith, Bool-cases,
}
use distributed_task_platfor.Jobs.{
  Job, Error, queued, retrying, failed, cancelled, processing_queue,
}
use distributed_task_platfor.Effects.{
  job_retry_scheduled, job_dlq, job_failed, retry_details, retries_details, Details, Call, Settled,
  resolved, rejected, Prog, find_job, update_jobs, lrem, random, now, await,
}
use distributed_task_platfor.Effects.Interleave.{Store, touch}
use distributed_task_platfor.Effects.Single.{
  IsReliable, hits, Ends, Ends->>=, Ends-call, Ends-then, Ends-ret, Ends-mono,
}
use distributed_task_platfor.Worker.{
  Output, emit, decrement_load, commit, owned_where, retry_data, fail_data, on_failure,
  schedule_retry, give_up, fail_with, process_claimed, max_retries, get_retry_delay,
  jittered_delay_ms,
}
use distributed_task_platfor.Worker.Claim.{
  IsOwned, ProcessorEnds, reach_processor, emit-Calm, decrement_load-Calm,
}

-- The rows that the failure paths leave.
pub record IsRetrying (job : Job) (reason : Error) (j : Job) : Type 0 where
  pub is_retrying : j.status ≡ retrying
  pub not_owned : j.worker_id ≡ none
  pub one_more : j.retry_count ≡ job.retry_count + 1
  pub version_two_on : j.version ≡ job.version + 2
  pub has_reason : j.failure_reason ≡ some reason
  pub has_time : is_some j.next_retry_at ≡ true

pub record IsFailed (job : Job) (reason : Error) (j : Job) : Type 0 where
  pub is_failed : j.status ≡ failed
  pub not_owned : j.worker_id ≡ none
  pub same_retries : j.retry_count ≡ job.retry_count
  pub version_two_on : j.version ≡ job.version + 2
  pub has_reason : j.failure_reason ≡ some reason

-- The row after a failure: by the retries that are left.
abbrev pub AfterFailure : Job → Error → Job → Type 0
AfterFailure job reason j =
    ((job.retry_count < max_retries) × IsRetrying job reason j)
    ⊎ ((max_retries ≤ job.retry_count) × IsFailed job reason j)

module _ (store : Store) (reliable : IsReliable store)
    (process_job : ℕ → String → String → Prog Output) (worker_id : ℕ) (job : Job)
    (is_queued : job.status ≡ queued) where
  open store use {World, row, answer}

  schedule_retry_ends :
      (reason : Error) (w : World) (j : Job) (Q : Settled Bool → World → Type 0)
      → row w job.id ≡ some j
      → IsOwned worker_id job j
      → ((w' : World) (j' : Job)
          → row w' job.id ≡ some j'
          → IsRetrying job reason j'
          → Q (resolved false) w')
      → Ends store (schedule_retry worker_id j reason) w Q
  schedule_retry_ends reason w j Q there c go = Ends-call store random _ w Q dice.0 dice.1 (
      Ends-call store now _ w1 Q clock.0 clock.1 (
        Ends-call store release _ w2 Q 1
          ((reliable.update_law j.id (owned_where j.version worker_id) (retry_data next reason)
              w2).0
            ∙ ap resolved counted)
          (Ends-then store reliable (await (lrem processing_queue j.id)) _ w3 job.id Q (tt, λ _. tt)
            λ _ w4 same4.
              Ends-then store reliable (decrement_load worker_id) _ w4 job.id Q
                (decrement_load-Calm worker_id)
                λ _ w5 same5.
                  Ends-then store reliable
                    (emit j.id job_retry_scheduled worker_id
                      (retry_details (j.retry_count + 1) reason))
                    _ w5 job.id Q
                    (emit-Calm j.id job_retry_scheduled worker_id
                      (retry_details (j.retry_count + 1) reason))
                    λ _ w6 same6.
                      Ends-ret store false w6 Q (go w6 _ (same6 ∙ same5 ∙ same4 ∙ wrote) left))))
    where
      dice :
          (r : ℕ) × ((answer random w).0 ≡ resolved r)
          × ((k : ℕ) → row (answer random w).1 k ≡ row w k)
      dice = reliable.neutral_law random w tt

      w1 : World
      w1 = (answer random w).1

      clock :
          (t : ℕ) × ((answer now w1).0 ≡ resolved t)
          × ((k : ℕ) → row (answer now w1).1 k ≡ row w1 k)
      clock = reliable.neutral_law now w1 tt

      w2 : World
      w2 = (answer now w1).1

      next : ℕ
      next = clock.0 + jittered_delay_ms (get_retry_delay (j.retry_count + 1)) dice.0

      release : Call
      release = update_jobs j.id (owned_where j.version worker_id) (retry_data next reason)

      w3 : World
      w3 = (answer release w2).1

      there2 : row w2 j.id ≡ some j
      there2 = clock.2 j.id ∙ dice.2 j.id ∙ ap (row w) c.same_id ∙ there

      counted : hits (owned_where j.version worker_id) (row w2 j.id) ≡ 1
      counted = rw there2 (ground arith)

      wrote : row w3 job.id ≡ some (touch (reliable.time w2) (retry_data next reason j))
      wrote =
          ap (row w3) (sym c.same_id)
          ∙ (reliable.update_law j.id (owned_where j.version worker_id) (retry_data next reason)
              w2).1
          ∙ rw there2 (ground arith)

      left : IsRetrying job reason (touch (reliable.time w2) (retry_data next reason j))
      left = ground arith

  give_up_ends :
      (reason : Error) (w : World) (j : Job) (Q : Settled Bool → World → Type 0)
      → row w job.id ≡ some j
      → IsOwned worker_id job j
      → ((w' : World) (j' : Job)
          → row w' job.id ≡ some j'
          → IsFailed job reason j'
          → Q (resolved false) w')
      → Ends store (give_up worker_id j reason) w Q
  give_up_ends reason w j Q there c go =
      Ends-call store release _ w Q 1
        ((reliable.update_law j.id (owned_where j.version worker_id) (fail_data reason) w).0
          ∙ ap resolved counted)
        (Ends-then store reliable (decrement_load worker_id) _ w1 job.id Q
          (decrement_load-Calm worker_id)
          λ _ w2 same2.
            Ends-then store reliable (await (lrem processing_queue j.id)) _ w2 job.id Q
              (tt, λ _. tt)
              λ _ w3 same3.
                Ends-then store reliable (emit j.id job_dlq worker_id details) _ w3 job.id Q
                  (emit-Calm j.id job_dlq worker_id details)
                  λ _ w4 same4.
                    Ends-then store reliable (emit j.id job_failed worker_id details) _ w4 job.id Q
                      (emit-Calm j.id job_failed worker_id details)
                      λ _ w5 same5.
                        Ends-ret store false w5 Q
                          (go w5 _ (same5 ∙ same4 ∙ same3 ∙ same2 ∙ wrote) left))
    where
      details : Details
      details = retries_details j.retry_count reason

      release : Call
      release = update_jobs j.id (owned_where j.version worker_id) (fail_data reason)

      w1 : World
      w1 = (answer release w).1

      there1 : row w j.id ≡ some j
      there1 = ap (row w) c.same_id ∙ there

      counted : hits (owned_where j.version worker_id) (row w j.id) ≡ 1
      counted = rw there1 (ground arith)

      wrote : row w1 job.id ≡ some (touch (reliable.time w) (fail_data reason j))
      wrote =
          ap (row w1) (sym c.same_id)
          ∙ (reliable.update_law j.id (owned_where j.version worker_id) (fail_data reason) w).1
          ∙ rw there1 (ground arith)

      left : IsFailed job reason (touch (reliable.time w) (fail_data reason j))
      left = ground arith

  on_failure_ends :
      (reason : Error) (w : World) (j : Job) (Q : Settled Bool → World → Type 0)
      → row w job.id ≡ some j
      → IsOwned worker_id job j
      → ((w' : World) (j' : Job)
          → row w' job.id ≡ some j'
          → AfterFailure job reason j'
          → Q (resolved false) w')
      → Ends store (on_failure worker_id job.id reason) w Q
  on_failure_ends reason w j Q there c go =
      Ends-call store (find_job job.id) (fail_with worker_id reason) w Q (some j)
        (reliable.find_law job.id w ∙ ap resolved there)
        (elim (Bool-cases (ltb j.retry_count max_retries)) [
          | inl more ↦ rw more (
              schedule_retry_ends reason w1 j Q there1 c
                λ w' j' e r. go w' j' e (inl (ground arith, r)))
          | inr spent ↦
              rw spent (
                give_up_ends reason w1 j Q there1 c λ w' j' e f. go w' j' e (inr (ground arith, f)))
        ])
    where
      w1 : World
      w1 = (answer (find_job job.id) w).1

      there1 : row w1 job.id ≡ some j
      there1 = (reliable.neutral_law (find_job job.id) w tt).2 job.id ∙ there

  -- A QUEUED job whose processor throws is left RETRYING while retries are left, else FAILED.
  pub failure_retries :
      (reason : Error) (w : World)
      → row w job.id ≡ some job
      → ProcessorEnds store process_job worker_id job (λ s. s ≡ rejected reason)
      → Ends store (process_claimed process_job worker_id job.id) w (λ s w'.
        (s ≡ resolved false) × (j : Job) × (row w' job.id ≡ some j) × AfterFailure job reason j)
  failure_retries reason w there processor =
      reach_processor store reliable process_job worker_id job is_queued w _ there λ w1 j there1 c.
        Ends->>= store (process_job job.id job.job_type job.payload)
          (commit worker_id job (job.version + 1)) w1 _
          (Ends-mono store (process_job job.id job.job_type job.payload) w1 _ _
            (processor w1 j there1 c)
            λ s w2 (e, j2, there2, c2). rw e (
              on_failure_ends reason w2 j2 _ there2 c2.owned
                (λ w3 j3 there3 d. (refl, j3, there3, d))))

  -- The failure path does not look at the status: a job that was cancelled after the worker had
  -- claimed it comes back as RETRYING while retries are left, else as FAILED.
  pub cancelled_job_returns :
      (reason : Error) (w : World) (j : Job)
      → row w job.id ≡ some j
      → IsOwned worker_id job j
      → j.status ≡ cancelled
      → Ends store
          (on_failure worker_id job.id reason)
          w
          (λ s w'. (j' : Job) × (row w' job.id ≡ some j') × AfterFailure job reason j')
  cancelled_job_returns reason w j there c e =
      on_failure_ends reason w j _ there c λ w' j' there' r. (j', there', r)
