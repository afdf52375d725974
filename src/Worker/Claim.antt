-- ===== src/Worker/Claim.antt =====
-- worker.ts, processOneJob: from the job id to the processor, for a worker that runs without
-- interference.
use distributed_task_platfor.Prelude.{
  ℕ, ◌+◌, ◌≡◌, refl, ap, ◌∙◌, String, Bool, Option, none, some, arith,
}
use distributed_task_platfor.Jobs.{Job, queued, running}
use distributed_task_platfor.Effects.{
  EventType, job_started, no_details, Details, Call, Settled, resolved, Prog, find_job, update_jobs,
  ◌>>=◌,
}
use distributed_task_platfor.Effects.Interleave.{Store, touch}
use distributed_task_platfor.Effects.Single.{
  IsReliable, hits, written, Calm, Ends, Ends-call, Ends-then, Ends-try_catch, Catch,
}
use distributed_task_platfor.Worker.{
  Output, emit, increment_load, decrement_load, after_increment, after_decrement, commit, attempt,
  with_job, claim_where, claim_data, on_failure, process_claimed,
}

-- The row of the job while a worker has it, seen through what the worker's steps keep of it.
pub record IsOwned (worker_id : ℕ) (job j : Job) : Type 0 where
  pub is_owned : j.worker_id ≡ some worker_id
  pub at_version : j.version ≡ job.version + 1
  pub same_id : j.id ≡ job.id
  pub same_retries : j.retry_count ≡ job.retry_count

pub record IsClaimed (worker_id : ℕ) (job j : Job) : Type 0 where
  pub is_running : j.status ≡ running
  pub owned : IsOwned worker_id job j
  pub open owned use *

-- A processor's end: its outcome, on a row that stays claimed.
abbrev pub Processed :
    (store : Store) → ℕ → Job → (Settled Output → Type 0) → Settled Output → store.World → Type 0
Processed store worker_id job Outcome s w =
    Outcome s × (j : Job) × (store.row w job.id ≡ some j) × IsClaimed worker_id job j

after_increment-Calm : (w : ℕ) (d : Option (ℕ × ℕ)) → Calm (after_increment w d)
after_increment-Calm w none = tt
after_increment-Calm w (some (c, l)) = (tt, λ _. tt)

after_decrement-Calm : (w : ℕ) (d : Option (ℕ × ℕ)) → Calm (after_decrement w d)
after_decrement-Calm w none = tt
after_decrement-Calm w (some (c, l)) = (tt, λ _. tt)

pub increment_load-Calm : (w : ℕ) → Calm (increment_load w)
increment_load-Calm w = (tt, after_increment-Calm w)

pub decrement_load-Calm : (w : ℕ) → Calm (decrement_load w)
decrement_load-Calm w = (tt, after_decrement-Calm w)

pub emit-Calm : (id : ℕ) (t : EventType) (w : ℕ) (d : Details) → Calm (emit id t w d)
emit-Calm id t w d = (tt, λ _. (tt, λ _. tt))

-- What the processor is supposed to do: end with such an outcome, on a row that stays claimed.
abbrev pub ProcessorEnds :
    Store → (ℕ → String → String → Prog Output) → ℕ → Job → (Settled Output → Type 0) → Type 0
ProcessorEnds store process_job worker_id job Outcome =
    (w : store.World) (j : Job)
    → store.row w job.id ≡ some j
    → IsClaimed worker_id job j
    → Ends store (process_job job.id job.job_type job.payload) w
        (Processed store worker_id job Outcome)

module _ (store : Store) (reliable : IsReliable store)
    (process_job : ℕ → String → String → Prog Output) (worker_id : ℕ) (job : Job)
    (is_queued : job.status ≡ queued) where
  open store use {World, row, answer}

  -- Up to the processor: the row is claimed and the load is counted.
  pub reach_processor :
      (w : World) (Q : Settled Bool → World → Type 0)
      → row w job.id ≡ some job
      → ((w' : World) (j : Job)
          → row w' job.id ≡ some j
          → IsClaimed worker_id job j
          → Ends store
              (process_job job.id job.job_type job.payload
                >>= commit worker_id job (job.version + 1))
              w'
              (Catch store (on_failure worker_id job.id) Q))
      → Ends store (process_claimed process_job worker_id job.id) w Q
  unfolding process_claimed
  reach_processor w Q there go =
      Ends-call store (find_job job.id) (with_job process_job worker_id) w Q (some job)
        (reliable.find_law job.id w ∙ ap resolved there)
        (rw is_queued (
          Ends-try_catch store (attempt process_job worker_id job) (on_failure worker_id job.id) w1
            Q
            (Ends-call store claim _ w1 _ 1
              ((reliable.update_law job.id (claim_where job.version) (claim_data worker_id) w1).0
                ∙ ap resolved counted)
              (Ends-then store reliable (increment_load worker_id) _ w2 job.id _
                (increment_load-Calm worker_id)
                λ _ w3 same3.
                  Ends-then store reliable (emit job.id job_started worker_id no_details) _ w3
                    job.id _ (emit-Calm job.id job_started worker_id no_details)
                    λ _ w4 same4.
                      go w4 _
                        (same4
                          ∙ same3
                          ∙ (reliable.update_law job.id (claim_where job.version)
                              (claim_data worker_id) w1).1
                          ∙ wrote)
                        claimed))))
    where
      w1 : World
      w1 = (answer (find_job job.id) w).1

      there1 : row w1 job.id ≡ some job
      there1 = (reliable.neutral_law (find_job job.id) w tt).2 job.id ∙ there

      claim : Call
      claim = update_jobs job.id (claim_where job.version) (claim_data worker_id)

      w2 : World
      w2 = (answer claim w1).1

      counted : hits (claim_where job.version) (row w1 job.id) ≡ 1
      counted = rw there1 (ground arith)

      wrote :
          written
            (reliable.time w1)
            (claim_where job.version)
            (claim_data worker_id)
            (row w1 job.id)
          ≡ some (touch (reliable.time w1) (claim_data worker_id job))
      wrote = rw there1 (ground arith)

      claimed : IsClaimed worker_id job (touch (reliable.time w1) (claim_data worker_id job))
      claimed = record {
        is_running = refl;
        owned = record { is_owned = refl; at_version = refl; same_id = refl; same_retries = refl };
      }
