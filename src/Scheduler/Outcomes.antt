-- ===== src/Scheduler/Outcomes.antt =====
-- The loop bodies of processRetries and processPendingJobs on one row, for a
-- scheduler that runs alone.
use distributed_task_platfor.Prelude.{
  ℕ, ◌+◌, ◌≡◌, ◌⊎◌, inl, inr, refl, sym, ap, ◌∙◌, Bool, true, false, ◌&&◌, Option, some, ◌==◌,
  ==_iff, if◌then◌else◌, Bool-cases, arith,
}
use distributed_task_platfor.Jobs.{
  Job, JobStatus, pending, queued, running, completed, failed, retrying, cancelled, status_code,
  status_eq,
}
use distributed_task_platfor.Effects.{
  EventType, Details, job_queued, job_requeued, count_details, reason_details, update_jobs, Settled,
  resolved, Prog, ret, ◌>>=◌, ◌>>◌, await, try_catch,
}
use distributed_task_platfor.Effects.Interleave.{Store, touch}
use distributed_task_platfor.Effects.Single.{
  IsReliable, Calm, Ends, Ends-ret, Ends->>=, Ends-call, Ends-then, Ends-try_catch,
}
use distributed_task_platfor.Scheduler.Common.{emit, enqueue}
use distributed_task_platfor.Scheduler.Retry.{
  requeue_where, requeue_data, rollback, dispatch, requeue,
}
use distributed_task_platfor.Scheduler.Reconcile.{dispatch_where, dispatch_data, reconcile_pending}

status_of : ℕ → JobStatus
status_of n =
    if n == 0
    then pending
    else if n == 1
    then queued
    else if n == 2
    then running
    else if n == 3
    then completed
    else if n == 4
    then failed
    else if n == 5
    then retrying
    else cancelled

status_of-status_code : (s : JobStatus) → status_of (status_code s) ≡ s
unfolding status_of
status_of-status_code pending = refl
status_of-status_code queued = refl
status_of-status_code running = refl
status_of-status_code completed = refl
status_of-status_code failed = refl
status_of-status_code retrying = refl
status_of-status_code cancelled = refl

status_eq-reflects : (s t : JobStatus) → status_eq s t ≡ true → s ≡ t
status_eq-reflects s t e =
    sym (status_of-status_code s)
    ∙ ap status_of ((==_iff (status_code s) (status_code t)).0 e)
    ∙ status_of-status_code t

-- A row with this status that is still at the version that was read.
abbrev pub StillAt : JobStatus → Job → Job → Type 0
StillAt status job j = (j.status ≡ status) × (j.version ≡ job.version)

still_at :
    (status : JobStatus) (job j : Job)
    → (((status_eq j.status status && j.version == job.version) ≡ true) → StillAt status job j)
      × (StillAt status job j → (status_eq j.status status && j.version == job.version) ≡ true)
still_at status job j = (
  (λ e. (status_eq-reflects j.status status (ground (arith, e)), ground (arith, e))),
  λ (s, v).
      ground (arith, (==_iff (status_code j.status) (status_code status)).1 (ap status_code s), v),
)

-- The row is QUEUED and one version on, with the owner, retries, progress and reason that it had.
pub record IsRequeued (j j' : Job) : Type 0 where
  pub is_queued : j'.status ≡ queued
  pub one_version_on : j'.version ≡ j.version + 1
  pub same_owner : j'.worker_id ≡ j.worker_id
  pub same_retries : j'.retry_count ≡ j.retry_count
  pub same_progress : j'.progress ≡ j.progress
  pub same_reason : j'.failure_reason ≡ j.failure_reason

emit-Calm : (id : ℕ) (t : EventType) (d : Details) → Calm (emit id t d)
emit-Calm id t d = (tt, λ _. (tt, λ _. tt))

enqueue-Calm : (job : Job) → Calm (enqueue job)
enqueue-Calm job = (tt, λ _. tt)

module _ (store : Store) (reliable : IsReliable store) where
  open store use {World, row, answer}

  -- A conditional update by id of a row that is there, and the rest of its block.
  update_ends :
      {A : Type 0} (id : ℕ) (where_ : Job → Bool) (set : Job → Job) (rest : ℕ → Prog A) (w : World)
      (j : Job) (Q : Settled A → World → Type 0)
      → row w id ≡ some j
      → (where_ j ≡ true
          → (w1 : World) (time : ℕ) → row w1 id ≡ some (touch time (set j))
          → Ends store (rest 1) w1 Q)
      → (where_ j ≡ false → (w1 : World) → row w1 id ≡ some j → Ends store (rest 0) w1 Q)
      → Ends store (await (update_jobs id where_ set) >>= rest) w Q
  update_ends id where_ set rest w j Q there hit miss = elim (Bool-cases (where_ j)) [
    | inl e ↦
        Ends-call store (update_jobs id where_ set) rest w Q 1
          ((reliable.update_law id where_ set w).0 ∙ ap resolved (rw there (rw e refl)))
          (hit e _ (reliable.time w)
            ((reliable.update_law id where_ set w).1 ∙ rw there (rw e refl)))
    | inr e ↦
        Ends-call store (update_jobs id where_ set) rest w Q 0
          ((reliable.update_law id where_ set w).0 ∙ ap resolved (rw there (rw e refl)))
          (miss e _ ((reliable.update_law id where_ set w).1 ∙ rw there (rw e refl)))
  ]

  -- How a loop body ends: it counts one row and requeues it, or it counts none and leaves it.
  abbrev pub Requeues : JobStatus → Job → Job → Settled ℕ → World → Type 0
  Requeues status job j s w' =
      (StillAt status job j
        × (s ≡ resolved 1)
        × (j' : Job) × (row w' job.id ≡ some j')
        × IsRequeued j j')
      ⊎ (¬ StillAt status job j × (s ≡ resolved 0) × (row w' job.id ≡ some j))

  dispatch_ends :
      (job : Job) (w : World) (j : Option Job) (Q : Settled ℕ → World → Type 0)
      → row w job.id ≡ j
      → ((w' : World) → row w' job.id ≡ j → Q (resolved 1) w')
      → Ends store (dispatch job) w Q
  dispatch_ends job w j Q there go =
      Ends->>= store (try_catch (enqueue job >> ret 1) (λ _. do rollback job; ret 0)) _ w Q (
        Ends-try_catch store (enqueue job >> ret 1) _ w _ (
          Ends-then store reliable (enqueue job) (λ _. ret 1) w job.id _ (enqueue-Calm job)
            λ _ w1 same1. Ends-ret store 1 w1 _ (
              Ends-then store reliable
                (try_catch (emit job.id job_requeued (count_details job.retry_count)) (λ _. ret tt))
                (λ _. ret 1) w1 job.id Q (tt, λ _. (tt, λ _. tt))
                λ _ w2 same2. Ends-ret store 1 w2 Q (go w2 (same2 ∙ same1 ∙ there)))))

  -- On a store where no call fails, the loop body of processRetries makes a row that is still
  -- RETRYING at the version that was read QUEUED and one version higher, keeping its owner,
  -- retry count, progress and failure reason, and counts it; any other row it leaves as it is,
  -- and counts nothing.
  pub requeue-Requeues :
      (job j : Job) (w : World)
      → row w job.id ≡ some j
      → Ends store (requeue job) w (Requeues retrying job j)
  requeue-Requeues job j w there =
      update_ends job.id (requeue_where job.version) requeue_data _ w j (Requeues retrying job j)
        there
        (λ e w1 time there1.
          dispatch_ends job w1 (some (touch time (requeue_data j))) (Requeues retrying job j) there1
            λ w2 there2. inl (
              (still_at retrying job j).0 e,
              refl,
              touch time (requeue_data j),
              there2,
              record {
                is_queued = refl;
                one_version_on = refl;
                same_owner = refl;
                same_retries = refl;
                same_progress = refl;
                same_reason = refl;
              },
            ))
        (λ e w1 there1.
          Ends-ret store 0 w1 (Requeues retrying job j)
            (inr ((λ at. cc (e, (still_at retrying job j).1 at)), refl, there1)))

  -- On a store where no call fails, the loop body of processPendingJobs makes a row that is
  -- still PENDING at the version that was read QUEUED and one version higher, keeping its owner,
  -- retry count, progress and failure reason, and counts it; any other row it leaves as it is,
  -- and counts nothing.
  pub reconcile_pending-Requeues :
      (job j : Job) (w : World)
      → row w job.id ≡ some j
      → Ends store (reconcile_pending job) w (Requeues pending job j)
  reconcile_pending-Requeues job j w there =
      Ends-try_catch store _ (λ _. ret 0) w (Requeues pending job j)
        (Ends-then store reliable (enqueue job) _ w job.id _ (enqueue-Calm job) λ _ w0 same0.
          update_ends job.id (dispatch_where job.version) dispatch_data _ w0 j _ (same0 ∙ there)
            (λ e w1 time there1.
              Ends-then store reliable
                (emit job.id job_queued (reason_details "RECONCILED_FROM_PENDING")) (λ _. ret 1) w1
                job.id _ (emit-Calm job.id job_queued (reason_details "RECONCILED_FROM_PENDING"))
                λ _ w2 same2. Ends-ret store 1 w2 _ (
                  inl (
                    (still_at pending job j).0 e,
                    refl,
                    touch time (dispatch_data j),
                    same2 ∙ there1,
                    record {
                      is_queued = refl;
                      one_version_on = refl;
                      same_owner = refl;
                      same_retries = refl;
                      same_progress = refl;
                      same_reason = refl;
                    },
                  )))
            (λ e w1 there1.
              Ends-ret store 0 w1 _
                (inr ((λ at. cc (e, (still_at pending job j).1 at)), refl, there1))))
