-- ===== src/Api/Refusals.antt =====
-- job.service.ts and job.controller.ts: the requests that cancelJob and retryJob refuse.
use distributed_task_platfor.Prelude.{
  ℕ, ◌≡◌, refl, ◌⊎◌, inl, inr, sym, ap, Bool, true, false, Option, none, some,
}
use distributed_task_platfor.Jobs.{
  Job, JobStatus, Error, job_not_found, forbidden, cannot_cancel, cannot_retry, failed, status_eq,
  pending, queued, running, completed, retrying, cancelled,
}
use distributed_task_platfor.Effects.{Settled, resolved, find_job, ret, ◌>>=◌}
use distributed_task_platfor.Effects.Interleave.{Store}
use distributed_task_platfor.Effects.Single.{
  IsReliable, Ends, exec, Ends-call, Ends->>=, Ends-try_catch, Then, Catch,
}
use distributed_task_platfor.Api.Jobs.{
  may_change, is_cancellable, cancel_job, retry_job, cancel_found, retry_found,
}
use distributed_task_platfor.Api.Controller.{Response, json, error_json, User, cancel, retry}

-- The requests about a row that are refused, with the error: no such job, then another user's job,
-- then a status that does not allow the change.
abbrev pub Refused : (JobStatus → Bool) → (JobStatus → Error) → User → Option Job → Error → Type 0
Refused allowed cannot user none e = e ≡ job_not_found
Refused allowed cannot user (some j) e =
    ((may_change user.user_id user.role j ≡ false) × (e ≡ forbidden))
    ⊎ ((may_change user.user_id user.role j ≡ true)
        × (allowed j.status ≡ false)
        × (e ≡ cannot j.status))

-- The statuses of a job that a user may still cancel.
abbrev pub may_still_cancel : JobStatus → Bool
may_still_cancel pending = true
may_still_cancel queued = true
may_still_cancel retrying = true
may_still_cancel _ = false

is_cancellable-may_still_cancel : (s : JobStatus) → is_cancellable s ≡ may_still_cancel s
is_cancellable-may_still_cancel pending = refl
is_cancellable-may_still_cancel queued = refl
is_cancellable-may_still_cancel running = refl
is_cancellable-may_still_cancel completed = refl
is_cancellable-may_still_cancel failed = refl
is_cancellable-may_still_cancel retrying = refl
is_cancellable-may_still_cancel cancelled = refl

abbrev pub is_failed : JobStatus → Bool
is_failed s = status_eq s failed

module _ (store : Store) (reliable : IsReliable store) (user : User) (job_id : ℕ)
    (w : store.World) where
  open store use {World, row, answer}

  w1 : World
  w1 = (answer (find_job job_id) w).1

  -- The answer of a refused request, which leaves every row as it is.
  abbrev pub Answers : {A : Type 0} → Error → Settled (Response A) → World → Type 0
  Answers e s w' = (s ≡ resolved (error_json 400 e)) × ((k : ℕ) → row w' k ≡ row w k)

  kept : (k : ℕ) → row w1 k ≡ row w k
  unfolding w1
  kept k = (reliable.neutral_law (find_job job_id) w tt).2 k

  cancel_found_refuses :
      (e : Error) (found : Option Job)
      → Refused may_still_cancel cannot_cancel user found e
      → Ends store (cancel_found job_id user.user_id user.role found) w1 (
          Then store
            (λ a. ret (json 200 a))
            (Catch store (λ e'. ret (error_json 400 e')) (Answers e)))
  unfolding Ends exec
  cancel_found_refuses e none h = (ap (λ x. resolved (error_json 400 x)) (sym h), kept)
  cancel_found_refuses e (some j) (inl (denied, is_e)) =
      rw denied (ap (λ x. resolved (error_json 400 x)) (sym is_e), kept)
  cancel_found_refuses e (some j) (inr (may, bars, is_e)) = rw may (
      rw (is_cancellable-may_still_cancel j.status, bars)
        (ap (λ x. resolved (error_json 400 x)) (sym is_e), kept))

  -- On a store where no call fails, a request to cancel a job that is missing, that another user
  -- owns (unless an administrator asks), or that is neither PENDING nor QUEUED nor RETRYING, a
  -- RUNNING one among them, is answered with 400 and that error, in this order of precedence, and
  -- no row changes.
  pub cancel_refuses :
      (e : Error)
      → Refused may_still_cancel cannot_cancel user (row w job_id) e
      → Ends store (cancel user job_id) w (Answers e)
  unfolding cancel cancel_job w1
  cancel_refuses e h =
      Ends-try_catch store (cancel_job job_id user.user_id user.role >>= λ a. ret (json 200 a))
        (λ e'. ret (error_json 400 e')) w (Answers e)
        (Ends->>= store (cancel_job job_id user.user_id user.role) (λ a. ret (json 200 a)) w _
          (Ends-call store (find_job job_id) (cancel_found job_id user.user_id user.role) w _
            (row w job_id) (reliable.find_law job_id w) (cancel_found_refuses e (row w job_id) h)))

  retry_found_refuses :
      (e : Error) (found : Option Job)
      → Refused is_failed cannot_retry user found e
      → Ends store (retry_found job_id user.user_id user.role found) w1 (
          Then store
            (λ a. ret (json 200 a))
            (Catch store (λ e'. ret (error_json 400 e')) (Answers e)))
  unfolding Ends exec
  retry_found_refuses e none h = (ap (λ x. resolved (error_json 400 x)) (sym h), kept)
  retry_found_refuses e (some j) (inl (denied, is_e)) =
      rw denied (ap (λ x. resolved (error_json 400 x)) (sym is_e), kept)
  retry_found_refuses e (some j) (inr (may, bars, is_e)) =
      rw may (rw bars (ap (λ x. resolved (error_json 400 x)) (sym is_e), kept))

  -- On a store where no call fails, a request to retry a job that is missing, that another user owns
  -- (unless an administrator asks), or that is not FAILED, is answered with 400 and that error, in
  -- this order of precedence, and no row changes.
  pub retry_refuses :
      (e : Error)
      → Refused is_failed cannot_retry user (row w job_id) e
      → Ends store (retry user job_id) w (Answers e)
  unfolding retry retry_job w1
  retry_refuses e h =
      Ends-try_catch store (retry_job job_id user.user_id user.role >>= λ a. ret (json 200 a))
        (λ e'. ret (error_json 400 e')) w (Answers e)
        (Ends->>= store (retry_job job_id user.user_id user.role) (λ a. ret (json 200 a)) w _
          (Ends-call store (find_job job_id) (retry_found job_id user.user_id user.role) w _
            (row w job_id) (reliable.find_law job_id w) (retry_found_refuses e (row w job_id) h)))
