-- ===== src/Api/Controller.antt =====
-- services/api-service/src/controllers/job.controller.ts. The schema check of a request's body is
-- the `zod` library's: a handler takes its outcome. The metrics counter is left out.
use distributed_task_platfor.Prelude.{ℕ, zero, suc, String, Option, none, some, List}
use distributed_task_platfor.Jobs.{Error, JobResult}
use distributed_task_platfor.Effects.{Settled, Prog, ret, ◌>>=◌, settle, try_catch}
use distributed_task_platfor.Api.Jobs.{
  CreateJobDto, CreatedDto, JobDto, KeyedJobDto, StatusDto, RetryDto, create_job, get_job,
  get_job_by_idempotency_key, get_user_jobs, cancel_job, retry_job, get_job_result,
}

-- res.status(code).json(body), with `{ message }` for an error.
pub data Response (A : Type 0) : Type 0 where
  json : ℕ → A → Response A
  error_json : ℕ → Error → Response A

-- try { … return res.status(good).json(result) } catch { return res.status(bad).json(…) }
abbrev pub respond : {A : Type 0} → ℕ → ℕ → Prog A → Prog (Response A)
respond good bad m = try_catch (m >>= λ a. ret (json good a)) (λ e. ret (error_json bad e))

-- req.user, as the authentication middleware leaves it.
pub record User : Type 0 where
  pub user_id : ℕ
  pub role : Option String

unfoldable pub create : User → Settled CreateJobDto → Prog (Response CreatedDto)
create user body = respond 201 400 (do dto ← settle body; create_job user.user_id dto)

unfoldable pub get_by_id : User → ℕ → Prog (Response JobDto)
get_by_id user job_id = respond 200 400 (get_job job_id user.user_id user.role)

unfoldable pub get_by_idempotency_key : User → ℕ → Prog (Response KeyedJobDto)
get_by_idempotency_key user key =
    respond 200 404 (get_job_by_idempotency_key key user.user_id user.role)

-- parseInt(text) || fallback, for the number that parseInt read (none for NaN).
abbrev pub int_or : ℕ → Option ℕ → ℕ
int_or fallback none = fallback
int_or fallback (some zero) = fallback
int_or fallback (some (suc n)) = suc n

unfoldable pub get_all : User → Option ℕ → Option ℕ → Prog (Response (List JobDto))
get_all user limit offset =
    respond 200 400 (get_user_jobs user.user_id user.role (int_or 50 limit) (int_or 0 offset))

unfoldable pub cancel : User → ℕ → Prog (Response StatusDto)
cancel user job_id = respond 200 400 (cancel_job job_id user.user_id user.role)

unfoldable pub retry : User → ℕ → Prog (Response RetryDto)
retry user job_id = respond 200 400 (retry_job job_id user.user_id user.role)

unfoldable pub get_result : User → ℕ → Prog (Response JobResult)
get_result user job_id = respond 200 400 (get_job_result job_id user.user_id user.role)
