-- ===== src/Worker/Processor/Ssrf.antt =====
-- job.processor.ts: which requests a whole job can send.
use distributed_task_platfor.Prelude.{ℕ, String, none, Option, str_eq}
use distributed_task_platfor.Json.{Json}
use distributed_task_platfor.Worker.{update_progress}
use distributed_task_platfor.Worker.Payload.{Libraries, Settings}
use distributed_task_platfor.Worker.Processor.{switch, normalized_type, process_job}
use distributed_task_platfor.Worker.Processor.Quiet.{
  Quiet-ret, Quiet-bind, Quiet-report, handle_email-Quiet, handle_condition-Quiet,
  handle_script-Quiet, mock_handler-Quiet,
}
use distributed_task_platfor.Worker.Processor.Guards.{
  Guarded, IsGuarded, silent, branching, Guarded->>=-Quiet, handle_http-Guarded,
}

module _ (lib : Libraries) (env : Settings) (id : ℕ) where
  switch-Guarded :
      (kind t : String) (p : Option Json) → IsGuarded lib env p none (switch lib env id kind t p)
  switch-Guarded kind t p =
      branching lib env p none (str_eq kind "HTTP") _ _ (λ _. handle_http-Guarded lib env p id)
        (λ _.
          branching lib env p none (str_eq kind "CONDITION") _ _
            (λ _. silent lib env p none _ (handle_condition-Quiet lib env id p))
            (λ _.
              branching lib env p none (str_eq kind "EMAIL") _ _
                (λ _. silent lib env p none _ (handle_email-Quiet lib env id p))
                (λ _.
                  branching lib env p none (str_eq kind "SCRIPT") _ _
                    (λ _. silent lib env p none _ (handle_script-Quiet lib env id p))
                    (λ _.
                      branching lib env p none (str_eq kind "AI") _ _
                        (λ _. silent lib env p none _ (Quiet-ret _))
                        (λ _. silent lib env p none _ (mock_handler-Quiet lib env id t p))))))

  -- Whatever a job's type and payload are, and whatever the libraries answer: a request that the
  -- processor sends goes to the url of the job's payload, by HTTP or HTTPS, and to a host that the
  -- settings list or that the lookup just before gave an address that is none of 127.0.0.1, ::1 and
  -- 0.0.0.0 and starts with none of 10., 192.168., 169.254. and 172.16. to 172.31. (Other spellings
  -- of local addresses, such as 127.0.0.2, are not excluded.)
  pub process_job-Guarded :
      (job_type payload : String)
      → Guarded lib env (lib.parse_json payload) none (process_job lib env id job_type payload)
  unfolding process_job
  process_job-Guarded t payload =
      let p = lib.parse_json payload in
      Guarded->>=-Quiet lib env p none (switch lib env id (normalized_type lib env id t) t p) _
        (switch-Guarded (normalized_type lib env id t) t p).guarded
        (λ result. Quiet-bind (update_progress id 100) _ (Quiet-report id 100) (λ _. Quiet-ret _))
