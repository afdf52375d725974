-- ===== src/Worker/Processor.antt =====
-- services/worker-service/src/processors/job.processor.ts: processJob.
pub mod Quiet
pub mod Guards
pub mod Ssrf
pub mod Progress
pub mod Reported
use distributed_task_platfor.Prelude.{
  ℕ, zero, suc, ◌+◌, ◌*◌, String, Bool, true, false, not, ◌&&◌, ◌||◌, Option, none, some, List, [],
  ◌∷◌, length, str_eq, or_default, if◌then◌else◌,
}
use Prim.Native.String.{◌++◌ as ◌+++◌, len, slice}
use package.text.Mathlib.Text.{find?, starts_with}
use distributed_task_platfor.Json.{
  Json, null, boolean, number, text, object, Fields, no_fields, field, get, or_else, or_value,
  truthy, spread, fields_of,
}
use distributed_task_platfor.Jobs.{Error, message}
use distributed_task_platfor.Effects.{
  Call, HttpRequest, HttpResponse, Mail, MailInfo, Script, dns_lookup, fetch, create_test_account,
  send_mail, run_script, sleep, Settled, resolved, rejected, Prog, ret, throw, ◌>>=◌, ◌>>◌, await,
  try_catch,
}
use distributed_task_platfor.Worker.{Output, update_progress}
use distributed_task_platfor.Worker.Payload.{Libraries, Settings, delay_of}
use distributed_task_platfor.Worker.Handlers.{
  handle_condition, handle_email, handle_http, handle_script,
}

module _ (lib : Libraries) (env : Settings) (job_id : ℕ) where
  -- The loop of the default case.
  abbrev pub mock_steps : Json → List ℕ → Prog (Unit {0})
  mock_steps delay [] = ret tt
  mock_steps delay (i ∷ is) = do
    await (sleep (lib.quarter_ms delay))
    update_progress job_id (i * 25)
    mock_steps delay is

  abbrev pub mock_handler : String → Option Json → Prog Json
  mock_handler job_type payload = do
    mock_steps (delay_of env payload) (1 ∷ 2 ∷ 3 ∷ 4 ∷ [])
    ret (
        object (
          field "message"
            (text (
              "Job "
              +++ (lib.number_text job_id +++ (" completed (handler: " +++ (job_type +++ ")")))))
            no_fields))

  -- jobType.replace(/^core\//, '').toUpperCase()
  abbrev pub normalized_type : String → String
  normalized_type job_type =
      lib.to_upper_case
        (if starts_with job_type "core/" then slice job_type 5 (len job_type) else job_type)

  -- The switch of processJob.
  abbrev pub switch : String → String → Option Json → Prog Json
  switch kind job_type payload =
      if str_eq kind "HTTP"
      then handle_http lib env job_id payload
      else if str_eq kind "CONDITION"
      then handle_condition lib env job_id payload
      else if str_eq kind "EMAIL"
      then handle_email lib env job_id payload
      else if str_eq kind "SCRIPT"
      then handle_script lib env job_id payload
      else if str_eq kind "AI"
      then ret (
          object (
            field "text" (text "[STUB] Mocked AI completion")
              (field "tokensUsed" (number "42") no_fields)))
      else mock_handler job_type payload

-- processJob. A job's payload is the text of its JSON value, and so is the result's.
unfoldable pub process_job : Libraries → Settings → ℕ → String → String → Prog Output
unfolding handle_http handle_condition handle_email handle_script
process_job lib env job_id job_type payload = do
  result ←
      switch lib env job_id (normalized_type lib env job_id job_type) job_type
        (lib.parse_json payload)
  update_progress job_id 100
  ret (record { result_type = "JSON"; payload = lib.stringify result })
