-- ===== src/Worker/Handlers.antt =====
-- services/worker-service/src/processors/job.processor.ts: the handlers of HTTP, CONDITION, EMAIL
-- and SCRIPT jobs. The libraries that they call are calls of Effects.
use distributed_task_platfor.Prelude.{
  ℕ, String, Bool, false, not, ◌||◌, Option, none, some, List, length, str_eq, or_default,
  if◌then◌else◌,
}
use Prim.Native.String.{◌++◌ as ◌+++◌}
use distributed_task_platfor.Json.{
  Json, null, boolean, number, text, object, no_fields, field, or_value, truthy,
}
use distributed_task_platfor.Jobs.{message}
use distributed_task_platfor.Effects.{
  HttpRequest, HttpResponse, Mail, MailInfo, Script, dns_lookup, fetch, create_test_account,
  send_mail, run_script, Settled, resolved, rejected, Prog, ret, throw, ◌>>=◌, ◌>>◌, await,
  try_catch,
}
use distributed_task_platfor.Worker.{update_progress}
use distributed_task_platfor.Worker.Payload.{
  Libraries, Settings, Url, allowed_hosts, condition_sandbox, globals_of, includes,
  is_private_address, join_lines, local_names, nonempty_text, obj, setting,
}

module _ (lib : Libraries) (env : Settings) (job_id : ℕ) where
  -- The body that is sent, from `bodyData`.
  abbrev pub body_text : Option Json → Option String
  body_text none = none
  body_text (some (text s)) = if str_eq s "" then none else some s
  body_text (some v) = if truthy v then some (lib.stringify v) else none

  -- JSON.parse, or the text itself.
  abbrev pub response_json : String → Json
  response_json t = or_default (lib.parse_json t) (text t)

  abbrev pub http_result : HttpResponse → Json
  http_result r = object (
      field "statusCode" (number (lib.number_text r.status))
        (field "headers" (object r.headers) (field "body" (response_json r.text) no_fields)))

  abbrev pub request_of : String → Option Json → HttpRequest
  request_of target payload = record {
    url = target;
    method = or_value (setting "method" payload) (text "GET");
    headers = or_value (setting "headers" payload) obj;
    body = body_text (setting "body" payload);
  }

  -- handleHTTP behind its guards.
  abbrev pub send_request : String → Option Json → Prog Json
  send_request target payload = do
    update_progress job_id 20
    update_progress job_id 40
    response ← await (fetch (request_of target payload))
    update_progress job_id 80
    ret (http_result response)

  -- The address that lookup gave.
  abbrev pub check_address : String → Option Json → String → Prog Json
  check_address target payload address =
      if is_private_address address
      then throw (message "SSRF Protection: Private/local IPs are not allowed")
      else send_request target payload

  abbrev pub check_host : String → Option Json → String → Prog Json
  check_host target payload hostname =
      if includes hostname (allowed_hosts env.ssrf_allowed_hosts)
      then send_request target payload
      else if includes hostname local_names
      then throw (message "SSRF Protection: Localhost is not allowed")
      else await (dns_lookup hostname) >>= check_address target payload

  abbrev pub check_url : String → Option Json → Option Url → Prog Json
  check_url target payload none = throw (message "Invalid URL")
  check_url target payload (some url) =
      if str_eq url.protocol "http:" || str_eq url.protocol "https:"
      then check_host target payload url.hostname
      else throw (message "SSRF Protection: Only HTTP/HTTPS protocols are allowed")

  abbrev pub http_to : Option Json → Option String → Prog Json
  http_to payload none = throw (message "HTTP job requires a valid URL in payload")
  http_to payload (some target) = check_url target payload (lib.parse_url target)

  -- handleHTTP
  unfoldable pub handle_http : Option Json → Prog Json
  unfolding is_private_address
  handle_http payload = http_to payload (nonempty_text (setting "url" payload))

  abbrev pub condition_result : String → Bool → Json
  condition_result expression result = object (
      field "expression" (text expression) (
        field "result" (boolean result)
          (field "branch" (text (if result then "true" else "false")) no_fields)))

  abbrev pub evaluated : String → Settled Json → Prog Json
  evaluated expression (resolved v) = ret (condition_result expression (truthy v))
  evaluated expression (rejected e) = throw (
      message (
        "CONDITION expression evaluation failed: "
        +++ (lib.error_text e +++ (". Expression: \"" +++ (expression +++ "\"")))))

  abbrev pub condition_on : Option Json → Option String → Prog Json
  condition_on payload none =
      throw (message "CONDITION handler requires an \"expression\" string in config")
  condition_on payload (some expression) = do
    update_progress job_id 30
    update_progress job_id 60
    evaluated expression (lib.evaluate expression (condition_sandbox payload))

  -- handleCondition
  unfoldable pub handle_condition : Option Json → Prog Json
  handle_condition payload = condition_on payload (nonempty_text (setting "expression" payload))

  -- getEmailTransporter
  abbrev pub get_email_transporter : Prog (Unit {0})
  get_email_transporter =
      if env.transporter_cached
      then ret tt
      else if env.smtp_configured
      then ret tt
      else await create_test_account

  abbrev pub html_of : Json → String
  html_of body =
      "<div style=\"font-family: sans-serif; padding: 20px;\">\n      <h2 style=\"color: #4F46E5;\">📧 Workflow Notification</h2>\n      <p>"
      +++ (lib.show body
          +++ "</p>\n      <hr style=\"border: 1px solid #E5E7EB; margin: 20px 0;\">\n      <p style=\"color: #9CA3AF; font-size: 12px;\">Sent by Workflow Orchestration Engine</p>\n    </div>")

  abbrev pub mail_of : Option Json → Mail
  mail_of payload =
      let body =
        or_value (setting "body" payload)
          (text "This email was sent by the Workflow Orchestration Engine.") in
      record {
        from = or_value (setting "from" payload) (text "\"Workflow Engine\" <workflow@engine.dev>");
        to = or_value (setting "to" payload) (text "test@example.com");
        subject = or_value (setting "subject" payload) (text "Workflow Notification");
        text = body;
        html = html_of body;
      }

  abbrev pub email_result : Mail → MailInfo → Json
  email_result mail info = object (
      field "messageId" info.message_id (
        field "to" mail.to (
          field "subject" mail.subject (
            field "accepted" info.accepted (field "previewUrl" (lib.preview_url info) no_fields)))))

  -- handleEmail
  unfoldable pub handle_email : Option Json → Prog Json
  handle_email payload = do
    update_progress job_id 20
    get_email_transporter
    update_progress job_id 50
    info ← await (send_mail (mail_of payload))
    ret (email_result (mail_of payload) info)

  abbrev pub script_result : Option Json × List String → Json
  script_result (result, logs) = object (
      field "exitCode" (number "0") (
        field "result" (or_value result null) (
          field "stdout" (text (join_lines logs))
            (field "logsCount" (number (lib.number_text (length logs))) no_fields))))

  abbrev pub script_in : Option Json → String → Script
  script_in payload code = record {
    code = "(async () => { " +++ (code +++ " })()");
    globals = globals_of payload;
  }

  abbrev pub run_code : Option Json → String → Prog Json
  run_code payload code = do
    update_progress job_id 20
    update_progress job_id 50
    ran ←
        try_catch (await (run_script (script_in payload code)))
          (λ e. throw (message ("SCRIPT execution failed: " +++ lib.error_text e)))
    ret (script_result ran)

  abbrev pub is_javascript : Json → Bool
  is_javascript (text s) = str_eq s "javascript"
  is_javascript _ = false

  abbrev pub script_of : Option Json → Option String → Prog Json
  script_of payload none = throw (message "SCRIPT handler requires a \"code\" string in config")
  script_of payload (some code) =
      let language = or_value (setting "language" payload) (text "javascript") in
      if not (is_javascript language)
      then throw (
          message
            ("SCRIPT handler only supports JavaScript. Got: \"" +++ (lib.show language +++ "\"")))
      else if not env.has_ivm
      then throw (
          message
            "CRITICAL: isolated-vm is not available in the worker environment. Security sandbox cannot be established.")
      else run_code payload code

  -- handleScript
  unfoldable pub handle_script : Option Json → Prog Json
  handle_script payload = script_of payload (nonempty_text (setting "code" payload))
