-- ===== src/Api/Webhooks.antt =====
-- services/api-service/src/integration: webhook-dispatcher.service.ts, execution-event.mapper.ts
-- and webhook.client.ts. What an event makes the dispatcher do is a list of actions, given what
-- its awaited calls answer. JSON.parse, sha256, hmac, fetch and the clock are parameters.
pub mod Loop
pub mod Attempts
pub mod Announcement
pub mod Handling
use distributed_task_platfor.Prelude.{
  ℕ, zero, suc, ◌+◌, ◌-◌, ◌*◌, ◌/◌, ◌^◌, String, Bool, true, false, not, ◌&&◌, ◌||◌, Option, none,
  some, List, [], ◌∷◌, ◌++◌, leb, ltb, str_eq, if◌then◌else◌, or_default,
}
use Prim.Native.String.{◌++◌ as ◌+++◌}
use distributed_task_platfor.Jobs.{Job, JobResult, Error, message}
use distributed_task_platfor.Effects.{Settled, resolved, rejected}

-- SystemEventMessage: the parts that are read. `reason` is `payload?.details?.reason`.
pub record SystemEvent : Type 0 where
  pub type_name : String
  pub job_id : ℕ
  pub timestamp : String
  pub reason : Option String

-- The body of a webhook.
pub record WebhookBody : Type 0 where
  pub event_id : String
  pub spec_version : String
  pub event_type : String
  pub occurred_at : String
  pub task_run_id : Option String
  pub workflow_run_id : Option String
  pub workflow_version : Option String
  pub correlation_id : Option String
  pub output : Option String
  pub error : Option Error

-- What the libraries compute: sha256 in hex, the text of a job's id, new Date().toISOString(), a
-- field of a JSON object, the value in a JSON text that is a string of JSON, JSON.stringify, HMAC
-- in hex and the text of a number; and process.env.WEBHOOK_SECRET.
pub record Platform : Type 0 where
  pub sha256 : String → String
  pub id_text : ℕ → String
  pub iso_now : String
  pub field : (json key : String) → Option String
  pub parse_string : String → Option String
  pub stringify : WebhookBody → String
  pub hmac : (secret body : String) → String
  pub number_text : ℕ → String
  pub webhook_secret : Option String

abbrev pub output_of : Platform → Option JobResult → Option String
output_of p none = none
output_of p (some r) = some (or_default (p.parse_string r.payload) r.payload)

-- `reason || job.failureReason`
abbrev pub reason_or : Option String → Option Error → Option Error
reason_or none failure = failure
reason_or (some r) failure = if str_eq r "" then failure else some (message r)

-- ExecutionEventMapper.toWebhookPayload
unfoldable pub to_webhook_payload : Platform → SystemEvent → Job → Option JobResult → WebhookBody
to_webhook_payload p event job result = record {
  event_id =
      p.sha256 (p.id_text job.id +++ (":" +++ (event.type_name +++ (":" +++ event.timestamp))));
  spec_version = "1.0";
  event_type = if str_eq event.type_name "JOB_COMPLETED" then "TASK_COMPLETED" else "TASK_FAILED";
  occurred_at = p.iso_now;
  task_run_id = p.field job.payload "taskRunId";
  workflow_run_id = p.field job.payload "workflowRunId";
  workflow_version = p.field job.payload "workflowVersion";
  correlation_id = p.field job.payload "correlationId";
  output = output_of p result;
  error =
      if str_eq event.type_name "JOB_FAILED"
      then reason_or event.reason job.failure_reason
      else none;
}

-- fetch's answer: a response with its status and `ok`, or a network error.
pub data Fetched : Type 0 where
  response : (ok : Bool) → (status : ℕ) → Fetched
  network_error : Error → Fetched

-- What is sent: the JSON text of the body, and its signature in the header x-signature.
pub record SignedRequest : Type 0 where
  pub url : String
  pub body : String
  pub signature : String

-- The request that WebhookClient.send makes, if a secret is configured.
unfoldable pub signed_request : Platform → String → WebhookBody → Option SignedRequest
signed_request p url body = with_secret p.webhook_secret
  where
    with_secret : Option String → Option SignedRequest
    with_secret none = none
    with_secret (some secret) =
        if str_eq secret ""
        then none
        else some (record {
          url = url;
          body = p.stringify body;
          signature = p.hmac secret (p.stringify body);
        })

-- What the answer to the request makes of the send.
abbrev pub settled_as : Platform → Fetched → Settled (Unit {0})
settled_as p (network_error e) = rejected e
settled_as p (response ok status) =
    if ok
    then resolved tt
    else rejected (message ("Failed to send webhook: " +++ p.number_text status))

abbrev pub fetch_settled :
    Platform → (SignedRequest → Fetched) → Option SignedRequest → Settled (Unit {0})
fetch_settled p fetch none = rejected (message "WEBHOOK_SECRET is not configured")
fetch_settled p fetch (some r) = settled_as p (fetch r)

-- WebhookClient.send
unfoldable pub send :
    Platform → (SignedRequest → Fetched) → String → WebhookBody → Settled (Unit {0})
unfolding signed_request
send p fetch url body = fetch_settled p fetch (signed_request p url body)

-- What the dispatcher does, in order: the requests that go out, and its sleeps.
pub data Action : Type 0 where
  requests : SignedRequest → Action
  sleeps : (ms : ℕ) → Action

-- const maxRetries
abbrev pub max_webhook_retries : ℕ
max_webhook_retries = 3

-- The delay before the next attempt, of which setTimeout drops the fraction. `random` over 2 ^ 53
-- stands for Math.random() and the rounding of doubles, so it may be 1.
unfoldable pub retry_delay : (attempt random : ℕ) → ℕ
retry_delay attempt random = 1000 * 2 ^ (attempt - 1) + random * 500 / 2 ^ 53

-- How a loop ended: out of fuel, or with its actions and with whether the webhook was delivered.
abbrev pub Delivery : Type 0
Delivery = Option (List Action × Bool)

abbrev pub after : (List Action → List Action) → Delivery → Delivery
after actions none = none
after actions (some (rest, ok)) = some (actions rest, ok)

-- A send without a secret throws before there is a request.
abbrev pub requested : Option SignedRequest → List Action → List Action
requested none rest = rest
requested (some r) rest = requests r ∷ rest

module _ (answers : ℕ → Settled (Unit {0})) (randoms : ℕ → ℕ) (request : Option SignedRequest) where
  -- The catch of the loop, for a send that was attempt number `attempt` + 1.
  abbrev pub on_reject : ℕ → Delivery → Delivery
  on_reject attempt rest =
      if ltb max_webhook_retries (attempt + 1)
      then some (requested request [], false)
      else after
          (λ later.
            requested request (sleeps (retry_delay (attempt + 1) (randoms attempt)) ∷ later))
          rest

  abbrev pub on_answer : ℕ → Settled (Unit {0}) → (again finished : Delivery) → Delivery
  on_answer attempt (resolved _) again finished = after (requested request) finished
  on_answer attempt (rejected e) again finished = on_reject attempt again

  -- while (attempt <= maxRetries && !success)
  unfoldable pub deliver : (fuel attempt : ℕ) → (success : Bool) → Delivery
  deliver zero attempt success = none
  deliver (suc fuel) attempt success =
      let again = deliver fuel (attempt + 1) success in
      let finished = deliver fuel attempt true in
      if leb attempt max_webhook_retries && not success
      then on_answer attempt (answers attempt) again finished
      else some ([], success)

-- The loop of handleEvent around WebhookClient.send; `fetch n` is what the request of attempt n is
-- answered with.
unfoldable pub deliver_to :
    Platform → (ℕ → SignedRequest → Fetched) → (ℕ → ℕ) → ℕ → String → WebhookBody → Delivery
unfolding deliver send signed_request
deliver_to p fetch randoms fuel url body =
    deliver (λ n. send p (fetch n) url body) randoms (signed_request p url body) fuel 0 false

-- What the awaited calls of one event answer: prisma.job.findUnique by id, prisma.result.findUnique
-- by job id, and the receiver.
pub record Answers : Type 0 where
  pub job : ℕ → Settled (Option Job)
  pub result : ℕ → Settled (Option JobResult)
  pub fetch : ℕ → SignedRequest → Fetched
  pub randoms : ℕ → ℕ

-- callback.url, in the JSON text of the callback.
abbrev pub url_in : Platform → Option String → Option String
url_in p none = none
url_in p (some json) = p.field json "url"

abbrev pub callback_url : Platform → Job → Option String
callback_url p job = url_in p job.callback

-- The events that are passed on.
abbrev pub is_terminal : SystemEvent → Bool
is_terminal event = str_eq event.type_name "JOB_COMPLETED" || str_eq event.type_name "JOB_FAILED"

module _ (platform : Platform) (fuel : ℕ) (event : SystemEvent) (answers : Answers) where
  -- An early return, and the catch around the handler.
  abbrev pub no_action : Delivery
  no_action = some ([], false)

  abbrev pub with_result : Job → String → Settled (Option JobResult) → Delivery
  with_result job url (rejected e) = no_action
  with_result job url (resolved r) =
      deliver_to platform answers.fetch answers.randoms fuel url
        (to_webhook_payload platform event job r)

  abbrev pub with_url : Job → Option String → Delivery
  with_url job none = no_action
  with_url job (some url) =
      if str_eq url ""
      then no_action
      else with_result job url (
          if str_eq event.type_name "JOB_COMPLETED"
          then answers.result event.job_id
          else resolved none)

  abbrev pub with_found : Settled (Option Job) → Delivery
  with_found (rejected e) = no_action
  with_found (resolved none) = no_action
  with_found (resolved (some job)) = with_url job (callback_url platform job)

  -- handleEvent
  unfoldable pub handle_event : Delivery
  unfolding deliver_to to_webhook_payload
  handle_event =
      if not (is_terminal event) then no_action else with_found (answers.job event.job_id)
