-- ===== src/Examples/Webhooks.antt =====
-- A completed job with a callback, whose receiver answers 503 once and then 200.
use distributed_task_platfor.Prelude.{
  ◌≡◌, refl, true, false, none, some, [], ◌∷◌, ◌==◌, if◌then◌else◌,
}
use distributed_task_platfor.Effects.{resolved}
use distributed_task_platfor.Api.Webhooks.{
  SystemEvent, WebhookBody, Platform, response, Answers, requests, sleeps, SignedRequest,
  retry_delay, to_webhook_payload, deliver_to, handle_event,
}
use distributed_task_platfor.Api.Webhooks.Handling.{Handled, handle_event_ends}
use distributed_task_platfor.Examples.Memory.{waiting_job}

abbrev platform : Platform
platform = record {
  sha256 = λ s. s;
  id_text = λ n. "1";
  iso_now = "2026-01-01T00:00:00.000Z";
  field = λ json key. some json;
  parse_string = λ s. none;
  stringify = λ b. b.event_id;
  hmac = λ secret s. s;
  number_text = λ n. "503";
  webhook_secret = some "secret";
}

abbrev completed_event : SystemEvent
completed_event = record {
  type_name = "JOB_COMPLETED";
  job_id = 1;
  timestamp = "2026";
  reason = none;
}

abbrev flaky : Answers
flaky = record {
  job = λ id.
      resolved
        (if id == 1 then some (record waiting_job { callback = some "http://receiver" }) else none);
  result = λ id. resolved (some (record { job_id = 1; result_type = "JSON"; payload = "{}" }));
  fetch = λ n r. if n == 0 then response false 503 else response true 200;
  randoms = λ n. 0;
}

abbrev body : WebhookBody
body = to_webhook_payload platform completed_event waiting_job none

-- The first request is answered 503 and the second 200.
abbrev first_request : SignedRequest
first_request = record { url = "http://receiver"; body = body.event_id; signature = body.event_id }

deliver_to_test :
    deliver_to platform flaky.fetch flaky.randoms 5 "http://receiver" body
    ≡ some (requests first_request ∷ sleeps 1000 ∷ requests first_request ∷ [], true)
unfolding deliver_to retry_delay
deliver_to_test = refl

handle_event_ends_example :
    Handled platform completed_event flaky (handle_event platform 5 completed_event flaky)
handle_event_ends_example = handle_event_ends platform completed_event flaky 0
