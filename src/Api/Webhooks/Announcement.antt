-- ===== src/Api/Webhooks/Announcement.antt =====
-- execution-event.mapper.ts: the body of a webhook.
use distributed_task_platfor.Prelude.{
  ◌≡◌, sym, subst, refl, String, false, Option, none, some, or_default, str_eq, str_eq_iff,
}
use Prim.Native.String.{◌++◌ as ◌+++◌}
use distributed_task_platfor.Jobs.{Job, JobResult, message}
use distributed_task_platfor.Api.Webhooks.{SystemEvent, WebhookBody, Platform, to_webhook_payload}

not_other : (s : String) → s ≡ "JOB_COMPLETED" → str_eq s "JOB_FAILED" ≡ false
not_other s e = subst (λ x. str_eq x "JOB_FAILED" ≡ false) (sym e) refl

pub not_completed : (s : String) → s ≡ "JOB_FAILED" → str_eq s "JOB_COMPLETED" ≡ false
not_completed s e = subst (λ x. str_eq x "JOB_COMPLETED" ≡ false) (sym e) refl

module _ (platform : Platform) (event : SystemEvent) where
  -- The body that an event, its job and the job's result are announced with.
  pub record IsAnnouncement (job : Job) (result : Option JobResult) (body : WebhookBody)
      : Type 0 where
    pub its_id :
        body.event_id
        ≡ platform.sha256
            (platform.id_text job.id +++ (":" +++ (event.type_name +++ (":" +++ event.timestamp))))
    pub its_time : body.occurred_at ≡ platform.iso_now
    pub task_run : body.task_run_id ≡ platform.field job.payload "taskRunId"
    pub workflow_run : body.workflow_run_id ≡ platform.field job.payload "workflowRunId"
    pub its_workflow_version : body.workflow_version ≡ platform.field job.payload "workflowVersion"
    pub correlation : body.correlation_id ≡ platform.field job.payload "correlationId"
    pub no_output : result ≡ none → body.output ≡ none
    pub its_output :
        (r : JobResult)
        → result ≡ some r
        → body.output ≡ some (or_default (platform.parse_string r.payload) r.payload)
    pub of_completed :
        event.type_name ≡ "JOB_COMPLETED"
        → (body.event_type ≡ "TASK_COMPLETED") × (body.error ≡ none)
    pub of_failed :
        event.type_name ≡ "JOB_FAILED"
        → (body.event_type ≡ "TASK_FAILED")
          × ((reason : String)
              → event.reason ≡ some reason
              → str_eq reason "" ≡ false
              → body.error ≡ some (message reason))
          × (event.reason ≡ none → body.error ≡ job.failure_reason)
          × (event.reason ≡ some "" → body.error ≡ job.failure_reason)

  pub to_webhook_payload-IsAnnouncement :
      (job : Job) (result : Option JobResult)
      → IsAnnouncement job result (to_webhook_payload platform event job result)
  unfolding to_webhook_payload
  to_webhook_payload-IsAnnouncement job result = record {
    its_id = refl;
    its_time = refl;
    task_run = refl;
    workflow_run = refl;
    its_workflow_version = refl;
    correlation = refl;
    no_output = λ e. rw e refl;
    its_output = λ r e. rw e refl;
    of_completed = λ e. (
      rw ((str_eq_iff event.type_name "JOB_COMPLETED").1 e) refl,
      rw (not_other event.type_name e) refl,
    );
    of_failed = λ e. (
      rw (not_completed event.type_name e) refl,
      (λ reason is full. rw (((str_eq_iff event.type_name "JOB_FAILED").1 e), is) (rw full refl)),
      (λ is. rw (((str_eq_iff event.type_name "JOB_FAILED").1 e), is) refl),
      (λ is. rw (((str_eq_iff event.type_name "JOB_FAILED").1 e), is) refl),
    );
  }
