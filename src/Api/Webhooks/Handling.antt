-- ===== src/Api/Webhooks/Handling.antt =====
-- webhook-dispatcher.service.ts: what an event leads to.
use distributed_task_platfor.Prelude.{
  ℕ, zero, suc, ◌+◌, ◌≤◌, ◌≡◌, ◌⊎◌, sym, subst, refl, inl, inr, String, Bool, true, false, ◌||◌,
  Option, none, some, List, [], All, length, arith, str_eq, str_eq_iff, Bool-cases, if◌then◌else◌,
}
use distributed_task_platfor.Jobs.{Job, JobResult}
use distributed_task_platfor.Effects.{Settled, resolved, rejected}
use distributed_task_platfor.Api.Webhooks.{
  SystemEvent, WebhookBody, SignedRequest, Action, Platform, deliver_to, Delivery, Answers,
  callback_url, with_result, with_url, with_found, is_terminal, handle_event,
}
use distributed_task_platfor.Api.Webhooks.Announcement.{
  IsAnnouncement, to_webhook_payload-IsAnnouncement, not_completed,
}
use distributed_task_platfor.Api.Webhooks.Loop.{requests_of, copies}
use distributed_task_platfor.Api.Webhooks.Attempts.{
  IsSigned, HasNoSecret, Sent, deliver_to-Delivered,
}

module _ (platform : Platform) (event : SystemEvent) where
  module _ (answers : Answers) where
    -- A webhook that the event calls for: to the callback of the job with the event's id, with the
    -- announcement of that job, and of the result under the same id if the job completed.
    pub record IsCalledFor (url : String) (body : WebhookBody) : Type 0 where
      pub terminal : (event.type_name ≡ "JOB_COMPLETED") ⊎ (event.type_name ≡ "JOB_FAILED")
      pub job : Job
      pub found : answers.job event.job_id ≡ resolved (some job)
      pub has_url : callback_url platform job ≡ some url
      pub not_empty : str_eq url "" ≡ false
      pub result : Option JobResult
      pub read : event.type_name ≡ "JOB_COMPLETED" → answers.result event.job_id ≡ resolved result
      pub unread : event.type_name ≡ "JOB_FAILED" → result ≡ none
      pub announces : IsAnnouncement platform event job result body

    -- A request that carries such a webhook.
    abbrev pub IsCaused : SignedRequest → Type 0
    IsCaused r =
        (url : String) × (body : WebhookBody) × IsCalledFor url body × IsSigned platform url body r

    -- How a handler ended: with at most four requests, all of them called for and signed, and with
    -- one at least if a webhook was called for and there is a secret.
    pub record Handled (d : Delivery) : Type 0 where
      pub actions : List Action
      pub ok : Bool
      pub ends : d ≡ some (actions, ok)
      pub at_most : length (requests_of actions) ≤ 4
      pub causes : All IsCaused (requests_of actions)
      pub at_least :
          (url : String) (body : WebhookBody)
          → IsCalledFor url body
          → HasNoSecret platform ⊎ (1 ≤ length (requests_of actions))

    length-copies : (n : ℕ) (r : SignedRequest) → length (copies n r) ≡ n
    length-copies zero r = refl
    length-copies (suc n) r = omega (arith, length-copies n r)

    All-copies : (n : ℕ) (r : SignedRequest) → IsCaused r → All IsCaused (copies n r)
    All-copies zero r c = tt
    All-copies (suc n) r c = (c, All-copies n r c)

    Sent-Handled :
        (d : Delivery) (url : String) (body : WebhookBody) (last : ℕ) (actions : List Action)
        (ok : Bool)
        → IsCalledFor url body
        → d ≡ some (actions, ok)
        → last ≤ 3
        → Sent platform answers.fetch answers.randoms url body last (requests_of actions) ok
        → Handled d
    Sent-Handled d url body last actions ok c ends le (inl (missing, none_sent, fails)) = record {
      actions = actions;
      ok = ok;
      ends = ends;
      at_most = rw none_sent (omega arith);
      causes = rw none_sent tt;
      at_least = λ u b _. inl missing;
    }
    Sent-Handled d url body last actions ok c ends le (inr (r, signed, sent, _, _)) = record {
      actions = actions;
      ok = ok;
      ends = ends;
      at_most = rw sent (omega (arith, le, length-copies (last + 1) r));
      causes = rw sent (All-copies (last + 1) r (url, body, c, signed));
      at_least = λ u b _. inr (rw sent (omega (arith, length-copies (last + 1) r)));
    }

    delivered-Handled :
        (fuel : ℕ) (url : String) (body : WebhookBody)
        → IsCalledFor url body
        → Handled (
            deliver_to platform answers.fetch answers.randoms
              (suc (suc (suc (suc (suc fuel)))))
              url
              body)
    delivered-Handled fuel url body c =
        let (actions, ok, ends, d) =
          deliver_to-Delivered platform answers.fetch answers.randoms url body fuel in
        Sent-Handled _ url body d.last actions ok c ends d.bounded d.sends

    -- Nothing is called for.
    idle-Handled :
        ((url : String) (body : WebhookBody) → IsCalledFor url body → ⊥)
        → Handled (some ([], false))
    idle-Handled none_called = record {
      actions = [];
      ok = false;
      ends = refl;
      at_most = omega arith;
      causes = tt;
      at_least = λ u b c. absurd (none_called u b c);
    }

    called-url :
        (job : Job) (url : String) (body : WebhookBody)
        → answers.job event.job_id ≡ resolved (some job)
        → IsCalledFor url body
        → callback_url platform job ≡ some url
    called-url job url body found c =
        let same : c.job ≡ job = cc (found, c.found) in
        subst (λ j. callback_url platform j ≡ some url) same c.has_url

    Terminal : Type 0
    Terminal = (event.type_name ≡ "JOB_COMPLETED") ⊎ (event.type_name ≡ "JOB_FAILED")

    module _ (fuel : ℕ) (terminal : Terminal) where
      abbrev five : ℕ
      five = suc (suc (suc (suc (suc fuel))))

      module _ (job : Job) (found : answers.job event.job_id ≡ resolved (some job)) where
        announced :
            (url : String)
            → callback_url platform job ≡ some url
            → str_eq url "" ≡ false
            → (result : Option JobResult)
            → (event.type_name ≡ "JOB_COMPLETED" → answers.result event.job_id ≡ resolved result)
            → (event.type_name ≡ "JOB_FAILED" → result ≡ none)
            → Handled (with_result platform five event answers job url (resolved result))
        unfolding Terminal
        announced url has_url full result read unread = delivered-Handled fuel url _ (record {
          terminal = terminal;
          job = job;
          found = found;
          has_url = has_url;
          not_empty = full;
          result = result;
          read = read;
          unread = unread;
          announces = to_webhook_payload-IsAnnouncement platform event job result;
        })

        by_answer :
            (url : String)
            → callback_url platform job ≡ some url
            → str_eq url "" ≡ false
            → event.type_name ≡ "JOB_COMPLETED"
            → (r : Settled (Option JobResult)) → answers.result event.job_id ≡ r
            → Handled (with_result platform five event answers job url r)
        by_answer url has_url full y (rejected er) e = idle-Handled (λ u b c. cc (c.read y, e))
        by_answer url has_url full y (resolved r) e =
            announced url has_url full r (λ _. e)
              (λ n. absurd (
                cc (
                  not_completed event.type_name n,
                  (str_eq_iff event.type_name "JOB_COMPLETED").1 y,
                )))

        with_result-Handled :
            (url : String)
            → callback_url platform job ≡ some url
            → str_eq url "" ≡ false
            → Handled (
                with_result platform five event answers job url (
                  if str_eq event.type_name "JOB_COMPLETED"
                  then answers.result event.job_id
                  else resolved none))
        with_result-Handled url has_url full =
            elim (Bool-cases (str_eq event.type_name "JOB_COMPLETED")) [
              | inl y ↦ rw y (
                  by_answer url has_url full ((str_eq_iff event.type_name "JOB_COMPLETED").0 y)
                    (answers.result event.job_id) refl)
              | inr n ↦ rw n (
                  announced url has_url full none
                    (λ y. absurd (cc (n, (str_eq_iff event.type_name "JOB_COMPLETED").1 y)))
                    (λ _. refl))
            ]

        with_url-Handled :
            (o : Option String)
            → callback_url platform job ≡ o
            → Handled (with_url platform five event answers job o)
        with_url-Handled none has_url =
            idle-Handled (λ u b c. cc (has_url, called-url job u b found c))
        with_url-Handled (some url) has_url = elim (Bool-cases (str_eq url "")) [
          | inl y ↦
              rw y
                (idle-Handled (λ u b c. cc (y, c.not_empty, has_url, called-url job u b found c)))
          | inr n ↦ rw n (with_result-Handled url has_url n)
        ]

      with_found-Handled :
          (r : Settled (Option Job))
          → answers.job event.job_id ≡ r
          → Handled (with_found platform five event answers r)
      with_found-Handled (rejected er) e = idle-Handled (λ u b c. cc (c.found, e))
      with_found-Handled (resolved none) e = idle-Handled (λ u b c. cc (c.found, e))
      with_found-Handled (resolved (some job)) e =
          with_url-Handled job e (callback_url platform job) refl

    is_terminal-Terminal : is_terminal event ≡ true → Terminal
    unfolding Terminal
    is_terminal-Terminal h = elim (Bool-cases (str_eq event.type_name "JOB_COMPLETED")) [
      | inl y ↦ inl ((str_eq_iff event.type_name "JOB_COMPLETED").0 y)
      | inr n ↦ inr ((str_eq_iff event.type_name "JOB_FAILED").0 (failed n))
    ]
      where
        failed :
            str_eq event.type_name "JOB_COMPLETED" ≡ false
            → str_eq event.type_name "JOB_FAILED" ≡ true
        failed n = subst (λ b. (b || str_eq event.type_name "JOB_FAILED") ≡ true) n h

    not_terminal :
        (url : String) (body : WebhookBody) → is_terminal event ≡ false → IsCalledFor url body → ⊥
    not_terminal url body n c = elim c.terminal [
      | inl y ↦
          cc (
            n,
            subst (λ s. (str_eq s "JOB_COMPLETED" || str_eq s "JOB_FAILED") ≡ true) (sym y) refl,
          )
      | inr y ↦
          cc (
            n,
            subst (λ s. (str_eq s "JOB_COMPLETED" || str_eq s "JOB_FAILED") ≡ true) (sym y) refl,
          )
    ]

    -- Whatever the database and the receiver answer, handling an event ends, within five rounds of
    -- its loop, with at most four requests. Each goes to the callback url of the job with the event's
    -- id, is signed with the secret, and carries as body what announces that job: TASK_COMPLETED with
    -- the result under the event's job id, or TASK_FAILED with the reason; there is one only for a
    -- JOB_COMPLETED or JOB_FAILED event. There is at least one whenever a webhook is called for and a
    -- secret is configured.
    pub handle_event_ends :
        (fuel : ℕ)
        → Handled (handle_event platform (suc (suc (suc (suc (suc fuel))))) event answers)
    unfolding handle_event
    handle_event_ends fuel = elim (Bool-cases (is_terminal event)) [
      | inl y ↦
          rw y (with_found-Handled fuel (is_terminal-Terminal y) (answers.job event.job_id) refl)
      | inr n ↦ rw n (idle-Handled (λ u b c. not_terminal u b n c))
    ]
