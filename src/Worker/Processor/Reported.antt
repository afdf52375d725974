-- ===== src/Worker/Processor/Reported.antt =====
-- job.processor.ts: the progress that each handler reports.
use distributed_task_platfor.Prelude.{
  ℕ, ◌≤◌, ◌≡◌, refl, String, not, Option, none, some, List, [], ◌∷◌, arith,
}
use Prim.Native.String.{◌++◌ as ◌+++◌}
use distributed_task_platfor.Json.{Json, text, or_value}
use distributed_task_platfor.Jobs.{message}
use distributed_task_platfor.Effects.{
  dns_lookup, fetch, create_test_account, send_mail, sleep, Settled, resolved, rejected, Prog, ret,
  throw, ◌>>=◌, settle, await, try_catch,
}
use distributed_task_platfor.Worker.{update_progress}
use distributed_task_platfor.Worker.Payload.{
  Libraries, Settings, Url, setting, delay_of, is_private_address,
}
use distributed_task_platfor.Worker.Handlers.{
  check_address, check_host, check_url, http_to, handle_http, send_request, evaluated, condition_on,
  handle_condition, is_javascript, get_email_transporter, mail_of, script_result, request_of,
  handle_email, run_code, script_of, handle_script,
}
use distributed_task_platfor.Worker.Processor.{
  mock_steps, mock_handler, switch, normalized_type, process_job,
}
use distributed_task_platfor.Worker.Processor.Progress.{
  Reports, Reporting, returning, throwing, binding, report-then, await-then, branching,
}

module _ (job_id : ℕ) where
  -- A handler may report up to 100, so that the processor's last report still rises.
  abbrev Within : ℕ → Type 0
  Within n = n ≤ 100

  module _ (lib : Libraries) (env : Settings) where
    send_request-Reports :
        (t : String) (p : Option Json) → Reporting job_id Within 0 (send_request lib env job_id t p)
    send_request-Reports t p = report-then job_id Within 0 20 _ (omega arith) (omega arith) (
        report-then job_id Within 20 40 _ (omega arith) (omega arith) (
          await-then job_id Within 40 (fetch (request_of lib env job_id t p)) _ tt (λ r.
            report-then job_id Within 40 80 _ (omega arith) (omega arith)
              (returning job_id Within 80 _ (omega arith)))))

    check_host-Reports :
        (t : String) (p : Option Json) (h : String)
        → Reporting job_id Within 0 (check_host lib env job_id t p h)
    check_host-Reports t p h = branching job_id Within 0 _ _ _ (send_request-Reports t p) (
        branching job_id Within 0 _ _ _ (throwing job_id Within 0 _) (
          await-then job_id Within 0 (dns_lookup h) (check_address lib env job_id t p) tt (λ a.
            branching job_id Within 0 (is_private_address a) _ _ (throwing job_id Within 0 _)
              (send_request-Reports t p))))

    check_url-Reports :
        (t : String) (p : Option Json) (u : Option Url)
        → Reporting job_id Within 0 (check_url lib env job_id t p u)
    check_url-Reports t p none = throwing job_id Within 0 _
    check_url-Reports t p (some u) =
        branching job_id Within 0 _ _ _ (check_host-Reports t p u.hostname)
          (throwing job_id Within 0 _)

    http_to-Reports :
        (p : Option Json) (t : Option String)
        → Reporting job_id Within 0 (http_to lib env job_id p t)
    http_to-Reports p none = throwing job_id Within 0 _
    http_to-Reports p (some t) = check_url-Reports t p (lib.parse_url t)

    evaluated-Reports :
        (e : String) (s : Settled Json) → Reporting job_id Within 60 (evaluated lib env job_id e s)
    evaluated-Reports e (resolved v) = returning job_id Within 60 _ (omega arith)
    evaluated-Reports e (rejected er) = throwing job_id Within 60 _

    condition_on-Reports :
        (p : Option Json) (e : Option String)
        → Reporting job_id Within 0 (condition_on lib env job_id p e)
    condition_on-Reports p none = throwing job_id Within 0 _
    condition_on-Reports p (some e) =
        report-then job_id Within 0 30 _ (omega arith) (omega arith)
          (report-then job_id Within 30 60 _ (omega arith) (omega arith) (evaluated-Reports e _))

    transporter-Reports : Reporting job_id (λ n. n ≤ 20) 20 (get_email_transporter lib env job_id)
    transporter-Reports =
        branching job_id (λ n. n ≤ 20) 20 env.transporter_cached _ _
          (returning job_id (λ n. n ≤ 20) 20 tt (omega arith))
          (branching job_id (λ n. n ≤ 20) 20 env.smtp_configured _ (await create_test_account)
            (returning job_id (λ n. n ≤ 20) 20 tt (omega arith)) (record { reports = created }))
      where
        answered : (s : Settled (Unit {0})) → Reports job_id (λ n. n ≤ 20) 20 (settle s)
        answered (resolved a) = omega arith
        answered (rejected e) = tt

        created : Reports job_id (λ n. n ≤ 20) 20 (await create_test_account)
        created = (tt, answered)

    handle_email-Reports :
        (p : Option Json) → Reporting job_id Within 0 (handle_email lib env job_id p)
    unfolding handle_email
    handle_email-Reports p = report-then job_id Within 0 20 _ (omega arith) (omega arith) (
        binding job_id (λ n. n ≤ 20) Within 20 (get_email_transporter lib env job_id) _
          transporter-Reports
          (λ n a le. report-then job_id Within n 50 _ (omega (arith, le)) (omega arith) (
            await-then job_id Within 50 (send_mail (mail_of lib env job_id p)) _ tt
              (λ info. returning job_id Within 50 _ (omega arith)))))

    run_code-Reports :
        (p : Option Json) (c : String) → Reporting job_id Within 0 (run_code lib env job_id p c)
    run_code-Reports p c = report-then job_id Within 0 20 _ (omega arith) (omega arith) (
        report-then job_id Within 20 50 _ (omega arith) (omega arith)
          (record { reports = (tt, ran) }))
      where
        ran :
            (s : Settled (Option Json × List String))
            → Reports job_id Within 50 (
                try_catch
                  (settle s)
                  (λ e. throw (message ("SCRIPT execution failed: " +++ lib.error_text e)))
                >>= λ r. ret (script_result lib env job_id r))
        ran (resolved r) = omega arith
        ran (rejected e) = tt

    script_of-Reports :
        (p : Option Json) (c : Option String)
        → Reporting job_id Within 0 (script_of lib env job_id p c)
    script_of-Reports p none = throwing job_id Within 0 _
    script_of-Reports p (some c) =
        branching job_id Within 0
          (not (is_javascript lib env job_id (or_value (setting "language" p) (text "javascript"))))
          _ _ (throwing job_id Within 0 _)
          (branching job_id Within 0 (not env.has_ivm) _ _ (throwing job_id Within 0 _)
            (run_code-Reports p c))

    mock_handler-Reports :
        (t : String) (p : Option Json) → Reporting job_id Within 0 (mock_handler lib env job_id t p)
    mock_handler-Reports t p =
        binding job_id Within Within 0
          (mock_steps lib env job_id (delay_of env p) (1 ∷ 2 ∷ 3 ∷ 4 ∷ [])) _
          (step 0 25 _ (omega arith) (omega arith) (
            step 25 50 _ (omega arith) (omega arith) (
              step 50 75 _ (omega arith) (omega arith) (
                step 75 100 _ (omega arith) (omega arith)
                  (returning job_id Within 100 tt (omega arith))))))
          (λ n a le. returning job_id Within n _ le)
      where
        step :
            (from q : ℕ) (f : Unit {0} → Prog (Unit {0}))
            → from ≤ q
            → q ≤ 100
            → Reporting job_id Within q (f tt)
            → Reporting job_id Within from (
                await (sleep (lib.quarter_ms (delay_of env p))) >>= λ _.
                update_progress job_id q >>= f)
        step from q f rises at_most h =
            await-then job_id Within from (sleep (lib.quarter_ms (delay_of env p))) _ tt
              (λ _. report-then job_id Within from q f rises at_most h)

    handle_http-Reports :
        (p : Option Json) → Reporting job_id Within 0 (handle_http lib env job_id p)
    unfolding handle_http
    handle_http-Reports p = http_to-Reports p _

    handle_condition-Reports :
        (p : Option Json) → Reporting job_id Within 0 (handle_condition lib env job_id p)
    unfolding handle_condition
    handle_condition-Reports p = condition_on-Reports p _

    handle_script-Reports :
        (p : Option Json) → Reporting job_id Within 0 (handle_script lib env job_id p)
    unfolding handle_script
    handle_script-Reports p = script_of-Reports p _

    switch-Reports :
        (kind t : String) (p : Option Json)
        → Reporting job_id Within 0 (switch lib env job_id kind t p)
    switch-Reports kind t p = branching job_id Within 0 _ _ _ (handle_http-Reports p) (
        branching job_id Within 0 _ _ _ (handle_condition-Reports p) (
          branching job_id Within 0 _ _ _ (handle_email-Reports p) (
            branching job_id Within 0 _ _ _ (handle_script-Reports p) (
              branching job_id Within 0 _ _ _ (returning job_id Within 0 _ (omega arith))
                (mock_handler-Reports t p)))))

    -- Whatever a job's type and payload are, and whatever the libraries answer: all that the
    -- processor writes to job rows is the progress of its own job, which never falls and never
    -- exceeds 100, and which is 100 when it returns.
    pub process_job-Reports :
        (job_type payload : String)
        → Reports job_id (λ n. n ≡ 100) 0 (process_job lib env job_id job_type payload)
    unfolding process_job
    process_job-Reports t p =
        (binding job_id Within (λ n. n ≡ 100) 0
          (switch lib env job_id (normalized_type lib env job_id t) t (lib.parse_json p)) _
          (switch-Reports (normalized_type lib env job_id t) t (lib.parse_json p))
          (λ n a le.
            report-then job_id (λ k. k ≡ 100) n 100 _ le (omega arith)
              (returning job_id (λ k. k ≡ 100) 100 _ refl))).reports
