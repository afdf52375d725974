-- ===== src/Examples/Processor.antt =====
-- An HTTP job to a public host, and two workers that run it.
use distributed_task_platfor.Prelude.{
  ℕ, ◌≤◌, ◌≡◌, refl, true, false, none, some, str_eq, if◌then◌else◌,
}
use distributed_task_platfor.Json.{Json, null, text, object, field, no_fields}
use distributed_task_platfor.Jobs.{Job}
use distributed_task_platfor.Effects.{resolved}
use distributed_task_platfor.Effects.Interleave.{run, claims}
use distributed_task_platfor.Effects.Lawful.{RowIsValid}
use distributed_task_platfor.Worker.Payload.{Libraries, Settings, is_private_address}
use distributed_task_platfor.Worker.Processor.{process_job}
use distributed_task_platfor.Worker.Processor.Progress.{Reports}
use distributed_task_platfor.Worker.Processor.Reported.{process_job-Reports}
use distributed_task_platfor.Worker.Processor.Guards.{Guarded}
use distributed_task_platfor.Worker.Processor.Ssrf.{process_job-Guarded}
use distributed_task_platfor.Safety.{start}
use distributed_task_platfor.Safety.Platform.{platform_keeps_jobs}
use distributed_task_platfor.Examples.Memory.{memory, lookup, waiting_job}
use distributed_task_platfor.Examples.Safety.{racers, race}

abbrev http_payload : Json
http_payload = object (field "url" (text "http://example.com/") no_fields)

abbrev libraries : Libraries
libraries = record {
  parse_json = λ s. some http_payload;
  stringify = λ j. "{}";
  show = λ j. "{}";
  number_text = λ n. "0";
  to_upper_case = λ s. if str_eq s "http" then "HTTP" else s;
  parse_url = λ s. some (record { protocol = "http:"; hostname = "example.com" });
  evaluate = λ e sandbox. resolved null;
  error_text = λ e. "";
  quarter_ms = λ j. 500;
  preview_url = λ i. null;
}

abbrev settings : Settings
settings = record {
  ssrf_allowed_hosts = none;
  smtp_configured = false;
  transporter_cached = false;
  has_ivm = true;
  test_processor_delay = none;
}

process_job-Reports_example :
    Reports 1 (λ n. n ≡ 100) 0 (process_job libraries settings 1 "core/http" "{}")
process_job-Reports_example = process_job-Reports 1 libraries settings "core/http" "{}"

process_job-Guarded_example :
    Guarded libraries settings
      (some http_payload)
      none
      (process_job libraries settings 1 "core/http" "{}")
process_job-Guarded_example = process_job-Guarded libraries settings 1 "core/http" "{}"

-- Addresses that the check lets pass although they are private or local.
other_loopback_test : is_private_address "127.0.0.2" ≡ false
unfolding is_private_address
other_loopback_test = refl

mapped_loopback_test : is_private_address "::ffff:127.0.0.1" ≡ false
unfolding is_private_address
mapped_loopback_test = refl

private_test : is_private_address "172.31.0.1" ≡ true
unfolding is_private_address
private_test = refl

platform_keeps_jobs_example :
    let end =
      run memory race (start (process_job libraries settings) memory racers (some waiting_job)) in
    ((v : ℕ)
      → claims memory 1 v race
          (start (process_job libraries settings) memory racers (some waiting_job))
        ≤ 1)
    × (RowIsValid (some waiting_job) → RowIsValid (lookup end.world 1))
    × ((j : Job)
        → some waiting_job ≡ some j
        → (j' : Job) × (lookup end.world 1 ≡ some j') × (j'.id ≡ j.id) × (j.version ≤ j'.version))
platform_keeps_jobs_example =
    platform_keeps_jobs libraries settings memory racers race (some waiting_job) 1
