-- ===== src/Worker/Processor/Quiet.antt =====
-- job.processor.ts: its programs that neither look up a host nor send a request.
use distributed_task_platfor.Prelude.{
  ℕ, ◌*◌, String, Bool, true, false, not, Option, none, some, List, [], ◌∷◌, if◌then◌else◌,
}
use distributed_task_platfor.Json.{Json, text, or_value}
use distributed_task_platfor.Jobs.{Error}
use distributed_task_platfor.Effects.{
  Call, update_job, dns_lookup, fetch, create_test_account, send_mail, run_script, sleep, Settled,
  resolved, rejected, Prog, ret, throw, ◌>>=◌, await, try_catch,
}
use distributed_task_platfor.Effects.Always.{Always, Always->>=, Always-await, Always-try_catch}
use distributed_task_platfor.Worker.{progress_data, update_progress}
use distributed_task_platfor.Worker.Payload.{Libraries, Settings, setting, delay_of}
use distributed_task_platfor.Worker.Handlers.{
  evaluated, condition_on, handle_condition, get_email_transporter, mail_of, handle_email,
  script_in, run_code, is_javascript, script_of, handle_script,
}
use distributed_task_platfor.Worker.Processor.{mock_steps, mock_handler}

-- The calls that neither look up a host nor send a request.
abbrev pub IsQuiet : Call → Type 0
IsQuiet (dns_lookup h) = ⊥
IsQuiet (fetch r) = ⊥
IsQuiet _ = Unit

pub record Quiet {A : Type 0} (m : Prog A) : Type 0 where
  pub quiet : Always IsQuiet m

pub Quiet-ret : {A : Type 0} (a : A) → Quiet (ret a)
Quiet-ret a = record { quiet = tt }

pub Quiet-throw : {A : Type 0} (e : Error) → Quiet (let m : Prog A = throw e in m)
Quiet-throw e = record { quiet = tt }

pub Quiet-bind :
    {A B : Type 0} (m : Prog A) (f : A → Prog B)
    → Quiet m
    → ((a : A) → Quiet (f a))
    → Quiet (m >>= f)
Quiet-bind m f q next = record { quiet = Always->>= IsQuiet m f q.quiet (λ a. (next a).quiet) }

pub Quiet-await : (o : Call) → IsQuiet o → Quiet (await o)
Quiet-await o h = record { quiet = Always-await IsQuiet o h }

pub Quiet-if :
    {A : Type 0} (b : Bool) (m n : Prog A) → Quiet m → Quiet n → Quiet (if b then m else n)
Quiet-if true m n hm hn = hm
Quiet-if false m n hm hn = hn

pub Quiet-report : (id p : ℕ) → Quiet (update_progress id p)
Quiet-report id p =
    Quiet-bind (await (update_job id (progress_data p))) _
      (Quiet-await (update_job id (progress_data p)) tt) (λ _. Quiet-ret tt)

pub Quiet-try_catch :
    {A : Type 0} (m : Prog A) (h : Error → Prog A)
    → Quiet m
    → ((e : Error) → Quiet (h e))
    → Quiet (try_catch m h)
Quiet-try_catch m h q next = record {
  quiet = Always-try_catch IsQuiet m h q.quiet (λ e. (next e).quiet);
}

report-then :
    {B : Type 0} (id p : ℕ) (f : Unit {0} → Prog B)
    → Quiet (f tt)
    → Quiet (update_progress id p >>= f)
report-then id p f h = Quiet-bind (update_progress id p) f (Quiet-report id p) (λ _. h)

module _ (lib : Libraries) (env : Settings) (id : ℕ) where
  evaluated-Quiet : (e : String) (s : Settled Json) → Quiet (evaluated lib env id e s)
  evaluated-Quiet e (resolved v) = Quiet-ret _
  evaluated-Quiet e (rejected er) = Quiet-throw _

  condition_on-Quiet : (p : Option Json) (e : Option String) → Quiet (condition_on lib env id p e)
  condition_on-Quiet p none = Quiet-throw _
  condition_on-Quiet p (some e) = report-then id 30 _ (report-then id 60 _ (evaluated-Quiet e _))

  transporter-Quiet : Quiet (get_email_transporter lib env id)
  transporter-Quiet = Quiet-if env.transporter_cached _ _ (Quiet-ret tt) (
      Quiet-if env.smtp_configured _ (await create_test_account) (Quiet-ret tt)
        (Quiet-await create_test_account tt))

  pub handle_email-Quiet : (p : Option Json) → Quiet (handle_email lib env id p)
  unfolding handle_email
  handle_email-Quiet p = report-then id 20 _ (
      Quiet-bind (get_email_transporter lib env id) _ transporter-Quiet (λ _. report-then id 50 _ (
        Quiet-bind (await (send_mail (mail_of lib env id p))) _
          (Quiet-await (send_mail (mail_of lib env id p)) tt) (λ info. Quiet-ret _))))

  run_code-Quiet : (p : Option Json) (c : String) → Quiet (run_code lib env id p c)
  run_code-Quiet p c = report-then id 20 _ (
      report-then id 50 _ (
        Quiet-bind (try_catch (await (run_script (script_in lib env id p c))) _) _
          (Quiet-try_catch (await (run_script (script_in lib env id p c))) _
            (Quiet-await (run_script (script_in lib env id p c)) tt) (λ e. Quiet-throw _))
          (λ r. Quiet-ret _)))

  script_of-Quiet : (p : Option Json) (c : Option String) → Quiet (script_of lib env id p c)
  script_of-Quiet p none = Quiet-throw _
  script_of-Quiet p (some c) =
      Quiet-if
        (not (is_javascript lib env id (or_value (setting "language" p) (text "javascript")))) _ _
        (Quiet-throw _) (Quiet-if (not env.has_ivm) _ _ (Quiet-throw _) (run_code-Quiet p c))

  pub handle_condition-Quiet : (p : Option Json) → Quiet (handle_condition lib env id p)
  unfolding handle_condition
  handle_condition-Quiet p = condition_on-Quiet p _

  pub handle_script-Quiet : (p : Option Json) → Quiet (handle_script lib env id p)
  unfolding handle_script
  handle_script-Quiet p = script_of-Quiet p _

  mock_steps-Quiet : (d : Json) (is : List ℕ) → Quiet (mock_steps lib env id d is)
  mock_steps-Quiet d [] = Quiet-ret tt
  mock_steps-Quiet d (i ∷ is) =
      Quiet-bind (await (sleep (lib.quarter_ms d))) _ (Quiet-await (sleep (lib.quarter_ms d)) tt)
        (λ _. report-then id (i * 25) _ (mock_steps-Quiet d is))

  pub mock_handler-Quiet : (t : String) (p : Option Json) → Quiet (mock_handler lib env id t p)
  mock_handler-Quiet t p =
      Quiet-bind (mock_steps lib env id (delay_of env p) (1 ∷ 2 ∷ 3 ∷ 4 ∷ [])) _
        (mock_steps-Quiet (delay_of env p) (1 ∷ 2 ∷ 3 ∷ 4 ∷ [])) (λ _. Quiet-ret _)
