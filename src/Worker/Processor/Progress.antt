-- ===== src/Worker/Processor/Progress.antt =====
-- job.processor.ts: what a processor writes to job rows.
use distributed_task_platfor.Prelude.{
  ℕ, ◌≤◌, ◌≡◌, refl, sym, subst, Bool, true, false, if◌then◌else◌,
}
use distributed_task_platfor.Jobs.{Job, Error}
use distributed_task_platfor.Effects.{
  Call, update_job, Reply, Settled, resolved, rejected, Prog, ret, throw, call, ◌>>=◌, settle,
  await,
}
use distributed_task_platfor.Effects.Single.{IsNeutral}
use distributed_task_platfor.Worker.{progress_data, update_progress}

-- Progress that a job may report after `from`.
pub record Reported (job_id from : ℕ) (id : ℕ) (set : Job → Job) : Type 0 where
  pub progress : ℕ
  pub same_job : id ≡ job_id
  pub only_progress : set ≡ progress_data progress
  pub rises : from ≤ progress
  pub at_most : progress ≤ 100

module _ (job_id : ℕ) where
  -- The program's only writes to job rows report the job's progress, which never falls and never
  -- exceeds 100; when it returns, the progress that it reported last has the property.
  abbrev pub Reports : {A : Type 0} → (ℕ → Type 0) → ℕ → Prog A → Type 0
  Reports Q from (ret a) = Q from
  Reports Q from (throw e) = Unit
  Reports Q from (call (update_job id set) k) =
      (r : Reported job_id from id set) × ((s : Settled Job) → Reports Q r.progress (k s))
  Reports Q from (call o k) = IsNeutral o × ((s : Settled (Reply o)) → Reports Q from (k s))

  Reports->>= :
      {A B : Type 0} (Q R : ℕ → Type 0) (from : ℕ) (m : Prog A) (f : A → Prog B)
      → Reports Q from m
      → ((n : ℕ) (a : A) → Q n → Reports R n (f a))
      → Reports R from (m >>= f)
  Reports->>= Q R from (ret a) f h next = next from a h
  Reports->>= Q R from (throw e) f h next = tt
  Reports->>= Q R from (call (update_job id set) k) f (r, h) next =
      (r, λ s. Reports->>= Q R r.progress (k s) f (h s) next)
  Reports->>= Q R from (call o k) f (neutral, h) next =
      (neutral, λ s. Reports->>= Q R from (k s) f (h s) next)

  pub record Reporting {A : Type 0} (Q : ℕ → Type 0) (from : ℕ) (m : Prog A) : Type 0 where
    pub reports : Reports Q from m

  -- The rules: a value, an error, a block, a report, another awaited call, and a branch.
  pub returning :
      {A : Type 0} (Q : ℕ → Type 0) (from : ℕ) (a : A) → Q from → Reporting Q from (ret a)
  returning Q from a h = record { reports = h }

  pub throwing :
      {A : Type 0} (Q : ℕ → Type 0) (from : ℕ) (e : Error)
      → Reporting Q from (let m : Prog A = throw e in m)
  throwing Q from e = record { reports = tt }

  pub binding :
      {A B : Type 0} (Q R : ℕ → Type 0) (from : ℕ) (m : Prog A) (f : A → Prog B)
      → Reporting Q from m
      → ((n : ℕ) (a : A) → Q n → Reporting R n (f a))
      → Reporting R from (m >>= f)
  binding Q R from m f h next = record {
    reports = Reports->>= Q R from m f h.reports (λ n a q. (next n a q).reports);
  }

  pub report-then :
      {B : Type 0} (R : ℕ → Type 0) (from p : ℕ) (f : Unit {0} → Prog B)
      → from ≤ p
      → p ≤ 100
      → Reporting R p (f tt)
      → Reporting R from (update_progress job_id p >>= f)
  report-then R from p f rises at_most h = record {
    reports = (
      record {
        progress = p;
        same_job = refl;
        only_progress = refl;
        rises = rises;
        at_most = at_most;
      },
      settled,
    );
  }
    where
      settled : (s : Settled Job) → Reports R p ((settle s >>= λ _. ret tt) >>= f)
      settled (resolved j) = h.reports
      settled (rejected e) = tt

  pub await-then :
      {B : Type 0} (R : ℕ → Type 0) (from : ℕ) (o : Call) (f : Reply o → Prog B)
      → IsNeutral o
      → ((a : Reply o) → Reporting R from (f a))
      → Reporting R from (await o >>= f)
  await-then R from o f neutral h =
      binding (λ n. n ≡ from) R from (await o) f (record { reports = awaited o neutral })
        (λ n a e. subst (λ k. Reporting R k (f a)) (sym e) (h a))
    where
      answered : (c : Call) (s : Settled (Reply c)) → Reports (λ n. n ≡ from) from (settle s)
      answered c (resolved a) = refl
      answered c (rejected e) = tt

      awaited : (c : Call) → IsNeutral c → Reports (λ n. n ≡ from) from (await c)
      awaited (update_job id set) h = absurd h
      awaited c h = (h, answered c)

  pub branching :
      {A : Type 0} (Q : ℕ → Type 0) (from : ℕ) (b : Bool) (m n : Prog A)
      → Reporting Q from m
      → Reporting Q from n
      → Reporting Q from (if b then m else n)
  branching Q from true m n hm hn = hm
  branching Q from false m n hm hn = hn
