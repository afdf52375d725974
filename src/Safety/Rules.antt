-- ===== src/Safety/Rules.antt =====
-- The rules by which a handler's writes are shown lawful: one for each way to build a program.
use distributed_task_platfor.Prelude.{ℕ, ◌+◌, Bool, true, false, if◌then◌else◌}
use distributed_task_platfor.Jobs.{Error}
use distributed_task_platfor.Effects.{
  Call, Query, now, find_jobs, Prog, ret, throw, ◌>>=◌, ◌>>◌, await, try_catch, fire_and_forget,
}
use distributed_task_platfor.Effects.Always.{Always, Always->>=, Always-await, Always-try_catch}
use distributed_task_platfor.Effects.Lawful.{IsLawful}

-- Every write that the program can make is lawful.
pub record Writes {A : Type 0} (m : Prog A) : Type 0 where
  pub lawful : Always IsLawful m

module _ {A : Type 0} where
  pub Writes-ret : (a : A) → Writes (ret a)
  Writes-ret a = record { lawful = tt }

  pub Writes-throw : (e : Error) → Writes (let p : Prog A = throw e in p)
  Writes-throw e = record { lawful = tt }

  pub Writes-try_catch :
      {m : Prog A} {h : Error → Prog A}
      → Writes m
      → ((e : Error) → Writes (h e))
      → Writes (try_catch m h)
  Writes-try_catch {m} {h} wm wh = record {
    lawful = Always-try_catch IsLawful m h wm.lawful (λ e. (wh e).lawful);
  }

  pub Writes-if : (b : Bool) (m n : Prog A) → Writes m → Writes n → Writes (if b then m else n)
  Writes-if true m n wm wn = wm
  Writes-if false m n wm wn = wn

  pub Writes->>= :
      {B : Type 0} {m : Prog A} {f : A → Prog B}
      → Writes m
      → ((a : A) → Writes (f a))
      → Writes (m >>= f)
  Writes->>= {m} {f} wm wf = record {
    lawful = Always->>= IsLawful m f wm.lawful (λ a. (wf a).lawful);
  }

  pub Writes->> : {B : Type 0} {m : Prog A} {n : Prog B} → Writes m → Writes n → Writes (m >> n)
  Writes->> wm wn = Writes->>= wm (λ _. wn)

pub Writes-await : (o : Call) → IsLawful o → Writes (await o)
Writes-await o h = record { lawful = Always-await IsLawful o h }

pub Writes-fire_and_forget : (o : Call) → IsLawful o → Writes (fire_and_forget o)
Writes-fire_and_forget o h = record { lawful = (h, λ r. tt) }

-- The sweeps' loops add up what each round counts.
pub Writes-sum : {m n : Prog ℕ} → Writes m → Writes n → Writes (m >>= λ a. n >>= λ b. ret (a + b))
Writes-sum wm wn = Writes->>= wm (λ a. Writes->>= wn (λ b. Writes-ret (a + b)))

-- A query bounded by the time.
pub Writes-query : (q : ℕ → Query) → Writes (await now >>= λ time. await (find_jobs (q time)))
Writes-query q = Writes->>= (Writes-await now tt) (λ time. Writes-await (find_jobs (q time)) tt)

pub ruleset write_rules = (
  Writes-ret, Writes-throw, Writes-try_catch, Writes-if, Writes->>=, Writes->>, Writes-await,
  Writes-fire_and_forget, tt,
)
