-- ===== src/Effects/Always.antt =====
-- A property of every call that a program can make, whatever the answers are.
use distributed_task_platfor.Effects.{
  Call, Reply, Settled, resolved, rejected, Prog, ret, throw, call, ◌>>=◌, settle, await, try_catch,
}
use distributed_task_platfor.Jobs.{Error}

abbrev pub Always : {A : Type 0} → (Call → Type 0) → Prog A → Type 0
Always P (ret a) = Unit
Always P (throw e) = Unit
Always P (call o k) = P o × ((r : Settled (Reply o)) → Always P (k r))

module _ (P : Call → Type 0) where
  pub Always->>= :
      {A B : Type 0} (m : Prog A) (f : A → Prog B)
      → Always P m
      → ((a : A) → Always P (f a))
      → Always P (m >>= f)
  Always->>= (ret a) f hm hf = hf a
  Always->>= (throw e) f hm hf = tt
  Always->>= (call o k) f hm hf = (hm.0, λ r. Always->>= (k r) f (hm.1 r) hf)

  pub Always-try_catch :
      {A : Type 0} (m : Prog A) (h : Error → Prog A)
      → Always P m
      → ((e : Error) → Always P (h e))
      → Always P (try_catch m h)
  Always-try_catch (ret a) h hm hh = tt
  Always-try_catch (throw e) h hm hh = hh e
  Always-try_catch (call o k) h hm hh = (hm.0, λ r. Always-try_catch (k r) h (hm.1 r) hh)

  pub Always-settle : {A : Type 0} (s : Settled A) → Always P (settle s)
  Always-settle (resolved a) = tt
  Always-settle (rejected e) = tt

  pub Always-await : (o : Call) → P o → Always P (await o)
  Always-await o h = (h, λ r. Always-settle r)
