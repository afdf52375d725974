-- ===== src/Effects/Single.antt =====
-- One handler alone, against a service whose calls succeed: what it returns and where it leaves
-- a row. A program's end is described by a predicate on its outcome and on the world.
use distributed_task_platfor.Prelude.{
  ℕ, ◌≡◌, refl, Bool, Option, none, some, sym, subst, ◌∙◌, if◌then◌else◌,
}
use distributed_task_platfor.Jobs.{Job, Error}
use distributed_task_platfor.Effects.{
  Call, find_job, update_job, update_jobs, complete_job, create_job, Reply, Settled, resolved,
  rejected, Prog, ret, throw, call, ◌>>=◌, settle, await, try_catch,
}
use distributed_task_platfor.Effects.Interleave.{touch, Store}

-- The number of rows that an update by id changes, and the row that it leaves.
abbrev pub hits : (Job → Bool) → Option Job → ℕ
hits where_ none = 0
hits where_ (some j) = if where_ j then 1 else 0

abbrev pub written : ℕ → (Job → Bool) → (Job → Job) → Option Job → Option Job
written time where_ set none = none
written time where_ set (some j) = if where_ j then some (touch time (set j)) else some j

-- The calls that leave the job rows alone.
abbrev pub IsNeutral : Call → Type 0
IsNeutral (update_job id set) = ⊥
IsNeutral (update_jobs id where_ set) = ⊥
IsNeutral (complete_job id where_ set r) = ⊥
IsNeutral (create_job n) = ⊥
IsNeutral _ = Unit

-- A program of neutral calls that does not throw by itself.
abbrev pub Calm : {A : Type 0} → Prog A → Type 0
Calm (ret a) = Unit
Calm (throw e) = ⊥
Calm (call o k) = IsNeutral o × ((r : Reply o) → Calm (k (resolved r)))

module _ (store : Store) where
  open store use {World, answer, row}

  -- Every call resolves; a lookup answers the row, and an update counts and writes what its
  -- `where` selects.
  pub record IsReliable : Type 0 where
    pub time : World → ℕ
    pub find_law : (id : ℕ) (w : World) → (answer (find_job id) w).0 ≡ resolved (row w id)
    pub update_law :
        (id : ℕ) (where_ : Job → Bool) (set : Job → Job) (w : World)
        → ((answer (update_jobs id where_ set) w).0 ≡ resolved (hits where_ (row w id)))
          × (row (answer (update_jobs id where_ set) w).1 id
              ≡ written (time w) where_ set (row w id))
    pub complete_law :
        (id : ℕ) (where_ : Job → Bool) (set : Job → Job) (r : _) (w : World)
        → ((answer (complete_job id where_ set r) w).0 ≡ resolved (hits where_ (row w id)))
          × (row (answer (complete_job id where_ set r) w).1 id
              ≡ written (time w) where_ set (row w id))
    pub neutral_law :
        (o : Call) (w : World)
        → IsNeutral o
        → (r : Reply o) × ((answer o w).0 ≡ resolved r) × ((k : ℕ) → row (answer o w).1 k ≡ row w k)

  unfoldable pub exec : {A : Type 0} → Prog A → World → Settled A × World
  exec (ret a) w = (resolved a, w)
  exec (throw e) w = (rejected e, w)
  exec (call o k) w = let (r, w') = answer o w in exec (k r) w'

  unfoldable pub Ends : {A : Type 0} → Prog A → World → (Settled A → World → Type 0) → Type 0
  unfolding exec
  Ends m w Q = Q (exec m w).0 (exec m w).1

  abbrev pub Then :
      {A B : Type 0} → (A → Prog B) → (Settled B → World → Type 0) → Settled A → World → Type 0
  Then f Q (resolved a) w = Ends (f a) w Q
  Then f Q (rejected e) w = Q (rejected e) w

  abbrev pub Catch :
      {A : Type 0} → (Error → Prog A) → (Settled A → World → Type 0) → Settled A → World → Type 0
  Catch h Q (resolved a) w = Q (resolved a) w
  Catch h Q (rejected e) w = Ends (h e) w Q

  pub Ends-ret :
      {A : Type 0} (a : A) (w : World) (Q : Settled A → World → Type 0)
      → Q (resolved a) w
      → Ends (ret a) w Q
  unfolding Ends
  Ends-ret a w Q h = h

  pub Ends->>= :
      {A B : Type 0} (m : Prog A) (f : A → Prog B) (w : World) (Q : Settled B → World → Type 0)
      → Ends m w (Then f Q)
      → Ends (m >>= f) w Q
  unfolding Ends
  Ends->>= (ret a) f w Q h = h
  Ends->>= (throw e) f w Q h = h
  Ends->>= (call o k) f w Q h = Ends->>= (k (answer o w).0) f (answer o w).1 Q h

  pub Ends-try_catch :
      {A : Type 0} (m : Prog A) (g : Error → Prog A) (w : World) (Q : Settled A → World → Type 0)
      → Ends m w (Catch g Q)
      → Ends (try_catch m g) w Q
  unfolding Ends
  Ends-try_catch (ret a) g w Q h = h
  Ends-try_catch (throw e) g w Q h = h
  Ends-try_catch (call o k) g w Q h = Ends-try_catch (k (answer o w).0) g (answer o w).1 Q h

  pub Ends-mono :
      {A : Type 0} (m : Prog A) (w : World) (P Q : Settled A → World → Type 0)
      → Ends m w P
      → ((s : Settled A) (w' : World) → P s w' → Q s w')
      → Ends m w Q
  unfolding Ends
  Ends-mono m w P Q h f = f (exec m w).0 (exec m w).1 h

  Ends-settle :
      {A : Type 0} (r : Settled A) (w : World) (Q : Settled A → World → Type 0)
      → Q r w
      → Ends (settle r) w Q
  unfolding Ends
  Ends-settle (resolved a) w Q h = h
  Ends-settle (rejected e) w Q h = h

  -- A call that resolves, and the rest of its block.
  pub Ends-call :
      {B : Type 0} (o : Call) (f : Reply o → Prog B) (w : World) (Q : Settled B → World → Type 0)
      → (a : Reply o) → (answer o w).0 ≡ resolved a
      → Ends (f a) (answer o w).1 Q
      → Ends (await o >>= f) w Q
  Ends-call o f w Q a e h =
      Ends->>= (await o) f w Q
        (unfold Ends in Ends-settle (answer o w).0 (answer o w).1 (Then f Q) (rw e h))

  module _ (reliable : IsReliable) where
    Ends-Calm :
        {A : Type 0} (m : Prog A) (w : World) (k : ℕ) (Q : Settled A → World → Type 0)
        → Calm m
        → ((a : A) (w' : World) → row w' k ≡ row w k → Q (resolved a) w')
        → Ends m w Q
    unfolding Ends
    Ends-Calm (ret a) w k Q c h = h a w refl
    Ends-Calm (throw e) w k Q c h = absurd c
    Ends-Calm (call o f) w k Q c h =
        let (r, e, same) = reliable.neutral_law o w c.0 in
        let goal : Settled (Reply o) → Type 0 =
          λ s. Q (exec (f s) (answer o w).1).0 (exec (f s) (answer o w).1).1 in
        subst goal (sym e)
          (Ends-Calm (f (resolved r)) (answer o w).1 k Q (c.1 r) (λ a w' e'. h a w' (e' ∙ same k)))

    -- The same, with the rest of its block.
    pub Ends-then :
        {A B : Type 0} (m : Prog A) (f : A → Prog B) (w : World) (k : ℕ)
        (Q : Settled B → World → Type 0)
        → Calm m
        → ((a : A) (w' : World) → row w' k ≡ row w k → Ends (f a) w' Q)
        → Ends (m >>= f) w Q
    Ends-then m f w k Q c h = Ends->>= m f w Q (Ends-Calm m w k (Then f Q) c h)
