-- ===== src/Scheduler/Leader/Turns.antt =====
-- leader.service.ts and the loop of scheduler.ts: how the lead is taken, kept from others and lost.
use distributed_task_platfor.Prelude.{
  ℕ, ◌≤◌, ◌≡◌, refl, inl, inr, true, false, none, some, ◌==◌, ==_refl, ==_iff, Bool-cases, arith,
}
use distributed_task_platfor.Scheduler.Leader.{
  Lease, lapsed, RedisLock, looking, acquiring, renewing, sweeping, leader_lock_ttl_seconds,
  Cluster, System, goto, restart_age, is_leader, acquire_leadership, renew_leadership, proceed,
  move, wait, moves, waits, Reachable, steps,
}
use distributed_task_platfor.Scheduler.Leader.Lease.{
  Bounded, held_by, get-held_by, renew_leadership-lease, renew_leadership-gauge,
  acquire_leadership-lease,
}
use distributed_task_platfor.Scheduler.Leader.Election.{Reachable-Inv}

module _ (redis : RedisLock) where
  open redis use {Server, lease, pass_law, set_law, set_nx_ex}

  -- The round of a scheduler that takes the key: three calls.
  abbrev pub round : ℕ → System redis → System redis
  round i s = move redis i (move redis i (move redis i s))

  -- What a scheduler's round leaves when nobody holds the key at its start.
  pub record Leads (i : ℕ) (s t : System redis) : Type 0 where
    pub sweeps : t.phase i ≡ sweeping
    pub holds : lease t.cluster.server ≡ some (i, leader_lock_ttl_seconds)
    pub renewed_now : t.age i ≡ 0
    pub shown : t.cluster.gauge i ≡ 1
    pub others_stay : (j : ℕ) → (j == i) ≡ false → t.phase j ≡ s.phase j

  look-free :
      (i : ℕ) (s : System redis)
      → s.phase i ≡ looking
      → lease s.cluster.server ≡ none
      → move redis i s ≡ goto redis i acquiring s
  unfolding move proceed is_leader
  look-free i s at free = rw (at, get-held_by redis i s.cluster.server, free)

  abbrev acquired : ℕ → System redis → System redis
  acquired i s =
      goto redis i renewing (record s { cluster = (acquire_leadership redis i s.cluster).1 })

  acquire-free :
      (i : ℕ) (s : System redis)
      → s.phase i ≡ acquiring
      → lease s.cluster.server ≡ none
      → move redis i s ≡ acquired i s
  unfolding move proceed
  acquire-free i s at free =
      let (e, l) = acquire_leadership-lease redis i s.cluster in rw (at, e, free)

  abbrev led : ℕ → System redis → System redis
  led i s =
      restart_age redis i
        (goto redis i sweeping (record s { cluster = (renew_leadership redis i s.cluster).1 }))

  renew-held :
      (i : ℕ) (s : System redis)
      → s.phase i ≡ renewing
      → held_by i (lease s.cluster.server) ≡ true
      → move redis i s ≡ led i s
  unfolding move proceed
  renew-held i s at held = let (e, l) = renew_leadership-lease redis i s.cluster in rw (at, e, held)

  acquire-gauge :
      (i : ℕ) (c : Cluster redis)
      → lease c.server ≡ none
      → (acquire_leadership redis i c).1.gauge i ≡ 1
  unfolding acquire_leadership
  acquire-gauge i c free = rw ((set_law i leader_lock_ttl_seconds c.server).0, free, ==_refl i)

  round-Leads :
      (i : ℕ) (s : System redis)
      → s.phase i ≡ looking
      → lease s.cluster.server ≡ none
      → Leads i s (round i s)
  round-Leads i s at free =
      let s1 = goto redis i acquiring s in
      let s2 = acquired i s1 in
      let (e, l) = acquire_leadership-lease redis i s.cluster in
      let held : held_by i (lease s2.cluster.server) ≡ true = rw (l, free, ==_refl i) in
      rw
        (
          look-free i s at free,
          acquire-free i s1 (rw (==_refl i)) free,
          renew-held i s2 (rw (==_refl i)) held,
        )
        (record {
          sweeps = rw (==_refl i);
          holds = rw ((renew_leadership-lease redis i s2.cluster).1, l, free, ==_refl i);
          renewed_now = rw (==_refl i);
          shown =
              rw (renew_leadership-gauge redis i i s2.cluster held, acquire-gauge i s.cluster free);
          others_stay = λ j n. rw (n);
        })

  -- Whatever has happened before: when a lease's time passes without a call, the first scheduler at
  -- the head of its loop that makes its three calls holds the key for a whole lease, shows it on
  -- its gauge and sweeps, while the others stay where they were.
  pub succession :
      (s : System redis) (n i : ℕ)
      → Reachable redis s
      → leader_lock_ttl_seconds ≤ n
      → s.phase i ≡ looking
      → Leads i (wait redis n s) (round i (wait redis n s))
  unfolding wait
  succession s n i reached le at = round-Leads i (wait redis n s) at (
      rw (pass_law n s.cluster.server)
        (all_lapsed (lease s.cluster.server) (Reachable-Inv redis reached).bounded))
    where
      all_lapsed : (l : Lease) → Bounded l → lapsed n l ≡ none
      all_lapsed none b = refl
      all_lapsed (some l) b = ground (arith, le, b)

  round-Reachable : (i : ℕ) (s : System redis) → Reachable redis s → Reachable redis (round i s)
  round-Reachable i s reached =
      steps _ _ (steps _ _ (steps _ _ reached (moves i _)) (moves i _)) (moves i _)

  -- A scheduler is not stopped in its sweeps: when a lease's time passes while it sweeps, another one
  -- at the head of its loop that makes its three calls then holds the key for a whole lease and
  -- sweeps, and the first one is still at its sweeps. The schedulers can get there.
  pub sweeps_overlap :
      (s : System redis) (i j : ℕ)
      → Reachable redis s
      → s.phase i ≡ sweeping
      → s.phase j ≡ looking
      → Leads j
          (wait redis leader_lock_ttl_seconds s)
          (round j (wait redis leader_lock_ttl_seconds s))
        × ((round j (wait redis leader_lock_ttl_seconds s)).phase i ≡ sweeping)
        × Reachable redis (round j (wait redis leader_lock_ttl_seconds s))
  unfolding wait
  sweeps_overlap s i j reached at_i at_j =
      let late = wait redis leader_lock_ttl_seconds s in
      let led = succession s leader_lock_ttl_seconds j reached (omega arith) at_j in
      (
        led,
        elim (Bool-cases (i == j)) [
          | inl y ↦ absurd (cc (at_i, at_j, (==_iff i j).0 y))
          | inr n ↦ rw (led.others_stay i n, at_i)
        ],
        round-Reachable j late (steps _ _ reached (waits leader_lock_ttl_seconds s)),
      )

  look-held :
      (i j r : ℕ) (s : System redis)
      → s.phase i ≡ looking
      → lease s.cluster.server ≡ some (j, r)
      → (j == i) ≡ false
      → move redis i s ≡ goto redis i acquiring s
  unfolding move proceed is_leader
  look-held i j r s at held other = rw (at, get-held_by redis i s.cluster.server, held, other)

  acquire-held :
      (i j r : ℕ) (c : Cluster redis)
      → lease c.server ≡ some (j, r)
      → ((acquire_leadership redis i c).0 ≡ false)
        × ((acquire_leadership redis i c).1.gauge ≡ c.gauge)
        × (lease (acquire_leadership redis i c).1.server ≡ some (j, r))
  unfolding acquire_leadership
  acquire-held i j r c held =
      let (e, l) = set_law i leader_lock_ttl_seconds c.server in
      (rw (e, held), rw (e, held), rw (e, held) (rw (l, held)))

  acquire-refused :
      (k : ℕ) (t : System redis)
      → t.phase k ≡ acquiring
      → (acquire_leadership redis k t.cluster).0 ≡ false
      → move redis k t
        ≡ goto redis k looking (record t { cluster = (acquire_leadership redis k t.cluster).1 })
  unfolding move proceed
  acquire-refused k t at e = rw (at, e)

  -- A scheduler at the head of its loop that finds the key held by another makes two calls and is
  -- at the head again, without having swept; the key, its time and every gauge are as they were,
  -- its own one too.
  pub follower_waits :
      (s : System redis) (i j r : ℕ)
      → s.phase i ≡ looking
      → lease s.cluster.server ≡ some (j, r)
      → (j == i) ≡ false
      → let t = move redis i (move redis i s) in
        (t.phase i ≡ looking)
        × (lease t.cluster.server ≡ some (j, r))
        × (t.cluster.gauge ≡ s.cluster.gauge)
        × ((move redis i s).phase i ≡ acquiring)
  follower_waits s i j r at held other =
      let (e, g, l) = acquire-held i j r s.cluster held in
      rw (look-held i j r s at held other) (
        rw (acquire-refused i (goto redis i acquiring s) (rw (==_refl i)) e)
          (rw (==_refl i), l, g, rw (==_refl i)))
