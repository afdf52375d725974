-- ===== src/Scheduler/Leader/Election.antt =====
-- leader.service.ts and the loop of scheduler.ts: at most one scheduler leads while its renewal is
-- younger than the lease.
use distributed_task_platfor.Prelude.{
  ℕ, ◌<◌, ◌≡◌, inl, inr, Bool, true, false, none, some, ◌==◌, ==_iff, Bool-cases, arith,
  if◌then◌else◌,
}
use distributed_task_platfor.Scheduler.Leader.{
  Lease, holder, taken, RedisLock, Phase, looking, acquiring, renewing, sweeping, stopped,
  leader_lock_ttl_seconds, Cluster, System, goto, restart_age, is_leader, acquire_leadership,
  renew_leadership, renew_script, proceed, move, reject, lose_reply, shut_down, wait, IsInitial,
  Step, moves, rejects, loses, shuts, waits, Reachable, starts, steps,
}
use Lease.{
  Kept, Bounded, held_by, renewed, Kept-taken, Kept-renewed, Kept-released, Kept-lapsed,
  Bounded-taken, Bounded-renewed, Bounded-released, Bounded-lapsed, acquire_leadership-lease,
  renew_leadership-lease, renew_script-lease, release_leadership-lease,
}

Kept-goto :
    (i id : ℕ) (p q : Phase) (a : ℕ) (l : Lease)
    → (p ≡ sweeping → ⊥)
    → Kept i q a l
    → Kept i (if i == id then p else q) a l
Kept-goto i id p q a l no_sweep k = elim (Bool-cases (i == id)) [
  | inl y ↦ rw y (λ e. absurd (no_sweep e))
  | inr n ↦ rw n k
]

module _ (redis : RedisLock) where
  open redis use {Server, lease, pass_law, set_law, set_nx_ex}

  pub record Inv (s : System redis) : Type 0 where
    pub kept : (i : ℕ) → Kept i (s.phase i) (s.age i) (lease s.cluster.server)
    pub bounded : Bounded (lease s.cluster.server)

  -- A scheduler goes elsewhere than to its sweeps, with the server as it was.
  goto-Inv :
      (id : ℕ) (p : Phase) (s : System redis) → (p ≡ sweeping → ⊥) → Inv s → Inv (goto redis id p s)
  goto-Inv id p s no_sweep inv = record {
    kept =
        λ i. Kept-goto i id p (s.phase i) (s.age i) (lease s.cluster.server) no_sweep (inv.kept i);
    bounded = inv.bounded;
  }

  -- The server's lease becomes another.
  module _ (s : System redis) (inv : Inv s) (c : Cluster redis) where
    taken-Inv :
        (j : ℕ)
        → lease c.server ≡ taken j leader_lock_ttl_seconds (lease s.cluster.server)
        → Inv (record s { cluster = c })
    taken-Inv j e = record {
      kept = λ i. rw e (Kept-taken i j (s.phase i) (s.age i) (lease s.cluster.server) (inv.kept i));
      bounded = rw e (Bounded-taken j (lease s.cluster.server) inv.bounded);
    }

    renewed-Inv :
        (j : ℕ)
        → lease c.server ≡ renewed j (lease s.cluster.server)
        → Inv (record s { cluster = c })
    renewed-Inv j e = record {
      kept =
          λ i. rw e (Kept-renewed i j (s.phase i) (s.age i) (lease s.cluster.server) (inv.kept i));
      bounded = rw e (Bounded-renewed j (lease s.cluster.server) inv.bounded);
    }

  -- A renewal is answered by a whole lease.
  held_by-renewed :
      (id : ℕ) (l : Lease) → held_by id l ≡ true → renewed id l ≡ some (id, leader_lock_ttl_seconds)
  held_by-renewed id none y = absurd (cc y)
  held_by-renewed id (some l) y = rw (y, (==_iff l.0 id).0 y)

  sweep-Inv :
      (id : ℕ) (s : System redis)
      → Inv s
      → (c : Cluster redis) → held_by id (lease s.cluster.server) ≡ true
      → lease c.server ≡ renewed id (lease s.cluster.server)
      → Inv (restart_age redis id (goto redis id sweeping (record s { cluster = c })))
  sweep-Inv id s inv c y e = record {
    kept = λ i. elim (Bool-cases (i == id)) [
      | inl same ↦ λ p lt. (
        leader_lock_ttl_seconds,
        rw (e, held_by-renewed id (lease s.cluster.server) y, (==_iff i id).0 same),
        omega arith,
      )
      | inr other ↦ rw other ((renewed-Inv s inv c id e).kept i)
    ];
    bounded = (renewed-Inv s inv c id e).bounded;
  }

  move-Inv : (id : ℕ) (p : Phase) (s : System redis) → Inv s → Inv (proceed redis id p s)
  unfolding proceed
  move-Inv id looking s inv =
      goto-Inv id (if is_leader redis id s.cluster then renewing else acquiring) s
        (heads (is_leader redis id s.cluster)) inv
    where
      heads : (b : Bool) → (if b then renewing else acquiring) ≡ sweeping → ⊥
      heads true e = cc e
      heads false e = cc e
  move-Inv id acquiring s inv =
      let (r, e) = acquire_leadership-lease redis id s.cluster in
      let c = (acquire_leadership redis id s.cluster).1 in
      goto-Inv id (if (acquire_leadership redis id s.cluster).0 then renewing else looking)
        (record s { cluster = c }) (tails (acquire_leadership redis id s.cluster).0)
        (taken-Inv s inv c id e)
    where
      tails : (b : Bool) → (if b then renewing else looking) ≡ sweeping → ⊥
      tails true e = cc e
      tails false e = cc e
  move-Inv id renewing s inv =
      let (r, e) = renew_leadership-lease redis id s.cluster in
      let c = (renew_leadership redis id s.cluster).1 in
      elim (Bool-cases (held_by id (lease s.cluster.server))) [
        | inl y ↦ rw (r, y) (sweep-Inv id s inv c y e)
        | inr n ↦
            rw (r, n)
              (goto-Inv id looking (record s { cluster = c }) (λ e'. cc e')
                (renewed-Inv s inv c id e))
      ]
  move-Inv id sweeping s inv = goto-Inv id looking s (λ e. cc e) inv
  move-Inv id stopped s inv = inv

  reject-Inv : (id : ℕ) (s : System redis) → Inv s → Inv (reject redis id s)
  unfolding reject
  reject-Inv id s inv = goto-Inv id looking s (λ e. cc e) inv

  lose_reply-Inv : (id : ℕ) (p : Phase) (s : System redis) → Inv s → Inv (lose_reply redis id p s)
  unfolding lose_reply
  lose_reply-Inv id looking s inv = reject-Inv id s inv
  lose_reply-Inv id acquiring s inv =
      let server = (set_nx_ex id leader_lock_ttl_seconds s.cluster.server).1 in
      reject-Inv id _ (
        taken-Inv s inv (record s.cluster { server = server }) id
          (set_law id leader_lock_ttl_seconds s.cluster.server).1)
  lose_reply-Inv id renewing s inv =
      let server = (renew_script redis id leader_lock_ttl_seconds s.cluster.server).1 in
      reject-Inv id _ (
        renewed-Inv s inv (record s.cluster { server = server }) id
          (renew_script-lease redis id s.cluster.server))
  lose_reply-Inv id sweeping s inv = reject-Inv id s inv
  lose_reply-Inv id stopped s inv = reject-Inv id s inv

  -- A scheduler that shuts down was not sweeping; the others keep what they hold.
  shut_down-Inv :
      (id : ℕ) (s : System redis) → s.phase id ≡ looking → Inv s → Inv (shut_down redis id s)
  unfolding shut_down
  shut_down-Inv id s at inv =
      let e = release_leadership-lease redis id s.cluster in
      record {
        kept = λ i. elim (Bool-cases (i == id)) [
          | inl y ↦ rw y (λ p. absurd (cc p))
          | inr n ↦
              rw (n, e)
                (Kept-released i id (s.phase i) (s.age i) (lease s.cluster.server) n (inv.kept i))
        ];
        bounded = rw e (Bounded-released id (lease s.cluster.server) inv.bounded);
      }

  wait-Inv : (n : ℕ) (s : System redis) → Inv s → Inv (wait redis n s)
  unfolding wait
  wait-Inv n s inv = record {
    kept = λ i.
        rw (pass_law n s.cluster.server)
          (Kept-lapsed i n (s.phase i) (s.age i) (lease s.cluster.server) (inv.kept i));
    bounded =
        rw (pass_law n s.cluster.server) (Bounded-lapsed n (lease s.cluster.server) inv.bounded);
  }

  Step-Inv : {s t : System redis} → Step redis s t → Inv s → Inv t
  unfolding move
  Step-Inv (moves id s) inv = move-Inv id (s.phase id) s inv
  Step-Inv (rejects id s running) inv = reject-Inv id s inv
  Step-Inv (loses id s running) inv = lose_reply-Inv id (s.phase id) s inv
  Step-Inv (shuts id s at) inv = shut_down-Inv id s at inv
  Step-Inv (waits n s) inv = wait-Inv n s inv

  pub Reachable-Inv : {s : System redis} → Reachable redis s → Inv s
  unfolding IsInitial
  Reachable-Inv (starts s (heads, free)) = record {
    kept = λ i e. absurd (cc (heads i, e));
    bounded = rw (free) tt;
  }
  Reachable-Inv (steps s t before now) = Step-Inv now (Reachable-Inv before)

  -- However the calls of any number of schedulers interleave, fail and lose their replies, and
  -- however time passes between them: of two schedulers that sweep, each less than a lease's time
  -- after its renewal, the first holds the key, and they are the same.
  pub leaders_are_one :
      (s : System redis)
      → Reachable redis s
      → (i j : ℕ) → s.phase i ≡ sweeping
      → s.phase j ≡ sweeping
      → s.age i < leader_lock_ttl_seconds
      → s.age j < leader_lock_ttl_seconds
      → (holder (lease s.cluster.server) ≡ some i) × (i ≡ j)
  leaders_are_one s reached i j at_i at_j young_i young_j =
      let inv = Reachable-Inv reached in
      let (r, held_i, le) = inv.kept i at_i young_i in
      let (q, held_j, le') = inv.kept j at_j young_j in (rw held_i, cc (held_i, held_j))
