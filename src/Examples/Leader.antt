-- ===== src/Examples/Leader.antt =====
-- Schedulers 1 and 2 and a key in memory.
use distributed_task_platfor.Prelude.{ℕ, ◌≡◌, refl, none, some, is_none, is_some, arith}
use distributed_task_platfor.Scheduler.Leader.{
  Lease, holder, taken, prolonged, lapsed, one_if, RedisLock, looking, acquiring, sweeping, System,
  IsInitial, Reachable, starts, steps, moves, move, wait,
}
use distributed_task_platfor.Scheduler.Leader.Election.{leaders_are_one}
use distributed_task_platfor.Scheduler.Leader.Turns.{
  Leads, round, succession, sweeps_overlap, follower_waits,
}

abbrev key_in_memory : RedisLock
key_in_memory = record {
  Server = Lease;
  get = holder;
  set_nx_ex = λ v t s. (is_none s, taken v t s);
  expire = λ t s. (one_if (is_some s), prolonged t s);
  del = λ s. (one_if (is_some s), none);
  pass = lapsed;
  lease = λ s. s;
  get_law = λ s. refl;
  set_law = λ v t s. (refl, refl);
  expire_law = λ t s. (refl, refl);
  del_law = λ s. (refl, refl);
  pass_law = λ n s. refl;
}

abbrev idle_schedulers : System key_in_memory
idle_schedulers = record {
  phase = λ k. looking;
  cluster = record { server = none; gauge = λ k. 0 };
  age = λ k. 0;
}

idle-Reachable : Reachable key_in_memory idle_schedulers
unfolding IsInitial
idle-Reachable = starts idle_schedulers (λ k. refl, refl)

abbrev scheduler_1_sweeps : System key_in_memory
scheduler_1_sweeps = round key_in_memory 1 idle_schedulers

scheduler_1_sweeps-Reachable : Reachable key_in_memory scheduler_1_sweeps
scheduler_1_sweeps-Reachable =
    steps _ _ (steps _ _ (steps _ _ idle-Reachable (moves 1 _)) (moves 1 _)) (moves 1 _)

at_1 : scheduler_1_sweeps.phase 1 ≡ sweeping
unfolding move
at_1 = refl

at_2 : scheduler_1_sweeps.phase 2 ≡ looking
unfolding move
at_2 = refl

fresh : scheduler_1_sweeps.age 1 ≡ 0
unfolding move
fresh = refl

held_for_15 : scheduler_1_sweeps.cluster.server ≡ some (1, 15)
unfolding move
held_for_15 = refl

leaders_are_one_example : (holder scheduler_1_sweeps.cluster.server ≡ some 1) × (◌≡◌ {A = ℕ} 1 1)
leaders_are_one_example =
    leaders_are_one key_in_memory scheduler_1_sweeps scheduler_1_sweeps-Reachable 1 1 at_1 at_1
      (omega (arith, fresh)) (omega (arith, fresh))

succession_example :
    Leads key_in_memory 2
      (wait key_in_memory 20 scheduler_1_sweeps)
      (round key_in_memory 2 (wait key_in_memory 20 scheduler_1_sweeps))
succession_example =
    succession key_in_memory scheduler_1_sweeps 20 2 scheduler_1_sweeps-Reachable (omega arith) at_2

sweeps_overlap_example :
    Leads key_in_memory 2
      (wait key_in_memory 15 scheduler_1_sweeps)
      (round key_in_memory 2 (wait key_in_memory 15 scheduler_1_sweeps))
    × ((round key_in_memory 2 (wait key_in_memory 15 scheduler_1_sweeps)).phase 1 ≡ sweeping)
    × Reachable key_in_memory (round key_in_memory 2 (wait key_in_memory 15 scheduler_1_sweeps))
sweeps_overlap_example =
    sweeps_overlap key_in_memory scheduler_1_sweeps 1 2 scheduler_1_sweeps-Reachable at_1 at_2

follower_waits_example :
    let t = move key_in_memory 2 (move key_in_memory 2 scheduler_1_sweeps) in
    (t.phase 2 ≡ looking)
    × (t.cluster.server ≡ some (1, 15))
    × (t.cluster.gauge ≡ scheduler_1_sweeps.cluster.gauge)
    × ((move key_in_memory 2 scheduler_1_sweeps).phase 2 ≡ acquiring)
follower_waits_example =
    follower_waits key_in_memory scheduler_1_sweeps 2 1 15 at_2 held_for_15 refl
