-- ===== src/Scheduler/Monitor.antt =====
-- worker-monitor.ts and services/worker-monitor.service.ts of the scheduler. The gauges and the
-- console are left out.
use distributed_task_platfor.Prelude.{
  ℕ, ◌+◌, Bool, true, false, Option, none, some, List, [], ◌∷◌, ◌==◌, leb, is_some, if◌then◌else◌,
}
use distributed_task_platfor.Effects.{
  load_worker, smembers_active, srem_active, Prog, ret, ◌>>=◌, ◌>>◌, await, try_catch,
}
use distributed_task_platfor.Scheduler.Recovery.{recover_worker_jobs}

-- const MISS_THRESHOLD
abbrev pub miss_threshold : ℕ
miss_threshold = 3

-- The map missedHeartbeats, read only through `get(workerId) ?? 0`: an absent key is a 0.
abbrev pub Misses : Type 0
Misses = ℕ → ℕ

-- missedHeartbeats.set, and its delete as a write of 0.
abbrev pub set_misses : ℕ → ℕ → Misses → Misses
set_misses worker_id n misses w = if w == worker_id then n else misses w

-- isWorkerAlive
abbrev pub is_worker_alive : ℕ → Prog Bool
is_worker_alive worker_id = do data_ ← await (load_worker worker_id); ret (is_some data_)

-- A step of the loop that threw ends the loop, and the map keeps what was written to it.
abbrev pub catching : {A : Type 0} → Prog A → Prog (Option A)
catching m = try_catch (m >>= λ a. ret (some a)) (λ _. ret none)

-- The recovery of a worker that is declared dead.
abbrev pub bury : ℕ → Prog (Option ℕ)
bury worker_id =
    catching
      (do recovered ← recover_worker_jobs worker_id; await (srem_active worker_id); ret recovered)

-- The loop of monitorWorkers, with the rest of the loop as `next`.
abbrev pub after_bury : Misses → (Misses → Prog Misses) → Option ℕ → Prog Misses
after_bury misses next none = ret misses
after_bury misses next (some recovered) = next misses

abbrev pub after_check : Misses → ℕ → (Misses → Prog Misses) → Option Bool → Prog Misses
after_check misses worker_id next none = ret misses
after_check misses worker_id next (some true) = next (set_misses worker_id 0 misses)
after_check misses worker_id next (some false) =
    if leb miss_threshold (misses worker_id + 1)
    then bury worker_id >>= after_bury (set_misses worker_id 0 misses) next
    else next (set_misses worker_id (misses worker_id + 1) misses)

abbrev pub monitor_all : List ℕ → Misses → Prog Misses
monitor_all [] misses = ret misses
monitor_all (w ∷ ws) misses = catching (is_worker_alive w) >>= after_check misses w (monitor_all ws)

abbrev pub monitor_active : Misses → Option (List ℕ) → Prog Misses
monitor_active misses none = ret misses
monitor_active misses (some workers) = monitor_all workers misses

-- monitorWorkers
unfoldable pub monitor_workers : Misses → Prog Misses
monitor_workers misses = catching (await smembers_active) >>= monitor_active misses
