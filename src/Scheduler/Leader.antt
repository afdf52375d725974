-- ===== src/Scheduler/Leader.antt =====
-- services/scheduler-service/src: leader-election/leader.service.ts and the loop of scheduler.ts.
-- Several schedulers share one key in Redis, which they take with an expiry; the one that holds it
-- sweeps. Redis is a parameter, and so is how its clock runs.
pub mod Lease
pub mod Election
pub mod Turns
use distributed_task_platfor.Prelude.{
  ℕ, ◌+◌, ◌-◌, ◌≡◌, Bool, true, false, Option, none, some, ◌==◌, ltb, is_none, is_some, opt_eq,
  if◌then◌else◌,
}

-- LEADER_LOCK_TTL_SECONDS
abbrev pub leader_lock_ttl_seconds : ℕ
leader_lock_ttl_seconds = 15

-- What the key holds, and for how many more seconds.
abbrev pub Lease : Type 0
Lease = Option (ℕ × ℕ)

abbrev pub holder : Lease → Option ℕ
holder none = none
holder (some l) = some l.0

-- What SET NX EX, EXPIRE and the clock make of it.
abbrev pub taken : ℕ → ℕ → Lease → Lease
taken value seconds none = some (value, seconds)
taken value seconds (some l) = some l

abbrev pub prolonged : ℕ → Lease → Lease
prolonged seconds none = none
prolonged seconds (some l) = some (l.0, seconds)

abbrev pub lapsed : ℕ → Lease → Lease
lapsed n none = none
lapsed n (some l) = if ltb n l.1 then some (l.0, l.1 - n) else none

abbrev pub one_if : Bool → ℕ
one_if b = if b then 1 else 0

-- The commands of Redis on the key REDIS_KEYS.SCHEDULER_LEADER, and their documented behaviour on
-- what the key holds.
pub record RedisLock : Type 1 where
  pub Server : Type 0
  pub get : Server → Option ℕ
  pub set_nx_ex : ℕ → ℕ → Server → Bool × Server
  pub expire : ℕ → Server → ℕ × Server
  pub del : Server → ℕ × Server
  pub pass : ℕ → Server → Server
  pub lease : Server → Lease
  pub get_law : (s : Server) → get s ≡ holder (lease s)
  pub set_law :
      (v t : ℕ) (s : Server)
      → ((set_nx_ex v t s).0 ≡ is_none (lease s))
        × (lease (set_nx_ex v t s).1 ≡ taken v t (lease s))
  pub expire_law :
      (t : ℕ) (s : Server)
      → ((expire t s).0 ≡ one_if (is_some (lease s)))
        × (lease (expire t s).1 ≡ prolonged t (lease s))
  pub del_law : (s : Server) → ((del s).0 ≡ one_if (is_some (lease s))) × (lease (del s).1 ≡ none)
  pub pass_law : (n : ℕ) (s : Server) → lease (pass n s) ≡ lapsed n (lease s)

-- Where a scheduler stands in the loop of runScheduler: at its head, before each of the awaited
-- calls that decide about the round, at the sweeps, and after the shutdown.
pub data Phase : Type 0 where
  looking acquiring renewing sweeping stopped : Phase

module _ (redis : RedisLock) where
  open redis use {Server, get, set_nx_ex, expire, del, pass}

  -- The server, and the gauge `scheduler_leader` of each scheduler's own process.
  pub record Cluster : Type 0 where
    pub server : Server
    pub gauge : ℕ → ℕ

  abbrev pub set_gauge : ℕ → ℕ → Cluster → Cluster
  set_gauge id n c = record c { gauge = λ k. if k == id then n else c.gauge k }

  -- acquireLeadership
  unfoldable pub acquire_leadership : ℕ → Cluster → Bool × Cluster
  acquire_leadership id c =
      let (acquired, s) = set_nx_ex id leader_lock_ttl_seconds c.server in
      let c' : Cluster = record c { server = s } in
      (acquired, if acquired then set_gauge id 1 c' else c')

  -- isLeader
  unfoldable pub is_leader : ℕ → Cluster → Bool
  is_leader id c = opt_eq (get c.server) (some id)

  -- assertLeader
  unfoldable pub assert_leader : ℕ → Cluster → Bool × Cluster
  unfolding is_leader
  assert_leader id c = if is_leader id c then (true, c) else (false, set_gauge id 0 c)

  -- executeIfLeader
  unfoldable pub execute_if_leader :
      {A : Type 0} → ℕ → (Cluster → A × Cluster) → Cluster → Option A × Cluster
  unfolding assert_leader
  execute_if_leader id action c =
      let (has_leadership, c') = assert_leader id c in
      if has_leadership then (let (a, c'') = action c' in (some a, c'')) else (none, c')

  -- The script of renewLeadership.
  unfoldable pub renew_script : ℕ → ℕ → Server → ℕ × Server
  renew_script id seconds s = if opt_eq (get s) (some id) then expire seconds s else (0, s)

  -- renewLeadership
  unfoldable pub renew_leadership : ℕ → Cluster → Bool × Cluster
  unfolding renew_script
  renew_leadership id c =
      let (result, s) = renew_script id leader_lock_ttl_seconds c.server in
      let c' : Cluster = record c { server = s } in
      if result == 0 then (false, set_gauge id 0 c') else (true, c')

  -- The script of releaseLeadership.
  unfoldable pub release_script : ℕ → Server → ℕ × Server
  release_script id s = if opt_eq (get s) (some id) then del s else (0, s)

  -- releaseLeadership
  unfoldable pub release_leadership : ℕ → Cluster → Cluster
  unfolding release_script
  release_leadership id c =
      let (result, s) = release_script id c.server in
      let c' : Cluster = record c { server = s } in if result == 1 then set_gauge id 0 c' else c'

  -- The schedulers and the server. `age` counts the seconds since a scheduler's last
  -- renewal; the code does not keep it. A call is served and answered at one moment.
  pub record System : Type 0 where
    pub phase : ℕ → Phase
    pub cluster : Cluster
    pub age : ℕ → ℕ

  abbrev pub goto : ℕ → Phase → System → System
  goto id p s = record s { phase = λ k. if k == id then p else s.phase k }

  abbrev pub restart_age : ℕ → System → System
  restart_age id s = record s { age = λ k. if k == id then 0 else s.age k }

  -- One round of the loop, a call at a time: what the scheduler does next, by where it stands. A
  -- round that does not lead sleeps and starts again; so does one that has swept.
  unfoldable pub proceed : ℕ → Phase → System → System
  unfolding is_leader acquire_leadership renew_leadership
  proceed id looking s = goto id (if is_leader id s.cluster then renewing else acquiring) s
  proceed id acquiring s =
      let (acquired, c) = acquire_leadership id s.cluster in
      goto id (if acquired then renewing else looking) (record s { cluster = c })
  proceed id renewing s =
      let (renewed, c) = renew_leadership id s.cluster in
      let s' : System = record s { cluster = c } in
      if renewed then restart_age id (goto id sweeping s') else goto id looking s'
  proceed id sweeping s = goto id looking s
  proceed id stopped s = s

  unfoldable pub move : ℕ → System → System
  unfolding proceed
  move id s = proceed id (s.phase id) s

  -- The catch of the loop: a call that is rejected, whether or not the server has served it.
  unfoldable pub reject : ℕ → System → System
  reject id s = goto id looking s

  unfoldable pub lose_reply : ℕ → Phase → System → System
  unfolding acquire_leadership renew_leadership reject
  lose_reply id acquiring s =
      let (r, server) = set_nx_ex id leader_lock_ttl_seconds s.cluster.server in
      reject id (record s { cluster = record s.cluster { server = server } })
  lose_reply id renewing s =
      let (r, server) = renew_script id leader_lock_ttl_seconds s.cluster.server in
      reject id (record s { cluster = record s.cluster { server = server } })
  lose_reply id p s = reject id s

  -- shutdown, once the loop has ended.
  unfoldable pub shut_down : ℕ → System → System
  unfolding release_leadership
  shut_down id s = goto id stopped (record s { cluster = release_leadership id s.cluster })

  unfoldable pub wait : ℕ → System → System
  wait n s = record s {
    cluster = record s.cluster { server = pass n s.cluster.server };
    age = λ k. s.age k + n;
  }

  -- What can happen next. A scheduler that has stopped does nothing more.
  pub data Step : System → System → Type 0 where
    moves : (id : ℕ) (s : System) → Step s (move id s)
    rejects : (id : ℕ) (s : System) → (s.phase id ≡ stopped → ⊥) → Step s (reject id s)
    loses :
        (id : ℕ) (s : System) → (s.phase id ≡ stopped → ⊥) → Step s (lose_reply id (s.phase id) s)
    shuts : (id : ℕ) (s : System) → s.phase id ≡ looking → Step s (shut_down id s)
    waits : (n : ℕ) (s : System) → Step s (wait n s)

  -- All schedulers at the head of their loops, on a server whose key nobody holds.
  unfoldable pub IsInitial : System → Type 0
  IsInitial s = ((k : ℕ) → s.phase k ≡ looking) × (redis.lease s.cluster.server ≡ none)

  pub data Reachable : System → Type 0 where
    starts : (s : System) → IsInitial s → Reachable s
    steps : (s t : System) → Reachable s → Step s t → Reachable t
