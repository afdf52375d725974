-- ===== src/Scheduler/Leader/Lease.antt =====
-- leader.service.ts: what each command and each script does to the lease, and to a claim on it.
use distributed_task_platfor.Prelude.{
  ℕ, ◌+◌, ◌-◌, ◌≤◌, ◌<◌, ◌≡◌, refl, ap, inl, inr, Bool, true, false, none, some, ◌==◌, ltb, is_none,
  is_some, opt_eq, Bool-cases, arith, if◌then◌else◌,
}
use distributed_task_platfor.Scheduler.Leader.{
  Lease, holder, taken, prolonged, lapsed, RedisLock, Phase, sweeping, leader_lock_ttl_seconds,
  acquire_leadership, renew_script, renew_leadership, release_script, release_leadership, Cluster,
}

abbrev pub held_by : ℕ → Lease → Bool
held_by id l = opt_eq (holder l) (some id)

abbrev pub renewed : ℕ → Lease → Lease
renewed id l = if held_by id l then prolonged leader_lock_ttl_seconds l else l

abbrev pub released : ℕ → Lease → Lease
released id l = if held_by id l then none else l

-- A scheduler that sweeps and renewed less than a lease's time ago holds the key for the rest of it.
abbrev pub Kept : ℕ → Phase → ℕ → Lease → Type 0
Kept i p a l =
    p ≡ sweeping
    → a < leader_lock_ttl_seconds
    → (r : ℕ) × (l ≡ some (i, r)) × (leader_lock_ttl_seconds ≤ r + a)

abbrev pub Bounded : Lease → Type 0
Bounded none = Unit
Bounded (some l) = l.1 ≤ leader_lock_ttl_seconds

pub Kept-taken :
    (i j : ℕ) (p : Phase) (a : ℕ) (l : Lease)
    → Kept i p a l
    → Kept i p a (taken j leader_lock_ttl_seconds l)
Kept-taken i j p a none k e lt = let (r, no_lease, le) = k e lt in absurd (cc no_lease)
Kept-taken i j p a (some l) k e lt = k e lt

pub Kept-renewed :
    (i j : ℕ) (p : Phase) (a : ℕ) (l : Lease) → Kept i p a l → Kept i p a (renewed j l)
Kept-renewed i j p a l k e lt =
    let (r, held, le) = k e lt in
    elim (Bool-cases (i == j)) [
      | inl y ↦ (leader_lock_ttl_seconds, rw (held, y), omega arith)
      | inr n ↦ (r, rw (held, n), le)
    ]

pub Kept-released :
    (i j : ℕ) (p : Phase) (a : ℕ) (l : Lease)
    → (i == j) ≡ false
    → Kept i p a l
    → Kept i p a (released j l)
Kept-released i j p a l n k e lt = let (r, held, le) = k e lt in (r, rw (held, n), le)

Kept-time :
    (n r a : ℕ) → leader_lock_ttl_seconds ≤ r + a → a + n < leader_lock_ttl_seconds → ltb n r ≡ true
Kept-time n r a le lt = ground arith

pub Kept-lapsed :
    (i n : ℕ) (p : Phase) (a : ℕ) (l : Lease) → Kept i p a l → Kept i p (a + n) (lapsed n l)
Kept-lapsed i n p a l k e lt =
    let (r, held, le) = k e (omega arith) in
    (r - n, rw (held, Kept-time n r a le lt), omega (arith, le, lt))

pub Bounded-taken : (j : ℕ) (l : Lease) → Bounded l → Bounded (taken j leader_lock_ttl_seconds l)
Bounded-taken j none b = omega arith
Bounded-taken j (some l) b = b

pub Bounded-renewed : (j : ℕ) (l : Lease) → Bounded l → Bounded (renewed j l)
Bounded-renewed j none b = tt
Bounded-renewed j (some l) b = ground arith

pub Bounded-released : (j : ℕ) (l : Lease) → Bounded l → Bounded (released j l)
Bounded-released j none b = tt
Bounded-released j (some l) b = ground arith

pub Bounded-lapsed : (n : ℕ) (l : Lease) → Bounded l → Bounded (lapsed n l)
Bounded-lapsed n none b = tt
Bounded-lapsed n (some l) b = ground arith

module _ (redis : RedisLock) where
  open redis use {
    Server, get, set_nx_ex, expire, del, pass, lease, get_law, set_law, expire_law, del_law,
  }

  -- GET compares like the lease does.
  pub get-held_by : (id : ℕ) (s : Server) → opt_eq (get s) (some id) ≡ held_by id (lease s)
  get-held_by id s = ap (λ o. opt_eq o (some id)) (get_law s)

  pub renew_script-lease :
      (id : ℕ) (s : Server)
      → lease (renew_script redis id leader_lock_ttl_seconds s).1 ≡ renewed id (lease s)
  unfolding renew_script
  renew_script-lease id s = elim (Bool-cases (held_by id (lease s))) [
    | inl y ↦ rw (get-held_by id s, y, (expire_law leader_lock_ttl_seconds s).1)
    | inr n ↦ rw (get-held_by id s, n)
  ]

  pub release_script-lease :
      (id : ℕ) (s : Server) → lease (release_script redis id s).1 ≡ released id (lease s)
  unfolding release_script
  release_script-lease id s = elim (Bool-cases (held_by id (lease s))) [
    | inl y ↦ rw (get-held_by id s, y, (del_law s).1)
    | inr n ↦ rw (get-held_by id s, n)
  ]

  held_by-is_some : (id : ℕ) (l : Lease) → held_by id l ≡ true → is_some l ≡ true
  held_by-is_some id none e = absurd (cc e)
  held_by-is_some id (some l) e = refl

  -- renewLeadership answers whether the key is held, and gives it its whole time again.
  pub renew_leadership-lease :
      (id : ℕ) (c : Cluster redis)
      → ((renew_leadership redis id c).0 ≡ held_by id (lease c.server))
        × (lease (renew_leadership redis id c).1.server ≡ renewed id (lease c.server))
  unfolding renew_leadership
  renew_leadership-lease id c = elim (Bool-cases (held_by id (lease c.server))) [
    | inl y ↦
        let e = held_by-is_some id (lease c.server) y in
        (
          rw (get-held_by id c.server, y, (expire_law leader_lock_ttl_seconds c.server).0, e),
          rw (
            get-held_by id c.server,
            y,
            (expire_law leader_lock_ttl_seconds c.server).0,
            e,
            (expire_law leader_lock_ttl_seconds c.server).1,
          ),
        )
    | inr n ↦ (rw (get-held_by id c.server, n), rw (get-held_by id c.server, n))
  ]

  -- A renewal that is answered leaves the gauge; one that is refused sets it to 0.
  pub renew_leadership-gauge :
      (id k : ℕ) (c : Cluster redis)
      → held_by id (lease c.server) ≡ true
      → (renew_leadership redis id c).1.gauge k ≡ c.gauge k
  unfolding renew_leadership
  renew_leadership-gauge id k c y = rw (
    get-held_by id c.server,
    y,
    (expire_law leader_lock_ttl_seconds c.server).0,
    held_by-is_some id (lease c.server) y,
  )

  pub release_leadership-lease :
      (id : ℕ) (c : Cluster redis)
      → lease (release_leadership redis id c).server ≡ released id (lease c.server)
  unfolding release_leadership
  release_leadership-lease id c = elim (Bool-cases (held_by id (lease c.server))) [
    | inl y ↦ rw (
      get-held_by id c.server,
      y,
      (del_law c.server).0,
      held_by-is_some id (lease c.server) y,
      (del_law c.server).1,
    )
    | inr n ↦ rw (get-held_by id c.server, n)
  ]

  pub acquire_leadership-lease :
      (id : ℕ) (c : Cluster redis)
      → ((acquire_leadership redis id c).0 ≡ is_none (lease c.server))
        × (lease (acquire_leadership redis id c).1.server
            ≡ taken id leader_lock_ttl_seconds (lease c.server))
  unfolding acquire_leadership
  acquire_leadership-lease id c = elim (Bool-cases (is_none (lease c.server))) [
    | inl y ↦ let (e, l) = set_law id leader_lock_ttl_seconds c.server in (e, rw (e, y, l))
    | inr n ↦ let (e, l) = set_law id leader_lock_ttl_seconds c.server in (e, rw (e, n, l))
  ]
