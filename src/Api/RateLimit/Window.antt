-- ===== src/Api/RateLimit/Window.antt =====
-- rate-limiter.middleware.ts: how many requests of a client go on within one window.
use distributed_task_platfor.Prelude.{
  ℕ, ◌+◌, ◌-◌, ◌≤◌, ◌<◌, ◌≡◌, ◌⊎◌, ◌∙◌, sym, inl, inr, String, Bool, true, false, ◌&&◌, not, Option,
  none, some, List, [], ◌∷◌, ◌==◌, ltb, str_eq, str_eq_iff, Bool-cases, arith, if◌then◌else◌, min,
}
use distributed_task_platfor.Effects.{Settled, resolved, rejected}
use distributed_task_platfor.Api.RateLimit.{
  RateLimitConfig, Counter, value_of, bumped, expiring, ttl_of, RedisCounters, Verdict, goes_on,
  too_many, Client, key_for, ceil_seconds, rate_limiter, Ttl, after_incr, after_expire, ask_ttl,
  decide,
}

-- What reaches the limiter: a request of a client at a time of the clock, or so many seconds pass.
pub data Event : Type 0 where
  request : ℕ → Client → Event
  waits : ℕ → Event

-- How long the events take, and how many requests have the key.
unfoldable pub waited : List Event → ℕ
waited [] = 0
waited (request time c ∷ es) = waited es
waited (waits n ∷ es) = n + waited es

unfoldable pub arrivals : RateLimitConfig → String → List Event → ℕ
arrivals config k [] = 0
arrivals config k (request time c ∷ es) =
    (if str_eq (key_for config c) k then 1 else 0) + arrivals config k es
arrivals config k (waits n ∷ es) = arrivals config k es

abbrev pub passes : Verdict → Bool
passes (goes_on h) = true
passes (too_many h t) = false

module _ (redis : RedisCounters) where
  open redis use {
    Server, incr, expire, ttl, pass, counter, incr_law, expire_law, ttl_law, other_law, pass_law,
  }

  -- Redis answers every call.
  pub record Answers : Type 0 where
    pub incr_answers : (k : String) (s : Server) → (n : ℕ) × ((incr k s).0 ≡ resolved n)
    pub expire_answers : (k : String) (n : ℕ) (s : Server) → (expire k n s).0 ≡ resolved tt
    pub ttl_answers : (k : String) (s : Server) → (t : Ttl) × ((ttl k s).0 ≡ resolved t)

  module _ (config : RateLimitConfig) where
    -- How many requests with the key go on.
    unfoldable pub admitted : String → List Event → Server → ℕ
    admitted k [] s = 0
    admitted k (request time c ∷ es) s =
        let (v, s') = rate_limiter redis config time c s in
        (if str_eq (key_for config c) k && passes v then 1 else 0) + admitted k es s'
    admitted k (waits n ∷ es) s = admitted k es (pass n s)

    abbrev window : ℕ
    window = ceil_seconds config.window_ms

    pub ask_ttl-other :
        (time current : ℕ) (k k' : String) (s : Server)
        → counter (ask_ttl redis config time k current s).1 k' ≡ counter s k'
    ask_ttl-other time current k k' s = (ttl_law k s).1 k'

    -- A request with another key leaves the counter, whatever fails.
    pub limiter-other :
        (time : ℕ) (c : Client) (k : String) (s : Server)
        → str_eq (key_for config c) k ≡ false
        → counter (rate_limiter redis config time c s).1 k ≡ counter s k
    unfolding rate_limiter
    limiter-other time c k s other =
        after_incr-other (incr (key_for config c) s) (other_law (key_for config c) k 0 s other).0
      where
        after_expire-other :
            (current : ℕ) (r : Settled (Unit {0}) × Server) (x : Counter)
            → counter r.1 k ≡ x
            → counter (after_expire redis config time (key_for config c) current r).1 k ≡ x
        after_expire-other current (resolved u, s') x e =
            ask_ttl-other time current (key_for config c) k s' ∙ e
        after_expire-other current (rejected er, s') x e = e

        after_incr-other :
            (r : Settled ℕ × Server)
            → counter r.1 k ≡ counter s k
            → counter (after_incr redis config time (key_for config c) r).1 k ≡ counter s k
        after_incr-other (rejected er, s') e = e
        after_incr-other (resolved current, s') e = elim (Bool-cases (current == 1)) [
          | inl y ↦ rw y (
              after_expire-other current (expire (key_for config c) window s') (counter s k)
                ((other_law (key_for config c) k window s' other).1 ∙ e))
          | inr n ↦ rw n (ask_ttl-other time current (key_for config c) k s' ∙ e)
        ]

    module _ (answers : Answers) where
      incr-value :
          (k : String) (s : Server)
          → ((incr k s).0 ≡ resolved (value_of (counter s k) + 1))
            × (counter (incr k s).1 k ≡ bumped (counter s k))
      incr-value k s = elim (incr_law k s) [
        | inl served ↦ served
        | inr (e, failed, _) ↦ absurd (cc ((answers.incr_answers k s).1, failed))
      ]

      expire-value :
          (k : String) (n : ℕ) (s : Server)
          → ((expire k n s).0 ≡ resolved tt)
            × (counter (expire k n s).1 k ≡ expiring n (counter s k))
      expire-value k n s = elim (expire_law k n s) [
        | inl served ↦ served
        | inr (e, failed) ↦ absurd (cc (answers.expire_answers k n s, failed))
      ]

      ttl-value :
          (k : String) (s : Server)
          → ((ttl k s).0 ≡ resolved (ttl_of (counter s k))) × (counter (ttl k s).1 k ≡ counter s k)
      ttl-value k s = elim ((ttl_law k s).0) [
        | inl served ↦ (served, (ttl_law k s).1 k)
        | inr (e, failed) ↦ absurd (cc ((answers.ttl_answers k s).1, failed))
      ]

      ask_ttl-passes :
          (time current : ℕ) (k : String) (s : Server)
          → passes (ask_ttl redis config time k current s).0 ≡ not (ltb config.max_requests current)
      ask_ttl-passes time current k s =
          rw ((ttl-value k s).0) (decided (Bool-cases (ltb config.max_requests current)))
        where
          decided :
              (ltb config.max_requests current ≡ true) ⊎ (ltb config.max_requests current ≡ false)
              → passes (decide redis config time current (resolved (ttl_of (counter s k))))
                ≡ not (ltb config.max_requests current)
          decided (inl y) = rw y
          decided (inr n) = rw n

      -- A further request of the window.
      limiter-counts :
          (time : ℕ) (c : Client) (s : Server) (v : ℕ) (t : Option ℕ)
          → counter s (key_for config c) ≡ some (v, t)
          → 1 ≤ v
          → (passes (rate_limiter redis config time c s).0 ≡ not (ltb config.max_requests (v + 1)))
            × (counter (rate_limiter redis config time c s).1 (key_for config c) ≡ some (v + 1, t))
      unfolding rate_limiter
      limiter-counts time c s v t e pos =
          let (r, counted) = incr-value (key_for config c) s in
          let s' = (incr (key_for config c) s).1 in
          rw (r, e, later)
            (
              ask_ttl-passes time (v + 1) (key_for config c) s',
              ask_ttl-other time (v + 1) (key_for config c) (key_for config c) s' ∙ rw (counted, e),
            )
        where
          later : (v + 1 == 1) ≡ false
          later = ground (arith, pos)

      -- The first request of a window.
      limiter-opens :
          (time : ℕ) (c : Client) (s : Server)
          → counter s (key_for config c) ≡ none
          → (passes (rate_limiter redis config time c s).0 ≡ not (ltb config.max_requests 1))
            × (counter (rate_limiter redis config time c s).1 (key_for config c)
                ≡ some (1, some window))
      unfolding rate_limiter
      limiter-opens time c s e =
          let (r, counted) = incr-value (key_for config c) s in
          let s' = (incr (key_for config c) s).1 in
          let (r', expires) = expire-value (key_for config c) window s' in
          let s'' = (expire (key_for config c) window s').1 in
          rw (r, e, r')
            (
              ask_ttl-passes time 1 (key_for config c) s'',
              ask_ttl-other time 1 (key_for config c) (key_for config c) s''
                  ∙ rw (expires, counted, e),
            )

      one_more :
          (v a : ℕ)
          → (if not (ltb config.max_requests (v + 1)) then 1 else 0)
              + min a (config.max_requests - (v + 1))
            ≡ min (1 + a) (config.max_requests - v)
      one_more v a = ground arith

      -- The rest of a window.
      admitted-open :
          (k : String) (es : List Event) (s : Server) (v t : ℕ)
          → counter s k ≡ some (v, some t)
          → 1 ≤ v
          → waited es < t
          → admitted k es s ≡ min (arrivals config k es) (config.max_requests - v)
      unfolding admitted arrivals waited
      admitted-open k [] s v t e pos lt = omega arith
      admitted-open k (request time c ∷ es) s v t e pos lt =
          elim (Bool-cases (str_eq (key_for config c) k)) [
            | inl y ↦
                let same = (str_eq_iff (key_for config c) k).0 y in
                let s' = (rate_limiter redis config time c s).1 in
                let (passed, counted) = limiter-counts time c s v (some t) (rw same e) pos in
                let rest =
                  admitted-open k es s' (v + 1) t (rw (sym same) counted) (omega arith) lt in
                rw (y, passed, rest) (one_more v (arrivals config k es))
            | inr n ↦
                let rest =
                  admitted-open k es (rate_limiter redis config time c s).1 v t
                    (limiter-other time c k s n ∙ e) pos lt in
                rw n (omega (arith, rest))
          ]
      admitted-open k (waits n ∷ es) s v t e pos lt =
          admitted-open k es (pass n s) v (t - n) (rw (pass_law n s k, e, in_time)) pos
            (omega (arith, lt))
        where
          in_time : ltb n t ≡ true
          in_time = ground (arith, lt)

      first_one :
          (a : ℕ)
          → (if not (ltb config.max_requests 1) then 1 else 0) + min a (config.max_requests - 1)
            ≡ min (1 + a) config.max_requests
      first_one a = ground arith

      -- For a client whose key is not in Redis, and events that come one after another and together
      -- take less time than the window, however many requests of others are among them: on a Redis
      -- that answers, the number of the client's requests that go on is their number, or the limit
      -- where that is less.
      pub window_admits :
          (k : String) (es : List Event) (s : Server)
          → counter s k ≡ none
          → waited es < window
          → admitted k es s ≡ min (arrivals config k es) config.max_requests
      unfolding admitted arrivals waited
      window_admits k [] s e lt = omega arith
      window_admits k (request time c ∷ es) s e lt =
          elim (Bool-cases (str_eq (key_for config c) k)) [
            | inl y ↦
                let same = (str_eq_iff (key_for config c) k).0 y in
                let s' = (rate_limiter redis config time c s).1 in
                let (passed, counted) = limiter-opens time c s (rw same e) in
                let rest =
                  admitted-open k es s' 1 window (rw (sym same) counted) (omega arith) lt in
                rw (y, passed, rest) (first_one (arrivals config k es))
            | inr n ↦
                let rest =
                  window_admits k es (rate_limiter redis config time c s).1
                    (limiter-other time c k s n ∙ e) lt in
                rw n (omega (arith, rest))
          ]
      window_admits k (waits n ∷ es) s e lt =
          window_admits k es (pass n s) (rw (pass_law n s k, e)) (omega (arith, lt))
