-- ===== src/Api/RateLimit/Lockout.antt =====
-- rate-limiter.middleware.ts: a counter that has lost its expiry.
use distributed_task_platfor.Prelude.{
  ℕ, ◌+◌, ◌≤◌, ◌<◌, ◌≡◌, refl, ◌∙◌, subst, inl, inr, String, Bool, true, false, ◌&&◌, none, some,
  List, [], ◌∷◌, ◌==◌, ltb, str_eq, str_eq_iff, Bool-cases, arith, if◌then◌else◌,
}
use distributed_task_platfor.Effects.{Settled, resolved, rejected}
use distributed_task_platfor.Api.RateLimit.{
  RateLimitConfig, RedisCounters, Client, key_for, rate_limiter, Ttl, decide, ceil_seconds,
}
use distributed_task_platfor.Api.RateLimit.Window.{
  Event, request, waits, passes, ask_ttl-other, limiter-other,
}

abbrev pub is_resolved : {A : Type 0} → Settled A → Bool
is_resolved (resolved a) = true
is_resolved (rejected e) = false

module _ (redis : RedisCounters) where
  open redis use {Server, incr, expire, ttl, pass, counter, incr_law, ttl_law, pass_law}

  module _ (config : RateLimitConfig) where
    -- Redis answers the calls that a request of the key leads to: INCR, EXPIRE where the value is
    -- 1, and TTL.
    abbrev pub answered_from : String → Settled ℕ × Server → Bool
    answered_from k (rejected e, s) = false
    answered_from k (resolved current, s) =
        if current == 1
        then is_resolved (expire k (ceil_seconds config.window_ms) s).0
          && is_resolved (ttl k (expire k (ceil_seconds config.window_ms) s).1).0
        else is_resolved (ttl k s).0

    abbrev pub answered : Client → Server → Bool
    answered c s = answered_from (key_for config c) (incr (key_for config c) s)

    -- How many requests with the key go on although Redis answers all of their calls.
    unfoldable pub let_through : String → List Event → Server → ℕ
    let_through k [] s = 0
    let_through k (request time c ∷ es) s =
        let (v, s') = rate_limiter redis config time c s in
        (if str_eq (key_for config c) k && (answered c s && passes v) then 1 else 0)
        + let_through k es s'
    let_through k (waits n ∷ es) s = let_through k es (pass n s)

    -- The key never expires, and its value has reached the limit.
    abbrev pub Stuck : String → Server → Type 0
    Stuck k s = (v : ℕ) × (counter s k ≡ some (v, none)) × (config.max_requests ≤ v) × (1 ≤ v)

    decided :
        (time current : ℕ) (r : Settled Ttl)
        → config.max_requests < current
        → (is_resolved r && passes (decide redis config time current r)) ≡ false
    decided time current (rejected e) lt = refl
    decided time current (resolved t) lt = rw (over current lt)
      where
        over : (n : ℕ) → config.max_requests < n → ltb config.max_requests n ≡ true
        over n h = ground (arith, h)

    limiter-Stuck :
        (time : ℕ) (c : Client) (s : Server)
        → Stuck (key_for config c) s
        → ((answered c s && passes (rate_limiter redis config time c s).0) ≡ false)
          × Stuck (key_for config c) (rate_limiter redis config time c s).1
    unfolding rate_limiter
    limiter-Stuck time c s (v, e, full, pos) = elim (incr_law (key_for config c) s) [
      | inl (r, bump) ↦
          let s' = (incr (key_for config c) s).1 in
          let after =
            ask_ttl-other redis config time (v + 1) (key_for config c) (key_for config c) s' in
          rw (r, e, later)
            (
              decided time (v + 1) (ttl (key_for config c) s').0 (omega (arith, full)),
              (v + 1, after ∙ rw (bump, e), omega (arith, full), omega arith),
            )
      | inr (er, r, inl same) ↦ rw r (refl, (v, rw (same, e), full, pos))
      | inr (er, r, inr bump) ↦ rw r (refl, (v + 1, rw (bump, e), omega (arith, full), omega arith))
    ]
      where
        later : (v + 1 == 1) ≡ false
        later = ground (arith, pos)

    -- If a key is left without an expiry and has reached the limit, which is possible since INCR and
    -- EXPIRE are two calls: no request of its client goes on again, unless Redis fails one of the
    -- calls that are made for it, whatever else arrives, one request after another, however long the
    -- client waits, and whichever calls of Redis fail meanwhile.
    pub locked_out :
        (k : String) (es : List Event) (s : Server) → Stuck k s → let_through k es s ≡ 0
    unfolding let_through
    locked_out k [] s stuck = refl
    locked_out k (request time c ∷ es) s (v, e, full, pos) =
        elim (Bool-cases (str_eq (key_for config c) k)) [
          | inl y ↦
              let same = (str_eq_iff (key_for config c) k).0 y in
              let (no_count, stuck) = limiter-Stuck time c s (v, rw same e, full, pos) in
              let rest =
                locked_out k es (rate_limiter redis config time c s).1
                  (subst (λ x. Stuck x (rate_limiter redis config time c s).1) same stuck) in
              rw (y, no_count) (omega (arith, rest))
          | inr n ↦
              let apart = limiter-other redis config time c k s n ∙ e in
              let rest =
                locked_out k es (rate_limiter redis config time c s).1 (v, apart, full, pos) in
              rw n (omega (arith, rest))
        ]
    locked_out k (waits n ∷ es) s (v, e, full, pos) =
        locked_out k es (pass n s) (v, rw (pass_law n s k, e), full, pos)
