-- ===== src/Api/RateLimit.antt =====
-- services/api-service/src/middleware/rate-limiter.middleware.ts: a counter in Redis for each
-- client, which expires with its window. Redis is a parameter; its calls can fail.
pub mod Window
pub mod Lockout
use distributed_task_platfor.Prelude.{
  ℕ, ◌+◌, ◌-◌, ◌*◌, ◌/◌, ◌≡◌, ◌⊎◌, String, Bool, true, false, Option, none, some, List, [], ◌∷◌,
  ◌==◌, ltb, str_eq, if◌then◌else◌,
}
use Prim.Native.String.{◌++◌ as ◌+++◌}
use distributed_task_platfor.Effects.{Settled, resolved, rejected}

-- RateLimitConfig
pub record RateLimitConfig : Type 0 where
  pub window_ms : ℕ
  pub max_requests : ℕ
  pub key_prefix : String

-- What TTL answers; a negative number stands for no expiry, and for no key.
pub data Ttl : Type 0 where
  seconds : ℕ → Ttl
  no_expiry no_key : Ttl

-- A key's value, and the seconds that it has left.
abbrev pub Counter : Type 0
Counter = Option (ℕ × Option ℕ)

abbrev pub value_of : Counter → ℕ
value_of none = 0
value_of (some c) = c.0

abbrev pub bumped : Counter → Counter
bumped none = some (1, none)
bumped (some c) = some (c.0 + 1, c.1)

abbrev pub expiring : ℕ → Counter → Counter
expiring n none = none
expiring n (some c) = some (c.0, some n)

abbrev pub ttl_of : Counter → Ttl
ttl_of none = no_key
ttl_of (some (v, none)) = no_expiry
ttl_of (some (v, some t)) = seconds t

abbrev pub aged : ℕ → Counter → Counter
aged n none = none
aged n (some (v, none)) = some (v, none)
aged n (some (v, some t)) = if ltb n t then some (v, some (t - n)) else none

-- Redis: INCR, EXPIRE and TTL as they are documented. A call that is rejected was served or not.
pub record RedisCounters : Type 1 where
  pub Server : Type 0
  pub incr : String → Server → Settled ℕ × Server
  pub expire : String → ℕ → Server → Settled (Unit {0}) × Server
  pub ttl : String → Server → Settled Ttl × Server
  pub pass : ℕ → Server → Server
  pub counter : Server → String → Counter
  pub incr_law :
      (k : String) (s : Server)
      → (((incr k s).0 ≡ resolved (value_of (counter s k) + 1))
          × (counter (incr k s).1 k ≡ bumped (counter s k)))
        ⊎ ((e : _) × ((incr k s).0 ≡ rejected e)
            × ((counter (incr k s).1 k ≡ counter s k)
                ⊎ (counter (incr k s).1 k ≡ bumped (counter s k))))
  pub expire_law :
      (k : String) (n : ℕ) (s : Server)
      → (((expire k n s).0 ≡ resolved tt) × (counter (expire k n s).1 k ≡ expiring n (counter s k)))
        ⊎ ((e : _) × ((expire k n s).0 ≡ rejected e))
  pub ttl_law :
      (k : String) (s : Server)
      → (((ttl k s).0 ≡ resolved (ttl_of (counter s k))) ⊎ ((e : _) × ((ttl k s).0 ≡ rejected e)))
        × ((k' : String) → counter (ttl k s).1 k' ≡ counter s k')
  pub other_law :
      (k k' : String) (n : ℕ) (s : Server)
      → str_eq k k' ≡ false
      → (counter (incr k s).1 k' ≡ counter s k') × (counter (expire k n s).1 k' ≡ counter s k')
  pub pass_law : (n : ℕ) (s : Server) (k : String) → counter (pass n s) k ≡ aged n (counter s k)

-- The X-RateLimit headers.
pub record Headers : Type 0 where
  pub limit : ℕ
  pub remaining : ℕ
  pub reset : ℕ

-- next(), with the headers that are set by then, or the response 429.
pub data Verdict : Type 0 where
  goes_on : Option Headers → Verdict
  too_many : Headers → Ttl → Verdict

-- `a || b` on strings: the empty one is false.
abbrev pub or_text : Option String → String → String
or_text none d = d
or_text (some a) d = if str_eq a "" then d else a

-- What the limiter reads of a request.
pub record Client : Type 0 where
  pub user_id : Option String
  pub ip : Option String

-- The key of a client.
abbrev pub key_for : RateLimitConfig → Client → String
key_for config c = config.key_prefix +++ (":" +++ or_text c.user_id (or_text c.ip "anonymous"))

-- Math.ceil(ms / 1000)
abbrev pub ceil_seconds : ℕ → ℕ
ceil_seconds ms = (ms + 999) / 1000

-- The time now, in whole seconds, plus what TTL answered.
abbrev pub reset_at : ℕ → Ttl → ℕ
reset_at time (seconds n) = ceil_seconds time + n
reset_at time no_expiry = ceil_seconds time - 1
reset_at time no_key = ceil_seconds time - 2

abbrev pub headers_for : RateLimitConfig → ℕ → ℕ → Ttl → Headers
headers_for config time current t = record {
  limit = config.max_requests;
  remaining = config.max_requests - current;
  reset = reset_at time t;
}

module _ (redis : RedisCounters) where
  open redis use {Server, incr, expire, ttl}

  module _ (config : RateLimitConfig) (time : ℕ) where
    abbrev pub decide : ℕ → Settled Ttl → Verdict
    decide current (rejected e) = goes_on none
    decide current (resolved t) =
        if ltb config.max_requests current
        then too_many (headers_for config time current t) t
        else goes_on (some (headers_for config time current t))

    abbrev pub ask_ttl : String → ℕ → Server → Verdict × Server
    ask_ttl key current s = let (t, s') = ttl key s in (decide current t, s')

    abbrev pub after_expire : String → ℕ → Settled (Unit {0}) × Server → Verdict × Server
    after_expire key current (rejected e, s) = (goes_on none, s)
    after_expire key current (resolved _, s) = ask_ttl key current s

    abbrev pub after_incr : String → Settled ℕ × Server → Verdict × Server
    after_incr key (rejected e, s) = (goes_on none, s)
    after_incr key (resolved current, s) =
        if current == 1
        then after_expire key current (expire key (ceil_seconds config.window_ms) s)
        else ask_ttl key current s

    -- The middleware of rateLimiter(config), for a request at the time given; its calls are made
    -- without those of another request in between, and no time passes between them.
    unfoldable pub rate_limiter : Client → Server → Verdict × Server
    rate_limiter client s = let key = key_for config client in after_incr key (incr key s)

-- authRateLimiter, apiRateLimiter, jobCreationRateLimiter
abbrev pub auth_limit : RateLimitConfig
auth_limit = record { window_ms = 15 * 60 * 1000; max_requests = 20; key_prefix = "ratelimit:auth" }

abbrev pub api_limit : RateLimitConfig
api_limit = record { window_ms = 60 * 1000; max_requests = 100; key_prefix = "ratelimit:api" }

abbrev pub job_creation_limit : RateLimitConfig
job_creation_limit = record {
  window_ms = 60 * 1000;
  max_requests = 1000;
  key_prefix = "ratelimit:jobs";
}
