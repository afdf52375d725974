-- ===== src/Examples/RateLimit.antt =====
-- Counters in memory, and a limit of two requests.
use distributed_task_platfor.Prelude.{
  ◌+◌, ◌≡◌, refl, inl, String, none, some, List, [], ◌∷◌, arith, min, str_eq, str_eq_refl,
  if◌then◌else◌,
}
use distributed_task_platfor.Effects.{resolved}
use distributed_task_platfor.Api.RateLimit.{
  RateLimitConfig, Counter, value_of, bumped, expiring, ttl_of, aged, RedisCounters, Client,
}
use distributed_task_platfor.Api.RateLimit.Window.{
  Event, request, waits, waited, arrivals, admitted, Answers, window_admits,
}
use distributed_task_platfor.Api.RateLimit.Lockout.{let_through, locked_out}

abbrev set_counter : String → (Counter → Counter) → (String → Counter) → String → Counter
set_counter k f s k' = if str_eq k k' then f (s k') else s k'

abbrev counters : RedisCounters
counters = record {
  Server = String → Counter;
  incr = λ k s. (resolved (value_of (s k) + 1), set_counter k bumped s);
  expire = λ k n s. (resolved tt, set_counter k (expiring n) s);
  ttl = λ k s. (resolved (ttl_of (s k)), s);
  pass = λ n s k. aged n (s k);
  counter = λ s k. s k;
  incr_law = λ k s. inl (refl, rw (str_eq_refl k));
  expire_law = λ k n s. inl (refl, rw (str_eq_refl k));
  ttl_law = λ k s. (inl refl, λ k'. refl);
  other_law = λ k k' n s e. (rw e, rw e);
  pass_law = λ n s k. refl;
}

counters-Answers : Answers counters
counters-Answers = record {
  incr_answers = λ k s. (value_of (s k) + 1, refl);
  expire_answers = λ k n s. refl;
  ttl_answers = λ k s. (ttl_of (s k), refl);
}

abbrev two_a_minute : RateLimitConfig
two_a_minute = record { window_ms = 60000; max_requests = 2; key_prefix = "limit" }

abbrev ann : Client
ann = record { user_id = some "ann"; ip = none }

abbrev bob : Client
bob = record { user_id = none; ip = some "bob" }

abbrev traffic : List Event
traffic =
    request 0 ann ∷ request 1 bob ∷ waits 5 ∷ request 5000 ann ∷ waits 20 ∷ request 25000 ann ∷ []

abbrev no_counters : String → Counter
no_counters k = none

abbrev ann_is_stuck : String → Counter
ann_is_stuck k = if str_eq k "limit:ann" then some (2, none) else none

traffic_time : waited traffic ≡ 25
unfolding waited
traffic_time = refl

window_admits_example :
    admitted counters two_a_minute "limit:ann" traffic no_counters
    ≡ min (arrivals two_a_minute "limit:ann" traffic) 2
window_admits_example =
    window_admits counters two_a_minute counters-Answers "limit:ann" traffic no_counters refl
      (omega (arith, traffic_time))

locked_out_example : let_through counters two_a_minute "limit:ann" traffic ann_is_stuck ≡ 0
locked_out_example =
    locked_out counters two_a_minute "limit:ann" traffic ann_is_stuck
      (2, refl, omega arith, omega arith)
