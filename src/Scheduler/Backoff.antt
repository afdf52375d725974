-- ===== src/Scheduler/Backoff.antt =====
-- services/backoff.service.ts of the scheduler, next to the delays of the worker's utils/retry.ts.
use distributed_task_platfor.Prelude.{ℕ, ◌*◌, ◌^◌, ◌≤◌, ◌≡◌, ◌==◌, if◌then◌else◌, arith}
use distributed_task_platfor.Worker.{get_retry_delay, jittered_delay_ms}

-- BackoffService.getDelayMs
unfoldable pub get_delay_ms : ℕ → ℕ
get_delay_ms retry_count =
    if retry_count == 1
    then 10 * 1000
    else if retry_count == 2
    then 30 * 1000
    else if retry_count == 3
    then 60 * 1000
    else if retry_count == 4
    then 120 * 1000
    else 120 * 1000

-- The scheduler's delay of a retry is the worker's base delay in milliseconds, and with a jitter of
-- r over 2 ^ 53, which the rounding of doubles may raise to 1, the worker waits at least half of it
-- and at most all of it; it waits just half at 0 and all of it at 1.
pub jittered_delay_bounds :
    (retry_count r : ℕ)
    → r ≤ 2 ^ 53
    → (get_delay_ms retry_count ≡ get_retry_delay retry_count * 1000)
      × (get_delay_ms retry_count ≤ 2 * jittered_delay_ms (get_retry_delay retry_count) r)
      × (jittered_delay_ms (get_retry_delay retry_count) r ≤ get_delay_ms retry_count)
      × (2 * jittered_delay_ms (get_retry_delay retry_count) 0 ≡ get_delay_ms retry_count)
      × (jittered_delay_ms (get_retry_delay retry_count) (2 ^ 53) ≡ get_delay_ms retry_count)
unfolding get_delay_ms get_retry_delay jittered_delay_ms
jittered_delay_bounds retry_count r h = ground arith
