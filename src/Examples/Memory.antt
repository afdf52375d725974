-- ===== src/Examples/Memory.antt =====
-- A service in memory: a table of the one job with id 1, which meets the laws of `Store` and of
-- `IsReliable`.
use distributed_task_platfor.Prelude.{
  ℕ, ◌≡◌, refl, ◌⊎◌, inl, inr, Bool, true, false, Option, none, some, [], ◌==◌, if◌then◌else◌,
  Bool-cases, arith,
}
use distributed_task_platfor.Json.{null, no_fields}
use distributed_task_platfor.Jobs.{Job, medium, queued, message, job_not_found}
use distributed_task_platfor.Effects.{
  Call, find_job, find_by_key, find_jobs, create_job, update_job, update_jobs, complete_job,
  find_result, find_events, rpoplpush, lrange, lpos, load_worker, smembers_active, now, random,
  is_shutting_down, dns_lookup, fetch, send_mail, run_script, Reply, Settled, resolved, rejected,
}
use distributed_task_platfor.Effects.Interleave.{Store, Applied, IsNew, touch}
use distributed_task_platfor.Effects.Single.{IsReliable, IsNeutral, hits, written}

abbrev pub waiting_job : Job
waiting_job = record {
  id = 1;
  user_id = 7;
  job_type = "core/ai";
  status = queued;
  priority = medium;
  payload = "{}";
  idempotency_key = none;
  callback = none;
  progress = 0;
  retry_count = 0;
  next_retry_at = none;
  worker_id = none;
  version = 2;
  failure_reason = none;
  created_at = 0;
  updated_at = 0;
  completed_at = none;
}

-- A table of one row, the job with id 1.
abbrev pub Table : Type 0
Table = Option Job

abbrev pub lookup : Table → ℕ → Option Job
lookup t k = if k == 1 then t else none

abbrev pub write : (Job → Bool) → (Job → Job) → Table → Table
write where_ set none = none
write where_ set (some j) = if where_ j then some (touch 0 (set j)) else some j

abbrev pub changed : (Job → Bool) → Table → ℕ
changed where_ none = 0
changed where_ (some j) = if where_ j then 1 else 0

abbrev pub found : Table → Settled Job
found none = rejected job_not_found
found (some j) = resolved j

abbrev pub on_row : ℕ → (Job → Bool) → (Job → Job) → Table → Settled ℕ × Table
on_row id where_ set t =
    if id == 1 then (resolved (changed where_ t), write where_ set t) else (resolved 0, t)

-- The answers of the calls that leave the table alone: the lists always hand out job 1.
abbrev pub value : (o : Call) → Table → Reply o
value (find_job id) t = lookup t id
value (find_by_key key) t = t
value (find_jobs q) t = []
value (create_job n) t = waiting_job
value (update_job id set) t = waiting_job
value (update_jobs id where_ set) t = 0
value (complete_job id where_ set r) t = 0
value (find_result id) t = none
value (find_events id) t = []
value (rpoplpush p q) t = some 1
value (lrange q) t = []
value (lpos q id) t = none
value (load_worker w) t = some (1, 0)
value smembers_active t = []
value now t = 1000
value random t = 0
value is_shutting_down t = false
value (dns_lookup host) t = "93.184.216.34"
value (fetch r) t = record { status = 200; headers = no_fields; text = "" }
value (send_mail m) t = record { message_id = null; accepted = null }
value (run_script s) t = (none, [])
value _ t = tt

abbrev pub serve : (o : Call) → Table → Settled (Reply o) × Table
serve (update_job id set) t =
    if id == 1
    then (found (write (λ _. true) set t), write (λ _. true) set t)
    else (rejected job_not_found, t)
serve (update_jobs id where_ set) t = on_row id where_ set t
serve (complete_job id where_ set r) t = on_row id where_ set t
serve (create_job n) t = (rejected (message "no second row"), t)
serve o t = (resolved (value o t), t)

on_row_law :
    (id : ℕ) (where_ : Job → Bool) (set : Job → Job) (t : Table) (k : ℕ) (j : Job)
    → lookup t k ≡ some j
    → (j' : Job) × (lookup (on_row id where_ set t).1 k ≡ some j')
      × ((j' ≡ j) ⊎ ((k ≡ id) × (where_ j ≡ true) × (time : ℕ) × (j' ≡ touch time (set j))))
on_row_law id where_ set none k j e = ground arith
on_row_law id where_ set (some i) k j e = elim (Bool-cases (id == 1)) [
  | inr other ↦ (j, rw other e, inl refl)
  | inl here ↦ elim (Bool-cases (where_ j)) [
    | inr miss ↦ (j, ground arith, inl refl)
    | inl hit ↦ (touch 0 (set j), ground arith, inr (ground arith, hit, 0, refl))
  ]
]

pub serve_law :
    (o : Call) (t : Table) (k : ℕ) (j : Job)
    → lookup t k ≡ some j
    → (j' : Job) × (lookup (serve o t).1 k ≡ some j') × ((j' ≡ j) ⊎ Applied o k j j')
serve_law (update_job id set) none k j e = ground arith
serve_law (update_job id set) (some i) k j e = elim (Bool-cases (id == 1)) [
  | inr other ↦ (j, rw other e, inl refl)
  | inl here ↦ (touch 0 (set j), ground arith, inr (ground arith, 0, refl))
]
serve_law (update_jobs id where_ set) t k j e = on_row_law id where_ set t k j e
serve_law (complete_job id where_ set r) t k j e = on_row_law id where_ set t k j e
serve_law _ t k j e = (j, e, inl refl)

on_row-none :
    (id : ℕ) (where_ : Job → Bool) (set : Job → Job) (t : Table) (k : ℕ)
    → lookup t k ≡ none
    → lookup (on_row id where_ set t).1 k ≡ none
on_row-none id where_ set none k e = ground arith
on_row-none id where_ set (some j) k e = ground arith

pub serve-none :
    (o : Call) (t : Table) (k : ℕ)
    → lookup t k ≡ none
    → (lookup (serve o t).1 k ≡ none)
      ⊎ ((j' : Job) × (lookup (serve o t).1 k ≡ some j') × IsNew o j')
serve-none (update_job id set) none k e = inl (ground arith)
serve-none (update_job id set) (some j) k e = inl (ground arith)
serve-none (update_jobs id where_ set) t k e = inl (on_row-none id where_ set t k e)
serve-none (complete_job id where_ set r) t k e = inl (on_row-none id where_ set t k e)
serve-none _ t k e = inl e

abbrev pub memory : Store
memory = record {
  World = Table;
  answer = serve;
  row = lookup;
  row_law = serve_law;
  new_row_law = serve-none;
}

pub serve_update :
    (id : ℕ) (where_ : Job → Bool) (set : Job → Job) (t : Table)
    → ((on_row id where_ set t).0 ≡ resolved (hits where_ (lookup t id)))
      × (lookup (on_row id where_ set t).1 id ≡ written 0 where_ set (lookup t id))
serve_update id where_ set none = ground arith
serve_update id where_ set (some j) = ground arith

pub serve_neutral :
    (o : Call) (t : Table)
    → IsNeutral o
    → (r : Reply o) × ((serve o t).0 ≡ resolved r) × ((k : ℕ) → lookup (serve o t).1 k ≡ lookup t k)
serve_neutral (update_job id set) t h = absurd h
serve_neutral (update_jobs id where_ set) t h = absurd h
serve_neutral (complete_job id where_ set r) t h = absurd h
serve_neutral (create_job n) t h = absurd h
serve_neutral o t h = (value o t, refl, λ k. refl)

abbrev pub memory-IsReliable : IsReliable memory
memory-IsReliable = record {
  time = λ t. 0;
  find_law = λ id t. refl;
  update_law = serve_update;
  complete_law = λ id where_ set r t. serve_update id where_ set t;
  neutral_law = serve_neutral;
}
