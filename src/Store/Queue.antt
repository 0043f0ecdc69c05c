-- ===== src/Store/Queue.antt =====
-- agent_resilience/store.py: the durable queue, `enqueue`, `claim`, `acknowledge`, `extend_lease`,
-- `retry_or_dead_letter` and `queue_counts`. No caller passes a payload: it is always empty, and is
-- left out. Durations are microseconds.
pub mod Chosen
pub mod Claim
pub mod Single
pub mod Retry
use agent_resilience_runtime.Prelude.{
  ℕ, zero, suc, ◌+◌, ◌*◌, ◌-◌, ◌^◌, min, String, Bool, false, Option, none, some, List, [], ◌∷◌,
  ◌==◌, string_eq, nat_eq, ◌&&◌, ◌||◌, if◌then◌else◌, find, select, update_where, count_where,
  is_some, ltb, leb,
}
use agent_resilience_runtime.Exec.{
  Failure, Result, ok, err, other, integrity_error, pure, raise, gets, modify, transaction, ◌>>=◌,
  ◌>>◌,
}
use agent_resilience_runtime.Models.{QueueDelivery}
use agent_resilience_runtime.Store.Tables.{World, QueueRow, QueueStatus, queue_status_eq, Run}
use agent_resilience_runtime.Store.Checkpoints.{workflow_row, insert_delivery}

abbrev pub second : ℕ
second = 1_000_000

-- `status IN ('PENDING','PROCESSING')`
abbrev pub is_active : QueueRow → Bool
is_active r = r.status == QueueStatus.pending || r.status == QueueStatus.processing

abbrev pub is_active_of : String → QueueRow → Bool
is_active_of id r = r.task_id == id && is_active r

abbrev pub active_delivery : String → World → Option QueueRow
active_delivery id w = find (is_active_of id) w.queue

-- A row of an unknown workflow breaks the foreign key.
abbrev pub enqueue_new : String → ℕ → Run ℕ
enqueue_new id max = do
  new_id ← gets (λ w. w.next_id)
  known ← gets (λ w. is_some (workflow_row id w))
  if known then (modify (insert_delivery id max) >> pure new_id) else raise integrity_error

abbrev pub enqueue_unless : Option QueueRow → String → ℕ → Run ℕ
enqueue_unless (some row) id max = pure row.id
enqueue_unless none id max = enqueue_new id max

unfoldable pub enqueue : String → ℕ → Run ℕ
enqueue id max = transaction (do active ← gets (active_delivery id); enqueue_unless active id max)

-- `status='PROCESSING' AND lease_until < ?`: a missing lease passes no comparison.
abbrev pub lease_before : Option ℕ → ℕ → Bool
lease_before none now = false
lease_before (some l) now = ltb l now

abbrev pub is_expired : ℕ → QueueRow → Bool
is_expired now r = r.status == QueueStatus.processing && lease_before r.lease_until now

abbrev pub release : ℕ → QueueRow → QueueRow
release now r = record r {
  status = QueueStatus.pending;
  worker_id = none;
  lease_until = none;
  updated_at = now;
}

abbrev pub is_available : ℕ → QueueRow → Bool
is_available now r = r.status == QueueStatus.pending && leb r.available_at now

-- `ORDER BY id LIMIT 1`
abbrev pub earlier : QueueRow → Option QueueRow → QueueRow
earlier r none = r
earlier r (some s) = if ltb s.id r.id then s else r

abbrev pub first_by_id : List QueueRow → Option QueueRow
first_by_id [] = none
first_by_id (r ∷ rs) = some (earlier r (first_by_id rs))

abbrev pub is_pending_id : ℕ → QueueRow → Bool
is_pending_id i r = r.id == i && r.status == QueueStatus.pending

abbrev pub take_lease : ℕ → String → ℕ → ℕ → QueueRow → QueueRow
take_lease attempts worker until now r = record r {
  status = QueueStatus.processing;
  attempts = attempts;
  worker_id = some worker;
  lease_until = some until;
  updated_at = now;
}

abbrev pub update_queue : (QueueRow → Bool) → (QueueRow → QueueRow) → World → World
update_queue p f w = record w { queue = update_where p f w.queue }

abbrev pub release_expired : World → World
release_expired w = update_queue (is_expired w.now) (release w.now) w

abbrev pub next_delivery : World → Option QueueRow
next_delivery w = first_by_id (select (is_available w.now) w.queue)

abbrev pub delivery_of : QueueRow → QueueDelivery
delivery_of r = record {
  id = r.id;
  task_id = r.task_id;
  attempts = r.attempts + 1;
  max_attempts = r.max_attempts;
}

abbrev pub claim_row : String → ℕ → Option QueueRow → Run (Option QueueDelivery)
claim_row worker lease none = pure none
claim_row worker lease (some r) = do
  modify (λ w.
      update_queue (is_pending_id r.id) (take_lease (r.attempts + 1) worker (w.now + lease) w.now)
        w)
  pure (some (delivery_of r))

unfoldable pub claim : String → ℕ → Run (Option QueueDelivery)
claim worker lease =
    transaction (do modify release_expired; row ← gets next_delivery; claim_row worker lease row)

abbrev pub has_id : ℕ → QueueRow → Bool
has_id i r = r.id == i

abbrev pub finish : ℕ → QueueRow → QueueRow
finish now r = record r { status = QueueStatus.completed; lease_until = none; updated_at = now }

unfoldable pub acknowledge : ℕ → Run (Unit {0})
acknowledge i = modify (λ w. update_queue (has_id i) (finish w.now) w)

abbrev pub is_processing_id : ℕ → QueueRow → Bool
is_processing_id i r = r.id == i && r.status == QueueStatus.processing

abbrev pub renew : ℕ → ℕ → QueueRow → QueueRow
renew until now r = record r { lease_until = some until; updated_at = now }

unfoldable pub extend_lease : QueueDelivery → ℕ → Run (Unit {0})
extend_lease d lease =
    modify (λ w. update_queue (is_processing_id d.id) (renew (w.now + lease) w.now) w)

-- The `OverflowError` of a product of a float and a power that no float holds, from `2 ** 1024` on.
abbrev pub overflow_error : Failure
overflow_error = other "int too large to convert to float"

-- `min(60.0, base_delay_seconds * (2 ** max(0, delivery.attempts - 1)))`
unfoldable pub retry_delay : ℕ → ℕ → Result ℕ
retry_delay base attempts =
    if leb attempts 1_024
    then ok (min (60 * second) (base * 2 ^ (attempts - 1)))
    else err overflow_error

abbrev pub is_exhausted : QueueDelivery → Bool
is_exhausted d = leb d.max_attempts d.attempts

abbrev pub requeue : Bool → ℕ → ℕ → String → QueueRow → QueueRow
requeue is_dead available now error r = record r {
  status = if is_dead then QueueStatus.dead else QueueStatus.pending;
  available_at = available;
  lease_until = none;
  worker_id = none;
  last_error = some error;
  updated_at = now;
}

-- `text[:n]`
abbrev pub truncate : ℕ → String → String
truncate zero s = String.[]
truncate (suc n) String.[] = String.[]
truncate (suc n) (String.◌∷◌ c s) = String.◌∷◌ c (truncate n s)

-- `error[:2_000]`, shut because of its depth.
unfoldable pub stored_error : String → String
stored_error e = truncate 2_000 e

-- `retry_or_dead_letter` from the delay on.
abbrev pub put_back : QueueDelivery → String → Result ℕ → Run Bool
put_back d error (err e) = raise e
put_back d error (ok delay) = do
  modify (λ w.
      update_queue (has_id d.id)
        (requeue (is_exhausted d) (if is_exhausted d then w.now else w.now + delay) w.now
          (stored_error error))
        w)
  pure (is_exhausted d)

-- The delay is computed for a dead delivery too.
unfoldable pub retry_or_dead_letter : QueueDelivery → String → ℕ → Run Bool
retry_or_dead_letter d error base = put_back d error (retry_delay base d.attempts)

abbrev pub has_status : QueueStatus → QueueRow → Bool
has_status s r = r.status == s

-- One count for each status; `GROUP BY` leaves out those with no row.
unfoldable pub queue_count : QueueStatus → Run ℕ
queue_count s = gets (λ w. count_where (has_status s) w.queue)
